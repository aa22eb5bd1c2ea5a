-- ===== src/Cdc/Rounds.antt =====
-- common/cdc/cdc.c: the rounds of file_chunk_cdc.
use seafile_server_learn.Prelude.{
  ℕ, zero, suc, ◌+◌, ◌-◌, ◌*◌, ◌≤◌, ◌≡◌, refl, ltb, Bool, true, false, List, if◌then◌else◌, arith,
  length, length-append, Bool-cases, inl, inr, ◌⊎◌,
}
use seafile_server_learn.Prelude.Exec.{Outcome, ok, failed, out_of_fuel}
use seafile_server_learn.Cdc.Chunk.{
  Env, CdcFileDescriptor, init_cdc_file_descriptor, take_bytes, Chunking, scan, write_cdc_block,
  read_size, fill, first_cur, scan_round, at_end, chunk_loop, chunk_start, file_chunk_cdc,
}
use seafile_server_learn.Cdc.Scan.{parts-length, Scanned, scan-Scanned, first_cur-bounds}
use seafile_server_learn.Cdc.Whole.{
  IsUsable, Going, Filled, Enough, Next, Chunked, fill-Filled, room_left, write_cdc_block-Written,
  cut_block, last_block-Chunked,
}

module _ (env : Env) (d : CdcFileDescriptor) (usable : IsUsable d) (file : List ℕ) where
  fill-lengths :
      (s : Chunking)
      → (length (fill env d (length file) s).rest + length (fill env d (length file) s).buf
          ≡ length s.rest + length s.buf)
        × (length s.buf ≤ length (fill env d (length file) s).buf)
        × ((fill env d (length file) s).cur ≡ s.cur)
  unfolding fill
  fill-lengths s =
      let k = read_size env d (length file) (length s.buf) in
      let parts = parts-length k s.rest in
      let len = length-append s.buf (take_bytes k s.rest) in
      (omega (arith, parts, len), omega (arith, len), refl)

  -- Between reading and scanning, with the fuel for what follows.
  scan_round-Next :
      (n : ℕ) (s : Chunking)
      → Filled env d usable file s
      → d.block_min_sz ≤ length s.buf
      → s.cur + 1 ≤ length s.buf
      → 4 * length s.rest + 2 * length s.buf ≤ n
      → ((c fp : ℕ)
          → c ≡ length s.buf
          → Enough env d usable file n (record s { cur = c; fingerprint = fp }))
      → Next env d usable file n (scan_round env d (length file) s)
  unfolding scan_round
  scan_round-Next n s f min_there not_done fuel scanned =
      let start = first_cur env d (length file) s.cur in
      let (before, after) =
        first_cur-bounds env d (length file) s.cur (length s.buf) min_there not_done in
      let fits = f.fits in
      by_scan (scan env d (length file) s.buf (length s.buf - start) start s.fingerprint)
        (scan-Scanned env d (length file) s.buf (length s.buf - start) start s.fingerprint
          (omega (arith, before, fits)))
        before after
    where
      by_scan :
          (r : Bool × ℕ × ℕ)
          → Scanned env d
              (length s.buf - first_cur env d (length file) s.cur)
              (first_cur env d (length file) s.cur)
              r
          → first_cur env d (length file) s.cur + 1 ≤ length s.buf
          → d.block_min_sz ≤ first_cur env d (length file) s.cur + 1
          → Next env d usable file n (
              if r.0
              then write_cdc_block env d
                  (length file)
                  (r.1 + 1)
                  (record s { cur = r.1; fingerprint = r.2 })
              else ok (record s { cur = r.1; fingerprint = r.2 }))
      by_scan (true, c, fp) (from, to, small) before after =
          let s' : Chunking = record s { cur = c; fingerprint = fp } in
          let f' : Filled env d usable file s' = record {
            whole = f.whole;
            counted = f.counted;
            sized = f.sized;
            many = f.many;
            fits = f.fits;
            short = f.short;
            exhausted = inl (omega (arith, to, before));
          } in
          let many = f.many in
          let room =
            room_left env d usable file (length s.blocks) (length s.buf) (omega (arith, many))
              (omega (arith, not_done)) in
          cut_block env d usable file n c s' f' (omega (arith, from, after))
            (omega (arith, to, before)) fuel (write_cdc_block env d (length file) (c + 1) s')
            (write_cdc_block-Written env d usable file (c + 1) s' room)
      by_scan (false, c, fp) (at, small) before after =
          let here : c ≡ length s.buf = omega (arith, at, before) in
          (
            record {
              whole = f.whole;
              counted = f.counted;
              sized = f.sized;
              many = f.many;
              fits = omega (arith, here, small);
              behind = omega (arith, here);
            },
            scanned c fp here,
          )

  chunk_loop-Chunked :
      (n : ℕ) (s : Chunking)
      → Going env d usable file s
      → Enough env d usable file n s
      → Chunked env d usable file (chunk_loop env d (length file) n s)
  unfolding chunk_loop
  chunk_loop-Chunked zero s g (inl e) = absurd (omega (arith, e))
  chunk_loop-Chunked zero s g (inr e) = let few = e.1 in absurd (omega (arith, few))
  chunk_loop-Chunked (suc n) s g enough =
      let s' = fill env d (length file) s in
      let f = fill-Filled env d usable file s g in
      elim (Bool-cases (env.reads s.file_size)) [
        | inr fails ↦ rw (fails, chunk_loop) (inl (s.file_size, fails))
        | inl reads ↦
            let counted = f.counted in
            let not_larger : ltb (length file) s'.file_size ≡ false = ground arith in
            elim (Bool-cases (at_end env d (length file) s')) [
              | inl ended ↦
                  let done = last_block-Chunked env d usable file s' f (at_the_end s' f ended) in
                  rw (reads, not_larger, ended, chunk_loop) done
              | inr more ↦
                  let done =
                    after_round n (scan_round env d (length file) s')
                      (next s' f more (fill-lengths s) enough)
                      (λ s g e. chunk_loop-Chunked n s g e) in
                  rw (reads, not_larger, more, chunk_loop) done
            ]
      ]
    where
      at_the_end :
          (s : Chunking)
          → Filled env d usable file s
          → at_end env d (length file) s ≡ true
          → length s.rest ≡ 0
      at_the_end s f ended = by_cases f.short f.exhausted
        where
          by_cases :
              ((d.block_min_sz ≤ length s.buf) ⊎ (length s.rest ≡ 0))
              → ((s.cur + 1 ≤ length s.buf) ⊎ (length s.rest ≡ 0))
              → length s.rest ≡ 0
          by_cases (inr none_left) e = none_left
          by_cases (inl enough) (inr none_left) = none_left
          by_cases (inl enough) (inl behind) = absurd (ground arith)

      next :
          (s' : Chunking)
          → Filled env d usable file s'
          → at_end env d (length file) s' ≡ false
          → (length s'.rest + length s'.buf ≡ length s.rest + length s.buf)
            × (length s.buf ≤ length s'.buf)
            × (s'.cur ≡ s.cur)
          → Enough env d usable file (suc n) s
          → Next env d usable file n (scan_round env d (length file) s')
      next s' f more (total, grown, same) enough =
          let min_there : d.block_min_sz ≤ length s'.buf = ground arith in
          let not_done : s'.cur + 1 ≤ length s'.buf = ground arith in
          scan_round-Next n s' f min_there not_done (fuel_left enough)
            (λ c fp at. still_enough enough not_done c fp at)
        where
          fuel_left :
              Enough env d usable file (suc n) s → 4 * length s'.rest + 2 * length s'.buf ≤ n
          fuel_left (inl e) = omega (arith, e, total, grown)
          fuel_left (inr (at, e)) = omega (arith, e, total, grown)

          still_enough :
              Enough env d usable file (suc n) s
              → s'.cur + 1 ≤ length s'.buf
              → (c fp : ℕ) → c ≡ length s'.buf
              → Enough env d usable file n (record s' { cur = c; fingerprint = fp })
          still_enough (inl e) not_done c fp at = inr (at, omega (arith, e, total, grown))
          still_enough (inr (seen, e)) not_done c fp at =
              inr (at, omega (arith, e, total, grown, seen, same, not_done))

      after_round :
          (n : ℕ) (r : Outcome Chunking)
          → Next env d usable file n r
          → ((s : Chunking)
              → Going env d usable file s
              → Enough env d usable file n s
              → Chunked env d usable file (chunk_loop env d (length file) n s))
          → Chunked env d usable file (elim r [
            | ok s' ↦ chunk_loop env d (length file) n s'
            | failed ↦ failed
            | out_of_fuel ↦ out_of_fuel
          ])
      after_round n (ok s) (g, e) recur = recur s g e
      after_round n failed h recur = h
      after_round n out_of_fuel h recur = h

-- The block sizes that file_chunk_cdc uses are usable where a smallest block holds the window of the
-- fingerprint, and the buffer has room for a smallest block and one read more.
pub sizes_IsUsable :
    (descr : CdcFileDescriptor)
    → 48 ≤ (init_cdc_file_descriptor descr).block_min_sz
    → (init_cdc_file_descriptor descr).block_min_sz + 4096
      ≤ (init_cdc_file_descriptor descr).block_max_sz
    → IsUsable (init_cdc_file_descriptor descr)
sizes_IsUsable descr w h = record { window = w; room = h }

-- Let the smallest block, with the default for 0, have at least 48 bytes, let the largest one be at
-- least 4096 bytes larger than the smallest, let the descriptor be one that no file was counted in
-- before (its file_size is 0, which the call does not reset), and let the size of the file not change.
-- Then file_chunk_cdc always ends, after at most 4 rounds for each byte and 2 more, and fails only where
-- a read or the writing of a block fails, so it never bails out for lack of room for checksums. Where it
-- returns 0, the contents of its blocks in order are the file, every block but the last is between the
-- smallest and the largest size, the last one is not empty and at most as large, the size that was
-- counted is that of the file, and there are no more blocks than checksums have room.
pub file_chunk_cdc-Chunked :
    (env : Env) (descr : CdcFileDescriptor) (file : List ℕ)
    (window : 48 ≤ (init_cdc_file_descriptor descr).block_min_sz)
    (h : (init_cdc_file_descriptor descr).block_min_sz + 4096
      ≤ (init_cdc_file_descriptor descr).block_max_sz)
    → descr.file_size ≡ 0
    → Chunked env
        (init_cdc_file_descriptor descr)
        (sizes_IsUsable descr window h)
        file
        (file_chunk_cdc env descr (length file) file)
unfolding file_chunk_cdc init_cdc_file_descriptor
file_chunk_cdc-Chunked env descr file window h fresh =
    chunk_loop-Chunked env (init_cdc_file_descriptor descr) (sizes_IsUsable descr window h) file
      (4 * length file + 2) (chunk_start (init_cdc_file_descriptor descr) file)
      (record {
        whole = refl;
        counted = omega (arith, fresh);
        sized = tt;
        many = omega arith;
        fits = large (init_cdc_file_descriptor descr) h;
        behind = omega arith;
      })
      (inl (omega arith))
  where
    large :
        (d : CdcFileDescriptor) → d.block_min_sz + 4096 ≤ d.block_max_sz → 0 + 1 ≤ d.block_max_sz
    large d h = omega (arith, h)
