-- ===== src/Cdc/Chunk.antt =====
-- common/cdc/cdc.c: file_chunk_cdc. A file is a list of bytes; `rest` is what was not read yet, and the
-- buffer is the list of its `tail` valid bytes. The loop runs on fuel.
use Prim.Native.Nat.{bit_and}
use seafile_server_learn.Prelude.{
  ◌%◌, ◌^◌, ℕ, zero, suc, ◌+◌, ◌-◌, ◌*◌, ◌/◌, ◌==◌, ltb, leb, ◌||◌, not, Bool, true, false, Option,
  none, some, List, [], ◌∷◌, ◌++◌, if◌then◌else◌, length, get_or,
}
use seafile_server_learn.Prelude.Text.{Text}
use seafile_server_learn.Prelude.Exec.{Outcome, ok, failed, out_of_fuel}

-- The Rabin fingerprints, whether a read at a position succeeds, and the checksum of a block that is
-- written at an offset, if that succeeds.
pub record Env : Type 0 where
  pub finger : List ℕ → ℕ
  pub rolling_finger : ℕ → ℕ → ℕ → ℕ
  pub reads : ℕ → Bool
  pub write_block : ℕ → List ℕ → Option Text

pub record CdcFileDescriptor : Type 0 where
  pub block_min_sz : ℕ
  pub block_max_sz : ℕ
  pub block_sz : ℕ
  pub file_size : ℕ

abbrev or_default : ℕ → ℕ → ℕ
or_default default n = if n == 0 then default else n

unfoldable pub init_cdc_file_descriptor : CdcFileDescriptor → CdcFileDescriptor
init_cdc_file_descriptor d = record {
  block_min_sz = or_default 262144 d.block_min_sz;
  block_max_sz = or_default 4194304 d.block_max_sz;
  block_sz = or_default 1048576 d.block_sz;
  file_size = d.file_size;
}

unfoldable pub take_bytes : ℕ → List ℕ → List ℕ
take_bytes zero xs = []
take_bytes (suc n) [] = []
take_bytes (suc n) (x ∷ xs) = x ∷ take_bytes n xs

unfoldable pub drop_bytes : ℕ → List ℕ → List ℕ
drop_bytes zero xs = xs
drop_bytes (suc n) [] = []
drop_bytes (suc n) (x ∷ xs) = drop_bytes n xs

-- The variables of the loop. `blocks` are those written so far, the last one first, with their checksums.
pub record Chunking : Type 0 where
  pub rest : List ℕ
  pub buf : List ℕ
  pub cur : ℕ
  pub fingerprint : ℕ
  pub file_size : ℕ
  pub offset : ℕ
  pub blocks : List (List ℕ × Text)

module _ (env : Env) (d : CdcFileDescriptor) (expected_size : ℕ) where
  unfoldable pub max_block_nr : ℕ
  max_block_nr = (expected_size + d.block_min_sz - 1) / d.block_min_sz

  unfoldable pub is_break : ℕ → Bool
  is_break fp = bit_and fp (d.block_sz - 1) == bit_and 19 (d.block_sz - 1)

  unfoldable pub next_fingerprint : List ℕ → ℕ → ℕ → ℕ
  unfolding drop_bytes take_bytes
  next_fingerprint buf cur fp =
      if cur == d.block_min_sz - 1
      then env.finger (take_bytes 48 (drop_bytes (cur + 1 - 48) buf))
      else env.rolling_finger fp (get_or buf (cur - 48) 0) (get_or buf cur 0)

  -- The inner loop with so many bytes left to scan: whether a break was found, where, and the fingerprint.
  unfoldable pub scan : List ℕ → (left cur fp : ℕ) → Bool × ℕ × ℕ
  unfolding next_fingerprint is_break
  scan buf zero cur fp = (false, cur, fp)
  scan buf (suc left) cur fp =
      let fp' = next_fingerprint buf cur fp in
      let later = scan buf left (cur + 1) fp' in
      if is_break fp' || leb d.block_max_sz (cur + 1) then (true, cur, fp') else later

  -- The int `offset` as the 64-bit unsigned offset of the block descriptor.
  unfoldable pub to_uint64 : ℕ → ℕ
  to_uint64 offset = if ltb offset (2 ^ 31) then offset else offset + (2 ^ 64 - 2 ^ 32)

  -- WRITE_CDC_BLOCK, after the test that the array of checksums has room.
  unfoldable pub write_cdc_block : ℕ → Chunking → Outcome Chunking
  unfolding take_bytes drop_bytes max_block_nr to_uint64
  write_cdc_block block_sz s =
      if length s.blocks == max_block_nr
      then failed
      else elim (env.write_block (to_uint64 s.offset) (take_bytes block_sz s.buf)) [
        | none ↦ failed
        | some checksum ↦ ok (record s {
          buf = drop_bytes block_sz s.buf;
          cur = 0;
          offset = (s.offset + block_sz) % 2 ^ 32;
          blocks = (take_bytes block_sz s.buf, checksum) ∷ s.blocks;
        })
      ]

  unfoldable pub read_size : ℕ → ℕ
  read_size tail =
      if ltb tail d.block_min_sz
      then d.block_min_sz - tail + 4096
      else if ltb (d.block_max_sz - tail) 4096
      then d.block_max_sz - tail
      else 4096

  -- After `readn`, which reads less only at the end of the file.
  unfoldable pub fill : Chunking → Chunking
  unfolding read_size take_bytes drop_bytes
  fill s =
      let got = take_bytes (read_size (length s.buf)) s.rest in
      record s {
        rest = drop_bytes (read_size (length s.buf)) s.rest;
        buf = s.buf ++ got;
        file_size = s.file_size + length got;
      }

  -- The end of the file: what is left is a block.
  unfoldable pub last_block : Chunking → Outcome Chunking
  unfolding write_cdc_block
  last_block s = if ltb 0 (length s.buf) then write_cdc_block (length s.buf) s else ok s

  unfoldable pub first_cur : ℕ → ℕ
  first_cur cur = if ltb cur (d.block_min_sz - 1) then d.block_min_sz - 1 else cur

  -- The rest of a round: a block up to the break, or all bytes scanned.
  unfoldable pub scan_round : Chunking → Outcome Chunking
  unfolding scan write_cdc_block first_cur
  scan_round s =
      let r = scan s.buf (length s.buf - first_cur s.cur) (first_cur s.cur) s.fingerprint in
      if r.0
      then write_cdc_block (r.1 + 1) (record s { cur = r.1; fingerprint = r.2 })
      else ok (record s { cur = r.1; fingerprint = r.2 })

  abbrev pub at_end : Chunking → Bool
  at_end s = ltb (length s.buf) d.block_min_sz || leb (length s.buf) s.cur

  unfoldable pub chunk_loop : (fuel : ℕ) → Chunking → Outcome Chunking
  unfolding fill last_block scan_round
  chunk_loop zero s = out_of_fuel
  chunk_loop (suc fuel) s =
      if not (env.reads s.file_size)
      then failed
      else if ltb expected_size (fill s).file_size
      then failed
      else if at_end (fill s)
      then last_block (fill s)
      else elim (scan_round (fill s)) [
        | ok s' ↦ chunk_loop fuel s'
        | failed ↦ failed
        | out_of_fuel ↦ out_of_fuel
      ]

-- The size that was counted before is not reset.
abbrev pub chunk_start : CdcFileDescriptor → List ℕ → Chunking
chunk_start d file = record {
  rest = file;
  buf = [];
  cur = 0;
  fingerprint = 0;
  file_size = d.file_size;
  offset = 0;
  blocks = [];
}

-- `st_size` is the size of the file when it was opened.
unfoldable pub file_chunk_cdc : Env → CdcFileDescriptor → ℕ → List ℕ → Outcome Chunking
unfolding init_cdc_file_descriptor chunk_loop
file_chunk_cdc env descr st_size file =
    chunk_loop env (init_cdc_file_descriptor descr) st_size (4 * length file + 2)
      (chunk_start (init_cdc_file_descriptor descr) file)
