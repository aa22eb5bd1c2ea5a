-- ===== src/Cdc/Whole.antt =====
-- common/cdc/cdc.c: the blocks of a file are the file.
use mathlib.Core.Path.{subst}
use mathlib.Core.List.{append_assoc, append-nil}
use native.Mathlib.Nat.{div-add-mod', mod-lt, mul-le-mul_right}
use seafile_server_learn.Prelude.{
  ℕ, zero, suc, ◌+◌, ◌-◌, ◌*◌, ◌/◌, ◌≤◌, ◌==◌, ◌≡◌, refl, sym, ap, ◌∙◌, ltb, leb, false, none, List,
  [], ◌∷◌, ◌++◌, arith, length, length-append, All, Bool-cases, Option-cases, inl, inr, ◌⊎◌,
}
use seafile_server_learn.Prelude.Text.{Text}
use seafile_server_learn.Prelude.Exec.{Outcome, ok, failed, out_of_fuel}
use seafile_server_learn.Cdc.Chunk.{
  to_uint64, Env, CdcFileDescriptor, take_bytes, drop_bytes, Chunking, max_block_nr,
  write_cdc_block, read_size, fill, last_block,
}
use seafile_server_learn.Cdc.Scan.{
  take_bytes-append, take_bytes-length, parts-length, take_bytes_all, take_bytes_whole,
  take_bytes_short, read_size-bounds,
}

-- The contents of the blocks, the first one first.
abbrev pub written : List (List ℕ × Text) → List ℕ
written [] = []
written ((block, checksum) ∷ blocks) = written blocks ++ block

-- The sizes that a block can have without reading before the buffer or overflowing it.
pub record IsUsable (d : CdcFileDescriptor) : Type 0 where
  pub window : 48 ≤ d.block_min_sz
  pub room : d.block_min_sz + 4096 ≤ d.block_max_sz

module _ (env : Env) (d : CdcFileDescriptor) (usable : IsUsable d) (file : List ℕ) where
  abbrev pub Sized : List ℕ × Text → Type 0
  Sized b = (d.block_min_sz ≤ length b.0) × (length b.0 ≤ d.block_max_sz)

  -- Between two rounds.
  pub record Going (s : Chunking) : Type 0 where
    pub whole : written s.blocks ++ (s.buf ++ s.rest) ≡ file
    pub counted : s.file_size + length s.rest ≡ length file
    pub sized : All Sized s.blocks
    pub many : length s.blocks * d.block_min_sz + length s.buf + length s.rest ≤ length file
    pub fits : length s.buf + 1 ≤ d.block_max_sz
    pub behind : s.cur ≤ length s.buf

  -- Fuel for what is left to read and to scan.
  abbrev pub Enough : ℕ → Chunking → Type 0
  Enough n s =
      (4 * length s.rest + 2 * length s.buf + 2 ≤ n)
      ⊎ ((s.cur ≡ length s.buf) × (4 * length s.rest + 2 * length s.buf + 1 ≤ n))

  -- The last block can be smaller than the others.
  abbrev pub Blocks : List (List ℕ × Text) → Type 0
  Blocks [] = file ≡ []
  Blocks (b ∷ bs) = (1 ≤ length b.0) × (length b.0 ≤ d.block_max_sz) × All Sized bs

  abbrev pub Fault : Type 0
  Fault =
      ((n : ℕ) × (env.reads n ≡ false))
      ⊎ ((o : ℕ) × (block : List ℕ) × (env.write_block o block ≡ none))

  abbrev pub Chunked : Outcome Chunking → Type 0
  Chunked (ok s) =
      (written s.blocks ≡ file)
      × Blocks s.blocks
      × (s.file_size ≡ length file)
      × (length s.blocks ≤ max_block_nr env d (length file))
  Chunked failed = Fault
  Chunked out_of_fuel = ⊥

  -- There is room for one more checksum while bytes are left.
  pub room_left :
      (n tail : ℕ)
      → n * d.block_min_sz + tail ≤ length file
      → 1 ≤ tail
      → n + 1 ≤ max_block_nr env d (length file)
  unfolding max_block_nr
  room_left n tail h k =
      elim (Bool-cases (leb (n + 1) ((length file + d.block_min_sz - 1) / d.block_min_sz))) [
        | inl fits ↦ ground arith
        | inr full ↦
            let x = length file + d.block_min_sz - 1 in
            let few : x / d.block_min_sz ≤ n = ground arith in
            let most = mul-le-mul_right d.block_min_sz few in
            let split = div-add-mod' x d.block_min_sz in
            let window = usable.window in
            let p : 1 ≤ d.block_min_sz = omega (arith, window) in
            let below = mod-lt x p in absurd (ground arith)
      ]

  -- A block of the first bytes of the buffer.
  abbrev pub Written : ℕ → Chunking → Outcome Chunking → Type 0
  Written n s (ok s') =
      (s'.rest ≡ s.rest)
      × (s'.buf ≡ drop_bytes n s.buf)
      × (s'.cur ≡ 0)
      × (s'.file_size ≡ s.file_size)
      × ((checksum : Text) × (s'.blocks ≡ (take_bytes n s.buf, checksum) ∷ s.blocks))
  Written n s failed = Fault
  Written n s out_of_fuel = ⊥

  pub write_cdc_block-Written :
      (n : ℕ) (s : Chunking)
      → length s.blocks + 1 ≤ max_block_nr env d (length file)
      → Written n s (write_cdc_block env d (length file) n s)
  unfolding write_cdc_block
  write_cdc_block-Written n s h =
      let room : (length s.blocks == max_block_nr env d (length file)) ≡ false = ground arith in
      elim (Option-cases
        (env.write_block (to_uint64 env d (length file) s.offset) (take_bytes n s.buf))) [
          | inl refused ↦
              rw (room, refused, write_cdc_block)
                (inr (to_uint64 env d (length file) s.offset, take_bytes n s.buf, refused))
          | inr (checksum, stored) ↦
              rw (room, stored, write_cdc_block) (refl, refl, refl, refl, (checksum, refl))
        ]

  -- The buffer after reading.
  pub record Filled (s : Chunking) : Type 0 where
    pub whole : written s.blocks ++ (s.buf ++ s.rest) ≡ file
    pub counted : s.file_size + length s.rest ≡ length file
    pub sized : All Sized s.blocks
    pub many : length s.blocks * d.block_min_sz + length s.buf + length s.rest ≤ length file
    pub fits : length s.buf ≤ d.block_max_sz
    pub short : (d.block_min_sz ≤ length s.buf) ⊎ (length s.rest ≡ 0)
    pub exhausted : (s.cur + 1 ≤ length s.buf) ⊎ (length s.rest ≡ 0)

  pub fill-Filled : (s : Chunking) → Going s → Filled (fill env d (length file) s)
  unfolding fill
  fill-Filled s g =
      let k = read_size env d (length file) (length s.buf) in
      let parts = parts-length k s.rest in
      let len = length-append s.buf (take_bytes k s.rest) in
      let (small, some', enough) =
        read_size-bounds env d (length file) (length s.buf) usable.room g.fits in
      let most = take_bytes-length k s.rest in
      let counted = g.counted in
      let many = g.many in
      let behind = g.behind in
      record {
        whole =
            ap (λ l. written s.blocks ++ l)
              (append_assoc s.buf (take_bytes k s.rest) (drop_bytes k s.rest)
                ∙ ap (λ l. s.buf ++ l) (take_bytes-append k s.rest))
            ∙ g.whole;
        counted = omega (arith, parts, counted);
        sized = g.sized;
        many = omega (arith, parts, len, many);
        fits = omega (arith, len, small, most);
        short = elim (take_bytes_short k s.rest) [
          | inr nothing ↦ inr nothing
          | inl full ↦ inl (omega (arith, len, full, enough))
        ];
        exhausted = elim (take_bytes_short k s.rest) [
          | inr nothing ↦ inr nothing
          | inl full ↦ inl (omega (arith, len, full, some', behind))
        ];
      }

  empty_list : (l : List ℕ) → length l ≡ 0 → l ≡ []
  empty_list [] h = refl
  empty_list (x ∷ l) h = absurd (ground arith)

  -- The array of checksums is large enough for the blocks.
  within : (n : ℕ) → n * d.block_min_sz ≤ length file → n ≤ max_block_nr env d (length file)
  within zero h = omega arith
  within (suc m) h =
      let window = usable.window in
      let p : 1 ≤ d.block_min_sz = omega (arith, window) in
      let more : (suc m) * d.block_min_sz ≡ m * d.block_min_sz + d.block_min_sz = ground arith in
      let room = room_left m d.block_min_sz (omega (arith, h, more)) p in omega (arith, room)

  Sized-Blocks :
      (blocks : List (List ℕ × Text)) → All Sized blocks → written blocks ≡ file → Blocks blocks
  Sized-Blocks [] sized whole = sym whole
  Sized-Blocks (b ∷ bs) (first, later) whole =
      let p = usable.window in let least = first.0 in (omega (arith, p, least), first.1, later)

  all_written : (s : Chunking) → Filled s → s.rest ≡ [] → s.buf ≡ [] → Chunked (ok s)
  all_written s f no_rest no_buf =
      let plain : s.buf ++ s.rest ≡ [] = cc (no_rest, no_buf) in
      let whole =
        sym (append-nil (written s.blocks))
        ∙ ap (λ l. written s.blocks ++ l) (sym plain)
        ∙ f.whole in
      let counted = f.counted in
      let none_left = ap length no_rest in
      let many = f.many in
      (
        whole,
        Sized-Blocks s.blocks f.sized whole,
        omega (arith, counted, none_left),
        within (length s.blocks) (omega (arith, many)),
      )

  with_last :
      (s : Chunking)
      → Filled s
      → s.rest ≡ []
      → 1 ≤ length s.buf
      → (r : Outcome Chunking) → Written (length s.buf) s r
      → length s.blocks + 1 ≤ max_block_nr env d (length file)
      → Chunked r
  with_last s f no_rest tail failed h room = h
  with_last s f no_rest tail out_of_fuel h room = h
  with_last s f no_rest tail (ok s') (rest, buf, cur, size, (checksum, blocks)) room =
      let all = take_bytes_whole s.buf in
      let counted = f.counted in
      let none_left = ap length no_rest in
      let whole =
        ap written blocks
        ∙ ap (λ l. written s.blocks ++ l)
            (all ∙ sym (append-nil s.buf) ∙ ap (λ l. s.buf ++ l) (sym no_rest))
        ∙ f.whole in
      let fits = f.fits in
      let same_length = ap length all in
      let block = take_bytes (length s.buf) s.buf in
      let last : Blocks ((block, checksum) ∷ s.blocks) =
        (omega (arith, same_length, tail), omega (arith, same_length, fits), f.sized) in
      let count = ap length blocks in
      (
        whole,
        subst Blocks (sym blocks) last,
        size ∙ omega (arith, counted, none_left),
        omega (arith, count, room),
      )

  -- After the last round.
  pub last_block-Chunked :
      (s : Chunking) → Filled s → length s.rest ≡ 0 → Chunked (last_block env d (length file) s)
  unfolding last_block
  last_block-Chunked s f ended = elim (Bool-cases (ltb 0 (length s.buf))) [
    | inr nothing ↦
        rw (nothing, last_block)
          (all_written s f (empty_list s.rest ended) (empty_list s.buf (ground arith)))
    | inl left ↦
        let many = f.many in
        let tail : 1 ≤ length s.buf = ground arith in
        let room = room_left (length s.blocks) (length s.buf) (omega (arith, many)) tail in
        let done =
          with_last s f (empty_list s.rest ended) tail
            (write_cdc_block env d (length file) (length s.buf) s)
            (write_cdc_block-Written (length s.buf) s room) room in
        rw (left, last_block) done
  ]

  -- What a round leaves, with one unit of fuel less.
  abbrev pub Next : ℕ → Outcome Chunking → Type 0
  Next n (ok s) = Going s × Enough n s
  Next n failed = Fault
  Next n out_of_fuel = ⊥

  pub cut_block :
      (n c : ℕ) (s : Chunking)
      → Filled s
      → d.block_min_sz ≤ c + 1
      → c + 1 ≤ length s.buf
      → 4 * length s.rest + 2 * length s.buf ≤ n
      → (r : Outcome Chunking) → Written (c + 1) s r
      → Next n r
  cut_block n c s f least most fuel failed h = h
  cut_block n c s f least most fuel out_of_fuel h = h
  cut_block n c s f least most fuel (ok s') (rest, buf, cur, size, (checksum, blocks)) =
      let block = take_bytes (c + 1) s.buf in
      let left = drop_bytes (c + 1) s.buf in
      let parts = parts-length (c + 1) s.buf in
      let exact = take_bytes_all (c + 1) s.buf most in
      let counted = f.counted in
      let many = f.many in
      let fits = f.fits in
      let rest_len = ap length rest in
      let buf_len = ap length buf in
      let count = ap length blocks in
      let one_more : suc (length s.blocks) * d.block_min_sz
          ≡ length s.blocks * d.block_min_sz + d.block_min_sz =
        ground arith in
      let product = ap (λ k. k * d.block_min_sz) count ∙ one_more in
      let sized : All Sized ((block, checksum) ∷ s.blocks) =
        ((omega (arith, exact, least), omega (arith, exact, most, fits)), f.sized) in
      (
        record {
          whole =
              ap (λ b. written b ++ (s'.buf ++ s'.rest)) blocks
              ∙ append_assoc (written s.blocks) block (s'.buf ++ s'.rest)
              ∙ ap (λ l. written s.blocks ++ l)
                  (cc (buf, rest)
                    ∙ sym (append_assoc block left s.rest)
                    ∙ ap (λ l. l ++ s.rest) (take_bytes-append (c + 1) s.buf))
              ∙ f.whole;
          counted = omega (arith, size, rest_len, counted);
          sized = subst (All Sized) (sym blocks) sized;
          many = omega (arith, product, rest_len, buf_len, parts, exact, least, many);
          fits = omega (arith, buf_len, parts, exact, fits);
          behind = omega (arith, cur);
        },
        inl (omega (arith, rest_len, buf_len, parts, exact, fuel)),
      )
