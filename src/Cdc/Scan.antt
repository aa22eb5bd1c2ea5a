-- ===== src/Cdc/Scan.antt =====
-- common/cdc/cdc.c: parts of the buffer, and where the inner loop stops.
use seafile_server_learn.Prelude.{
  ℕ, zero, suc, ◌+◌, ◌≤◌, ◌≡◌, refl, ap, leb, ◌||◌, Bool, true, false, List, [], ◌∷◌, ◌++◌, arith,
  length, Bool-cases, inl, inr, ◌⊎◌,
}
use seafile_server_learn.Cdc.Chunk.{
  Env, CdcFileDescriptor, take_bytes, drop_bytes, scan, is_break, next_fingerprint, first_cur,
  read_size,
}

pub take_bytes-append : (n : ℕ) (xs : List ℕ) → take_bytes n xs ++ drop_bytes n xs ≡ xs
unfolding take_bytes drop_bytes
take_bytes-append zero xs = refl
take_bytes-append (suc n) [] = refl
take_bytes-append (suc n) (x ∷ xs) = ap (λ l. x ∷ l) (take_bytes-append n xs)

pub take_bytes-length : (n : ℕ) (xs : List ℕ) → length (take_bytes n xs) ≤ n
unfolding take_bytes
take_bytes-length zero xs = omega arith
take_bytes-length (suc n) [] = omega arith
take_bytes-length (suc n) (x ∷ xs) = omega (arith, take_bytes-length n xs)

pub parts-length :
    (n : ℕ) (xs : List ℕ) → length (take_bytes n xs) + length (drop_bytes n xs) ≡ length xs
unfolding take_bytes drop_bytes
parts-length zero xs = omega arith
parts-length (suc n) [] = refl
parts-length (suc n) (x ∷ xs) = omega (arith, parts-length n xs)

pub take_bytes_all : (n : ℕ) (xs : List ℕ) → n ≤ length xs → length (take_bytes n xs) ≡ n
unfolding take_bytes
take_bytes_all zero xs h = refl
take_bytes_all (suc n) [] h = absurd (omega arith)
take_bytes_all (suc n) (x ∷ xs) h = ap suc (take_bytes_all n xs (omega arith))

pub take_bytes_whole : (xs : List ℕ) → take_bytes (length xs) xs ≡ xs
unfolding take_bytes
take_bytes_whole [] = refl
take_bytes_whole (x ∷ xs) = ap (λ l. x ∷ l) (take_bytes_whole xs)

-- Less was taken only where nothing is left.
pub take_bytes_short :
    (n : ℕ) (xs : List ℕ) → (length (take_bytes n xs) ≡ n) ⊎ (length (drop_bytes n xs) ≡ 0)
unfolding take_bytes drop_bytes
take_bytes_short zero xs = inl refl
take_bytes_short (suc n) [] = inr refl
take_bytes_short (suc n) (x ∷ xs) = elim (take_bytes_short n xs) [
  | inl all ↦ inl (ap suc all)
  | inr none_left ↦ inr none_left
]

module _ (env : Env) (d : CdcFileDescriptor) where
  -- A break lies between the start and the end; without one, the scan went to the end. Both before the
  -- largest size of a block.
  abbrev pub Scanned : ℕ → ℕ → Bool × ℕ × ℕ → Type 0
  Scanned left cur (true, c, fp) = (cur ≤ c) × (c + 1 ≤ cur + left) × (c + 1 ≤ d.block_max_sz)
  Scanned left cur (false, c, fp) = (c ≡ cur + left) × (c + 1 ≤ d.block_max_sz)

  pub scan-Scanned :
      (expected : ℕ) (buf : List ℕ) (left cur fp : ℕ)
      → cur + 1 ≤ d.block_max_sz
      → Scanned left cur (scan env d expected buf left cur fp)
  unfolding scan
  scan-Scanned expected buf zero cur fp h = (omega arith, h)
  scan-Scanned expected buf (suc left) cur fp h =
      let fp' = next_fingerprint env d expected buf cur fp in
      elim (Bool-cases (is_break env d expected fp' || leb d.block_max_sz (cur + 1))) [
        | inl found ↦ rw (found, scan) (omega arith, omega arith, h)
        | inr not_here ↦
            let room : leb d.block_max_sz (cur + 1) ≡ false = ground arith in
            let more : cur + 1 + 1 ≤ d.block_max_sz = ground arith in
            rw (not_here, scan)
              (further (scan env d expected buf left (cur + 1) fp')
                (scan-Scanned expected buf left (cur + 1) fp' more))
      ]
    where
      further : (r : Bool × ℕ × ℕ) → Scanned left (cur + 1) r → Scanned (suc left) cur r
      further (true, c, fp) (from, to, small) = (omega arith, omega arith, small)
      further (false, c, fp) (at, small) = (omega arith, small)

  pub first_cur-bounds :
      (expected cur tail : ℕ)
      → d.block_min_sz ≤ tail
      → cur + 1 ≤ tail
      → (first_cur env d expected cur + 1 ≤ tail)
        × (d.block_min_sz ≤ first_cur env d expected cur + 1)
  unfolding first_cur
  first_cur-bounds expected cur tail h k = ground arith

  pub read_size-bounds :
      (expected tail : ℕ)
      → d.block_min_sz + 4096 ≤ d.block_max_sz
      → tail + 1 ≤ d.block_max_sz
      → (tail + read_size env d expected tail ≤ d.block_max_sz)
        × (1 ≤ read_size env d expected tail)
        × (d.block_min_sz ≤ tail + read_size env d expected tail)
  unfolding read_size
  read_size-bounds expected tail h k = ground arith
