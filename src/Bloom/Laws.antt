-- ===== src/Bloom/Laws.antt =====
-- The bits of lib/bloom-filter.c: what a write of one bit does to every bit of the array.
use Prim.Native.Nat.{bit_or}
use seafile_server_learn.Prelude.{
  ℕ, zero, suc, ◌/◌, ◌%◌, ◌^◌, ◌<◌, ◌≡◌, ◌≢◌, refl, sym, false, ◌||◌, List, arith, ◌==◌, ltb,
  length, get_or, length-set, get_or-set_self, get_or-set_ne, Bool-cases, inl, inr, replicate,
}
use seafile_server_learn.Bloom.Bytes.{
  setbit, getbit, byte_bit, passes, passes-at, same-eq, set_row, set_table, set_bound,
}

-- Every element is a byte; a position past the end counts as 0.
unfoldable pub IsBytes : List ℕ → Type 0
IsBytes a = (i : ℕ) → get_or a i 0 < 256

byte_set :
    (v i j : ℕ) → v < 256 → i < 8 → j < 8 → byte_bit (bit_or v (2 ^ i)) j ≡ (i == j || byte_bit v j)
unfolding set_row
byte_set v i j hv hi hj =
    let rows = passes-at (λ v. passes (λ i. passes (set_row v i) 8) 8) 256 v hv set_table in
    let row = passes-at (λ i. passes (set_row v i) 8) 8 i hi rows in
    same-eq (byte_bit (bit_or v (2 ^ i)) j) (i == j || byte_bit v j)
      (passes-at (set_row v i) 8 j hj row)

byte_bound : (v i : ℕ) → v < 256 → i < 8 → bit_or v (2 ^ i) < 256
byte_bound v i hv hi =
    let rows = passes-at (λ v. passes (λ i. ltb (bit_or v (2 ^ i)) 256) 8) 256 v hv set_bound in
    let row = passes-at (λ i. ltb (bit_or v (2 ^ i)) 256) 8 i hi rows in ground arith

pub setbit-IsBytes : (a : List ℕ) (n : ℕ) → IsBytes a → n / 8 < length a → IsBytes (setbit a n)
unfolding IsBytes setbit
setbit-IsBytes a n h lt i = elim (Bool-cases (n / 8 == i)) [
  | inl e ↦
      let same : n / 8 ≡ i = ground arith in
      let got = get_or-set_self a (n / 8) (bit_or (get_or a (n / 8) 0) (2 ^ (n % 8))) 0 lt in
      let low : n % 8 < 8 = omega arith in
      rw (sym same, got) (byte_bound (get_or a (n / 8) 0) (n % 8) (h (n / 8)) low)
  | inr e ↦
      let differ : n / 8 ≢ i = ground arith in
      rw (get_or-set_ne a (n / 8) i (bit_or (get_or a (n / 8) 0) (2 ^ (n % 8))) 0 differ) (h i)
]

-- In bounds, exactly one bit is written.
pub getbit-setbit :
    (a : List ℕ) (n m : ℕ)
    → IsBytes a
    → n / 8 < length a
    → getbit (setbit a n) m ≡ (n == m || getbit a m)
unfolding IsBytes setbit getbit
getbit-setbit a n m h lt = elim (Bool-cases (n / 8 == m / 8)) [
  | inl e ↦
      let same : n / 8 ≡ m / 8 = ground arith in
      let got = get_or-set_self a (n / 8) (bit_or (get_or a (n / 8) 0) (2 ^ (n % 8))) 0 lt in
      let bits : (n % 8 == m % 8) ≡ (n == m) = ground arith in
      let low : n % 8 < 8 = omega arith in
      let lowm : m % 8 < 8 = omega arith in
      rw (sym same, got, sym bits)
        (byte_set (get_or a (n / 8) 0) (n % 8) (m % 8) (h (n / 8)) low lowm)
  | inr e ↦
      let differ : n / 8 ≢ m / 8 = ground arith in
      let other : (n == m) ≡ false = ground arith in
      rw
        (
          get_or-set_ne a (n / 8) (m / 8) (bit_or (get_or a (n / 8) 0) (2 ^ (n % 8))) 0 differ,
          other,
        )
        refl
]

pub length-setbit : (a : List ℕ) (n : ℕ) → length (setbit a n) ≡ length a
unfolding setbit
length-setbit a n = length-set a (n / 8) (bit_or (get_or a (n / 8) 0) (2 ^ (n % 8)))

pub replicate-IsBytes : (n : ℕ) → IsBytes (replicate n 0)
unfolding IsBytes
replicate-IsBytes zero i = omega arith
replicate-IsBytes (suc n) zero = omega arith
replicate-IsBytes (suc n) (suc i) = replicate-IsBytes n i
