-- ===== src/Bloom/Filter.antt =====
-- lib/bloom-filter.c: creating a filter, adding, removing and testing a key. SHA-256 is a parameter:
-- `sha_int s i` is the i-th 64-bit word of the digest of `s`. Indices are `unsigned int` in the
-- functions that write a bit, and `size_t` in the one that tests them.
use Prim.Native.Nat.{bit_or}
use seafile_server_learn.Prelude.{
  ℕ, zero, suc, ◌+◌, ◌*◌, ◌/◌, ◌%◌, ◌^◌, Bool, true, false, not, ◌&&◌, ◌||◌, Option, none, some,
  List, ◌==◌, ltb, if◌then◌else◌, get_or, set, replicate,
}
use seafile_server_learn.Prelude.Text.{Text}
use seafile_server_learn.Prelude.Int.{ℤ, pos, negsuc}
use seafile_server_learn.Bloom.Bytes.{setbit, clearbit, getbit}

pub record Bloom : Type 0 where
  pub asize : ℕ
  pub a : List ℕ
  pub csize : ℕ
  pub counters : List ℕ
  pub k : ℕ
  pub counting : Bool

-- (size + CHAR_BIT - 1) / CHAR_BIT in `size_t`
unfoldable pub char_count : ℕ → ℕ
char_count size = (size + 7) % 2 ^ 64 / 8

-- `memory n` says whether `calloc` of n bytes succeeds. `counting` is a field of one bit.
unfoldable pub bloom_create : (ℕ → Bool) → ℕ → ℤ → ℕ → Option Bloom
unfolding char_count
bloom_create memory size (negsuc k) counting = none
bloom_create memory size (pos k) counting =
    let csize = if counting == 0 then 0 else size * 4 % 2 ^ 64 in
    if k == 0 || ltb 4 k
    then none
    else if not (memory (char_count size))
    then none
    else if not (counting == 0) && not (memory (char_count csize))
    then none
    else some (record {
      asize = size;
      a = replicate (char_count size) 0;
      csize = csize;
      counters = if counting == 0 then List.[] else replicate (char_count csize) 0;
      k = k;
      counting = counting % 2 == 1;
    })

abbrev pub low_nibble : ℕ → ℕ
low_nibble value = value % 16

abbrev pub high_nibble : ℕ → ℕ
high_nibble value = value / 16 % 16

-- low++ below 15
abbrev pub count_up : ℕ → ℕ
count_up c = if ltb c 15 then c + 1 else c

-- low-- between 0 and 15
abbrev pub count_down : ℕ → ℕ
count_down c = elim c [ zero ↦ 0 | suc n ↦ if ltb (suc n) 15 then n else suc n ]

unfoldable pub incr_counter : List ℕ → ℕ → List ℕ
incr_counter counters i =
    let value = get_or counters (i / 2) 0 in
    let low = low_nibble value in
    let high = high_nibble value in
    set counters (i / 2)
      (if i % 2 == 0 then bit_or (high * 16) (count_up low) else bit_or (count_up high * 16) low)

unfoldable pub incr_bit : Bloom → ℕ → Bloom
incr_bit bf bit_idx =
    if bf.counting
    then record bf { a = setbit bf.a bit_idx; counters = incr_counter bf.counters bit_idx }
    else record bf { a = setbit bf.a bit_idx }

unfoldable pub decr_counter : List ℕ → ℕ → List ℕ
decr_counter counters i =
    let value = get_or counters (i / 2) 0 in
    let low = low_nibble value in
    let high = high_nibble value in
    set counters (i / 2) (
      if i % 2 == 0 then bit_or (high * 16) (count_down low) else bit_or (count_down high * 16) low)

-- The counter of a bit after it was decremented.
unfoldable pub counted_down : List ℕ → ℕ → ℕ
counted_down counters i =
    let value = get_or counters (i / 2) 0 in
    if i % 2 == 0 then count_down (low_nibble value) else count_down (high_nibble value)

unfoldable pub decr_bit : Bloom → ℕ → Bloom
decr_bit bf bit_idx =
    if not bf.counting then record bf { a = clearbit bf.a bit_idx } else record bf {
      a = if counted_down bf.counters bit_idx == 0 then clearbit bf.a bit_idx else bf.a;
      counters = decr_counter bf.counters bit_idx;
    }

module _ (sha_int : Text → ℕ → ℕ) where
  -- The argument `sha_int[i] % bloom->asize` of incr_bit and decr_bit.
  unfoldable pub bit_idx : Bloom → Text → ℕ → ℕ
  bit_idx bf s i = sha_int s i % bf.asize % 2 ^ 32

  -- `for (i = 0; i < n; ++i)` with n - i rounds left
  unfoldable pub add_bits : ℕ → ℕ → Text → Bloom → Bloom
  unfolding bit_idx
  add_bits zero i s bf = bf
  add_bits (suc rounds) i s bf = add_bits rounds (suc i) s (incr_bit bf (bit_idx bf s i))

  unfoldable pub bloom_add : Bloom → Text → Bloom
  bloom_add bf s = add_bits bf.k 0 s bf

  unfoldable pub remove_bits : ℕ → ℕ → Text → Bloom → Bloom
  remove_bits zero i s bf = bf
  remove_bits (suc rounds) i s bf = remove_bits rounds (suc i) s (decr_bit bf (bit_idx bf s i))

  -- `none` for -1
  unfoldable pub bloom_remove : Bloom → Text → Option Bloom
  bloom_remove bf s = if bf.counting then some (remove_bits bf.k 0 s bf) else none

  unfoldable pub test_bits : ℕ → ℕ → Text → Bloom → Bool
  test_bits zero i s bf = true
  test_bits (suc rounds) i s bf =
      let later = test_bits rounds (suc i) s bf in
      if not (getbit bf.a (sha_int s i % bf.asize)) then false else later

  unfoldable pub bloom_test : Bloom → Text → Bool
  bloom_test bf s = test_bits bf.k 0 s bf
