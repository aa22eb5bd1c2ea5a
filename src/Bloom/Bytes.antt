-- ===== src/Bloom/Bytes.antt =====
-- The macros SETBIT, CLEARBIT and GETBIT of lib/bloom-filter.c, over an array of bytes.
use Prim.Native.Nat.{bit_and, bit_or}
use seafile_server_learn.Prelude.{
  if◌then◌else◌, ℕ, zero, suc, ◌-◌, ◌/◌, ◌%◌, ◌^◌, ◌<◌, ◌≡◌, refl, Bool, true, false, not, ◌||◌,
  List, arith, ◌==◌, ltb, get_or, set,
}

-- a[n/8] |= 1 << n%8
unfoldable pub setbit : List ℕ → ℕ → List ℕ
setbit a n = set a (n / 8) (bit_or (get_or a (n / 8) 0) (2 ^ (n % 8)))

-- a[n/8] &= ~(1 << n%8), on the low eight bits
unfoldable pub clearbit : List ℕ → ℕ → List ℕ
clearbit a n = set a (n / 8) (bit_and (get_or a (n / 8) 0) (255 - 2 ^ (n % 8)))

unfoldable pub byte_bit : ℕ → ℕ → Bool
byte_bit v i = not (bit_and v (2 ^ i) == 0)

-- a[n/8] & (1 << n%8), as a truth value
unfoldable pub getbit : List ℕ → ℕ → Bool
unfolding byte_bit
getbit a n = byte_bit (get_or a (n / 8) 0) (n % 8)

-- The test holds at each number under the limit.
unfoldable pub passes : (ℕ → Bool) → ℕ → Bool
passes test zero = true
passes test (suc limit) = if test limit then passes test limit else false

pub passes-at :
    (test : ℕ → Bool) (limit n : ℕ) → n < limit → passes test limit ≡ true → test n ≡ true
unfolding passes
passes-at test zero n below h = elim below [ ]
passes-at test (suc limit) n below h =
    let earlier = passes-at test limit n in ground (arith, earlier)

unfoldable pub same : Bool → Bool → Bool
same true b = b
same false b = not b

pub same-eq : (a b : Bool) → same a b ≡ true → a ≡ b
unfolding same
same-eq a b h = ground arith

-- Over one byte the laws are checked at every value and pair of positions.
unfoldable pub set_row : ℕ → ℕ → ℕ → Bool
set_row v i j = same (byte_bit (bit_or v (2 ^ i)) j) (i == j || byte_bit v j)

pub set_table : passes (λ v. passes (λ i. passes (set_row v i) 8) 8) 256 ≡ true
unfolding passes set_row same byte_bit
set_table = refl

pub set_bound : passes (λ v. passes (λ i. ltb (bit_or v (2 ^ i)) 256) 8) 256 ≡ true
unfolding passes
set_bound = refl
