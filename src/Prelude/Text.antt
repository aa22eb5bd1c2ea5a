-- ===== src/Prelude/Text.antt =====
-- C strings as lists of bytes, with `strcmp` and `strlen`.
use Prim.Native.Char.{code}
use Prim.Native.Nat.{ℕ, compare, Ordering}
use Prim.Native.String.{String}
use mathlib.Core.Path.{◌≡◌, refl}
use mathlib.Core.Logic.{◌↔◌}
use mathlib.Core.Bool.{Bool, true, false}
use mathlib.Core.List.{List, [], ◌∷◌}
use native.Mathlib.Omega.{arith}

abbrev pub Text : Type 0
Text = List ℕ

-- The bytes of a literal.
abbrev pub codes : String → Text
codes String.[] = []
codes (String.◌∷◌ c s) = code c ∷ codes s

-- The sign of the C function's result.
unfoldable pub strcmp : Text → Text → Ordering
strcmp [] [] = Ordering.eq
strcmp [] (y ∷ ys) = Ordering.lt
strcmp (x ∷ xs) [] = Ordering.gt
strcmp (x ∷ xs) (y ∷ ys) = elim (compare x y) [
  | Ordering.lt ↦ Ordering.lt
  | Ordering.eq ↦ strcmp xs ys
  | Ordering.gt ↦ Ordering.gt
]

-- `strcmp (s, t) == 0`
unfoldable pub str_eq : Text → Text → Bool
str_eq s t = elim (strcmp s t) [ Ordering.eq ↦ true | _ ↦ false ]

-- `strcmp (s, t) > 0`
unfoldable pub str_gt : Text → Text → Bool
str_gt s t = elim (strcmp s t) [ Ordering.gt ↦ true | _ ↦ false ]

pub strcmp_refl : (s : Text) → strcmp s s ≡ Ordering.eq
unfolding strcmp
strcmp_refl [] = refl
strcmp_refl (x ∷ xs) = ground (arith, strcmp_refl xs)

pub strcmp-eq : (s t : Text) → strcmp s t ≡ Ordering.eq → s ≡ t
unfolding strcmp
strcmp-eq [] [] h = refl
strcmp-eq [] (y ∷ ys) h = ground arith
strcmp-eq (x ∷ xs) [] h = ground arith
strcmp-eq (x ∷ xs) (y ∷ ys) h = ground (arith, strcmp-eq xs ys)

pub strcmp-swap : (s t : Text) → strcmp s t ≡ Ordering.gt → strcmp t s ≡ Ordering.lt
unfolding strcmp
strcmp-swap [] [] h = ground arith
strcmp-swap [] (y ∷ ys) h = ground arith
strcmp-swap (x ∷ xs) [] h = refl
strcmp-swap (x ∷ xs) (y ∷ ys) h = ground (arith, strcmp-swap xs ys)

pub strcmp-lt_swap : (s t : Text) → strcmp s t ≡ Ordering.lt → strcmp t s ≡ Ordering.gt
unfolding strcmp
strcmp-lt_swap [] [] h = ground arith
strcmp-lt_swap [] (y ∷ ys) h = refl
strcmp-lt_swap (x ∷ xs) [] h = ground arith
strcmp-lt_swap (x ∷ xs) (y ∷ ys) h = ground (arith, strcmp-lt_swap xs ys)

pub strcmp-gt_trans :
    (s t u : Text) → strcmp s t ≡ Ordering.gt → strcmp t u ≡ Ordering.gt → strcmp s u ≡ Ordering.gt
unfolding strcmp
strcmp-gt_trans [] [] u h k = ground arith
strcmp-gt_trans [] (y ∷ ys) u h k = ground arith
strcmp-gt_trans (x ∷ xs) [] [] h k = ground arith
strcmp-gt_trans (x ∷ xs) [] (z ∷ zs) h k = ground arith
strcmp-gt_trans (x ∷ xs) (y ∷ ys) [] h k = refl
strcmp-gt_trans (x ∷ xs) (y ∷ ys) (z ∷ zs) h k = ground (arith, strcmp-gt_trans xs ys zs)

pub str_eq_refl : (s : Text) → str_eq s s ≡ true
unfolding str_eq
str_eq_refl s = ground (arith, strcmp_refl s)

pub str_eq_iff : (s t : Text) → (str_eq s t ≡ true) ↔ (s ≡ t)
unfolding str_eq
str_eq_iff s t = ground (arith, strcmp-eq s t, strcmp_refl s)

pub str_eq_of_gt : (s t : Text) → strcmp s t ≡ Ordering.gt → str_eq s t ≡ false
unfolding str_eq
str_eq_of_gt s t h = ground arith

pub str_eq_of_lt : (s t : Text) → strcmp s t ≡ Ordering.gt → str_eq t s ≡ false
unfolding str_eq
str_eq_of_lt s t h = ground (arith, strcmp-swap s t)

pub str_eq_comm : (s t : Text) → str_eq s t ≡ str_eq t s
unfolding str_eq
str_eq_comm s t = ground (arith, strcmp-eq s t, strcmp-eq t s, strcmp_refl s)
