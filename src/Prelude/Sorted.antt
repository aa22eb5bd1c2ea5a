-- ===== src/Prelude/Sorted.antt =====
-- A list in strict order is the only sorted permutation of its entries.
use mathlib.Core.Path.{◌≡◌, refl, sym, subst}
use mathlib.Core.Logic.Or
use mathlib.Core.List.{List, [], ◌∷◌, Mem, Pairwise, Perm, mem-cons, rel_of_Pairwise-cons}
use mathlib.Core.List.Perm
use mathlib.Core.List.Pairwise

module _ {A : Type 0} (set : IsSet A) (Above : A → A → Type 0) where
  -- No entry stands above an earlier one.
  abbrev Weakly : A → A → Type 0
  Weakly a b = ¬ Above b a

  head-eq :
      (x y : A) (xs ys : List A)
      → Mem y (x ∷ xs)
      → Mem x (y ∷ ys)
      → Pairwise Weakly (x ∷ xs)
      → Pairwise Above (y ∷ ys)
      → x ≡ y
  head-eq x y xs ys my mx weak strict = Or.elim (set x y) (mem-cons.0 my) sym λ later.
      Or.elim (set x y) (mem-cons.0 mx) (λ e. e)
        λ m. absurd (rel_of_Pairwise-cons weak later (rel_of_Pairwise-cons strict m))

  pub sorted_unique :
      (xs ys : List A) → Perm xs ys → Pairwise Weakly xs → Pairwise Above ys → xs ≡ ys
  sorted_unique [] ys p weak strict = Perm.nil-eq p
  sorted_unique (x ∷ xs) [] p weak strict = Perm.eq-nil p
  sorted_unique (x ∷ xs) (y ∷ ys) p weak strict =
      let e =
        head-eq x y xs ys ((Perm.mem_iff p).1 (mem-cons.1 (Or.inl refl)))
          ((Perm.mem_iff p).0 (mem-cons.1 (Or.inl refl))) weak strict in
      let p' = Perm.cons_inv (subst (λ z. Perm (z ∷ xs) (y ∷ ys)) e p) in
      cc (e, sorted_unique xs ys p' (Pairwise.of_cons weak) (Pairwise.of_cons strict))
