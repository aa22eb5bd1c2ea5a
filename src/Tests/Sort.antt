-- ===== src/Tests/Sort.antt =====
-- An insertion sort in the place of `g_list_sort`: it meets what `Sorts` asks.
use Prim.Native.Nat.{Ordering}
use mathlib.Core.Path.{◌≡◌, refl, sym, subst}
use mathlib.Core.Logic.Or
use mathlib.Core.Logic.{◌≢◌, ◌⊎◌, inl, inr}
use mathlib.Core.List.{List, [], ◌∷◌, Pairwise, Perm, mem-cons, not-mem-nil, rel_of_Pairwise-cons}
use mathlib.Core.List.Perm
use mathlib.Core.List.Pairwise
use seafile_server_learn.Prelude.{arith}
use seafile_server_learn.Prelude.Text.{
  Text, strcmp, strcmp-eq, strcmp-swap, strcmp-lt_swap, strcmp-gt_trans,
}
use seafile_server_learn.Fs.Object.{SeafDirent}
use seafile_server_learn.Merge.Trees.{compare_dirents}
use seafile_server_learn.Merge.Sorting.{Sorts}

abbrev Cmp : Type 0
Cmp = SeafDirent → SeafDirent → Ordering

pub insert : Cmp → SeafDirent → List SeafDirent → List SeafDirent
insert cmp a [] = a ∷ []
insert cmp a (b ∷ bs) = elim (cmp a b) [
  | Ordering.gt ↦ b ∷ insert cmp a bs
  | Ordering.lt ↦ a ∷ b ∷ bs
  | Ordering.eq ↦ a ∷ b ∷ bs
]

unfoldable pub insertion_sort : Cmp → List SeafDirent → List SeafDirent
unfolding insert
insertion_sort cmp [] = []
insertion_sort cmp (a ∷ rest) = insert cmp a (insertion_sort cmp rest)

Ordering-cases : (o : Ordering) → (o ≡ Ordering.gt) ⊎ (o ≢ Ordering.gt)
Ordering-cases Ordering.gt = inl refl
Ordering-cases Ordering.lt = inr (λ e. cc)
Ordering-cases Ordering.eq = inr (λ e. cc)

insert-stop :
    (cmp : Cmp) (a b : SeafDirent) (bs : List SeafDirent)
    → cmp a b ≢ Ordering.gt
    → insert cmp a (b ∷ bs) ≡ a ∷ b ∷ bs
unfolding insert
insert-stop cmp a b bs h = ground arith

insert-perm : (cmp : Cmp) (a : SeafDirent) (bs : List SeafDirent) → Perm (insert cmp a bs) (a ∷ bs)
unfolding insert
insert-perm cmp a [] = Perm.refl (a ∷ [])
insert-perm cmp a (b ∷ bs) = elim (Ordering-cases (cmp a b)) [
  | inl e ↦ rw (e, insert) (Perm.trans (Perm.cons b (insert-perm cmp a bs)) (Perm.swap a b bs))
  | inr e ↦ rw (insert-stop cmp a b bs e) (Perm.refl (a ∷ b ∷ bs))
]

insertion_sort-perm : (cmp : Cmp) (l : List SeafDirent) → Perm (insertion_sort cmp l) l
unfolding insertion_sort
insertion_sort-perm cmp [] = Perm.refl []
insertion_sort-perm cmp (a ∷ rest) =
    Perm.trans (insert-perm cmp a (insertion_sort cmp rest))
      (Perm.cons a (insertion_sort-perm cmp rest))

abbrev NotAbove : SeafDirent → SeafDirent → Type 0
NotAbove a b = compare_dirents a b ≢ Ordering.gt

NotAbove-prop : (a b : SeafDirent) → IsProp (NotAbove a b)
NotAbove-prop a b = hlevel

strcmp-not_gt_trans :
    (s t u : Text) → strcmp t s ≢ Ordering.gt → strcmp u t ≢ Ordering.gt → strcmp u s ≢ Ordering.gt
strcmp-not_gt_trans s t u h k e =
    ground (arith, strcmp-eq t s, strcmp-lt_swap t s, strcmp-gt_trans u s t)

NotAbove-trans : (a b c : SeafDirent) → NotAbove a b → NotAbove b c → NotAbove a c
unfolding compare_dirents
NotAbove-trans a b c h k = strcmp-not_gt_trans a.name b.name c.name h k

NotAbove-flip : (a b : SeafDirent) → compare_dirents a b ≡ Ordering.gt → NotAbove b a
unfolding compare_dirents
NotAbove-flip a b h e = ground (arith, strcmp-swap a.name b.name)

insert-ordered :
    (a : SeafDirent) (bs : List SeafDirent)
    → Pairwise NotAbove bs
    → Pairwise NotAbove (insert compare_dirents a bs)
unfolding insert
insert-ordered a [] h = Pairwise.cons (λ x m. absurd (not-mem-nil m)) Pairwise.nil
insert-ordered a (b ∷ bs) h = elim (Ordering-cases (compare_dirents a b)) [
  | inl e ↦
      rw (e, insert)
        (Pairwise.cons
          (λ x m.
            Or.elim (NotAbove-prop b x)
              (mem-cons.0 ((Perm.mem_iff (insert-perm compare_dirents a bs)).0 m))
              (λ same. subst (NotAbove b) (sym same) (NotAbove-flip a b e))
              (rel_of_Pairwise-cons h))
          (insert-ordered a bs (Pairwise.of_cons h)))
  | inr e ↦ rw (insert-stop compare_dirents a b bs e) (
      Pairwise.cons
        (λ x m.
          Or.elim (NotAbove-prop a x) (mem-cons.0 m) (λ same. subst (NotAbove a) (sym same) e)
            (λ later. NotAbove-trans a b x e (rel_of_Pairwise-cons h later)))
        h)
]

insertion_sort-ordered :
    (l : List SeafDirent) → Pairwise NotAbove (insertion_sort compare_dirents l)
unfolding insertion_sort
insertion_sort-ordered [] = Pairwise.nil
insertion_sort-ordered (a ∷ rest) =
    insert-ordered a (insertion_sort compare_dirents rest) (insertion_sort-ordered rest)

pub insertion_sort-Sorts : Sorts insertion_sort
insertion_sort-Sorts = record {
  permutes = insertion_sort-perm compare_dirents;
  ordered = insertion_sort-ordered;
}
