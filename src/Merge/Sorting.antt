-- ===== src/Merge/Sorting.antt =====
-- The order of directory entries, and what a round of the merge loop leaves of a list.
use Prim.Native.Nat.{Ordering}
use mathlib.Core.List.{reverse_aux, reverse_perm, Perm, Pairwise}
use mathlib.Core.List.Perm
use seafile_server_learn.Prelude.{
  ◌≡◌, ◌≢◌, refl, true, false, none, some, List, [], ◌∷◌, reverse, arith, All, if◌then◌else◌,
}
use seafile_server_learn.Prelude.Text.{Text, strcmp, str_eq}
use seafile_server_learn.Prelude.Sorted.{sorted_unique}
use seafile_server_learn.Fs.Object.{SeafDirent}
use seafile_server_learn.Merge.Trees.{
  Ptrs, first_name, larger_name, next_dent, next_ptr, compare_dirents,
}
use seafile_server_learn.Merge.Rounds.{IsEntry, SlotIsEntry, prepend}

-- `g_list_sort` puts the entries in the order of `compare_dirents`.
pub record Sorts (sort : (SeafDirent → SeafDirent → Ordering) → List SeafDirent → List SeafDirent)
    : Type 0 where
  pub permutes : (l : List SeafDirent) → Perm (sort compare_dirents l) l
  pub ordered :
      (l : List SeafDirent)
      → Pairwise (λ a b. compare_dirents a b ≢ Ordering.gt) (sort compare_dirents l)

-- The entries are in descending order of their names, as every directory object is kept.
abbrev pub IsDescending : List SeafDirent → Type 0
IsDescending = Pairwise (λ a b. strcmp a.name b.name ≡ Ordering.gt)

SeafDirent-set : IsSet SeafDirent
SeafDirent-set = hlevel

-- Sorting what was collected in reverse gives the order back.
pub sort-reverse :
    {sort : (SeafDirent → SeafDirent → Ordering) → List SeafDirent → List SeafDirent}
    (sorts : Sorts sort) (l : List SeafDirent)
    → IsDescending l
    → sort compare_dirents (reverse l) ≡ l
unfolding compare_dirents
sort-reverse sorts l desc =
    sorted_unique SeafDirent-set (λ a b. strcmp a.name b.name ≡ Ordering.gt) _ l
      (Perm.trans (sorts.permutes (reverse l)) (reverse_perm l)) (sorts.ordered (reverse l)) desc

-- No list has an entry left.
pub l1_done : (p : Ptrs) → first_name p ≡ none → (p.l1 ≡ []) × (p.l2 ≡ [])
unfolding first_name larger_name
l1_done p h = (ground arith, ground arith)

pub next-SlotIsEntry :
    (first : Text) (l : List SeafDirent) → All IsEntry l → SlotIsEntry (next_dent first l)
unfolding next_dent
next-SlotIsEntry first [] v = tt
next-SlotIsEntry first (d ∷ ds) v =
    elim (str_eq first d.name) as (λ b. SlotIsEntry (if b then some d else none)) [
      | true ↦ v.0
      | false ↦ tt
    ]

pub next_ptr-All :
    (first : Text) (l : List SeafDirent) → All IsEntry l → All IsEntry (next_ptr first l)
unfolding next_ptr
next_ptr-All first [] v = tt
next_ptr-All first (d ∷ ds) v =
    elim (str_eq first d.name) as (λ b. All IsEntry (if b then ds else d ∷ ds)) [
      | true ↦ v.1
      | false ↦ v
    ]

pub reverse_aux-next :
    (first : Text) (l out : List SeafDirent)
    → reverse_aux (next_ptr first l) (prepend (next_dent first l) out) ≡ reverse_aux l out
unfolding next_ptr next_dent
reverse_aux-next first [] out = refl
reverse_aux-next first (d ∷ ds) out =
    elim (str_eq first d.name)
      as (λ b.
        reverse_aux (if b then ds else d ∷ ds) (prepend (if b then some d else none) out)
        ≡ reverse_aux (d ∷ ds) out) [ true ↦ refl | false ↦ refl ]
