-- ===== src/Fs/Sorted.antt =====
-- common/fs-mgr.c: the order of the entries of a directory, and reading a directory in this order.
use Prim.Native.Nat.{Ordering}
use seafile_server_learn.Prelude.{
  ◌≡◌, refl, Option-cases, inl, inr, ℕ, ◌==◌, Bool, true, false, not, Option, none, some, List, [],
  ◌∷◌, if◌then◌else◌,
}
use seafile_server_learn.Prelude.Text.{Text, strcmp}
use seafile_server_learn.Fs.Object.{SeafDirent, SeafDir}
use seafile_server_learn.Fs.Store.{FsStore, get_seafdir}

abbrev pub Cmp : Type 0
Cmp = SeafDirent → SeafDirent → Ordering

unfoldable pub compare_dirents : Cmp
compare_dirents a b = strcmp b.name a.name

-- `strcmp (s, t) < 0`
abbrev pub str_lt : Text → Text → Bool
str_lt s t = elim (strcmp s t) [ Ordering.lt ↦ true | _ ↦ false ]

unfoldable pub is_dirents_sorted : List SeafDirent → Bool
is_dirents_sorted [] = true
is_dirents_sorted (d ∷ []) = true
is_dirents_sorted (d ∷ e ∷ ds) =
    let later = is_dirents_sorted (e ∷ ds) in if str_lt d.name e.name then false else later

module _ (g_list_sort : Cmp → List SeafDirent → List SeafDirent) where
  unfoldable pub sort_dir : ℕ → SeafDir → SeafDir
  unfolding is_dirents_sorted
  sort_dir version dir =
      if not (version == 0)
      then dir
      else if not (is_dirents_sorted dir.entries)
      then record dir { entries = g_list_sort compare_dirents dir.entries }
      else dir

  unfoldable pub get_seafdir_sorted : FsStore → ℕ → Text → Option SeafDir
  unfolding sort_dir
  get_seafdir_sorted s version dir_id = elim (get_seafdir s version dir_id) [
    | none ↦ none
    | some dir ↦ some (sort_dir version dir)
  ]

  -- Directories of a version above 0 are taken as they are.
  pub get_seafdir_sorted_plain :
      (version : ℕ)
      → (version == 0) ≡ false
      → (s : FsStore) (dir_id : Text)
      → get_seafdir_sorted s version dir_id ≡ get_seafdir s version dir_id
  unfolding get_seafdir_sorted
  get_seafdir_sorted_plain version positive s dir_id =
      elim (Option-cases (get_seafdir s version dir_id)) [
        | inl missing ↦ rw (missing, get_seafdir_sorted) refl
        | inr (dir, found) ↦ rw (found, get_seafdir_sorted, positive) refl
      ]
