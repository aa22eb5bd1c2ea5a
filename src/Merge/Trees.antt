-- ===== src/Merge/Trees.antt =====
-- `merge_trees_recursive` and `seaf_merge_trees` of common/merge-new.c. The recursion runs on fuel,
-- which stands for the depth of the trees; the loop over the entries runs on as many rounds as
-- there are entries.
use Prim.Native.Nat.{Ordering}
use seafile_server_learn.Prelude.{
  ℕ, zero, suc, ◌+◌, ◌==◌, Bool, false, Option, none, some, List, [], ◌∷◌, ◌&&◌, ◌||◌,
  if◌then◌else◌, length,
}
use seafile_server_learn.Prelude.Text.{Text, strcmp, str_eq, str_gt}
use seafile_server_learn.Prelude.Exec.{Exec, ok, out_of_fuel, pure, fail, ◌>>=◌}
use seafile_server_learn.Fs.Object.{SeafDirent, SeafDir, is_file, is_dir}
use seafile_server_learn.Fs.Store.{
  FsStore, get_seafdir, dir_version_from_repo_version, seaf_dir_new, seaf_dir_save,
}
use seafile_server_learn.Merge.Options.{Slots, State, Env}
use seafile_server_learn.Merge.Entries.{Merged, merge_entries}
use seafile_server_learn.Merge.Directories.{merge_directories}

-- `ptrs`: what is left of the entries of each tree.
pub record Ptrs : Type 0 where
  pub l0 : List SeafDirent
  pub l1 : List SeafDirent
  pub l2 : List SeafDirent

abbrev pub entries_of : Option SeafDir → List SeafDirent
entries_of none = []
entries_of (some dir) = dir.entries

abbrev pub ptrs_of : Slots SeafDir → Ptrs
ptrs_of t = record { l0 = entries_of t.at0; l1 = entries_of t.at1; l2 = entries_of t.at2 }

-- One step of the search for the largest name.
unfoldable pub larger_name : List SeafDirent → Option Text → Option Text
larger_name [] first = first
larger_name (d ∷ ds) none = some d.name
larger_name (d ∷ ds) (some first) = if str_gt d.name first then some d.name else some first

unfoldable pub first_name : Ptrs → Option Text
unfolding larger_name
first_name p = larger_name p.l2 (larger_name p.l1 (larger_name p.l0 none))

-- `dents[i]`, if the next entry of list i has the name, and the list from there on.
unfoldable pub next_dent : Text → List SeafDirent → Option SeafDirent
next_dent first [] = none
next_dent first (d ∷ ds) = if str_eq first d.name then some d else none

unfoldable pub next_ptr : Text → List SeafDirent → List SeafDirent
next_ptr first [] = []
next_ptr first (d ∷ ds) = if str_eq first d.name then ds else d ∷ ds

unfoldable pub dents_at : Text → Ptrs → Slots SeafDirent
unfolding next_dent
dents_at first p = record {
  at0 = next_dent first p.l0;
  at1 = next_dent first p.l1;
  at2 = next_dent first p.l2;
}

unfoldable pub advance : Text → Ptrs → Ptrs
unfolding next_ptr
advance first p = record {
  l0 = next_ptr first p.l0;
  l1 = next_ptr first p.l1;
  l2 = next_ptr first p.l2;
}

abbrev pub holds : (SeafDirent → Bool) → Option SeafDirent → Bool
holds test none = false
holds test (some d) = test d

abbrev pub any_slot : (SeafDirent → Bool) → Slots SeafDirent → Bool
any_slot test d = holds test d.at0 || (holds test d.at1 || holds test d.at2)

abbrev pub has_dir_id : Option SeafDir → Text → Bool
has_dir_id none id = false
has_dir_id (some dir) id = str_eq dir.dir_id id

-- `compare_dirents`: names in descending order.
unfoldable pub compare_dirents : SeafDirent → SeafDirent → Ordering
compare_dirents a b = strcmp b.name a.name

-- An operation on the object store, run in the whole state.
abbrev pub on_fs : {D : Type 0} → Exec FsStore Unit → Exec (State D) Unit
on_fs m s = let (r, fs) = m s.fs in (r, record s { fs = fs })

module _ {D : Type 0} (env : Env D) (version n : ℕ) where
  -- The work of one round: the files of the name, then the directories of the name.
  unfoldable pub merge_round :
      (Slots SeafDir → Text → Exec (State D) Unit)
      → Slots SeafDirent
      → Text
      → List SeafDirent
      → Exec (State D) (List SeafDirent)
  merge_round recur dents basedir out = do
    let entries = merge_entries env dents basedir n out
    let none_changed : Exec (State D) Merged = pure (dents, out)
    (dents', out') ← if any_slot is_file dents then entries else none_changed
    if any_slot is_dir dents
        then merge_directories version recur n dents' basedir out'
        else pure out'

  -- `while (1)`, with a round for each entry at most.
  unfoldable pub merge_loop :
      (Slots SeafDir → Text → Exec (State D) Unit)
      → Text
      → ℕ
      → Ptrs
      → List SeafDirent
      → Exec (State D) (List SeafDirent)
  unfolding first_name dents_at advance merge_round
  merge_loop recur basedir zero p out s = elim (first_name p) [
    | none ↦ (ok out, s)
    | some first ↦ (out_of_fuel, s)
  ]
  merge_loop recur basedir (suc rounds) p out s = elim (first_name p) [
    | none ↦ (ok out, s)
    | some first ↦
        (merge_round recur (dents_at first p) basedir out
            >>= merge_loop recur basedir rounds (advance first p))
          s
  ]

  -- After the loop of a three-way merge: build the merged directory and save it, unless it is
  -- head's or remote's.
  unfoldable pub save_merged : Slots SeafDir → List SeafDirent → Exec (State D) Unit
  save_merged trees merged s =
      let dir =
        seaf_dir_new env.digest (env.g_list_sort compare_dirents merged)
          (dir_version_from_repo_version version) in
      let s' = record s { opt = record s.opt { merged_tree_root = dir.dir_id } } in
      if has_dir_id trees.at1 dir.dir_id || has_dir_id trees.at2 dir.dir_id
      then pure tt s'
      else on_fs (seaf_dir_save dir) s'

  -- The body of `merge_trees_recursive`, with the recursive call as an argument.
  unfoldable pub merge_level :
      (Slots SeafDir → Text → Exec (State D) Unit) → Slots SeafDir → Text → Exec (State D) Unit
  merge_level recur trees basedir s =
      let p = ptrs_of trees in
      (do
        merged ← merge_loop recur basedir (length p.l0 + length p.l1 + length p.l2) p []
        λ s'. if n == 3 && s'.opt.do_merge then save_merged trees merged s' else pure tt s')
        s

  unfoldable pub merge_trees_recursive : ℕ → Slots SeafDir → Text → Exec (State D) Unit
  unfolding merge_level
  merge_trees_recursive zero trees basedir s = (out_of_fuel, s)
  merge_trees_recursive (suc fuel) trees basedir s =
      merge_level (merge_trees_recursive fuel) trees basedir s

  abbrev pub load_root : Text → Exec (State D) (Option SeafDir)
  load_root root s = elim (get_seafdir s.fs version root) [
    | none ↦ fail s
    | some dir ↦ pure (some dir) s
  ]

  -- The roots of base, head and remote; a two-way merge has no third.
  unfoldable pub seaf_merge_trees : ℕ → Text → Text → Text → Exec (State D) Unit
  unfolding merge_trees_recursive
  seaf_merge_trees fuel root0 root1 root2 =
      if n == 2 || n == 3
      then (do
        tree0 ← load_root root0
        tree1 ← load_root root1
        tree2 ← if n == 3 then load_root root2 else pure none
        merge_trees_recursive fuel (record { at0 = tree0; at1 = tree1; at2 = tree2 }) [])
      else fail
