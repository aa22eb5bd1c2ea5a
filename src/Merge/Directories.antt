-- ===== src/Merge/Directories.antt =====
-- `merge_directories` of common/merge-new.c: the directories of one name. The recursion into the
-- level below is an argument.
use seafile_server_learn.Prelude.{
  ℕ, ◌+◌, ◌==◌, Option, none, some, List, ◌∷◌, ◌++◌, ◌&&◌, if◌then◌else◌,
}
use seafile_server_learn.Prelude.Text.{Text, codes, str_eq}
use seafile_server_learn.Prelude.Exec.{Exec, pure, fail, ◌>>=◌, ◌>>◌}
use seafile_server_learn.Fs.Object.{SeafDirent, SeafDir, is_dir}
use seafile_server_learn.Fs.Store.{get_seafdir}
use seafile_server_learn.Merge.Options.{Slots, State}
use seafile_server_learn.Merge.Entries.{has_id}

-- `dents[i]` where it is a directory: the bits of `dir_mask`.
unfoldable pub as_dir : Option SeafDirent → Option SeafDirent
as_dir none = none
as_dir (some d) = if is_dir d then some d else none

abbrev pub dirs_of : Slots SeafDirent → Slots SeafDirent
dirs_of d = record { at0 = as_dir d.at0; at1 = as_dir d.at1; at2 = as_dir d.at2 }

-- What the switch on `dir_mask` decides: descend, add nothing, add an entry as it is, or the
-- assertion on a mask that cannot occur.
pub data Choice : Type 0 where
  descend drop unreachable : Choice
  keep : SeafDirent → Choice

-- The arguments are the directories among base, head and remote, then `dents[0]`.
unfoldable pub choose :
    Option SeafDirent → Option SeafDirent → Option SeafDirent → Option SeafDirent → Choice
choose none none none base_dent = unreachable
choose (some base) none none base_dent = drop
choose none (some head) none base_dent = keep head
choose (some base) (some head) none base_dent = if str_eq base.id head.id then drop else descend
choose none none (some remote) base_dent = keep remote
choose (some base) none (some remote) base_dent = if str_eq base.id remote.id then drop else descend
choose base (some head) (some remote) base_dent =
    if str_eq head.id remote.id
    then keep head
    else if has_id base_dent head.id
    then keep remote
    else if has_id base_dent remote.id
    then keep head
    else descend

-- The entry of the merged directory: head's where head has the directory, else remote's if base
-- had it too (`dir_mask` 3, 6, 7 or 5).
unfoldable pub merged_dent :
    Option SeafDirent
    → Option SeafDirent
    → Option SeafDirent
    → Text
    → List SeafDirent
    → List SeafDirent
merged_dent none (some head) none root out = out
merged_dent base (some head) remote root out = record head { id = root } ∷ out
merged_dent (some base) none (some remote) root out = record remote { id = root } ∷ out
merged_dent base none remote root out = out

-- The name of the last directory of the array.
unfoldable pub dirname_of : Option SeafDirent → Option SeafDirent → Option SeafDirent → Option Text
dirname_of base head (some remote) = some remote.name
dirname_of base (some head) none = some head.name
dirname_of (some base) none none = some base.name
dirname_of none none none = none

-- `g_strconcat (basedir, dirname, "/", NULL)`, which ends at a null argument.
abbrev pub new_basedir : Text → Option Text → Text
new_basedir basedir none = basedir
new_basedir basedir (some dirname) = basedir ++ (dirname ++ codes "/")

module _ {D : Type 0} (version : ℕ) where
  -- A directory that was found counts as visited.
  unfoldable pub visit : Option SeafDir → Exec (State D) (Option SeafDir)
  visit none s = fail s
  visit (some dir) s =
      pure (some dir) (record s { opt = record s.opt { visit_dirs = s.opt.visit_dirs + 1 } })

  unfoldable pub load_dir : Option SeafDirent → Exec (State D) (Option SeafDir)
  load_dir none s = pure none s
  load_dir (some d) s = visit (get_seafdir s.fs version d.id) s

  -- The merge of the level below, and the entry for what it made.
  unfoldable pub merge_sub_dirs :
      (Slots SeafDir → Text → Exec (State D) Unit)
      → ℕ
      → Slots SeafDirent
      → Text
      → List SeafDirent
      → Exec (State D) (List SeafDirent)
  unfolding load_dir visit merged_dent dirname_of
  merge_sub_dirs recur n dirs basedir out = do
    base ← load_dir dirs.at0
    head ← load_dir dirs.at1
    remote ← load_dir dirs.at2
    recur (record { at0 = base; at1 = head; at2 = remote })
        (new_basedir basedir (dirname_of dirs.at0 dirs.at1 dirs.at2))
    λ s.
        pure
          (if n == 3 && s.opt.do_merge
            then merged_dent dirs.at0 dirs.at1 dirs.at2 s.opt.merged_tree_root out
            else out)
          s

  unfoldable pub follow :
      (Slots SeafDir → Text → Exec (State D) Unit)
      → ℕ
      → Slots SeafDirent
      → Text
      → List SeafDirent
      → Choice
      → Exec (State D) (List SeafDirent)
  unfolding merge_sub_dirs
  follow recur n dirs basedir out descend = merge_sub_dirs recur n dirs basedir out
  follow recur n dirs basedir out drop = pure out
  follow recur n dirs basedir out unreachable = fail
  follow recur n dirs basedir out (keep d) = pure (d ∷ out)

  unfoldable pub merge_directories :
      (Slots SeafDir → Text → Exec (State D) Unit)
      → ℕ
      → Slots SeafDirent
      → Text
      → List SeafDirent
      → Exec (State D) (List SeafDirent)
  unfolding follow choose as_dir
  merge_directories recur n dents basedir out s =
      follow recur n (dirs_of dents) basedir out
        (if n == 3 && s.opt.do_merge
          then choose (as_dir dents.at0) (as_dir dents.at1) (as_dir dents.at2) dents.at0
          else descend)
        s
