-- ===== src/Merge/Entries.antt =====
-- `merge_entries` of common/merge-new.c: the files of one name.
use seafile_server_learn.Prelude.{
  ℕ, ◌==◌, Bool, true, false, Option, none, some, List, ◌∷◌, ◌||◌, not, if◌then◌else◌,
}
use seafile_server_learn.Prelude.Text.{Text, str_eq}
use seafile_server_learn.Prelude.Exec.{Exec, pure, ◌>>=◌, ◌>>◌, modify}
use seafile_server_learn.Fs.Object.{SeafDirent, is_file, rename}
use seafile_server_learn.Merge.Options.{
  Slots, State, Env, merge_conflict_filename, merge_conflict_dirname,
}

-- `dents[i]` where it is a regular file.
unfoldable pub as_file : Option SeafDirent → Option SeafDirent
as_file none = none
as_file (some d) = if is_file d then some d else none

abbrev pub files_of : Slots SeafDirent → Slots SeafDirent
files_of d = record { at0 = as_file d.at0; at1 = as_file d.at1; at2 = as_file d.at2 }

-- `a != NULL && strcmp (a->id, b->id) == 0`
abbrev pub has_id : Option SeafDirent → Text → Bool
has_id none id = false
has_id (some a) id = str_eq a.id id

-- The array `dents`, in which a name may have been changed, and `*dents_out`.
abbrev pub Merged : Type 0
Merged = Slots SeafDirent × List SeafDirent

abbrev pub set_conflict : {D : Type 0} → State D → State D
set_conflict s = record s { opt = record s.opt { conflict = true } }

module _ {D : Type 0} (env : Env D) (dents : Slots SeafDirent) (basedir : Text) where
  -- The remote file takes a conflict name, in place; `kept` are the entries added before it.
  unfoldable pub rename_remote_file : SeafDirent → List SeafDirent → Exec (State D) Merged
  rename_remote_file remote kept = do
    conflict_name ← merge_conflict_filename env basedir remote.name
    let remote' = rename remote conflict_name
    modify set_conflict
    pure (record dents { at2 = some remote' }, remote' ∷ kept)

  -- The remote directory takes a conflict name, in place, and the file of head is added.
  unfoldable pub rename_remote_dir :
      SeafDirent → SeafDirent → List SeafDirent → Exec (State D) Merged
  rename_remote_dir dir head out = do
    conflict_name ← merge_conflict_dirname env basedir dir.name
    modify set_conflict
    pure (record dents { at2 = some (rename dir conflict_name) }, head ∷ out)

  -- `head && remote`. Head's file is added under its name, which is also the name of remote.
  unfoldable pub merge_both :
      Option SeafDirent → SeafDirent → SeafDirent → List SeafDirent → Exec (State D) Merged
  unfolding rename_remote_file
  merge_both base head remote out =
      if str_eq head.id remote.id
      then pure (dents, head ∷ out)
      else if has_id base head.id
      then pure (dents, remote ∷ out)
      else if has_id base remote.id
      then pure (dents, head ∷ out)
      else (do
        conflict_name ← merge_conflict_filename env basedir head.name
        let remote' = rename remote conflict_name
        modify set_conflict
        pure (record dents { at2 = some remote' }, remote' ∷ head ∷ out))

  -- `base && !head && remote`, with what stands in `dents[1]`.
  unfoldable pub merge_no_head :
      SeafDirent → SeafDirent → Option SeafDirent → List SeafDirent → Exec (State D) Merged
  unfolding rename_remote_file
  merge_no_head base remote none out =
      if str_eq base.id remote.id then pure (dents, out) else pure (dents, remote ∷ out)
  merge_no_head base remote (some dir) out =
      if str_eq base.id remote.id then pure (dents, out) else rename_remote_file remote out

  -- `base && head && !remote`, with what stands in `dents[2]`.
  unfoldable pub merge_no_remote :
      SeafDirent → SeafDirent → Option SeafDirent → List SeafDirent → Exec (State D) Merged
  unfolding rename_remote_dir
  merge_no_remote base head none out =
      if str_eq base.id head.id then pure (dents, out) else pure (dents, head ∷ out)
  merge_no_remote base head (some dir) out =
      if str_eq base.id head.id then pure (dents, out) else rename_remote_dir dir head out

  -- `!base && !head && remote`, with `dents[0]` and `dents[1]`, which are no files.
  unfoldable pub merge_remote_only :
      SeafDirent → Option SeafDirent → Option SeafDirent → List SeafDirent → Exec (State D) Merged
  unfolding rename_remote_file
  merge_remote_only remote base_dent none out = pure (dents, remote ∷ out)
  merge_remote_only remote base_dent (some dir) out =
      if has_id base_dent dir.id then pure (dents, remote ∷ out) else rename_remote_file remote out

  -- `!base && head && !remote`, with `dents[0]` and `dents[2]`, which are no files.
  unfoldable pub merge_head_only :
      SeafDirent → Option SeafDirent → Option SeafDirent → List SeafDirent → Exec (State D) Merged
  unfolding rename_remote_dir
  merge_head_only head base_dent none out = pure (dents, head ∷ out)
  merge_head_only head base_dent (some dir) out =
      if has_id base_dent dir.id then pure (dents, head ∷ out) else rename_remote_dir dir head out

  -- The cases on which of base, head and remote are files.
  unfoldable pub merge_files :
      Option SeafDirent
      → Option SeafDirent
      → Option SeafDirent
      → List SeafDirent
      → Exec (State D) Merged
  unfolding merge_both merge_no_head merge_no_remote merge_remote_only merge_head_only
  merge_files base (some head) (some remote) out = merge_both base head remote out
  merge_files (some base) none (some remote) out = merge_no_head base remote dents.at1 out
  merge_files (some base) (some head) none out = merge_no_remote base head dents.at2 out
  merge_files none none (some remote) out = merge_remote_only remote dents.at0 dents.at1 out
  merge_files none (some head) none out = merge_head_only head dents.at0 dents.at2 out
  merge_files base none none out = pure (dents, out)

  unfoldable pub merge_entries : ℕ → List SeafDirent → Exec (State D) Merged
  unfolding merge_files as_file
  merge_entries n out s =
      (if n == 2 || not s.opt.do_merge
          then env.callback basedir (files_of dents) >> pure (dents, out)
          else merge_files (as_file dents.at0) (as_file dents.at1) (as_file dents.at2) out)
        s
