-- ===== src/RepoOp/Edit.antt =====
-- server/repo-op.c: post_file_recursive, put_file_recursive, rename_file_recursive and
-- del_file_recursive. They walk down the same path in the same way and rewrite the directories on it
-- bottom up, which is `edit_dir`; they differ at the end of the path, in whether they set the time
-- of the entries on the path, and in that a deletion of nothing writes nothing. GLib, the clock and
-- the digest of a directory are parameters.
use seafile_server_learn.Prelude.{
  ℕ, ◌==◌, Bool, true, false, not, ◌&&◌, Option, none, some, List, [], ◌∷◌, if◌then◌else◌,
}
use seafile_server_learn.Prelude.Text.{Text, str_eq}
use seafile_server_learn.Prelude.Int.{ℤ}
use seafile_server_learn.Prelude.Exec.{ok, failed, Exec, resume}
use seafile_server_learn.Fs.Object.{SeafDirent, SeafDir}
use seafile_server_learn.Fs.Dirent.{renamed_copy}
use seafile_server_learn.Fs.Store.{
  FsStore, seaf_dir_new, seaf_dir_save, dir_version_from_repo_version,
}
use seafile_server_learn.Fs.Sorted.{Cmp, compare_dirents, get_seafdir_sorted}
use seafile_server_learn.Fs.Lookup.{path_names, find_dent}
use seafile_server_learn.RepoOp.Names.{filename_exists, generate_unique_filename, skip_slash}
use seafile_server_learn.RepoOp.Entries.{
  Insert, replace_dents, rename_dents, Deleted, nothing_deleted, count_deleted, not_listed,
  is_named,
}

-- `time_at` is what time(NULL) returns when the entry above these names is updated.
pub record Env : Type 0 where
  pub digest : ℕ → List SeafDirent → Text
  pub g_list_sort : Cmp → List SeafDirent → List SeafDirent
  pub g_list_insert_sorted : Insert
  pub split_tabs : Text → List Text
  pub time_at : List Text → ℤ

-- The first entry of the name gets the new id.
unfoldable pub set_id : Text → (SeafDirent → SeafDirent) → List SeafDirent → List SeafDirent
set_id name update [] = []
set_id name update (d ∷ ds) =
    if str_eq d.name name then update d ∷ ds else d ∷ set_id name update ds

-- Whether the call changed anything: an update always does, a deletion if it deleted an entry.
abbrev pub always : Unit {0} → Bool
always u = true

abbrev pub any_deleted : Deleted → Bool
any_deleted del = not (del.deleted_num == 0)

module _ (env : Env) (version : ℕ) where
  -- A new directory of these entries is saved; its id is returned.
  unfoldable pub save_entries : List SeafDirent → Exec FsStore Text
  save_entries entries s =
      let newdir = seaf_dir_new env.digest entries (dir_version_from_repo_version version) in
      let r = seaf_dir_save newdir s in resume (λ _ s. (ok newdir.dir_id, s)) r.0 r.1

  -- `memcpy (dent->id, id, 40)`, and the time where `sets_time`.
  unfoldable pub update_dent : Bool → List Text → Text → SeafDirent → SeafDirent
  update_dent sets_time names id d =
      if sets_time && not (version == 0)
      then record d { id = id; mtime = env.time_at names }
      else record d { id = id }

  module _ {A : Type 0} (sets_time : Bool) (changed : A → Bool)
      (leaf : SeafDir → Exec FsStore (Text × A)) where
    -- After the call for the entry of the name: a new directory, or the old id if nothing changed.
    unfoldable pub rewrite_above : Text → List Text → SeafDir → Text × A → Exec FsStore (Text × A)
    unfolding save_entries update_dent set_id
    rewrite_above name names dir (id, a) s =
        if changed a
        then (let r = save_entries (set_id name (update_dent sets_time names id) dir.entries) s in
            resume (λ new s. (ok (new, a), s)) r.0 r.1)
        else (ok (dir.dir_id, a), s)

    unfoldable pub descend :
        (Text → Exec FsStore (Text × A)) → Text → List Text → SeafDir → Exec FsStore (Text × A)
    unfolding rewrite_above find_dent
    descend recur name names dir s = elim (find_dent name dir.entries) [
      | none ↦ (failed, s)
      | some d ↦ let r = recur d.id s in resume (rewrite_above name names dir) r.0 r.1
    ]

    -- With the directory that was read, or NULL.
    unfoldable pub with_dir : Text → (SeafDir → Exec FsStore (Text × A)) → Exec FsStore (Text × A)
    unfolding get_seafdir_sorted
    with_dir dir_id k s = elim (get_seafdir_sorted env.g_list_sort s version dir_id) [
      | none ↦ (failed, s)
      | some olddir ↦ k olddir s
    ]

    unfoldable pub edit_dir : List Text → Text → Exec FsStore (Text × A)
    unfolding with_dir descend
    edit_dir [] dir_id s = with_dir dir_id leaf s
    edit_dir (n ∷ ns) dir_id s = with_dir dir_id (descend (edit_dir ns) n ns) s

  -- A leaf that saves the new entries, and fails without any.
  unfoldable pub save_leaf : Option (List SeafDirent) → Exec FsStore (Text × Unit {0})
  unfolding save_entries
  save_leaf none s = (failed, s)
  save_leaf (some entries) s =
      let r = save_entries entries s in resume (λ id s. (ok (id, tt), s)) r.0 r.1

  -- The new entry under a unique name, or in the place of the entries of its name.
  unfoldable pub post_dents : Bool → SeafDirent → List SeafDirent → Option (List SeafDirent)
  unfolding filename_exists replace_dents
  post_dents replace_existed newdent entries =
      if replace_existed && filename_exists entries newdent.name
      then some (replace_dents newdent entries)
      else elim (generate_unique_filename newdent.name entries) [
        | none ↦ none
        | some unique_name ↦
            some
              (env.g_list_insert_sorted compare_dirents (renamed_copy newdent unique_name) entries)
      ]

  unfoldable pub post_file_recursive :
      Text → Text → Bool → SeafDirent → Exec FsStore (Text × Unit {0})
  unfolding edit_dir save_leaf post_dents
  post_file_recursive dir_id to_path replace_existed newdent =
      edit_dir true always (λ dir. save_leaf (post_dents replace_existed newdent dir.entries))
        (path_names to_path) dir_id

  unfoldable pub put_file_recursive : Text → Text → SeafDirent → Exec FsStore (Text × Unit {0})
  unfolding edit_dir save_leaf replace_dents
  put_file_recursive dir_id to_path newdent =
      edit_dir true always (λ dir. save_leaf (some (replace_dents newdent dir.entries)))
        (path_names to_path) dir_id

  unfoldable pub rename_file_recursive : Text → Text → Text → Text → Exec FsStore (Text × Unit {0})
  unfolding edit_dir save_leaf rename_dents
  rename_file_recursive dir_id to_path oldname newname =
      edit_dir false always
        (λ dir.
          save_leaf (some (rename_dents env.g_list_insert_sorted oldname newname dir.entries)))
        (path_names to_path) dir_id

  unfoldable pub del_leaf : Text → SeafDir → Exec FsStore (Text × Deleted)
  unfolding save_entries count_deleted not_listed is_named
  del_leaf filename dir s =
      let del = count_deleted (is_named env.split_tabs filename) nothing_deleted dir.entries in
      let r = save_entries (not_listed (is_named env.split_tabs filename) dir.entries) s in
      if any_deleted del
      then resume (λ id s. (ok (id, del), s)) r.0 r.1
      else (ok (dir.dir_id, del), s)

  unfoldable pub del_file_recursive : Text → Text → Text → Exec FsStore (Text × Deleted)
  unfolding edit_dir del_leaf
  del_file_recursive dir_id to_path filename =
      edit_dir true any_deleted (del_leaf filename) (path_names to_path) dir_id

  unfoldable pub do_post_file_replace :
      Text → Text → Bool → SeafDirent → Exec FsStore (Text × Unit {0})
  unfolding post_file_recursive skip_slash
  do_post_file_replace root_id parent_dir = post_file_recursive root_id (skip_slash parent_dir)

  unfoldable pub do_post_file : Text → Text → SeafDirent → Exec FsStore (Text × Unit {0})
  unfolding do_post_file_replace
  do_post_file root_id parent_dir = do_post_file_replace root_id parent_dir false

  unfoldable pub do_put_file : Text → Text → SeafDirent → Exec FsStore (Text × Unit {0})
  unfolding put_file_recursive skip_slash
  do_put_file root_id parent_dir = put_file_recursive root_id (skip_slash parent_dir)

  unfoldable pub do_rename_file : Text → Text → Text → Text → Exec FsStore (Text × Unit {0})
  unfolding rename_file_recursive skip_slash
  do_rename_file root_id parent_dir = rename_file_recursive root_id (skip_slash parent_dir)

  unfoldable pub do_del_file : Text → Text → Text → Exec FsStore (Text × Deleted)
  unfolding del_file_recursive skip_slash
  do_del_file root_id parent_dir = del_file_recursive root_id (skip_slash parent_dir)
