-- ===== src/RepoOp/Multi.antt =====
-- server/repo-op.c: add_new_entries, post_multi_files_recursive and do_post_multi_files: several new
-- entries in one directory. `new_time` is what time(NULL) returns for each new file.
use seafile_server_learn.Prelude.{
  ℕ, ◌&&◌, Bool, true, Option, none, some, List, [], ◌∷◌, if◌then◌else◌,
}
use seafile_server_learn.Prelude.Text.{Text, str_eq}
use seafile_server_learn.Prelude.Int.{ℤ}
use seafile_server_learn.Prelude.Exec.{ok, failed, Exec, resume}
use seafile_server_learn.Fs.Object.{SeafDirent}
use seafile_server_learn.Fs.Dirent.{seaf_dirent_new}
use seafile_server_learn.Fs.Store.{FsStore, dir_version_from_repo_version}
use seafile_server_learn.Fs.Sorted.{compare_dirents}
use seafile_server_learn.Fs.Lookup.{path_names}
use seafile_server_learn.RepoOp.Names.{filename_exists, generate_unique_filename, skip_slash}
use seafile_server_learn.RepoOp.Edit.{Env, save_entries, edit_dir}

-- The first entry of the name is deleted.
unfoldable pub delete_first : Text → List SeafDirent → List SeafDirent
delete_first name [] = []
delete_first name (d ∷ ds) =
    let rest = delete_first name ds in if str_eq d.name name then ds else d ∷ rest

abbrev pub all_changed : List Text → Bool
all_changed names = true

module _ (env : Env) (version : ℕ) (user : Text) where
  unfoldable pub new_entry : SeafDirent → Text → SeafDirent
  unfolding seaf_dirent_new
  new_entry d name =
      seaf_dirent_new (dir_version_from_repo_version version) d.id d.mode name d.mtime (some user)
        d.size

  module _ (replace_existed : Bool) where
    -- The name of a new entry, and the entries between which it goes.
    unfoldable pub make_room : SeafDirent → List SeafDirent → Option Text × List SeafDirent
    unfolding filename_exists delete_first
    make_room d entries =
        if replace_existed && filename_exists entries d.name
        then (some d.name, delete_first d.name entries)
        else (generate_unique_filename d.name entries, entries)

    -- The new entries and their names, or -1.
    unfoldable pub add_new_entries :
        List SeafDirent → List SeafDirent → Option (List SeafDirent × List Text)
    unfolding make_room new_entry
    add_new_entries [] entries = some (entries, [])
    add_new_entries (d ∷ ds) entries = elim (make_room d entries).0 [
      | none ↦ none
      | some name ↦
          elim (add_new_entries ds
            (env.g_list_insert_sorted compare_dirents (new_entry d name) (make_room d entries).1)) [
              | none ↦ none
              | some (es, names) ↦ some (es, name ∷ names)
            ]
    ]

    unfoldable pub add_leaf : Option (List SeafDirent × List Text) → Exec FsStore (Text × List Text)
    add_leaf none s = (failed, s)
    add_leaf (some (entries, names)) s =
        let r = save_entries env version entries s in resume (λ id s. (ok (id, names), s)) r.0 r.1

    unfoldable pub post_multi_files_recursive :
        Text → Text → List SeafDirent → Exec FsStore (Text × List Text)
    unfolding edit_dir add_leaf add_new_entries
    post_multi_files_recursive dir_id to_path dents =
        edit_dir env version true all_changed (λ dir. add_leaf (add_new_entries dents dir.entries))
          (path_names to_path) dir_id

    -- One entry for each name, id and size, in the mode STD_FILE_MODE, as long as none of the lists ends.
    unfoldable pub make_dents : (Text → ℤ) → List Text → List Text → List ℤ → List SeafDirent
    make_dents new_time [] ids sizes = []
    make_dents new_time (n ∷ ns) [] sizes = []
    make_dents new_time (n ∷ ns) (i ∷ is) [] = []
    make_dents new_time (n ∷ ns) (i ∷ is) (z ∷ zs) =
        record {
          version = 0;
          mode = 33188;
          id = i;
          name_len = 0;
          name = n;
          mtime = new_time n;
          modifier = none;
          size = z;
        }
        ∷ make_dents new_time ns is zs

    unfoldable pub do_post_multi_files :
        (Text → ℤ) → Text → Text → List Text → List Text → List ℤ → Exec FsStore (Text × List Text)
    unfolding post_multi_files_recursive make_dents skip_slash
    do_post_multi_files new_time root_id parent_dir filenames id_list size_list =
        post_multi_files_recursive root_id (skip_slash parent_dir)
          (make_dents new_time filenames id_list size_list)
