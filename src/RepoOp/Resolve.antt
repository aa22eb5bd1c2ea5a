-- ===== src/RepoOp/Resolve.antt =====
-- server/repo-op.c: when `edit_dir` fails, and when it returns a new root.
use seafile_server_learn.Prelude.{
  ℕ, ◌==◌, ◌≡◌, refl, sym, ◌∙◌, Bool, true, false, none, some, List, [], ◌∷◌, Option-cases,
  Bool-cases, inl, inr, ◌&&◌,
}
use seafile_server_learn.Prelude.Text.{Text, str_eq}
use seafile_server_learn.Prelude.Exec.{Outcome, ok, failed, out_of_fuel, Exec, resume}
use seafile_server_learn.Fs.Object.{SeafDirent, SeafDir}
use seafile_server_learn.Fs.Dirent.{renamed_copy}
use seafile_server_learn.Fs.Store.{
  FsStore, empty_sha1, obj_exists, get_seafdir, seaf_dir_new, seaf_dir_save,
  dir_version_from_repo_version,
}
use seafile_server_learn.Fs.Sorted.{get_seafdir_sorted_plain, compare_dirents}
use seafile_server_learn.Fs.Lookup.{
  path_names, find_dent, entry_in_lem, entry_in-some, dir_at, dir_at-cons, dir_at-some,
}
use seafile_server_learn.RepoOp.Names.{skip_slash, generate_unique_filename, filename_exists}
use seafile_server_learn.RepoOp.Entries.{
  Deleted, nothing_deleted, count_deleted, not_listed, is_named, replace_dents, rename_dents,
}
use seafile_server_learn.RepoOp.Edit.{
  Env, set_id, update_dent, save_entries, rewrite_above, descend, with_dir, edit_dir, save_leaf,
  always, any_deleted, post_dents, del_leaf, do_post_file_replace, do_put_file, do_rename_file,
  do_del_file, post_file_recursive, put_file_recursive, rename_file_recursive, del_file_recursive,
}

-- The backend refuses no object.
abbrev pub Accepts : FsStore → Type 0
Accepts s = (id : Text) → s.writable id ≡ true

-- The call did not fail.
abbrev pub Returns : {A : Type 0} → Outcome A × FsStore → Type 0
Returns (ok a, s) = Accepts s
Returns (failed, s) = ⊥
Returns (out_of_fuel, s) = ⊥

resume-Returns :
    {A : Type 0} (a : A) (r : Outcome Text × FsStore)
    → Returns r
    → Returns {A = Text × A} (resume (λ id s. (ok (id, a), s)) r.0 r.1)
resume-Returns a (ok id, s) h = h
resume-Returns a (failed, s) h = h
resume-Returns a (out_of_fuel, s) h = h

seaf_dir_save-Returns : (dir : SeafDir) (s : FsStore) → Accepts s → Returns (seaf_dir_save dir s)
unfolding seaf_dir_save
seaf_dir_save-Returns dir s accepts = elim (Bool-cases (str_eq dir.dir_id empty_sha1)) [
  | inl empty ↦ rw (empty, seaf_dir_save) accepts
  | inr filled ↦ elim (Bool-cases (obj_exists s dir.dir_id)) [
    | inl there ↦ rw (filled, there, seaf_dir_save) accepts
    | inr absent ↦ rw (filled, absent, accepts dir.dir_id, seaf_dir_save) accepts
  ]
]

module _ (env : Env) (version : ℕ) (positive : (version == 0) ≡ false) where
  save_entries-Returns :
      (es : List SeafDirent) (s : FsStore) → Accepts s → Returns (save_entries env version es s)
  unfolding save_entries
  save_entries-Returns es s accepts =
      let newdir = seaf_dir_new env.digest es (dir_version_from_repo_version version) in
      with_id newdir.dir_id (seaf_dir_save newdir s) (seaf_dir_save-Returns newdir s accepts)
    where
      with_id :
          (id : Text) (r : Outcome (Unit {0}) × FsStore)
          → Returns r
          → Returns {A = Text} (resume (λ _ s. (ok id, s)) r.0 r.1)
      with_id id (ok u, s) h = h
      with_id id (failed, s) h = h
      with_id id (out_of_fuel, s) h = h

  save_leaf-Returns :
      (es : List SeafDirent) (s : FsStore) → Accepts s → Returns (save_leaf env version (some es) s)
  unfolding save_leaf
  save_leaf-Returns es s accepts =
      resume-Returns tt (save_entries env version es s) (save_entries-Returns es s accepts)

  del_leaf-Returns :
      (filename : Text) (dir : SeafDir) (s : FsStore)
      → Accepts s
      → Returns (del_leaf env version filename dir s)
  unfolding del_leaf
  del_leaf-Returns filename dir s accepts = elim (Bool-cases (any_deleted del)) [
    | inl some' ↦
        let es = not_listed listed dir.entries in
        let done =
          resume-Returns del (save_entries env version es s) (save_entries-Returns es s accepts) in
        rw (some', del_leaf) done
    | inr none' ↦ rw (none', del_leaf) accepts
  ]
    where
      listed : Text → Bool
      listed = is_named env.split_tabs filename

      del : Deleted
      del = count_deleted listed nothing_deleted dir.entries

  module _ {A : Type 0} (sets_time : Bool) (changed : A → Bool)
      (leaf : SeafDir → Exec FsStore (Text × A)) where
    rewrite_above-Returns :
        (n : Text) (ns : List Text) (dir : SeafDir) (id : Text) (a : A) (s : FsStore)
        → Accepts s
        → Returns (rewrite_above env version sets_time changed leaf n ns dir (id, a) s)
    unfolding rewrite_above
    rewrite_above-Returns n ns dir id a s accepts = elim (Bool-cases (changed a)) [
      | inl differs ↦
          let es = set_id n (update_dent env version sets_time ns id) dir.entries in
          let done =
            resume-Returns a (save_entries env version es s) (save_entries-Returns es s accepts) in
          rw (differs, rewrite_above) done
      | inr same ↦ rw (same, rewrite_above) accepts
    ]

    edit_dir-missing :
        (names : List Text) (id : Text) (s : FsStore)
        → dir_at s version id names ≡ none
        → edit_dir env version sets_time changed leaf names id s ≡ (failed, s)
    unfolding edit_dir with_dir descend dir_at
    edit_dir-missing [] id s h =
        rw (get_seafdir_sorted_plain env.g_list_sort version positive s id, h, with_dir) refl
    edit_dir-missing (n ∷ ns) id s h = elim (Option-cases (get_seafdir s version id)) [
      | inl missing ↦
          rw (get_seafdir_sorted_plain env.g_list_sort version positive s id, missing, with_dir)
            refl
      | inr (dir, read) ↦ elim (Option-cases (find_dent n dir.entries)) [
        | inl nobody ↦
            rw
              (
                get_seafdir_sorted_plain env.g_list_sort version positive s id,
                read,
                with_dir,
                nobody,
                descend,
              )
              refl
        | inr (d, found) ↦
            let step =
              dir_at-cons s version id n ns d (entry_in_lem s version id n dir read ∙ found) in
            let ih = edit_dir-missing ns d.id s (sym step ∙ h) in
            rw
              (
                get_seafdir_sorted_plain env.g_list_sort version positive s id,
                read,
                with_dir,
                found,
                descend,
                ih,
              )
              refl
      ]
    ]

    -- With what the leaf returned for the directory at the end of the path.
    edit_dir-resume :
        (names : List Text) (id : Text) (s : FsStore) (dir : SeafDir)
        → dir_at s version id names ≡ some dir
        → Returns (leaf dir s)
        → Returns (edit_dir env version sets_time changed leaf names id s)
    unfolding edit_dir with_dir descend dir_at
    edit_dir-resume [] id s dir h ret =
        rw (get_seafdir_sorted_plain env.g_list_sort version positive s id, h, with_dir) ret
    edit_dir-resume (n ∷ ns) id s dir h ret =
        let (d, first, rest) = dir_at-some s version id n ns dir h in
        let (parent, read, found) = entry_in-some s version id n d first in
        let ih = edit_dir-resume ns d.id s dir rest ret in
        rw
          (
            get_seafdir_sorted_plain env.g_list_sort version positive s id,
            read,
            with_dir,
            found,
            descend,
          )
          (below_call n ns parent (edit_dir env version sets_time changed leaf ns d.id s) ih)
      where
        below_call :
            (n : Text) (ns : List Text) (parent : SeafDir) (r : Outcome (Text × A) × FsStore)
            → Returns r
            → Returns
                (resume (rewrite_above env version sets_time changed leaf n ns parent) r.0 r.1)
        below_call n ns parent (ok (id', a), s') accepts =
            rewrite_above-Returns n ns parent id' a s' accepts
        below_call n ns parent (failed, s') h = h
        below_call n ns parent (out_of_fuel, s') h = h

  -- A path of names that leads to no directory.
  module _ (s : FsStore) (root_id parent_dir : Text)
      (nowhere : dir_at s version root_id (path_names (skip_slash parent_dir)) ≡ none) where
    pub put_nowhere :
        (newdent : SeafDirent) → do_put_file env version root_id parent_dir newdent s ≡ (failed, s)
    unfolding do_put_file put_file_recursive
    put_nowhere newdent =
        edit_dir-missing true always _ (path_names (skip_slash parent_dir)) root_id s nowhere

    pub post_nowhere :
        (replace_existed : Bool) (newdent : SeafDirent)
        → do_post_file_replace env version root_id parent_dir replace_existed newdent s
          ≡ (failed, s)
    unfolding do_post_file_replace post_file_recursive
    post_nowhere replace newdent =
        edit_dir-missing true always _ (path_names (skip_slash parent_dir)) root_id s nowhere

    pub rename_nowhere :
        (oldname newname : Text)
        → do_rename_file env version root_id parent_dir oldname newname s ≡ (failed, s)
    unfolding do_rename_file rename_file_recursive
    rename_nowhere oldname newname =
        edit_dir-missing false always _ (path_names (skip_slash parent_dir)) root_id s nowhere

    pub del_nowhere :
        (filename : Text) → do_del_file env version root_id parent_dir filename s ≡ (failed, s)
    unfolding do_del_file del_file_recursive
    del_nowhere filename =
        edit_dir-missing true any_deleted _ (path_names (skip_slash parent_dir)) root_id s nowhere

  -- For a repository version above 0: where the path leads from the root to no directory, do_put_file,
  -- do_post_file_replace, do_rename_file and do_del_file fail and leave the store as it was.

  -- For a repository version above 0: where the path leads from the root to no directory,
  -- do_put_file, do_post_file_replace, do_rename_file and do_del_file fail and leave the store as it
  -- was. A path leads on through entries of every kind whose object reads as a directory, as in the
  -- source, which does not test the mode there: an empty regular file, whose id is forty zeros,
  -- reads as an empty directory.
  pub requests_nowhere :
      (s : FsStore) (root_id parent_dir filename newname : Text) (replace_existed : Bool)
      (newdent : SeafDirent)
      → dir_at s version root_id (path_names (skip_slash parent_dir)) ≡ none
      → (do_put_file env version root_id parent_dir newdent s ≡ (failed, s))
        × (do_post_file_replace env version root_id parent_dir replace_existed newdent s
            ≡ (failed, s))
        × (do_rename_file env version root_id parent_dir filename newname s ≡ (failed, s))
        × (do_del_file env version root_id parent_dir filename s ≡ (failed, s))
  requests_nowhere s root_id parent_dir filename newname replace newdent h = (
    put_nowhere s root_id parent_dir h newdent,
    post_nowhere s root_id parent_dir h replace newdent,
    rename_nowhere s root_id parent_dir h filename newname,
    del_nowhere s root_id parent_dir h filename,
  )

  module _ (s : FsStore) (root_id parent_dir : Text) (dir : SeafDir)
      (leads : dir_at s version root_id (path_names (skip_slash parent_dir)) ≡ some dir)
      (accepts : Accepts s) where
    put-Returns :
        (newdent : SeafDirent) → Returns (do_put_file env version root_id parent_dir newdent s)
    unfolding do_put_file put_file_recursive
    put-Returns newdent =
        edit_dir-resume true always _ (path_names (skip_slash parent_dir)) root_id s dir leads
          (save_leaf-Returns (replace_dents newdent dir.entries) s accepts)

    rename-Returns :
        (oldname newname : Text)
        → Returns (do_rename_file env version root_id parent_dir oldname newname s)
    unfolding do_rename_file rename_file_recursive
    rename-Returns oldname newname =
        edit_dir-resume false always _ (path_names (skip_slash parent_dir)) root_id s dir leads (
          save_leaf-Returns (rename_dents env.g_list_insert_sorted oldname newname dir.entries) s
            accepts)

    del-Returns :
        (filename : Text) → Returns (do_del_file env version root_id parent_dir filename s)
    unfolding do_del_file del_file_recursive
    del-Returns filename =
        edit_dir-resume true any_deleted _ (path_names (skip_slash parent_dir)) root_id s dir leads
          (del_leaf-Returns filename dir s accepts)

    post_dents-Returns :
        (replace_existed : Bool) (newdent : SeafDirent) (name : Text)
        → generate_unique_filename newdent.name dir.entries ≡ some name
        → Returns
            (save_leaf env version (post_dents env version replace_existed newdent dir.entries) s)
    unfolding post_dents
    post_dents-Returns replace newdent name unique =
        elim (Bool-cases (replace && filename_exists dir.entries newdent.name)) [
          | inl in_place ↦
              let done = save_leaf-Returns (replace_dents newdent dir.entries) s accepts in
              rw (in_place, post_dents) done
          | inr beside ↦
              let done =
                save_leaf-Returns
                  (env.g_list_insert_sorted compare_dirents (renamed_copy newdent name) dir.entries)
                  s accepts in
              rw (beside, unique, post_dents) done
        ]

    post-Returns :
        (replace_existed : Bool) (newdent : SeafDirent) (name : Text)
        → generate_unique_filename newdent.name dir.entries ≡ some name
        → Returns (do_post_file_replace env version root_id parent_dir replace_existed newdent s)
    unfolding do_post_file_replace post_file_recursive
    post-Returns replace newdent name unique =
        edit_dir-resume true always _ (path_names (skip_slash parent_dir)) root_id s dir leads
          (post_dents-Returns replace newdent name unique)

  -- For a repository version above 0: where the path leads from the root to a directory, the store
  -- accepts every write and a unique name can be made, do_put_file, do_post_file_replace,
  -- do_rename_file and do_del_file return a root, and the store still accepts every write.
  pub requests_return :
      (s : FsStore) (root_id parent_dir : Text) (dir : SeafDir) (filename newname : Text)
      (replace_existed : Bool) (newdent : SeafDirent) (name : Text)
      → dir_at s version root_id (path_names (skip_slash parent_dir)) ≡ some dir
      → Accepts s
      → generate_unique_filename newdent.name dir.entries ≡ some name
      → Returns (do_put_file env version root_id parent_dir newdent s)
        × Returns (do_post_file_replace env version root_id parent_dir replace_existed newdent s)
        × Returns (do_rename_file env version root_id parent_dir filename newname s)
        × Returns (do_del_file env version root_id parent_dir filename s)
  requests_return s root_id parent_dir dir filename newname replace newdent name leads accepts
        unique =
      (
        put-Returns s root_id parent_dir dir leads accepts newdent,
        post-Returns s root_id parent_dir dir leads accepts replace newdent name unique,
        rename-Returns s root_id parent_dir dir leads accepts filename newname,
        del-Returns s root_id parent_dir dir leads accepts filename,
      )
