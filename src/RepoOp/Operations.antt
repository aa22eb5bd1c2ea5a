-- ===== src/RepoOp/Operations.antt =====
-- server/repo-op.c: posting, putting, renaming and deleting as changes to what paths lead to.
use mathlib.Core.Path.{subst}
use seafile_server_learn.Prelude.{
  ℕ, ◌==◌, ◌≡◌, ◌≢◌, refl, sym, ap, ◌∙◌, Bool, true, false, none, some, [], arith, Option-cases,
  Bool-cases, inl, inr, ◌⊎◌,
}
use seafile_server_learn.Prelude.Text.{Text}
use seafile_server_learn.Fs.Object.{SeafDirent, SeafDir}
use seafile_server_learn.Fs.Dirent.{renamed_copy}
use seafile_server_learn.Fs.Sorted.{compare_dirents}
use seafile_server_learn.Fs.Store.{FsStore, get_seafdir}
use seafile_server_learn.Fs.Extends.{Extends-refl}
use seafile_server_learn.Fs.Lookup.{path_names, find_dent, entry_at, dir_at}
use seafile_server_learn.Fs.Addressed.{IsDigest, IsAddressed, get_seafdir-dir_id}
use seafile_server_learn.RepoOp.Names.{generate_unique_filename}
use seafile_server_learn.RepoOp.Entries.{
  replace_dents, rename_dents, Deleted, nothing_deleted, count_deleted, not_listed, is_named,
}
use seafile_server_learn.RepoOp.Found.{
  count_deleted-length, InsertsOne, find_dent-insert, find_dent-insert_ne, find_dent-replace_self,
  find_dent-replace_ne, find_dent-not_listed, find_dent-not_listed_ne, find_dent-none_deleted,
  filename_exists-none, generate_unique_filename-new, rename_dents-old, rename_dents-new,
  rename_dents_ne,
}
use seafile_server_learn.RepoOp.Edit.{
  Env, save_entries, save_leaf, always, post_dents, any_deleted, del_leaf, post_file_recursive,
  put_file_recursive, rename_file_recursive, del_file_recursive,
}
use seafile_server_learn.RepoOp.Saved.{save_entries-Saved}
use seafile_server_learn.RepoOp.Refine.{Edits, edit_dir-Edits}
use seafile_server_learn.RepoOp.Leaves.{
  saved-Edits, PutNew, NotName, PostNew, AnyName, RenameNew, Neither, DelNew, NotNamed,
}

module _ (env : Env) (version : ℕ) (good : IsDigest env.digest)
    (positive : (version == 0) ≡ false) where
  pub put_file_recursive-Edits :
      (s : FsStore) (dir_id path : Text) (newdent : SeafDirent)
      → IsAddressed env.digest s
      → Edits env version good positive always
          (NotName newdent.name)
          (PutNew newdent)
          s
          dir_id
          (path_names path)
          (put_file_recursive env version dir_id path newdent s)
  unfolding put_file_recursive save_leaf
  put_file_recursive-Edits s dir_id path newdent a =
      edit_dir-Edits env version good positive always (NotName newdent.name) (PutNew newdent) true _
        (λ dir id s a read.
          let es = replace_dents newdent dir.entries in
          saved-Edits env version good positive always (NotName newdent.name) (PutNew newdent) s id
            dir read es tt (save_entries env version es s)
            (save_entries-Saved env version good positive s es a) refl
            (find_dent-replace_self newdent dir.entries)
            (λ m d ne h. find_dent-replace_ne m newdent dir.entries ne ∙ h))
        (path_names path) dir_id s a

  module _ (one : InsertsOne env.g_list_insert_sorted) where
    post_leaf-Edits :
        (newdent : SeafDirent) (dir : SeafDir) (id : Text) (s : FsStore)
        → IsAddressed env.digest s
        → get_seafdir s version id ≡ some dir
        → Edits env version good positive always AnyName
            (PostNew newdent)
            s
            id
            []
            (save_leaf env version (post_dents env version false newdent dir.entries) s)
    unfolding post_dents save_leaf renamed_copy
    post_leaf-Edits newdent dir id s a read =
        elim (Option-cases (generate_unique_filename newdent.name dir.entries)) [
          | inl nobody ↦ rw (nobody, save_leaf) (a, Extends-refl version s)
          | inr (name, found) ↦
              let d = renamed_copy newdent name in
              let es = env.g_list_insert_sorted compare_dirents d dir.entries in
              let free =
                filename_exists-none name dir.entries
                  (generate_unique_filename-new newdent.name name dir.entries found) in
              let done =
                saved-Edits env version good positive always AnyName (PostNew newdent) s id dir read
                  es tt (save_entries env version es s)
                  (save_entries-Saved env version good positive s es a) refl
                  (
                    name,
                    found,
                    free,
                    find_dent-insert env.g_list_insert_sorted one d dir.entries free,
                  )
                  (λ m e u h. kept name free m e h) in
              rw (found, save_leaf) done
        ]
      where
        kept :
            (name : Text)
            → find_dent name dir.entries ≡ none
            → (m : Text) (e : SeafDirent) → find_dent m dir.entries ≡ some e
            → find_dent m
                (env.g_list_insert_sorted compare_dirents (renamed_copy newdent name) dir.entries)
              ≡ some e
        kept name free m e h =
            find_dent-insert_ne env.g_list_insert_sorted one m (renamed_copy newdent name)
              dir.entries (λ same. cc (ap (λ n. find_dent n dir.entries) same, free, h))
            ∙ h

    pub post_file_recursive-Edits :
        (s : FsStore) (dir_id path : Text) (newdent : SeafDirent)
        → IsAddressed env.digest s
        → Edits env version good positive always AnyName
            (PostNew newdent)
            s
            dir_id
            (path_names path)
            (post_file_recursive env version dir_id path false newdent s)
    unfolding post_file_recursive
    post_file_recursive-Edits s dir_id path newdent a =
        edit_dir-Edits env version good positive always AnyName (PostNew newdent) true _
          (λ dir id s a read. post_leaf-Edits newdent dir id s a read) (path_names path) dir_id s a

    pub rename_file_recursive-Edits :
        (s : FsStore) (dir_id path oldname newname : Text)
        → oldname ≢ newname
        → IsAddressed env.digest s
        → Edits env version good positive always
            (Neither oldname newname)
            (RenameNew oldname newname)
            s
            dir_id
            (path_names path)
            (rename_file_recursive env version dir_id path oldname newname s)
    unfolding rename_file_recursive save_leaf
    rename_file_recursive-Edits s dir_id path oldname newname differ a =
        let insert = env.g_list_insert_sorted in
        edit_dir-Edits env version good positive always (Neither oldname newname)
          (RenameNew oldname newname) false _
          (λ dir id s a read.
            let es = rename_dents insert oldname newname dir.entries in
            saved-Edits env version good positive always (Neither oldname newname)
              (RenameNew oldname newname) s id dir read es tt (save_entries env version es s)
              (save_entries-Saved env version good positive s es a) refl
              (
                rename_dents-old insert one oldname newname differ dir.entries,
                λ d found absent.
                    rename_dents-new insert one oldname newname differ dir.entries d found absent,
              )
              (λ m d ne h.
                rename_dents_ne insert one oldname newname differ m dir.entries ne.0 ne.1 ∙ h))
          (path_names path) dir_id s a

  del_leaf-Edits :
      (filename : Text) (dir : SeafDir) (id : Text) (s : FsStore)
      → IsAddressed env.digest s
      → get_seafdir s version id ≡ some dir
      → Edits env version good positive any_deleted
          (NotNamed env.split_tabs filename)
          (DelNew env.split_tabs filename)
          s
          id
          []
          (del_leaf env version filename dir s)
  unfolding del_leaf dir_at
  del_leaf-Edits filename dir id s a read = by_count (Bool-cases (any_deleted del))
    where
      listed : Text → Bool
      listed = is_named env.split_tabs filename

      del : Deleted
      del = count_deleted listed nothing_deleted dir.entries

      by_count :
          ((any_deleted del ≡ true) ⊎ (any_deleted del ≡ false))
          → Edits env version good positive any_deleted
              (NotNamed env.split_tabs filename)
              (DelNew env.split_tabs filename)
              s
              id
              []
              (del_leaf env version filename dir s)
      by_count (inl some') =
          let es = not_listed listed dir.entries in
          let done =
            saved-Edits env version good positive any_deleted (NotNamed env.split_tabs filename)
              (DelNew env.split_tabs filename) s id dir read es del (save_entries env version es s)
              (save_entries-Saved env version good positive s es a) some'
              (
                refl,
                omega (arith, count_deleted-length listed nothing_deleted dir.entries),
                λ m h. find_dent-not_listed listed m dir.entries h,
              )
              (λ m d out h. find_dent-not_listed_ne listed m dir.entries out ∙ h) in
          rw (some', del_leaf) done
      by_count (inr none') =
          let own = get_seafdir-dir_id env.digest good s version id dir a read in
          let zero : del.deleted_num ≡ 0 = ground arith in
          rw (none', del_leaf)
            (
              a,
              Extends-refl version s,
              record {
                old_dir = dir;
                new_dir = dir;
                was_there = read;
                is_there = subst (λ i. get_seafdir s version i ≡ some dir) (sym own) read;
                unchanged = λ e. own;
                is_new = (
                  refl,
                  omega (arith, zero),
                  λ m h. find_dent-none_deleted listed nothing_deleted m dir.entries zero h,
                );
                others =
                    λ m ks x apart h. subst (λ i. entry_at s version i m ks ≡ some x) (sym own) h;
              },
            )

  pub del_file_recursive-Edits :
      (s : FsStore) (dir_id path filename : Text)
      → IsAddressed env.digest s
      → Edits env version good positive any_deleted
          (NotNamed env.split_tabs filename)
          (DelNew env.split_tabs filename)
          s
          dir_id
          (path_names path)
          (del_file_recursive env version dir_id path filename s)
  unfolding del_file_recursive
  del_file_recursive-Edits s dir_id path filename a =
      edit_dir-Edits env version good positive any_deleted (NotNamed env.split_tabs filename)
        (DelNew env.split_tabs filename) true _
        (λ dir id s a read. del_leaf-Edits filename dir id s a read) (path_names path) dir_id s a
