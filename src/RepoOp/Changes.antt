-- ===== src/RepoOp/Changes.antt =====
-- server/repo-op.c: do_put_file, do_post_file, do_rename_file and do_del_file as changes to one
-- directory of the tree that the root stands for, in a store in which every directory stands under
-- its digest.
use seafile_server_learn.Prelude.{
  ℕ, ◌==◌, ◌≡◌, refl, Bool, true, false, Option, none, some, List, [],
}
use seafile_server_learn.Prelude.Text.{Text}
use seafile_server_learn.Prelude.Exec.{Outcome, ok, failed, out_of_fuel}
use seafile_server_learn.Fs.Object.{SeafDirent, SeafDir}
use seafile_server_learn.Fs.Store.{FsStore, get_seafdir}
use seafile_server_learn.Fs.Extends.{Extends, Extends-refl, Extends-trans}
use seafile_server_learn.Fs.Lookup.{path_names}
use seafile_server_learn.Fs.Addressed.{IsDigest, IsAddressed}
use seafile_server_learn.RepoOp.Names.{skip_slash}
use seafile_server_learn.RepoOp.Entries.{replace_dents, rename_dents}
use seafile_server_learn.RepoOp.Found.{InsertsOne}
use seafile_server_learn.RepoOp.Edit.{
  Env, save_entries, edit_dir, save_leaf, always, any_deleted, post_dents, do_post_file_replace,
  do_post_file, do_put_file, do_rename_file, do_del_file, post_file_recursive, put_file_recursive,
  rename_file_recursive,
}
use seafile_server_learn.RepoOp.Saved.{save_entries-Saved}
use seafile_server_learn.RepoOp.Refine.{Edits, edit_dir-Edits}
use seafile_server_learn.RepoOp.Operations.{
  put_file_recursive-Edits, post_file_recursive-Edits, del_file_recursive-Edits,
}
use seafile_server_learn.RepoOp.Leaves.{
  saved-Edits, PutNew, NotName, PostNew, AnyName, DelNew, NotNamed, IsReadable,
}

-- For a repository version above 0, a digest without collisions, a store in which every directory
-- stands under its digest and an entry that parse_dirent accepts, do_put_file always ends. If it
-- fails, the store still has that form and every directory that could be read can still be read. If
-- it returns a new root, that holds too, the path leads from the old root and from the new one to a
-- directory, the new one of which has the given entry under its name if the old one had an entry of
-- this name, and none of this name otherwise. Nothing is said of the entries of the folders on the
-- path themselves; every path that turns off the edited one, or goes on below the directory by
-- another name, and led to an entry still leads to this entry.
pub do_put_file-Edits :
    (env : Env) (version : ℕ) (good : IsDigest env.digest) (positive : (version == 0) ≡ false)
    (s : FsStore) (root_id parent_dir : Text) (newdent : SeafDirent)
    → IsReadable newdent
    → IsAddressed env.digest s
    → Edits env version good positive always
        (NotName newdent.name)
        (PutNew newdent)
        s
        root_id
        (path_names (skip_slash parent_dir))
        (do_put_file env version root_id parent_dir newdent s)
unfolding do_put_file
do_put_file-Edits env version good positive s root_id parent_dir newdent readable a =
    put_file_recursive-Edits env version good positive s root_id (skip_slash parent_dir) newdent a

-- For a repository version above 0, a digest without collisions, a sorted insertion that adds one
-- element, a store in which every directory stands under its digest and an entry that parse_dirent
-- accepts, do_post_file always ends. If it fails, the store still has that form and every directory
-- that could be read can still be read. If it returns a new root, that holds too, the path leads
-- from both roots to a directory, the new directory has the given entry under the unique name made
-- for it, under which the old one had no entry. Nothing is said of the entries of the folders on the
-- path themselves; every path that turns off the edited one, or goes on below the directory by any
-- name, and led to an entry still leads to this entry.
pub do_post_file-Edits :
    (env : Env) (version : ℕ) (good : IsDigest env.digest) (positive : (version == 0) ≡ false)
    (one : InsertsOne env.g_list_insert_sorted) (s : FsStore) (root_id parent_dir : Text)
    (newdent : SeafDirent)
    → IsReadable newdent
    → IsAddressed env.digest s
    → Edits env version good positive always AnyName
        (PostNew newdent)
        s
        root_id
        (path_names (skip_slash parent_dir))
        (do_post_file env version root_id parent_dir newdent s)
unfolding do_post_file do_post_file_replace
do_post_file-Edits env version good positive one s root_id parent_dir newdent readable a =
    post_file_recursive-Edits env version good positive one s root_id (skip_slash parent_dir)
      newdent a

pub do_del_file-Edits :
    (env : Env) (version : ℕ) (good : IsDigest env.digest) (positive : (version == 0) ≡ false)
    (s : FsStore) (root_id parent_dir filename : Text)
    → IsAddressed env.digest s
    → Edits env version good positive any_deleted
        (NotNamed env.split_tabs filename)
        (DelNew env.split_tabs filename)
        s
        root_id
        (path_names (skip_slash parent_dir))
        (do_del_file env version root_id parent_dir filename s)
unfolding do_del_file
do_del_file-Edits env version good positive s root_id parent_dir filename a =
    del_file_recursive-Edits env version good positive s root_id (skip_slash parent_dir) filename a

-- One request after the other, each on some root.
pub data Requests (env : Env) (version : ℕ) : FsStore → FsStore → Type 0 where
  none_left : {s : FsStore} → Requests env version s s
  put :
      {s s' : FsStore} (root_id parent_dir : Text) (newdent : SeafDirent)
      → Requests env version (do_put_file env version root_id parent_dir newdent s).1 s'
      → Requests env version s s'
  post :
      {s s' : FsStore} (root_id parent_dir : Text) (replace_existed : Bool) (newdent : SeafDirent)
      → Requests env version
          (do_post_file_replace env version root_id parent_dir replace_existed newdent s).1
          s'
      → Requests env version s s'
  rename_one :
      {s s' : FsStore} (root_id parent_dir oldname newname : Text)
      → Requests env version (do_rename_file env version root_id parent_dir oldname newname s).1 s'
      → Requests env version s s'
  del :
      {s s' : FsStore} (root_id parent_dir filename : Text)
      → Requests env version (do_del_file env version root_id parent_dir filename s).1 s'
      → Requests env version s s'

module _ (env : Env) (version : ℕ) (good : IsDigest env.digest)
    (positive : (version == 0) ≡ false) where
  abbrev pub Anything : List SeafDirent → List SeafDirent → Unit {0} → Type 0
  Anything es es' a = Unit {0}

  abbrev pub Nothing : Text → Type 0
  Nothing m = ⊥

  save_leaf-Edits :
      (new : SeafDir → Option (List SeafDirent)) (dir : SeafDir) (id : Text) (s : FsStore)
      → IsAddressed env.digest s
      → get_seafdir s version id ≡ some dir
      → Edits env version good positive always Nothing Anything s id []
          (save_leaf env version (new dir) s)
  unfolding save_leaf
  save_leaf-Edits new dir id s a read = by_new (new dir)
    where
      by_new :
          (n : Option (List SeafDirent))
          → Edits env version good positive always Nothing Anything s id []
              (save_leaf env version n s)
      by_new none = (a, Extends-refl version s)
      by_new (some es) =
          saved-Edits env version good positive always Nothing Anything s id dir read es tt
            (save_entries env version es s) (save_entries-Saved env version good positive s es a)
            refl tt (λ m d out h. absurd out)

  abbrev pub KeptStore : {A : Type 0} → FsStore → Outcome A × FsStore → Type 0
  KeptStore s r = IsAddressed env.digest r.1 × Extends version s r.1

  Edits-kept :
      {A : Type 0} (changed : A → Bool) (Other : Text → Type 0)
      (New : List SeafDirent → List SeafDirent → A → Type 0) (s : FsStore) (id : Text)
      (names : List Text) (r : Outcome (Text × A) × FsStore)
      → Edits env version good positive changed Other New s id names r
      → KeptStore s r
  Edits-kept changed Other New s id names (ok (id', a), s') (addressed, ext, ch) = (addressed, ext)
  Edits-kept changed Other New s id names (failed, s') h = h
  Edits-kept changed Other New s id names (out_of_fuel, s') h = absurd h

  saving_edit-kept :
      (sets_time : Bool) (new : SeafDir → Option (List SeafDirent)) (names : List Text) (id : Text)
      (s : FsStore)
      → IsAddressed env.digest s
      → KeptStore s (
          edit_dir env version sets_time always (λ dir. save_leaf env version (new dir)) names id s)
  saving_edit-kept sets_time new names id s a = Edits-kept always Nothing Anything s id names _ (
      edit_dir-Edits env version good positive always Nothing Anything sets_time _
        (λ dir id s a read. save_leaf-Edits new dir id s a read) names id s a)

  -- For a repository version above 0 and a digest without collisions: after any sequence of put, post
  -- (with or without replacing), rename and delete requests, failing ones included, each on any root
  -- and path, a store in which every directory stood under its digest still has this form, and every
  -- directory that could be read at the start can still be read, unchanged.
  pub Requests-IsAddressed :
      {s s' : FsStore}
      → Requests env version s s'
      → IsAddressed env.digest s
      → IsAddressed env.digest s' × Extends version s s'
  unfolding do_put_file do_post_file_replace do_rename_file post_file_recursive put_file_recursive
      rename_file_recursive
  Requests-IsAddressed none_left a = (a, Extends-refl version _)
  Requests-IsAddressed (put root parent newdent more) a =
      let (a', ext) =
        saving_edit-kept true (λ dir. some (replace_dents newdent dir.entries))
          (path_names (skip_slash parent)) root _ a in
      let (a'', ext') = Requests-IsAddressed more a' in (a'', Extends-trans ext ext')
  Requests-IsAddressed (post root parent replace newdent more) a =
      let (a', ext) =
        saving_edit-kept true (λ dir. post_dents env version replace newdent dir.entries)
          (path_names (skip_slash parent)) root _ a in
      let (a'', ext') = Requests-IsAddressed more a' in (a'', Extends-trans ext ext')
  Requests-IsAddressed (rename_one root parent old new more) a =
      let (a', ext) =
        saving_edit-kept false
          (λ dir. some (rename_dents env.g_list_insert_sorted old new dir.entries))
          (path_names (skip_slash parent)) root _ a in
      let (a'', ext') = Requests-IsAddressed more a' in (a'', Extends-trans ext ext')
  Requests-IsAddressed (del root parent filename more) a =
      let (a', ext) =
        Edits-kept any_deleted (NotNamed env.split_tabs filename) (DelNew env.split_tabs filename) _
          _ _ _ (do_del_file-Edits env version good positive _ root parent filename a) in
      let (a'', ext') = Requests-IsAddressed more a' in (a'', Extends-trans ext ext')
