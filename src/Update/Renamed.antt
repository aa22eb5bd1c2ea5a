-- ===== src/Update/Renamed.antt =====
-- server/repo-op.c: what a request to rename has done when it returns 0.
use seafile_server_learn.Prelude.{Option, ℕ, ◌==◌, ◌≡◌, false, none, some}
use seafile_server_learn.Prelude.Text.{Text}
use seafile_server_learn.Prelude.Exec.{Outcome, ok, failed, out_of_fuel}
use seafile_server_learn.Fs.Store.{FsStore}
use seafile_server_learn.Fs.Lookup.{path_names}
use seafile_server_learn.Fs.Addressed.{IsDigest}
use seafile_server_learn.Commit.Object.{SeafCommit}
use seafile_server_learn.RepoOp.Names.{get_canonical_path, skip_slash}
use seafile_server_learn.RepoOp.Found.{InsertsOne}
use seafile_server_learn.RepoOp.Edit.{always, do_rename_file}
use seafile_server_learn.RepoOp.Refine.{Changed}
use seafile_server_learn.RepoOp.Leaves.{RenameNew, Neither}
use seafile_server_learn.Update.Server.{Server}
use seafile_server_learn.Update.NewCommit.{Repo}
use seafile_server_learn.Update.Fresh.{FreshRun}
use seafile_server_learn.Update.Sound.{Sound, Others}
use seafile_server_learn.Update.Requests.{Site, check_file_exists, renamed_desc, should_ignore_file}
use seafile_server_learn.Update.Committed.{Committed}

module _ (site : Site) (user : Text) (others : Others site.update user)
    (good : IsDigest site.edit.digest) (one : InsertsOne site.edit.g_list_insert_sorted)
    (positive : (n : ℕ) (s : Server) (repo : Repo)
      → site.update.get_repo n s ≡ some repo
      → (repo.version == 0) ≡ false) where
  -- The head that was read, which has the old name at the path and not the new one, the tree that was
  -- written on top of it, and the commit of this tree.
  pub record Renaming (parent_dir oldname newname : Text) (s s' : Server) : Type 0 where
    pub repo : Repo
    pub base : SeafCommit
    pub read : site.update.get_repo 0 s ≡ some repo
    pub loaded : s.commits repo.head_id ≡ some base
    pub mode : ℕ
    pub old_there :
        check_file_exists s.fs repo.version base.root_id (get_canonical_path parent_dir) oldname
        ≡ some mode
    pub new_free :
        check_file_exists s.fs repo.version base.root_id (get_canonical_path parent_dir) newname
        ≡ none
    pub root_id : Text
    pub fs : FsStore
    pub tree :
        Changed site.edit repo.version good
          (positive 0 s repo read)
          always
          (Neither oldname newname)
          (RenameNew oldname newname)
          s.fs
          fs
          base.root_id
          root_id
          (path_names (skip_slash (get_canonical_path parent_dir)))
          tt
    pub commit : Committed site user others base root_id (renamed_desc mode oldname) s'

  abbrev pub Renames : Text → Text → Text → Server → Outcome (Unit {0}) × Server → Type 0
  Renames parent_dir oldname newname s (ok u, s') = Renaming parent_dir oldname newname s s'
  Renames parent_dir oldname newname s (failed, s') = Unit {0}
  Renames parent_dir oldname newname s (out_of_fuel, s') = Unit {0}

  -- Where the request commits a tree, none of the commits that it writes has the id of another.
  abbrev pub FreshRenaming :
      SeafCommit → ℕ → Text → Server → Outcome (Text × Unit {0}) × FsStore → Type 0
  FreshRenaming base mode oldname s (ok (root_id, u), fs) =
      FreshRun site.update user base root_id (renamed_desc mode oldname)
        (site.update.meanwhile 0 (record s { fs = fs }))
  FreshRenaming base mode oldname s (failed, fs) = Unit {0}
  FreshRenaming base mode oldname s (out_of_fuel, fs) = Unit {0}

  abbrev pub FreshRenamingOn : Repo → Text → Text → Text → Server → Option SeafCommit → Type 0
  FreshRenamingOn repo parent_dir oldname newname s none = Unit {0}
  FreshRenamingOn repo parent_dir oldname newname s (some base) =
      let path = get_canonical_path parent_dir in
      (mode : ℕ)
      → should_ignore_file site newname ≡ false
      → check_file_exists s.fs repo.version base.root_id path oldname ≡ some mode
      → check_file_exists s.fs repo.version base.root_id path newname ≡ none
      → FreshRenaming base mode oldname s
          (do_rename_file site.edit repo.version base.root_id path oldname newname s.fs)

  abbrev pub FreshRename : Text → Text → Text → Server → Option Repo → Type 0
  FreshRename parent_dir oldname newname s none = Unit {0}
  FreshRename parent_dir oldname newname s (some repo) =
      FreshRenamingOn repo parent_dir oldname newname s (s.commits repo.head_id)
