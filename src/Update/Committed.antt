-- ===== src/Update/Committed.antt =====
-- server/repo-op.c: what a request to delete or rename has done when it returns 0.
use seafile_server_learn.Prelude.{Option, none, ℕ, ◌==◌, ◌≡◌, ◌≢◌, refl, false, some, List, ◌⊎◌}
use seafile_server_learn.Prelude.Text.{Text}
use seafile_server_learn.Prelude.Exec.{Outcome, ok, failed, out_of_fuel, resume}
use seafile_server_learn.Fs.Store.{FsStore}
use seafile_server_learn.Fs.Lookup.{path_names}
use seafile_server_learn.Fs.Addressed.{IsDigest}
use seafile_server_learn.Commit.Object.{SeafCommit}
use seafile_server_learn.RepoOp.Names.{get_canonical_path, skip_slash}
use seafile_server_learn.RepoOp.Entries.{Deleted}
use seafile_server_learn.RepoOp.Edit.{any_deleted, do_del_file}
use seafile_server_learn.RepoOp.Refine.{Changed}
use seafile_server_learn.RepoOp.Leaves.{DelNew, NotNamed}
use seafile_server_learn.Update.Server.{Server}
use seafile_server_learn.Update.NewCommit.{Repo, make_commit, gen_new_commit}
use seafile_server_learn.Update.Fresh.{FreshRun}
use seafile_server_learn.Update.Sound.{Sound, Others, Moved}
use seafile_server_learn.Update.Kept.{KeepsBoth, gen_new_commit-KeepsBoth}
use seafile_server_learn.Update.Requests.{Site, deleted_desc, commit_root}

module _ (site : Site) (user : Text) (others : Others site.update user) where
  -- A commit of this root on top of the base was made, and is the new head or merged into it.
  pub record Committed (base : SeafCommit) (root_id desc : Text) (s' : Server) : Type 0 where
    pub repo : Repo
    pub id : Text
    pub after : Server
    pub moved :
        Moved site.update user base (make_commit site.update repo base root_id user desc) id after
    pub ends : s' ≡ site.merge_virtual_repo after

  abbrev pub Commits : SeafCommit → Text → Text → Outcome (Unit {0}) × Server → Type 0
  Commits base root_id desc (ok u, s') = Committed base root_id desc s'
  Commits base root_id desc (failed, s') = Unit {0}
  Commits base root_id desc (out_of_fuel, s') = Unit {0}

  pub commit_root-Commits :
      (base : SeafCommit) (root_id desc : Text) (s : Server)
      → FreshRun site.update user base root_id desc (site.update.meanwhile 0 s)
      → Sound site.update user s
      → Commits base root_id desc (commit_root site base root_id user desc s)
  unfolding commit_root
  commit_root-Commits base root_id desc s fresh sound =
      let s1 = site.update.meanwhile 0 s in
      by_outcome (gen_new_commit site.update base root_id user desc s1) (
        gen_new_commit-KeepsBoth site.update user others base root_id desc s1 fresh
          (others.meanwhile_sound 0 s sound))
    where
      by_outcome :
          (r : Outcome Text × Server)
          → KeepsBoth site.update user others base root_id desc (site.update.meanwhile 0 s) r
          → Commits base root_id desc (resume (λ id s. (ok tt, site.merge_virtual_repo s)) r.0 r.1)
      by_outcome (ok id, s2) (repo, read, moved) = record {
        repo = repo;
        id = id;
        after = s2;
        moved = moved;
        ends = refl;
      }
      by_outcome (failed, s2) h = tt
      by_outcome (out_of_fuel, s2) h = tt

  pub same_commits :
      (s : Server) (fs : FsStore)
      → Sound site.update user s
      → Sound site.update user (record s { fs = fs })
  same_commits s fs sound = record { no_empty = sound.no_empty; own_id = sound.own_id }

  module _ (good : IsDigest site.edit.digest)
      (positive : (n : ℕ) (s : Server) (repo : Repo)
        → site.update.get_repo n s ≡ some repo
        → (repo.version == 0) ≡ false) where
    -- The head that was read, the tree that was written on top of it, and the commit of this tree; a
    -- deletion of nothing makes none.
    pub record Deletion (parent_dir file_name : Text) (s s' : Server) : Type 0 where
      pub repo : Repo
      pub base : SeafCommit
      pub read : site.update.get_repo 0 s ≡ some repo
      pub loaded : s.commits repo.head_id ≡ some base
      pub root_id : Text
      pub del : Deleted
      pub fs : FsStore
      pub tree :
          Changed site.edit repo.version good
            (positive 0 s repo read)
            any_deleted
            (NotNamed site.edit.split_tabs file_name)
            (DelNew site.edit.split_tabs file_name)
            s.fs
            fs
            base.root_id
            root_id
            (path_names (skip_slash (get_canonical_path parent_dir)))
            del
      pub commit :
          ((del.deleted_num ≡ 0) × (s' ≡ record s { fs = fs }))
          ⊎ ((del.deleted_num ≢ 0) × Committed base root_id (deleted_desc del) s')

    abbrev pub Deletes : Text → Text → Server → Outcome (Unit {0}) × Server → Type 0
    Deletes parent_dir file_name s (ok u, s') = Deletion parent_dir file_name s s'
    Deletes parent_dir file_name s (failed, s') = Unit {0}
    Deletes parent_dir file_name s (out_of_fuel, s') = Unit {0}

    -- Where the request commits a tree, none of the commits that it writes has the id of another.
    abbrev pub FreshDeletion : SeafCommit → Server → Outcome (Text × Deleted) × FsStore → Type 0
    FreshDeletion base s (ok (root_id, del), fs) =
        del.deleted_num ≢ 0
        → FreshRun site.update user base root_id (deleted_desc del)
            (site.update.meanwhile 0 (record s { fs = fs }))
    FreshDeletion base s (failed, fs) = Unit {0}
    FreshDeletion base s (out_of_fuel, fs) = Unit {0}

    abbrev pub FreshDeletionOn : Repo → Text → Text → Server → Option SeafCommit → Type 0
    FreshDeletionOn repo parent_dir file_name s none = Unit {0}
    FreshDeletionOn repo parent_dir file_name s (some base) = FreshDeletion base s (
        do_del_file site.edit repo.version base.root_id (get_canonical_path parent_dir) file_name
          s.fs)

    abbrev pub FreshDelete : Text → Text → Server → Option Repo → Type 0
    FreshDelete parent_dir file_name s none = Unit {0}
    FreshDelete parent_dir file_name s (some repo) =
        FreshDeletionOn repo parent_dir file_name s (s.commits repo.head_id)

    module _ (parent_dir file_name : Text) (s : Server) (sound : Sound site.update user s)
        (repo : Repo) (base : SeafCommit) (read : site.update.get_repo 0 s ≡ some repo)
        (loaded : s.commits repo.head_id ≡ some base) where
      abbrev names_of : List Text
      names_of = path_names (skip_slash (get_canonical_path parent_dir))
