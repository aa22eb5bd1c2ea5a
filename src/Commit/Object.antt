-- ===== src/Commit/Object.antt =====
-- common/commit-mgr.h: the fields of a commit that the modelled code reads. A commit is loaded from
-- the object store by its id; the store of one repository is a function.
use seafile_server_learn.Prelude.{ℕ, Bool, Option}
use seafile_server_learn.Prelude.Text.{Text}

pub record SeafCommit : Type 0 where
  pub commit_id : Text
  pub repo_id : Text
  pub root_id : Text
  pub creator_name : Text
  pub desc : Text
  pub ctime : ℕ
  pub parent_id : Option Text
  pub second_parent_id : Option Text
  pub new_merge : Bool
  pub conflict : Bool
  pub version : ℕ

-- `seaf_commit_manager_get_commit` at one repository and version.
abbrev pub CommitStore : Type 0
CommitStore = Text → Option SeafCommit
