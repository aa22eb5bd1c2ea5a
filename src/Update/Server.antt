-- ===== src/Update/Server.antt =====
-- The state that a new commit of one repository changes: the objects, the commits and the row of the
-- head branch in the table Branch (common/commit-mgr.c, common/branch-mgr.c).
use seafile_server_learn.Prelude.{
  ℕ, Bool, false, not, Option, none, some, [], if◌then◌else◌, is_some,
}
use seafile_server_learn.Prelude.Text.{Text, str_eq}
use seafile_server_learn.Prelude.Exec.{ok, failed, Exec}
use seafile_server_learn.Fs.Store.{FsStore}
use seafile_server_learn.Commit.Object.{SeafCommit, CommitStore}

-- `branch` is the commit id in the row of the repository's head branch.
pub record Server : Type 0 where
  pub fs : FsStore
  pub commits : CommitStore
  pub branch : Option Text

-- Which steps of a database transaction succeed. A transaction that is rolled back changes nothing.
pub record Transaction : Type 0 where
  pub begins : Bool
  pub selects : Bool
  pub updates : Bool
  pub commits : Bool

-- `seaf_commit_new` without an id; `commit_id` is the SHA-1 of the root, the author, the description
-- and the time. The caller gives the time.
unfoldable pub seaf_commit_new :
    (Text → Text → Text → ℕ → Text) → Text → Text → Text → Text → ℕ → SeafCommit
seaf_commit_new compute_commit_id repo_id root_id creator_name desc ctime = record {
  commit_id = compute_commit_id root_id creator_name desc ctime;
  repo_id = repo_id;
  root_id = root_id;
  creator_name = creator_name;
  desc = desc;
  ctime = ctime;
  parent_id = none;
  second_parent_id = none;
  new_merge = false;
  conflict = false;
  version = 0;
}

-- A commit is written if there is none under its id.
unfoldable pub add_commit : (Text → Bool) → SeafCommit → Exec Server (Unit {0})
add_commit writable commit s =
    if is_some (s.commits commit.commit_id)
    then (ok tt, s)
    else if writable commit.commit_id
    then (
      ok tt,
      record s { commits = λ id. if str_eq commit.commit_id id then some commit else s.commits id },
    )
    else (failed, s)

-- The selected id, or the empty buffer where there is no row.
abbrev pub selected : Option Text → Text
selected none = []
selected (some id) = id

abbrev pub set_row : Text → Option Text → Option Text
set_row id none = none
set_row id (some old) = some id

unfoldable pub test_and_update_branch : Transaction → Text → Text → Exec Server (Unit {0})
test_and_update_branch trans commit_id old_commit_id s =
    if not trans.begins
    then (failed, s)
    else if not trans.selects
    then (failed, s)
    else if not (str_eq old_commit_id (selected s.branch))
    then (failed, s)
    else if not trans.updates
    then (failed, s)
    else if not trans.commits
    then (failed, s)
    else (ok tt, record s { branch = set_row commit_id s.branch })
