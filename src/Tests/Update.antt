-- ===== src/Tests/Update.antt =====
-- New commits of a repository with two commits, while another request moves the branch and while none does.
use seafile_server_learn.Prelude.{
  ℕ, ◌+◌, ◌==◌, ◌≡◌, refl, true, false, Option, none, some, [], ◌∷◌, ◌++◌, if◌then◌else◌,
}
use seafile_server_learn.Prelude.Text.{Text, codes, strcmp, str_eq}
use seafile_server_learn.Prelude.Int.{pos}
use seafile_server_learn.Prelude.Exec.{ok}
use seafile_server_learn.Commit.Object.{SeafCommit}
use seafile_server_learn.Merge.Options
use seafile_server_learn.Tests.RepoOp.{enc_digest, store, root, root_list}
use seafile_server_learn.Tests.RepoOp
use seafile_server_learn.Update.Server.{Server, seaf_commit_new}
use seafile_server_learn.Update.NewCommit.{Repo, Env, make_commit, gen_new_commit}
use seafile_server_learn.Update.Sound.{Sound}
use seafile_server_learn.Update.Refused.{
  BranchKept, Undisturbed, gen_new_commit-BranchKept, gen_new_commit-undisturbed,
}
use seafile_server_learn.Update.Requests.{Site}

abbrev commit : Text → SeafCommit
commit id = record {
  commit_id = id;
  repo_id = codes "r";
  root_id = root;
  creator_name = codes "ann";
  desc = [];
  ctime = 7;
  parent_id = none;
  second_parent_id = none;
  new_merge = false;
  conflict = false;
  version = 1;
}

abbrev merge_env : Options.Env (Unit {0})
merge_env = record {
  commits = λ repo id. none;
  modifier_mtime = λ repo head path. none;
  time_now = λ path. pos 7;
  strftime = λ t. codes "now";
  digest = enc_digest;
  g_list_sort = λ cmp ds. ds;
  callback = λ basedir files s. (ok tt, s);
}

-- An id that starts with the time.
abbrev new_id : Text → Text → Text → ℕ → Text
new_id root user desc time = (200 + time) ∷ (root ++ (user ++ desc))

abbrev repo_of : Option Text → Option Repo
repo_of none = none
repo_of (some id) = some (record { id = codes "r"; version = 1; head_id = id })

abbrev with_others : (ℕ → Server → Server) → Env
with_others meanwhile = record {
  get_repo = λ n s. repo_of s.branch;
  compute_commit_id = new_id;
  time_at = λ n. 7;
  writable = λ id. true;
  merge_env = merge_env;
  merge_fuel = 5;
  gen_merge_description = λ repo merged p1 p2 s. none;
  transaction = λ n. record { begins = true; selects = true; updates = true; commits = true };
  meanwhile = meanwhile;
  pause = λ n s. s;
}

abbrev quiet : Env
quiet = with_others λ n s. s

-- Before the first update, another request makes c1 the head.
abbrev busy : Env
busy = with_others λ n s. if n == 1 then record s { branch = some (codes "c1") } else s

abbrev start : Server
start = record {
  fs = store;
  commits = λ id.
      if str_eq (codes "c0") id
      then some (commit (codes "c0"))
      else if str_eq (codes "c1") id
      then some (commit (codes "c1"))
      else none;
  branch = some (codes "c0");
}

quiet-Undisturbed : Undisturbed quiet (codes "u")
quiet-Undisturbed = record { meanwhile_branch = λ n s. refl; pause_branch = λ n s. refl }

gen_new_commit-BranchKept_example : BranchKept (some (codes "c0")) (
    gen_new_commit quiet (commit (codes "c1")) (codes "no such root") (codes "u") (codes "d") start)
gen_new_commit-BranchKept_example =
    gen_new_commit-BranchKept quiet (codes "u") quiet-Undisturbed (commit (codes "c1"))
      (codes "no such root") (codes "d") start

abbrev repo : Repo
repo = record { id = codes "r"; version = 1; head_id = codes "c0" }

gen_new_commit-undisturbed_example :
    ((gen_new_commit quiet (commit (codes "c0")) root (codes "u") (codes "d") start).0
      ≡ ok (new_id root (codes "u") (codes "d") 7))
    × ((gen_new_commit quiet (commit (codes "c0")) root (codes "u") (codes "d") start).1.branch
        ≡ some (new_id root (codes "u") (codes "d") 7))
unfolding make_commit seaf_commit_new str_eq strcmp
gen_new_commit-undisturbed_example =
    gen_new_commit-undisturbed quiet (codes "u") quiet-Undisturbed (commit (codes "c0")) root
      (codes "d") start repo refl refl refl refl
      (record { begins = refl; selects = refl; updates = refl; commits = refl }) refl refl

abbrev site : Site
site = record {
  update = busy;
  edit = RepoOp.env;
  utf8_validate = λ t. true;
  merge_virtual_repo = λ s. s;
}
