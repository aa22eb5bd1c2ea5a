-- ===== src/Update/Fresh.antt =====
-- server/repo-op.c: the ids of the commits that a call of gen_new_commit writes. An id is made of the
-- root, the user, the description and the second, so two calls can make the same one.
use seafile_server_learn.Prelude.{ℕ, zero, suc, ◌+◌, ◌≡◌, ◌≢◌, false, Option, none, some, []}
use seafile_server_learn.Prelude.Text.{Text, str_eq}
use seafile_server_learn.Prelude.Exec.{Outcome, ok, failed, out_of_fuel}
use seafile_server_learn.Commit.Object.{SeafCommit}
use seafile_server_learn.Update.Server.{Server, add_commit, test_and_update_branch}
use seafile_server_learn.Update.NewCommit.{Repo, Env, make_commit, next_head}

-- No commit stands under the id of this one, which is not empty.
abbrev pub Free : SeafCommit → Server → Type 0
Free c s = (c.commit_id ≢ []) × (s.commits c.commit_id ≡ none)

-- A property of the state after a refusal.
abbrev pub IfRefused : (Server → Type 0) → Outcome (Unit {0}) × Server → Type 0
IfRefused again (ok u, s) = Unit {0}
IfRefused again (failed, s) = again s
IfRefused again (out_of_fuel, s) = Unit {0}

module _ (env : Env) (user : Text) where
  module _ (base new_commit : SeafCommit) where
    -- The merge of an attempt that started in `s`, and the attempts after it.
    abbrev pub FreshNext :
        (Server → Type 0) → ℕ → SeafCommit → Server → Outcome SeafCommit × Server → Type 0
    FreshNext again n head s (ok merged, s') =
        (str_eq base.commit_id head.commit_id ≡ false → Free merged s)
        × IfRefused again (
            test_and_update_branch (env.transaction n) merged.commit_id head.commit_id
              (env.meanwhile n s'))
    FreshNext again n head s (failed, s') = Unit {0}
    FreshNext again n head s (out_of_fuel, s') = Unit {0}

    abbrev pub FreshOn : (Server → Type 0) → ℕ → Repo → Server → Option SeafCommit → Type 0
    FreshOn again n repo s none = Unit {0}
    FreshOn again n repo s (some head) =
        FreshNext again n head s (next_head env n repo base head new_commit user s)

    abbrev pub FreshIn : (Repo → Server → Type 0) → Server → Option Repo → Type 0
    FreshIn next s none = Unit {0}
    FreshIn next s (some repo) = next repo s

    abbrev pub FreshAttempt : (Server → Type 0) → ℕ → Repo → Server → Type 0
    FreshAttempt again n repo s = FreshOn again n repo s (s.commits repo.head_id)

    unfoldable pub FreshRetry : (left n : ℕ) → Server → Type 0
    FreshRetry zero n s = Unit {0}
    FreshRetry (suc left) n s =
        FreshIn (FreshAttempt (FreshRetry left (n + 1)) (n + 1)) (env.pause n s)
          (env.get_repo (n + 1) (env.pause n s))

    abbrev pub FreshWritten : Repo → Outcome (Unit {0}) × Server → Type 0
    FreshWritten repo (ok u, s) = FreshAttempt (FreshRetry 3 1) 1 repo s
    FreshWritten repo (failed, s) = Unit {0}
    FreshWritten repo (out_of_fuel, s) = Unit {0}

  abbrev pub FreshBy : SeafCommit → Text → Text → Server → Option Repo → Type 0
  FreshBy base new_root desc s none = Unit {0}
  FreshBy base new_root desc s (some repo) =
      Free (make_commit env repo base new_root user desc) s
      × FreshWritten base (make_commit env repo base new_root user desc) repo
          (add_commit env.writable (make_commit env repo base new_root user desc) s)

  -- Whenever this call writes a commit, none stands under its id.
  unfoldable pub FreshRun : SeafCommit → Text → Text → Server → Type 0
  FreshRun base new_root desc s = FreshBy base new_root desc s (env.get_repo 1 s)
