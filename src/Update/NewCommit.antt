-- ===== src/Update/NewCommit.antt =====
-- server/repo-op.c: gen_new_commit. What others do to the server is `meanwhile`, before the branch is
-- updated, and `pause`, while the call sleeps before it tries again.
use seafile_server_learn.Prelude.{
  ℕ, zero, suc, ◌+◌, Bool, true, false, Option, none, some, [], if◌then◌else◌,
}
use seafile_server_learn.Prelude.Text.{Text, codes, str_eq}
use seafile_server_learn.Prelude.Exec.{Outcome, ok, failed, out_of_fuel, Exec, resume}
use seafile_server_learn.Commit.Object.{SeafCommit}
use seafile_server_learn.Merge.Options.{MergeOptions, State}
use seafile_server_learn.Merge.Options
use seafile_server_learn.Merge.Trees.{seaf_merge_trees}
use seafile_server_learn.Update.Server.{
  Server, Transaction, seaf_commit_new, add_commit, test_and_update_branch,
}

-- A repository as `seaf_repo_manager_get_repo` returns it, with the head it read.
pub record Repo : Type 0 where
  pub id : Text
  pub version : ℕ
  pub head_id : Text

-- Numbers count the attempts from 1; 0 is what comes before: the reading of the repository that a
-- request starts with, and the time of the new commit.
pub record Env : Type 0 where
  pub get_repo : ℕ → Server → Option Repo
  pub compute_commit_id : Text → Text → Text → ℕ → Text
  pub time_at : ℕ → ℕ
  pub writable : Text → Bool
  pub merge_env : Options.Env (Unit {0})
  pub merge_fuel : ℕ
  pub gen_merge_description : Repo → Text → Text → Text → Server → Option Text
  pub transaction : ℕ → Transaction
  pub meanwhile : ℕ → Server → Server
  pub pause : ℕ → Server → Server

module _ (env : Env) where
  -- The commit of the new root on top of the base.
  unfoldable pub make_commit : Repo → SeafCommit → Text → Text → Text → SeafCommit
  unfolding seaf_commit_new
  make_commit repo base new_root user desc =
      record (seaf_commit_new env.compute_commit_id repo.id new_root user desc (env.time_at 0)) {
        parent_id = some base.commit_id;
        version = repo.version;
      }

  -- The merge of the head and the new commit; no more than `make_merged` reads of the options.
  unfoldable pub make_merged :
      ℕ → Repo → SeafCommit → SeafCommit → Text → Text → MergeOptions → SeafCommit
  unfolding seaf_commit_new
  make_merged n repo head new_commit user desc opt =
      record (seaf_commit_new env.compute_commit_id repo.id opt.merged_tree_root user desc
        (env.time_at n)) {
          parent_id = some head.commit_id;
          second_parent_id = some new_commit.commit_id;
          new_merge = true;
          conflict = opt.conflict;
          version = repo.version;
        }

  abbrev pub auto_merge : Text
  auto_merge = codes "Auto merge by system"

  unfoldable pub merge_desc : Repo → SeafCommit → SeafCommit → MergeOptions → Server → Text
  merge_desc repo head new_commit opt s =
      if opt.conflict
      then elim (env.gen_merge_description repo opt.merged_tree_root head.root_id new_commit.root_id
          s) [ none ↦ auto_merge | some desc ↦ desc ]
      else auto_merge

  abbrev pub merge_options : Repo → SeafCommit → MergeOptions
  merge_options repo new_commit = record {
    n_ways = 3;
    remote_repo_id = repo.id;
    remote_head = new_commit.commit_id;
    do_merge = true;
    merged_tree_root = [];
    visit_dirs = 0;
    conflict = false;
  }

  -- After the merge of the trees: its commit is written.
  unfoldable pub commit_merged :
      ℕ
      → Repo
      → SeafCommit
      → SeafCommit
      → Text
      → Unit {0}
      → State (Unit {0})
      → Server
      → Outcome SeafCommit × Server
  unfolding make_merged merge_desc add_commit
  commit_merged n repo head new_commit user u st s =
      let s' = record s { fs = st.fs } in
      let merged =
        make_merged n repo head new_commit user (merge_desc repo head new_commit st.opt s')
          st.opt in
      let r = add_commit env.writable merged s' in resume (λ _ s. (ok merged, s)) r.0 r.1

  unfoldable pub merge_heads :
      ℕ → Repo → SeafCommit → SeafCommit → SeafCommit → Text → Exec Server SeafCommit
  unfolding seaf_merge_trees commit_merged
  merge_heads n repo base head new_commit user s =
      let start : State (Unit {0}) = record {
        fs = s.fs;
        opt = merge_options repo new_commit;
        user = tt;
      } in
      let tools = record env.merge_env { commits = λ repo_id id. s.commits id } in
      let m =
        seaf_merge_trees tools repo.version 3 env.merge_fuel base.root_id head.root_id
          new_commit.root_id start in
      elim m.0 [
        | ok u ↦ commit_merged n repo head new_commit user u m.1 s
        | failed ↦ (failed, record s { fs = m.1.fs })
        | out_of_fuel ↦ (out_of_fuel, record s { fs = m.1.fs })
      ]

  -- "Merge if base and head are not the same."
  unfoldable pub next_head :
      ℕ → Repo → SeafCommit → SeafCommit → SeafCommit → Text → Exec Server SeafCommit
  unfolding merge_heads
  next_head n repo base head new_commit user s =
      if str_eq base.commit_id head.commit_id
      then (ok new_commit, s)
      else merge_heads n repo base head new_commit user s

  module _ (base new_commit : SeafCommit) (user : Text) where
    -- The branch is updated, or else the next attempt follows.
    unfoldable pub update_head : (Exec Server Text) → ℕ → SeafCommit → SeafCommit → Exec Server Text
    unfolding test_and_update_branch
    update_head again n head merged s =
        let u =
          test_and_update_branch (env.transaction n) merged.commit_id head.commit_id
            (env.meanwhile n s) in
        elim u.0 [
          | ok a ↦ (ok merged.commit_id, u.1)
          | failed ↦ again u.1
          | out_of_fuel ↦ (out_of_fuel, u.1)
        ]

    -- The label `retry`.
    unfoldable pub attempt : (Exec Server Text) → ℕ → Repo → Exec Server Text
    unfolding next_head update_head
    attempt again n repo s = elim (s.commits repo.head_id) [
      | none ↦ (failed, s)
      | some head ↦
          let r = next_head n repo base head new_commit user s in
          resume (update_head again n head) r.0 r.1
    ]

    -- What follows a refused update, with so many retries left.
    unfoldable pub retry : ℕ → ℕ → Exec Server Text
    unfolding attempt
    retry zero n s = (failed, s)
    retry (suc left) n s =
        let s' = env.pause n s in
        elim (env.get_repo (n + 1) s') [
          | none ↦ (failed, s')
          | some repo ↦ attempt (retry left (n + 1)) (n + 1) repo s'
        ]

  unfoldable pub gen_new_commit : SeafCommit → Text → Text → Text → Exec Server Text
  unfolding make_commit add_commit attempt retry
  gen_new_commit base new_root user desc s = elim (env.get_repo 1 s) [
    | none ↦ (failed, s)
    | some repo ↦
        let new_commit = make_commit repo base new_root user desc in
        let r = add_commit env.writable new_commit s in
        resume (λ _. attempt base new_commit user (retry base new_commit user 3 1) 1 repo) r.0 r.1
  ]
