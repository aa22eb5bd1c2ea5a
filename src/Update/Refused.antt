-- ===== src/Update/Refused.antt =====
-- server/repo-op.c: a call of gen_new_commit that fails, and one that nobody disturbs.
use mathlib.Core.Path.{subst}
use seafile_server_learn.Prelude.{
  ℕ, zero, suc, ◌+◌, ◌≡◌, refl, sym, ap, ◌∙◌, Bool, true, Option, none, some, is_some, Option-cases,
  Bool-cases, inl, inr,
}
use seafile_server_learn.Prelude.Text.{Text, str_eq, str_eq_refl}
use seafile_server_learn.Prelude.Exec.{Outcome, ok, failed, out_of_fuel, Exec, resume}
use seafile_server_learn.Commit.Object.{SeafCommit}
use seafile_server_learn.Merge.Options.{State}
use seafile_server_learn.Merge.Trees.{seaf_merge_trees}
use seafile_server_learn.Update.Server.{
  Server, Transaction, add_commit, selected, set_row, test_and_update_branch,
}
use seafile_server_learn.Update.NewCommit.{
  Repo, Env, make_commit, make_merged, merge_desc, merge_options, commit_merged, merge_heads,
  next_head, update_head, attempt, retry, gen_new_commit,
}
use seafile_server_learn.Update.Steps.{Compared, test_and_update_branch-Compared, added, added_ne}

-- The row of the branch after a call, if it did not return 0.
abbrev pub BranchKept : {A : Type 0} → Option Text → Outcome A × Server → Type 0
BranchKept b (ok a, s) = Unit {0}
BranchKept b (failed, s) = s.branch ≡ b
BranchKept b (out_of_fuel, s) = s.branch ≡ b

-- The row after a step that does not touch it.
abbrev pub Untouched : {A : Type 0} → Option Text → Outcome A × Server → Type 0
Untouched b r = r.1.branch ≡ b

add_commit-branch :
    (writable : Text → Bool) (c : SeafCommit) (s : Server)
    → (add_commit writable c s).1.branch ≡ s.branch
unfolding add_commit
add_commit-branch writable c s = elim (Bool-cases (is_some (s.commits c.commit_id))) [
  | inl there ↦ rw (there, add_commit) refl
  | inr absent ↦ elim (Bool-cases (writable c.commit_id)) [
    | inl accepted ↦ rw (absent, accepted, add_commit) refl
    | inr refused ↦ rw (absent, refused, add_commit) refl
  ]
]

resume_same :
    {A B : Type 0} (b : Option Text) (a : B) (r : Outcome A × Server)
    → Untouched b r
    → Untouched {A = B} b (resume (λ _ s. (ok a, s)) r.0 r.1)
resume_same b a (ok x, s) h = h
resume_same b a (failed, s) h = h
resume_same b a (out_of_fuel, s) h = h

module _ (env : Env) (user : Text) where
  -- Nobody else changes the branch during the call.
  pub record Undisturbed : Type 0 where
    pub meanwhile_branch : (n : ℕ) (s : Server) → (env.meanwhile n s).branch ≡ s.branch
    pub pause_branch : (n : ℕ) (s : Server) → (env.pause n s).branch ≡ s.branch

  module _ (alone : Undisturbed) (base new_commit : SeafCommit) (b : Option Text) where
    next_head-Untouched :
        (n : ℕ) (repo : Repo) (head : SeafCommit) (s : Server)
        → s.branch ≡ b
        → Untouched b (next_head env n repo base head new_commit user s)
    unfolding next_head merge_heads commit_merged
    next_head-Untouched n repo head s h = elim (Bool-cases (str_eq base.commit_id head.commit_id)) [
      | inl same ↦ rw (same, next_head) h
      | inr other ↦
          rw (other, next_head)
            (by_merge (
              seaf_merge_trees (record env.merge_env { commits = λ repo_id id. s.commits id })
                repo.version 3 env.merge_fuel base.root_id head.root_id new_commit.root_id
                (record { fs = s.fs; opt = merge_options env repo new_commit; user = tt })))
    ]
      where
        by_merge :
            (m : Outcome (Unit {0}) × State (Unit {0}))
            → Untouched {A = SeafCommit} b (elim m.0 [
              | ok u ↦ commit_merged env n repo head new_commit user u m.1 s
              | failed ↦ (failed, record s { fs = m.1.fs })
              | out_of_fuel ↦ (out_of_fuel, record s { fs = m.1.fs })
            ])
        by_merge (ok u, st) =
            let s' : Server = record s { fs = st.fs } in
            let merged =
              make_merged env n repo head new_commit user
                (merge_desc env repo head new_commit st.opt s') st.opt in
            resume_same b merged (add_commit env.writable merged s')
              (add_commit-branch env.writable merged s' ∙ h)
        by_merge (failed, st) = h
        by_merge (out_of_fuel, st) = h

    update_head-BranchKept :
        (again : Exec Server Text) (n : ℕ) (head merged : SeafCommit) (s : Server)
        → ((s : Server) → s.branch ≡ b → BranchKept b (again s))
        → s.branch ≡ b
        → BranchKept b (update_head env base new_commit user again n head merged s)
    unfolding update_head
    update_head-BranchKept again n head merged s recur h =
        by_outcome
          (test_and_update_branch (env.transaction n) merged.commit_id head.commit_id
            (env.meanwhile n s))
          (test_and_update_branch-Compared (env.transaction n) merged.commit_id head.commit_id
            (env.meanwhile n s))
      where
        by_outcome :
            (u : Outcome (Unit {0}) × Server)
            → Compared merged.commit_id head.commit_id (env.meanwhile n s) u
            → BranchKept {A = Text} b (elim u.0 [
              | ok a ↦ (ok merged.commit_id, u.1)
              | failed ↦ again u.1
              | out_of_fuel ↦ (out_of_fuel, u.1)
            ])
        by_outcome (ok a, s') e = tt
        by_outcome (failed, s') same =
            recur s' (ap (λ s. s.branch) same ∙ alone.meanwhile_branch n s ∙ h)
        by_outcome (out_of_fuel, s') e = absurd e

    after_next :
        (again : Exec Server Text) (n : ℕ) (head : SeafCommit) (r : Outcome SeafCommit × Server)
        → ((s : Server) → s.branch ≡ b → BranchKept b (again s))
        → Untouched b r
        → BranchKept b (resume (update_head env base new_commit user again n head) r.0 r.1)
    after_next again n head (ok merged, s) recur h =
        update_head-BranchKept again n head merged s recur h
    after_next again n head (failed, s) recur h = h
    after_next again n head (out_of_fuel, s) recur h = h

    attempt-BranchKept :
        (again : Exec Server Text) (n : ℕ) (repo : Repo) (s : Server)
        → ((s : Server) → s.branch ≡ b → BranchKept b (again s))
        → s.branch ≡ b
        → BranchKept b (attempt env base new_commit user again n repo s)
    unfolding attempt
    attempt-BranchKept again n repo s recur h = elim (Option-cases (s.commits repo.head_id)) [
      | inl missing ↦ rw (missing, attempt) h
      | inr (head, found) ↦
          let done =
            after_next again n head (next_head env n repo base head new_commit user s) recur
              (next_head-Untouched n repo head s h) in
          rw (found, attempt) done
    ]

    retry-BranchKept :
        (left n : ℕ) (s : Server)
        → s.branch ≡ b
        → BranchKept b (retry env base new_commit user left n s)
    unfolding retry
    retry-BranchKept zero n s h = h
    retry-BranchKept (suc left) n s h =
        let s' = env.pause n s in
        let h' = alone.pause_branch n s ∙ h in
        elim (Option-cases (env.get_repo (n + 1) s')) [
          | inl missing ↦ rw (missing, retry) h'
          | inr (repo, found) ↦
              let done =
                attempt-BranchKept (retry env base new_commit user left (n + 1)) (n + 1) repo s'
                  (retry-BranchKept left (n + 1)) h' in
              rw (found, retry) done
        ]

  -- If nobody else changes the branch during the call and gen_new_commit does not return 0, at whatever
  -- point it failed, then the branch names the same commit as before.
  pub gen_new_commit-BranchKept :
      Undisturbed
      → (base : SeafCommit) (new_root desc : Text) (s : Server)
      → BranchKept s.branch (gen_new_commit env base new_root user desc s)
  unfolding gen_new_commit
  gen_new_commit-BranchKept alone base new_root desc s = elim (Option-cases (env.get_repo 1 s)) [
    | inl missing ↦ rw (missing, gen_new_commit) refl
    | inr (repo, found) ↦
        let c = make_commit env repo base new_root user desc in
        let done =
          written repo c (add_commit env.writable c s) (add_commit-branch env.writable c s) in
        rw (found, gen_new_commit) done
  ]
    where
      written :
          (repo : Repo) (c : SeafCommit) (r : Outcome (Unit {0}) × Server)
          → Untouched s.branch r
          → BranchKept {A = Text} s.branch
              (resume (λ _. attempt env base c user (retry env base c user 3 1) 1 repo) r.0 r.1)
      written repo c (ok u, s') h =
          attempt-BranchKept alone base c s.branch (retry env base c user 3 1) 1 repo s'
            (retry-BranchKept alone base c s.branch 3 1) h
      written repo c (failed, s') h = h
      written repo c (out_of_fuel, s') h = h

  -- Every step of the transaction succeeds.
  pub record Succeeds (trans : Transaction) : Type 0 where
    pub begins : trans.begins ≡ true
    pub selects : trans.selects ≡ true
    pub updates : trans.updates ≡ true
    pub commits : trans.commits ≡ true

  update_ok :
      (trans : Transaction) (new old : Text) (s : Server)
      → Succeeds trans
      → s.branch ≡ some old
      → test_and_update_branch trans new old s ≡ (ok tt, record s { branch = set_row new s.branch })
  unfolding test_and_update_branch
  update_ok trans new old s works row =
      let b = works.begins in
      let l = works.selects in
      let u = works.updates in
      let c = works.commits in
      let same : str_eq old (selected s.branch) ≡ true =
        subst (λ r. str_eq old (selected r) ≡ true) (sym row) (str_eq_refl old) in
      rw (b, l, same, u, c, test_and_update_branch) refl

  -- If the repository can be read, the base is its head and can be loaded, the row of the branch names
  -- it, nobody else changes the branch during the call, the first transaction succeeds, and no commit
  -- stands under the id of the new one, which can be written, then gen_new_commit returns 0 after one
  -- attempt, without a merge, and the branch names the new commit.
  pub gen_new_commit-undisturbed :
      Undisturbed
      → (base : SeafCommit) (new_root desc : Text) (s : Server) (repo : Repo)
      → env.get_repo 1 s ≡ some repo
      → repo.head_id ≡ base.commit_id
      → s.commits base.commit_id ≡ some base
      → s.branch ≡ some base.commit_id
      → Succeeds (env.transaction 1)
      → s.commits (make_commit env repo base new_root user desc).commit_id ≡ none
      → env.writable (make_commit env repo base new_root user desc).commit_id ≡ true
      → ((gen_new_commit env base new_root user desc s).0
          ≡ ok (make_commit env repo base new_root user desc).commit_id)
        × ((gen_new_commit env base new_root user desc s).1.branch
            ≡ some (make_commit env repo base new_root user desc).commit_id)
  unfolding gen_new_commit add_commit attempt next_head update_head test_and_update_branch
  gen_new_commit-undisturbed alone base new_root desc s repo found head_is loaded at_base works free
        accepted =
      let c = make_commit env repo base new_root user desc in
      let s1 = added c s in
      let here = head_found c free in
      let row : (env.meanwhile 1 s1).branch ≡ some base.commit_id =
        alone.meanwhile_branch 1 s1 ∙ at_base in
      let same : str_eq base.commit_id base.commit_id ≡ true = str_eq_refl base.commit_id in
      let sent : add_commit env.writable c s ≡ (ok tt, s1) = rw (free, accepted, add_commit) refl in
      let updated =
        update_ok (env.transaction 1) c.commit_id base.commit_id (env.meanwhile 1 s1) works row in
      let s2 : Server = record (env.meanwhile 1 s1) {
        branch = set_row c.commit_id (env.meanwhile 1 s1).branch;
      } in
      let ran : gen_new_commit env base new_root user desc s ≡ (ok c.commit_id, s2) =
        rw (found, gen_new_commit, sent, here, attempt, same, next_head, updated, update_head)
          (ap (λ u. (ok c.commit_id, u.1)) updated) in
      (ap (λ r. r.0) ran, ap (λ r. r.1.branch) ran ∙ ap (set_row c.commit_id) row)
    where
      head_found :
          (c : SeafCommit)
          → s.commits c.commit_id ≡ none
          → (added c s).commits repo.head_id ≡ some base
      head_found c free =
          ap (added c s).commits head_is
          ∙ added_ne c s base.commit_id (λ e. cc (ap (λ i. s.commits i) e, free, loaded))
          ∙ loaded
