-- ===== src/Update/Kept.antt =====
-- server/repo-op.c: a new head keeps what gen_new_commit built and what others made the head before.
use mathlib.Core.Path.{subst}
use seafile_server_learn.Prelude.{
  ℕ, zero, suc, ◌+◌, ◌≡◌, refl, sym, ap, ◌∙◌, Option, none, some, false, Option-cases, Bool-cases,
  inl, inr,
}
use seafile_server_learn.Prelude.Text.{Text, str_eq, str_eq_iff}
use seafile_server_learn.Prelude.Exec.{Outcome, ok, failed, out_of_fuel, Exec, resume}
use seafile_server_learn.Commit.Object.{SeafCommit}
use seafile_server_learn.Merge.Options.{State}
use seafile_server_learn.Merge.Trees.{seaf_merge_trees}
use seafile_server_learn.Update.Server.{
  Server, seaf_commit_new, add_commit, selected, set_row, test_and_update_branch,
}
use seafile_server_learn.Update.NewCommit.{
  Repo, Env, make_commit, make_merged, merge_desc, merge_options, commit_merged, merge_heads,
  next_head, update_head, attempt, retry, gen_new_commit,
}
use seafile_server_learn.Update.Steps.{
  Compared, test_and_update_branch-Compared, added, Added, add_commit-Added, added_at,
}
use seafile_server_learn.Update.Fresh.{
  Free, IfRefused, FreshNext, FreshOn, FreshIn, FreshAttempt, FreshRetry, FreshWritten, FreshBy,
  FreshRun,
}
use seafile_server_learn.Update.Sound.{
  Sound, Others, Follows, Moved, Result, Sound-added, kept_added,
}

module _ (env : Env) (user : Text) (others : Others env user) where
  module _ (base new_commit : SeafCommit) where
    -- The commit that the branch is to name, before the update.
    record Ready (head merged : SeafCommit) (s : Server) : Type 0 where
      sound : Sound env user s
      old_stored : s.commits head.commit_id ≡ some head
      new_stored : s.commits new_commit.commit_id ≡ some new_commit
      merged_stored : s.commits merged.commit_id ≡ some merged
      follows : Follows env user base new_commit head merged

    abbrev Prepared : SeafCommit → Outcome SeafCommit × Server → Type 0
    Prepared head (ok merged, s) = Ready head merged s
    Prepared head (failed, s) = Unit {0}
    Prepared head (out_of_fuel, s) = Unit {0}

    -- The commit that a merge has returned was free before.
    abbrev FreshMerge : Server → Outcome SeafCommit × Server → Type 0
    FreshMerge s (ok merged, s') = Free merged s
    FreshMerge s (failed, s') = Unit {0}
    FreshMerge s (out_of_fuel, s') = Unit {0}

    module _ (Again : Server → Type 0) (n : ℕ) (repo : Repo) (head : SeafCommit) where
      after_add :
          (merged : SeafCommit) (s : Server) (r : Outcome (Unit {0}) × Server)
          → FreshMerge s (resume (λ _ s. (ok merged, s)) r.0 r.1)
          → (Free merged s → Added merged s r × Ready head merged (added merged s))
          → Prepared head (resume (λ _ s. (ok merged, s)) r.0 r.1)
      after_add merged s (ok u, s') free ready =
          subst (Ready head merged) (sym (ready free).0) (ready free).1
      after_add merged s (failed, s') free ready = tt
      after_add merged s (out_of_fuel, s') free ready = tt

      commit_merged-Prepared :
          (u : Unit {0}) (st : State (Unit {0})) (s : Server)
          → FreshMerge s (commit_merged env n repo head new_commit user u st s)
          → Sound env user s
          → s.commits head.commit_id ≡ some head
          → s.commits new_commit.commit_id ≡ some new_commit
          → Prepared head (commit_merged env n repo head new_commit user u st s)
      unfolding commit_merged make_merged seaf_commit_new
      commit_merged-Prepared u st s fresh sound old new =
          let s' : Server = record s { fs = st.fs } in
          let desc = merge_desc env repo head new_commit st.opt s' in
          let merged = make_merged env n repo head new_commit user desc st.opt in
          let sound' : Sound env user s' = record {
            no_empty = sound.no_empty;
            own_id = sound.own_id;
          } in
          after_add merged s' (add_commit env.writable merged s') fresh λ free. (
            add_commit-Added env.writable merged s' free.1,
            record {
              sound = Sound-added env user others merged s' free.0 sound';
              old_stored = kept_added env user others merged s' head.commit_id head free.1 old;
              new_stored =
                  kept_added env user others merged s' new_commit.commit_id new_commit free.1 new;
              merged_stored = added_at merged s';
              follows = inr (refl, refl);
            },
          )

      free_of :
          (s : Server) (r : Outcome SeafCommit × Server)
          → str_eq base.commit_id head.commit_id ≡ false
          → FreshNext env user base new_commit Again n head s r
          → FreshMerge s r
      free_of s (ok merged, s') other fresh = fresh.0 other
      free_of s (failed, s') other fresh = tt
      free_of s (out_of_fuel, s') other fresh = tt

      next_head-Prepared :
          (s : Server)
          → FreshNext env user base new_commit Again n head s
              (next_head env n repo base head new_commit user s)
          → Sound env user s
          → s.commits head.commit_id ≡ some head
          → s.commits new_commit.commit_id ≡ some new_commit
          → Prepared head (next_head env n repo base head new_commit user s)
      unfolding next_head merge_heads
      next_head-Prepared s fresh sound old new =
          elim (Bool-cases (str_eq base.commit_id head.commit_id)) [
            | inl same ↦
                rw (same, next_head)
                  (record {
                    sound = sound;
                    old_stored = old;
                    new_stored = new;
                    merged_stored = new;
                    follows = inl ((str_eq_iff base.commit_id head.commit_id).0 same, refl);
                  })
            | inr other ↦
                let merges : next_head env n repo base head new_commit user s
                    ≡ merge_heads env n repo base head new_commit user s =
                  rw (other, next_head) refl in
                subst (Prepared head) (sym merges) (
                  by_merge
                    (seaf_merge_trees
                      (record env.merge_env { commits = λ repo_id id. s.commits id }) repo.version 3
                      env.merge_fuel base.root_id head.root_id new_commit.root_id
                      (record { fs = s.fs; opt = merge_options env repo new_commit; user = tt }))
                    (subst (FreshMerge s) merges (free_of s _ other fresh)))
          ]
        where
          by_merge :
              (m : Outcome (Unit {0}) × State (Unit {0}))
              → FreshMerge s (elim m.0 [
                | ok u ↦ commit_merged env n repo head new_commit user u m.1 s
                | failed ↦ (failed, record s { fs = m.1.fs })
                | out_of_fuel ↦ (out_of_fuel, record s { fs = m.1.fs })
              ])
              → Prepared head (elim m.0 [
                | ok u ↦ commit_merged env n repo head new_commit user u m.1 s
                | failed ↦ (failed, record s { fs = m.1.fs })
                | out_of_fuel ↦ (out_of_fuel, record s { fs = m.1.fs })
              ])
          by_merge (ok u, st) free = commit_merged-Prepared u st s free sound old new
          by_merge (failed, st) free = tt
          by_merge (out_of_fuel, st) free = tt

      update_head-Result :
          (again : Exec Server Text) (merged : SeafCommit) (s : Server)
          → ((s : Server)
              → Again s
              → Sound env user s
              → s.commits new_commit.commit_id ≡ some new_commit
              → Result env user base new_commit (again s))
          → IfRefused Again (
              test_and_update_branch
                (env.transaction n)
                merged.commit_id
                head.commit_id
                (env.meanwhile n s))
          → Ready head merged s
          → Result env user base new_commit
              (update_head env base new_commit user again n head merged s)
      unfolding update_head
      update_head-Result again merged s recur fresh ready =
          by_outcome
            (test_and_update_branch (env.transaction n) merged.commit_id head.commit_id
              (env.meanwhile n s))
            (test_and_update_branch-Compared (env.transaction n) merged.commit_id head.commit_id
              (env.meanwhile n s))
            fresh
        where
          before : Server
          before = env.meanwhile n s

          sound : Sound env user before
          sound = others.meanwhile_sound n s ready.sound

          new : before.commits new_commit.commit_id ≡ some new_commit
          new = others.meanwhile_keeps n s new_commit.commit_id new_commit ready.new_stored

          old : before.commits head.commit_id ≡ some head
          old = others.meanwhile_keeps n s head.commit_id head ready.old_stored

          -- An empty id is no head, so there was a row.
          row :
              (b : Option Text)
              → head.commit_id ≡ selected b
              → (b ≡ some head.commit_id) × (set_row merged.commit_id b ≡ some merged.commit_id)
          row none e = absurd (cc (ap (λ i. before.commits i) e, sound.no_empty, old))
          row (some id) e = (ap some (sym e), refl)

          moved :
              (s' : Server)
              → head.commit_id ≡ selected before.branch
              → s' ≡ record before { branch = set_row merged.commit_id before.branch }
              → Moved env user base new_commit merged.commit_id s'
          moved s' e same =
              let (was, now) = row before.branch e in
              subst (Moved env user base new_commit merged.commit_id) (sym same) (record {
                before = before;
                head = head;
                merged = merged;
                was_head = was;
                is_head = now;
                old_stored = old;
                new_stored = new;
                merged_stored =
                    others.meanwhile_keeps n s merged.commit_id merged ready.merged_stored;
                follows = ready.follows;
              })

          by_outcome :
              (u : Outcome (Unit {0}) × Server)
              → Compared merged.commit_id head.commit_id before u
              → IfRefused Again u
              → Result env user base new_commit (elim u.0 [
                | ok a ↦ (ok merged.commit_id, u.1)
                | failed ↦ again u.1
                | out_of_fuel ↦ (out_of_fuel, u.1)
              ])
          by_outcome (ok a, s') (e, same) again_fresh = moved s' e same
          by_outcome (failed, s') same again_fresh =
              subst (λ s. Result env user base new_commit (again s)) (sym same)
                (recur before (subst Again same again_fresh) sound new)
          by_outcome (out_of_fuel, s') h again_fresh = tt

      after_next :
          (again : Exec Server Text) (s : Server) (r : Outcome SeafCommit × Server)
          → ((s : Server)
              → Again s
              → Sound env user s
              → s.commits new_commit.commit_id ≡ some new_commit
              → Result env user base new_commit (again s))
          → FreshNext env user base new_commit Again n head s r
          → Prepared head r
          → Result env user base new_commit
              (resume (update_head env base new_commit user again n head) r.0 r.1)
      after_next again s (ok merged, s') recur fresh ready =
          update_head-Result again merged s' recur fresh.1 ready
      after_next again s (failed, s') recur fresh h = tt
      after_next again s (out_of_fuel, s') recur fresh h = tt

    attempt-Result :
        (Again : Server → Type 0) (again : Exec Server Text) (n : ℕ) (repo : Repo) (s : Server)
        → ((s : Server)
            → Again s
            → Sound env user s
            → s.commits new_commit.commit_id ≡ some new_commit
            → Result env user base new_commit (again s))
        → FreshAttempt env user base new_commit Again n repo s
        → Sound env user s
        → s.commits new_commit.commit_id ≡ some new_commit
        → Result env user base new_commit (attempt env base new_commit user again n repo s)
    unfolding attempt
    attempt-Result Again again n repo s recur fresh sound new =
        elim (Option-cases (s.commits repo.head_id)) [
          | inl missing ↦ rw (missing, attempt) tt
          | inr (head, found) ↦
              let old = ap (λ i. s.commits i) (sound.own_id repo.head_id head found) ∙ found in
              let next = subst (FreshOn env user base new_commit Again n repo s) found fresh in
              let done =
                after_next Again n repo head again s
                  (next_head env n repo base head new_commit user s) recur next
                  (next_head-Prepared Again n repo head s next sound old new) in
              rw (found, attempt) done
        ]

    retry-Result :
        (left n : ℕ) (s : Server)
        → FreshRetry env user base new_commit left n s
        → Sound env user s
        → s.commits new_commit.commit_id ≡ some new_commit
        → Result env user base new_commit (retry env base new_commit user left n s)
    unfolding retry FreshRetry
    retry-Result zero n s fresh sound new = tt
    retry-Result (suc left) n s fresh sound new =
        let s' = env.pause n s in
        let sound' = others.pause_sound n s sound in
        let new' = others.pause_keeps n s new_commit.commit_id new_commit new in
        elim (Option-cases (env.get_repo (n + 1) s')) [
          | inl missing ↦ rw (missing, retry) tt
          | inr (repo, found) ↦
              let Again = FreshRetry env user base new_commit left (n + 1) in
              let next =
                subst
                  (FreshIn env user base new_commit
                    (FreshAttempt env user base new_commit Again (n + 1)) s')
                  found fresh in
              let done =
                attempt-Result Again (retry env base new_commit user left (n + 1)) (n + 1) repo s'
                  (retry-Result left (n + 1)) next sound' new' in
              rw (found, retry) done
        ]

  -- What a call on `base` that returns has done, with the repository that it read first.
  abbrev pub KeepsBoth : SeafCommit → Text → Text → Server → Outcome Text × Server → Type 0
  KeepsBoth base new_root desc s (ok id, s') =
      (repo : Repo) × (env.get_repo 1 s ≡ some repo)
      × Moved env user base (make_commit env repo base new_root user desc) id s'
  KeepsBoth base new_root desc s (failed, s') = Unit {0}
  KeepsBoth base new_root desc s (out_of_fuel, s') = Unit {0}

  for_repo :
      (base : SeafCommit) (new_root desc : Text) (s : Server) (repo : Repo)
      (r : Outcome Text × Server)
      → env.get_repo 1 s ≡ some repo
      → Result env user base (make_commit env repo base new_root user desc) r
      → KeepsBoth base new_root desc s r
  for_repo base new_root desc s repo (ok id, s') h moved = (repo, h, moved)
  for_repo base new_root desc s repo (failed, s') h moved = tt
  for_repo base new_root desc s repo (out_of_fuel, s') h moved = tt

  pub gen_new_commit-KeepsBoth :
      (base : SeafCommit) (new_root desc : Text) (s : Server)
      → FreshRun env user base new_root desc s
      → Sound env user s
      → KeepsBoth base new_root desc s (gen_new_commit env base new_root user desc s)
  unfolding gen_new_commit make_commit seaf_commit_new FreshRun
  gen_new_commit-KeepsBoth base new_root desc s fresh sound =
      elim (Option-cases (env.get_repo 1 s)) [
        | inl missing ↦ rw (missing, gen_new_commit) tt
        | inr (repo, found) ↦
            let c = make_commit env repo base new_root user desc in
            let next = subst (FreshBy env user base new_root desc s) found fresh in
            let done = for_repo base new_root desc s repo _ found (
              written repo c (add_commit env.writable c s)
                (add_commit-Added env.writable c s next.0.1) next.1
                (Sound-added env user others c s next.0.0 sound)) in
            rw (found, gen_new_commit) done
      ]
    where
      written :
          (repo : Repo) (c : SeafCommit) (r : Outcome (Unit {0}) × Server)
          → Added c s r
          → FreshWritten env user base c repo r
          → Sound env user (added c s)
          → Result env user base c
              (resume (λ _. attempt env base c user (retry env base c user 3 1) 1 repo) r.0 r.1)
      written repo c (ok u, s') same next sound₁ =
          let Again = FreshRetry env user base c 3 1 in
          subst
            (λ s.
              Result env user base c (attempt env base c user (retry env base c user 3 1) 1 repo s))
            (sym same)
            (attempt-Result base c Again (retry env base c user 3 1) 1 repo (added c s)
              (retry-Result base c 3 1)
              (subst (FreshAttempt env user base c Again 1 repo) same next) sound₁ (added_at c s))
      written repo c (failed, s') same next sound₁ = tt
      written repo c (out_of_fuel, s') same next sound₁ = tt
