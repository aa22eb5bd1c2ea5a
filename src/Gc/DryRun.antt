-- ===== src/Gc/DryRun.antt =====
-- server/gc/gc-core.c: a run with dry_run only counts.
use seafile_server_learn.Prelude.{
  ℕ, ◌≡◌, refl, ◌∙◌, true, List, [], ◌∷◌, inl, inr, Bool-cases, Option-cases, List-cases, length,
  ◌==◌, arith,
}
use seafile_server_learn.Prelude.Text.{Text}
use seafile_server_learn.Prelude.Exec.{Outcome, ok, failed, out_of_fuel, resume}
use seafile_server_learn.Bloom.Filter.{Bloom}
use seafile_server_learn.Gc.Index.{alloc_gc_index}
use seafile_server_learn.Gc.Run.{
  SeafRepo, Env, World, populate_gc_index_for_repo, populate_virtual,
  populate_gc_index_for_virtual_repos, check_block_liveness, check_blocks, clean_blocks, populate,
  after_populate, gc_v1_repo, update_valid_since,
}

module _ (env : Env) (rounds depth : ℕ) where
  check_blocks-dry :
      (index : Bloom) (store_id : Text) (bs : List Text) (w : World)
      → (check_blocks env rounds depth index true store_id bs w).blocks ≡ w.blocks
  unfolding check_blocks check_block_liveness
  check_blocks-dry index store_id [] w = refl
  check_blocks-dry index store_id (b ∷ bs) w =
      check_blocks-dry index store_id bs
        (check_block_liveness env rounds depth index true store_id b w)
      ∙ ground arith

  clean_blocks-dry :
      (repo : SeafRepo) (index : Bloom) (w : World)
      → (clean_blocks env rounds depth repo true (index, w)).1.blocks ≡ w.blocks
  unfolding clean_blocks
  clean_blocks-dry repo index w =
      let same =
        check_blocks-dry index repo.store_id ((env.scan repo.store_id (w.blocks repo.store_id)).0)
          w in
      elim (Bool-cases (env.scan repo.store_id (w.blocks repo.store_id)).1) [
        | inl done ↦ rw done same
        | inr broken ↦ rw broken same
      ]

  pub update_valid_since-blocks :
      (repo : SeafRepo) (w : World) → (update_valid_since env rounds depth repo w).blocks ≡ w.blocks
  unfolding update_valid_since
  update_valid_since-blocks repo w = elim (Option-cases (env.commits repo.id repo.head_commit)) [
    | inl missing ↦ ground arith
    | inr (c, found) ↦ ground arith
  ]

  one_repo :
      (repo : SeafRepo) (s : Bloom × World)
      → (populate_gc_index_for_repo env rounds depth repo s).1.1.blocks ≡ s.1.blocks
  unfolding populate_gc_index_for_repo
  one_repo repo (index, w) = elim (List-cases (env.branches repo.id)) [
    | inl none' ↦ rw (none', populate_gc_index_for_repo) refl
    | inr (head, heads, some') ↦
        rw (some', populate_gc_index_for_repo) (update_valid_since-blocks repo w)
  ]

  then_blocks :
      (blocks : Text → List Text) (r : Outcome (Unit {0}) × (Bloom × World))
      (k : Unit {0} → Bloom × World → Outcome (Unit {0}) × (Bloom × World))
      → r.1.1.blocks ≡ blocks
      → ((s : Bloom × World) → (k tt s).1.1.blocks ≡ s.1.blocks)
      → (resume k r.0 r.1).1.1.blocks ≡ blocks
  then_blocks blocks (ok tt, s) k h more = more s ∙ h
  then_blocks blocks (failed, s) k h more = h
  then_blocks blocks (out_of_fuel, s) k h more = h

  virtual_repos :
      (ids : List Text) (s : Bloom × World)
      → (populate_virtual env rounds depth ids s).1.1.blocks ≡ s.1.blocks
  unfolding populate_virtual
  virtual_repos [] s = refl
  virtual_repos (id ∷ ids) s =
      let more = virtual_repos ids in
      elim (Option-cases (env.get_repo id)) [
        | inl missing ↦ rw (missing, populate_virtual) refl
        | inr (vrepo, found) ↦
            let both =
              then_blocks s.1.blocks (populate_gc_index_for_repo env rounds depth vrepo s)
                (λ _. populate_virtual env rounds depth ids) (one_repo vrepo s) more in
            rw (found, populate_virtual) both
      ]

  after_populate-dry :
      (repo : SeafRepo) (r : Outcome (Unit {0}) × (Bloom × World))
      → (after_populate env rounds depth repo true r).1.blocks ≡ r.1.1.blocks
  unfolding after_populate
  after_populate-dry repo (ok a, s) = clean_blocks-dry repo s.0 s.1
  after_populate-dry repo (failed, s) = refl
  after_populate-dry repo (out_of_fuel, s) = refl

  populate_blocks :
      (repo : SeafRepo) (s : Bloom × World)
      → (populate env rounds depth repo s).1.1.blocks ≡ s.1.blocks
  unfolding populate populate_gc_index_for_virtual_repos
  populate_blocks repo s =
      then_blocks s.1.blocks (populate_gc_index_for_repo env rounds depth repo s) _
        (one_repo repo s) (virtual_repos (env.virtual_repos repo.id))

-- With dry_run, garbage collection of a repository leaves the blocks of every store as they are, on
-- every path: no blocks, no index, a traversal that fails, a scan that fails, and success.
pub gc_v1_repo-dry_run :
    (env : Env) (rounds depth : ℕ) (repo : SeafRepo) (w : World)
    → (gc_v1_repo env rounds depth repo true w).1.blocks ≡ w.blocks
unfolding gc_v1_repo
gc_v1_repo-dry_run env rounds depth repo w =
    elim (Bool-cases (length (w.blocks repo.store_id) == 0)) [
      | inl empty ↦ rw empty refl
      | inr more ↦
          elim (Option-cases (alloc_gc_index env.memory (length (w.blocks repo.store_id)))) [
            | inl missing ↦ rw (more, missing) refl
            | inr (index, found) ↦
                let done =
                  after_populate-dry env rounds depth repo _
                  ∙ populate_blocks env rounds depth repo _ in
                rw (more, found) done
          ]
    ]
