-- ===== src/Gc/Kept.antt =====
-- server/gc/gc-core.c: garbage collection removes no block that a kept commit refers to.
use mathlib.Core.Path.{subst}
use seafile_server_learn.Prelude.{
  ℕ, ◌≡◌, refl, sym, ◌∙◌, Bool, true, false, none, some, List, [], ◌∷◌, In, here, there,
  Option-cases, Bool-cases, inl, inr, ◌⊎◌, List-cases, length, ◌==◌,
}
use seafile_server_learn.Prelude.Text.{Text}
use seafile_server_learn.Prelude.Exec.{Outcome, ok, failed, out_of_fuel, resume}
use seafile_server_learn.Bloom.Filter.{Bloom, bloom_test}
use seafile_server_learn.Bloom.Members.{IsFilter, Grows, Grows-refl, Grows-trans, bloom_test-Grows}
use seafile_server_learn.Gc.Index.{GcData, alloc_gc_index}
use seafile_server_learn.Gc.Live.{Yields, Yields-resume, Yields-map}
use seafile_server_learn.Gc.Blocks.{LiveBlock, Kept}
use seafile_server_learn.Gc.Run.{
  SeafRepo, Env, World, new_gc_data, update_valid_since, traverse_branches, count_reachable,
  populate_gc_index_for_repo, populate_virtual, populate_gc_index_for_virtual_repos, populate,
  after_populate, reset_counts, gc_v1_repo,
}
use seafile_server_learn.Gc.DryRun.{update_valid_since-blocks}
use seafile_server_learn.Gc.Safety.{
  alloc_gc_index-IsFilter, LiveIn, LiveInVirtual, IsSane, HeadsIndexed, one_branch,
  clean_blocks-keeps,
}

module _ (env : Env) (rounds depth : ℕ) (sane : IsSane env) where
  joined :
      (repo : SeafRepo) (head : Text) (heads : List Text) (gc mid new : GcData)
      → HeadsIndexed env rounds depth sane repo (head ∷ []) gc mid
      → HeadsIndexed env rounds depth sane repo heads mid new
      → HeadsIndexed env rounds depth sane repo (head ∷ heads) gc new
  joined repo head heads gc mid new first more = record {
    kept = record {
      filter = more.kept.filter;
      grows = Grows-trans gc.index mid.index new.index first.kept.grows more.kept.grows;
      covers = more.kept.covers;
    };
    indexed = λ h b m live. at_head h b m live;
  }
    where
      at_head :
          (h b : Text)
          → In h (head ∷ heads)
          → LiveBlock
              (env.commits repo.id)
              (env.fs repo.store_id)
              repo.version
              (env.truncate_time repo.id)
              h
              b
          → bloom_test env.sha_int new.index b ≡ true
      at_head h b (here e) live =
          bloom_test-Grows env.sha_int b mid.index new.index more.kept.grows
            (first.indexed h b (here e) live)
      at_head h b (there m) live = more.indexed h b m live

  from_here :
      (repo : SeafRepo) (old gc : GcData)
      → Kept env.sha_int (env.fs repo.store_id) repo.version old.index gc
      → Kept env.sha_int (env.fs repo.store_id) repo.version gc.index gc
  from_here repo old gc k = record {
    filter = k.filter;
    grows = Grows-refl gc.index;
    covers = k.covers;
  }

  traverse_branches-Yields :
      (repo : SeafRepo) (heads : List Text) (gc : GcData)
      → Kept env.sha_int (env.fs repo.store_id) repo.version gc.index gc
      → Yields env.sha_int
          (env.fs repo.store_id)
          repo.version
          (HeadsIndexed env rounds depth sane repo heads gc)
          (traverse_branches env rounds depth repo heads gc)
  unfolding traverse_branches
  traverse_branches-Yields repo [] gc kept = record {
    kept = kept;
    indexed = λ h b m live. elim m [ ];
  }
  traverse_branches-Yields repo (head ∷ heads) gc kept =
      Yields-resume env.sha_int (env.fs repo.store_id) repo.version
        (HeadsIndexed env rounds depth sane repo (head ∷ []) gc)
        (HeadsIndexed env rounds depth sane repo (head ∷ heads) gc) _ _
        (one_branch env rounds depth sane repo head gc kept)
        λ mid first.
          Yields-map env.sha_int (env.fs repo.store_id) repo.version
            (HeadsIndexed env rounds depth sane repo heads mid)
            (HeadsIndexed env rounds depth sane repo (head ∷ heads) gc) _
            (traverse_branches-Yields repo heads mid (from_here repo gc mid first.kept))
            λ new more. joined repo head heads gc mid new first more

  -- A population never touches the blocks; where it succeeds, `P` holds of the new index.
  Populated : Bloom → World → (Bloom → Type 0) → Outcome (Unit {0}) × (Bloom × World) → Type 0
  Populated index w P (ok a, s) = (s.1.blocks ≡ w.blocks) × IsFilter s.0 × Grows index s.0 × P s.0
  Populated index w P (failed, s) = s.1.blocks ≡ w.blocks
  Populated index w P (out_of_fuel, s) = s.1.blocks ≡ w.blocks

  RepoIndexed : SeafRepo → Bloom → Type 0
  RepoIndexed repo index = (b : Text) → LiveIn env repo b → bloom_test env.sha_int index b ≡ true

  count_reachable-Populated :
      (repo : SeafRepo) (index : Bloom) (w w' : World) (r : Outcome (Unit {0}) × GcData)
      → w'.blocks ≡ w.blocks
      → Yields env.sha_int
          (env.fs repo.store_id)
          repo.version
          (HeadsIndexed env rounds depth sane repo (env.branches repo.id) (new_gc_data index))
          r
      → Populated index w (RepoIndexed repo) (count_reachable env rounds depth r w')
  unfolding Populated RepoIndexed
  count_reachable-Populated repo index w w' (ok a, gc) same h =
      (same, h.kept.filter, h.kept.grows, λ b live. h.indexed live.head b live.is_branch live.live)
  count_reachable-Populated repo index w w' (failed, gc) same h = same
  count_reachable-Populated repo index w w' (out_of_fuel, gc) same h = same

  populate_gc_index_for_repo-Populated :
      (repo : SeafRepo) (index : Bloom) (w : World)
      → IsFilter index
      → Populated index w
          (RepoIndexed repo)
          (populate_gc_index_for_repo env rounds depth repo (index, w))
  unfolding populate_gc_index_for_repo Populated
  populate_gc_index_for_repo-Populated repo index w f = elim (List-cases (env.branches repo.id)) [
    | inl none' ↦
        let fails : populate_gc_index_for_repo env rounds depth repo (index, w)
            ≡ (failed, (index, w)) =
          rw (none', populate_gc_index_for_repo) refl in
        subst (Populated index w (RepoIndexed repo)) (sym fails) refl
    | inr (head, heads, some') ↦
        let start : Kept env.sha_int (env.fs repo.store_id) repo.version index (new_gc_data index) =
          record { filter = f; grows = Grows-refl index; covers = λ id m. elim m [ ] } in
        let done = traverse_branches-Yields repo (head ∷ heads) (new_gc_data index) start in
        let all =
          subst
            (λ l.
              Yields env.sha_int (env.fs repo.store_id) repo.version
                (HeadsIndexed env rounds depth sane repo l (new_gc_data index))
                (traverse_branches env rounds depth repo (head ∷ heads) (new_gc_data index)))
            (sym some') done in
        let end =
          count_reachable-Populated repo index w (update_valid_since env rounds depth repo w) _
            (update_valid_since-blocks env rounds depth repo w) all in
        let runs : populate_gc_index_for_repo env rounds depth repo (index, w)
            ≡ count_reachable env rounds depth
                (traverse_branches env rounds depth repo (head ∷ heads) (new_gc_data index))
                (update_valid_since env rounds depth repo w) =
          rw (some', populate_gc_index_for_repo) refl in
        subst (Populated index w (RepoIndexed repo)) (sym runs) end
  ]

  Populated-resume :
      (index : Bloom) (w : World) (P Q R : Bloom → Type 0)
      (r : Outcome (Unit {0}) × (Bloom × World))
      (k : Unit {0} → Bloom × World → Outcome (Unit {0}) × (Bloom × World))
      → Populated index w P r
      → ((s : Bloom × World) → IsFilter s.0 → Populated s.0 s.1 Q (k tt s))
      → ((mid new : Bloom) → Grows mid new → P mid → Q new → R new)
      → Populated index w R (resume k r.0 r.1)
  unfolding Populated
  Populated-resume index w P Q R (failed, s) k h more both = h
  Populated-resume index w P Q R (out_of_fuel, s) k h more both = h
  Populated-resume index w P Q R (ok tt, s) k (same, f, g, p) more both = chain (k tt s) (more s f)
    where
      chain :
          (r : Outcome (Unit {0}) × (Bloom × World)) → Populated s.0 s.1 Q r → Populated index w R r
      chain (failed, t) same' = same' ∙ same
      chain (out_of_fuel, t) same' = same' ∙ same
      chain (ok a, t) (same', f', g', q) =
          (same' ∙ same, f', Grows-trans index s.0 t.0 g g', both s.0 t.0 g' p q)

  -- The live blocks of the virtual repositories in the list.
  VirtualIndexed : List Text → Bloom → Type 0
  VirtualIndexed ids index =
      (id b : Text) (vrepo : SeafRepo)
      → In id ids
      → env.get_repo id ≡ some vrepo
      → LiveIn env vrepo b
      → bloom_test env.sha_int index b ≡ true

  populate_virtual-Populated :
      (ids : List Text) (index : Bloom) (w : World)
      → IsFilter index
      → Populated index w (VirtualIndexed ids) (populate_virtual env rounds depth ids (index, w))
  unfolding populate_virtual Populated VirtualIndexed RepoIndexed
  populate_virtual-Populated [] index w f =
      (refl, f, Grows-refl index, λ id b vrepo m e live. elim m [ ])
  populate_virtual-Populated (id ∷ ids) index w f =
      by_repo (Option-cases (env.get_repo id)) (populate_virtual-Populated ids)
    where
      first :
          (vrepo : SeafRepo)
          → env.get_repo id ≡ some vrepo
          → (mid new : Bloom) → Grows mid new
          → RepoIndexed vrepo mid
          → VirtualIndexed ids new
          → VirtualIndexed (id ∷ ids) new
      first vrepo found mid new g now later x b v (there m) e live = later x b v m e live
      first vrepo found mid new g now later x b v (here same) e live =
          let is_same : vrepo ≡ v = cc in
          bloom_test-Grows env.sha_int b mid new g
            (now b (subst (λ v. LiveIn env v b) (sym is_same) live))

      by_repo :
          ((env.get_repo id ≡ none) ⊎ ((vrepo : SeafRepo) × (env.get_repo id ≡ some vrepo)))
          → ((index : Bloom) (w : World)
              → IsFilter index
              → Populated index w
                  (VirtualIndexed ids)
                  (populate_virtual env rounds depth ids (index, w)))
          → Populated index w
              (VirtualIndexed (id ∷ ids))
              (populate_virtual env rounds depth (id ∷ ids) (index, w))
      by_repo (inl missing) more =
          let fails : populate_virtual env rounds depth (id ∷ ids) (index, w)
              ≡ (failed, (index, w)) =
            rw (missing, populate_virtual) refl in
          subst (Populated index w (VirtualIndexed (id ∷ ids))) (sym fails) refl
      by_repo (inr (vrepo, found)) more =
          let done =
            Populated-resume index w (RepoIndexed vrepo) (VirtualIndexed ids)
              (VirtualIndexed (id ∷ ids))
              (populate_gc_index_for_repo env rounds depth vrepo (index, w))
              (λ _. populate_virtual env rounds depth ids)
              (populate_gc_index_for_repo-Populated vrepo index w f) (λ s f'. more s.0 s.1 f')
              (first vrepo found) in
          let r = populate_gc_index_for_repo env rounds depth vrepo (index, w) in
          let runs : populate_virtual env rounds depth (id ∷ ids) (index, w)
              ≡ resume (λ _. populate_virtual env rounds depth ids) r.0 r.1 =
            rw (found, populate_virtual) refl in
          subst (Populated index w (VirtualIndexed (id ∷ ids))) (sym runs) done

  AllIndexed : SeafRepo → Bloom → Type 0
  AllIndexed repo index = RepoIndexed repo index × VirtualIndexed (env.virtual_repos repo.id) index

  populate-Populated :
      (repo : SeafRepo) (index : Bloom) (w : World)
      → IsFilter index
      → Populated index w (AllIndexed repo) (populate env rounds depth repo (index, w))
  unfolding populate populate_gc_index_for_virtual_repos AllIndexed RepoIndexed
  populate-Populated repo index w f =
      Populated-resume index w (RepoIndexed repo) (VirtualIndexed (env.virtual_repos repo.id))
        (AllIndexed repo) _ _ (populate_gc_index_for_repo-Populated repo index w f)
        (λ s f'. populate_virtual-Populated (env.virtual_repos repo.id) s.0 s.1 f')
        λ mid new g p q. (λ b live. bloom_test-Grows env.sha_int b mid new g (p b live), q)

  after_populate-keeps :
      (repo : SeafRepo) (dry_run : Bool) (index : Bloom) (w : World) (b : Text)
      (r : Outcome (Unit {0}) × (Bloom × World))
      → Populated index w (AllIndexed repo) r
      → LiveIn env repo b ⊎ LiveInVirtual env repo b
      → (s : Text) → In b (w.blocks s)
      → In b ((after_populate env rounds depth repo dry_run r).1.blocks s)
  unfolding after_populate Populated AllIndexed RepoIndexed VirtualIndexed
  after_populate-keeps repo dry_run index w b (failed, t) same live s m =
      subst (λ f. In b (f s)) (sym same) m
  after_populate-keeps repo dry_run index w b (out_of_fuel, t) same live s m =
      subst (λ f. In b (f s)) (sym same) m
  after_populate-keeps repo dry_run index w b (ok a, t) (same, f, g, (own, virtual)) live s m =
      clean_blocks-keeps env rounds depth repo dry_run t.0 b s t.1 (tested live)
        (subst (λ f. In b (f s)) (sym same) m)
    where
      tested : LiveIn env repo b ⊎ LiveInVirtual env repo b → bloom_test env.sha_int t.0 b ≡ true
      tested (inl l) = own b l
      tested (inr v) = virtual v.virtual_id b v.virtual_repo v.is_listed v.has_repo v.live_in

-- Garbage collection of a repository removes no live block, from any store, in a run that ends as
-- in one that fails half way, whatever the digests and the order of the scan: a block of a regular
-- file that is in a directory below the root of a commit that is kept (a branch head, or reached
-- from one through parents without passing a commit where the history is cut off), of the
-- repository itself or of one of its virtual repositories. Assumed: the sorted insertion inserts,
-- a commit is stored under its own id, and no id names both a directory and a file.
pub gc_v1_repo-keeps_live :
    (env : Env) (rounds depth : ℕ) (repo : SeafRepo) (dry_run : Bool) (w : World)
    (b store_id : Text)
    → IsSane env
    → LiveIn env repo b ⊎ LiveInVirtual env repo b
    → In b (w.blocks store_id)
    → In b ((gc_v1_repo env rounds depth repo dry_run w).1.blocks store_id)
unfolding gc_v1_repo
gc_v1_repo-keeps_live env rounds depth repo dry_run w b s sane live m =
    by_index (Bool-cases (length (w.blocks repo.store_id) == 0))
      (Option-cases (alloc_gc_index env.memory (length (w.blocks repo.store_id))))
  where
    by_index :
        ((length (w.blocks repo.store_id) == 0) ≡ true)
          ⊎ ((length (w.blocks repo.store_id) == 0) ≡ false)
        → (alloc_gc_index env.memory (length (w.blocks repo.store_id)) ≡ none)
          ⊎ ((index : Bloom) × (alloc_gc_index env.memory (length (w.blocks repo.store_id))
                ≡ some index))
        → In b ((gc_v1_repo env rounds depth repo dry_run w).1.blocks s)
    by_index (inl empty) index = rw empty m
    by_index (inr some') (inl missing) = rw (some', missing) m
    by_index (inr some') (inr (index, found)) =
        let w' = reset_counts env rounds depth repo w in
        let done =
          after_populate-keeps env rounds depth sane repo dry_run index w' b _
            (populate-Populated env rounds depth sane repo index w'
              (alloc_gc_index-IsFilter env.memory _ index found))
            live s m in
        rw (some', found) done
