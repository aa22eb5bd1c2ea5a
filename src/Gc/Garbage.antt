-- ===== src/Gc/Garbage.antt =====
-- server/gc/gc-core.c: the deletion of garbage repositories.
use seafile_server_learn.Prelude.{
  ℕ, ◌≡◌, refl, ◌∙◌, Bool, true, false, List, [], ◌∷◌, Bool-cases, inl, inr, ◌⊎◌,
}
use seafile_server_learn.Prelude.Text.{Text, str_eq, str_eq_iff}
use seafile_server_learn.Gc.Run.{Env, World, remove_store, delete_each, delete_garbaged_repos}

module _ (env : Env) (rounds depth : ℕ) (dry_run : Bool) (kept_id : Text)
    (exists : env.repo_exists kept_id ≡ true) where
  delete_each-blocks :
      (ids : List Text) (w : World)
      → (delete_each env rounds depth dry_run ids w).blocks kept_id ≡ w.blocks kept_id
  unfolding delete_each remove_store
  delete_each-blocks [] w = refl
  delete_each-blocks (id ∷ ids) w =
      by_cases (delete_each-blocks ids) (Bool-cases (env.repo_exists id)) (Bool-cases dry_run)
        (Bool-cases (str_eq id kept_id))
    where
      by_cases :
          ((w : World)
            → (delete_each env rounds depth dry_run ids w).blocks kept_id ≡ w.blocks kept_id)
          → (env.repo_exists id ≡ true) ⊎ (env.repo_exists id ≡ false)
          → (dry_run ≡ true) ⊎ (dry_run ≡ false)
          → (str_eq id kept_id ≡ true) ⊎ (str_eq id kept_id ≡ false)
          → (delete_each env rounds depth dry_run (id ∷ ids) w).blocks kept_id ≡ w.blocks kept_id
      by_cases more (inl e) (inl d) same = more _ ∙ rw (e, d) refl
      by_cases more (inl e) (inr d) same = more _ ∙ rw (e, d) refl
      by_cases more (inr e) (inl d) same = more _ ∙ rw (e, d) refl
      by_cases more (inr e) (inr d) (inr ne) = more _ ∙ rw (e, d, ne) refl
      by_cases more (inr e) (inr d) (inl same) =
          let eq = (str_eq_iff id kept_id).0 same in absurd (cc (eq, e, exists))

-- The deletion of garbage repositories keeps every block in the store of a repository that exists,
-- also where the database lists it as garbage.
pub delete_garbaged_repos-keeps_existing :
    (env : Env) (rounds depth : ℕ) (dry_run : Bool) (w : World) (repo_id : Text)
    → env.repo_exists repo_id ≡ true
    → (delete_garbaged_repos env rounds depth dry_run w).blocks repo_id ≡ w.blocks repo_id
unfolding delete_garbaged_repos
delete_garbaged_repos-keeps_existing env rounds depth dry_run w repo_id exists =
    delete_each-blocks env rounds depth dry_run repo_id exists w.garbage w
