-- ===== src/Gc/Run.antt =====
-- server/gc/gc-core.c: a run over the repositories. The database, the repository and branch managers
-- and the block backend are parameters; what a run writes is in the record `World`.
use seafile_server_learn.Prelude.{
  ℕ, ◌+◌, ◌%◌, ◌^◌, Bool, true, false, not, ◌&&◌, Option, none, some, List, [], ◌∷◌, if◌then◌else◌,
  ◌==◌, length,
}
use seafile_server_learn.Prelude.Text.{Text, str_eq}
use seafile_server_learn.Prelude.Int.{ℤ, pos, negsuc}
use seafile_server_learn.Prelude.Exec.{Outcome, ok, failed, out_of_fuel, Exec, resume}
use seafile_server_learn.Bloom.Filter.{Bloom, bloom_test}
use seafile_server_learn.Fs.Store.{FsStore}
use seafile_server_learn.Commit.Object.{CommitStore}
use seafile_server_learn.Commit.Traverse.{Insert, traverse_commit_tree, to_gint}
use seafile_server_learn.Gc.Index.{
  GcData, traverse_commit, alloc_gc_index, to_gint64, int_ltb, int_is_zero,
}

pub record SeafRepo : Type 0 where
  pub id : Text
  pub store_id : Text
  pub version : ℕ
  pub head_commit : Text
  pub is_virtual : Bool
  pub is_corrupted : Bool

-- `scan` is what a walk over the blocks of a store visits, and whether it succeeds.
pub record Env : Type 0 where
  pub sha_int : Text → ℕ → ℕ
  pub memory : ℕ → Bool
  pub g_list_insert_sorted : Insert
  pub commits : Text → CommitStore
  pub fs : Text → FsStore
  pub branches : Text → List Text
  pub truncate_time : Text → ℤ
  pub get_repo : Text → Option SeafRepo
  pub get_repo_ex : Text → Option SeafRepo
  pub virtual_repos : Text → List Text
  pub repo_exists : Text → Bool
  pub scan : Text → List Text → List Text × Bool

pub record World : Type 0 where
  pub valid_since : List (Text × ℤ)
  pub blocks : Text → List Text
  pub removed_commits : List Text
  pub removed_fs : List Text
  pub garbage : List Text
  pub total_blocks : ℕ
  pub removed_blocks : ℕ
  pub reachable_blocks : ℕ

unfoldable pub remove : Text → List Text → List Text
remove x [] = []
remove x (y ∷ ys) = if str_eq x y then remove x ys else y ∷ remove x ys

unfoldable pub remove_block : Text → Text → World → World
unfolding remove
remove_block store_id block_id w = record w {
  blocks = λ s. if str_eq store_id s then remove block_id (w.blocks s) else w.blocks s;
}

unfoldable pub remove_store : Text → World → World
remove_store store_id w = record w { blocks = λ s. if str_eq store_id s then [] else w.blocks s }

-- A new GCData: g_new0 and the fields that are set.
abbrev pub new_gc_data : Bloom → GcData
new_gc_data index = record {
  index = index;
  visited = [];
  traversed_head = false;
  traversed_commits = 0;
  traversed_blocks = 0;
  traversed_fs_objs = 0;
}

-- `rounds` and `depth` are the fuel of the two traversals.
module _ (env : Env) (rounds depth : ℕ) where
  abbrev pub set_repo_valid_since : Text → ℤ → World → World
  set_repo_valid_since id time w = record w { valid_since = (id, time) ∷ w.valid_since }

  unfoldable pub update_valid_since : SeafRepo → World → World
  update_valid_since repo w =
      let truncate_time = env.truncate_time repo.id in
      if int_ltb (pos 0) truncate_time
      then set_repo_valid_since repo.id truncate_time w
      else if int_is_zero truncate_time
      then elim (env.commits repo.id repo.head_commit) [
        | none ↦ w
        | some head ↦ set_repo_valid_since repo.id (to_gint64 head.ctime) w
      ]
      else w

  -- The loop over the branches.
  unfoldable pub traverse_branches : SeafRepo → List Text → Exec GcData Unit
  traverse_branches repo [] gc = (ok tt, gc)
  traverse_branches repo (head ∷ heads) gc =
      let r =
        traverse_commit_tree env.g_list_insert_sorted (env.commits repo.id)
          (traverse_commit env.sha_int (env.fs repo.store_id) (env.truncate_time repo.id) depth
            repo.version)
          false rounds head gc in
      resume (λ _. traverse_branches repo heads) r.0 r.1

  abbrev pub Index : Type 0
  Index = Bloom × World

  abbrev pub count_reachable : Outcome (Unit {0}) × GcData → World → Outcome (Unit {0}) × Index
  count_reachable r w = (
    r.0,
    (
      r.1.index,
      record w { reachable_blocks = (w.reachable_blocks + r.1.traversed_blocks) % 2 ^ 64 },
    ),
  )

  unfoldable pub populate_gc_index_for_repo : SeafRepo → Exec Index Unit
  unfolding traverse_branches update_valid_since
  populate_gc_index_for_repo repo (index, w) = elim (env.branches repo.id) [
    | [] ↦ (failed, (index, w))
    | head ∷ heads ↦
        count_reachable (traverse_branches repo (head ∷ heads) (new_gc_data index))
          (update_valid_since repo w)
  ]

  -- The loop over the ids of the virtual repositories.
  unfoldable pub populate_virtual : List Text → Exec Index Unit
  unfolding populate_gc_index_for_repo
  populate_virtual [] s = (ok tt, s)
  populate_virtual (id ∷ ids) s = elim (env.get_repo id) [
    | none ↦ (failed, s)
    | some vrepo ↦
        let r = populate_gc_index_for_repo vrepo s in resume (λ _. populate_virtual ids) r.0 r.1
  ]

  unfoldable pub populate_gc_index_for_virtual_repos : SeafRepo → Exec Index Unit
  unfolding populate_virtual
  populate_gc_index_for_virtual_repos repo = populate_virtual (env.virtual_repos repo.id)

  unfoldable pub check_block_liveness : Bloom → Bool → Text → Text → World → World
  unfolding remove_block
  check_block_liveness index dry_run store_id block_id w =
      let counted = record w { removed_blocks = (w.removed_blocks + 1) % 2 ^ 64 } in
      if bloom_test env.sha_int index block_id
      then w
      else if not dry_run
      then remove_block store_id block_id counted
      else counted

  unfoldable pub check_blocks : Bloom → Bool → Text → List Text → World → World
  unfolding check_block_liveness
  check_blocks index dry_run store_id [] w = w
  check_blocks index dry_run store_id (b ∷ bs) w =
      check_blocks index dry_run store_id bs (check_block_liveness index dry_run store_id b w)

  -- `seaf_block_manager_foreach_block` and what follows it.
  unfoldable pub clean_blocks : SeafRepo → Bool → Index → Outcome ℤ × World
  unfolding check_blocks
  clean_blocks repo dry_run (index, w) =
      let visit = env.scan repo.store_id (w.blocks repo.store_id) in
      let w' = check_blocks index dry_run repo.store_id visit.0 w in
      if visit.1 then (ok (to_gint (w'.removed_blocks % 2 ^ 32)), w') else (failed, w')

  -- The index after both populations, or the failure of one of them.
  unfoldable pub populate : SeafRepo → Exec Index Unit
  unfolding populate_gc_index_for_repo populate_gc_index_for_virtual_repos
  populate repo s =
      let r = populate_gc_index_for_repo repo s in
      resume (λ _. populate_gc_index_for_virtual_repos repo) r.0 r.1

  unfoldable pub after_populate : SeafRepo → Bool → Outcome (Unit {0}) × Index → Outcome ℤ × World
  unfolding clean_blocks
  after_populate repo dry_run (ok a, s) = clean_blocks repo dry_run s
  after_populate repo dry_run (failed, s) = (failed, s.1)
  after_populate repo dry_run (out_of_fuel, s) = (out_of_fuel, s.1)

  abbrev pub reset_counts : SeafRepo → World → World
  reset_counts repo w = record w {
    total_blocks = length (w.blocks repo.store_id);
    removed_blocks = 0;
    reachable_blocks = 0;
  }

  unfoldable pub gc_v1_repo : SeafRepo → Bool → World → Outcome ℤ × World
  unfolding populate after_populate
  gc_v1_repo repo dry_run w₀ =
      let w = reset_counts repo w₀ in
      if w.total_blocks == 0
      then (ok (pos 0), w)
      else elim (alloc_gc_index env.memory w.total_blocks) [
        | none ↦ (failed, w)
        | some index ↦ after_populate repo dry_run (populate repo (index, w))
      ]

  -- The loop over the garbage repositories.
  unfoldable pub delete_each : Bool → List Text → World → World
  unfolding remove_store remove
  delete_each dry_run [] w = w
  delete_each dry_run (id ∷ ids) w =
      let w₁ =
        if not (env.repo_exists id) && not dry_run
        then remove_store id
            (record w { removed_commits = id ∷ w.removed_commits; removed_fs = id ∷ w.removed_fs })
        else w in
      let w₂ = if not dry_run then record w₁ { garbage = remove id w₁.garbage } else w₁ in
      delete_each dry_run ids w₂

  unfoldable pub delete_garbaged_repos : Bool → World → World
  unfolding delete_each
  delete_garbaged_repos dry_run w = delete_each dry_run w.garbage w

  -- The lists that a run prints, latest first.
  pub record Report : Type 0 where
    pub corrupt_repos : List Text
    pub del_block_repos : List Text

  abbrev pub is_negative : ℤ → Bool
  is_negative (pos n) = false
  is_negative (negsuc n) = true

  -- A value below 0 counts as a failure.
  unfoldable pub note_result : Bool → SeafRepo → Outcome ℤ → Report → Report
  note_result dry_run repo (ok n) rep =
      if is_negative n
      then record rep { corrupt_repos = repo.id ∷ rep.corrupt_repos }
      else if dry_run && not (int_is_zero n)
      then record rep { del_block_repos = repo.id ∷ rep.del_block_repos }
      else rep
  note_result dry_run repo failed rep = record rep { corrupt_repos = repo.id ∷ rep.corrupt_repos }
  note_result dry_run repo out_of_fuel rep = rep

  unfoldable pub run_repo : Bool → Text → Report × World → Report × World
  unfolding gc_v1_repo note_result
  run_repo dry_run id (rep, w) = elim (env.get_repo_ex id) [
    | none ↦ (rep, w)
    | some repo ↦
        let r = gc_v1_repo repo dry_run w in
        if repo.is_corrupted
        then (record rep { corrupt_repos = repo.id ∷ rep.corrupt_repos }, w)
        else if not repo.is_virtual
        then (note_result dry_run repo r.0 rep, r.1)
        else (rep, w)
  ]

  unfoldable pub run_repos : Bool → List Text → Report × World → Report × World
  unfolding run_repo
  run_repos dry_run [] s = s
  run_repos dry_run (id ∷ ids) s = run_repos dry_run ids (run_repo dry_run id s)

  -- `all_repos` is the list of the repository manager, which stands in for a call with NULL, the
  -- empty list.
  unfoldable pub gc_core_run : List Text → List Text → Bool → World → Report × World
  unfolding run_repos delete_garbaged_repos
  gc_core_run all_repos [] dry_run w =
      let r =
        run_repos dry_run all_repos (record { corrupt_repos = []; del_block_repos = [] }, w) in
      (r.0, delete_garbaged_repos dry_run r.1)
  gc_core_run all_repos (id ∷ ids) dry_run w =
      run_repos dry_run (id ∷ ids) (record { corrupt_repos = []; del_block_repos = [] }, w)
