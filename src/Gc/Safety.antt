-- ===== src/Gc/Safety.antt =====
-- server/gc/gc-core.c: the parts of a run: one branch fills the index, the scan keeps what it has.
use mathlib.Core.Path.{subst}
use seafile_server_learn.Prelude.{
  ℕ, ◌≡◌, Bool, true, false, some, List, [], ◌∷◌, In, here, there, if◌then◌else◌, arith, Bool-cases,
  inl, inr, ◌⊎◌,
}
use seafile_server_learn.Prelude.Text.{Text, str_eq, str_eq_iff}
use seafile_server_learn.Prelude.Int.{pos}
use seafile_server_learn.Prelude.Exec.{Outcome, ok, failed, out_of_fuel}
use seafile_server_learn.Bloom.Filter.{Bloom, bloom_test}
use seafile_server_learn.Bloom.Members.{IsFilter, bloom_create-IsFilter}
use seafile_server_learn.Commit.Object.{SeafCommit}
use seafile_server_learn.Commit.Traverse.{traverse_commit_tree}
use seafile_server_learn.Commit.Traverse.Ends.{Inserts}
use seafile_server_learn.Commit.Traverse.Reached.{Reached, Covered, traverse_commit_tree-Covered}
use seafile_server_learn.Gc.Index.{GcData, alloc_gc_index, gc_index_size, traverse_commit}
use seafile_server_learn.Gc.Live.{IsTyped, Yields}
use seafile_server_learn.Gc.Blocks.{
  cut_off, LiveBlock, Kept, Seen, traverse_commit-calls, live_block-indexed,
}
use seafile_server_learn.Gc.Run.{
  SeafRepo, Env, World, remove, remove_block, check_block_liveness, check_blocks, clean_blocks,
}

pub alloc_gc_index-IsFilter :
    (memory : ℕ → Bool) (n : ℕ) (index : Bloom)
    → alloc_gc_index memory n ≡ some index
    → IsFilter index
unfolding alloc_gc_index gc_index_size
alloc_gc_index-IsFilter memory n index h =
    bloom_create-IsFilter memory (gc_index_size n) (pos 3) 0 index h (ground arith) (ground arith)

In-remove : (x b : Text) (l : List Text) → str_eq x b ≡ false → In b l → In b (remove x l)
unfolding remove
In-remove x b [] ne m = m
In-remove x b (y ∷ ys) ne (here e) = rw (subst (λ z. str_eq x z ≡ false) e ne) (here e)
In-remove x b (y ∷ ys) ne (there m) =
    elim (str_eq x y) as (λ t. In b (if t then remove x ys else y ∷ remove x ys)) [
      | true ↦ In-remove x b ys ne m
      | false ↦ there (In-remove x b ys ne m)
    ]

-- A live block of a repository: of one of its branches.
pub record LiveIn (env : Env) (repo : SeafRepo) (b : Text) : Type 0 where
  pub head : Text
  pub is_branch : In head (env.branches repo.id)
  pub live :
      LiveBlock
        (env.commits repo.id)
        (env.fs repo.store_id)
        repo.version
        (env.truncate_time repo.id)
        head
        b

-- Or of a virtual repository, which keeps its blocks in the store of the origin.
pub record LiveInVirtual (env : Env) (repo : SeafRepo) (b : Text) : Type 0 where
  pub virtual_id : Text
  pub virtual_repo : SeafRepo
  pub is_listed : In virtual_id (env.virtual_repos repo.id)
  pub has_repo : env.get_repo virtual_id ≡ some virtual_repo
  pub live_in : LiveIn env virtual_repo b

-- What the parameters are assumed to do: the sorted insertion inserts, a commit is stored under its
-- own id, and no id names both a directory and a file.
pub record IsSane (env : Env) : Type 0 where
  pub inserts : Inserts env.g_list_insert_sorted
  pub own_id :
      (repo_id id : Text) (c : SeafCommit) → env.commits repo_id id ≡ some c → c.commit_id ≡ id
  pub typed : (store_id : Text) (version : ℕ) → IsTyped (env.fs store_id) version

module _ (env : Env) (rounds depth : ℕ) where
  check_block_liveness-keeps :
      (index : Bloom) (dry_run : Bool) (store_id x b s : Text) (w : World)
      → bloom_test env.sha_int index b ≡ true
      → In b (w.blocks s)
      → In b ((check_block_liveness env rounds depth index dry_run store_id x w).blocks s)
  unfolding check_block_liveness remove_block
  check_block_liveness-keeps index dry_run store_id x b s w test m =
      by_cases (Bool-cases (bloom_test env.sha_int index x)) (Bool-cases dry_run)
        (Bool-cases (str_eq store_id s)) (Bool-cases (str_eq x b))
    where
      by_cases :
          ((bloom_test env.sha_int index x ≡ true) ⊎ (bloom_test env.sha_int index x ≡ false))
          → ((dry_run ≡ true) ⊎ (dry_run ≡ false))
          → ((str_eq store_id s ≡ true) ⊎ (str_eq store_id s ≡ false))
          → ((str_eq x b ≡ true) ⊎ (str_eq x b ≡ false))
          → In b ((check_block_liveness env rounds depth index dry_run store_id x w).blocks s)
      by_cases (inl found) d e same = rw found m
      by_cases (inr dead) (inl dry) e same = rw (dead, dry) m
      by_cases (inr dead) (inr wet) (inr other) same = rw (dead, wet, other) m
      by_cases (inr dead) (inr wet) (inl this) (inr ne) =
          rw (dead, wet, this) (In-remove x b (w.blocks s) ne m)
      by_cases (inr dead) (inr wet) (inl this) (inl same) =
          let eq = (str_eq_iff x b).0 same in absurd (cc (eq, dead, test))

  check_blocks-keeps :
      (index : Bloom) (dry_run : Bool) (store_id : Text) (bs : List Text) (b s : Text) (w : World)
      → bloom_test env.sha_int index b ≡ true
      → In b (w.blocks s)
      → In b ((check_blocks env rounds depth index dry_run store_id bs w).blocks s)
  unfolding check_blocks
  check_blocks-keeps index dry_run store_id [] b s w test m = m
  check_blocks-keeps index dry_run store_id (x ∷ bs) b s w test m =
      check_blocks-keeps index dry_run store_id bs b s _ test
        (check_block_liveness-keeps index dry_run store_id x b s w test m)

  pub clean_blocks-keeps :
      (repo : SeafRepo) (dry_run : Bool) (index : Bloom) (b s : Text) (w : World)
      → bloom_test env.sha_int index b ≡ true
      → In b (w.blocks s)
      → In b ((clean_blocks env rounds depth repo dry_run (index, w)).1.blocks s)
  unfolding clean_blocks
  clean_blocks-keeps repo dry_run index b s w test m =
      let kept =
        check_blocks-keeps index dry_run repo.store_id
          ((env.scan repo.store_id (w.blocks repo.store_id)).0) b s w test m in
      elim (Bool-cases (env.scan repo.store_id (w.blocks repo.store_id)).1) [
        | inl done ↦ rw done kept
        | inr broken ↦ rw broken kept
      ]

  module _ (sane : IsSane env) where
    -- After the branches `heads` of a repository, the index has their live blocks.
    pub record HeadsIndexed (repo : SeafRepo) (heads : List Text) (old new : GcData) : Type 0 where
      pub kept : Kept env.sha_int (env.fs repo.store_id) repo.version old.index new
      pub indexed :
          (head b : Text)
          → In head heads
          → LiveBlock
              (env.commits repo.id)
              (env.fs repo.store_id)
              repo.version
              (env.truncate_time repo.id)
              head
              b
          → bloom_test env.sha_int new.index b ≡ true

    pub one_branch :
        (repo : SeafRepo) (head : Text) (gc : GcData)
        → Kept env.sha_int (env.fs repo.store_id) repo.version gc.index gc
        → Yields env.sha_int
            (env.fs repo.store_id)
            repo.version
            (HeadsIndexed repo (head ∷ []) gc)
            (traverse_commit_tree env.g_list_insert_sorted
              (env.commits repo.id)
              (traverse_commit env.sha_int
                (env.fs repo.store_id)
                (env.truncate_time repo.id)
                depth
                repo.version)
              false
              rounds
              head
              gc)
    unfolding Seen
    one_branch repo head gc kept = read _ (
        traverse_commit_tree-Covered env.g_list_insert_sorted (env.commits repo.id) sane.inserts
          (sane.own_id repo.id)
          (traverse_commit env.sha_int (env.fs repo.store_id) (env.truncate_time repo.id) depth
            repo.version)
          (Kept env.sha_int (env.fs repo.store_id) repo.version gc.index)
          (Seen env.sha_int (env.fs repo.store_id) repo.version gc.index)
          (cut_off (env.truncate_time repo.id))
          (traverse_commit-calls env.sha_int (env.fs repo.store_id) repo.version gc.index
            (env.truncate_time repo.id) depth)
          rounds head gc kept)
      where
        indexed_at :
            (new : GcData)
            → Kept env.sha_int (env.fs repo.store_id) repo.version gc.index new
            → ((id : Text)
                → Reached (env.commits repo.id) (cut_off (env.truncate_time repo.id)) head id
                → (c : SeafCommit) × (env.commits repo.id id ≡ some c)
                  × Seen env.sha_int (env.fs repo.store_id) repo.version gc.index new c)
            → (h b : Text) → In h (head ∷ [])
            → LiveBlock
                (env.commits repo.id)
                (env.fs repo.store_id)
                repo.version
                (env.truncate_time repo.id)
                h
                b
            → bloom_test env.sha_int new.index b ≡ true
        indexed_at new k all h b (there m) live = elim m [ ]
        indexed_at new k all h b (here e) live =
            let reached =
              subst
                (λ h.
                  Reached (env.commits repo.id) (cut_off (env.truncate_time repo.id)) h
                    live.commit_id)
                e live.is_reached in
            let (c, found, seen) = all live.commit_id reached in
            let has = live.has_commit in
            let same : c ≡ live.commit = cc (found, has) in
            live_block-indexed env.sha_int (env.fs repo.store_id) repo.version gc.index
              (sane.typed repo.store_id repo.version) new live.commit.root_id live.dir_id b live.dir
              live.dent live.file k
              (subst (Seen env.sha_int (env.fs repo.store_id) repo.version gc.index new) same seen)
              live.below_root live.has_dir live.has_dent live.regular live.has_file live.has_block

        read :
            (r : Outcome (Unit {0}) × GcData)
            → Covered env.g_list_insert_sorted
                (env.commits repo.id)
                sane.inserts
                (sane.own_id repo.id)
                (traverse_commit env.sha_int
                  (env.fs repo.store_id)
                  (env.truncate_time repo.id)
                  depth
                  repo.version)
                (Kept env.sha_int (env.fs repo.store_id) repo.version gc.index)
                (Seen env.sha_int (env.fs repo.store_id) repo.version gc.index)
                (cut_off (env.truncate_time repo.id))
                (traverse_commit-calls env.sha_int
                  (env.fs repo.store_id)
                  repo.version
                  gc.index
                  (env.truncate_time repo.id)
                  depth)
                head
                r
            → Yields env.sha_int
                (env.fs repo.store_id)
                repo.version
                (HeadsIndexed repo (head ∷ []) gc)
                r
        read (ok a, new) (k, all) = record { kept = k; indexed = indexed_at new k all }
        read (failed, new) h = tt
        read (out_of_fuel, new) h = tt
