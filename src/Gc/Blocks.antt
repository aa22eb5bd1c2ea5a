-- ===== src/Gc/Blocks.antt =====
-- server/gc/gc-core.c: which blocks the traversal of a branch puts into the index.
use mathlib.Core.Path.{subst}
use seafile_server_learn.Prelude.{
  ℕ, ◌≡◌, refl, sym, Bool, true, false, ◌&&◌, some, [], In, if◌then◌else◌, arith, inl, inr, ◌⊎◌,
}
use seafile_server_learn.Prelude.Text.{Text, str_eq, str_eq_refl}
use seafile_server_learn.Prelude.Int.{ℤ, pos}
use seafile_server_learn.Prelude.Exec.{Outcome, ok, failed, out_of_fuel}
use seafile_server_learn.Bloom.Filter.{Bloom, bloom_test}
use seafile_server_learn.Bloom.Members.{IsFilter, Grows, Grows-trans}
use seafile_server_learn.Fs.Object.{SeafDirent, SeafDir, Seafile, is_file, is_dir}
use seafile_server_learn.Fs.Store.{FsStore, get_seafdir, get_seafile, empty_sha1}
use seafile_server_learn.Fs.Traverse.{traverse_tree}
use seafile_server_learn.Commit.Object.{SeafCommit, CommitStore}
use seafile_server_learn.Commit.Traverse.Reached.{Reached}
use seafile_server_learn.Gc.Index.{
  GcData, fs_callback, stops_at, started, tree_result, traverse_commit, to_gint64, int_ltb,
  int_is_zero,
}
use seafile_server_learn.Gc.Live.{IsTyped, Visited, Covers, Covers-mono, Step, Yields}
use seafile_server_learn.Gc.Tree.{TreeDone, traverse_tree-Yields}

-- The history ends at this commit: only the head is kept, or the commit is older than the time.
unfoldable pub cut_off : ℤ → SeafCommit → Bool
cut_off truncate_time c =
    if int_is_zero truncate_time
    then true
    else int_ltb (pos 0) truncate_time && int_ltb (to_gint64 c.ctime) truncate_time

-- The directories below a root.
pub data LiveDir (fs : FsStore) (version : ℕ) (root : Text) : Text → Type 0 where
  root_dir : LiveDir fs version root root
  sub_dir :
      {id : Text} {dir : SeafDir} {d : SeafDirent}
      → LiveDir fs version root id
      → get_seafdir fs version id ≡ some dir
      → In d dir.entries
      → is_dir d ≡ true
      → LiveDir fs version root d.id

-- A block of a file of a kept commit below the head.
pub record LiveBlock (commits : CommitStore) (fs : FsStore) (version : ℕ) (truncate_time : ℤ)
    (head b : Text) : Type 0 where
  pub commit_id : Text
  pub commit : SeafCommit
  pub dir_id : Text
  pub dir : SeafDir
  pub dent : SeafDirent
  pub file : Seafile
  pub is_reached : Reached commits (cut_off truncate_time) head commit_id
  pub has_commit : commits commit_id ≡ some commit
  pub below_root : LiveDir fs version commit.root_id dir_id
  pub has_dir : get_seafdir fs version dir_id ≡ some dir
  pub has_dent : In dent dir.entries
  pub regular : is_file dent ≡ true
  pub has_file : get_seafile fs dent.id ≡ some file
  pub has_block : In b file.blk_sha1s

module _ (sha_int : Text → ℕ → ℕ) (fs : FsStore) (version : ℕ) (index₀ : Bloom) where
  -- The index is sound for the objects visited, and has grown from the one at the start.
  pub record Kept (gc : GcData) : Type 0 where
    pub filter : IsFilter gc.index
    pub grows : Grows index₀ gc.index
    pub covers : (id : Text) → In id gc.visited → Covers sha_int fs version gc id

  unfoldable pub Seen : GcData → SeafCommit → Type 0
  Seen gc c = (c.root_id ≡ empty_sha1) ⊎ In c.root_id gc.visited

  Step-Kept : (a b : GcData) → Kept a → Step sha_int fs version a b → Kept b
  Step-Kept a b k step = record {
    filter = step.filter;
    grows = Grows-trans index₀ a.index b.index k.grows step.grows;
    covers = λ id m. elim (step.covered id m) [
      | inl old ↦
          Covers-mono sha_int fs version a b id step.grows step.visited_kept (k.covers id old)
      | inr h ↦ h
    ];
  }

  stops_at-cut :
      (t : ℤ) (c : SeafCommit) (gc : GcData)
      → stops_at sha_int fs t c gc ≡ true
      → cut_off t c ≡ true
  unfolding stops_at cut_off
  stops_at-cut t c gc h = ground arith

  pub traverse_commit-calls :
      (t : ℤ) (depth : ℕ) (c : SeafCommit) (gc : GcData)
      → Kept gc
      → (traverse_commit sha_int fs t depth version c gc).result ≡ true
      → Kept (traverse_commit sha_int fs t depth version c gc).data'
        × Seen (traverse_commit sha_int fs t depth version c gc).data' c
        × ((d : SeafCommit)
            → Seen gc d
            → Seen (traverse_commit sha_int fs t depth version c gc).data' d)
        × ((traverse_commit sha_int fs t depth version c gc).stop ≡ true → cut_off t c ≡ true)
  unfolding traverse_commit tree_result TreeDone Seen
  traverse_commit-calls t depth c gc kept good =
      let begun = started sha_int fs t gc in
      let r = traverse_tree fs version (fs_callback sha_int fs) false depth c.root_id begun in
      let (k, seen, old) =
        finish r (traverse_tree-Yields sha_int fs version depth c.root_id begun kept.filter) good in
      (k, seen, old, stops_at-cut t c gc)
    where
      finish :
          (r : Outcome (Unit {0}) × GcData)
          → Yields sha_int fs version
              (TreeDone sha_int fs version (started sha_int fs t gc) c.root_id)
              r
          → tree_result sha_int fs t r.0 ≡ true
          → Kept r.1 × Seen r.1 c × ((d : SeafCommit) → Seen gc d → Seen r.1 d)
      finish (failed, new) h good = absurd (ground arith)
      finish (out_of_fuel, new) h good = absurd (ground arith)
      finish (ok a, new) (step, m) good = (
        Step-Kept (started sha_int fs t gc) new (begun_kept kept) step,
        m,
        λ d seen. still d seen step,
      )
        where
          begun_kept : Kept gc → Kept (started sha_int fs t gc)
          begun_kept k = record {
            filter = k.filter;
            grows = k.grows;
            covers = λ id m.
                Covers-mono sha_int fs version gc (started sha_int fs t gc) id
                  (record { asize_kept = refl; k_kept = refl; bits_kept = λ n h. h }) (λ x m. m)
                  (k.covers id m);
          }

          still :
              (d : SeafCommit)
              → Seen gc d
              → Step sha_int fs version (started sha_int fs t gc) new
              → Seen new d
          still d (inl e) step = inl e
          still d (inr m) step = inr (step.visited_kept d.root_id m)

  no_entries :
      (id : Text) (dir : SeafDir) (d : SeafDirent)
      → id ≡ empty_sha1
      → get_seafdir fs version id ≡ some dir
      → In d dir.entries
      → ⊥
  unfolding get_seafdir
  no_entries id dir d e found m =
      let same = str_eq_refl empty_sha1 in
      let here' : str_eq id empty_sha1 ≡ true =
        subst (λ x. str_eq x empty_sha1 ≡ true) (sym e) same in
      let none' : dir.entries ≡ [] = ground arith in not_in (subst (In d) none' m)
    where
      not_in : In d [] → ⊥
      not_in m = elim m [ ]

  module _ (typed : IsTyped fs version) where
    -- Every entry of a directory that was visited was visited.
    entries_visited :
        (gc : GcData) (id : Text) (dir : SeafDir) (d : SeafDirent)
        → Kept gc
        → (id ≡ empty_sha1) ⊎ In id gc.visited
        → get_seafdir fs version id ≡ some dir
        → In d dir.entries
        → Visited sha_int fs version gc d
    entries_visited gc id dir d kept (inl e) found m = absurd (no_entries id dir d e found m)
    entries_visited gc id dir d kept (inr v) found m = by_kind (kept.covers id v)
      where
        by_kind : Covers sha_int fs version gc id → Visited sha_int fs version gc d
        by_kind (inl (file, read, tests)) =
            absurd (no_entries id dir d (typed.apart id dir file found read) found m)
        by_kind (inr (dir', read, seen)) =
            let same : dir' ≡ dir = cc in seen d (subst (λ x. In d x.entries) (sym same) m)

    marked_below :
        (gc : GcData) (root id : Text)
        → Kept gc
        → (root ≡ empty_sha1) ⊎ In root gc.visited
        → LiveDir fs version root id
        → (id ≡ empty_sha1) ⊎ In id gc.visited
    marked_below gc root id kept start root_dir = start
    marked_below gc root id kept start
          (sub_dir {id = above} {dir = dir} {d = d} live found m folder) =
        let v =
          entries_visited gc above dir d kept (marked_below gc root above kept start live) found
            m in
        inr (v.as_dir folder)

    pub live_block-indexed :
        (gc : GcData) (root id b : Text) (dir : SeafDir) (d : SeafDirent) (file : Seafile)
        → Kept gc
        → (root ≡ empty_sha1) ⊎ In root gc.visited
        → LiveDir fs version root id
        → get_seafdir fs version id ≡ some dir
        → In d dir.entries
        → is_file d ≡ true
        → get_seafile fs d.id ≡ some file
        → In b file.blk_sha1s
        → bloom_test sha_int gc.index b ≡ true
    unfolding get_seafile
    live_block-indexed gc root id b dir d file kept start live found m reg read block =
        let v =
          entries_visited gc id dir d kept (marked_below gc root id kept start live) found m in
        by_visit (v.as_file reg)
      where
        no_blocks : d.id ≡ empty_sha1 → ⊥
        no_blocks e =
            let same = str_eq_refl empty_sha1 in
            let here' : str_eq d.id empty_sha1 ≡ true =
              subst (λ x. str_eq x empty_sha1 ≡ true) (sym e) same in
            let none' : file.blk_sha1s ≡ [] = ground arith in not_in (subst (In b) none' block)
          where
            not_in : In b [] → ⊥
            not_in m = elim m [ ]

        by_kind : Covers sha_int fs version gc d.id → bloom_test sha_int gc.index b ≡ true
        by_kind (inl (file', read', tests)) =
            let same : file' ≡ file = cc in tests b (subst (λ x. In b x.blk_sha1s) (sym same) block)
        by_kind (inr (dir', read', seen)) =
            absurd (no_blocks (typed.apart d.id dir' file read' read))

        by_visit : ((d.id ≡ empty_sha1) ⊎ In d.id gc.visited) → bloom_test sha_int gc.index b ≡ true
        by_visit (inl e) = absurd (no_blocks e)
        by_visit (inr m) = by_kind (kept.covers d.id m)
