-- ===== src/Gc/Live.antt =====
-- server/gc/gc-core.c: what a traversal that succeeds has put into the index.
use seafile_server_learn.Prelude.{ℕ, ◌≡◌, true, false, some, In, inl, inr, ◌⊎◌}
use seafile_server_learn.Prelude.Text.{Text}
use seafile_server_learn.Prelude.Exec.{Outcome, ok, failed, out_of_fuel, Exec, resume}
use seafile_server_learn.Bloom.Filter.{bloom_test}
use seafile_server_learn.Bloom.Members.{IsFilter, Grows, Grows-refl, Grows-trans, bloom_test-Grows}
use seafile_server_learn.Fs.Object.{SeafDirent, SeafDir, Seafile, is_file, is_dir}
use seafile_server_learn.Fs.Store.{FsStore, get_seafdir, get_seafile, empty_sha1}
use seafile_server_learn.Fs.Traverse.{unless_skipped}
use seafile_server_learn.Gc.Index.{GcData}

-- No id names both a directory and a file: an id is the SHA-1 of the object, which says its type.
pub record IsTyped (fs : FsStore) (version : ℕ) : Type 0 where
  pub apart :
      (id : Text) (dir : SeafDir) (file : Seafile)
      → get_seafdir fs version id ≡ some dir
      → get_seafile fs id ≡ some file
      → id ≡ empty_sha1

module _ (sha_int : Text → ℕ → ℕ) (fs : FsStore) (version : ℕ) where
  -- The entry's object has been visited, or is the empty file.
  pub record Visited (gc : GcData) (d : SeafDirent) : Type 0 where
    pub as_file : is_file d ≡ true → (d.id ≡ empty_sha1) ⊎ In d.id gc.visited
    pub as_dir : is_dir d ≡ true → In d.id gc.visited

  -- A file whose blocks the index has, or a directory whose entries were visited.
  abbrev pub FileIndexed : GcData → Text → Type 0
  FileIndexed gc id =
      (file : Seafile) × (get_seafile fs id ≡ some file)
      × ((b : Text) → In b file.blk_sha1s → bloom_test sha_int gc.index b ≡ true)

  abbrev pub DirVisited : GcData → Text → Type 0
  DirVisited gc id =
      (dir : SeafDir) × (get_seafdir fs version id ≡ some dir)
      × ((d : SeafDirent) → In d dir.entries → Visited gc d)

  abbrev pub Covers : GcData → Text → Type 0
  Covers gc id = FileIndexed gc id ⊎ DirVisited gc id

  -- What a step that succeeds does: every object that it visited is covered.
  pub record Step (old new : GcData) : Type 0 where
    pub filter : IsFilter new.index
    pub grows : Grows old.index new.index
    pub visited_kept : (id : Text) → In id old.visited → In id new.visited
    pub covered : (id : Text) → In id new.visited → In id old.visited ⊎ Covers new id

  pub Visited-mono :
      (a b : GcData) (d : SeafDirent)
      → ((id : Text) → In id a.visited → In id b.visited)
      → Visited a d
      → Visited b d
  Visited-mono a b d h v = record {
    as_file = λ e. elim (v.as_file e) [ inl z ↦ inl z | inr m ↦ inr (h d.id m) ];
    as_dir = λ e. h d.id (v.as_dir e);
  }

  pub Covers-mono :
      (a b : GcData) (id : Text)
      → Grows a.index b.index
      → ((id : Text) → In id a.visited → In id b.visited)
      → Covers a id
      → Covers b id
  Covers-mono a b id g h (inl (file, found, tests)) =
      inl (file, found, λ x m. bloom_test-Grows sha_int x a.index b.index g (tests x m))
  Covers-mono a b id g h (inr (dir, found, below)) =
      inr (dir, found, λ d m. Visited-mono a b d h (below d m))

  pub Step-refl : (gc : GcData) → IsFilter gc.index → Step gc gc
  Step-refl gc w = record {
    filter = w;
    grows = Grows-refl gc.index;
    visited_kept = λ id m. m;
    covered = λ id m. inl m;
  }

  pub Step-trans : (a b c : GcData) → Step a b → Step b c → Step a c
  Step-trans a b c g h = record {
    filter = h.filter;
    grows = Grows-trans a.index b.index c.index g.grows h.grows;
    visited_kept = λ id m. h.visited_kept id (g.visited_kept id m);
    covered = λ id m. elim (h.covered id m) [
      | inl mid ↦ elim (g.covered id mid) [
        | inl old ↦ inl old
        | inr k ↦ inr (Covers-mono b c id h.grows h.visited_kept k)
      ]
      | inr k ↦ inr k
    ];
  }

  -- What holds of the new state where the result is 0.
  abbrev pub Yields : (GcData → Type 0) → Outcome (Unit {0}) × GcData → Type 0
  Yields P (ok a, gc) = P gc
  Yields P (failed, gc) = Unit {0}
  Yields P (out_of_fuel, gc) = Unit {0}

  pub Yields-resume :
      (P Q : GcData → Type 0) (r : Outcome (Unit {0}) × GcData)
      (k : Unit {0} → Exec GcData (Unit {0}))
      → Yields P r
      → ((gc : GcData) → P gc → Yields Q (k tt gc))
      → Yields Q (resume k r.0 r.1)
  Yields-resume P Q (ok tt, gc) k h more = more gc h
  Yields-resume P Q (failed, gc) k h more = tt
  Yields-resume P Q (out_of_fuel, gc) k h more = tt

  pub Yields-map :
      (P Q : GcData → Type 0) (r : Outcome (Unit {0}) × GcData)
      → Yields P r
      → ((gc : GcData) → P gc → Q gc)
      → Yields Q r
  Yields-map P Q (ok tt, gc) h more = more gc h
  Yields-map P Q (failed, gc) h more = tt
  Yields-map P Q (out_of_fuel, gc) h more = tt

  pub Yields-unless_skipped :
      (P : GcData → Type 0) (r : Outcome (Unit {0}) × GcData)
      → Yields P r
      → Yields P (unless_skipped false r)
  unfolding unless_skipped
  Yields-unless_skipped P (ok a, gc) h = h
  Yields-unless_skipped P (failed, gc) h = tt
  Yields-unless_skipped P (out_of_fuel, gc) h = tt
