-- ===== src/Fs/Traverse/Ends.antt =====
-- common/fs-mgr.c: the traversal of a directory tree ends, whatever the callback does.
use seafile_server_learn.Prelude.{
  ℕ, zero, suc, ◌≡◌, ◌≢◌, Bool, true, false, none, some, List, [], ◌∷◌, All, if◌then◌else◌, arith,
  refl, Option-cases, inl, inr,
}
use seafile_server_learn.Prelude.Text.{Text}
use seafile_server_learn.Prelude.Exec.{Outcome, ok, failed, out_of_fuel, Exec, resume}
use seafile_server_learn.Fs.Object.{SeafDirent, SeafDir, s_isreg, s_isdir, is_dir}
use seafile_server_learn.Fs.Store.{FsStore, get_seafdir}
use seafile_server_learn.Fs.Traverse.{
  Callback, Called, unless_skipped, traverse_file, traverse_dent, traverse_entries, after_callback,
  traverse_dir, traverse_tree,
}

-- The directories that can be read below this one nest less than `depth` deep.
abbrev pub IsBounded : ℕ → ℕ → FsStore → Text → Type 0
IsBounded zero version fs id = ⊥
IsBounded (suc depth) version fs id =
    (dir : SeafDir)
    → get_seafdir fs version id ≡ some dir
    → All (λ d. is_dir d ≡ true → IsBounded depth version fs d.id) dir.entries

module _ {S : Type 0} where
  Ended : Outcome (Unit {0}) × S → Type 0
  Ended r = r.0 ≢ out_of_fuel

  Ended-unless_skipped :
      (skip : Bool) (r : Outcome (Unit {0}) × S) → Ended r → Ended (unless_skipped skip r)
  unfolding Ended unless_skipped
  Ended-unless_skipped true (ok a, s) h = λ e. cc
  Ended-unless_skipped false (ok a, s) h = λ e. cc
  Ended-unless_skipped true (failed, s) h = λ e. cc
  Ended-unless_skipped false (failed, s) h = λ e. cc
  Ended-unless_skipped true (out_of_fuel, s) h = h
  Ended-unless_skipped false (out_of_fuel, s) h = h

  Ended-resume :
      (r : Outcome (Unit {0}) × S) (k : Unit {0} → Exec S Unit)
      → Ended r
      → ((s : S) → Ended (k tt s))
      → Ended (resume k r.0 r.1)
  unfolding Ended
  Ended-resume (ok tt, s) k h more = more s
  Ended-resume (failed, s) k h more = h
  Ended-resume (out_of_fuel, s) k h more = h

module _ {S : Type 0} (fs : FsStore) (version : ℕ) (callback : Callback S) (skip : Bool) where
  traverse_file-Ended : (id : Text) (s : S) → Ended (traverse_file fs version callback skip id s)
  unfolding Ended traverse_file
  traverse_file-Ended id s = ground arith

  module _ (depth : ℕ) (sub_dir : Text → Exec S Unit)
      (below : (id : Text) (s : S) → IsBounded depth version fs id → Ended (sub_dir id s)) where
    traverse_dent-Ended :
        (d : SeafDirent) (s : S)
        → (is_dir d ≡ true → IsBounded depth version fs d.id)
        → Ended (traverse_dent fs version callback skip sub_dir d s)
    unfolding traverse_dent Ended
    traverse_dent-Ended d s h =
        let file = Ended-unless_skipped skip _ (traverse_file-Ended d.id s) in
        dir_case (s_isreg d.mode) (s_isdir d.mode) h file
      where
        dir_case :
            (b c : Bool)
            → (c ≡ true → IsBounded depth version fs d.id)
            → Ended (unless_skipped skip (traverse_file fs version callback skip d.id s))
            → Ended (
                if b
                then unless_skipped skip (traverse_file fs version callback skip d.id s)
                else if c
                then unless_skipped skip (sub_dir d.id s)
                else (ok tt, s))
        dir_case true c h file = file
        dir_case false true h file = Ended-unless_skipped skip _ (below d.id s (h refl))
        dir_case false false h file = λ e. cc

    traverse_entries-Ended :
        (ds : List SeafDirent) (s : S)
        → All (λ d. is_dir d ≡ true → IsBounded depth version fs d.id) ds
        → Ended (traverse_entries fs version callback skip sub_dir ds s)
    unfolding Ended traverse_entries after_callback
    traverse_entries-Ended [] s h = λ e. cc
    traverse_entries-Ended (d ∷ ds) s h =
        Ended-resume _ _ (traverse_dent-Ended d s h.0) (λ s'. traverse_entries-Ended ds s' h.1)

    after_callback-Ended :
        (id : Text) (called : Called S)
        → ((dir : SeafDir)
            → get_seafdir fs version id ≡ some dir
            → All (λ d. is_dir d ≡ true → IsBounded depth version fs d.id) dir.entries)
        → Ended (after_callback fs version callback skip sub_dir id called)
    unfolding Ended after_callback
    after_callback-Ended id called h = elim (Option-cases (get_seafdir fs version id)) [
      | inl missing ↦ unread missing
      | inr (dir, read) ↦
          entries dir read (traverse_entries-Ended dir.entries called.data' (h dir read))
    ]
      where
        unread :
            get_seafdir fs version id ≡ none
            → Ended (after_callback fs version callback skip sub_dir id called)
        unread missing = rw missing (ground arith)

        entries :
            (dir : SeafDir)
            → get_seafdir fs version id ≡ some dir
            → Ended (traverse_entries fs version callback skip sub_dir dir.entries called.data')
            → Ended (after_callback fs version callback skip sub_dir id called)
        entries dir read h = rw read (ground arith)

  pub traverse_dir_ends :
      (depth : ℕ) (id : Text) (s : S)
      → IsBounded depth version fs id
      → (traverse_dir fs version callback skip depth id s).0 ≢ out_of_fuel
  unfolding traverse_dir Ended
  traverse_dir_ends zero id s h = absurd h
  traverse_dir_ends (suc depth) id s h =
      after_callback-Ended depth (traverse_dir fs version callback skip depth)
        (traverse_dir_ends depth) id (callback id _ s) h

-- Where the readable directories below the root nest less than `depth` deep, `depth` is enough fuel:
-- the traversal ends with 0 or -1, whatever the callback does, with and without skip_errors.
pub traverse_tree_ends :
    {S : Type 0} (fs : FsStore) (version : ℕ) (callback : Callback S) (skip_errors : Bool)
    (depth : ℕ) (root_id : Text) (s : S)
    → IsBounded depth version fs root_id
    → (traverse_tree fs version callback skip_errors depth root_id s).0 ≢ out_of_fuel
unfolding traverse_tree
traverse_tree_ends fs version callback skip depth root_id s h =
    ground (arith, traverse_dir_ends fs version callback skip depth root_id s h)
