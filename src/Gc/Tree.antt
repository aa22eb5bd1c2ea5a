-- ===== src/Gc/Tree.antt =====
-- server/gc/gc-core.c: a traversal of a tree that succeeds has visited every object of it.
use mathlib.Core.Path.{subst}
use seafile_server_learn.Prelude.{
  ℕ, zero, suc, ◌≡◌, refl, sym, ap, ◌∙◌, true, false, none, some, List, [], ◌∷◌, In, here, there,
  arith, Option-cases, Bool-cases, inl, inr, ◌⊎◌,
}
use seafile_server_learn.Prelude.Text.{Text, str_eq, str_eq_iff}
use seafile_server_learn.Prelude.Exec.{Exec}
use seafile_server_learn.Bloom.Members.{IsFilter}
use seafile_server_learn.Fs.Object.{SeafDirent, SeafDir, s_isreg, s_isdir}
use seafile_server_learn.Fs.Store.{FsStore, get_seafdir, empty_sha1}
use seafile_server_learn.Fs.Traverse.{
  dir_type, Called, traverse_dent, traverse_entries, after_callback, traverse_dir, traverse_tree,
}
use seafile_server_learn.Commit.Traverse.{member}
use seafile_server_learn.Commit.Traverse.Complete.{member-In}
use seafile_server_learn.Gc.Index.{GcData, mark, after_mark, fs_callback}
use seafile_server_learn.Gc.Live.{
  Visited, Covers, Step, Step-refl, Step-trans, Visited-mono, Yields, Yields-resume, Yields-map,
  Yields-unless_skipped,
}
use seafile_server_learn.Gc.Files.{FileDone, traverse_file-Yields}

module _ (sha_int : Text → ℕ → ℕ) (fs : FsStore) (version : ℕ) where
  -- The callback on a directory: it was visited before, or it is new and its entries come next.
  Entered : GcData → Text → Called GcData → Type 0
  Entered gc id called =
      (called.result ≡ true)
      × (((called.stop ≡ true) × (called.data' ≡ gc) × In id gc.visited)
          ⊎ ((called.stop ≡ false) × (called.data' ≡ mark sha_int fs id gc)))

  fs_callback_dir-Entered :
      (id : Text) (gc : GcData) → Entered gc id (fs_callback sha_int fs id dir_type gc)
  unfolding Entered fs_callback after_mark
  fs_callback_dir-Entered id gc = elim (Bool-cases (member id gc.visited)) [
    | inl seen ↦ rw seen (refl, inl (refl, refl, member-In id gc.visited seen))
    | inr new ↦ rw new (refl, inr (refl, refl))
  ]

  DirDone : GcData → Text → GcData → Type 0
  DirDone old id new = Step sha_int fs version old new × In id new.visited

  EntriesDone : GcData → List SeafDirent → GcData → Type 0
  EntriesDone old ds new =
      Step sha_int fs version old new
      × ((d : SeafDirent) → In d ds → Visited sha_int fs version new d)

  module _ (sub_dir : Text → Exec GcData (Unit {0}))
      (below : (id : Text) (gc : GcData)
        → IsFilter gc.index
        → Yields sha_int fs version (DirDone gc id) (sub_dir id gc)) where
    traverse_dent-Yields :
        (d : SeafDirent) (gc : GcData)
        → IsFilter gc.index
        → Yields sha_int fs version
            (EntriesDone gc (d ∷ []))
            (traverse_dent fs version (fs_callback sha_int fs) false sub_dir d gc)
    unfolding traverse_dent EntriesDone DirDone FileDone s_isreg s_isdir
    traverse_dent-Yields d gc w =
        by_mode (Bool-cases (s_isreg d.mode)) (Bool-cases (s_isdir d.mode))
      where
        one :
            (new : GcData)
            → Visited sha_int fs version new d
            → (x : SeafDirent) → In x (d ∷ [])
            → Visited sha_int fs version new x
        one new v x (here e) = subst (Visited sha_int fs version new) (sym e) v
        one new v x (there m) = elim m [ ]

        by_mode :
            ((s_isreg d.mode ≡ true) ⊎ (s_isreg d.mode ≡ false))
            → ((s_isdir d.mode ≡ true) ⊎ (s_isdir d.mode ≡ false))
            → Yields sha_int fs version
                (EntriesDone gc (d ∷ []))
                (traverse_dent fs version (fs_callback sha_int fs) false sub_dir d gc)
        by_mode (inl reg) dir =
            let done =
              Yields-map sha_int fs version (FileDone sha_int fs version gc d.id)
                (EntriesDone gc (d ∷ [])) _
                (Yields-unless_skipped sha_int fs version (FileDone sha_int fs version gc d.id) _
                  (traverse_file-Yields sha_int fs version d.id gc w))
                λ new (step, m). (
                  step,
                  one new (record { as_file = λ e. m; as_dir = λ e. absurd (ground arith) }),
                ) in
            rw reg done
        by_mode (inr other) (inl dir) =
            let done =
              Yields-map sha_int fs version (DirDone gc d.id) (EntriesDone gc (d ∷ [])) _
                (Yields-unless_skipped sha_int fs version (DirDone gc d.id) _ (below d.id gc w))
                λ new (step, m).
                  (step, one new (record { as_file = λ e. inr m; as_dir = λ e. m })) in
            rw (other, dir) done
        by_mode (inr other) (inr neither) =
            rw (other, neither)
              (
                Step-refl sha_int fs version gc w,
                one gc (record {
                  as_file = λ e. absurd (cc (e, other));
                  as_dir = λ e. absurd (cc (e, neither));
                }),
              )

    traverse_entries-Yields :
        (ds : List SeafDirent) (gc : GcData)
        → IsFilter gc.index
        → Yields sha_int fs version
            (EntriesDone gc ds)
            (traverse_entries fs version (fs_callback sha_int fs) false sub_dir ds gc)
    unfolding traverse_entries EntriesDone
    traverse_entries-Yields [] gc w = (Step-refl sha_int fs version gc w, λ d m. elim m [ ])
    traverse_entries-Yields (d ∷ ds) gc w =
        Yields-resume sha_int fs version (EntriesDone gc (d ∷ [])) (EntriesDone gc (d ∷ ds)) _ _
          (traverse_dent-Yields d gc w)
          λ mid (step, now).
            Yields-map sha_int fs version (EntriesDone mid ds) (EntriesDone gc (d ∷ ds)) _
              (traverse_entries-Yields ds mid step.filter)
              λ new (more, later). (
                Step-trans sha_int fs version gc mid new step more,
                join mid new step more now later,
              )
      where
        join :
            (mid new : GcData)
            → Step sha_int fs version gc mid
            → Step sha_int fs version mid new
            → ((x : SeafDirent) → In x (d ∷ []) → Visited sha_int fs version mid x)
            → ((x : SeafDirent) → In x ds → Visited sha_int fs version new x)
            → (x : SeafDirent) → In x (d ∷ ds)
            → Visited sha_int fs version new x
        join mid new step more now later x (here e) =
            Visited-mono sha_int fs version mid new x more.visited_kept (now x (here e))
        join mid new step more now later x (there m) = later x m

  traverse_dir-Yields :
      (depth : ℕ) (id : Text) (gc : GcData)
      → IsFilter gc.index
      → Yields sha_int fs version
          (DirDone gc id)
          (traverse_dir fs version (fs_callback sha_int fs) false depth id gc)
  unfolding traverse_dir after_callback Entered EntriesDone DirDone
  traverse_dir-Yields zero id gc w = tt
  traverse_dir-Yields (suc depth) id gc w =
      entered _
        (traverse_entries-Yields (traverse_dir fs version (fs_callback sha_int fs) false depth)
          (traverse_dir-Yields depth))
        (fs_callback_dir-Entered id gc) (Option-cases (get_seafdir fs version id))
    where
      close :
          (dir : SeafDir)
          → get_seafdir fs version id ≡ some dir
          → (new : GcData) → Step sha_int fs version (mark sha_int fs id gc) new
          → ((d : SeafDirent) → In d dir.entries → Visited sha_int fs version new d)
          → DirDone gc id new
      close dir found new step seen = (
        record {
          filter = step.filter;
          grows = step.grows;
          visited_kept = λ x m. step.visited_kept x (there m);
          covered = λ x m. split x (step.covered x m);
        },
        step.visited_kept id (here refl),
      )
        where
          split :
              (x : Text)
              → In x (id ∷ gc.visited) ⊎ Covers sha_int fs version new x
              → In x gc.visited ⊎ Covers sha_int fs version new x
          split x (inr k) = inr k
          split x (inl (here e)) = inr (inr (dir, ap (get_seafdir fs version) e ∙ found, seen))
          split x (inl (there m)) = inl m

      entered :
          (called : Called GcData)
          → ((ds : List SeafDirent) (gc : GcData)
              → IsFilter gc.index
              → Yields sha_int fs version (EntriesDone gc ds) (
                  traverse_entries fs version
                    (fs_callback sha_int fs)
                    false
                    (traverse_dir fs version (fs_callback sha_int fs) false depth)
                    ds
                    gc))
          → Entered gc id called
          → ((get_seafdir fs version id ≡ none)
              ⊎ ((dir : SeafDir) × (get_seafdir fs version id ≡ some dir)))
          → Yields sha_int fs version (DirDone gc id) (
              after_callback fs version
                (fs_callback sha_int fs)
                false
                (traverse_dir fs version (fs_callback sha_int fs) false depth)
                id
                called)
      entered called entries (good, inl (stop, same, m)) read =
          rw (good, stop, same) (Step-refl sha_int fs version gc w, m)
      entered called entries (good, inr (go, same)) (inl missing) = rw (good, go, missing) tt
      entered called entries (good, inr (go, same)) (inr (dir, found)) =
          let done =
            Yields-map sha_int fs version (EntriesDone called.data' dir.entries) (DirDone gc id) _
              (entries dir.entries called.data' (subst (λ g. IsFilter g.index) (sym same) w))
              λ new (step, seen).
                close dir found new (subst (λ g. Step sha_int fs version g new) same step) seen in
          rw (good, go, found) done

  unfoldable pub TreeDone : GcData → Text → GcData → Type 0
  TreeDone old id new = Step sha_int fs version old new × ((id ≡ empty_sha1) ⊎ In id new.visited)

  pub traverse_tree-Yields :
      (depth : ℕ) (id : Text) (gc : GcData)
      → IsFilter gc.index
      → Yields sha_int fs version
          (TreeDone gc id)
          (traverse_tree fs version (fs_callback sha_int fs) false depth id gc)
  unfolding traverse_tree TreeDone DirDone
  traverse_tree-Yields depth id gc w = by_cases (Bool-cases (str_eq id empty_sha1))
    where
      by_cases :
          ((str_eq id empty_sha1 ≡ true) ⊎ (str_eq id empty_sha1 ≡ false))
          → Yields sha_int fs version
              (TreeDone gc id)
              (traverse_tree fs version (fs_callback sha_int fs) false depth id gc)
      by_cases (inl e) =
          rw e (Step-refl sha_int fs version gc w, inl ((str_eq_iff id empty_sha1).0 e))
      by_cases (inr ne) =
          let done =
            Yields-map sha_int fs version (DirDone gc id) (TreeDone gc id) _
              (traverse_dir-Yields depth id gc w) λ new (step, m). (step, inr m) in
          rw ne done
