-- ===== src/Merge/Depth/Directories.antt =====
-- `merge_directories` ends if the level below does.
use seafile_server_learn.Prelude.{
  ℕ, zero, suc, ◌≡◌, refl, true, false, Bool, Option, none, some, List, All, if◌then◌else◌,
}
use seafile_server_learn.Prelude.Text.{Text}
use seafile_server_learn.Prelude.Exec.{Exec}
use seafile_server_learn.Fs.Object.{SeafDirent, SeafDir, is_dir}
use seafile_server_learn.Fs.Store.{FsStore, get_seafdir}
use seafile_server_learn.Merge.Options.{Slots, State}
use seafile_server_learn.Merge.Directories.{
  Choice, descend, drop, unreachable, keep, as_dir, dirs_of, visit, load_dir, merge_sub_dirs,
  follow, merge_directories,
}
use seafile_server_learn.Fs.Extends.{Extends}
use seafile_server_learn.Merge.Depth.Store.{IsComplete, Ends, Ends-bind}
use seafile_server_learn.Merge.Depth.Entries.{DirOk, DirsOk}

module _ (version : ℕ) (fs₀ : FsStore) where
  -- The entries of a directory: those that are directories are complete.
  abbrev pub LevelOk : ℕ → List SeafDirent → Type 0
  LevelOk depth = All (λ d. is_dir d ≡ true → IsComplete depth version fs₀ d.id)

  -- A directory of a level at most `depth` above the deepest.
  abbrev pub TreeOk : ℕ → Option SeafDir → Type 0
  TreeOk depth none = Unit
  TreeOk zero (some dir) = ⊥
  TreeOk (suc depth) (some dir) = LevelOk depth dir.entries

  abbrev pub TreesOk : ℕ → Slots SeafDir → Type 0
  TreesOk depth t = TreeOk depth t.at0 × TreeOk depth t.at1 × TreeOk depth t.at2

  pub found :
      (depth : ℕ) (fs : FsStore) (id : Text)
      → IsComplete depth version fs₀ id
      → Extends version fs₀ fs
      → (dir : SeafDir) × (get_seafdir fs version id ≡ some dir) × TreeOk depth (some dir)
  found zero fs id h e = absurd h
  found (suc below) fs id (dir, read, level) e = (dir, e.at_id id dir read, level)

module _ (version depth : ℕ) (fs₀ : FsStore) where
  abbrev Loadable : Option SeafDirent → Type 0
  Loadable none = Unit
  Loadable (some d) = IsComplete depth version fs₀ d.id

  Loadable-dir : (d : Option SeafDirent) → DirOk version depth fs₀ d → Loadable (as_dir d)
  unfolding as_dir
  Loadable-dir none h = tt
  Loadable-dir (some d) h = by_kind (is_dir d) h
    where
      by_kind :
          (b : Bool)
          → (b ≡ true → IsComplete depth version fs₀ d.id)
          → Loadable (if b then some d else none)
      by_kind true h = h refl
      by_kind false h = tt

module _ (version depth : ℕ) (fs₀ : FsStore) {D : Type 0} where
  load_dir-Ends :
      (d : Option SeafDirent) (s : State D)
      → Loadable version depth fs₀ d
      → Extends version fs₀ s.fs
      → Ends version fs₀ (TreeOk version fs₀ depth) (load_dir version d s)
  unfolding load_dir
  load_dir-Ends none s h e = (tt, e)
  load_dir-Ends (some d) s h e =
      let (dir, read, ok_below) = found version fs₀ depth s.fs d.id h e in
      rw read (unfold visit in (ok_below, e))

  module _ (recur : Slots SeafDir → Text → Exec (State D) Unit)
      (below : (trees : Slots SeafDir) (basedir : Text) (s : State D)
        → TreesOk version fs₀ depth trees
        → Extends version fs₀ s.fs
        → Ends version fs₀ (λ _. Unit {0}) (recur trees basedir s)) where
    merge_sub_dirs-Ends :
        (n : ℕ) (dents : Slots SeafDirent) (basedir : Text) (out : List SeafDirent) (s : State D)
        → DirsOk version depth fs₀ dents
        → Extends version fs₀ s.fs
        → Ends version fs₀
            (λ _. Unit {0})
            (merge_sub_dirs version recur n (dirs_of dents) basedir out s)
    unfolding merge_sub_dirs
    merge_sub_dirs-Ends n dents basedir out s h e =
        Ends-bind version fs₀ (TreeOk version fs₀ depth) (λ _. Unit {0}) _ _
          (load_dir-Ends (as_dir dents.at0) s (Loadable-dir version depth fs₀ dents.at0 h.0) e)
          λ base s₁ b e₁.
            Ends-bind version fs₀ (TreeOk version fs₀ depth) (λ _. Unit {0}) _ _
              (load_dir-Ends (as_dir dents.at1) s₁ (Loadable-dir version depth fs₀ dents.at1 h.1)
                e₁)
              λ head s₂ c e₂.
                Ends-bind version fs₀ (TreeOk version fs₀ depth) (λ _. Unit {0}) _ _
                  (load_dir-Ends (as_dir dents.at2) s₂
                    (Loadable-dir version depth fs₀ dents.at2 h.2) e₂)
                  λ remote s₃ d e₃.
                    Ends-bind version fs₀ (λ _. Unit {0}) (λ _. Unit {0}) _ _
                      (below _ _ s₃ (b, c, d) e₃) λ _ s₄ _ e₄. (tt, e₄)

    pub merge_directories-Ends :
        (n : ℕ) (dents : Slots SeafDirent) (basedir : Text) (out : List SeafDirent) (s : State D)
        → DirsOk version depth fs₀ dents
        → Extends version fs₀ s.fs
        → Ends version fs₀ (λ _. Unit {0}) (merge_directories version recur n dents basedir out s)
    unfolding merge_directories
    merge_directories-Ends n dents basedir out s h e = by_choice _
      where
        by_choice :
            (c : Choice)
            → Ends version fs₀
                (λ _. Unit {0})
                (follow version recur n (dirs_of dents) basedir out c s)
        by_choice descend = merge_sub_dirs-Ends n dents basedir out s h e
        by_choice drop = (tt, e)
        by_choice unreachable = e
        by_choice (keep d) = (tt, e)
