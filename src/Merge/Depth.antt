-- ===== src/Merge/Depth.antt =====
-- The recursion of the merge ends: on complete trees it needs no more fuel than their depth.
mod Store
pub use Store.{
  seaf_dir_save-Ends, IsComplete, Ends, Ends-bind, Ends-if, Ends-either, Ends-ne, Ends-Extends,
}
mod Entries
mod Directories
use seafile_server_learn.Prelude.{
  ℕ, zero, suc, inl, inr, ◌≤◌, ◌+◌, ◌≡◌, ◌≢◌, refl, ◌==◌, ◌&&◌, ◌||◌, true, false, Bool, Option,
  none, some, List, [], ◌∷◌, All, if◌then◌else◌, length, arith, Option-cases,
}
use seafile_server_learn.Prelude.Text.{Text, str_eq}
use seafile_server_learn.Prelude.Exec.{Outcome, Exec, ok, failed, out_of_fuel, pure, resume}
use seafile_server_learn.Fs.Object.{SeafDirent, SeafDir, is_dir, is_file}
use seafile_server_learn.Fs.Store.{
  FsStore, get_seafdir, seaf_dir_save, seaf_dir_new, dir_version_from_repo_version,
}
use seafile_server_learn.Fs.Extends.{Extends, Extends-refl, Extends-trans, seaf_dir_save-Extends}
use seafile_server_learn.Merge.Options.{Slots, State, Env}
use seafile_server_learn.Merge.Trees.{
  Ptrs, first_name, dents_at, advance, next_dent, next_ptr, any_slot, entries_of, merge_round,
  merge_loop, save_merged, merge_level, ptrs_of, merge_trees_recursive, seaf_merge_trees,
  compare_dirents, load_root, has_dir_id,
}
use seafile_server_learn.Merge.Loop.{size, merge_loop-empty, size-advance, done_at_size_zero}
use Store.{
  seaf_dir_save-Ends, IsComplete, Ends, Ends-bind, Ends-if, Ends-either, Ends-ne, Ends-Extends,
}
use Entries.{DirOk, DirsOk, Kept, merge_entries-Ends}
use Directories.{LevelOk, TreeOk, TreesOk, found, merge_directories-Ends}

-- The callback of a merge without contents returns, and leaves the directories in the store.
abbrev pub CallbackOk : {D : Type 0} → Env D → ℕ → FsStore → Type 0
CallbackOk {D} env version fs₀ =
    (basedir : Text) (files : Slots SeafDirent) (s : State D)
    → Extends version fs₀ s.fs
    → Ends version fs₀ (λ _. Unit {0}) (env.callback basedir files s)

module _ (version depth : ℕ) (fs₀ : FsStore) where
  abbrev PtrsOk : Ptrs → Type 0
  PtrsOk p =
      LevelOk version fs₀ depth p.l0
      × LevelOk version fs₀ depth p.l1
      × LevelOk version fs₀ depth p.l2

  next_dent-ok :
      (first : Text) (l : List SeafDirent)
      → LevelOk version fs₀ depth l
      → DirOk version depth fs₀ (next_dent first l)
  unfolding next_dent
  next_dent-ok first [] h = tt
  next_dent-ok first (d ∷ ds) h =
      elim (str_eq first d.name) as (λ b. DirOk version depth fs₀ (if b then some d else none)) [
        | true ↦ h.0
        | false ↦ tt
      ]

  next_ptr-ok :
      (first : Text) (l : List SeafDirent)
      → LevelOk version fs₀ depth l
      → LevelOk version fs₀ depth (next_ptr first l)
  unfolding next_ptr
  next_ptr-ok first [] h = tt
  next_ptr-ok first (d ∷ ds) h =
      elim (str_eq first d.name) as (λ b. LevelOk version fs₀ depth (if b then ds else d ∷ ds)) [
        | true ↦ h.1
        | false ↦ h
      ]

  dents_at-ok : (first : Text) (p : Ptrs) → PtrsOk p → DirsOk version depth fs₀ (dents_at first p)
  unfolding dents_at
  dents_at-ok first p h =
      (next_dent-ok first p.l0 h.0, next_dent-ok first p.l1 h.1, next_dent-ok first p.l2 h.2)

  advance-ok : (first : Text) (p : Ptrs) → PtrsOk p → PtrsOk (advance first p)
  unfolding advance
  advance-ok first p h =
      (next_ptr-ok first p.l0 h.0, next_ptr-ok first p.l1 h.1, next_ptr-ok first p.l2 h.2)

module _ {D : Type 0} (env : Env D) (version n : ℕ) (fs₀ : FsStore) where
  saved :
      (r : Outcome Unit × FsStore) (s : State D)
      → r.0 ≢ out_of_fuel
      → Extends version fs₀ r.1
      → Ends version fs₀ (λ _. Unit {0}) (r.0, record s { fs = r.1 })
  saved (ok a, fs) s no_fuel e = (tt, e)
  saved (failed, fs) s no_fuel e = e
  saved (out_of_fuel, fs) s no_fuel e = absurd (no_fuel refl)

  -- What follows the loop ends.
  after_loop-Ends :
      (trees : Slots SeafDir) (merged : List SeafDirent) (s : State D)
      → Extends version fs₀ s.fs
      → Ends version fs₀
          (λ _. Unit {0})
          (if n == 3 && s.opt.do_merge then save_merged env version n trees merged s else pure tt s)
  unfolding save_merged
  after_loop-Ends trees merged s e =
      let dir =
        seaf_dir_new env.digest (env.g_list_sort compare_dirents merged)
          (dir_version_from_repo_version version) in
      Ends-either version fs₀ (λ _. Unit {0}) (n == 3 && s.opt.do_merge) _ _
        (Ends-either version fs₀ (λ _. Unit {0})
          (has_dir_id trees.at1 dir.dir_id || has_dir_id trees.at2 dir.dir_id) _ _ (tt, e)
          (saved (seaf_dir_save dir s.fs)
            (record s { opt = record s.opt { merged_tree_root = dir.dir_id } })
            (seaf_dir_save-Ends dir s.fs)
            (Extends-trans e (seaf_dir_save-Extends version dir s.fs))))
        (tt, e)

module _ {D : Type 0} (env : Env D) (version n depth : ℕ) (fs₀ : FsStore)
    (called : CallbackOk env version fs₀) (recur : Slots SeafDir → Text → Exec (State D) Unit)
    (below : (trees : Slots SeafDir) (basedir : Text) (s : State D)
      → TreesOk version fs₀ depth trees
      → Extends version fs₀ s.fs
      → Ends version fs₀ (λ _. Unit {0}) (recur trees basedir s)) where
  merge_round-Ends :
      (dents : Slots SeafDirent) (basedir : Text) (out : List SeafDirent) (s : State D)
      → DirsOk version depth fs₀ dents
      → Extends version fs₀ s.fs
      → Ends version fs₀ (λ _. Unit {0}) (merge_round env version n recur dents basedir out s)
  unfolding merge_round
  merge_round-Ends dents basedir out s h e =
      Ends-bind version fs₀ (Kept version depth fs₀) (λ _. Unit {0}) _ _
        (Ends-if version fs₀ (Kept version depth fs₀) (any_slot is_file dents) _ _ s
          (merge_entries-Ends env version depth fs₀ dents basedir h s out e n
            (called basedir _ s e))
          (h, e))
        λ (dents', out') s' h' e'.
          Ends-if version fs₀ (λ _. Unit {0}) (any_slot is_dir dents) _ _ s'
            (merge_directories-Ends version depth fs₀ recur below n dents' basedir out' s' h' e')
            (tt, e')

  merge_loop-Ends :
      (basedir : Text) (rounds : ℕ) (p : Ptrs) (out : List SeafDirent) (s : State D)
      → size p ≤ rounds
      → PtrsOk version depth fs₀ p
      → Extends version fs₀ s.fs
      → Ends version fs₀ (λ _. Unit {0}) (merge_loop env version n recur basedir rounds p out s)
  unfolding merge_loop
  merge_loop-Ends basedir zero p out s room h e =
      rw (merge_loop-empty env version n recur basedir 0 p out s (omega arith)) (tt, e)
  merge_loop-Ends basedir (suc rounds) p out s room h e = elim (Option-cases (first_name p)) [
    | inl last ↦
        let at_end : merge_loop env version n recur basedir (suc rounds) p out s ≡ (ok out, s) =
          rw (last, merge_loop) in
        rw at_end (tt, e)
    | inr (first, more) ↦
        let round = merge_round env version n recur (dents_at first p) basedir out s in
        let again = merge_loop env version n recur basedir rounds (advance first p) in
        let next : merge_loop env version n recur basedir (suc rounds) p out s
            ≡ resume again round.0 round.1 =
          rw (more, merge_loop) in
        let smaller = size-advance p first more in
        rw next (
          Ends-bind version fs₀ (λ _. Unit {0}) (λ _. Unit {0}) round again
            (merge_round-Ends (dents_at first p) basedir out s
              (dents_at-ok version depth fs₀ first p h) e)
            λ out' s' _ e'.
              merge_loop-Ends basedir rounds (advance first p) out' s' (omega arith)
                (advance-ok version depth fs₀ first p h) e')
  ]

  merge_level-Ends :
      (trees : Slots SeafDir) (basedir : Text) (s : State D)
      → PtrsOk version depth fs₀ (ptrs_of trees)
      → Extends version fs₀ s.fs
      → Ends version fs₀ (λ _. Unit {0}) (merge_level env version n recur trees basedir s)
  unfolding merge_level
  merge_level-Ends trees basedir s h e =
      Ends-bind version fs₀ (λ _. Unit {0}) (λ _. Unit {0}) _ _
        (merge_loop-Ends basedir _ (ptrs_of trees) [] s (omega arith) h e)
        λ merged s' _ e'. after_loop-Ends env version n fs₀ trees merged s' e'

module _ {D : Type 0} (env : Env D) (version n : ℕ) (fs₀ : FsStore) where
  no_entries : (t : Option SeafDir) → TreeOk version fs₀ 0 t → length (entries_of t) ≡ 0
  no_entries none h = refl
  no_entries (some dir) h = absurd h

  level_below :
      (depth : ℕ) (t : Option SeafDir)
      → TreeOk version fs₀ (suc depth) t
      → LevelOk version fs₀ depth (entries_of t)
  level_below depth none h = tt
  level_below depth (some dir) h = h

  -- A level with no entries needs no recursion.
  merge_level_empty-Ends :
      (recur : Slots SeafDir → Text → Exec (State D) Unit) (trees : Slots SeafDir) (basedir : Text)
      (s : State D)
      → TreesOk version fs₀ 0 trees
      → Extends version fs₀ s.fs
      → Ends version fs₀ (λ _. Unit {0}) (merge_level env version n recur trees basedir s)
  unfolding merge_level merge_loop
  merge_level_empty-Ends recur trees basedir s h e =
      let empty : size (ptrs_of trees) ≡ 0 =
        omega
          (arith, no_entries trees.at0 h.0, no_entries trees.at1 h.1, no_entries trees.at2 h.2) in
      Ends-bind version fs₀ (λ _. Unit {0}) (λ _. Unit {0}) _ _
        (rw
          (merge_loop-empty env version n recur basedir (size (ptrs_of trees)) (ptrs_of trees) [] s
            empty)
          (tt, e))
        λ merged s' _ e'. after_loop-Ends env version n fs₀ trees merged s' e'

  merge_trees_recursive-Ends :
      (depth : ℕ)
      → CallbackOk env version fs₀
      → (trees : Slots SeafDir) (basedir : Text) (s : State D) → TreesOk version fs₀ depth trees
      → Extends version fs₀ s.fs
      → Ends version fs₀
          (λ _. Unit {0})
          (merge_trees_recursive env version n (suc depth) trees basedir s)
  unfolding merge_trees_recursive
  merge_trees_recursive-Ends zero called trees basedir s h e =
      merge_level_empty-Ends _ trees basedir s h e
  merge_trees_recursive-Ends (suc depth) called trees basedir s h e =
      merge_level-Ends env version n depth fs₀ called
        (merge_trees_recursive env version n (suc depth)) (merge_trees_recursive-Ends depth called)
        trees basedir s
        (
          level_below depth trees.at0 h.0,
          level_below depth trees.at1 h.1,
          level_below depth trees.at2 h.2,
        )
        e

  load_root-Ends :
      (depth : ℕ) (root : Text) (s : State D)
      → IsComplete depth version fs₀ root
      → Extends version fs₀ s.fs
      → Ends version fs₀ (TreeOk version fs₀ depth) (load_root env version n root s)
  load_root-Ends depth root s h e =
      let (dir, read, below) = found version fs₀ depth s.fs root h e in
      let loaded : load_root env version n root s ≡ (ok (some dir), s) = rw (read, load_root) in
      rw loaded (below, e)

  seaf_merge_trees-Ends :
      (depth : ℕ) (root0 root1 root2 : Text) (s : State D)
      → CallbackOk env version fs₀
      → IsComplete depth version fs₀ root0
      → IsComplete depth version fs₀ root1
      → IsComplete depth version fs₀ root2
      → Extends version fs₀ s.fs
      → Ends version fs₀
          (λ _. Unit {0})
          (seaf_merge_trees env version n (suc depth) root0 root1 root2 s)
  unfolding seaf_merge_trees
  seaf_merge_trees-Ends depth root0 root1 root2 s called c0 c1 c2 e =
      Ends-if version fs₀ (λ _. Unit {0}) (n == 2 || n == 3) _ _ s
        (Ends-bind version fs₀ (TreeOk version fs₀ depth) (λ _. Unit {0}) _ _
          (load_root-Ends depth root0 s c0 e)
          λ t0 s1 k0 e1.
            Ends-bind version fs₀ (TreeOk version fs₀ depth) (λ _. Unit {0}) _ _
              (load_root-Ends depth root1 s1 c1 e1)
              λ t1 s2 k1 e2.
                Ends-bind version fs₀ (TreeOk version fs₀ depth) (λ _. Unit {0}) _ _
                  (Ends-if version fs₀ (TreeOk version fs₀ depth) (n == 3) _ _ s2
                    (load_root-Ends depth root2 s2 c2 e2) (tt, e2))
                  λ t2 s3 k2 e3. merge_trees_recursive-Ends depth called _ [] s3 (k0, k1, k2) e3)
        e

-- Where the directories below the roots can all be read and nest at most `depth` deep, and the
-- callback of a merge without contents returns and keeps the stored directories, `suc depth` is
-- enough fuel for a merge of these roots, two-way or three-way: it ends with 0 or -1, and every directory that
-- could be read before can be read after, unchanged.
pub merge_ends :
    {D : Type 0} (env : Env D) (version n depth : ℕ) (root0 root1 root2 : Text) (s : State D)
    → CallbackOk env version s.fs
    → IsComplete depth version s.fs root0
    → IsComplete depth version s.fs root1
    → IsComplete depth version s.fs root2
    → ((seaf_merge_trees env version n (suc depth) root0 root1 root2 s).0 ≢ out_of_fuel)
      × Extends version s.fs (seaf_merge_trees env version n (suc depth) root0 root1 root2 s).1.fs
unfolding seaf_merge_trees
merge_ends env version n depth root0 root1 root2 s called c0 c1 c2 =
    let ends =
      seaf_merge_trees-Ends env version n s.fs depth root0 root1 root2 s called c0 c1 c2
        (Extends-refl version s.fs) in
    (Ends-ne version s.fs (λ _. Unit {0}) _ ends, Ends-Extends version s.fs (λ _. Unit {0}) _ ends)
