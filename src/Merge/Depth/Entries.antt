-- ===== src/Merge/Depth/Entries.antt =====
-- `merge_entries` ends, and renaming leaves what the directories hold.
use seafile_server_learn.Prelude.{
  ℕ, ◌≡◌, inl, inr, true, false, Bool, Option, none, some, List, ◌==◌, ◌||◌, not, if◌then◌else◌,
}
use seafile_server_learn.Prelude.Text.{Text, str_eq}
use seafile_server_learn.Prelude.Exec.{Outcome, Exec, pure}
use seafile_server_learn.Fs.Object.{SeafDirent, is_dir, is_file, rename}
use seafile_server_learn.Fs.Store.{FsStore}
use seafile_server_learn.Merge.Options.{
  Slots, State, Env, merge_conflict_filename-Named, merge_conflict_dirname-Named,
}
use seafile_server_learn.Merge.Entries.{
  Merged, as_file, has_id, files_of, merge_entries, merge_files, merge_both, merge_no_head,
  merge_no_remote, merge_remote_only, merge_head_only, rename_remote_file, rename_remote_dir,
}
use seafile_server_learn.Fs.Extends.{Extends}
use seafile_server_learn.Merge.Depth.Store.{IsComplete, Ends, Ends-bind, Ends-if}

module _ (version depth : ℕ) (fs₀ : FsStore) where
  -- The entry's directory, if it is one, is complete.
  abbrev pub DirOk : Option SeafDirent → Type 0
  DirOk none = Unit
  DirOk (some d) = is_dir d ≡ true → IsComplete depth version fs₀ d.id

  abbrev pub DirsOk : Slots SeafDirent → Type 0
  DirsOk d = DirOk d.at0 × DirOk d.at1 × DirOk d.at2

  abbrev pub Kept : Merged → Type 0
  Kept m = DirsOk m.0

  DirOk-file : (d : Option SeafDirent) → DirOk d → DirOk (as_file d)
  unfolding as_file
  DirOk-file none h = tt
  DirOk-file (some d) h = elim (is_file d) as (λ b. DirOk (if b then some d else none)) [
    | true ↦ h
    | false ↦ tt
  ]

module _ {D : Type 0} (env : Env D) (version depth : ℕ) (fs₀ : FsStore) (dents : Slots SeafDirent)
    (basedir : Text) (old : DirsOk version depth fs₀ dents) where
  abbrev MergedEnds : Outcome Merged × State D → Type 0
  MergedEnds = Ends version fs₀ (Kept version depth fs₀)

  branch :
      (b : Bool) (m k : Exec (State D) Merged) (s : State D)
      → MergedEnds (m s)
      → MergedEnds (k s)
      → MergedEnds ((if b then m else k) s)
  branch = Ends-if version fs₀ (Kept version depth fs₀)

  rename_remote_file-Ends :
      (remote : SeafDirent) (out : List SeafDirent) (s : State D)
      → DirOk version depth fs₀ (some remote)
      → Extends version fs₀ s.fs
      → MergedEnds (rename_remote_file env dents basedir remote out s)
  unfolding rename_remote_file rename
  rename_remote_file-Ends remote out s h e =
      elim (merge_conflict_filename-Named env basedir remote.name s) [
        | inl no_name ↦ rw no_name e
        | inr (_, _, named) ↦ rw named ((old.0, old.1, h), e)
      ]

  rename_remote_dir-Ends :
      (dir head : SeafDirent) (out : List SeafDirent) (s : State D)
      → DirOk version depth fs₀ (some dir)
      → Extends version fs₀ s.fs
      → MergedEnds (rename_remote_dir env dents basedir dir head out s)
  unfolding rename_remote_dir rename
  rename_remote_dir-Ends dir head out s h e =
      elim (merge_conflict_dirname-Named env basedir dir.name s) [
        | inl no_name ↦ rw no_name e
        | inr (_, _, named) ↦ rw named ((old.0, old.1, h), e)
      ]

  merge_both-Ends :
      (base : Option SeafDirent) (head remote : SeafDirent) (out : List SeafDirent) (s : State D)
      → DirOk version depth fs₀ (some remote)
      → Extends version fs₀ s.fs
      → MergedEnds (merge_both env dents basedir base head remote out s)
  unfolding merge_both rename
  merge_both-Ends base head remote out s h e =
      branch (str_eq head.id remote.id) _ _ s (old, e)
        (branch (has_id base head.id) _ _ s (old, e)
          (branch (has_id base remote.id) _ _ s (old, e)
            (elim (merge_conflict_filename-Named env basedir head.name s) [
              | inl no_name ↦ rw no_name e
              | inr (_, _, named) ↦ rw named ((old.0, old.1, h), e)
            ])))

  module _ (s : State D) (out : List SeafDirent) (e : Extends version fs₀ s.fs) where
    merge_no_head-Ends :
        (base remote : SeafDirent) (dir : Option SeafDirent)
        → DirOk version depth fs₀ (some remote)
        → MergedEnds (merge_no_head env dents basedir base remote dir out s)
    unfolding merge_no_head
    merge_no_head-Ends base remote none h =
        branch (str_eq base.id remote.id) _ _ s (old, e) (old, e)
    merge_no_head-Ends base remote (some dir) h =
        branch (str_eq base.id remote.id) _ _ s (old, e) (rename_remote_file-Ends remote out s h e)

    merge_no_remote-Ends :
        (base head : SeafDirent) (dir : Option SeafDirent)
        → DirOk version depth fs₀ dir
        → MergedEnds (merge_no_remote env dents basedir base head dir out s)
    unfolding merge_no_remote
    merge_no_remote-Ends base head none h = branch (str_eq base.id head.id) _ _ s (old, e) (old, e)
    merge_no_remote-Ends base head (some dir) h =
        branch (str_eq base.id head.id) _ _ s (old, e) (rename_remote_dir-Ends dir head out s h e)

    merge_remote_only-Ends :
        (remote : SeafDirent) (base dir : Option SeafDirent)
        → DirOk version depth fs₀ (some remote)
        → MergedEnds (merge_remote_only env dents basedir remote base dir out s)
    unfolding merge_remote_only
    merge_remote_only-Ends remote base none h = (old, e)
    merge_remote_only-Ends remote base (some dir) h =
        branch (has_id base dir.id) _ _ s (old, e) (rename_remote_file-Ends remote out s h e)

    merge_head_only-Ends :
        (head : SeafDirent) (base dir : Option SeafDirent)
        → DirOk version depth fs₀ dir
        → MergedEnds (merge_head_only env dents basedir head base dir out s)
    unfolding merge_head_only
    merge_head_only-Ends head base none h = (old, e)
    merge_head_only-Ends head base (some dir) h =
        branch (has_id base dir.id) _ _ s (old, e) (rename_remote_dir-Ends dir head out s h e)

    merge_files-Ends :
        (base head remote : Option SeafDirent)
        → DirOk version depth fs₀ remote
        → MergedEnds (merge_files env dents basedir base head remote out s)
    unfolding merge_files
    merge_files-Ends base (some head) (some remote) h = merge_both-Ends base head remote out s h e
    merge_files-Ends (some base) none (some remote) h = merge_no_head-Ends base remote dents.at1 h
    merge_files-Ends (some base) (some head) none h = merge_no_remote-Ends base head dents.at2 old.2
    merge_files-Ends none none (some remote) h = merge_remote_only-Ends remote dents.at0 dents.at1 h
    merge_files-Ends none (some head) none h = merge_head_only-Ends head dents.at0 dents.at2 old.2
    merge_files-Ends none none none h = (old, e)
    merge_files-Ends (some base) none none h = (old, e)

    pub merge_entries-Ends :
        (n : ℕ)
        → Ends version fs₀ (λ _. Unit {0}) (env.callback basedir (files_of dents) s)
        → MergedEnds (merge_entries env dents basedir n out s)
    unfolding merge_entries
    merge_entries-Ends n called =
        branch (n == 2 || not s.opt.do_merge) _ _ s
          (Ends-bind version fs₀ (λ _. Unit {0}) (Kept version depth fs₀)
            (env.callback basedir (files_of dents) s) (λ _. pure (dents, out)) called
            (λ _ s' _ e'. (old, e')))
          (merge_files-Ends (as_file dents.at0) (as_file dents.at1) (as_file dents.at2)
            (DirOk-file version depth fs₀ dents.at2 old.2))
