-- ===== src/Merge/Options.antt =====
-- common/merge-new.h and the conflict names of common/merge-new.c.
use seafile_server_learn.Prelude.{ℕ, ◌≡◌, refl, ◌⊎◌, inl, inr, Bool, Option, none, some, List, ◌++◌}
use Prim.Native.Nat.{Ordering}
use seafile_server_learn.Prelude.Text.{Text}
use seafile_server_learn.Prelude.Int.{ℤ}
use seafile_server_learn.Prelude.Exec.{Outcome, Exec, ok, failed, pure, fail}
use seafile_server_learn.Fs.Object.{SeafDirent}
use seafile_server_learn.Fs.Store.{FsStore}
use seafile_server_learn.Commit.Object.{SeafCommit}
use seafile_server_learn.Vc.ConflictPath.{gen_conflict_path}

-- An array of three pointers, indexed by the position of the tree: base, head, remote. A two-way
-- merge uses the first two.
pub record Slots (A : Type 0) : Type 0 where
  pub at0 : Option A
  pub at1 : Option A
  pub at2 : Option A

abbrev pub no_slots : {A : Type 0} → Slots A
no_slots = record { at0 = none; at1 = none; at2 = none }

pub record MergeOptions : Type 0 where
  pub n_ways : ℕ
  pub remote_repo_id : Text
  pub remote_head : Text
  pub do_merge : Bool
  pub merged_tree_root : Text
  pub visit_dirs : ℕ
  pub conflict : Bool

-- The object store, the options, and what the callback keeps behind `opt->data`.
pub record State (D : Type 0) : Type 0 where
  pub fs : FsStore
  pub opt : MergeOptions
  pub user : D

-- What the merge takes from other parts: commits (by repository and id), the modifier and time of a
-- file at a head (`get_file_modifier_mtime` of common/vc-common.c), the clock when a path is
-- handled, `strftime`, the SHA-1 of a serialised directory, `g_list_sort`, and the callback.
pub record Env (D : Type 0) : Type 0 where
  pub commits : Text → Text → Option SeafCommit
  pub modifier_mtime : Text → Text → Text → Option (Option Text × ℤ)
  pub time_now : Text → ℤ
  pub strftime : ℤ → Text
  pub digest : ℕ → List SeafDirent → Text
  pub g_list_sort : (SeafDirent → SeafDirent → Ordering) → List SeafDirent → List SeafDirent
  pub callback : Text → Slots SeafDirent → Exec (State D) Unit

module _ {D : Type 0} (env : Env D) where
  -- The modifier and time of the file in the remote head, or else its commit's author and now.
  conflict_source : MergeOptions → Text → Option (Option Text × ℤ) → Option (Option Text × ℤ)
  conflict_source opt path (some found) = some found
  conflict_source opt path none = elim (env.commits opt.remote_repo_id opt.remote_head) [
    | none ↦ none
    | some commit ↦ some (some commit.creator_name, env.time_now path)
  ]

  name_from : Text → Option (Option Text × ℤ) → Exec (State D) Text
  name_from filename none = fail
  name_from filename (some (modifier, mtime)) =
      pure (gen_conflict_path env.strftime filename modifier mtime)

  unfoldable pub merge_conflict_filename : Text → Text → Exec (State D) Text
  unfolding conflict_source name_from
  merge_conflict_filename basedir filename s =
      let path = basedir ++ filename in
      name_from filename
        (conflict_source s.opt path
          (env.modifier_mtime s.opt.remote_repo_id s.opt.remote_head path))
        s

  unfoldable pub merge_conflict_dirname : Text → Text → Exec (State D) Text
  unfolding name_from
  merge_conflict_dirname basedir dirname s =
      name_from dirname
        (elim (env.commits s.opt.remote_repo_id s.opt.remote_head) [
          | none ↦ none
          | some commit ↦ some (some commit.creator_name, env.time_now (basedir ++ dirname))
        ])
        s

  -- A conflict name of `name` is found, or the merge fails. The state stays.
  abbrev pub Named : Text → State D → Outcome Text × State D → Type 0
  Named name s r =
      (r ≡ (failed, s))
      ⊎ ((modifier : Option Text) × (mtime : ℤ) × (r
            ≡ (ok (gen_conflict_path env.strftime name modifier mtime), s)))

  name_from-Named :
      (name : Text) (source : Option (Option Text × ℤ)) (s : State D)
      → Named name s (name_from name source s)
  unfolding name_from
  name_from-Named name none s = inl refl
  name_from-Named name (some (modifier, mtime)) s = inr (modifier, mtime, refl)

  pub merge_conflict_filename-Named :
      (basedir name : Text) (s : State D) → Named name s (merge_conflict_filename basedir name s)
  unfolding merge_conflict_filename
  merge_conflict_filename-Named basedir name s = name_from-Named name _ s

  pub merge_conflict_dirname-Named :
      (basedir name : Text) (s : State D) → Named name s (merge_conflict_dirname basedir name s)
  unfolding merge_conflict_dirname
  merge_conflict_dirname-Named basedir name s = name_from-Named name _ s
