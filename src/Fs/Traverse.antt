-- ===== src/Fs/Traverse.antt =====
-- common/fs-mgr.c: traversing a directory tree with a callback.
pub mod Ends
use seafile_server_learn.Prelude.{
  ℕ, zero, suc, ◌==◌, Bool, true, false, not, ◌&&◌, ◌||◌, Option, none, some, List, [], ◌∷◌,
  if◌then◌else◌,
}
use seafile_server_learn.Prelude.Text.{Text, str_eq}
use seafile_server_learn.Prelude.Exec.{
  Outcome, ok, failed, out_of_fuel, Exec, pure, fail, resume, ◌>>=◌, ◌>>◌,
}
use seafile_server_learn.Fs.Object.{SeafDirent, SeafDir, s_isreg, s_isdir}
use seafile_server_learn.Fs.Store.{FsStore, get_seafdir, empty_sha1}

-- SeafMetadataType of common/fs-mgr.h
pub data ObjType : Type 0 where
  invalid_type : ObjType
  file_type : ObjType
  link_type : ObjType
  dir_type : ObjType

-- What a callback leaves: the value it returns, `*stop`, and the new user data. `*stop` is FALSE at
-- the call.
pub record Called (S : Type 0) : Type 0 where
  pub result : Bool
  pub stop : Bool
  pub data' : S

abbrev pub Callback : Type 0 → Type 0
Callback S = Text → ObjType → S → Called S

-- A failure that the caller goes past with `skip_errors`.
unfoldable pub unless_skipped :
    {S : Type 0} → Bool → Outcome (Unit {0}) × S → Outcome (Unit {0}) × S
unless_skipped skip_errors (ok a, s) = (ok tt, s)
unless_skipped true (failed, s) = (ok tt, s)
unless_skipped false (failed, s) = (failed, s)
unless_skipped skip_errors (out_of_fuel, s) = (out_of_fuel, s)

module _ {S : Type 0} (fs : FsStore) (version : ℕ) (callback : Callback S)
    (skip_errors : Bool) where
  unfoldable pub traverse_file : Text → Exec S Unit
  traverse_file id s =
      if str_eq id empty_sha1
      then (ok tt, s)
      else let called = callback id file_type s in
        if not called.result && not skip_errors
        then (failed, called.data')
        else (ok tt, called.data')

  module _ (sub_dir : Text → Exec S Unit) where
    unfoldable pub traverse_dent : SeafDirent → Exec S Unit
    traverse_dent d s =
        if s_isreg d.mode
        then unless_skipped skip_errors (traverse_file d.id s)
        else if s_isdir d.mode
        then unless_skipped skip_errors (sub_dir d.id s)
        else (ok tt, s)

    -- The loop over the entries.
    unfoldable pub traverse_entries : List SeafDirent → Exec S Unit
    traverse_entries [] s = (ok tt, s)
    traverse_entries (d ∷ ds) s =
        let r = traverse_dent d s in resume (λ _. traverse_entries ds) r.0 r.1

    -- What follows the callback, with its results.
    unfoldable pub after_callback : Text → Called S → Outcome (Unit {0}) × S
    after_callback id called =
        if not called.result && not skip_errors
        then (failed, called.data')
        else if called.stop
        then (ok tt, called.data')
        else elim (get_seafdir fs version id) [
          | none ↦ if skip_errors then (ok tt, called.data') else (failed, called.data')
          | some dir ↦ traverse_entries dir.entries called.data'
        ]

  unfoldable pub traverse_dir : ℕ → Text → Exec S Unit
  unfolding after_callback
  traverse_dir zero id s = (out_of_fuel, s)
  traverse_dir (suc fuel) id s = after_callback (traverse_dir fuel) id (callback id dir_type s)

  -- `seaf_fs_manager_traverse_tree`
  unfoldable pub traverse_tree : ℕ → Text → Exec S Unit
  traverse_tree fuel root_id s =
      if str_eq root_id empty_sha1 then (ok tt, s) else traverse_dir fuel root_id s
