-- ===== src/Fs/Store.antt =====
-- common/fs-mgr.c: reading, building and saving objects. An object is kept in its decoded form, so a
-- directory is read back with the entries that it was saved with: the checks of parse_dirent (a valid
-- id, a name, a modifier of a regular file) are not repeated, and the fields that the JSON form leaves out
-- (the version and the length of the name, and the modifier and the size of a directory's entry) are
-- taken to be as reading fills them. The id of a directory is the SHA-1 of its serialised form, a
-- parameter; so is what the storage backend refuses to write.
use seafile_server_learn.Prelude.{
  ℕ, ◌==◌, Bool, Option, some, List, [], ◌∷◌, ◌||◌, is_some, replicate, if◌then◌else◌,
}
use seafile_server_learn.Prelude.Text.{Text, str_eq}
use seafile_server_learn.Prelude.Exec.{Exec, pure, fail}
use seafile_server_learn.Fs.Object.{SeafDirent, SeafDir, Seafile}

-- EMPTY_SHA1 of common/common.h: forty characters '0'.
abbrev pub empty_sha1 : Text
empty_sha1 = replicate 40 48

pub record FsStore : Type 0 where
  pub dirs : Text → Option SeafDir
  pub files : Text → Option Seafile
  pub writable : Text → Bool

unfoldable pub get_seafdir : FsStore → ℕ → Text → Option SeafDir
get_seafdir s version dir_id =
    if str_eq dir_id empty_sha1
    then some (record { version = version; dir_id = empty_sha1; entries = [] })
    else s.dirs dir_id

-- `seaf_fs_manager_get_seafile`
unfoldable pub get_seafile : FsStore → Text → Option Seafile
get_seafile s file_id =
    if str_eq file_id empty_sha1
    then some (record { file_id = empty_sha1; file_size = 0; blk_sha1s = [] })
    else s.files file_id

-- CURRENT_DIR_OBJ_VERSION of common/fs-mgr.h is 1.
unfoldable pub dir_version_from_repo_version : ℕ → ℕ
dir_version_from_repo_version repo_version = if repo_version == 0 then 0 else 1

-- `seaf_dir_new` without an id.
unfoldable pub seaf_dir_new : (ℕ → List SeafDirent → Text) → List SeafDirent → ℕ → SeafDir
seaf_dir_new digest [] version = record { version = version; dir_id = empty_sha1; entries = [] }
seaf_dir_new digest (d ∷ ds) version = record {
  version = version;
  dir_id = digest version (d ∷ ds);
  entries = d ∷ ds;
}

unfoldable pub obj_exists : FsStore → Text → Bool
obj_exists s id = is_some (s.dirs id) || is_some (s.files id)

unfoldable pub seaf_dir_save : SeafDir → Exec FsStore Unit
unfolding obj_exists
seaf_dir_save dir s =
    if str_eq dir.dir_id empty_sha1
    then pure tt s
    else if obj_exists s dir.dir_id
    then pure tt s
    else if s.writable dir.dir_id
    then pure tt (record s { dirs = λ id. if str_eq dir.dir_id id then some dir else s.dirs id })
    else fail s
