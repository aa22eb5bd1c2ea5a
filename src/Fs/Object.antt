-- ===== src/Fs/Object.antt =====
-- common/fs-mgr.h and common/fs-mgr.c: the objects. Modes are tested as <sys/stat.h> does: the file
-- type is in bits 12 to 15.
use seafile_server_learn.Prelude.{ℕ, ◌/◌, ◌%◌, ◌==◌, Bool, Option, List, length}
use seafile_server_learn.Prelude.Text.{Text}
use seafile_server_learn.Prelude.Int.{ℤ}

pub record SeafDirent : Type 0 where
  pub version : ℕ
  pub mode : ℕ
  pub id : Text
  pub name_len : ℕ
  pub name : Text
  pub mtime : ℤ
  pub modifier : Option Text
  pub size : ℤ

pub record SeafDir : Type 0 where
  pub version : ℕ
  pub dir_id : Text
  pub entries : List SeafDirent

pub record Seafile : Type 0 where
  pub file_id : Text
  pub file_size : ℕ
  pub blk_sha1s : List Text

unfoldable pub s_isreg : ℕ → Bool
s_isreg mode = mode / 4096 % 16 == 8

unfoldable pub s_isdir : ℕ → Bool
s_isdir mode = mode / 4096 % 16 == 4

abbrev pub is_file : SeafDirent → Bool
is_file d = s_isreg d.mode

abbrev pub is_dir : SeafDirent → Bool
is_dir d = s_isdir d.mode

-- `d->name = name; d->name_len = strlen (d->name);`
unfoldable pub rename : SeafDirent → Text → SeafDirent
rename d name = record d { name = name; name_len = length name }
