-- ===== src/Fs/Dirent.antt =====
-- common/fs-mgr.c: making an entry.
use seafile_server_learn.Prelude.{ℕ, ◌+◌, ◌/◌, ◌%◌, ◌==◌, Option, none, if◌then◌else◌, length}
use seafile_server_learn.Prelude.Text.{Text}
use seafile_server_learn.Prelude.Int.{ℤ, pos}
use seafile_server_learn.Fs.Object.{SeafDirent, s_isreg}

-- `mode | bit` for a power of two.
abbrev pub or_bit : ℕ → ℕ → ℕ
or_bit bit mode = if mode / bit % 2 == 0 then mode + bit else mode

-- `mode | 0644`, the bits 256, 128, 32 and 4.
abbrev pub or_0644 : ℕ → ℕ
or_0644 mode = or_bit 256 (or_bit 128 (or_bit 32 (or_bit 4 mode)))

unfoldable pub seaf_dirent_new : ℕ → Text → ℕ → Text → ℤ → Option Text → ℤ → SeafDirent
unfolding s_isreg
seaf_dirent_new version sha1 mode name mtime modifier size = record {
  version = version;
  mode = if s_isreg mode then or_0644 mode else mode;
  id = sha1;
  name_len = length name;
  name = name;
  mtime = if version == 0 then pos 0 else mtime;
  modifier = if version == 0 then none else if s_isreg mode then modifier else none;
  size = if version == 0 then pos 0 else if s_isreg mode then size else pos 0;
}

-- A new entry with the fields of another one and a new name.
unfoldable pub renamed_copy : SeafDirent → Text → SeafDirent
unfolding seaf_dirent_new
renamed_copy d name = seaf_dirent_new d.version d.id d.mode name d.mtime d.modifier d.size
