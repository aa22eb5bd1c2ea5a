-- ===== src/Fs/Extends.antt =====
-- common/fs-mgr.c: what a save does to the store: it only adds directories.
use seafile_server_learn.Prelude.{ℕ, ◌≡◌, some, arith}
use seafile_server_learn.Prelude.Text.{Text, str_eq_iff}
use seafile_server_learn.Fs.Object.{SeafDir}
use seafile_server_learn.Fs.Store.{FsStore, get_seafdir, seaf_dir_save}

-- Whatever directory could be read before can be read after, unchanged.
pub record Extends (version : ℕ) (old new : FsStore) : Type 0 where
  pub at_id :
      (id : Text) (dir : SeafDir)
      → get_seafdir old version id ≡ some dir
      → get_seafdir new version id ≡ some dir

pub Extends-trans :
    {version : ℕ} {a b c : FsStore}
    → Extends version a b
    → Extends version b c
    → Extends version a c
Extends-trans h k = record { at_id = λ id dir e. k.at_id id dir (h.at_id id dir e) }

pub Extends-refl : (version : ℕ) (fs : FsStore) → Extends version fs fs
Extends-refl version fs = record { at_id = λ id dir e. e }

-- A save adds a directory under an id that holds no object yet.
pub seaf_dir_save-Extends :
    (version : ℕ) (dir : SeafDir) (fs : FsStore) → Extends version fs (seaf_dir_save dir fs).1
unfolding seaf_dir_save get_seafdir
seaf_dir_save-Extends version dir fs = record {
  at_id = λ id d h. ground (arith, str_eq_iff dir.dir_id id);
}
