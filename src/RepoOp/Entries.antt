-- ===== src/RepoOp/Entries.antt =====
-- server/repo-op.c: what the operations do to the entries of the directory at the end of the path.
use seafile_server_learn.Prelude.{
  ℕ, ◌+◌, ◌==◌, Bool, true, false, Option, none, some, List, [], ◌∷◌, if◌then◌else◌,
}
use seafile_server_learn.Prelude.Text.{Text, str_eq}
use seafile_server_learn.Fs.Object.{SeafDirent}
use seafile_server_learn.Fs.Dirent.{renamed_copy}
use seafile_server_learn.Fs.Sorted.{Cmp, compare_dirents}

abbrev pub Insert : Type 0
Insert = Cmp → SeafDirent → List SeafDirent → List SeafDirent

-- Every entry of the new one's name is replaced.
unfoldable pub replace_dents : SeafDirent → List SeafDirent → List SeafDirent
replace_dents new [] = []
replace_dents new (d ∷ ds) = (if str_eq d.name new.name then new else d) ∷ replace_dents new ds

-- The copy of the entries without the old name.
unfoldable pub without : Text → List SeafDirent → List SeafDirent
without name [] = []
without name (d ∷ ds) = let rest = without name ds in if str_eq d.name name then rest else d ∷ rest

-- `newdent`: the last entry of the old name, under the new name.
unfoldable pub renamed_dent : Text → Text → Option SeafDirent → List SeafDirent → Option SeafDirent
renamed_dent oldname newname found [] = found
renamed_dent oldname newname found (d ∷ ds) =
    renamed_dent oldname newname
      (if str_eq d.name oldname then some (renamed_copy d newname) else found) ds

unfoldable pub insert_some : Insert → Option SeafDirent → List SeafDirent → List SeafDirent
insert_some insert none ds = ds
insert_some insert (some d) ds = insert compare_dirents d ds

unfoldable pub rename_dents : Insert → Text → Text → List SeafDirent → List SeafDirent
unfolding without renamed_dent insert_some
rename_dents insert oldname newname ds =
    insert_some insert (renamed_dent oldname newname none ds) (without oldname ds)

-- What del_file_recursive reports through its pointers: how many entries it removed, the mode of the
-- last one and the name of the first one.
pub record Deleted : Type 0 where
  pub deleted_num : ℕ
  pub mode : Option ℕ
  pub desc_file : Option Text

abbrev pub nothing_deleted : Deleted
nothing_deleted = record { deleted_num = 0; mode = none; desc_file = none }

unfoldable pub first_of : Option Text → Text → Option Text
first_of none name = some name
first_of (some old) name = some old

unfoldable pub delete_one : Deleted → SeafDirent → Deleted
unfolding first_of
delete_one del d = record {
  deleted_num = del.deleted_num + 1;
  mode = some d.mode;
  desc_file = first_of del.desc_file d.name;
}

unfoldable pub count_deleted : (Text → Bool) → Deleted → List SeafDirent → Deleted
unfolding delete_one
count_deleted listed del [] = del
count_deleted listed del (d ∷ ds) =
    count_deleted listed (if listed d.name then delete_one del d else del) ds

unfoldable pub not_listed : (Text → Bool) → List SeafDirent → List SeafDirent
not_listed listed [] = []
not_listed listed (d ∷ ds) =
    let rest = not_listed listed ds in if listed d.name then rest else d ∷ rest

unfoldable pub is_one_of : Text → List Text → Bool
is_one_of name [] = false
is_one_of name (n ∷ ns) = if str_eq name n then true else is_one_of name ns

unfoldable pub has_char : ℕ → Text → Bool
has_char c [] = false
has_char c (d ∷ ds) = if c == d then true else has_char c ds

-- The names of one argument: several, between tabs, or one.
unfoldable pub is_named : (Text → List Text) → Text → Text → Bool
unfolding is_one_of has_char
is_named split_tabs filename name =
    if has_char 9 filename then is_one_of name (split_tabs filename) else str_eq name filename
