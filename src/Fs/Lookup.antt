-- ===== src/Fs/Lookup.antt =====
-- common/fs-mgr.c: looking a path up, name by name.
use seafile_server_learn.Prelude.{
  ℕ, ◌==◌, ◌≡◌, refl, ◌∙◌, ◌&&◌, Option, none, some, List, [], ◌∷◌, if◌then◌else◌, arith,
  Option-cases, inl, inr,
}
use seafile_server_learn.Prelude.Text.{Text, str_eq}
use seafile_server_learn.Fs.Object.{SeafDirent, SeafDir, is_dir}
use seafile_server_learn.Fs.Store.{FsStore, get_seafdir}
use seafile_server_learn.Fs.Extends.{Extends}

-- The character goes before the first name.
abbrev pub extend_head : ℕ → List Text → List Text
extend_head c [] = (c ∷ []) ∷ []
extend_head c (n ∷ ns) = (c ∷ n) ∷ ns

-- The names between slashes, as `strchr (path, '/')` takes them off one by one until nothing remains.
unfoldable pub path_names : Text → List Text
path_names [] = []
path_names (c ∷ cs) =
    let names = path_names cs in if c == 47 then [] ∷ names else extend_head c names

-- Without the empty names, as `strtok_r (path, "/")` takes them.
unfoldable pub tokens : List Text → List Text
tokens [] = []
tokens ([] ∷ ns) = tokens ns
tokens ((c ∷ cs) ∷ ns) = (c ∷ cs) ∷ tokens ns

-- The first entry of this name.
unfoldable pub find_dent : Text → List SeafDirent → Option SeafDirent
find_dent name [] = none
find_dent name (d ∷ ds) = if str_eq d.name name then some d else find_dent name ds

-- The first directory of this name.
unfoldable pub find_dir : Text → List SeafDirent → Option SeafDirent
find_dir name [] = none
find_dir name (d ∷ ds) = if str_eq d.name name && is_dir d then some d else find_dir name ds

-- The directory, or SEAF_ERR_DIR_MISSING or SEAF_ERR_PATH_NO_EXIST.
pub data Located : Type 0 where
  located : SeafDir → Located
  dir_missing : Located
  path_no_exist : Located

module _ (s : FsStore) (version : ℕ) where
  abbrev pub or_missing : Option SeafDir → Located
  or_missing none = dir_missing
  or_missing (some dir) = located dir

  -- The loop over the names, from a directory that was read.
  unfoldable pub walk : List Text → Located → Located
  walk names dir_missing = dir_missing
  walk names path_no_exist = path_no_exist
  walk [] (located dir) = located dir
  walk (n ∷ ns) (located dir) = elim (find_dir n dir.entries) [
    | none ↦ path_no_exist
    | some d ↦ walk ns (or_missing (get_seafdir s version d.id))
  ]

  unfoldable pub get_seafdir_by_path : Text → Text → Located
  unfolding walk path_names tokens
  get_seafdir_by_path root_id path =
      walk (tokens (path_names path)) (or_missing (get_seafdir s version root_id))

  unfoldable pub entry_in : Text → Text → Option SeafDirent
  entry_in id n = elim (get_seafdir s version id) [
    | none ↦ none
    | some dir ↦ find_dent n dir.entries
  ]

  -- The entry that a name and the names below it lead to.
  unfoldable pub entry_at : Text → Text → List Text → Option SeafDirent
  entry_at id n [] = entry_in id n
  entry_at id n (m ∷ ms) = elim (entry_in id n) [ none ↦ none | some d ↦ entry_at d.id m ms ]

  -- The directory that the names lead to.
  unfoldable pub dir_at : Text → List Text → Option SeafDir
  dir_at id [] = get_seafdir s version id
  dir_at id (n ∷ ns) = elim (entry_in id n) [ none ↦ none | some d ↦ dir_at d.id ns ]

  pub dir_at-cons :
      (id n : Text) (ns : List Text) (d : SeafDirent)
      → entry_in id n ≡ some d
      → dir_at id (n ∷ ns) ≡ dir_at d.id ns
  unfolding dir_at
  dir_at-cons id n ns d h = rw (h, dir_at) refl

  pub dir_at-some :
      (id n : Text) (ns : List Text) (dir : SeafDir)
      → dir_at id (n ∷ ns) ≡ some dir
      → (d : SeafDirent) × (entry_in id n ≡ some d) × (dir_at d.id ns ≡ some dir)
  unfolding dir_at
  dir_at-some id n ns dir h = elim (Option-cases (entry_in id n)) [
    | inl missing ↦ absurd (ground arith)
    | inr (d, found) ↦ (d, found, ground arith)
  ]

  pub entry_in_lem :
      (id n : Text) (dir : SeafDir)
      → get_seafdir s version id ≡ some dir
      → entry_in id n ≡ find_dent n dir.entries
  unfolding entry_in
  entry_in_lem id n dir h = rw (h, entry_in) refl

  pub entry_in-some :
      (id n : Text) (d : SeafDirent)
      → entry_in id n ≡ some d
      → (dir : SeafDir) × (get_seafdir s version id ≡ some dir) × (find_dent n dir.entries ≡ some d)
  unfolding entry_in
  entry_in-some id n d h = elim (Option-cases (get_seafdir s version id)) [
    | inl missing ↦ absurd (ground arith)
    | inr (dir, found) ↦ (dir, found, ground arith)
  ]

  pub entry_at-cons :
      (id n m : Text) (ms : List Text) (d : SeafDirent)
      → entry_in id n ≡ some d
      → entry_at id n (m ∷ ms) ≡ entry_at d.id m ms
  unfolding entry_at
  entry_at-cons id n m ms d h = rw (h, entry_at) refl

  pub entry_at-some :
      (id n m : Text) (ms : List Text) (e : SeafDirent)
      → entry_at id n (m ∷ ms) ≡ some e
      → (d : SeafDirent) × (entry_in id n ≡ some d) × (entry_at d.id m ms ≡ some e)
  unfolding entry_at
  entry_at-some id n m ms e h = elim (Option-cases (entry_in id n)) [
    | inl missing ↦ absurd (ground arith)
    | inr (d, found) ↦ (d, found, ground arith)
  ]

-- What is found in a store is found in a larger one.
pub entry_in-Extends :
    (version : ℕ) (old new : FsStore) (id n : Text) (d : SeafDirent)
    → Extends version old new
    → entry_in old version id n ≡ some d
    → entry_in new version id n ≡ some d
entry_in-Extends version old new id n d ext h =
    let (dir, read, found) = entry_in-some old version id n d h in
    entry_in_lem new version id n dir (ext.at_id id dir read) ∙ found

pub entry_at-Extends :
    (version : ℕ) (old new : FsStore) (id n : Text) (ns : List Text) (d : SeafDirent)
    → Extends version old new
    → entry_at old version id n ns ≡ some d
    → entry_at new version id n ns ≡ some d
unfolding entry_at
entry_at-Extends version old new id n [] d ext h = entry_in-Extends version old new id n d ext h
entry_at-Extends version old new id n (m ∷ ms) d ext h =
    let (e, first, rest) = entry_at-some old version id n m ms d h in
    let below = entry_at-Extends version old new e.id m ms d ext rest in
    entry_at-cons new version id n m ms e (entry_in-Extends version old new id n e ext first)
    ∙ below

pub dir_at-Extends :
    (version : ℕ) (old new : FsStore) (id : Text) (ns : List Text) (dir : SeafDir)
    → Extends version old new
    → dir_at old version id ns ≡ some dir
    → dir_at new version id ns ≡ some dir
unfolding dir_at
dir_at-Extends version old new id [] dir ext h = ext.at_id id dir h
dir_at-Extends version old new id (n ∷ ns) dir ext h =
    let (d, first, rest) = dir_at-some old version id n ns dir h in
    dir_at-cons new version id n ns d (entry_in-Extends version old new id n d ext first)
    ∙ dir_at-Extends version old new d.id ns dir ext rest
