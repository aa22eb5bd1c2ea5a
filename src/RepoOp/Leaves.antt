-- ===== src/RepoOp/Leaves.antt =====
-- server/repo-op.c: what the operations do at the end of the path, and a leaf that saved new entries.
use mathlib.Core.Path.{subst}
use seafile_server_learn.Prelude.{
  ◌+◌, length, is_some, ℕ, ◌==◌, ◌≡◌, ◌≢◌, sym, ap, ◌∙◌, Bool, true, false, none, some, List, [],
  ◌∷◌, if◌then◌else◌,
}
use seafile_server_learn.Prelude.Text.{Text}
use seafile_server_learn.Prelude.Exec.{Outcome, ok, failed, out_of_fuel, resume}
use seafile_server_learn.Fs.Object.{s_isreg, SeafDirent, SeafDir}
use seafile_server_learn.Fs.Dirent.{renamed_copy}
use seafile_server_learn.Utils.Hex.{is_object_id_valid}
use seafile_server_learn.Fs.Store.{FsStore, get_seafdir}
use seafile_server_learn.Fs.Extends.{Extends}
use seafile_server_learn.Fs.Lookup.{
  find_dent, entry_in, entry_at, entry_in_lem, entry_at-cons, entry_at-some, entry_at-Extends,
  dir_at,
}
use seafile_server_learn.Fs.Addressed.{IsDigest, Saved}
use seafile_server_learn.RepoOp.Names.{filename_exists, generate_unique_filename}
use seafile_server_learn.RepoOp.Entries.{
  renamed_dent, Deleted, nothing_deleted, count_deleted, is_named,
}
use seafile_server_learn.RepoOp.Edit.{Env}
use seafile_server_learn.RepoOp.Saved.{SavedEntries}
use seafile_server_learn.RepoOp.Refine.{Apart, below, Edits}

-- Put: the new entry in the place of the one of its name, where there is one.
abbrev pub PutNew : SeafDirent → List SeafDirent → List SeafDirent → Unit {0} → Type 0
PutNew newdent es es' a =
    find_dent newdent.name es' ≡ (if filename_exists es newdent.name then some newdent else none)

abbrev pub NotName : Text → Text → Type 0
NotName name m = m ≢ name

-- Post: the new entry under a name that no entry had.
abbrev pub PostNew : SeafDirent → List SeafDirent → List SeafDirent → Unit {0} → Type 0
PostNew newdent es es' a =
    (name : Text) × (generate_unique_filename newdent.name es ≡ some name)
    × (find_dent name es ≡ none)
    × (find_dent name es' ≡ some (renamed_copy newdent name))

abbrev pub AnyName : Text → Type 0
AnyName m = Unit {0}

-- Rename: nothing of the old name, and the entry under the new one if the name was free.
abbrev pub RenameNew : Text → Text → List SeafDirent → List SeafDirent → Unit {0} → Type 0
RenameNew oldname newname es es' a =
    (find_dent oldname es' ≡ none)
    × ((d : SeafDirent)
        → renamed_dent oldname newname none es ≡ some d
        → find_dent newname es ≡ none
        → find_dent newname es' ≡ some d)

abbrev pub Neither : Text → Text → Text → Type 0
Neither oldname newname m = (m ≢ oldname) × (m ≢ newname)

-- An entry that parse_dirent accepts when it is read back.
abbrev pub IsReadable : SeafDirent → Type 0
IsReadable d =
    (is_object_id_valid d.id ≡ true) × (s_isreg d.mode ≡ true → is_some d.modifier ≡ true)

-- Delete: no entry of a name that was given, and the report counts what was removed.
abbrev pub DelNew : (Text → List Text) → Text → List SeafDirent → List SeafDirent → Deleted → Type 0
DelNew split_tabs filename es es' del =
    (del ≡ count_deleted (is_named split_tabs filename) nothing_deleted es)
    × (length es' + del.deleted_num ≡ length es)
    × ((m : Text) → is_named split_tabs filename m ≡ true → find_dent m es' ≡ none)

abbrev pub NotNamed : (Text → List Text) → Text → Text → Type 0
NotNamed split_tabs filename m = is_named split_tabs filename m ≡ false

module _ (env : Env) (version : ℕ) (good : IsDigest env.digest)
    (positive : (version == 0) ≡ false) where
  module _ {A : Type 0} (changed : A → Bool) (Other : Text → Type 0)
      (New : List SeafDirent → List SeafDirent → A → Type 0) (s : FsStore) (id : Text)
      (dir : SeafDir) (read : get_seafdir s version id ≡ some dir) where
    -- The entries that are kept are found in the new directory, with all below them.
    leaf_others :
        (s' : FsStore) (id' : Text) (es : List SeafDirent)
        → Saved env.digest good s' version id' es
        → Extends version s s'
        → ((m : Text) (d : SeafDirent)
            → Other m
            → find_dent m dir.entries ≡ some d
            → find_dent m es ≡ some d)
        → (m : Text) (ks : List Text) (x : SeafDirent) → Apart Other [] m ks
        → entry_at s version id m ks ≡ some x
        → entry_at s' version id' m ks ≡ some x
    unfolding entry_at
    leaf_others s' id' es saved ext kept m ks x (below other) h = at_path ks h
      where
        same_entry :
            (d : SeafDirent) → entry_in s version id m ≡ some d → entry_in s' version id' m ≡ some d
        same_entry d first =
            entry_in_lem s' version id' m saved.dir saved.readable
            ∙ ap (find_dent m) saved.same_entries
            ∙ kept m d other (sym (entry_in_lem s version id m dir read) ∙ first)

        at_path :
            (ks : List Text)
            → entry_at s version id m ks ≡ some x
            → entry_at s' version id' m ks ≡ some x
        at_path [] h = same_entry x h
        at_path (k ∷ ks) h =
            let (d, first, rest) = entry_at-some s version id m k ks x h in
            entry_at-cons s' version id' m k ks d (same_entry d first)
            ∙ entry_at-Extends version s s' d.id k ks x ext rest

    -- A leaf that saved the entries `es` and returned `a` with their id.
    pub saved-Edits :
        (es : List SeafDirent) (a : A) (r : Outcome Text × FsStore)
        → SavedEntries env version good positive s es r
        → changed a ≡ true
        → New dir.entries es a
        → ((m : Text) (d : SeafDirent)
            → Other m
            → find_dent m dir.entries ≡ some d
            → find_dent m es ≡ some d)
        → Edits env version good positive changed Other New s id []
            (resume (λ id s. (ok (id, a), s)) r.0 r.1)
    unfolding dir_at
    saved-Edits es a (failed, s') h ch new kept = h
    saved-Edits es a (out_of_fuel, s') h ch new kept = h
    saved-Edits es a (ok id', s') (saved, ext) ch new kept = (
      saved.addressed,
      ext,
      record {
        old_dir = dir;
        new_dir = saved.dir;
        was_there = read;
        is_there = saved.readable;
        unchanged = λ e. absurd (cc (e, ch));
        is_new = subst (λ l. New dir.entries l a) (sym saved.same_entries) new;
        others = λ m ks x apart h. leaf_others s' id' es saved ext kept m ks x apart h;
      },
    )
