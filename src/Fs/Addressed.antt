-- ===== src/Fs/Addressed.antt =====
-- common/fs-mgr.c: a store in which every object stands under the digest of its content. The digest
-- is assumed to tell directories apart.
use seafile_server_learn.Prelude.{
  ℕ, ◌≡◌, ◌≢◌, refl, sym, ap, ◌∙◌, true, false, none, some, List, [], ◌∷◌, arith, Bool-cases,
  Option-cases, inl, inr, ◌⊎◌, if◌then◌else◌,
}
use seafile_server_learn.Prelude.Text.{Text, str_eq, str_eq_iff, str_eq_refl}
use seafile_server_learn.Prelude.Exec.{ok, failed, out_of_fuel, Outcome}
use seafile_server_learn.Fs.Object.{SeafDirent, SeafDir}
use seafile_server_learn.Fs.Store.{
  FsStore, get_seafdir, seaf_dir_new, seaf_dir_save, empty_sha1, obj_exists,
}

-- SHA-1 on the serialised directories: no collision, and never forty zeros. Entries are compared with the
-- fields that the JSON form leaves out as reading fills them.
pub record IsDigest (digest : ℕ → List SeafDirent → Text) : Type 0 where
  pub entries_eq : (v w : ℕ) (ds es : List SeafDirent) → digest v ds ≡ digest w es → ds ≡ es
  pub not_empty : (v : ℕ) (ds : List SeafDirent) → digest v ds ≢ empty_sha1

-- Directories stand under their digest, and no file does.
pub record IsAddressed (digest : ℕ → List SeafDirent → Text) (s : FsStore) : Type 0 where
  pub own_id : (id : Text) (dir : SeafDir) → s.dirs id ≡ some dir → dir.dir_id ≡ id
  pub own_digest :
      (id : Text) (dir : SeafDir) → s.dirs id ≡ some dir → id ≡ digest dir.version dir.entries
  pub no_file : (v : ℕ) (ds : List SeafDirent) → s.files (digest v ds) ≡ none

module _ (digest : ℕ → List SeafDirent → Text) (good : IsDigest digest) where
  pub get_seafdir-dir_id :
      (s : FsStore) (version : ℕ) (id : Text) (dir : SeafDir)
      → IsAddressed digest s
      → get_seafdir s version id ≡ some dir
      → dir.dir_id ≡ id
  unfolding get_seafdir
  get_seafdir-dir_id s version id dir a h = elim (Bool-cases (str_eq id empty_sha1)) [
    | inl e ↦
        let same = (str_eq_iff id empty_sha1).0 e in
        let zeros : empty_sha1 ≡ dir.dir_id = ground arith in sym zeros ∙ sym same
    | inr ne ↦ a.own_id id dir (ground arith)
  ]

  -- A saved directory can be read under the new id, with the entries that it was made of.
  pub record Saved (s : FsStore) (version : ℕ) (id : Text) (es : List SeafDirent) : Type 0 where
    pub addressed : IsAddressed digest s
    pub dir : SeafDir
    pub readable : get_seafdir s version id ≡ some dir
    pub same_entries : dir.entries ≡ es

  read_back :
      (s : FsStore) (version v : ℕ) (ds : List SeafDirent) (dir : SeafDir)
      → s.dirs (digest v ds) ≡ some dir
      → get_seafdir s version (digest v ds) ≡ some dir
  unfolding get_seafdir
  read_back s version v ds dir h = elim (Bool-cases (str_eq (digest v ds) empty_sha1)) [
    | inl e ↦ absurd (good.not_empty v ds ((str_eq_iff (digest v ds) empty_sha1).0 e))
    | inr ne ↦ rw ne h
  ]

  add : SeafDir → FsStore → FsStore
  add dir s = record s { dirs = λ id. if str_eq dir.dir_id id then some dir else s.dirs id }

  add-IsAddressed :
      (s : FsStore) (v : ℕ) (ds : List SeafDirent) (dir : SeafDir)
      → IsAddressed digest s
      → dir.dir_id ≡ digest v ds
      → dir.version ≡ v
      → dir.entries ≡ ds
      → IsAddressed digest (add dir s)
  unfolding add
  add-IsAddressed s v ds dir a hid hv he = record {
    own_id = λ id d h. id_of id d h (Bool-cases (str_eq dir.dir_id id));
    own_digest = λ id d h. digest_of id d h (Bool-cases (str_eq dir.dir_id id));
    no_file = a.no_file;
  }
    where
      id_of :
          (id : Text) (d : SeafDir)
          → (if str_eq dir.dir_id id then some dir else s.dirs id) ≡ some d
          → ((str_eq dir.dir_id id ≡ true) ⊎ (str_eq dir.dir_id id ≡ false))
          → d.dir_id ≡ id
      id_of id d h (inl e) =
          let same : dir ≡ d = ground arith in
          ap (λ d. d.dir_id) (sym same) ∙ (str_eq_iff dir.dir_id id).0 e
      id_of id d h (inr ne) = a.own_id id d (ground arith)

      digest_of :
          (id : Text) (d : SeafDir)
          → (if str_eq dir.dir_id id then some dir else s.dirs id) ≡ some d
          → ((str_eq dir.dir_id id ≡ true) ⊎ (str_eq dir.dir_id id ≡ false))
          → id ≡ digest d.version d.entries
      digest_of id d h (inl e) =
          let same : dir ≡ d = ground arith in
          let at_id = (str_eq_iff dir.dir_id id).0 e in cc (same, at_id, hid, hv, he)
      digest_of id d h (inr ne) = a.own_digest id d (ground arith)

  -- What `seaf_dir_save` of a new directory leaves, where it returns 0.
  abbrev pub SavedBy : ℕ → SeafDir → Outcome (Unit {0}) × FsStore → Type 0
  SavedBy version dir (ok a, s) = Saved s version dir.dir_id dir.entries
  SavedBy version dir (failed, s) = IsAddressed digest s
  SavedBy version dir (out_of_fuel, s) = ⊥

  pub seaf_dir_save-Saved :
      (s : FsStore) (version v : ℕ) (es : List SeafDirent)
      → IsAddressed digest s
      → SavedBy version (seaf_dir_new digest es v) (seaf_dir_save (seaf_dir_new digest es v) s)
  unfolding seaf_dir_new seaf_dir_save get_seafdir obj_exists add
  seaf_dir_save-Saved s version v [] a = empty (str_eq_refl empty_sha1)
    where
      empty :
          str_eq empty_sha1 empty_sha1 ≡ true
          → SavedBy version (seaf_dir_new digest [] v) (seaf_dir_save (seaf_dir_new digest [] v) s)
      empty e =
          rw (e, seaf_dir_save)
            (record {
              addressed = a;
              dir = record { version = version; dir_id = empty_sha1; entries = [] };
              readable = rw e refl;
              same_entries = refl;
            })
  seaf_dir_save-Saved s version v (d ∷ ds) a =
      by_cases (Bool-cases (str_eq (digest v (d ∷ ds)) empty_sha1))
        (Option-cases (s.dirs (digest v (d ∷ ds)))) (Bool-cases (s.writable (digest v (d ∷ ds))))
    where
      by_cases :
          ((str_eq (digest v (d ∷ ds)) empty_sha1 ≡ true)
            ⊎ (str_eq (digest v (d ∷ ds)) empty_sha1 ≡ false))
          → ((s.dirs (digest v (d ∷ ds)) ≡ none)
              ⊎ ((dir : SeafDir) × (s.dirs (digest v (d ∷ ds)) ≡ some dir)))
          → ((s.writable (digest v (d ∷ ds)) ≡ true) ⊎ (s.writable (digest v (d ∷ ds)) ≡ false))
          → SavedBy version
              (seaf_dir_new digest (d ∷ ds) v)
              (seaf_dir_save (seaf_dir_new digest (d ∷ ds) v) s)
      by_cases (inl e) old w =
          absurd (good.not_empty v (d ∷ ds) ((str_eq_iff (digest v (d ∷ ds)) empty_sha1).0 e))
      by_cases (inr ne) (inr (dir, found)) w =
          let same =
            good.entries_eq dir.version v dir.entries (d ∷ ds) (sym (a.own_digest _ dir found)) in
          let exists : obj_exists s (digest v (d ∷ ds)) ≡ true = rw found refl in
          rw (ne, exists, seaf_dir_save)
            (record {
              addressed = a;
              dir = dir;
              readable = read_back s version v (d ∷ ds) dir found;
              same_entries = same;
            })
      by_cases (inr ne) (inl new) (inr refused) =
          let absent : obj_exists s (digest v (d ∷ ds)) ≡ false =
            rw (new, a.no_file v (d ∷ ds)) refl in
          rw (ne, absent, refused, seaf_dir_save) a
      by_cases (inr ne) (inl new) (inl writes) =
          let dir = seaf_dir_new digest (d ∷ ds) v in
          let absent : obj_exists s (digest v (d ∷ ds)) ≡ false =
            rw (new, a.no_file v (d ∷ ds)) refl in
          let found : (add dir s).dirs (digest v (d ∷ ds)) ≡ some dir =
            rw (str_eq_refl (digest v (d ∷ ds))) refl in
          rw (ne, absent, writes, seaf_dir_save)
            (record {
              addressed = add-IsAddressed s v (d ∷ ds) dir a refl refl refl;
              dir = dir;
              readable = read_back (add dir s) version v (d ∷ ds) dir found;
              same_entries = refl;
            })
