-- ===== src/RepoOp/Saved.antt =====
-- server/repo-op.c: the new directories that `edit_dir` saves, and the entries found in them.
use mathlib.Core.Path.{subst}
use seafile_server_learn.Prelude.{
  ℕ, ◌==◌, ◌≡◌, ◌≢◌, refl, sym, ap, ◌∙◌, Bool, true, false, some, List, [], ◌∷◌, arith, Bool-cases,
  inl, inr, ◌⊎◌,
}
use seafile_server_learn.Prelude.Text.{Text, str_eq, str_eq_iff}
use seafile_server_learn.Prelude.Exec.{Outcome, ok, failed, out_of_fuel, resume}
use seafile_server_learn.Fs.Object.{SeafDirent}
use seafile_server_learn.Fs.Store.{
  FsStore, seaf_dir_new, seaf_dir_save, dir_version_from_repo_version,
}
use seafile_server_learn.Fs.Extends.{Extends, seaf_dir_save-Extends}
use seafile_server_learn.Fs.Lookup.{find_dent}
use seafile_server_learn.Fs.Addressed.{IsDigest, IsAddressed, Saved, SavedBy, seaf_dir_save-Saved}
use seafile_server_learn.RepoOp.Edit.{Env, set_id, save_entries, update_dent}

pub find_dent-set_id :
    (name : Text) (update : SeafDirent → SeafDirent) (es : List SeafDirent) (d : SeafDirent)
    → ((d : SeafDirent) → (update d).name ≡ d.name)
    → find_dent name es ≡ some d
    → find_dent name (set_id name update es) ≡ some (update d)
unfolding find_dent set_id
find_dent-set_id name update [] d keeps h = ground arith
find_dent-set_id name update (e ∷ es) d keeps h = elim (Bool-cases (str_eq e.name name)) [
  | inl same ↦
      let kept = keeps e in
      let here : str_eq (update e).name name ≡ true =
        subst (λ n. str_eq n name ≡ true) (sym kept) same in
      let first : e ≡ d = ground arith in rw (same, here) (ap (λ d. some (update d)) first)
  | inr other ↦
      let later : find_dent name es ≡ some d = ground arith in
      rw (other, other) (find_dent-set_id name update es d keeps later)
]

pub find_dent-set_id_ne :
    (name other : Text) (update : SeafDirent → SeafDirent) (es : List SeafDirent)
    → ((d : SeafDirent) → (update d).name ≡ d.name)
    → other ≢ name
    → find_dent other (set_id name update es) ≡ find_dent other es
unfolding find_dent set_id
find_dent-set_id_ne name other update [] keeps ne = refl
find_dent-set_id_ne name other update (e ∷ es) keeps ne = elim (Bool-cases (str_eq e.name name)) [
  | inl same ↦
      let kept = keeps e in
      let at_name = (str_eq_iff e.name name).0 same in
      let not_here : str_eq e.name other ≡ false =
        not_eq e at_name (Bool-cases (str_eq e.name other)) in
      let nor_there : str_eq (update e).name other ≡ false =
        subst (λ n. str_eq n other ≡ false) (sym kept) not_here in
      rw (same, not_here, nor_there) refl
  | inr differs ↦
      let ih = find_dent-set_id_ne name other update es keeps ne in rw (differs, ih) refl
]
  where
    not_eq :
        (e : SeafDirent)
        → e.name ≡ name
        → ((str_eq e.name other ≡ true) ⊎ (str_eq e.name other ≡ false))
        → str_eq e.name other ≡ false
    not_eq e at_name (inr no_match) = no_match
    not_eq e at_name (inl match_) = absurd (ne (sym ((str_eq_iff e.name other).0 match_) ∙ at_name))

module _ (env : Env) (version : ℕ) (good : IsDigest env.digest)
    (positive : (version == 0) ≡ false) where
  pub update_dent-name :
      (t : Bool) (ns : List Text) (id : Text) (d : SeafDirent)
      → (update_dent env version t ns id d).name ≡ d.name
  unfolding update_dent
  update_dent-name t ns id d = ground arith

  pub update_dent-id :
      (t : Bool) (ns : List Text) (id : Text) (d : SeafDirent)
      → (update_dent env version t ns id d).id ≡ id
  unfolding update_dent
  update_dent-id t ns id d = ground arith

  abbrev pub SavedEntries : FsStore → List SeafDirent → Outcome Text × FsStore → Type 0
  SavedEntries s es (ok id, s') = Saved env.digest good s' version id es × Extends version s s'
  SavedEntries s es (failed, s') = IsAddressed env.digest s' × Extends version s s'
  SavedEntries s es (out_of_fuel, s') = ⊥

  new_entries : (es : List SeafDirent) (v : ℕ) → (seaf_dir_new env.digest es v).entries ≡ es
  unfolding seaf_dir_new
  new_entries [] v = refl
  new_entries (d ∷ ds) v = refl

  pub save_entries-Saved :
      (s : FsStore) (es : List SeafDirent)
      → IsAddressed env.digest s
      → SavedEntries s es (save_entries env version es s)
  unfolding save_entries
  save_entries-Saved s es a =
      let v = dir_version_from_repo_version version in
      let newdir = seaf_dir_new env.digest es v in
      finish (seaf_dir_save newdir s) (seaf_dir_save-Saved env.digest good s version v es a)
        (seaf_dir_save-Extends version newdir s)
    where
      finish :
          (r : Outcome (Unit {0}) × FsStore)
          → SavedBy env.digest good version
              (seaf_dir_new env.digest es (dir_version_from_repo_version version))
              r
          → Extends version s r.1
          → SavedEntries s es (
              resume
                (λ _ s. (
                  ok (seaf_dir_new env.digest es (dir_version_from_repo_version version)).dir_id,
                  s,
                ))
                r.0
                r.1)
      finish (ok u, s') saved ext = (
        subst (Saved env.digest good s' version _)
            (new_entries es (dir_version_from_repo_version version)) saved,
        ext,
      )
      finish (failed, s') saved ext = (saved, ext)
      finish (out_of_fuel, s') saved ext = saved
