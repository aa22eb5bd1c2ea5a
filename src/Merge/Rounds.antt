-- ===== src/Merge/Rounds.antt =====
-- One round of a three-way merge where one side did not change, or both made the same change.
use seafile_server_learn.Prelude.{
  ℕ, ◌≡◌, refl, ◌⊎◌, inl, inr, true, false, Option, none, some, List, ◌∷◌, ◌&&◌, ◌||◌,
  if◌then◌else◌, arith, Bool-cases,
}
use seafile_server_learn.Prelude.Text.{Text, str_eq, str_eq_refl, str_eq_comm}
use seafile_server_learn.Prelude.Exec.{Exec, ok}
use seafile_server_learn.Fs.Object.{SeafDirent, SeafDir, is_file, is_dir, s_isreg, s_isdir}
use seafile_server_learn.Merge.Options.{Slots, State, Env}
use seafile_server_learn.Merge.Entries.{merge_entries}
use seafile_server_learn.Merge.Directories.{merge_directories}
use seafile_server_learn.Merge.Trees.{merge_round}

-- An entry is a regular file or a directory.
abbrev pub IsEntry : SeafDirent → Type 0
IsEntry d = (is_file d ≡ true) ⊎ (is_dir d ≡ true)

abbrev pub SlotIsEntry : Option SeafDirent → Type 0
SlotIsEntry none = Unit
SlotIsEntry (some d) = IsEntry d

-- The file type of a mode.
data Kind (d : SeafDirent) : Type 0 where
  file : is_file d ≡ true → is_dir d ≡ false → Kind d
  dir : is_file d ≡ false → is_dir d ≡ true → Kind d
  other : is_file d ≡ false → is_dir d ≡ false → Kind d

kind : (d : SeafDirent) → Kind d
unfolding s_isreg s_isdir
kind d = elim (Bool-cases (is_file d)) [
  | inl f ↦ file f (ground arith)
  | inr f ↦ elim (Bool-cases (is_dir d)) [ inl g ↦ dir f g | inr g ↦ other f g ]
]

abbrev pub prepend : Option SeafDirent → List SeafDirent → List SeafDirent
prepend none out = out
prepend (some d) out = d ∷ out

-- Remote's entry, or head's where both have the same kind and id.
abbrev pub pick_remote : Option SeafDirent → Option SeafDirent → Option SeafDirent
pick_remote head none = none
pick_remote none (some remote) = some remote
pick_remote (some head) (some remote) =
    if is_dir head && is_dir remote || is_file head && is_file remote
    then (if str_eq head.id remote.id then some head else some remote)
    else some remote

module _ {D : Type 0} (env : Env D) (version : ℕ)
    (recur : Slots SeafDir → Text → Exec (State D) Unit) (basedir : Text) (out : List SeafDirent)
    (s : State D) (real : s.opt.do_merge ≡ true) where
  pub round-remote_unchanged :
      (x y : Option SeafDirent)
      → SlotIsEntry y
      → merge_round env version 3 recur (record { at0 = x; at1 = y; at2 = x }) basedir out s
        ≡ (ok (prepend y out), s)
  unfolding merge_round merge_entries merge_directories
  round-remote_unchanged none none v = refl
  round-remote_unchanged none (some h) v = elim (kind h) [
    | file f d ↦ simp (real, f, d)
    | dir f d ↦ simp (real, f, d)
    | other f d ↦ absurd (ground arith)
  ]
  round-remote_unchanged (some b) none v = elim (kind b) [
    | file f d ↦ simp (real, f, d, str_eq_refl)
    | dir f d ↦ simp (real, f, d, str_eq_refl)
    | other f d ↦ simp (f, d)
  ]
  round-remote_unchanged (some b) (some h) v = elim (kind b) [
    | file f d ↦ elim (kind h) [
      | file f' d' ↦ elim (Bool-cases (str_eq h.id b.id)) [
        | inl same ↦ simp (real, f, d, f', d', same)
        | inr new ↦ simp (real, f, d, f', d', str_eq_refl, str_eq_comm b.id h.id, new)
      ]
      | dir f' d' ↦ simp (real, f, d, f', d', str_eq_refl)
      | other f' d' ↦ absurd (ground arith)
    ]
    | dir f d ↦ elim (kind h) [
      | file f' d' ↦ simp (real, f, d, f', d', str_eq_refl)
      | dir f' d' ↦ elim (Bool-cases (str_eq h.id b.id)) [
        | inl same ↦ simp (real, f, d, f', d', same)
        | inr new ↦ simp (real, f, d, f', d', str_eq_refl, str_eq_comm b.id h.id, new)
      ]
      | other f' d' ↦ absurd (ground arith)
    ]
    | other f d ↦ elim (kind h) [
      | file f' d' ↦ simp (real, f, d, f', d', str_eq_refl)
      | dir f' d' ↦ simp (real, f, d, f', d', str_eq_refl)
      | other f' d' ↦ absurd (ground arith)
    ]
  ]

  pub round-head_unchanged :
      (x z : Option SeafDirent)
      → SlotIsEntry x
      → SlotIsEntry z
      → merge_round env version 3 recur (record { at0 = x; at1 = x; at2 = z }) basedir out s
        ≡ (ok (prepend (pick_remote x z) out), s)
  unfolding merge_round merge_entries merge_directories
  round-head_unchanged none none vx vz = refl
  round-head_unchanged none (some r) vx vz = elim (kind r) [
    | file f d ↦ simp (real, f, d)
    | dir f d ↦ simp (real, f, d)
    | other f d ↦ absurd (ground arith)
  ]
  round-head_unchanged (some h) none vx vz = elim (kind h) [
    | file f d ↦ simp (real, f, d, str_eq_refl)
    | dir f d ↦ simp (real, f, d, str_eq_refl)
    | other f d ↦ absurd (ground arith)
  ]
  round-head_unchanged (some h) (some r) vx vz = elim (kind h) [
    | file f d ↦ elim (kind r) [
      | file f' d' ↦ elim (Bool-cases (str_eq h.id r.id)) [
        | inl same ↦ simp (real, f, d, f', d', same)
        | inr new ↦ simp (real, f, d, f', d', str_eq_refl, new)
      ]
      | dir f' d' ↦ simp (real, f, d, f', d', str_eq_refl)
      | other f' d' ↦ absurd (ground arith)
    ]
    | dir f d ↦ elim (kind r) [
      | file f' d' ↦ simp (real, f, d, f', d', str_eq_refl)
      | dir f' d' ↦ elim (Bool-cases (str_eq h.id r.id)) [
        | inl same ↦ simp (real, f, d, f', d', same)
        | inr new ↦ simp (real, f, d, f', d', str_eq_refl, new)
      ]
      | other f' d' ↦ absurd (ground arith)
    ]
    | other f d ↦ absurd (ground arith)
  ]

  pub round-same_change :
      (x y : Option SeafDirent)
      → SlotIsEntry y
      → merge_round env version 3 recur (record { at0 = x; at1 = y; at2 = y }) basedir out s
        ≡ (ok (prepend y out), s)
  unfolding merge_round merge_entries merge_directories
  round-same_change none none v = refl
  round-same_change (some b) none v = elim (kind b) [
    | file f d ↦ simp (real, f, d)
    | dir f d ↦ simp (real, f, d)
    | other f d ↦ simp (f, d)
  ]
  round-same_change none (some h) v = elim (kind h) [
    | file f d ↦ simp (real, f, d, str_eq_refl)
    | dir f d ↦ simp (real, f, d, str_eq_refl)
    | other f d ↦ absurd (ground arith)
  ]
  round-same_change (some b) (some h) v = elim (kind h) [
    | file f d ↦ elim (kind b) [
      | file f' d' ↦ simp (real, f, d, f', d', str_eq_refl)
      | dir f' d' ↦ simp (real, f, d, f', d', str_eq_refl)
      | other f' d' ↦ simp (real, f, d, f', d', str_eq_refl)
    ]
    | dir f d ↦ elim (kind b) [
      | file f' d' ↦ simp (real, f, d, f', d', str_eq_refl)
      | dir f' d' ↦ simp (real, f, d, f', d', str_eq_refl)
      | other f' d' ↦ simp (real, f, d, f', d', str_eq_refl)
    ]
    | other f d ↦ absurd (ground arith)
  ]
