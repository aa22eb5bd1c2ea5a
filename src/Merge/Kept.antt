-- ===== src/Merge/Kept.antt =====
-- Three-way merge loses no edit: a file that head or remote changed or added is in the result.
use mathlib.Core.Path.{subst, ap₂}
use seafile_server_learn.Prelude.{
  ◌≡◌, ◌≢◌, refl, sym, ap, ◌∙◌, inl, inr, true, false, Bool, Option, none, some, List, ◌∷◌, In,
  here, there, if◌then◌else◌, ◌⊎◌,
}
use seafile_server_learn.Prelude.Text.{Text, str_eq, str_eq_iff}
use seafile_server_learn.Prelude.Int.{ℤ}
use seafile_server_learn.Prelude.Exec.{Outcome, Exec, ok, failed, out_of_fuel}
use seafile_server_learn.Fs.Object.{SeafDirent, rename}
use seafile_server_learn.Vc.ConflictPath.{gen_conflict_path, gen_conflict_path-longer}
use seafile_server_learn.Merge.Options.{
  Slots, State, Env, merge_conflict_filename-Named, merge_conflict_dirname-Named,
}
use seafile_server_learn.Merge.Entries.{
  Merged, as_file, has_id, set_conflict, merge_entries, merge_files, merge_both, merge_no_head,
  merge_no_remote, merge_remote_only, merge_head_only, rename_remote_file, rename_remote_dir,
}

-- If the step returns, its result satisfies `P`.
abbrev Yields : {D A : Type 0} → (A → State D → Type 0) → Outcome A × State D → Type 0
Yields P (ok a, s) = P a s
Yields P (failed, s) = Unit
Yields P (out_of_fuel, s) = Unit

Yields-if :
    {D A : Type 0} (P : A → State D → Type 0) (b : Bool) (m k : Exec (State D) A) (s : State D)
    → (b ≡ true → Yields P (m s))
    → (b ≡ false → Yields P (k s))
    → Yields P ((if b then m else k) s)
Yields-if P true m k s h₁ h₂ = h₁ refl
Yields-if P false m k s h₁ h₂ = h₂ refl

Yields-ok :
    {D A : Type 0} (P : A → State D → Type 0) (r : Outcome A × State D) {a : A} {s : State D}
    → Yields P r
    → r ≡ (ok a, s)
    → P a s
Yields-ok P r h e = subst (Yields P) e h

-- The name itself, or a conflict name made from it.
abbrev pub IsNameFor : (ℤ → Text) → Text → Text → Type 0
IsNameFor strftime name n =
    (n ≡ name)
    ⊎ ((modifier : Option Text) × (mtime : ℤ) × (n
          ≡ gen_conflict_path strftime name modifier mtime))

-- An entry with the content of `entry`, under its name or a conflict name.
abbrev pub Holds : (ℤ → Text) → SeafDirent → List SeafDirent → Type 0
Holds strftime entry out =
    (d : SeafDirent) × In d out × (d.id ≡ entry.id) × IsNameFor strftime entry.name d.name

module _ {D : Type 0} (env : Env D) (dents : Slots SeafDirent) (basedir : Text)
    (out : List SeafDirent) (s : State D) where
  abbrev KeepsHead : SeafDirent → Merged → State D → Type 0
  KeepsHead head m t = In head m.1

  abbrev KeepsRemote : SeafDirent → Merged → State D → Type 0
  KeepsRemote remote m t = Holds env.strftime remote m.1

  merge_both-KeepsHead :
      (base : Option SeafDirent) (head remote : SeafDirent)
      → has_id base head.id ≡ false
      → Yields (KeepsHead head) (merge_both env dents basedir base head remote out s)
  unfolding merge_both
  merge_both-KeepsHead base head remote new =
      Yields-if (KeepsHead head) (str_eq head.id remote.id) _ _ s (λ _. here refl)
        λ _.
          Yields-if (KeepsHead head) (has_id base head.id) _ _ s (λ old. absurd (cc))
            λ _.
              Yields-if (KeepsHead head) (has_id base remote.id) _ _ s (λ _. here refl)
                λ _. elim (merge_conflict_filename-Named env basedir head.name s) [
                  | inl no_name ↦ rw no_name tt
                  | inr (_, _, named) ↦ rw named (there (here refl))
                ]

  merge_both-KeepsRemote :
      (base : Option SeafDirent) (head remote : SeafDirent)
      → head.name ≡ remote.name
      → has_id base remote.id ≡ false
      → Yields (KeepsRemote remote) (merge_both env dents basedir base head remote out s)
  unfolding merge_both rename
  merge_both-KeepsRemote base head remote one new =
      Yields-if (KeepsRemote remote) (str_eq head.id remote.id) _ _ s
        (λ same. (head, here refl, (str_eq_iff head.id remote.id).0 same, inl one))
        λ _.
          Yields-if (KeepsRemote remote) (has_id base head.id) _ _ s
            (λ _. (remote, here refl, refl, inl refl))
            λ _.
              Yields-if (KeepsRemote remote) (has_id base remote.id) _ _ s (λ old. absurd (cc))
                λ _. elim (merge_conflict_filename-Named env basedir head.name s) [
                  | inl no_name ↦ rw no_name tt
                  | inr (modifier, mtime, named) ↦ rw named (
                    _,
                    here refl,
                    refl,
                    inr (
                      modifier,
                      mtime,
                      ap (λ n. gen_conflict_path env.strftime n modifier mtime) one,
                    ),
                  )
                ]

  rename_remote_file-keeps :
      (remote : SeafDirent)
      → Yields (KeepsRemote remote) (rename_remote_file env dents basedir remote out s)
  unfolding rename_remote_file rename
  rename_remote_file-keeps remote = elim (merge_conflict_filename-Named env basedir remote.name s) [
    | inl no_name ↦ rw no_name tt
    | inr (modifier, mtime, named) ↦ rw named (_, here refl, refl, inr (modifier, mtime, refl))
  ]

  rename_remote_dir-keeps :
      (dir head : SeafDirent)
      → Yields (KeepsHead head) (rename_remote_dir env dents basedir dir head out s)
  unfolding rename_remote_dir
  rename_remote_dir-keeps dir head = elim (merge_conflict_dirname-Named env basedir dir.name s) [
    | inl no_name ↦ rw no_name tt
    | inr (_, _, named) ↦ rw named (here refl)
  ]

  merge_no_remote-keeps :
      (base head : SeafDirent) (dir : Option SeafDirent)
      → str_eq base.id head.id ≡ false
      → Yields (KeepsHead head) (merge_no_remote env dents basedir base head dir out s)
  unfolding merge_no_remote
  merge_no_remote-keeps base head none new = rw new (here refl)
  merge_no_remote-keeps base head (some dir) new = rw new (rename_remote_dir-keeps dir head)

  merge_no_head-keeps :
      (base remote : SeafDirent) (dir : Option SeafDirent)
      → str_eq base.id remote.id ≡ false
      → Yields (KeepsRemote remote) (merge_no_head env dents basedir base remote dir out s)
  unfolding merge_no_head
  merge_no_head-keeps base remote none new = rw new (remote, here refl, refl, inl refl)
  merge_no_head-keeps base remote (some dir) new = rw new (rename_remote_file-keeps remote)

  merge_head_only-keeps :
      (head : SeafDirent) (base dir : Option SeafDirent)
      → Yields (KeepsHead head) (merge_head_only env dents basedir head base dir out s)
  unfolding merge_head_only
  merge_head_only-keeps head base none = here refl
  merge_head_only-keeps head base (some dir) =
      Yields-if (KeepsHead head) (has_id base dir.id) _ _ s (λ _. here refl)
        (λ _. rename_remote_dir-keeps dir head)

  merge_remote_only-keeps :
      (remote : SeafDirent) (base dir : Option SeafDirent)
      → Yields (KeepsRemote remote) (merge_remote_only env dents basedir remote base dir out s)
  unfolding merge_remote_only
  merge_remote_only-keeps remote base none = (remote, here refl, refl, inl refl)
  merge_remote_only-keeps remote base (some dir) =
      Yields-if (KeepsRemote remote) (has_id base dir.id) _ _ s
        (λ _. (remote, here refl, refl, inl refl)) (λ _. rename_remote_file-keeps remote)

  merge_files-KeepsHead :
      (base remote : Option SeafDirent) (head : SeafDirent)
      → has_id base head.id ≡ false
      → Yields (KeepsHead head) (merge_files env dents basedir base (some head) remote out s)
  unfolding merge_files
  merge_files-KeepsHead base (some remote) head new = merge_both-KeepsHead base head remote new
  merge_files-KeepsHead (some base) none head new = merge_no_remote-keeps base head dents.at2 new
  merge_files-KeepsHead none none head new = merge_head_only-keeps head dents.at0 dents.at2

  merge_files-KeepsRemote :
      (base head : Option SeafDirent) (remote : SeafDirent)
      → ((h : SeafDirent) → head ≡ some h → h.name ≡ remote.name)
      → has_id base remote.id ≡ false
      → Yields (KeepsRemote remote) (merge_files env dents basedir base head (some remote) out s)
  unfolding merge_files
  merge_files-KeepsRemote base (some head) remote one new =
      merge_both-KeepsRemote base head remote (one head refl) new
  merge_files-KeepsRemote (some base) none remote one new =
      merge_no_head-keeps base remote dents.at1 new
  merge_files-KeepsRemote none none remote one new =
      merge_remote_only-keeps remote dents.at0 dents.at1

  -- The conflict name differs from the old one, and the conflict is recorded.
  abbrev Conflicted : SeafDirent → SeafDirent → Merged → State D → Type 0
  Conflicted head remote m t =
      (renamed : SeafDirent) × (m.1 ≡ renamed ∷ head ∷ out)
      × (renamed.id ≡ remote.id)
      × (renamed.name ≢ head.name)
      × (t ≡ set_conflict s)

  merge_both-conflict :
      (base : Option SeafDirent) (head remote : SeafDirent)
      → str_eq head.id remote.id ≡ false
      → has_id base head.id ≡ false
      → has_id base remote.id ≡ false
      → Yields (Conflicted head remote) (merge_both env dents basedir base head remote out s)
  unfolding merge_both rename
  merge_both-conflict base head remote differ new_head new_remote =
      rw (differ, new_head, new_remote)
        (elim (merge_conflict_filename-Named env basedir head.name s) [
          | inl no_name ↦ rw no_name tt
          | inr (modifier, mtime, named) ↦ rw named (
            _,
            refl,
            refl,
            (gen_conflict_path-longer env.strftime head.name modifier mtime).1,
            refl,
          )
        ])

  -- In a three-way merge the files of one name go through `merge_files`.
  three_way :
      s.opt.do_merge ≡ true
      → merge_entries env dents basedir 3 out s
        ≡ merge_files env dents basedir
            (as_file dents.at0)
            (as_file dents.at1)
            (as_file dents.at2)
            out
            s
  unfolding merge_entries
  three_way real = rw real

-- Three-way merge of the entries of one name. Where head has a file whose content differs from
-- base's file, or base has no file, and the step returns, head's entry is in the result as it is.
pub merge_entries-keeps_head :
    {D : Type 0} (env : Env D) (dents : Slots SeafDirent) (basedir : Text) (out : List SeafDirent)
    (s t : State D) (head : SeafDirent) (m : Merged)
    → s.opt.do_merge ≡ true
    → as_file dents.at1 ≡ some head
    → has_id (as_file dents.at0) head.id ≡ false
    → merge_entries env dents basedir 3 out s ≡ (ok m, t)
    → In head m.1
merge_entries-keeps_head env dents basedir out s t head m real is_head new returns =
    Yields-ok (KeepsHead env dents basedir out s head) _
      (merge_files-KeepsHead env dents basedir out s (as_file dents.at0) (as_file dents.at2) head
        new)
      (ap (λ f. merge_files env dents basedir (as_file dents.at0) f (as_file dents.at2) out s)
          (sym is_head)
        ∙ (sym (three_way env dents basedir out s real) ∙ returns))

-- Three-way merge of the entries of one name. Where remote has a file whose content differs from
-- base's file, or base has no file, head's file, if it has one, has the same name as remote's, and
-- the step returns, an entry with remote's content is in the result, under remote's name or a
-- conflict name made from it.
pub merge_entries-keeps_remote :
    {D : Type 0} (env : Env D) (dents : Slots SeafDirent) (basedir : Text) (out : List SeafDirent)
    (s t : State D) (remote : SeafDirent) (m : Merged)
    → s.opt.do_merge ≡ true
    → as_file dents.at2 ≡ some remote
    → ((h : SeafDirent) → as_file dents.at1 ≡ some h → h.name ≡ remote.name)
    → has_id (as_file dents.at0) remote.id ≡ false
    → merge_entries env dents basedir 3 out s ≡ (ok m, t)
    → Holds env.strftime remote m.1
merge_entries-keeps_remote env dents basedir out s t remote m real is_remote one new returns =
    Yields-ok (KeepsRemote env dents basedir out s remote) _
      (merge_files-KeepsRemote env dents basedir out s (as_file dents.at0) (as_file dents.at1)
        remote one new)
      (ap (λ f. merge_files env dents basedir (as_file dents.at0) (as_file dents.at1) f out s)
          (sym is_remote)
        ∙ (sym (three_way env dents basedir out s real) ∙ returns))

-- Three-way merge of the entries of one name. Where head and remote have files with different
-- contents, neither of them that of base's file, and the step returns, then it has added exactly
-- two entries: head's as it is, and one with remote's content under a name that is not head's; the
-- conflict flag is set and nothing else of the state has changed.
pub merge_entries-conflict :
    {D : Type 0} (env : Env D) (dents : Slots SeafDirent) (basedir : Text) (out : List SeafDirent)
    (s t : State D) (head remote : SeafDirent) (m : Merged)
    → s.opt.do_merge ≡ true
    → as_file dents.at1 ≡ some head
    → as_file dents.at2 ≡ some remote
    → str_eq head.id remote.id ≡ false
    → has_id (as_file dents.at0) head.id ≡ false
    → has_id (as_file dents.at0) remote.id ≡ false
    → merge_entries env dents basedir 3 out s ≡ (ok m, t)
    → (renamed : SeafDirent) × (m.1 ≡ renamed ∷ head ∷ out)
      × (renamed.id ≡ remote.id)
      × (renamed.name ≢ head.name)
      × (t ≡ set_conflict s)
unfolding merge_files
merge_entries-conflict env dents basedir out s t head remote m real is_head is_remote d h r
      returns =
    Yields-ok (Conflicted env dents basedir out s head remote) _
      (merge_both-conflict env dents basedir out s (as_file dents.at0) head remote d h r)
      (ap₂ (λ f g. merge_files env dents basedir (as_file dents.at0) f g out s) (sym is_head)
          (sym is_remote)
        ∙ (sym (three_way env dents basedir out s real) ∙ returns))
