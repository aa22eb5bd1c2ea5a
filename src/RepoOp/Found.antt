-- ===== src/RepoOp/Found.antt =====
-- server/repo-op.c: which entry of a name is found after the entries of a directory were changed.
use mathlib.Core.Path.{subst}
use seafile_server_learn.Prelude.{
  length, ℕ, zero, suc, ◌+◌, ◌≤◌, ◌≡◌, ◌≢◌, refl, sym, ap, ◌∙◌, Bool, true, false, Option, none,
  some, List, [], ◌∷◌, ◌++◌, if◌then◌else◌, arith, Option-cases, Bool-cases, inl, inr,
}
use seafile_server_learn.Prelude.Text.{Text, str_eq, str_eq_iff, str_eq_refl}
use seafile_server_learn.Fs.Object.{SeafDirent}
use seafile_server_learn.Fs.Dirent.{renamed_copy}
use seafile_server_learn.Fs.Sorted.{compare_dirents}
use seafile_server_learn.Fs.Lookup.{find_dent}
use seafile_server_learn.RepoOp.Names.{
  filename_exists, unique_loop, generate_unique_filename, numbered,
}
use seafile_server_learn.RepoOp.Entries.{
  Insert, replace_dents, without, renamed_dent, insert_some, rename_dents, Deleted, count_deleted,
  delete_one, not_listed,
}

-- g_list_insert_sorted puts the new element somewhere between the others.
pub record InsertsOne (insert : Insert) : Type 0 where
  pub between :
      (d : SeafDirent) (ds : List SeafDirent)
      → (front back : List SeafDirent) × (ds ≡ front ++ back)
        × (insert compare_dirents d ds ≡ front ++ (d ∷ back))

str_eq-false : (s t : Text) → s ≢ t → str_eq s t ≡ false
str_eq-false s t ne = elim (Bool-cases (str_eq s t)) [
  | inl e ↦ absurd (ne ((str_eq_iff s t).0 e))
  | inr e ↦ e
]

find_dent-between :
    (n : Text) (d : SeafDirent) (front back : List SeafDirent)
    → n ≢ d.name
    → find_dent n (front ++ (d ∷ back)) ≡ find_dent n (front ++ back)
unfolding find_dent
find_dent-between n d [] back ne = rw (str_eq-false d.name n (λ e. ne (sym e))) refl
find_dent-between n d (e ∷ front) back ne = rw (find_dent-between n d front back ne) refl

find_dent-placed :
    (d : SeafDirent) (front back : List SeafDirent)
    → find_dent d.name (front ++ back) ≡ none
    → find_dent d.name (front ++ (d ∷ back)) ≡ some d
unfolding find_dent
find_dent-placed d [] back h = rw (str_eq_refl d.name) refl
find_dent-placed d (e ∷ front) back h = elim (Bool-cases (str_eq e.name d.name)) [
  | inl same ↦ absurd (ground arith)
  | inr other ↦
      let later : find_dent d.name (front ++ back) ≡ none = ground arith in
      rw other (find_dent-placed d front back later)
]

module _ (insert : Insert) (one : InsertsOne insert) where
  pub find_dent-insert :
      (d : SeafDirent) (ds : List SeafDirent)
      → find_dent d.name ds ≡ none
      → find_dent d.name (insert compare_dirents d ds) ≡ some d
  find_dent-insert d ds h =
      let (front, back, split, placed) = one.between d ds in
      ap (find_dent d.name) placed
      ∙ find_dent-placed d front back (ap (find_dent d.name) (sym split) ∙ h)

  pub find_dent-insert_ne :
      (n : Text) (d : SeafDirent) (ds : List SeafDirent)
      → n ≢ d.name
      → find_dent n (insert compare_dirents d ds) ≡ find_dent n ds
  find_dent-insert_ne n d ds ne =
      let (front, back, split, placed) = one.between d ds in
      ap (find_dent n) placed ∙ find_dent-between n d front back ne ∙ ap (find_dent n) (sym split)

-- Replacing.
pub find_dent-replace_self :
    (new : SeafDirent) (ds : List SeafDirent)
    → find_dent new.name (replace_dents new ds)
      ≡ (if filename_exists ds new.name then some new else none)
unfolding find_dent replace_dents filename_exists
find_dent-replace_self new [] = refl
find_dent-replace_self new (d ∷ ds) = elim (Bool-cases (str_eq d.name new.name)) [
  | inl same ↦ rw (same, str_eq_refl new.name) refl
  | inr other ↦ rw (other, other) (find_dent-replace_self new ds)
]

pub find_dent-replace_ne :
    (n : Text) (new : SeafDirent) (ds : List SeafDirent)
    → n ≢ new.name
    → find_dent n (replace_dents new ds) ≡ find_dent n ds
unfolding find_dent replace_dents
find_dent-replace_ne n new [] ne = refl
find_dent-replace_ne n new (d ∷ ds) ne =
    let ih = find_dent-replace_ne n new ds ne in
    let not_new = str_eq-false new.name n (λ e. ne (sym e)) in
    elim (Bool-cases (str_eq d.name new.name)) [
      | inl same ↦
          let at_name = (str_eq_iff d.name new.name).0 same in
          let not_old : str_eq d.name n ≡ false =
            subst (λ m. str_eq m n ≡ false) (sym at_name) not_new in
          rw (same, not_new, not_old) ih
      | inr other ↦ rw (other, ih) refl
    ]

-- Removing.
pub find_dent-not_listed :
    (listed : Text → Bool) (n : Text) (ds : List SeafDirent)
    → listed n ≡ true
    → find_dent n (not_listed listed ds) ≡ none
unfolding find_dent not_listed
find_dent-not_listed listed n [] h = refl
find_dent-not_listed listed n (d ∷ ds) h =
    let ih = find_dent-not_listed listed n ds h in
    elim (Bool-cases (listed d.name)) [
      | inl gone ↦ rw gone ih
      | inr stays ↦
          let other = str_eq-false d.name n (λ e. cc (ap listed e, h, stays)) in
          rw (stays, other) ih
    ]

pub find_dent-not_listed_ne :
    (listed : Text → Bool) (n : Text) (ds : List SeafDirent)
    → listed n ≡ false
    → find_dent n (not_listed listed ds) ≡ find_dent n ds
unfolding find_dent not_listed
find_dent-not_listed_ne listed n [] h = refl
find_dent-not_listed_ne listed n (d ∷ ds) h =
    let ih = find_dent-not_listed_ne listed n ds h in
    elim (Bool-cases (listed d.name)) [
      | inl gone ↦
          let other = str_eq-false d.name n (λ e. cc (ap listed e, h, gone)) in rw (gone, other) ih
      | inr stays ↦ rw (stays, ih) refl
    ]

count_deleted-more :
    (listed : Text → Bool) (del : Deleted) (ds : List SeafDirent)
    → del.deleted_num ≤ (count_deleted listed del ds).deleted_num
unfolding count_deleted delete_one
count_deleted-more listed del [] = omega arith
count_deleted-more listed del (d ∷ ds) =
    let gone = count_deleted-more listed (delete_one del d) ds in
    let stays = count_deleted-more listed del ds in
    elim (listed d.name)
      as (λ b.
        del.deleted_num
        ≤ (count_deleted listed (if b then delete_one del d else del) ds).deleted_num) [
          | true ↦ omega (arith, gone)
          | false ↦ stays
        ]

-- The entries that are counted are those that are not kept.
pub count_deleted-length :
    (listed : Text → Bool) (del : Deleted) (ds : List SeafDirent)
    → (count_deleted listed del ds).deleted_num + length (not_listed listed ds)
      ≡ del.deleted_num + length ds
unfolding count_deleted delete_one not_listed
count_deleted-length listed del [] = refl
count_deleted-length listed del (d ∷ ds) =
    let removed = count_deleted-length listed (delete_one del d) ds in
    let kept = count_deleted-length listed del ds in
    elim (Bool-cases (listed d.name)) [
      | inl gone ↦ rw (gone, count_deleted, not_listed) (omega (arith, removed))
      | inr stays ↦ rw (stays, count_deleted, not_listed) (omega (arith, kept))
    ]

pub find_dent-none_deleted :
    (listed : Text → Bool) (del : Deleted) (n : Text) (ds : List SeafDirent)
    → (count_deleted listed del ds).deleted_num ≡ 0
    → listed n ≡ true
    → find_dent n ds ≡ none
unfolding find_dent count_deleted delete_one
find_dent-none_deleted listed del n [] zero' h = refl
find_dent-none_deleted listed del n (d ∷ ds) zero' h = elim (Bool-cases (listed d.name)) [
  | inl gone ↦
      let more = count_deleted-more listed (delete_one del d) ds in
      let pick : (if listed d.name then delete_one del d else del) ≡ delete_one del d =
        rw gone refl in
      let zero : (count_deleted listed (delete_one del d) ds).deleted_num ≡ 0 =
        subst (λ e. (count_deleted listed e ds).deleted_num ≡ 0) pick zero' in
      absurd (omega (arith, more, zero))
  | inr stays ↦
      let pick : (if listed d.name then delete_one del d else del) ≡ del = rw stays refl in
      let zero : (count_deleted listed del ds).deleted_num ≡ 0 =
        subst (λ e. (count_deleted listed e ds).deleted_num ≡ 0) pick zero' in
      let other = str_eq-false d.name n (λ e. cc (ap listed e, h, stays)) in
      rw other (find_dent-none_deleted listed del n ds zero h)
]

-- Unique names.
pub filename_exists-none :
    (n : Text) (ds : List SeafDirent) → filename_exists ds n ≡ false → find_dent n ds ≡ none
unfolding find_dent filename_exists
filename_exists-none n [] h = refl
filename_exists-none n (d ∷ ds) h = ground (arith, filename_exists-none n ds)

unique_loop-new :
    (ds : List SeafDirent) (name : Text) (ext : Option Text) (rounds i : ℕ) (start u : Text)
    → unique_loop ds name ext rounds i start ≡ some u
    → filename_exists ds u ≡ false
unfolding unique_loop
unique_loop-new ds name ext zero i start u h = ground arith
unique_loop-new ds name ext (suc rounds) i start u h =
    let ih = unique_loop-new ds name ext rounds (i + 1) (numbered name ext i) u in
    elim (Bool-cases (filename_exists ds start)) [
      | inl taken ↦ ih (ground arith)
      | inr free ↦
          let same : start ≡ u = ground arith in subst (λ n. filename_exists ds n ≡ false) same free
    ]

pub generate_unique_filename-new :
    (file u : Text) (ds : List SeafDirent)
    → generate_unique_filename file ds ≡ some u
    → filename_exists ds u ≡ false
unfolding generate_unique_filename
generate_unique_filename-new file u ds h = unique_loop-new ds _ _ 100 1 file u h

-- Renaming.
find_dent-without : (n : Text) (ds : List SeafDirent) → find_dent n (without n ds) ≡ none
unfolding find_dent without
find_dent-without n [] = refl
find_dent-without n (d ∷ ds) = elim (Bool-cases (str_eq d.name n)) [
  | inl same ↦ rw same (find_dent-without n ds)
  | inr other ↦ rw (other, other) (find_dent-without n ds)
]

find_dent-without_ne :
    (n old : Text) (ds : List SeafDirent) → n ≢ old → find_dent n (without old ds) ≡ find_dent n ds
unfolding find_dent without
find_dent-without_ne n old [] ne = refl
find_dent-without_ne n old (d ∷ ds) ne =
    let ih = find_dent-without_ne n old ds ne in
    elim (Bool-cases (str_eq d.name old)) [
      | inl same ↦
          let at_old = (str_eq_iff d.name old).0 same in
          let other = str_eq-false d.name n (λ e. ne (sym e ∙ at_old)) in rw (same, other) ih
      | inr other ↦ rw (other, ih) refl
    ]

renamed_dent-name :
    (old new : Text) (found : Option SeafDirent) (ds : List SeafDirent) (d : SeafDirent)
    → ((e : SeafDirent) → found ≡ some e → e.name ≡ new)
    → renamed_dent old new found ds ≡ some d
    → d.name ≡ new
unfolding renamed_dent renamed_copy
renamed_dent-name old new found [] d named h = named d h
renamed_dent-name old new found (e ∷ ds) d named h = elim (Bool-cases (str_eq e.name old)) [
  | inl same ↦
      renamed_dent-name old new (some (renamed_copy e new)) ds d (λ x p. named_by x p)
        (rw same at h)
  | inr other ↦ renamed_dent-name old new found ds d named (rw other at h)
]
  where
    named_by : (x : SeafDirent) → some (renamed_copy e new) ≡ some x → x.name ≡ new
    named_by x p = let same : renamed_copy e new ≡ x = ground arith in ap (λ d. d.name) (sym same)

module _ (insert : Insert) (one : InsertsOne insert) (old new : Text) (differ : old ≢ new) where
  none_named : (e : SeafDirent) → none ≡ some e → e.name ≡ new
  none_named e p = cc

  pub rename_dents-old :
      (ds : List SeafDirent) → find_dent old (rename_dents insert old new ds) ≡ none
  unfolding rename_dents insert_some
  rename_dents-old ds = elim (Option-cases (renamed_dent old new none ds)) [
    | inl nobody ↦ rw nobody (find_dent-without old ds)
    | inr (d, found) ↦
        let named = renamed_dent-name old new none ds d none_named found in
        rw found (
          find_dent-insert_ne insert one old d (without old ds) (λ e. differ (e ∙ named))
          ∙ find_dent-without old ds)
  ]

  pub rename_dents-new :
      (ds : List SeafDirent) (d : SeafDirent)
      → renamed_dent old new none ds ≡ some d
      → find_dent new ds ≡ none
      → find_dent new (rename_dents insert old new ds) ≡ some d
  unfolding rename_dents insert_some
  rename_dents-new ds d found absent =
      let named = renamed_dent-name old new none ds d none_named found in
      let gone = find_dent-without_ne new old ds (λ e. differ (sym e)) ∙ absent in
      let placed =
        find_dent-insert insert one d (without old ds)
          (subst (λ n. find_dent n (without old ds) ≡ none) (sym named) gone) in
      rw found
        (subst (λ n. find_dent n (insert compare_dirents d (without old ds)) ≡ some d) named placed)

  pub rename_dents_ne :
      (n : Text) (ds : List SeafDirent)
      → n ≢ old
      → n ≢ new
      → find_dent n (rename_dents insert old new ds) ≡ find_dent n ds
  unfolding rename_dents insert_some
  rename_dents_ne n ds not_old not_new = elim (Option-cases (renamed_dent old new none ds)) [
    | inl nobody ↦ rw nobody (find_dent-without_ne n old ds not_old)
    | inr (d, found) ↦
        let named = renamed_dent-name old new none ds d none_named found in
        rw found (
          find_dent-insert_ne insert one n d (without old ds) (λ e. not_new (e ∙ named))
          ∙ find_dent-without_ne n old ds not_old)
  ]
