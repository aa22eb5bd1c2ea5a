-- ===== src/RepoOp/Unique.antt =====
-- server/repo-op.c: what `generate_unique_filename` returns.
use mathlib.Core.Path.{subst}
use mathlib.Core.List.{append_assoc}
use seafile_server_learn.Prelude.{
  ◌/◌, ◌%◌, ◌≤◌, ltb, true, In, All, here, there, sym, ◌++◌, ℕ, zero, suc, ◌+◌, ◌==◌, ◌≡◌, refl, ap,
  ◌∙◌, false, Option, none, some, List, [], ◌∷◌, arith, Bool-cases, inl, inr, if◌then◌else◌,
}
use seafile_server_learn.Prelude.Text.{Text, codes, str_eq, str_eq_iff}
use seafile_server_learn.Fs.Object.{SeafDirent}
use seafile_server_learn.Vc.ConflictPath.{split_last_dot}
use seafile_server_learn.RepoOp.Names.{
  filename_exists, split_filename, numbered, decimal, unique_loop, generate_unique_filename,
}

-- A number below 100 in decimal.
unfoldable pub digits : ℕ → Text
digits i = if ltb i 10 then (48 + i) ∷ [] else (48 + i / 10) ∷ (48 + i % 10) ∷ []

-- A name with its extension behind a dot.
unfoldable pub with_ext : Text → Option Text → Text
with_ext name none = name
with_ext name (some ext) = name ++ (46 ∷ ext)

-- The name itself, and the name with the number i in parentheses before the extension.
unfoldable pub candidate : Text → Option Text → ℕ → Text
unfolding with_ext digits
candidate name ext i =
    if i == 0
    then with_ext name ext
    else with_ext (name ++ (codes " (" ++ (digits i ++ codes ")"))) ext

abbrev pub HasNoDot : Text → Type 0
HasNoDot = All (λ c. (c == 46) ≡ false)

-- The last part of a name, behind which no dot comes: the extension, or the name if it has none.
abbrev pub last_part : Text → Option Text → Text
last_part name none = name
last_part name (some ext) = ext

-- An entry has this name.
abbrev pub Taken : List SeafDirent → Text → Type 0
Taken entries name = (d : SeafDirent) × In d entries × (d.name ≡ name)

-- The result is the first of the names with the numbers m to m + k - 1 that no entry has.
abbrev pub FirstFree : List SeafDirent → (ℕ → Text) → (m k : ℕ) → Option Text → Type 0
FirstFree entries names m k (some unique) =
    (i : ℕ) × (m ≤ i)
    × (i + 1 ≤ m + k)
    × (unique ≡ names i)
    × (Taken entries unique → ⊥)
    × ((j : ℕ) → m ≤ j → j + 1 ≤ i → Taken entries (names j))
FirstFree entries names m k none = (j : ℕ) → m ≤ j → j + 1 ≤ m + k → Taken entries (names j)

filename_exists-Taken : (ds : List SeafDirent) (n : Text) → filename_exists ds n ≡ true → Taken ds n
unfolding filename_exists
filename_exists-Taken [] n h = absurd (cc)
filename_exists-Taken (d ∷ ds) n h = elim (Bool-cases (str_eq d.name n)) [
  | inl same ↦ (d, here refl, (str_eq_iff d.name n).0 same)
  | inr other ↦
      let (e, mem, named) = filename_exists-Taken ds n (ground arith) in (e, there mem, named)
]

not_exists-Taken : (ds : List SeafDirent) (n : Text) → filename_exists ds n ≡ false → Taken ds n → ⊥
unfolding filename_exists
not_exists-Taken [] n h (e, mem, named) = elim mem [ ]
not_exists-Taken (d ∷ ds) n h (e, mem, named) = elim mem [
  | here first ↦
      let same : str_eq d.name n ≡ true =
        (str_eq_iff d.name n).1 (ap (λ d. d.name) (sym first) ∙ named) in
      ground arith
  | there later ↦ not_exists-Taken ds n (ground arith) (e, later, named)
]

module _ (ds : List SeafDirent) (name : Text) (ext : Option Text)
    (same : (i : ℕ) → 1 ≤ i → i + 1 ≤ 100 → numbered name ext i ≡ candidate name ext i) where
  unique_loop-FirstFree :
      (k m : ℕ) (start : Text)
      → m + k ≤ 100
      → (1 ≤ k → start ≡ candidate name ext m)
      → FirstFree ds (candidate name ext) m k (unique_loop ds name ext k (m + 1) start)
  unfolding unique_loop
  unique_loop-FirstFree zero m start few at = λ j le lt. absurd (omega arith)
  unique_loop-FirstFree (suc k) m start few at = elim (Bool-cases (filename_exists ds start)) [
    | inr free ↦
        rw (free, unique_loop)
          (
            m,
            omega arith,
            omega arith,
            at (omega arith),
            not_exists-Taken ds start free,
            λ j le lt. absurd (omega arith),
          )
    | inl taken ↦
        let first : Taken ds (candidate name ext m) =
          subst (Taken ds) (at (omega arith)) (filename_exists-Taken ds start taken) in
        let rest =
          unique_loop-FirstFree k (m + 1) (numbered name ext (m + 1)) (omega arith)
            (λ more. same (m + 1) (omega arith) (omega arith)) in
        let done = further first _ rest in rw (taken, unique_loop) done
  ]
    where
      from :
          (j : ℕ)
          → Taken ds (candidate name ext m)
          → (m + 1 ≤ j → Taken ds (candidate name ext j))
          → m ≤ j
          → Taken ds (candidate name ext j)
      from j first later l = elim (Bool-cases (ltb m j)) [
        | inl lt ↦ later (ground arith)
        | inr ge ↦
            let is : m ≡ j = ground arith in subst (λ i. Taken ds (candidate name ext i)) is first
      ]

      further :
          Taken ds (candidate name ext m)
          → (r : Option Text) → FirstFree ds (candidate name ext) (m + 1) k r
          → FirstFree ds (candidate name ext) m (suc k) r
      further first (some u) (i, le, lt, is, free, before) =
          (i, omega arith, omega arith, is, free, λ j l u. from j first (λ h. before j h u) l)
      further first none before = λ j l u. from j first (λ h. before j h (omega arith)) l

-- The names of the loop.
decimal-digits : (i : ℕ) → i + 1 ≤ 100 → decimal 3 i ≡ digits i
unfolding decimal digits
decimal-digits i few = elim (Bool-cases (ltb i 10)) [
  | inl one ↦ rw one refl
  | inr two ↦ let below : ltb (i / 10) 10 ≡ true = ground arith in rw (two, below) refl
]

numbered-candidate :
    (name : Text) (ext : Option Text) (i : ℕ)
    → 1 ≤ i
    → i + 1 ≤ 100
    → numbered name ext i ≡ candidate name ext i
unfolding numbered candidate with_ext
numbered-candidate name none i le lt =
    let positive : (i == 0) ≡ false = ground arith in rw (positive, decimal-digits i lt) refl
numbered-candidate name (some ext) i le lt =
    let positive : (i == 0) ≡ false = ground arith in
    rw (positive, decimal-digits i lt)
      (sym (
        append_assoc name (codes " (" ++ (digits i ++ codes ")")) (46 ∷ ext)
        ∙ ap (λ t. name ++ (codes " (" ++ t)) (append_assoc (digits i) (codes ")") (46 ∷ ext))))

split_last_dot-none : (t : Text) → HasNoDot t → split_last_dot t ≡ none
unfolding split_last_dot
split_last_dot-none [] h = refl
split_last_dot-none (c ∷ cs) (h, hs) = rw (split_last_dot-none cs hs, split_last_dot, h) refl

split_last_dot-some :
    (name ext : Text) → HasNoDot ext → split_last_dot (name ++ (46 ∷ ext)) ≡ some (name, ext)
unfolding split_last_dot
split_last_dot-some [] ext h = rw (split_last_dot-none ext h) refl
split_last_dot-some (c ∷ cs) ext h = rw (split_last_dot-some cs ext h) refl

split_filename-with_ext :
    (name : Text) (ext : Option Text)
    → HasNoDot (last_part name ext)
    → split_filename (with_ext name ext) ≡ (name, ext)
unfolding split_filename with_ext
split_filename-with_ext name none h = rw (split_filename, split_last_dot-none name h) refl
split_filename-with_ext name (some ext) h = rw (split_filename, split_last_dot-some name ext h) refl

-- Let the last part of a file name, its extension or the name itself if it has none, have no dot. Then
-- generate_unique_filename returns the first of these hundred names that no entry has: the name
-- itself, and the name with one of the numbers 1 to 99 in parentheses before the dot and the extension.
-- If it returns NULL, every one of them is the name of an entry.
pub generate_unique_filename-FirstFree :
    (name : Text) (ext : Option Text) (entries : List SeafDirent)
    → HasNoDot (last_part name ext)
    → FirstFree entries
        (candidate name ext)
        0
        100
        (generate_unique_filename (with_ext name ext) entries)
unfolding generate_unique_filename candidate
generate_unique_filename-FirstFree name ext entries h =
    subst
      (λ p.
        FirstFree entries (candidate name ext) 0 100
          (unique_loop entries p.0 p.1 100 1 (with_ext name ext)))
      (sym (split_filename-with_ext name ext h))
      (unique_loop-FirstFree entries name ext (numbered-candidate name ext) 100 0
        (with_ext name ext) (omega arith) (λ le. refl))
