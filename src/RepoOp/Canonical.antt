-- ===== src/RepoOp/Canonical.antt =====
-- server/repo-op.c: what `get_canonical_path` returns.
use mathlib.Core.Path.{subst}
use seafile_server_learn.Prelude.{
  sym, ◌++◌, replicate, ℕ, suc, ◌==◌, ◌≡◌, refl, ap, ◌∙◌, false, [], ◌∷◌, arith, Bool-cases, inl,
  inr, if◌then◌else◌,
}
use seafile_server_learn.Prelude.Text.{Text}
use seafile_server_learn.RepoOp.Names.{to_slashes, trim_slashes, get_canonical_path}

to_slashes_idem : (p : Text) → to_slashes (to_slashes p) ≡ to_slashes p
unfolding to_slashes
to_slashes_idem [] = refl
to_slashes_idem (c ∷ cs) = ground (arith, to_slashes_idem cs)

pub data EndsWell : Text → Type 0 where
  empty : EndsWell []
  last : {c : ℕ} → (c == 47) ≡ false → EndsWell (c ∷ [])
  more : {c d : ℕ} {cs : Text} → EndsWell (d ∷ cs) → EndsWell (c ∷ d ∷ cs)

trim_slashes-EndsWell : (p : Text) → EndsWell (trim_slashes p)
unfolding trim_slashes
trim_slashes-EndsWell [] = empty
trim_slashes-EndsWell (c ∷ cs) = by_rest (trim_slashes cs) (trim_slashes-EndsWell cs)
  where
    by_rest :
        (rest : Text)
        → EndsWell rest
        → EndsWell (elim rest [ [] ↦ if c == 47 then [] else c ∷ [] | d ∷ ds ↦ c ∷ d ∷ ds ])
    by_rest [] w = elim (Bool-cases (c == 47)) [
      | inl slash ↦ rw slash empty
      | inr not_slash ↦ rw not_slash (last not_slash)
    ]
    by_rest (d ∷ ds) w = more w

trim_slashes_id : {p : Text} → EndsWell p → trim_slashes p ≡ p
unfolding trim_slashes
trim_slashes_id empty = refl
trim_slashes_id (last not_slash) = rw (not_slash, trim_slashes) refl
trim_slashes_id (more w) = rw (trim_slashes_id w, trim_slashes) refl

to_slashes_id-trim : (p : Text) → to_slashes p ≡ p → to_slashes (trim_slashes p) ≡ trim_slashes p
unfolding to_slashes trim_slashes
to_slashes_id-trim [] h = refl
to_slashes_id-trim (c ∷ cs) h =
    let first : (if c == 92 then 47 else c) ≡ c = ground arith in
    let rest : to_slashes cs ≡ cs = ground arith in
    by_rest (trim_slashes cs) first (to_slashes_id-trim cs rest)
  where
    by_rest :
        (rest : Text)
        → (if c == 92 then 47 else c) ≡ c
        → to_slashes rest ≡ rest
        → to_slashes (elim rest [ [] ↦ if c == 47 then [] else c ∷ [] | d ∷ ds ↦ c ∷ d ∷ ds ])
          ≡ elim rest [ [] ↦ if c == 47 then [] else c ∷ [] | d ∷ ds ↦ c ∷ d ∷ ds ]
    by_rest [] first h = elim (Bool-cases (c == 47)) [
      | inl slash ↦ rw slash refl
      | inr not_slash ↦ rw not_slash (ap (λ x. x ∷ []) first)
    ]
    by_rest (d ∷ ds) first h = cc (first, h)

-- The path with a slash for each backslash.
pub data Slashed : Text → Text → Type 0 where
  nothing : Slashed [] []
  backslash : {p q : Text} → Slashed p q → Slashed (92 ∷ p) (47 ∷ q)
  other : {c : ℕ} {p q : Text} → (c == 92) ≡ false → Slashed p q → Slashed (c ∷ p) (c ∷ q)

to_slashes-Slashed : (p : Text) → Slashed p (to_slashes p)
unfolding to_slashes
to_slashes-Slashed [] = nothing
to_slashes-Slashed (c ∷ cs) =
    let rest = to_slashes-Slashed cs in
    elim (Bool-cases (c == 92)) [
      | inl is ↦
          let at : c ≡ 92 = ground arith in
          rw (is, to_slashes)
            (subst (λ d. Slashed (d ∷ cs) (47 ∷ to_slashes cs)) (sym at) (backslash rest))
      | inr not ↦ rw (not, to_slashes) (other not rest)
    ]

trim_slashes-append : (p : Text) → (k : ℕ) × (trim_slashes p ++ replicate k 47 ≡ p)
unfolding trim_slashes
trim_slashes-append [] = (0, refl)
trim_slashes-append (c ∷ cs) = let (k, h) = trim_slashes-append cs in by_rest (trim_slashes cs) k h
  where
    by_rest :
        (rest : Text) (k : ℕ)
        → rest ++ replicate k 47 ≡ cs
        → (n : ℕ) × (elim rest [ [] ↦ if c == 47 then [] else c ∷ [] | d ∷ ds ↦ c ∷ d ∷ ds ]
              ++ replicate n 47
            ≡ c ∷ cs)
    by_rest [] k h = elim (Bool-cases (c == 47)) [
      | inl slash ↦
          let is : c ≡ 47 = ground arith in
          (suc k, rw slash (ap (λ t. 47 ∷ t) h ∙ ap (λ d. d ∷ cs) (sym is)))
      | inr not_slash ↦ (k, rw not_slash (ap (λ t. c ∷ t) h))
    ]
    by_rest (d ∷ ds) k h = (k, ap (λ t. c ∷ t) h)

-- A canonical path is the path with a slash for each backslash, less some slashes at its end; it does
-- not end in a slash, and it is its own canonical path.
pub get_canonical_path_idem :
    (path : Text)
    → ((slashed : Text) × Slashed path slashed
        × (k : ℕ) × (get_canonical_path path ++ replicate k 47 ≡ slashed))
      × EndsWell (get_canonical_path path)
      × (get_canonical_path (get_canonical_path path) ≡ get_canonical_path path)
unfolding get_canonical_path
get_canonical_path_idem path =
    let ends = trim_slashes-EndsWell (to_slashes path) in
    let plain = to_slashes_id-trim (to_slashes path) (to_slashes_idem path) in
    (
      (
        to_slashes path,
        to_slashes-Slashed path,
        (trim_slashes-append (to_slashes path)).0,
        (trim_slashes-append (to_slashes path)).1,
      ),
      ends,
      ap trim_slashes plain ∙ trim_slashes_id ends,
    )
