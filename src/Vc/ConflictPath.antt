-- ===== src/Vc/ConflictPath.antt =====
-- `gen_conflict_path` of common/vc-common.c. The text that `strftime` makes of the local time is a
-- parameter.
use seafile_server_learn.Prelude.{
  ℕ, ◌+◌, ◌≤◌, ◌≡◌, ◌≢◌, refl, ap, inl, inr, Option, none, some, [], ◌∷◌, ◌++◌, arith, ◌==◌,
  if◌then◌else◌, length, length-append, Option-cases,
}
use seafile_server_learn.Prelude.Text.{Text, codes}
use seafile_server_learn.Prelude.Int.{ℤ}

-- `strrchr (s, '.')`: what stands before the last dot, and what stands behind it.
unfoldable pub split_last_dot : Text → Option (Text × Text)
split_last_dot [] = none
split_last_dot (c ∷ cs) = elim (split_last_dot cs) [
  | some (stem, ext) ↦ some (c ∷ stem, ext)
  | none ↦ if c == 46 then some ([], cs) else none
]

-- " (SFConflict modifier time)", or without the modifier.
conflict_mark : Option Text → Text → Text
conflict_mark none time = codes " (SFConflict " ++ (time ++ codes ")")
conflict_mark (some modifier) time =
    codes " (SFConflict " ++ (modifier ++ (codes " " ++ (time ++ codes ")")))

-- The mark goes before the extension, if there is one.
insert_mark : Text → Option (Text × Text) → Text → Text
insert_mark origin none mark = origin ++ mark
insert_mark origin (some (stem, ext)) mark = stem ++ (mark ++ (codes "." ++ ext))

unfoldable pub gen_conflict_path : (ℤ → Text) → Text → Option Text → ℤ → Text
unfolding split_last_dot conflict_mark insert_mark
gen_conflict_path strftime origin modifier mtime =
    insert_mark origin (split_last_dot origin) (conflict_mark modifier (strftime mtime))

-- The parts around the last dot make up the name.
pub split_last_dot-append :
    (s stem ext : Text) → split_last_dot s ≡ some (stem, ext) → s ≡ stem ++ (codes "." ++ ext)
unfolding split_last_dot
split_last_dot-append [] stem ext h = ground arith
split_last_dot-append (c ∷ cs) stem ext h = elim (Option-cases (split_last_dot cs)) [
  | inl e ↦ ground arith
  | inr ((before, behind), e) ↦ ground (arith, split_last_dot-append cs before behind)
]

length-insert_mark :
    (origin : Text) (split : Option (Text × Text)) (mark : Text)
    → split_last_dot origin ≡ split
    → length (insert_mark origin split mark) ≡ length origin + length mark
unfolding insert_mark
length-insert_mark origin none mark e = length-append origin mark
length-insert_mark origin (some (stem, ext)) mark e = omega (
  arith,
  length-append stem (mark ++ (codes "." ++ ext)),
  length-append mark (codes "." ++ ext),
  length-append stem (codes "." ++ ext),
  ap (length {A = ℕ}) (split_last_dot-append origin stem ext e),
)

length-conflict_mark :
    (modifier : Option Text) (time : Text) → 14 ≤ length (conflict_mark modifier time)
unfolding conflict_mark
length-conflict_mark none time = omega (arith, length-append time (codes ")"))
length-conflict_mark (some modifier) time = omega (
  arith,
  length-append time (codes ")"),
  length-append modifier (codes " " ++ (time ++ codes ")")),
)

-- A conflict name is longer than the name that it replaces by at least fourteen bytes, whatever the
-- modifier and the time, so it is another name.
pub gen_conflict_path-longer :
    (strftime : ℤ → Text) (origin : Text) (modifier : Option Text) (mtime : ℤ)
    → (length origin + 14 ≤ length (gen_conflict_path strftime origin modifier mtime))
      × (gen_conflict_path strftime origin modifier mtime ≢ origin)
unfolding gen_conflict_path
gen_conflict_path-longer strftime origin modifier mtime =
    (longer, λ e. omega (arith, longer, ap (length {A = ℕ}) e))
  where
    longer : length origin + 14 ≤ length (gen_conflict_path strftime origin modifier mtime)
    longer =
        let mark = conflict_mark modifier (strftime mtime) in
        omega (
          arith,
          length-insert_mark origin (split_last_dot origin) mark refl,
          length-conflict_mark modifier (strftime mtime),
        )
