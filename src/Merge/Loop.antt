-- ===== src/Merge/Loop.antt =====
-- The loop of `merge_trees_recursive`: each round consumes an entry, so the rounds suffice, and an
-- invariant of the rounds holds at the end.
use seafile_server_learn.Prelude.{
  ℕ, zero, suc, ◌+◌, ◌≤◌, ◌<◌, ◌≡◌, ◌⊎◌, inl, inr, Option, none, some, List, [], ◌∷◌, arith, length,
  Option-cases,
}
use seafile_server_learn.Prelude.Text.{Text, str_eq_refl}
use seafile_server_learn.Prelude.Exec.{Outcome, Exec, ok}
use seafile_server_learn.Fs.Object.{SeafDirent, SeafDir}
use seafile_server_learn.Merge.Options.{Slots, State, Env}
use seafile_server_learn.Merge.Trees.{
  Ptrs, first_name, dents_at, advance, larger_name, next_ptr, merge_round, merge_loop,
}

abbrev pub size : Ptrs → ℕ
size p = length p.l0 + length p.l1 + length p.l2

-- The loop ends only when all lists are empty.
pub done_at_size_zero : (p : Ptrs) → size p ≡ 0 → first_name p ≡ none
unfolding first_name
done_at_size_zero p h = ground arith

-- The first entry of a list has the name.
abbrev pub Leads : Text → List SeafDirent → Type 0
Leads first [] = ⊥
Leads first (d ∷ ds) = d.name ≡ first

larger_name_cases :
    (l : List SeafDirent) (sofar : Option Text) (first : Text)
    → larger_name l sofar ≡ some first
    → Leads first l ⊎ (sofar ≡ some first)
unfolding larger_name
larger_name_cases [] sofar first h = inr h
larger_name_cases (d ∷ ds) none first h = inl (ground arith)
larger_name_cases (d ∷ ds) (some f) first h = ground arith

length-next_ptr : (first : Text) (l : List SeafDirent) → length (next_ptr first l) ≤ length l
unfolding next_ptr
length-next_ptr first [] = omega arith
length-next_ptr first (d ∷ ds) = ground arith

length-next_ptr_lt :
    (first : Text) (l : List SeafDirent) → Leads first l → length (next_ptr first l) < length l
unfolding next_ptr
length-next_ptr_lt first [] h = absurd h
length-next_ptr_lt first (d ∷ ds) h = ground (arith, str_eq_refl first)

-- The largest name is the name of some first entry, so at least one list moves on.
pub size-advance :
    (p : Ptrs) (first : Text) → first_name p ≡ some first → size (advance first p) < size p
unfolding first_name advance
size-advance p first h = elim (larger_name_cases p.l2 _ first h) [
  | inl leads ↦ omega (
    arith,
    length-next_ptr first p.l0,
    length-next_ptr first p.l1,
    length-next_ptr_lt first p.l2 leads,
  )
  | inr h1 ↦ elim (larger_name_cases p.l1 _ first h1) [
    | inl leads ↦ omega (
      arith,
      length-next_ptr first p.l0,
      length-next_ptr_lt first p.l1 leads,
      length-next_ptr first p.l2,
    )
    | inr h0 ↦ elim (larger_name_cases p.l0 _ first h0) [
      | inl leads ↦ omega (
        arith,
        length-next_ptr_lt first p.l0 leads,
        length-next_ptr first p.l1,
        length-next_ptr first p.l2,
      )
      | inr impossible ↦ cc
    ]
  ]
]

module _ {D : Type 0} (env : Env D) (version n : ℕ)
    (recur : Slots SeafDir → Text → Exec (State D) Unit) (basedir : Text)
    (Inv : Ptrs → List SeafDirent → State D → Type 0) where
  -- A round keeps the invariant, and returns.
  abbrev pub RoundKeeps : Type 0
  RoundKeeps =
      (p : Ptrs) (first : Text) (out : List SeafDirent) (s : State D)
      → first_name p ≡ some first
      → Inv p out s
      → (out' : List SeafDirent) × (s' : State D) × (merge_round env version n recur
            (dents_at first p) basedir out s
          ≡ (ok out', s'))
        × Inv (advance first p) out' s'

  -- What the loop returns, with the invariant at its end.
  abbrev pub LoopReturns : Outcome (List SeafDirent) × State D → Type 0
  LoopReturns r =
      (p : Ptrs) × (out : List SeafDirent) × (s : State D) × (r ≡ (ok out, s))
      × (first_name p ≡ none)
      × Inv p out s

  pub merge_loop_rule :
      RoundKeeps
      → (rounds : ℕ) (p : Ptrs) (out : List SeafDirent) (s : State D) → size p ≤ rounds
      → Inv p out s
      → LoopReturns (merge_loop env version n recur basedir rounds p out s)
  unfolding merge_loop
  merge_loop_rule keep zero p out s room inv =
      let e = done_at_size_zero p (omega arith) in (p, out, s, rw (e, merge_loop), e, inv)
  merge_loop_rule keep (suc rounds) p out s room inv = elim (Option-cases (first_name p)) [
    | inl e ↦ (p, out, s, rw (e, merge_loop), e, inv)
    | inr (first, e) ↦
        let (out', s', step, inv') = keep p first out s e inv in
        let smaller = size-advance p first e in
        let (p₂, out₂, s₂, ends, e₂, inv₂) =
          merge_loop_rule keep rounds (advance first p) out' s' (omega arith) inv' in
        (p₂, out₂, s₂, rw (e, merge_loop) (rw step ends), e₂, inv₂)
  ]

module _ {D : Type 0} (env : Env D) (version n : ℕ)
    (recur : Slots SeafDir → Text → Exec (State D) Unit) (basedir : Text) where
  pub merge_loop-empty :
      (rounds : ℕ) (p : Ptrs) (out : List SeafDirent) (s : State D)
      → size p ≡ 0
      → merge_loop env version n recur basedir rounds p out s ≡ (ok out, s)
  unfolding merge_loop
  merge_loop-empty zero p out s empty = rw (done_at_size_zero p empty, merge_loop)
  merge_loop-empty (suc rounds) p out s empty = rw (done_at_size_zero p empty, merge_loop)
