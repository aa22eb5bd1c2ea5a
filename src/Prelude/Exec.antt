-- ===== src/Prelude/Exec.antt =====
-- Functions that update a state and return 0 or -1: a failure keeps what was written before it.
-- `out_of_fuel` is the model's own outcome, for a recursion that was cut short.
use mathlib.Core.Option.{Option, none, some}

pub data Outcome {ℓ} (A : Type ℓ) : Type ℓ where
  ok : A → Outcome A
  failed : Outcome A
  out_of_fuel : Outcome A

abbrev pub Exec {ℓ} : Type ℓ → Type ℓ → Type ℓ
Exec S A = S → Outcome A × S

abbrev pub pure {ℓ} : {S A : Type ℓ} → A → Exec S A
pure a s = (ok a, s)

-- `return -1`
abbrev pub fail {ℓ} : {S A : Type ℓ} → Exec S A
fail s = (failed, s)

abbrev pub resume {ℓ} : {S A B : Type ℓ} → (A → Exec S B) → Outcome A → S → Outcome B × S
resume f (ok a) s = f a s
resume f failed s = (failed, s)
resume f out_of_fuel s = (out_of_fuel, s)

infixl 5 ◌>>=◌ ◌>>◌
abbrev pub ◌>>=◌ {ℓ} : {S A B : Type ℓ} → Exec S A → (A → Exec S B) → Exec S B
◌>>=◌ m f s = resume f (m s).0 (m s).1

abbrev pub ◌>>◌ {ℓ} : {S A B : Type ℓ} → Exec S A → Exec S B → Exec S B
m >> k = m >>= λ _. k

-- A missing value is a failure.
abbrev pub or_fail {ℓ} : {S A : Type ℓ} → Option A → Exec S A
or_fail none = fail
or_fail (some a) = pure a

abbrev pub modify {ℓ} : {S : Type ℓ} → (S → S) → Exec S (Unit {ℓ})
modify f s = (ok tt, f s)
