-- ===== src/Merge/Depth/Store.antt =====
-- What the merge does to the store: it only adds directories. Complete trees of a given depth.
use seafile_server_learn.Prelude.{
  ℕ, zero, suc, ◌≡◌, ◌≢◌, true, some, arith, All, Bool, if◌then◌else◌, false,
}
use seafile_server_learn.Prelude.Text.{Text}
use seafile_server_learn.Prelude.Exec.{Outcome, Exec, ok, failed, out_of_fuel, resume}
use seafile_server_learn.Fs.Object.{SeafDir, is_dir}
use seafile_server_learn.Fs.Extends.{Extends}
use seafile_server_learn.Fs.Store.{FsStore, get_seafdir, seaf_dir_save}
use seafile_server_learn.Merge.Options.{State}

pub seaf_dir_save-Ends : (dir : SeafDir) (fs : FsStore) → (seaf_dir_save dir fs).0 ≢ out_of_fuel
unfolding seaf_dir_save
seaf_dir_save-Ends dir fs = ground arith

-- The directory with this id, and every directory below it, can be read, at most `depth` levels.
abbrev pub IsComplete : (depth version : ℕ) → FsStore → Text → Type 0
IsComplete zero version fs id = ⊥
IsComplete (suc depth) version fs id =
    (dir : SeafDir) × (get_seafdir fs version id ≡ some dir)
    × All (λ d. is_dir d ≡ true → IsComplete depth version fs d.id) dir.entries

module _ (version : ℕ) (fs₀ : FsStore) {D : Type 0} where
  -- The step ends, and the store still has what it had; a returned value satisfies `P`.
  abbrev pub Ends : {A : Type 0} → (A → Type 0) → Outcome A × State D → Type 0
  Ends P (ok a, s) = P a × Extends version fs₀ s.fs
  Ends P (failed, s) = Extends version fs₀ s.fs
  Ends P (out_of_fuel, s) = ⊥

  pub Ends-bind :
      {A B : Type 0} (P : A → Type 0) (Q : B → Type 0) (r : Outcome A × State D)
      (f : A → Exec (State D) B)
      → Ends P r
      → ((a : A) (s : State D) → P a → Extends version fs₀ s.fs → Ends Q (f a s))
      → Ends Q (resume f r.0 r.1)
  Ends-bind P Q (ok a, s) f h k = k a s h.0 h.1
  Ends-bind P Q (failed, s) f h k = h
  Ends-bind P Q (out_of_fuel, s) f h k = h

  pub Ends-if :
      {A : Type 0} (P : A → Type 0) (b : Bool) (m k : Exec (State D) A) (s : State D)
      → Ends P (m s)
      → Ends P (k s)
      → Ends P ((if b then m else k) s)
  Ends-if P true m k s h₁ h₂ = h₁
  Ends-if P false m k s h₁ h₂ = h₂

  pub Ends-either :
      {A : Type 0} (P : A → Type 0) (b : Bool) (r t : Outcome A × State D)
      → Ends P r
      → Ends P t
      → Ends P (if b then r else t)
  Ends-either P true r t h k = h
  Ends-either P false r t h k = k

  pub Ends-ne :
      {A : Type 0} (P : A → Type 0) (r : Outcome A × State D) → Ends P r → r.0 ≢ out_of_fuel
  Ends-ne P (ok a, s) h = λ e. cc
  Ends-ne P (failed, s) h = λ e. cc
  Ends-ne P (out_of_fuel, s) h = absurd h

  pub Ends-Extends :
      {A : Type 0} (P : A → Type 0) (r : Outcome A × State D)
      → Ends P r
      → Extends version fs₀ r.1.fs
  Ends-Extends P (ok a, s) h = h.1
  Ends-Extends P (failed, s) h = h
  Ends-Extends P (out_of_fuel, s) h = absurd h
