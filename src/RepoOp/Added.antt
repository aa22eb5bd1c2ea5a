-- ===== src/RepoOp/Added.antt =====
-- server/repo-op.c: posting several files, without replacing any, as a change to one directory.
use seafile_server_learn.Prelude.{ℕ, ◌≡◌, none, some, List, [], ◌∷◌}
use seafile_server_learn.Prelude.Text.{Text}
use seafile_server_learn.Fs.Object.{SeafDirent}
use seafile_server_learn.Fs.Lookup.{find_dent}
use seafile_server_learn.RepoOp.Edit.{Env}
use seafile_server_learn.RepoOp.Multi.{new_entry}

module _ (env : Env) (version : ℕ) (user : Text) where
  -- Each of the new files is found under its name, which was free.
  abbrev pub Placed : List SeafDirent → List SeafDirent → List SeafDirent → List Text → Type 0
  Placed es es' [] [] = Unit {0}
  Placed es es' [] (n ∷ ns) = ⊥
  Placed es es' (d ∷ ds) [] = ⊥
  Placed es es' (d ∷ ds) (n ∷ ns) =
      (find_dent n es ≡ none)
      × (find_dent n es' ≡ some (new_entry env version user d n))
      × Placed es es' ds ns

  abbrev pub AllPlaced : List SeafDirent → List SeafDirent → List SeafDirent → List Text → Type 0
  AllPlaced dents es es' names = Placed es es' dents names

  -- Nothing that could be found is lost.
  abbrev pub StillFound : List SeafDirent → List SeafDirent → Type 0
  StillFound es es' =
      (m : Text) (e : SeafDirent) → find_dent m es ≡ some e → find_dent m es' ≡ some e
