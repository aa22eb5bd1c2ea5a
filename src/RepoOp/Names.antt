-- ===== src/RepoOp/Names.antt =====
-- server/repo-op.c: names of new entries, and paths.
use seafile_server_learn.Prelude.{
  ℕ, zero, suc, ◌+◌, ◌/◌, ◌%◌, ◌==◌, ltb, Bool, true, false, Option, none, some, List, [], ◌∷◌,
  ◌++◌, if◌then◌else◌,
}
use seafile_server_learn.Prelude.Text.{Text, codes, str_eq}
use seafile_server_learn.Fs.Object.{SeafDirent}
use seafile_server_learn.Vc.ConflictPath.{split_last_dot}

unfoldable pub filename_exists : List SeafDirent → Text → Bool
filename_exists [] filename = false
filename_exists (d ∷ ds) filename =
    if str_eq d.name filename then true else filename_exists ds filename

-- `strrchr (filename, '.')`: the name, and what stands behind the last dot.
unfoldable pub split_filename : Text → Text × Option Text
unfolding split_last_dot
split_filename filename = elim (split_last_dot filename) [
  | none ↦ (filename, none)
  | some (name, ext) ↦ (name, some ext)
]

-- `%d` of a number below 10 ^ digits.
unfoldable pub decimal : (digits n : ℕ) → Text
decimal zero n = []
decimal (suc k) n =
    let front = decimal k (n / 10) in
    if ltb n 10 then (48 + n) ∷ [] else front ++ ((48 + n % 10) ∷ [])

-- "%s (%d).%s" or "%s (%d)"
unfoldable pub numbered : Text → Option Text → ℕ → Text
unfolding decimal
numbered name none i = name ++ (codes " (" ++ (decimal 3 i ++ codes ")"))
numbered name (some ext) i = name ++ (codes " (" ++ (decimal 3 i ++ (codes ")." ++ ext)))

-- The loop, with 101 - i rounds left.
unfoldable pub unique_loop :
    List SeafDirent → Text → Option Text → (rounds i : ℕ) → Text → Option Text
unfolding filename_exists numbered
unique_loop entries name ext zero i unique_name = none
unique_loop entries name ext (suc rounds) i unique_name =
    let next = unique_loop entries name ext rounds (i + 1) (numbered name ext i) in
    if filename_exists entries unique_name then next else some unique_name

unfoldable pub generate_unique_filename : Text → List SeafDirent → Option Text
unfolding unique_loop split_filename
generate_unique_filename file entries =
    unique_loop entries (split_filename file).0 (split_filename file).1 100 1 file

-- Backslashes become slashes.
unfoldable pub to_slashes : Text → Text
to_slashes [] = []
to_slashes (c ∷ cs) = (if c == 92 then 47 else c) ∷ to_slashes cs

-- The slashes at the end are cut off.
unfoldable pub trim_slashes : Text → Text
trim_slashes [] = []
trim_slashes (c ∷ cs) = elim (trim_slashes cs) [
  | [] ↦ if c == 47 then [] else c ∷ []
  | d ∷ ds ↦ c ∷ d ∷ ds
]

unfoldable pub get_canonical_path : Text → Text
unfolding to_slashes trim_slashes
get_canonical_path path = trim_slashes (to_slashes path)

-- "if parent_dir is a absolutely path, we will remove the first '/'"
unfoldable pub skip_slash : Text → Text
skip_slash [] = []
skip_slash (c ∷ cs) = if c == 47 then cs else c ∷ cs
