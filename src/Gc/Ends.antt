-- ===== src/Gc/Ends.antt =====
-- server/gc/gc-core.c: the traversals of the history in a run end.
use seafile_server_learn.Prelude.{ℕ, suc, ◌≡◌, List, some, In, length, ◌⊎◌}
use seafile_server_learn.Prelude.Text.{Text}
use seafile_server_learn.Prelude.Exec.{Exec}
use seafile_server_learn.Bloom.Filter.{Bloom}
use seafile_server_learn.Commit.Object.{SeafCommit}
use seafile_server_learn.Commit.Traverse.Ends.{Inserts}
use seafile_server_learn.Gc.Run.{SeafRepo, Env}

module _ (env : Env) (ids : List Text) (depth : ℕ) (inserts : Inserts env.g_list_insert_sorted)
    (known : (repo_id id : Text) (c : SeafCommit)
      → env.commits repo_id id ≡ some c
      → In id ids) where
  abbrev rounds : ℕ
  rounds = suc (suc (length ids))

-- The repositories whose history a run for `repo` can go through.
abbrev pub InRun : Env → SeafRepo → SeafRepo → Type 0
InRun env repo r = (r ≡ repo) ⊎ ((id : Text) × (env.get_repo id ≡ some r))
