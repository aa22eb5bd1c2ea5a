-- ===== src/Commit/Traverse.antt =====
-- common/commit-mgr.c: traversing the commits below a head, latest first. The hash table of seen ids
-- is a list; GLib's insertion into a sorted list is a parameter.
pub mod Ends
pub mod Order
pub mod Complete
pub mod Reached
use seafile_server_learn.Prelude.{
  ℕ, zero, suc, ◌+◌, ◌-◌, ◌%◌, ◌^◌, Bool, true, false, not, ◌&&◌, ◌||◌, Option, none, some, List,
  [], ◌∷◌, if◌then◌else◌, ltb, leb,
}
use seafile_server_learn.Prelude.Text.{Text, str_eq}
use seafile_server_learn.Prelude.Int.{ℤ, pos, negsuc}
use seafile_server_learn.Prelude.Exec.{Outcome, ok, failed, out_of_fuel, Exec}
use seafile_server_learn.Fs.Traverse.{Called}
use seafile_server_learn.Commit.Object.{SeafCommit, CommitStore}

-- A 32-bit pattern as a `gint`.
abbrev pub to_gint : ℕ → ℤ
to_gint n = if ltb n (2 ^ 31) then pos n else negsuc (2 ^ 32 - 1 - n)

-- The difference of two `guint64` is returned as a `gint`.
unfoldable pub compare_commit_by_time : SeafCommit → SeafCommit → ℤ
compare_commit_by_time a b = to_gint ((b.ctime + (2 ^ 64 - a.ctime)) % 2 ^ 64 % 2 ^ 32)

unfoldable pub member : Text → List Text → Bool
member x [] = false
member x (y ∷ ys) = if str_eq x y then true else member x ys

-- The variables `list` and `commit_hash`.
pub record Queue : Type 0 where
  pub list : List SeafCommit
  pub hash : List Text

abbrev pub Insert : Type 0
Insert = (SeafCommit → SeafCommit → ℤ) → SeafCommit → List SeafCommit → List SeafCommit

module _ (g_list_insert_sorted : Insert) (commits : CommitStore) where
  abbrev pub push : SeafCommit → Text → Queue → Queue
  push p id q = record {
    list = g_list_insert_sorted compare_commit_by_time p q.list;
    hash = id ∷ q.hash;
  }

  -- `none` for -1
  unfoldable pub insert_parent_commit : Bool → Text → Queue → Option Queue
  insert_parent_commit allow_truncate parent_id q =
      if member parent_id q.hash then some q else elim (commits parent_id) [
        | none ↦ if allow_truncate then some q else none
        | some p ↦ some (push p parent_id q)
      ]

  module _ (skip_errors allow_truncate : Bool) where
    -- With `skip_errors` the loop goes on after a failed insertion.
    unfoldable pub past_error : Queue → Option Queue → Option Queue
    past_error q none = if skip_errors then some q else none
    past_error q (some q') = some q'

    -- `if (commit->parent_id) ...`
    unfoldable pub insert_parent : Option Text → Queue → Option Queue
    unfolding past_error
    insert_parent none q = some q
    insert_parent (some parent_id) q =
        past_error q (insert_parent_commit allow_truncate parent_id q)

    unfoldable pub insert_parents : SeafCommit → Queue → Option Queue
    unfolding insert_parent
    insert_parents c q = elim (insert_parent c.parent_id q) [
      | none ↦ none
      | some q' ↦ insert_parent c.second_parent_id q'
    ]

    module _ {S : Type 0} (func : SeafCommit → S → Called S) where
      -- The rest of a round, given what `func` left; `again` is the next round.
      unfoldable pub after_func :
          (Queue → Exec S Unit) → SeafCommit → Queue → Called S → Outcome (Unit {0}) × S
      unfolding insert_parents
      after_func again c q called =
          if not called.result && not skip_errors
          then (failed, called.data')
          else if called.stop
          then again q called.data'
          else elim (insert_parents c q) [
            | none ↦ (failed, called.data')
            | some q' ↦ again q' called.data'
          ]

      unfoldable pub traverse_round :
          (Queue → Exec S Unit) → List SeafCommit → List Text → Exec S Unit
      unfolding after_func
      traverse_round again [] hash s = (ok tt, s)
      traverse_round again (c ∷ list) hash s =
          after_func again c (record { list = list; hash = hash }) (func c s)

      -- `while (list)`
      unfoldable pub traverse_loop : ℕ → Queue → Exec S Unit
      unfolding traverse_round
      traverse_loop zero q s = (out_of_fuel, s)
      traverse_loop (suc rounds) q s = traverse_round (traverse_loop rounds) q.list q.hash s

      -- The seen ids start with the head's own.
      unfoldable pub traverse_commit_tree_common : ℕ → Text → Exec S Unit
      traverse_commit_tree_common rounds head s = elim (commits head) [
        | none ↦ (failed, s)
        | some commit ↦
            traverse_loop rounds (push commit commit.commit_id (record { list = []; hash = [] })) s
      ]

  -- `seaf_commit_manager_traverse_commit_tree`
  unfoldable pub traverse_commit_tree :
      {S : Type 0} → (SeafCommit → S → Called S) → Bool → ℕ → Text → Exec S Unit
  traverse_commit_tree func skip_errors rounds head =
      traverse_commit_tree_common skip_errors false func rounds head

  -- `seaf_commit_manager_traverse_commit_tree_truncated`
  unfoldable pub traverse_commit_tree_truncated :
      {S : Type 0} → (SeafCommit → S → Called S) → Bool → ℕ → Text → Exec S Unit
  traverse_commit_tree_truncated func skip_errors rounds head =
      traverse_commit_tree_common skip_errors true func rounds head

module _ (g_list_insert_sorted : Insert) (commits : CommitStore) (skip_errors : Bool) {S : Type 0}
    (func : SeafCommit → S → Called S) where
  -- `limit > 0 && ++count >= limit && (!list || !list->next)`: the second part is the new count.
  unfoldable pub limit_reached : ℤ → ℕ → List SeafCommit → Bool × ℕ
  limit_reached (negsuc limit) count list = (false, count)
  limit_reached (pos zero) count list = (false, count)
  limit_reached (pos (suc limit)) count [] = (leb (suc limit) (suc count), suc count)
  limit_reached (pos (suc limit)) count (c ∷ []) = (leb (suc limit) (suc count), suc count)
  limit_reached (pos (suc limit)) count (c ∷ d ∷ list) = (false, suc count)

  -- `*next_start_commit`: the head of what is left of the list.
  unfoldable pub next_start : List SeafCommit → Option Text
  next_start [] = none
  next_start (c ∷ list) = some c.commit_id

  abbrev pub Scan : Type 0
  Scan = Exec S (Option Text)

  unfoldable pub after_func_limit :
      ℤ → (ℕ → Queue → Scan) → ℕ → SeafCommit → Queue → Called S → Outcome (Option Text) × S
  unfolding insert_parents limit_reached next_start
  after_func_limit limit again count c q called =
      if not called.result && not skip_errors
      then (failed, called.data')
      else if called.stop
      then again count q called.data'
      else elim (insert_parents g_list_insert_sorted commits skip_errors false c q) [
        | none ↦ (failed, called.data')
        | some q' ↦
            if (limit_reached limit count q'.list).0
            then (ok (next_start q'.list), called.data')
            else again (limit_reached limit count q'.list).1 q' called.data'
      ]

  unfoldable pub limited_round : ℤ → (ℕ → Queue → Scan) → ℕ → List SeafCommit → List Text → Scan
  unfolding after_func_limit
  limited_round limit again count [] hash s = (ok none, s)
  limited_round limit again count (c ∷ list) hash s =
      after_func_limit limit again count c (record { list = list; hash = hash }) (func c s)

  unfoldable pub limited_loop : ℤ → ℕ → ℕ → Queue → Scan
  unfolding limited_round
  limited_loop limit zero count q s = (out_of_fuel, s)
  limited_loop limit (suc rounds) count q s =
      limited_round limit (limited_loop limit rounds) count q.list q.hash s

  -- `seaf_commit_manager_traverse_commit_tree_with_limit`
  unfoldable pub traverse_commit_tree_with_limit : ℤ → ℕ → Text → Scan
  traverse_commit_tree_with_limit limit rounds head s = elim (commits head) [
    | none ↦ (failed, s)
    | some commit ↦
        limited_loop limit rounds 0
          (push g_list_insert_sorted commits commit commit.commit_id
            (record { list = []; hash = [] }))
          s
  ]
