-- ===== src/Commit/Traverse/Order.antt =====
-- common/commit-mgr.c: the order of the commits in the list of a traversal.
use seafile_server_learn.Prelude.{
  ℕ, suc, ◌+◌, ◌-◌, ◌%◌, ◌^◌, ◌<◌, ◌≡◌, ap, ◌∙◌, false, ltb, arith, if_false,
}
use seafile_server_learn.Prelude.Int.{pos, negsuc}
use seafile_server_learn.Commit.Object.{SeafCommit}
use seafile_server_learn.Commit.Traverse.{compare_commit_by_time, to_gint}

to_gint_small : (n : ℕ) → n < 2 ^ 31 → to_gint n ≡ pos n
to_gint_small n h = ground arith

to_gint_large : (n m : ℕ) → n + suc m ≡ 2 ^ 32 → suc m < 2 ^ 31 → to_gint n ≡ negsuc m
to_gint_large n m e h =
    let large : ltb n (2 ^ 31) ≡ false = ground arith in
    let rest : 2 ^ 32 - 1 - n ≡ m = omega arith in
    if_false (pos n) (negsuc (2 ^ 32 - 1 - n)) large ∙ ap negsuc rest

forward :
    (t m : ℕ)
    → t + suc m < 2 ^ 64
    → suc m < 2 ^ 31
    → (t + suc m + (2 ^ 64 - t)) % 2 ^ 64 % 2 ^ 32 ≡ suc m
forward t m room h = omega arith

backward :
    (t m : ℕ)
    → t + suc m < 2 ^ 64
    → suc m < 2 ^ 31
    → (t + (2 ^ 64 - (t + suc m))) % 2 ^ 64 % 2 ^ 32 + suc m ≡ 2 ^ 32
backward t m room h = omega arith

-- Where the second of two commits is later by less than 2^31 seconds, and the times fit 64 bits, the
-- comparison is positive with the earlier commit first and negative, of the same size, with the
-- later one first: the later commit comes first in a list that is sorted by it.
pub compare_commit_by_time-later :
    (a b : SeafCommit) (m : ℕ)
    → b.ctime ≡ a.ctime + suc m
    → suc m < 2 ^ 31
    → b.ctime < 2 ^ 64
    → (compare_commit_by_time a b ≡ pos (suc m)) × (compare_commit_by_time b a ≡ negsuc m)
unfolding compare_commit_by_time
compare_commit_by_time-later a b m e near room =
    let fits : a.ctime + suc m < 2 ^ 64 = omega (arith, e) in
    let up = forward a.ctime m fits near in
    let down = backward a.ctime m fits near in
    (
      ap (λ t. to_gint ((t + (2 ^ 64 - a.ctime)) % 2 ^ 64 % 2 ^ 32)) e
          ∙ ap to_gint up
          ∙ to_gint_small (suc m) near,
      ap (λ t. to_gint ((a.ctime + (2 ^ 64 - t)) % 2 ^ 64 % 2 ^ 32)) e
          ∙ to_gint_large _ m down near,
    )
