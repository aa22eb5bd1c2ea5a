-- ===== src/Commit/Traverse/Reached.antt =====
-- common/commit-mgr.c: the commits below a head that a traversal that succeeds has reached.
use mathlib.Core.Path.{subst}
use seafile_server_learn.Prelude.{
  ℕ, ◌≡◌, refl, sym, ap, ◌∙◌, Bool, true, false, Option, none, some, List, [], ◌∷◌, In, here, there,
  Option-cases, inl, inr, ◌⊎◌,
}
use seafile_server_learn.Prelude.Text.{Text}
use seafile_server_learn.Prelude.Exec.{Outcome, ok, failed, out_of_fuel}
use seafile_server_learn.Fs.Traverse.{Called}
use seafile_server_learn.Commit.Object.{SeafCommit, CommitStore}
use seafile_server_learn.Commit.Traverse.{
  compare_commit_by_time, Insert, push, traverse_loop, traverse_commit_tree,
  traverse_commit_tree_common,
}
use seafile_server_learn.Commit.Traverse.Ends.{Inserts}
use seafile_server_learn.Commit.Traverse.Complete.{
  ParentIn, IsDone, Invariant, AllDone, Final, traverse_loop-Final,
}

-- The commits below a head, down to the ones that are cut off.
pub data Reached (commits : CommitStore) (cut : SeafCommit → Bool) (head : Text)
    : Text → Type 0 where
  at_head : Reached commits cut head head
  parent :
      {id p : Text} {c : SeafCommit}
      → Reached commits cut head id
      → commits id ≡ some c
      → cut c ≡ false
      → c.parent_id ≡ some p
      → Reached commits cut head p
  second_parent :
      {id p : Text} {c : SeafCommit}
      → Reached commits cut head id
      → commits id ≡ some c
      → cut c ≡ false
      → c.second_parent_id ≡ some p
      → Reached commits cut head p

module _ (insert : Insert) (commits : CommitStore) (inserts : Inserts insert)
    (own_id : (id : Text) (c : SeafCommit) → commits id ≡ some c → c.commit_id ≡ id) {S : Type 0}
    (func : SeafCommit → S → Called S) (Kept : S → Type 0) (Seen : S → SeafCommit → Type 0)
    (cut : SeafCommit → Bool)
    (calls : (c : SeafCommit) (s : S)
      → Kept s
      → (func c s).result ≡ true
      → Kept (func c s).data'
        × Seen (func c s).data' c
        × ((d : SeafCommit) → Seen s d → Seen (func c s).data' d)
        × ((func c s).stop ≡ true → cut c ≡ true)) where
  ParentIn-at :
      (o : Option Text) (p : Text) (hash : List Text) → o ≡ some p → ParentIn o hash → In p hash
  ParentIn-at o p hash e h = subst (λ o. ParentIn o hash) e h

  same_commit : {c d : SeafCommit} → {id : Text} → commits id ≡ some c → commits id ≡ some d → c ≡ d
  same_commit e h = cc

  all_reached :
      (head : Text) (s : S) (hash : List Text)
      → In head hash
      → AllDone insert commits inserts own_id func Kept Seen cut calls s hash
      → (id : Text) → Reached commits cut head id
      → In id hash
  unfolding IsDone
  all_reached head s hash m done id at_head = m
  all_reached head s hash m done id (parent {id = above} {c = c} r found go e) =
      let (d, found', h) = done above (all_reached head s hash m done above r) in
      let same = same_commit found found' in
      ParentIn-at d.parent_id id hash (ap (λ c. c.parent_id) (sym same) ∙ e)
        (h.1 (ap cut (sym same) ∙ go)).0
  all_reached head s hash m done id (second_parent {id = above} {c = c} r found go e) =
      let (d, found', h) = done above (all_reached head s hash m done above r) in
      let same = same_commit found found' in
      ParentIn-at d.second_parent_id id hash (ap (λ c. c.second_parent_id) (sym same) ∙ e)
        (h.1 (ap cut (sym same) ∙ go)).1

  -- What holds where the result is 0.
  abbrev pub Covered : Text → Outcome (Unit {0}) × S → Type 0
  Covered head (ok a, s) =
      Kept s
      × ((id : Text)
          → Reached commits cut head id
          → (c : SeafCommit) × (commits id ≡ some c) × Seen s c)
  Covered head (failed, s) = Unit {0}
  Covered head (out_of_fuel, s) = Unit {0}

  Covered-Final :
      (head : Text) (r : Outcome (Unit {0}) × S)
      → Final insert commits inserts own_id func Kept Seen cut calls (head ∷ []) r
      → Covered head r
  unfolding IsDone
  Covered-Final head (ok a, s) (hash, more, kept, done) = (
    kept,
    λ id r.
        let (c, found, h) = done id (all_reached head s hash (more head (here refl)) done id r) in
        (c, found, h.0),
  )
  Covered-Final head (failed, s) f = tt
  Covered-Final head (out_of_fuel, s) f = tt

  pub traverse_commit_tree-Covered :
      (rounds : ℕ) (head : Text) (s : S)
      → Kept s
      → Covered head (traverse_commit_tree insert commits func false rounds head s)
  unfolding traverse_commit_tree traverse_commit_tree_common
  traverse_commit_tree-Covered rounds head s kept = from (Option-cases (commits head))
    where
      start :
          (c : SeafCommit)
          → commits head ≡ some c
          → Invariant insert commits inserts own_id func Kept Seen cut calls s
              (push insert commits c head (record { list = []; hash = [] }))
      start c found = record { kept = kept; known = λ id m. at_start id m }
        where
          at_start :
              (id : Text)
              → In id (head ∷ [])
              → (d : SeafCommit) × (commits id ≡ some d)
                × (In d (insert compare_commit_by_time c [])
                    ⊎ IsDone insert commits inserts own_id func Kept Seen cut calls s (head ∷ []) d)
          at_start id (here e) = (c, ap commits e ∙ found, inl (inserts.new_in c []))
          at_start id (there m) = elim m [ ]

      from :
          ((commits head ≡ none) ⊎ ((c : SeafCommit) × (commits head ≡ some c)))
          → Covered head (traverse_commit_tree insert commits func false rounds head s)
      from (inl missing) = rw (missing, traverse_commit_tree, traverse_commit_tree_common) tt
      from (inr (c, found)) =
          let loop =
            traverse_loop-Final insert commits inserts own_id func Kept Seen cut calls rounds _ s
              (start c found) in
          let ready =
            subst
              (λ id. Covered head (
                traverse_loop insert commits false false func rounds
                  (push insert commits c id (record { list = []; hash = [] })) s))
              (sym (own_id head c found)) (Covered-Final head _ loop) in
          rw (found, traverse_commit_tree, traverse_commit_tree_common) ready
