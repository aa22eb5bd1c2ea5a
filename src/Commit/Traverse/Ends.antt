-- ===== src/Commit/Traverse/Ends.antt =====
-- common/commit-mgr.c: the traversal of the commits ends: every commit enters the list at most once.
use seafile_server_learn.Prelude.{
  ℕ, zero, suc, ◌+◌, ◌≤◌, ◌<◌, ◌≡◌, ◌≢◌, refl, Bool, true, false, Option, none, some, List, [], ◌∷◌,
  In, here, there, if◌then◌else◌, length, arith, Option-cases, Bool-cases, inl, inr,
}
use seafile_server_learn.Prelude.Text.{Text, str_eq_refl}
use seafile_server_learn.Prelude.Exec.{out_of_fuel, Exec}
use seafile_server_learn.Fs.Traverse.{Called}
use seafile_server_learn.Commit.Object.{SeafCommit, CommitStore}
use seafile_server_learn.Commit.Traverse.{
  compare_commit_by_time, member, Queue, Insert, push, insert_parent_commit, past_error,
  insert_parent, insert_parents, after_func, traverse_round, traverse_loop,
  traverse_commit_tree_common,
}

-- g_list_insert_sorted makes the list one element longer.
pub record Inserts (insert : Insert) : Type 0 where
  pub one_longer :
      (c : SeafCommit) (l : List SeafCommit)
      → length (insert compare_commit_by_time c l) ≡ suc (length l)
  pub new_in : (c : SeafCommit) (l : List SeafCommit) → In c (insert compare_commit_by_time c l)
  pub old_in :
      (c d : SeafCommit) (l : List SeafCommit) → In d l → In d (insert compare_commit_by_time c l)

-- The ids that were not seen yet.
unseen : List Text → List Text → ℕ
unseen [] hash = 0
unseen (id ∷ ids) hash = if member id hash then unseen ids hash else suc (unseen ids hash)

unseen_nil : (ids : List Text) → unseen ids [] ≡ length ids
unfolding unseen member
unseen_nil [] = refl
unseen_nil (id ∷ ids) = ground (arith, unseen_nil ids)

unseen-more : (ids hash : List Text) (p : Text) → unseen ids (p ∷ hash) ≤ unseen ids hash
unfolding unseen member
unseen-more [] hash p = omega arith
unseen-more (id ∷ ids) hash p = ground (arith, unseen-more ids hash p)

unseen-fewer :
    (ids hash : List Text) (p : Text)
    → In p ids
    → member p hash ≡ false
    → suc (unseen ids (p ∷ hash)) ≤ unseen ids hash
unfolding unseen member
unseen-fewer [] hash p m new = elim m [ ]
unseen-fewer (id ∷ ids) hash p (here e) new =
    let less = unseen-more ids hash p in
    let same = str_eq_refl p in rw⁻¹ e (ground (arith, less, same, new))
unseen-fewer (id ∷ ids) hash p (there m) new = ground (arith, unseen-fewer ids hash p m new)

-- What is left to do: the commits in the list and those that can still enter it.
work : List Text → Queue → ℕ
work ids q = unseen ids q.hash + length q.list

module _ (insert : Insert) (commits : CommitStore) (ids : List Text) (inserts : Inserts insert)
    (known : (id : Text) (c : SeafCommit) → commits id ≡ some c → In id ids) where
  push-work :
      (p : SeafCommit) (id : Text) (q : Queue)
      → commits id ≡ some p
      → member id q.hash ≡ false
      → work ids (push insert commits p id q) ≤ work ids q
  unfolding work
  push-work p id q found new =
      let less = unseen-fewer ids q.hash id (known id p found) new in
      let longer = inserts.one_longer p q.list in omega (arith, less, longer)

  module _ (skip truncate : Bool) where
    insert_parent-work :
        (parent : Option Text) (q q' : Queue)
        → insert_parent insert commits skip truncate parent q ≡ some q'
        → work ids q' ≤ work ids q
    unfolding insert_parent past_error insert_parent_commit
    insert_parent-work none q q' h = ground arith
    insert_parent-work (some id) q q' h = elim (Bool-cases (member id q.hash)) [
      | inl seen ↦ old seen
      | inr new ↦ elim (Option-cases (commits id)) [
        | inl missing ↦ absent new missing
        | inr (p, found) ↦ pushed new p found (push-work p id q found new)
      ]
    ]
      where
        old : member id q.hash ≡ true → work ids q' ≤ work ids q
        old seen = ground arith

        absent : member id q.hash ≡ false → commits id ≡ none → work ids q' ≤ work ids q
        absent new missing = ground arith

        pushed :
            member id q.hash ≡ false
            → (p : SeafCommit) → commits id ≡ some p
            → work ids (push insert commits p id q) ≤ work ids q
            → work ids q' ≤ work ids q
        pushed new p found less = ground arith

    insert_parents-work :
        (c : SeafCommit) (q q' : Queue)
        → insert_parents insert commits skip truncate c q ≡ some q'
        → work ids q' ≤ work ids q
    unfolding insert_parents
    insert_parents-work c q q' h =
        elim (Option-cases (insert_parent insert commits skip truncate c.parent_id q)) [
          | inl none₁ ↦ ground arith
          | inr (q1, some₁) ↦
              let second : insert_parent insert commits skip truncate c.second_parent_id q1
                  ≡ some q' =
                ground arith in
              let less₁ = insert_parent-work c.parent_id q q1 some₁ in
              let less₂ = insert_parent-work c.second_parent_id q1 q' second in
              omega (arith, less₁, less₂)
        ]

    module _ {S : Type 0} (func : SeafCommit → S → Called S) where
      after_func_ends :
          (again : Queue → Exec S Unit) (bound : ℕ)
          (more : (q : Queue) (s : S) → work ids q ≤ bound → (again q s).0 ≢ out_of_fuel)
          (c : SeafCommit) (q : Queue) (called : Called S)
          → work ids q ≤ bound
          → (after_func insert commits skip truncate func again c q called).0 ≢ out_of_fuel
      unfolding after_func
      after_func_ends again bound more c q called room =
          elim (Option-cases (insert_parents insert commits skip truncate c q)) [
            | inl missing ↦ ground (arith, more q called.data' room)
            | inr (q', found) ↦
                let less = insert_parents-work c q q' found in
                let next = more q' called.data' (omega (arith, less)) in
                let stopped = more q called.data' room in ground (arith, next, stopped)
          ]

      traverse_loop_ends :
          (rounds : ℕ) (q : Queue) (s : S)
          → work ids q < rounds
          → (traverse_loop insert commits skip truncate func rounds q s).0 ≢ out_of_fuel
      unfolding traverse_loop work traverse_round
      traverse_loop_ends zero q s room = absurd (omega arith)
      traverse_loop_ends (suc rounds) q s room =
          round (λ q s less. traverse_loop_ends rounds q s less) q.list q.hash room
        where
          round :
              ((q : Queue) (s : S)
                → work ids q < rounds
                → (traverse_loop insert commits skip truncate func rounds q s).0 ≢ out_of_fuel)
              → (list : List SeafCommit) (hash : List Text)
              → unseen ids hash + length list < suc rounds
              → (traverse_round insert commits skip truncate func
                  (traverse_loop insert commits skip truncate func rounds)
                  list
                  hash
                  s).0
                ≢ out_of_fuel
          round more [] hash room = λ e. cc
          round more (c ∷ list) hash room =
              after_func_ends (traverse_loop insert commits skip truncate func rounds)
                (unseen ids hash + length list) (λ q s less. more q s (omega arith)) c
                (record { list = list; hash = hash }) (func c s) (omega arith)

-- Where `ids` lists the ids of all stored commits, two rounds more than it is long are enough for the traversal
-- to end with TRUE or FALSE, whatever the callback does and whatever the parents of a commit
-- are, cycles included: a commit enters the list at most once, the head at most twice.
pub traverse_commit_tree_ends :
    {S : Type 0} (insert : Insert) (commits : CommitStore) (ids : List Text)
    (skip_errors allow_truncate : Bool) (func : SeafCommit → S → Called S) (head : Text) (s : S)
    → Inserts insert
    → ((id : Text) (c : SeafCommit) → commits id ≡ some c → In id ids)
    → (traverse_commit_tree_common insert commits skip_errors allow_truncate func
        (suc (suc (length ids)))
        head
        s).0
      ≢ out_of_fuel
unfolding traverse_commit_tree_common work
traverse_commit_tree_ends insert commits ids skip truncate func head s inserts known =
    elim (Option-cases (commits head)) [
      | inl missing ↦ no_head missing
      | inr (c, found) ↦
          let start = push insert commits c c.commit_id (record { list = []; hash = [] }) in
          let less = unseen-more ids [] c.commit_id in
          let all = unseen_nil ids in
          let longer = inserts.one_longer c [] in
          with_head c found (
            traverse_loop_ends insert commits ids inserts known skip truncate func
              (suc (suc (length ids))) start s (room c less all longer))
    ]
  where
    no_head :
        commits head ≡ none
        → (traverse_commit_tree_common insert commits skip truncate func
            (suc (suc (length ids)))
            head
            s).0
          ≢ out_of_fuel
    no_head missing = rw (missing, traverse_commit_tree_common) (λ e. cc)

    room :
        (c : SeafCommit)
        → unseen ids (c.commit_id ∷ []) ≤ unseen ids []
        → unseen ids [] ≡ length ids
        → length (insert compare_commit_by_time c []) ≡ 1
        → work ids (push insert commits c c.commit_id (record { list = []; hash = [] }))
          < suc (suc (length ids))
    room c less all longer = omega (arith, less, all, longer)

    with_head :
        (c : SeafCommit)
        → commits head ≡ some c
        → (traverse_loop insert commits skip truncate func
            (suc (suc (length ids)))
            (push insert commits c c.commit_id (record { list = []; hash = [] }))
            s).0
          ≢ out_of_fuel
        → (traverse_commit_tree_common insert commits skip truncate func
            (suc (suc (length ids)))
            head
            s).0
          ≢ out_of_fuel
    with_head c found h = rw (found, traverse_commit_tree_common) h
