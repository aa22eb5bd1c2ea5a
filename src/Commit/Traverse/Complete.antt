-- ===== src/Commit/Traverse/Complete.antt =====
-- common/commit-mgr.c: which commits a traversal that succeeds has called the function on.
use mathlib.Core.Path.{subst}
use seafile_server_learn.Prelude.{
  ℕ, zero, suc, ◌≡◌, refl, sym, ap, ◌∙◌, Bool, true, false, Option, none, some, List, [], ◌∷◌, In,
  here, there, arith, Option-cases, Bool-cases, inl, inr, ◌⊎◌,
}
use seafile_server_learn.Prelude.Text.{Text, str_eq, str_eq_iff}
use seafile_server_learn.Prelude.Exec.{Outcome, ok, failed, out_of_fuel, Exec}
use seafile_server_learn.Fs.Traverse.{Called}
use seafile_server_learn.Commit.Object.{SeafCommit, CommitStore}
use seafile_server_learn.Commit.Traverse.{
  compare_commit_by_time, member, Queue, Insert, push, insert_parent_commit, past_error,
  insert_parent, insert_parents, after_func, traverse_round, traverse_loop,
}
use seafile_server_learn.Commit.Traverse.Ends.{Inserts}

pub member-In : (x : Text) (l : List Text) → member x l ≡ true → In x l
unfolding member
member-In x [] h = ground arith
member-In x (y ∷ ys) h = elim (Bool-cases (str_eq x y)) [
  | inl e ↦ here ((str_eq_iff x y).0 e)
  | inr e ↦ there (member-In x ys (ground arith))
]

-- Every parent of the commit is among the ids.
abbrev pub ParentIn : Option Text → List Text → Type 0
ParentIn none hash = Unit {0}
ParentIn (some p) hash = In p hash

ParentIn-mono :
    (o : Option Text) (a b : List Text)
    → ((x : Text) → In x a → In x b)
    → ParentIn o a
    → ParentIn o b
ParentIn-mono none a b h k = tt
ParentIn-mono (some p) a b h k = h p k

module _ (insert : Insert) (commits : CommitStore) (inserts : Inserts insert)
    (own_id : (id : Text) (c : SeafCommit) → commits id ≡ some c → c.commit_id ≡ id) {S : Type 0}
    (func : SeafCommit → S → Called S) (Kept : S → Type 0) (Seen : S → SeafCommit → Type 0)
    (cut : SeafCommit → Bool)
    (calls : (c : SeafCommit) (s : S)
      → Kept s
      → (func c s).result ≡ true
      → Kept (func c s).data'
        × Seen (func c s).data' c
        × ((d : SeafCommit) → Seen s d → Seen (func c s).data' d)
        × ((func c s).stop ≡ true → cut c ≡ true)) where
  -- The function was called on the commit, which was cut off or has its parents among the ids.
  unfoldable pub IsDone : S → List Text → SeafCommit → Type 0
  IsDone s hash c =
      Seen s c × (cut c ≡ false → ParentIn c.parent_id hash × ParentIn c.second_parent_id hash)

  -- Each id belongs to a commit that is done or still in the list.
  pub record Invariant (s : S) (q : Queue) : Type 0 where
    pub kept : Kept s
    pub known :
        (id : Text)
        → In id q.hash
        → (c : SeafCommit) × (commits id ≡ some c) × (In c q.list ⊎ IsDone s q.hash c)

  -- What the insertion of parents does to the queue.
  record Larger (q q' : Queue) : Type 0 where
    ids_kept : (id : Text) → In id q.hash → In id q'.hash
    list_kept : (c : SeafCommit) → In c q.list → In c q'.list
    ids_new :
        (id : Text)
        → In id q'.hash
        → In id q.hash ⊎ ((c : SeafCommit) × (commits id ≡ some c) × In c q'.list)

  Larger-refl : (q : Queue) → Larger q q
  Larger-refl q = record { ids_kept = λ id h. h; list_kept = λ c h. h; ids_new = λ id h. inl h }

  Larger-trans : (a b c : Queue) → Larger a b → Larger b c → Larger a c
  Larger-trans a b c g h = record {
    ids_kept = λ id m. h.ids_kept id (g.ids_kept id m);
    list_kept = λ x m. h.list_kept x (g.list_kept x m);
    ids_new = λ id m. elim (h.ids_new id m) [
      | inl old ↦ elim (g.ids_new id old) [
        | inl older ↦ inl older
        | inr (x, found, l) ↦ inr (x, found, h.list_kept x l)
      ]
      | inr new ↦ inr new
    ];
  }

  push-Larger :
      (p : SeafCommit) (id : Text) (q : Queue)
      → commits id ≡ some p
      → Larger q (push insert commits p id q)
  push-Larger p id q found = record {
    ids_kept = λ x m. there m;
    list_kept = λ c m. inserts.old_in p c q.list m;
    ids_new = λ x m. split x m;
  }
    where
      split :
          (x : Text)
          → In x (id ∷ q.hash)
          → In x q.hash
            ⊎ ((c : SeafCommit) × (commits x ≡ some c)
                × In c (insert compare_commit_by_time p q.list))
      split x (here e) = inr (p, ap commits e ∙ found, inserts.new_in p q.list)
      split x (there m) = inl m

  insert_parent-Larger :
      (parent : Option Text) (q q' : Queue)
      → insert_parent insert commits false false parent q ≡ some q'
      → Larger q q' × ParentIn parent q'.hash
  unfolding insert_parent past_error insert_parent_commit
  insert_parent-Larger none q q' h = (subst (Larger q) (some_eq h) (Larger-refl q), tt)
    where
      some_eq : some q ≡ some q' → q ≡ q'
      some_eq e = cc
  insert_parent-Larger (some id) q q' h = elim (Bool-cases (member id q.hash)) [
    | inl seen ↦
        let same : q ≡ q' = ground arith in
        (
          subst (Larger q) same (Larger-refl q),
          subst (λ r. In id r.hash) same (member-In id q.hash seen),
        )
    | inr new ↦ elim (Option-cases (commits id)) [
      | inl missing ↦ absurd (ground arith)
      | inr (p, found) ↦
          let pushed : push insert commits p id q ≡ q' = pushed_eq new p found h in
          (
            subst (Larger q) pushed (push-Larger p id q found),
            subst (λ r. In id r.hash) pushed (here refl),
          )
    ]
  ]
    where
      pushed_eq :
          member id q.hash ≡ false
          → (p : SeafCommit) → commits id ≡ some p
          → insert_parent insert commits false false (some id) q ≡ some q'
          → push insert commits p id q ≡ q'
      pushed_eq new p found h = ground arith

  insert_parents-Larger :
      (c : SeafCommit) (q q' : Queue)
      → insert_parents insert commits false false c q ≡ some q'
      → Larger q q' × ParentIn c.parent_id q'.hash × ParentIn c.second_parent_id q'.hash
  unfolding insert_parents
  insert_parents-Larger c q q' h =
      elim (Option-cases (insert_parent insert commits false false c.parent_id q)) [
        | inl none₁ ↦ absurd (ground arith)
        | inr (q1, some₁) ↦
            let second : insert_parent insert commits false false c.second_parent_id q1 ≡ some q' =
              ground arith in
            let (g, p1) = insert_parent-Larger c.parent_id q q1 some₁ in
            let (k, p2) = insert_parent-Larger c.second_parent_id q1 q' second in
            (Larger-trans q q1 q' g k, ParentIn-mono c.parent_id q1.hash q'.hash k.ids_kept p1, p2)
      ]

  abbrev pub AllDone : S → List Text → Type 0
  AllDone s hash =
      (id : Text) → In id hash → (c : SeafCommit) × (commits id ≡ some c) × IsDone s hash c

  abbrev pub Final : List Text → Outcome (Unit {0}) × S → Type 0
  Final hash (ok a, s) =
      (seen : List Text) × ((id : Text) → In id hash → In id seen) × Kept s × AllDone s seen
  Final hash (failed, s) = Unit {0}
  Final hash (out_of_fuel, s) = Unit {0}

  Final-more :
      (small big : List Text) (r : Outcome (Unit {0}) × S)
      → ((id : Text) → In id small → In id big)
      → Final big r
      → Final small r
  Final-more small big (ok a, s) h (seen, more, k, d) = (seen, λ id m. more id (h id m), k, d)
  Final-more small big (failed, s) h f = tt
  Final-more small big (out_of_fuel, s) h f = tt

  IsDone-mono :
      (s s' : S) (a b : List Text) (c : SeafCommit)
      → ((d : SeafCommit) → Seen s d → Seen s' d)
      → ((id : Text) → In id a → In id b)
      → IsDone s a c
      → IsDone s' b c
  unfolding IsDone
  IsDone-mono s s' a b c seen more (h, k) = (
    seen c h,
    λ e. (
      ParentIn-mono c.parent_id a b more (k e).0,
      ParentIn-mono c.second_parent_id a b more (k e).1,
    ),
  )

  -- One round keeps the invariant: the popped commit is done.
  round-Invariant :
      (c : SeafCommit) (rest : List SeafCommit) (hash : List Text) (s s' : S) (q' : Queue)
      → Invariant s (record { list = c ∷ rest; hash = hash })
      → Kept s'
      → ((d : SeafCommit) → Seen s d → Seen s' d)
      → IsDone s' q'.hash c
      → Larger (record { list = rest; hash = hash }) q'
      → Invariant s' q'
  round-Invariant c rest hash s s' q' inv k seen done larger = record {
    kept = k;
    known = λ id m. elim (larger.ids_new id m) [
      | inl old ↦ place id (inv.known id old)
      | inr (d, found, l) ↦ (d, found, inl l)
    ];
  }
    where
      place :
          (id : Text)
          → (d : SeafCommit) × (commits id ≡ some d) × (In d (c ∷ rest) ⊎ IsDone s hash d)
          → (d : SeafCommit) × (commits id ≡ some d) × (In d q'.list ⊎ IsDone s' q'.hash d)
      place id (d, found, inl (here e)) = (d, found, inr (subst (IsDone s' q'.hash) (sym e) done))
      place id (d, found, inl (there l)) = (d, found, inl (larger.list_kept d l))
      place id (d, found, inr h) =
          (d, found, inr (IsDone-mono s s' hash q'.hash d seen larger.ids_kept h))

  module _ (again : Queue → Exec S Unit)
      (more : (q : Queue) (s : S) → Invariant s q → Final q.hash (again q s)) where
    after_func-Final :
        (c : SeafCommit) (rest : List SeafCommit) (hash : List Text) (s : S)
        → Invariant s (record { list = c ∷ rest; hash = hash })
        → Final hash (
            after_func insert commits false false func again c
              (record { list = rest; hash = hash })
              (func c s))
    unfolding after_func IsDone
    after_func-Final c rest hash s inv =
        by_result (Bool-cases (func c s).result) (Bool-cases (func c s).stop) (
          Option-cases
            (insert_parents insert commits false false c (record { list = rest; hash = hash })))
      where
        by_result :
            ((func c s).result ≡ true) ⊎ ((func c s).result ≡ false)
            → ((func c s).stop ≡ true) ⊎ ((func c s).stop ≡ false)
            → (insert_parents insert commits false false c (record { list = rest; hash = hash })
                ≡ none)
              ⊎ ((q : Queue) × (insert_parents insert commits false false c
                      (record { list = rest; hash = hash })
                    ≡ some q))
            → Final hash (
                after_func insert commits false false func again c
                  (record { list = rest; hash = hash })
                  (func c s))
        by_result (inr bad) stop parents = rw bad tt
        by_result (inl good) (inl stop) parents =
            let (k, seen, old, cuts) = calls c s inv.kept good in
            let done : IsDone (func c s).data' hash c = (seen, λ e. absurd (cc (cuts stop, e))) in
            rw (good, stop)
              (more (record { list = rest; hash = hash }) _
                (round-Invariant c rest hash s _ _ inv k old done (Larger-refl _)))
        by_result (inl good) (inr go) (inl missing) = rw (good, go, missing) tt
        by_result (inl good) (inr go) (inr (q', found)) =
            let (k, seen, old, cuts) = calls c s inv.kept good in
            let (larger, p1, p2) =
              insert_parents-Larger c (record { list = rest; hash = hash }) q' found in
            rw (good, go, found)
              (Final-more hash q'.hash _ larger.ids_kept (
                more q' _
                  (round-Invariant c rest hash s _ q' inv k old (seen, λ e. (p1, p2)) larger)))

    traverse_round-Final :
        (list : List SeafCommit) (hash : List Text) (s : S)
        → Invariant s (record { list = list; hash = hash })
        → Final hash (traverse_round insert commits false false func again list hash s)
    unfolding traverse_round
    traverse_round-Final [] hash s inv =
        (hash, λ id m. m, inv.kept, λ id m. done_of (inv.known id m))
      where
        done_of :
            {id : Text}
            → (c : SeafCommit) × (commits id ≡ some c) × (In c [] ⊎ IsDone s hash c)
            → (c : SeafCommit) × (commits id ≡ some c) × IsDone s hash c
        done_of (c, found, inl l) = elim l [ ]
        done_of (c, found, inr h) = (c, found, h)
    traverse_round-Final (c ∷ rest) hash s inv = after_func-Final c rest hash s inv

  pub traverse_loop-Final :
      (rounds : ℕ) (q : Queue) (s : S)
      → Invariant s q
      → Final q.hash (traverse_loop insert commits false false func rounds q s)
  unfolding traverse_loop
  traverse_loop-Final zero q s inv = tt
  traverse_loop-Final (suc rounds) q s inv =
      traverse_round-Final (traverse_loop insert commits false false func rounds)
        (traverse_loop-Final rounds) q.list q.hash s inv
