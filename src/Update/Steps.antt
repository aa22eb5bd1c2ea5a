-- ===== src/Update/Steps.antt =====
-- common/branch-mgr.c and common/commit-mgr.c: what updating the branch and adding a commit do.
use seafile_server_learn.Prelude.{
  ◌≡◌, ◌≢◌, refl, Bool, none, some, if◌then◌else◌, Bool-cases, inl, inr,
}
use seafile_server_learn.Prelude.Text.{Text, str_eq, str_eq_iff, str_eq_refl}
use seafile_server_learn.Prelude.Exec.{Outcome, ok, failed, out_of_fuel}
use seafile_server_learn.Commit.Object.{SeafCommit}
use seafile_server_learn.Update.Server.{
  Server, Transaction, add_commit, selected, set_row, test_and_update_branch,
}

-- A branch that was updated named the old commit before; a refusal changes nothing.
abbrev pub Compared : Text → Text → Server → Outcome (Unit {0}) × Server → Type 0
Compared new old s (ok a, s') =
    (old ≡ selected s.branch) × (s' ≡ record s { branch = set_row new s.branch })
Compared new old s (failed, s') = s' ≡ s
Compared new old s (out_of_fuel, s') = ⊥

pub test_and_update_branch-Compared :
    (trans : Transaction) (new old : Text) (s : Server)
    → Compared new old s (test_and_update_branch trans new old s)
unfolding test_and_update_branch
test_and_update_branch-Compared trans new old s = elim (Bool-cases trans.begins) [
  | inr none' ↦ rw (none', test_and_update_branch) refl
  | inl begins ↦ elim (Bool-cases trans.selects) [
    | inr none' ↦ rw (begins, none', test_and_update_branch) refl
    | inl selects ↦ elim (Bool-cases (str_eq old (selected s.branch))) [
      | inr moved ↦ rw (begins, selects, moved, test_and_update_branch) refl
      | inl same ↦ elim (Bool-cases trans.updates) [
        | inr none' ↦ rw (begins, selects, same, none', test_and_update_branch) refl
        | inl updates ↦ elim (Bool-cases trans.commits) [
          | inr none' ↦ rw (begins, selects, same, updates, none', test_and_update_branch) refl
          | inl commits ↦
              rw (begins, selects, same, updates, commits, test_and_update_branch)
                ((str_eq_iff old (selected s.branch)).0 same, refl)
        ]
      ]
    ]
  ]
]

abbrev pub added : SeafCommit → Server → Server
added c s = record s { commits = λ id. if str_eq c.commit_id id then some c else s.commits id }

abbrev pub Added : SeafCommit → Server → Outcome (Unit {0}) × Server → Type 0
Added c s (ok a, s') = s' ≡ added c s
Added c s (failed, s') = s' ≡ s
Added c s (out_of_fuel, s') = ⊥

pub add_commit-Added :
    (writable : Text → Bool) (c : SeafCommit) (s : Server)
    → s.commits c.commit_id ≡ none
    → Added c s (add_commit writable c s)
unfolding add_commit
add_commit-Added writable c s free = elim (Bool-cases (writable c.commit_id)) [
  | inl accepted ↦ rw (free, accepted, add_commit) refl
  | inr refused ↦ rw (free, refused, add_commit) refl
]

pub added_at : (c : SeafCommit) (s : Server) → (added c s).commits c.commit_id ≡ some c
added_at c s = rw (str_eq_refl c.commit_id) refl

-- Another id is as it was.
pub added_ne :
    (c : SeafCommit) (s : Server) (id : Text)
    → c.commit_id ≢ id
    → (added c s).commits id ≡ s.commits id
added_ne c s id ne = elim (Bool-cases (str_eq c.commit_id id)) [
  | inl same ↦ absurd (ne ((str_eq_iff c.commit_id id).0 same))
  | inr other ↦ rw other refl
]
