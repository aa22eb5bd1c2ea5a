-- ===== src/Update/Sound.antt =====
-- server/repo-op.c: what gen_new_commit relies on while others change the server, and what it leaves.
use seafile_server_learn.Prelude.{
  ℕ, ◌≡◌, ◌≢◌, sym, ap, ◌∙◌, true, false, none, some, [], if◌then◌else◌, arith, Bool-cases, inl,
  inr, ◌⊎◌,
}
use seafile_server_learn.Prelude.Text.{Text, str_eq, str_eq_iff}
use seafile_server_learn.Prelude.Exec.{Outcome, ok, failed, out_of_fuel}
use seafile_server_learn.Commit.Object.{SeafCommit}
use seafile_server_learn.Update.Server.{Server}
use seafile_server_learn.Update.NewCommit.{Env}
use seafile_server_learn.Update.Steps.{added, added_ne}

module _ (env : Env) (user : Text) where
  -- Commits stand under their ids, which are not empty.
  pub record Sound (s : Server) : Type 0 where
    pub no_empty : s.commits [] ≡ none
    pub own_id : (id : Text) (c : SeafCommit) → s.commits id ≡ some c → c.commit_id ≡ id

  -- What others may do: they keep the commits, and store new ones under their ids.
  pub record Others : Type 0 where
    pub meanwhile_keeps :
        (n : ℕ) (s : Server) (id : Text) (c : SeafCommit)
        → s.commits id ≡ some c
        → (env.meanwhile n s).commits id ≡ some c
    pub pause_keeps :
        (n : ℕ) (s : Server) (id : Text) (c : SeafCommit)
        → s.commits id ≡ some c
        → (env.pause n s).commits id ≡ some c
    pub meanwhile_sound : (n : ℕ) (s : Server) → Sound s → Sound (env.meanwhile n s)
    pub pause_sound : (n : ℕ) (s : Server) → Sound s → Sound (env.pause n s)

  -- The parents of the new head: it is the new commit itself if the base was the head, or else their merge.
  abbrev pub Follows : SeafCommit → SeafCommit → SeafCommit → SeafCommit → Type 0
  Follows base new_commit head merged =
      ((base.commit_id ≡ head.commit_id) × (merged ≡ new_commit))
      ⊎ ((merged.parent_id ≡ some head.commit_id)
          × (merged.second_parent_id ≡ some new_commit.commit_id))

  -- The branch went from one commit to the next in one step from `before`.
  pub record Moved (base new_commit : SeafCommit) (id : Text) (s' : Server) : Type 0 where
    pub before : Server
    pub head : SeafCommit
    pub merged : SeafCommit
    pub was_head : before.branch ≡ some head.commit_id
    pub is_head : s'.branch ≡ some id
    pub old_stored : s'.commits head.commit_id ≡ some head
    pub new_stored : s'.commits new_commit.commit_id ≡ some new_commit
    pub merged_stored : s'.commits id ≡ some merged
    pub follows : Follows base new_commit head merged

  abbrev pub Result : SeafCommit → SeafCommit → Outcome Text × Server → Type 0
  Result base new_commit (ok id, s') = Moved base new_commit id s'
  Result base new_commit (failed, s') = Unit {0}
  Result base new_commit (out_of_fuel, s') = Unit {0}

  module _ (others : Others) where
    pub Sound-added : (c : SeafCommit) (s : Server) → c.commit_id ≢ [] → Sound s → Sound (added c s)
    Sound-added c s not_empty sound = record {
      no_empty = added_ne c s [] not_empty ∙ sound.no_empty;
      own_id = λ id d h. named id d h (Bool-cases (str_eq c.commit_id id));
    }
      where
        named :
            (id : Text) (d : SeafCommit)
            → (if str_eq c.commit_id id then some c else s.commits id) ≡ some d
            → ((str_eq c.commit_id id ≡ true) ⊎ (str_eq c.commit_id id ≡ false))
            → d.commit_id ≡ id
        named id d h (inl e) =
            let same : c ≡ d = ground arith in
            ap (λ c. c.commit_id) (sym same) ∙ (str_eq_iff c.commit_id id).0 e
        named id d h (inr ne) = sound.own_id id d (ground arith)

    -- What was stored stays when a commit with a free id is written.
    pub kept_added :
        (c : SeafCommit) (s : Server) (id : Text) (d : SeafCommit)
        → s.commits c.commit_id ≡ none
        → s.commits id ≡ some d
        → (added c s).commits id ≡ some d
    kept_added c s id d free h =
        added_ne c s id (λ same. cc (ap (λ i. s.commits i) same, free, h)) ∙ h
