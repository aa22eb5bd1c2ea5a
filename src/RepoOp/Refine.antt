-- ===== src/RepoOp/Refine.antt =====
-- server/repo-op.c: `edit_dir` as a change to one directory of the tree that the root stands for.
use mathlib.Core.Path.{subst}
use seafile_server_learn.Prelude.{
  ℕ, ◌==◌, ◌≡◌, ◌≢◌, sym, ap, ◌∙◌, Bool, true, false, some, List, [], ◌∷◌, Option-cases, Bool-cases,
  inl, inr, ◌⊎◌,
}
use seafile_server_learn.Prelude.Text.{Text}
use seafile_server_learn.Prelude.Exec.{Outcome, ok, failed, out_of_fuel, Exec, resume}
use seafile_server_learn.Fs.Object.{SeafDirent, SeafDir}
use seafile_server_learn.Fs.Store.{FsStore, get_seafdir}
use seafile_server_learn.Fs.Extends.{Extends, Extends-refl, Extends-trans}
use seafile_server_learn.Fs.Lookup.{
  find_dent, entry_in, entry_at, dir_at, entry_in_lem, entry_at-cons, entry_at-some, dir_at-cons,
  entry_at-Extends, dir_at-Extends,
}
use seafile_server_learn.Fs.Addressed.{IsDigest, IsAddressed, Saved, get_seafdir-dir_id}
use seafile_server_learn.RepoOp.Edit.{
  Env, set_id, save_entries, update_dent, rewrite_above, descend, with_dir, edit_dir,
}
use seafile_server_learn.Fs.Sorted.{get_seafdir_sorted_plain}
use seafile_server_learn.RepoOp.Saved.{
  find_dent-set_id, find_dent-set_id_ne, update_dent-name, update_dent-id, SavedEntries,
  save_entries-Saved,
}

-- The path `m, ks` leaves the path `ns` at some name; below the end of `ns` it starts with a name
-- that satisfies `Other`.
pub data Apart (Other : Text → Type 0) : List Text → Text → List Text → Type 0 where
  below : {m : Text} {ks : List Text} → Other m → Apart Other [] m ks
  turn : {n m : Text} {ns ks : List Text} → m ≢ n → Apart Other (n ∷ ns) m ks
  along : {n k : Text} {ns ks : List Text} → Apart Other ns k ks → Apart Other (n ∷ ns) n (k ∷ ks)

module _ (env : Env) (version : ℕ) (good : IsDigest env.digest)
    (positive : (version == 0) ≡ false) where
  module _ {A : Type 0} (changed : A → Bool) (Other : Text → Type 0)
      (New : List SeafDirent → List SeafDirent → A → Type 0) where
    -- The directory at the end of the path, before and after, and every entry off the path as before.
    pub record Changed (s s' : FsStore) (id id' : Text) (names : List Text) (a : A) : Type 0 where
      pub old_dir : SeafDir
      pub new_dir : SeafDir
      pub was_there : dir_at s version id names ≡ some old_dir
      pub is_there : dir_at s' version id' names ≡ some new_dir
      pub unchanged : changed a ≡ false → id' ≡ id
      pub is_new : New old_dir.entries new_dir.entries a
      pub others :
          (m : Text) (ks : List Text) (d : SeafDirent)
          → Apart Other names m ks
          → entry_at s version id m ks ≡ some d
          → entry_at s' version id' m ks ≡ some d

    abbrev pub Edits : FsStore → Text → List Text → Outcome (Text × A) × FsStore → Type 0
    Edits s id names (ok (id', a), s') =
        IsAddressed env.digest s' × Extends version s s' × Changed s s' id id' names a
    Edits s id names (failed, s') = IsAddressed env.digest s' × Extends version s s'
    Edits s id names (out_of_fuel, s') = ⊥

    -- How an entry of the directory that was read is found again in the one that was saved.
    module _ (s s2 : FsStore) (id new n : Text) (dir : SeafDir)
        (read : get_seafdir s version id ≡ some dir) (update : SeafDirent → SeafDirent)
        (keeps : (d : SeafDirent) → (update d).name ≡ d.name)
        (saved : Saved env.digest good s2 version new (set_id n update dir.entries))
        (ext : Extends version s s2) where
      in_new : (m : Text) → entry_in s2 version new m ≡ find_dent m (set_id n update dir.entries)
      in_new m =
          entry_in_lem s2 version new m saved.dir saved.readable
          ∙ ap (find_dent m) saved.same_entries

      turned_here :
          (m : Text) (x : SeafDirent)
          → m ≢ n
          → entry_in s version id m ≡ some x
          → entry_in s2 version new m ≡ some x
      turned_here m x ne h =
          in_new m
          ∙ find_dent-set_id_ne n m update dir.entries keeps ne
          ∙ sym (entry_in_lem s version id m dir read)
          ∙ h

      turned :
          (m : Text) (ks : List Text) (x : SeafDirent)
          → m ≢ n
          → entry_at s version id m ks ≡ some x
          → entry_at s2 version new m ks ≡ some x
      unfolding entry_at
      turned m [] x ne h = turned_here m x ne h
      turned m (k ∷ ks) x ne h =
          let (d, first, rest) = entry_at-some s version id m k ks x h in
          entry_at-cons s2 version new m k ks d (turned_here m d ne first)
          ∙ entry_at-Extends version s s2 d.id k ks x ext rest

      updated :
          (d : SeafDirent)
          → find_dent n dir.entries ≡ some d
          → entry_in s2 version new n ≡ some (update d)
      updated d found = in_new n ∙ find_dent-set_id n update dir.entries d keeps found

    -- One level up, from what the level below returned.
    above :
        (sets_time : Bool) (leaf : SeafDir → Exec FsStore (Text × A)) (s s1 : FsStore) (id n : Text)
        (ns : List Text) (dir : SeafDir) (d : SeafDirent) (id' : Text) (a : A)
        → IsAddressed env.digest s
        → get_seafdir s version id ≡ some dir
        → find_dent n dir.entries ≡ some d
        → IsAddressed env.digest s1
        → Extends version s s1
        → Changed s s1 d.id id' ns a
        → Edits s id
            (n ∷ ns)
            (rewrite_above env version sets_time changed leaf n ns dir (id', a) s1)
    unfolding rewrite_above dir_at
    above sets_time leaf s s1 id n ns dir d id' a addressed read found addressed₁ ext ch =
        by_change (Bool-cases (changed a)) (
          save_entries-Saved env version good positive s1
            (set_id n (update_dent env version sets_time ns id') dir.entries) addressed₁)
      where
        in_old : entry_in s version id n ≡ some d
        in_old = entry_in_lem s version id n dir read ∙ found

        was : dir_at s version id (n ∷ ns) ≡ some ch.old_dir
        was = dir_at-cons s version id n ns d in_old ∙ ch.was_there

        along_path :
            (s2 : FsStore) (new : Text) (e : SeafDirent)
            → entry_in s2 version new n ≡ some e
            → e.id ≡ id'
            → Extends version s1 s2
            → (k : Text) (ks : List Text) (x : SeafDirent) → Apart Other ns k ks
            → entry_at s version id n (k ∷ ks) ≡ some x
            → entry_at s2 version new n (k ∷ ks) ≡ some x
        along_path s2 new e first at_id ext₂ k ks x apart h =
            let (d', first', rest) = entry_at-some s version id n k ks x h in
            let same : d' ≡ d = cc (first', in_old) in
            let kept =
              ch.others k ks x apart
                (subst (λ d. entry_at s version d.id k ks ≡ some x) same rest) in
            entry_at-cons s2 version new n k ks e first
            ∙ subst (λ i. entry_at s2 version i k ks ≡ some x) (sym at_id)
                (entry_at-Extends version s1 s2 id' k ks x ext₂ kept)

        others_of :
            (s2 : FsStore) (new : Text)
            → Saved env.digest good s2 version new
                (set_id n (update_dent env version sets_time ns id') dir.entries)
            → Extends version s1 s2
            → (m : Text) (ks : List Text) (x : SeafDirent) → Apart Other (n ∷ ns) m ks
            → entry_at s version id m ks ≡ some x
            → entry_at s2 version new m ks ≡ some x
        others_of s2 new saved ext₂ m ks x (turn ne) h =
            turned s s2 id new n dir read (update_dent env version sets_time ns id')
              (update_dent-name env version good positive sets_time ns id') saved
              (Extends-trans ext ext₂) m ks x ne h
        others_of s2 new saved ext₂ m (k ∷ ks) x (along apart) h =
            along_path s2 new (update_dent env version sets_time ns id' d)
              (updated s s2 id new n dir read (update_dent env version sets_time ns id')
                (update_dent-name env version good positive sets_time ns id') saved
                (Extends-trans ext ext₂) d found)
              (update_dent-id env version good positive sets_time ns id' d) ext₂ k ks x apart h

        after_save :
            changed a ≡ true
            → (r : Outcome Text × FsStore)
            → SavedEntries env version good positive s1
                (set_id n (update_dent env version sets_time ns id') dir.entries)
                r
            → Edits s id (n ∷ ns) (resume (λ new s. (ok (new, a), s)) r.0 r.1)
        after_save yes' (failed, s2) (addressed₂, ext₂) = (addressed₂, Extends-trans ext ext₂)
        after_save yes' (out_of_fuel, s2) h = h
        after_save yes' (ok new, s2) (saved, ext₂) =
            let first =
              updated s s2 id new n dir read (update_dent env version sets_time ns id')
                (update_dent-name env version good positive sets_time ns id') saved
                (Extends-trans ext ext₂) d found in
            let same_id = update_dent-id env version good positive sets_time ns id' d in
            (
              saved.addressed,
              Extends-trans ext ext₂,
              record {
                old_dir = ch.old_dir;
                new_dir = ch.new_dir;
                was_there = was;
                is_there =
                    dir_at-cons s2 version new n ns (update_dent env version sets_time ns id' d)
                      first
                    ∙ subst (λ i. dir_at s2 version i ns ≡ some ch.new_dir) (sym same_id)
                        (dir_at-Extends version s1 s2 id' ns ch.new_dir ext₂ ch.is_there);
                unchanged = λ e. absurd (cc (e, yes'));
                is_new = ch.is_new;
                others = λ m ks x apart h. others_of s2 new saved ext₂ m ks x apart h;
              },
            )

        by_change :
            ((changed a ≡ true) ⊎ (changed a ≡ false))
            → SavedEntries env version good positive s1
                (set_id n (update_dent env version sets_time ns id') dir.entries)
                (save_entries env version
                  (set_id n (update_dent env version sets_time ns id') dir.entries)
                  s1)
            → Edits s id
                (n ∷ ns)
                (rewrite_above env version sets_time changed leaf n ns dir (id', a) s1)
        by_change (inl yes') saved = rw (yes', rewrite_above) (after_save yes' _ saved)
        by_change (inr same) saved =
            let own = get_seafdir-dir_id env.digest good s version id dir addressed read in
            let at_id : id' ≡ d.id = ch.unchanged same in
            rw (same, rewrite_above)
              (
                addressed₁,
                ext,
                record {
                  old_dir = ch.old_dir;
                  new_dir = ch.new_dir;
                  was_there = was;
                  is_there =
                      subst (λ i. dir_at s1 version i (n ∷ ns) ≡ some ch.new_dir) (sym own)
                        (dir_at-cons s1 version id n ns d
                            (entry_in_lem s1 version id n dir (ext.at_id id dir read) ∙ found)
                          ∙ subst (λ i. dir_at s1 version i ns ≡ some ch.new_dir) at_id
                              ch.is_there);
                  unchanged = λ e. own;
                  is_new = ch.is_new;
                  others = λ m ks x apart h.
                      subst (λ i. entry_at s1 version i m ks ≡ some x) (sym own)
                        (entry_at-Extends version s s1 id m ks x ext h);
                },
              )

    module _ (sets_time : Bool) (leaf : SeafDir → Exec FsStore (Text × A))
        (leaf_edits : (dir : SeafDir) (id : Text) (s : FsStore)
          → IsAddressed env.digest s
          → get_seafdir s version id ≡ some dir
          → Edits s id [] (leaf dir s)) where
      with_dir-Edits :
          (id : Text) (names : List Text) (k : SeafDir → Exec FsStore (Text × A)) (s : FsStore)
          → IsAddressed env.digest s
          → ((dir : SeafDir) → get_seafdir s version id ≡ some dir → Edits s id names (k dir s))
          → Edits s id names (with_dir env version sets_time changed leaf id k s)
      unfolding with_dir
      with_dir-Edits id names k s a h = elim (Option-cases (get_seafdir s version id)) [
        | inl missing ↦
            let none' = get_seafdir_sorted_plain env.g_list_sort version positive s id ∙ missing in
            rw (none', with_dir) (a, Extends-refl version s)
        | inr (dir, found) ↦
            let some' = get_seafdir_sorted_plain env.g_list_sort version positive s id ∙ found in
            rw (some', with_dir) (h dir found)
      ]

      below_call :
          (s : FsStore) (id n : Text) (ns : List Text) (dir : SeafDir) (d : SeafDirent)
          (r : Outcome (Text × A) × FsStore)
          → IsAddressed env.digest s
          → get_seafdir s version id ≡ some dir
          → find_dent n dir.entries ≡ some d
          → Edits s d.id ns r
          → Edits s id
              (n ∷ ns)
              (resume (rewrite_above env version sets_time changed leaf n ns dir) r.0 r.1)
      below_call s id n ns dir d (ok (id', a), s1) addressed read found (addressed₁, ext, ch) =
          above sets_time leaf s s1 id n ns dir d id' a addressed read found addressed₁ ext ch
      below_call s id n ns dir d (failed, s1) addressed read found h = h
      below_call s id n ns dir d (out_of_fuel, s1) addressed read found h = h

      pub edit_dir-Edits :
          (names : List Text) (id : Text) (s : FsStore)
          → IsAddressed env.digest s
          → Edits s id names (edit_dir env version sets_time changed leaf names id s)
      unfolding edit_dir descend
      edit_dir-Edits [] id s a =
          with_dir-Edits id [] leaf s a (λ dir read. leaf_edits dir id s a read)
      edit_dir-Edits (n ∷ ns) id s a =
          with_dir-Edits id (n ∷ ns)
            (descend env version sets_time changed leaf
              (edit_dir env version sets_time changed leaf ns) n ns)
            s a
            λ dir read. elim (Option-cases (find_dent n dir.entries)) [
              | inl missing ↦ rw (missing, descend) (a, Extends-refl version s)
              | inr (d, found) ↦
                  let r = edit_dir env version sets_time changed leaf ns d.id s in
                  let done =
                    below_call s id n ns dir d r a read found (edit_dir-Edits ns d.id s a) in
                  rw (found, descend) done
            ]
