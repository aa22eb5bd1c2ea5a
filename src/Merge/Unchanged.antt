-- ===== src/Merge/Unchanged.antt =====
-- Three-way merge of whole directories where one side did not change, or both made one change.
use mathlib.Core.List.{reverse_aux}
use seafile_server_learn.Prelude.{
  ℕ, suc, ◌+◌, ◌≡◌, refl, sym, ap, ◌∙◌, true, Option, none, some, List, [], reverse, arith, All,
  length, if_true,
}
use seafile_server_learn.Prelude.Text.{Text, str_eq_refl}
use seafile_server_learn.Prelude.Exec.{Exec, ok}
use seafile_server_learn.Fs.Object.{SeafDirent, SeafDir}
use seafile_server_learn.Fs.Store.{dir_version_from_repo_version, seaf_dir_new}
use seafile_server_learn.Merge.Options.{Slots, State, Env}
use seafile_server_learn.Merge.Trees.{
  Ptrs, first_name, dents_at, advance, next_dent, next_ptr, save_merged, merge_loop,
  merge_trees_recursive,
}
use seafile_server_learn.Merge.Loop.{RoundKeeps, merge_loop_rule}
use seafile_server_learn.Merge.Rounds.{IsEntry, prepend, round-remote_unchanged, round-same_change}
use seafile_server_learn.Merge.Sorting.{
  Sorts, IsDescending, sort-reverse, l1_done, next-SlotIsEntry, next_ptr-All, reverse_aux-next,
}

module _ {D : Type 0} (env : Env D) (version : ℕ)
    (recur : Slots SeafDir → Text → Exec (State D) Unit) (basedir : Text) (s : State D)
    (real : s.opt.do_merge ≡ true) (target : List SeafDirent) where
  -- What is left of head, in front of what is collected, makes up the target.
  record Copies (p : Ptrs) (out : List SeafDirent) (t : State D) : Type 0 where
    rest : reverse_aux p.l1 out ≡ target
    valid : All IsEntry p.l1
    state : t ≡ s

  real_at :
      {p : Ptrs} {out : List SeafDirent} {t : State D} → Copies p out t → t.opt.do_merge ≡ true
  real_at c = rw c.state real

  next-Copies :
      {p : Ptrs} {out : List SeafDirent} {t : State D} (first : Text)
      → Copies p out t
      → Copies (advance first p) (prepend (next_dent first p.l1) out) t
  unfolding advance
  next-Copies {p} {out} first c = record {
    rest = reverse_aux-next first p.l1 out ∙ c.rest;
    valid = next_ptr-All first p.l1 c.valid;
    state = c.state;
  }

  RemoteAsBase : Ptrs → List SeafDirent → State D → Type 0
  RemoteAsBase p out t = Copies p out t × (p.l2 ≡ p.l0)

  keep-RemoteAsBase : RoundKeeps env version 3 recur basedir RemoteAsBase
  unfolding RemoteAsBase dents_at advance
  keep-RemoteAsBase p first out t e (c, same) = (
    prepend (next_dent first p.l1) out,
    t,
    rw same (
        round-remote_unchanged env version recur basedir out t (real_at c) (next_dent first p.l0)
          (next_dent first p.l1) (next-SlotIsEntry first p.l1 c.valid)),
    (next-Copies first c, ap (next_ptr first) same),
  )

  RemoteAsHead : Ptrs → List SeafDirent → State D → Type 0
  RemoteAsHead p out t = Copies p out t × (p.l2 ≡ p.l1)

  keep-RemoteAsHead : RoundKeeps env version 3 recur basedir RemoteAsHead
  unfolding RemoteAsHead dents_at advance
  keep-RemoteAsHead p first out t e (c, same) = (
    prepend (next_dent first p.l1) out,
    t,
    rw same (
        round-same_change env version recur basedir out t (real_at c) (next_dent first p.l0)
          (next_dent first p.l1) (next-SlotIsEntry first p.l1 c.valid)),
    (next-Copies first c, ap (next_ptr first) same),
  )

  -- At the end of the loop the target has been collected.
  collected :
      {p : Ptrs} {out : List SeafDirent} {t : State D}
      → Copies p out t
      → first_name p ≡ none
      → (out ≡ target) × (t ≡ s)
  collected {p} {out} c e = (ap (λ l. reverse_aux l out) (sym (l1_done p e).0) ∙ c.rest, c.state)

-- The level of base, head and remote at the start of the loop.
abbrev level : List SeafDirent → List SeafDirent → List SeafDirent → Ptrs
level b h r = record { l0 = b; l1 = h; l2 = r }

module _ {D : Type 0} (env : Env D) (version : ℕ)
    (recur : Slots SeafDir → Text → Exec (State D) Unit) (basedir : Text) (s : State D)
    (real : s.opt.do_merge ≡ true) (b h r : List SeafDirent) (valid : All IsEntry h) where
  loop-remote_unchanged :
      r ≡ b
      → merge_loop env version 3 recur basedir (length b + length h + length r) (level b h r) [] s
        ≡ (ok (reverse h), s)
  unfolding RemoteAsBase
  loop-remote_unchanged same =
      let (p, out, t, ends, e, (c, _)) =
        merge_loop_rule env version 3 recur basedir
          (RemoteAsBase env version recur basedir s real (reverse h))
          (keep-RemoteAsBase env version recur basedir s real (reverse h)) _ (level b h r) [] s
          (omega arith) (record { rest = refl; valid = valid; state = refl }, same) in
      let (e₁, e₂) = collected env version recur basedir s real (reverse h) c e in
      ends ∙ cc (e₁, e₂)

  loop-same_change :
      r ≡ h
      → merge_loop env version 3 recur basedir (length b + length h + length r) (level b h r) [] s
        ≡ (ok (reverse h), s)
  unfolding RemoteAsHead
  loop-same_change same =
      let (p, out, t, ends, e, (c, _)) =
        merge_loop_rule env version 3 recur basedir
          (RemoteAsHead env version recur basedir s real (reverse h))
          (keep-RemoteAsHead env version recur basedir s real (reverse h)) _ (level b h r) [] s
          (omega arith) (record { rest = refl; valid = valid; state = refl }, same) in
      let (e₁, e₂) = collected env version recur basedir s real (reverse h) c e in
      ends ∙ cc (e₁, e₂)

-- A directory as the store keeps it: entries in descending order, each a file or a directory, under
-- the id that `seaf_dir_new` computes for them.
pub record IsStored (digest : ℕ → List SeafDirent → Text) (version : ℕ) (dir : SeafDir)
    : Type 0 where
  pub descending : IsDescending dir.entries
  pub valid : All IsEntry dir.entries
  pub content_id :
      (seaf_dir_new digest dir.entries (dir_version_from_repo_version version)).dir_id ≡ dir.dir_id

-- The state with head's id as the id of the result, and nothing else changed.
abbrev pub result_is : {D : Type 0} → Text → State D → State D
result_is id s = record s { opt = record s.opt { merged_tree_root = id } }

module _ {D : Type 0} (env : Env D) (version : ℕ) (sorts : Sorts env.g_list_sort) where
  save_merged-head :
      (base remote : Option SeafDir) (head : SeafDir) (s : State D)
      → IsStored env.digest version head
      → save_merged env version 3
          (record { at0 = base; at1 = some head; at2 = remote })
          (reverse head.entries)
          s
        ≡ (ok tt, result_is head.dir_id s)
  unfolding save_merged
  save_merged-head base remote head s w =
      simp (sort-reverse sorts head.entries w.descending, w.content_id, str_eq_refl)

  -- Three-way merge where the remote entries are those of base: the result is head. The merge
  -- returns 0 at every depth of fuel, its id is head's id, nothing is saved and no conflict is
  -- recorded.

  -- Three-way merge where the remote entries are those of base: the result is head. Head is stored
  -- the way the library writes directories: its entries strictly descend by name and are files and
  -- directories only, and its id is the digest of its entries. The merge returns 0 at every depth of
  -- fuel, its id is head's id, nothing is saved and no conflict is recorded. g_list_sort is assumed
  -- to sort.
  pub merge-remote_unchanged :
      (fuel : ℕ) (base head remote : SeafDir) (basedir : Text) (s : State D)
      → s.opt.do_merge ≡ true
      → remote.entries ≡ base.entries
      → IsStored env.digest version head
      → merge_trees_recursive env version 3
          (suc fuel)
          (record { at0 = some base; at1 = some head; at2 = some remote })
          basedir
          s
        ≡ (ok tt, result_is head.dir_id s)
  unfolding merge_trees_recursive
  merge-remote_unchanged fuel base head remote basedir s real same w =
      rw
        (loop-remote_unchanged env version (merge_trees_recursive env version 3 fuel) basedir s real
          base.entries head.entries remote.entries w.valid same)
        (if_true _ _ real ∙ save_merged-head (some base) (some remote) head s w)

  -- Three-way merge where head and remote have the same entries: the result is head, whatever base
  -- was. The merge returns 0, nothing is saved and no conflict is recorded.

  -- Three-way merge where head and remote have the same entries: the result is head, whatever base
  -- was. Head is stored the way the library writes directories: its entries strictly descend by name
  -- and are files and directories only, and its id is the digest of its entries. The merge returns
  -- 0, nothing is saved and no conflict is recorded. g_list_sort is assumed to sort.
  pub merge-same_change :
      (fuel : ℕ) (base head remote : SeafDir) (basedir : Text) (s : State D)
      → s.opt.do_merge ≡ true
      → remote.entries ≡ head.entries
      → IsStored env.digest version head
      → merge_trees_recursive env version 3
          (suc fuel)
          (record { at0 = some base; at1 = some head; at2 = some remote })
          basedir
          s
        ≡ (ok tt, result_is head.dir_id s)
  unfolding merge_trees_recursive
  merge-same_change fuel base head remote basedir s real same w =
      rw
        (loop-same_change env version (merge_trees_recursive env version 3 fuel) basedir s real
          base.entries head.entries remote.entries w.valid same)
        (if_true _ _ real ∙ save_merged-head (some base) (some remote) head s w)
