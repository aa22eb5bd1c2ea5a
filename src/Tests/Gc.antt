-- ===== src/Tests/Gc.antt =====
-- Garbage collection, Bloom filters and traversals on small inputs: one repository with one commit
-- whose directory holds one file of one block.
use mathlib.Core.Path.{subst}
use seafile_server_learn.Prelude.{
  ℕ, zero, suc, ◌+◌, ◌≡◌, ◌≢◌, refl, sym, ap, ◌∙◌, Bool, true, false, none, some, List, [], ◌∷◌, In,
  here, there, if◌then◌else◌, length, arith, All, ◌*◌, Bool-cases, inl, inr,
}
use seafile_server_learn.Prelude.Text.{Text, codes, strcmp, str_eq, str_eq_iff}
use seafile_server_learn.Prelude.Int.{ℤ, pos, negsuc}
use seafile_server_learn.Prelude.Exec.{out_of_fuel}
use seafile_server_learn.Bloom.Filter.{Bloom, bloom_create, char_count, bloom_test}
use seafile_server_learn.Bloom.Members.{add_all, no_false_negatives}
use seafile_server_learn.Fs.Object.{SeafDirent, SeafDir, Seafile, s_isreg, s_isdir, is_dir}
use seafile_server_learn.Fs.Store.{FsStore, get_seafdir, get_seafile, empty_sha1}
use seafile_server_learn.Fs.Traverse.{Callback, traverse_tree}
use seafile_server_learn.Fs.Traverse.Ends.{traverse_tree_ends, IsBounded}
use seafile_server_learn.Commit.Object.{SeafCommit, CommitStore}
use seafile_server_learn.Commit.Traverse.{
  Insert, compare_commit_by_time, traverse_commit_tree_common,
}
use seafile_server_learn.Commit.Traverse.Ends.{Inserts, traverse_commit_tree_ends}
use seafile_server_learn.Commit.Traverse.Reached.{at_head}
use seafile_server_learn.Gc.Live.{IsTyped}
use seafile_server_learn.Gc.Blocks.{root_dir}
use seafile_server_learn.Gc.Run.{SeafRepo, Env, World, gc_v1_repo, delete_garbaged_repos}
use seafile_server_learn.Gc.Safety.{LiveIn, IsSane}
use seafile_server_learn.Gc.Kept.{gc_v1_repo-keeps_live}
use seafile_server_learn.Gc.DryRun.{gc_v1_repo-dry_run}
use seafile_server_learn.Commit.Traverse.Order.{compare_commit_by_time-later}
use seafile_server_learn.Gc.Garbage.{delete_garbaged_repos-keeps_existing}

positive : ℤ → Bool
positive (pos zero) = false
positive (pos (suc n)) = true
positive (negsuc n) = false

insert_sorted : Insert
insert_sorted cmp c [] = c ∷ []
insert_sorted cmp c (d ∷ ds) = if positive (cmp c d) then d ∷ insert_sorted cmp c ds else c ∷ d ∷ ds

insert_sorted-Inserts : Inserts insert_sorted
unfolding insert_sorted
insert_sorted-Inserts = record { one_longer = longer; new_in = new; old_in = old }
  where
    longer :
        (c : SeafCommit) (l : List SeafCommit)
        → length (insert_sorted compare_commit_by_time c l) ≡ suc (length l)
    longer c [] = refl
    longer c (d ∷ ds) =
        elim (positive (compare_commit_by_time c d))
          as (λ b.
            length (if b then d ∷ insert_sorted compare_commit_by_time c ds else c ∷ d ∷ ds)
            ≡ suc (suc (length ds))) [ true ↦ ap suc (longer c ds) | false ↦ refl ]

    new : (c : SeafCommit) (l : List SeafCommit) → In c (insert_sorted compare_commit_by_time c l)
    new c [] = here refl
    new c (d ∷ ds) =
        elim (positive (compare_commit_by_time c d))
          as (λ b. In c (if b then d ∷ insert_sorted compare_commit_by_time c ds else c ∷ d ∷ ds)) [
            | true ↦ there (new c ds)
            | false ↦ here refl
          ]

    old :
        (c x : SeafCommit) (l : List SeafCommit)
        → In x l
        → In x (insert_sorted compare_commit_by_time c l)
    old c x [] m = elim m [ ]
    old c x (d ∷ ds) (here e) =
        elim (positive (compare_commit_by_time c d))
          as (λ b. In x (if b then d ∷ insert_sorted compare_commit_by_time c ds else c ∷ d ∷ ds)) [
            | true ↦ here e
            | false ↦ there (here e)
          ]
    old c x (d ∷ ds) (there m) =
        elim (positive (compare_commit_by_time c d))
          as (λ b. In x (if b then d ∷ insert_sorted compare_commit_by_time c ds else c ∷ d ∷ ds)) [
            | true ↦ there (old c x ds m)
            | false ↦ there (there m)
          ]

abbrev the_commit : SeafCommit
the_commit = record {
  commit_id = codes "c1";
  repo_id = codes "r";
  root_id = codes "root";
  creator_name = codes "ann";
  desc = [];
  ctime = 7;
  parent_id = none;
  second_parent_id = none;
  new_merge = false;
  conflict = false;
  version = 1;
}

abbrev the_file : Seafile
the_file = record { file_id = codes "file"; file_size = 5; blk_sha1s = codes "live" ∷ [] }

abbrev the_dent : SeafDirent
the_dent = record {
  version = 1;
  mode = 33188;
  id = codes "file";
  name_len = 1;
  name = codes "a";
  mtime = pos 0;
  modifier = none;
  size = pos 5;
}

abbrev the_dir : SeafDir
the_dir = record { version = 1; dir_id = codes "root"; entries = the_dent ∷ [] }

abbrev the_commits : CommitStore
the_commits id = if str_eq id (codes "c1") then some the_commit else none

abbrev the_fs : FsStore
the_fs = record {
  dirs = λ id. if str_eq id (codes "root") then some the_dir else none;
  files = λ id. if str_eq id (codes "file") then some the_file else none;
  writable = λ id. true;
}

abbrev digest_word : Text → ℕ → ℕ
digest_word s i = length s * 1000 + i * 77

abbrev the_env : Env
the_env = record {
  sha_int = digest_word;
  memory = λ n. true;
  g_list_insert_sorted = insert_sorted;
  commits = λ r. the_commits;
  fs = λ s. the_fs;
  branches = λ r. codes "c1" ∷ [];
  truncate_time = λ r. negsuc 0;
  get_repo = λ r. none;
  get_repo_ex = λ r. none;
  virtual_repos = λ r. [];
  repo_exists = λ r. true;
  scan = λ s l. (l, true);
}

abbrev the_repo : SeafRepo
the_repo = record {
  id = codes "r";
  store_id = codes "r";
  version = 1;
  head_commit = codes "c1";
  is_virtual = false;
  is_corrupted = false;
}

abbrev the_world : World
the_world = record {
  valid_since = [];
  blocks = λ s. codes "dead block" ∷ codes "live" ∷ [];
  removed_commits = [];
  removed_fs = [];
  garbage = codes "r" ∷ [];
  total_blocks = 0;
  removed_blocks = 0;
  reachable_blocks = 0;
}

the_commits-own : (id : Text) (c : SeafCommit) → the_commits id ≡ some c → c.commit_id ≡ id
the_commits-own id c h = elim (Bool-cases (str_eq id (codes "c1"))) [
  | inl e ↦
      let same = (str_eq_iff id (codes "c1")).0 e in
      let found : the_commit ≡ c = ground arith in ap (λ c. c.commit_id) (sym found) ∙ sym same
  | inr ne ↦ absurd (ground arith)
]

the_fs-IsTyped : (version : ℕ) → IsTyped the_fs version
unfolding get_seafdir get_seafile str_eq strcmp s_isreg
the_fs-IsTyped version = record { apart = λ id dir file h k. apart id dir file h k }
  where
    not_both : str_eq (codes "root") (codes "file") ≡ true → ⊥
    not_both e = cc

    apart :
        (id : Text) (dir : SeafDir) (file : Seafile)
        → get_seafdir the_fs version id ≡ some dir
        → get_seafile the_fs id ≡ some file
        → id ≡ empty_sha1
    apart id dir file h k = elim (Bool-cases (str_eq id empty_sha1)) [
      | inl e ↦ (str_eq_iff id empty_sha1).0 e
      | inr ne ↦
          let d : str_eq id (codes "root") ≡ true = ground arith in
          let f : str_eq id (codes "file") ≡ true = ground arith in
          absurd (
            not_both
              (subst (λ x. str_eq x (codes "file") ≡ true) ((str_eq_iff id (codes "root")).0 d) f))
    ]

the_env-IsSane : IsSane the_env
the_env-IsSane = record {
  inserts = insert_sorted-Inserts;
  own_id = λ r id c h. the_commits-own id c h;
  typed = λ s version. the_fs-IsTyped version;
}

the_block-live : LiveIn the_env the_repo (codes "live")
unfolding str_eq strcmp get_seafdir get_seafile s_isreg
the_block-live = record {
  head = codes "c1";
  is_branch = here refl;
  live = record {
    commit_id = codes "c1";
    commit = the_commit;
    dir_id = codes "root";
    dir = the_dir;
    dent = the_dent;
    file = the_file;
    is_reached = at_head;
    has_commit = refl;
    below_root = root_dir;
    has_dir = refl;
    has_dent = here refl;
    regular = refl;
    has_file = refl;
    has_block = here refl;
  };
}

gc_v1_repo-keeps_live_example :
    In (codes "live") ((gc_v1_repo the_env 3 1 the_repo false the_world).1.blocks (codes "r"))
gc_v1_repo-keeps_live_example =
    gc_v1_repo-keeps_live the_env 3 1 the_repo false the_world (codes "live") (codes "r")
      the_env-IsSane (inl the_block-live) (there (here refl))

delete_garbaged_repos-keeps_existing_example :
    (delete_garbaged_repos the_env 3 1 false the_world).blocks (codes "r")
    ≡ codes "dead block" ∷ codes "live" ∷ []
delete_garbaged_repos-keeps_existing_example =
    delete_garbaged_repos-keeps_existing the_env 3 1 false the_world (codes "r") refl

abbrev the_bloom : Bloom
the_bloom = record { asize = 16; a = 0 ∷ 0 ∷ []; csize = 0; counters = []; k = 3; counting = false }

the_bloom-created : bloom_create (λ n. true) 16 (pos 3) 0 ≡ some the_bloom
unfolding bloom_create char_count
the_bloom-created = refl

no_false_negatives_example :
    bloom_test digest_word (add_all digest_word (codes "a" ∷ codes "bc" ∷ []) the_bloom) (codes "a")
    ≡ true
no_false_negatives_example =
    no_false_negatives digest_word (λ n. true) 16 (pos 3) 0 the_bloom (codes "a" ∷ codes "bc" ∷ [])
      (codes "a") the_bloom-created (omega arith) (omega arith) (here refl)

abbrev count_calls : Callback ℕ
count_calls id type n = record { result = true; stop = false; data' = n + 1 }

the_dir-IsBounded : IsBounded 1 1 the_fs (codes "root")
unfolding get_seafdir str_eq strcmp s_isdir
the_dir-IsBounded dir h =
    subst (λ d. All (λ d. is_dir d ≡ true → ⊥) d.entries) same (files_only, tt)
  where
    same : the_dir ≡ dir
    same = ground arith

    files_only : s_isdir 33188 ≡ true → ⊥
    files_only e = cc

traverse_tree_ends_example :
    (traverse_tree the_fs 1 count_calls false 1 (codes "root") 0).0 ≢ out_of_fuel
traverse_tree_ends_example =
    traverse_tree_ends the_fs 1 count_calls false 1 (codes "root") 0 the_dir-IsBounded

known : (id : Text) (c : SeafCommit) → the_commits id ≡ some c → In id (codes "c1" ∷ [])
known id c h = elim (Bool-cases (str_eq id (codes "c1"))) [
  | inl e ↦ here ((str_eq_iff id (codes "c1")).0 e)
  | inr ne ↦ absurd (ground arith)
]

traverse_commit_tree_ends_example :
    (traverse_commit_tree_common insert_sorted the_commits false false
      (λ c n. record { result = true; stop = false; data' = n + 1 })
      3
      (codes "c1")
      0).0
    ≢ out_of_fuel
traverse_commit_tree_ends_example =
    traverse_commit_tree_ends insert_sorted the_commits (codes "c1" ∷ []) false false
      (λ c n. record { result = true; stop = false; data' = n + 1 }) (codes "c1") 0
      insert_sorted-Inserts known

gc_v1_repo-dry_run_example :
    (gc_v1_repo the_env 3 1 the_repo true the_world).1.blocks ≡ the_world.blocks
gc_v1_repo-dry_run_example = gc_v1_repo-dry_run the_env 3 1 the_repo the_world

abbrev later_commit : SeafCommit
later_commit = record the_commit { ctime = 10 }

compare_commit_by_time-later_example :
    (compare_commit_by_time the_commit later_commit ≡ pos 3)
    × (compare_commit_by_time later_commit the_commit ≡ negsuc 2)
compare_commit_by_time-later_example =
    compare_commit_by_time-later the_commit later_commit 2 refl (omega arith) (omega arith)
