-- ===== src/Tests/Merge.antt =====
-- Merges of small trees: a conflict, a side that did not change, a recursion.
use mathlib.Core.List.Pairwise
use mathlib.Core.List.{mem-cons, not-mem-nil}
use mathlib.Core.Logic.Or
use Prim.Native.Nat.{Ordering}
use seafile_server_learn.Prelude.{
  ℕ, ◌≡◌, arith, ◌≢◌, refl, sym, ap, ◌∙◌, inl, inr, ◌+◌, ◌≤◌, ◌++◌, true, false, Option, none, some,
  List, [], ◌∷◌, In, if◌then◌else◌, length,
}
use seafile_server_learn.Prelude.Text.{Text, codes, str_eq, strcmp}
use seafile_server_learn.Prelude.Int.{pos}
use seafile_server_learn.Prelude.Exec.{ok, out_of_fuel}
use seafile_server_learn.Fs.Object.{SeafDirent, SeafDir, s_isreg, s_isdir, rename}
use seafile_server_learn.Fs.Store.{
  empty_sha1, get_seafdir, seaf_dir_new, dir_version_from_repo_version,
}
use seafile_server_learn.Commit.Object.{SeafCommit}
use seafile_server_learn.Vc.ConflictPath.{gen_conflict_path, gen_conflict_path-longer}
use seafile_server_learn.Merge.Options.{Slots, MergeOptions, State, Env, merge_conflict_filename}
use seafile_server_learn.Merge.Entries.{Merged, as_file, has_id, set_conflict, merge_entries}
use seafile_server_learn.Merge.Trees.{merge_trees_recursive, seaf_merge_trees}
use seafile_server_learn.Merge.Unchanged.{
  IsStored, result_is, merge-remote_unchanged, merge-same_change,
}
use seafile_server_learn.Merge.Kept.{
  Holds, merge_entries-keeps_head, merge_entries-keeps_remote, merge_entries-conflict,
}
use seafile_server_learn.Merge.Depth.{merge_ends, IsComplete}
use seafile_server_learn.Fs.Extends.{Extends}
use seafile_server_learn.Tests.Sort.{insertion_sort, insertion_sort-Sorts}

-- A stand-in for the SHA-1 of a directory: the names and ids one after the other.
abbrev digest : ℕ → List SeafDirent → Text
digest version [] = []
digest version (d ∷ ds) = d.name ++ (58 ∷ d.id) ++ (59 ∷ digest version ds)

abbrev entry : ℕ → Text → Text → SeafDirent
entry mode name id = record {
  version = 1;
  mode = mode;
  id = id;
  name_len = length name;
  name = name;
  mtime = pos 0;
  modifier = none;
  size = pos 0;
}

abbrev file : Text → Text → SeafDirent
file = entry 33188

abbrev folder : Text → Text → SeafDirent
folder = entry 16384

abbrev commit : SeafCommit
commit = record {
  commit_id = codes "c1";
  repo_id = codes "r";
  root_id = codes "root";
  creator_name = codes "ann";
  desc = [];
  ctime = 7;
  parent_id = none;
  second_parent_id = none;
  new_merge = false;
  conflict = false;
  version = 1;
}

abbrev env : Env Unit
env = record {
  commits = λ repo id. some commit;
  modifier_mtime = λ repo head path. none;
  time_now = λ path. pos 7;
  strftime = λ t. codes "now";
  digest = digest;
  g_list_sort = insertion_sort;
  callback = λ basedir files s. (ok tt, s);
}

abbrev dir_of : List SeafDirent → SeafDir
dir_of es = seaf_dir_new digest es 1

abbrev opt : MergeOptions
opt = record {
  n_ways = 3;
  remote_repo_id = codes "r";
  remote_head = codes "c1";
  do_merge = true;
  merged_tree_root = [];
  visit_dirs = 0;
  conflict = false;
}

abbrev store : List SeafDir → Text → Option SeafDir
store [] id = none
store (d ∷ ds) id = if str_eq d.dir_id id then some d else store ds id

abbrev start : State Unit
start = record {
  fs = record { dirs = store []; files = λ id. none; writable = λ id. true };
  opt = opt;
  user = tt;
}

abbrev old_list : List SeafDirent
old_list = file (codes "b") (codes "1") ∷ file (codes "a") (codes "2") ∷ []

abbrev new_list : List SeafDirent
new_list = folder (codes "c") (codes "3") ∷ file (codes "b") (codes "4") ∷ []

abbrev plain : List SeafDirent → SeafDir
plain es = record { version = 1; dir_id = digest 1 es; entries = es }

new-IsStored : IsStored digest 1 (plain new_list)
unfolding strcmp s_isreg s_isdir seaf_dir_new dir_version_from_repo_version
new-IsStored = record {
  descending =
      Pairwise.cons
        (λ x m.
          Or.elim (ordering_prop x) (mem-cons.0 m) (λ e. rw e refl)
            (λ none_left. absurd (not-mem-nil none_left)))
        (Pairwise.cons (λ x m. absurd (not-mem-nil m)) Pairwise.nil);
  valid = (inr refl, (inl refl, tt));
  content_id = refl;
}
  where
    ordering_prop : (x : SeafDirent) → IsProp (strcmp (codes "c") x.name ≡ Ordering.gt)
    ordering_prop x = hlevel

merge-remote_unchanged_example :
    merge_trees_recursive env 1 3 1
      (record {
        at0 = some (plain old_list);
        at1 = some (plain new_list);
        at2 = some (plain old_list);
      })
      []
      start
    ≡ (ok tt, result_is (digest 1 new_list) start)
merge-remote_unchanged_example =
    merge-remote_unchanged env 1 insertion_sort-Sorts 0 (plain old_list) (plain new_list)
      (plain old_list) [] start refl refl new-IsStored

merge-same_change_example :
    merge_trees_recursive env 1 3 1
      (record {
        at0 = some (plain old_list);
        at1 = some (plain new_list);
        at2 = some (plain new_list);
      })
      []
      start
    ≡ (ok tt, result_is (digest 1 new_list) start)
merge-same_change_example =
    merge-same_change env 1 insertion_sort-Sorts 0 (plain old_list) (plain new_list)
      (plain new_list) [] start refl refl new-IsStored

-- Base, head and remote hold the file "a" with three contents.
abbrev three : Slots SeafDirent
three = record {
  at0 = some (file (codes "a") (codes "1"));
  at1 = some (file (codes "a") (codes "2"));
  at2 = some (file (codes "a") (codes "3"));
}

abbrev renamed : SeafDirent
renamed = rename (file (codes "a") (codes "3")) (codes "a (SFConflict ann now)")

abbrev conflict_result : Merged
conflict_result = (record three { at2 = some renamed }, renamed ∷ file (codes "a") (codes "2") ∷ [])

three_runs : merge_entries env three [] 3 [] start ≡ (ok conflict_result, set_conflict start)
unfolding merge_entries s_isreg str_eq strcmp merge_conflict_filename gen_conflict_path rename
three_runs = refl

head_is_file : as_file (some (file (codes "a") (codes "2"))) ≡ some (file (codes "a") (codes "2"))
unfolding as_file s_isreg
head_is_file = refl

remote_is_file : as_file (some (file (codes "a") (codes "3"))) ≡ some (file (codes "a") (codes "3"))
unfolding as_file s_isreg
remote_is_file = refl

head_is_new : has_id (as_file three.at0) (codes "2") ≡ false
unfolding as_file s_isreg str_eq strcmp
head_is_new = refl

remote_is_new : has_id (as_file three.at0) (codes "3") ≡ false
unfolding as_file s_isreg str_eq strcmp
remote_is_new = refl

contents_differ : str_eq (codes "2") (codes "3") ≡ false
unfolding str_eq strcmp
contents_differ = refl

one_name : (h : SeafDirent) → as_file three.at1 ≡ some h → h.name ≡ codes "a"
one_name h e =
    let same : some (file (codes "a") (codes "2")) ≡ some h = sym head_is_file ∙ e in
    let is : file (codes "a") (codes "2") ≡ h = ground arith in ap (λ d. d.name) (sym is)

merge_entries-keeps_head_example : In (file (codes "a") (codes "2")) conflict_result.1
merge_entries-keeps_head_example =
    merge_entries-keeps_head env three [] [] start (set_conflict start)
      (file (codes "a") (codes "2")) conflict_result refl head_is_file head_is_new three_runs

merge_entries-keeps_remote_example :
    Holds env.strftime (file (codes "a") (codes "3")) conflict_result.1
merge_entries-keeps_remote_example =
    merge_entries-keeps_remote env three [] [] start (set_conflict start)
      (file (codes "a") (codes "3")) conflict_result refl remote_is_file one_name remote_is_new
      three_runs

merge_entries-conflict_example :
    (r : SeafDirent) × (conflict_result.1 ≡ r ∷ file (codes "a") (codes "2") ∷ [])
    × (r.id ≡ codes "3")
    × (r.name ≢ codes "a")
    × (set_conflict start ≡ set_conflict start)
merge_entries-conflict_example =
    merge_entries-conflict env three [] [] start (set_conflict start) (file (codes "a") (codes "2"))
      (file (codes "a") (codes "3")) conflict_result refl head_is_file remote_is_file
      contents_differ head_is_new remote_is_new three_runs

-- Head and remote add a folder "d" with different files below it.
abbrev leaf : Text → SeafDir
leaf id = plain (file (codes "x") id ∷ [])

abbrev tree : Text → SeafDir
tree id = plain (folder (codes "d") (leaf id).dir_id ∷ [])

abbrev nested : State Unit
nested = record start {
  fs = record {
    dirs = store (leaf (codes "1") ∷ leaf (codes "2") ∷ tree (codes "1") ∷ tree (codes "2") ∷ []);
    files = λ id. none;
    writable = λ id. true;
  };
}

empty-IsComplete : IsComplete 2 1 nested.fs empty_sha1
unfolding get_seafdir str_eq strcmp
empty-IsComplete = (plain_empty, refl, tt)
  where
    plain_empty : SeafDir
    plain_empty = record { version = 1; dir_id = empty_sha1; entries = [] }

head-IsComplete : IsComplete 2 1 nested.fs (tree (codes "1")).dir_id
unfolding get_seafdir str_eq strcmp s_isdir
head-IsComplete = (tree (codes "1"), refl, ((λ _. (leaf (codes "1"), refl, ((λ h. cc), tt))), tt))

remote-IsComplete : IsComplete 2 1 nested.fs (tree (codes "2")).dir_id
unfolding get_seafdir str_eq strcmp s_isdir
remote-IsComplete = (tree (codes "2"), refl, ((λ _. (leaf (codes "2"), refl, ((λ h. cc), tt))), tt))

merge_ends_example :
    ((seaf_merge_trees env 1 3 3 empty_sha1
        (tree (codes "1")).dir_id
        (tree (codes "2")).dir_id
        nested).0
      ≢ out_of_fuel)
    × Extends 1 nested.fs
        (seaf_merge_trees env 1 3 3 empty_sha1
          (tree (codes "1")).dir_id
          (tree (codes "2")).dir_id
          nested).1.fs
merge_ends_example =
    merge_ends env 1 3 2 empty_sha1 (tree (codes "1")).dir_id (tree (codes "2")).dir_id nested
      (λ basedir files s e. (tt, e)) empty-IsComplete head-IsComplete remote-IsComplete

gen_conflict_path-longer_example :
    (length (codes "a.txt") + 14
      ≤ length (gen_conflict_path (λ t. codes "now") (codes "a.txt") (some (codes "ann")) (pos 7)))
    × (gen_conflict_path (λ t. codes "now") (codes "a.txt") (some (codes "ann")) (pos 7)
        ≢ codes "a.txt")
gen_conflict_path-longer_example =
    gen_conflict_path-longer (λ t. codes "now") (codes "a.txt") (some (codes "ann")) (pos 7)

dotted_name :
    gen_conflict_path (λ t. codes "now") (codes "a.b.txt") (some (codes "ann")) (pos 7)
    ≡ codes "a.b (SFConflict ann now).txt"
unfolding gen_conflict_path
dotted_name = refl
