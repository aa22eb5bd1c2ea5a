-- ===== src/Tests/RepoOp.antt =====
-- Requests on a root directory with one folder in it.
use Prim.Native.Nat.{Ordering}
use seafile_server_learn.Prelude.{
  replicate, ℕ, suc, ◌≡◌, refl, sym, ap, ◌∙◌, true, Option, none, some, List, [], ◌∷◌, ◌++◌,
  if◌then◌else◌, arith, length, Bool-cases, inl, inr,
}
use seafile_server_learn.Prelude.Text.{Text, codes, strcmp, str_eq, str_eq_iff}
use seafile_server_learn.Prelude.Int.{ℤ, pos, negsuc}
use seafile_server_learn.Fs.Object.{SeafDirent, SeafDir}
use seafile_server_learn.Fs.Store.{FsStore, get_seafdir}
use seafile_server_learn.Fs.Sorted.{Cmp, compare_dirents}
use seafile_server_learn.Fs.Addressed.{IsDigest, IsAddressed}
use seafile_server_learn.Prelude.Exec.{failed}
use seafile_server_learn.Fs.Extends.{Extends}
use seafile_server_learn.Fs.Lookup.{path_names, dir_at, entry_in, find_dent}
use seafile_server_learn.Vc.ConflictPath.{split_last_dot}
use seafile_server_learn.RepoOp.Names.{
  filename_exists, skip_slash, split_filename, numbered, decimal, unique_loop,
  generate_unique_filename, get_canonical_path,
}
use seafile_server_learn.RepoOp.Found.{InsertsOne}
use seafile_server_learn.RepoOp.Edit.{
  Env, always, do_put_file, do_post_file, do_post_file_replace, do_rename_file, do_del_file,
}
use seafile_server_learn.RepoOp.Refine.{Edits}
use seafile_server_learn.RepoOp.Leaves.{PutNew, NotName, PostNew, AnyName}
use seafile_server_learn.RepoOp.Changes.{
  do_put_file-Edits, do_post_file-Edits, Requests-IsAddressed, none_left, put, del,
}
use seafile_server_learn.RepoOp.Resolve.{Returns, requests_nowhere, requests_return}
use seafile_server_learn.RepoOp.Unique.{
  FirstFree, candidate, with_ext, generate_unique_filename-FirstFree,
}
use seafile_server_learn.RepoOp.Canonical.{Slashed, EndsWell, get_canonical_path_idem}
use seafile_server_learn.RepoOp.Leaves.{IsReadable}
use seafile_server_learn.Utils.Hex.{is_object_id_valid, is_hex}

-- A digest without collisions: an encoding in which every number is one larger and zeros end the
-- parts.
abbrev pub enc_text : Text → Text → Text
enc_text [] rest = 0 ∷ rest
enc_text (c ∷ cs) rest = suc c ∷ enc_text cs rest

abbrev pub enc_int : ℤ → Text → Text
enc_int (pos n) rest = 0 ∷ n ∷ rest
enc_int (negsuc n) rest = 1 ∷ n ∷ rest

abbrev pub enc_option : Option Text → Text → Text
enc_option none rest = 0 ∷ rest
enc_option (some t) rest = 1 ∷ enc_text t rest

abbrev pub enc_dent : SeafDirent → Text → Text
enc_dent d rest =
    d.version
    ∷ d.mode
    ∷ d.name_len
    ∷ enc_text d.id
        (enc_text d.name (enc_int d.mtime (enc_option d.modifier (enc_int d.size rest))))

abbrev pub enc_dents : List SeafDirent → Text
enc_dents [] = []
enc_dents (d ∷ ds) = enc_dent d (enc_dents ds)

abbrev pub enc_digest : ℕ → List SeafDirent → Text
enc_digest version ds = 7 ∷ enc_dents ds

enc_text_inj : (s t r q : Text) → enc_text s r ≡ enc_text t q → (s ≡ t) × (r ≡ q)
enc_text_inj [] [] r q h = ground arith
enc_text_inj [] (y ∷ t) r q h = ground arith
enc_text_inj (x ∷ s) [] r q h = ground arith
enc_text_inj (x ∷ s) (y ∷ t) r q h =
    let rest : enc_text s r ≡ enc_text t q = ground arith in
    let ih = enc_text_inj s t r q rest in let head : x ≡ y = ground arith in (cc (head, ih.0), ih.1)

enc_int_inj : (a b : ℤ) (r q : Text) → enc_int a r ≡ enc_int b q → (a ≡ b) × (r ≡ q)
enc_int_inj (pos m) (pos n) r q h = ground arith
enc_int_inj (pos m) (negsuc n) r q h = ground arith
enc_int_inj (negsuc m) (pos n) r q h = ground arith
enc_int_inj (negsuc m) (negsuc n) r q h = ground arith

enc_option_inj :
    (a b : Option Text) (r q : Text) → enc_option a r ≡ enc_option b q → (a ≡ b) × (r ≡ q)
enc_option_inj none none r q h = ground arith
enc_option_inj none (some t) r q h = ground arith
enc_option_inj (some s) none r q h = ground arith
enc_option_inj (some s) (some t) r q h =
    let rest : enc_text s r ≡ enc_text t q = ground arith in
    let ih = enc_text_inj s t r q rest in (ap some ih.0, ih.1)

tails : {x y : ℕ} {s t : Text} → (x ∷ s) ≡ (y ∷ t) → (x ≡ y) × (s ≡ t)
tails h = ground arith

enc_dent_inj : (d e : SeafDirent) (r q : Text) → enc_dent d r ≡ enc_dent e q → (d ≡ e) × (r ≡ q)
enc_dent_inj d e r q h =
    let t1 = tails h in
    let t2 = tails t1.1 in
    let t3 = tails t2.1 in
    let t4 = enc_text_inj d.id e.id _ _ t3.1 in
    let t5 = enc_text_inj d.name e.name _ _ t4.1 in
    let t6 = enc_int_inj d.mtime e.mtime _ _ t5.1 in
    let t7 = enc_option_inj d.modifier e.modifier _ _ t6.1 in
    let t8 = enc_int_inj d.size e.size _ _ t7.1 in
    (same_fields d e t1.0 t2.0 t4.0 t3.0 t5.0 t6.0 t7.0 t8.0, t8.1)
  where
    same_fields :
        (d e : SeafDirent)
        → d.version ≡ e.version
        → d.mode ≡ e.mode
        → d.id ≡ e.id
        → d.name_len ≡ e.name_len
        → d.name ≡ e.name
        → d.mtime ≡ e.mtime
        → d.modifier ≡ e.modifier
        → d.size ≡ e.size
        → d ≡ e
    same_fields d e a b c f g h i j = cc

enc_dents_inj : (ds es : List SeafDirent) → enc_dents ds ≡ enc_dents es → ds ≡ es
enc_dents_inj [] [] h = refl
enc_dents_inj [] (e ∷ es) h = ground arith
enc_dents_inj (d ∷ ds) [] h = ground arith
enc_dents_inj (d ∷ ds) (e ∷ es) h =
    let same = enc_dent_inj d e (enc_dents ds) (enc_dents es) h in
    cc (same.0, enc_dents_inj ds es same.1)

pub enc_digest-IsDigest : IsDigest enc_digest
enc_digest-IsDigest = record {
  entries_eq = λ v w ds es h. enc_dents_inj ds es (tails h).1;
  not_empty = λ v ds h. ground arith;
}

-- Insertion before the first entry that does not come before the new one.
abbrev pub insert_sorted : Cmp → SeafDirent → List SeafDirent → List SeafDirent
insert_sorted cmp d [] = d ∷ []
insert_sorted cmp d (e ∷ es) =
    let later = insert_sorted cmp d es in
    elim (cmp d e) [ Ordering.gt ↦ e ∷ later | _ ↦ d ∷ e ∷ es ]

insert_sorted-between :
    (cmp : Cmp) (d : SeafDirent) (es : List SeafDirent)
    → (front back : List SeafDirent) × (es ≡ front ++ back)
      × (insert_sorted cmp d es ≡ front ++ (d ∷ back))
insert_sorted-between cmp d [] = ([], [], refl, refl)
insert_sorted-between cmp d (e ∷ es) = at (cmp d e) (insert_sorted-between cmp d es)
  where
    at :
        (o : Ordering)
        → ((front back : List SeafDirent) × (es ≡ front ++ back)
            × (insert_sorted cmp d es ≡ front ++ (d ∷ back)))
        → (front back : List SeafDirent) × ((e ∷ es) ≡ front ++ back)
          × ((elim o [ Ordering.gt ↦ e ∷ insert_sorted cmp d es | _ ↦ d ∷ e ∷ es ])
              ≡ front ++ (d ∷ back))
    at Ordering.lt ih = ([], e ∷ es, refl, refl)
    at Ordering.eq ih = ([], e ∷ es, refl, refl)
    at Ordering.gt (front, back, split, placed) =
        (e ∷ front, back, ap (λ l. e ∷ l) split, ap (λ l. e ∷ l) placed)

pub insert_sorted-InsertsOne : InsertsOne insert_sorted
insert_sorted-InsertsOne = record { between = λ d ds. insert_sorted-between compare_dirents d ds }

abbrev pub env : Env
env = record {
  digest = enc_digest;
  g_list_sort = λ cmp ds. ds;
  g_list_insert_sorted = insert_sorted;
  split_tabs = λ t. t ∷ [];
  time_at = λ names. pos 9;
}

abbrev pub entry : ℕ → Text → Text → SeafDirent
entry mode name id = record {
  version = 1;
  mode = mode;
  id = id;
  name_len = length name;
  name = name;
  mtime = pos 5;
  modifier = some (codes "u");
  size = pos 3;
}

abbrev pub dir_of : List SeafDirent → SeafDir
dir_of es = record { version = 1; dir_id = enc_digest 1 es; entries = es }

abbrev pub sub_list : List SeafDirent
sub_list = entry 33188 (codes "b") (codes "1") ∷ entry 33188 (codes "a") (codes "2") ∷ []

abbrev pub root_list : List SeafDirent
root_list =
    entry 33188 (codes "z") (codes "3") ∷ entry 16384 (codes "f") (enc_digest 1 sub_list) ∷ []

abbrev pub root : Text
root = enc_digest 1 root_list

abbrev pub store : FsStore
store = record {
  dirs = λ id.
      if str_eq (enc_digest 1 sub_list) id
      then some (dir_of sub_list)
      else if str_eq root id
      then some (dir_of root_list)
      else none;
  files = λ id. none;
  writable = λ id. true;
}

one_of_two :
    (id : Text) (dir : SeafDir)
    → store.dirs id ≡ some dir
    → (es : List SeafDirent) × (dir ≡ dir_of es) × (enc_digest 1 es ≡ id)
one_of_two id dir h = elim (Bool-cases (str_eq (enc_digest 1 sub_list) id)) [
  | inl below ↦
      let same : some (dir_of sub_list) ≡ some dir = sym (rw below refl) ∙ h in
      (sub_list, sym (some_eq same), (str_eq_iff (enc_digest 1 sub_list) id).0 below)
  | inr other ↦ elim (Bool-cases (str_eq root id)) [
    | inl top ↦
        let same : some (dir_of root_list) ≡ some dir = sym (rw (other, top) refl) ∙ h in
        (root_list, sym (some_eq same), (str_eq_iff root id).0 top)
    | inr neither ↦
        let nothing : none ≡ some dir = sym (rw (other, neither) refl) ∙ h in absurd (ground arith)
  ]
]
  where
    some_eq : {d e : SeafDir} → some d ≡ some e → d ≡ e
    some_eq p = ground arith

pub store-IsAddressed : IsAddressed enc_digest store
store-IsAddressed = record {
  own_id = λ id dir h. let (es, same, at) = one_of_two id dir h in ap (λ d. d.dir_id) same ∙ at;
  own_digest = λ id dir h.
      let (es, same, at) = one_of_two id dir h in
      sym (ap (λ d. enc_digest d.version d.entries) same ∙ at);
  no_file = λ v ds. refl;
}

abbrev new_file : SeafDirent
new_file = entry 33188 (codes "a") (replicate 40 55)

new_file-IsReadable : IsReadable new_file
unfolding is_object_id_valid is_hex
new_file-IsReadable = (refl, λ e. refl)

do_put_file-Edits_example :
    Edits env 1 enc_digest-IsDigest refl always
      (NotName (codes "a"))
      (PutNew new_file)
      store
      root
      (codes "f" ∷ [])
      (do_put_file env 1 root (codes "/f") new_file store)
unfolding path_names skip_slash
do_put_file-Edits_example =
    do_put_file-Edits env 1 enc_digest-IsDigest refl store root (codes "/f") new_file
      new_file-IsReadable store-IsAddressed

do_post_file-Edits_example :
    Edits env 1 enc_digest-IsDigest refl always AnyName
      (PostNew new_file)
      store
      root
      (codes "f" ∷ [])
      (do_post_file env 1 root (codes "f") new_file store)
unfolding path_names skip_slash
do_post_file-Edits_example =
    do_post_file-Edits env 1 enc_digest-IsDigest refl insert_sorted-InsertsOne store root
      (codes "f") new_file new_file-IsReadable store-IsAddressed

Requests-IsAddressed_example :
    IsAddressed enc_digest
      (do_del_file env 1 root
        (codes "f")
        (codes "a")
        (do_put_file env 1 root (codes "f") new_file store).1).1
    × Extends 1 store
        (do_del_file env 1 root
          (codes "f")
          (codes "a")
          (do_put_file env 1 root (codes "f") new_file store).1).1
Requests-IsAddressed_example =
    Requests-IsAddressed env 1 enc_digest-IsDigest refl
      (put root (codes "f") new_file (del root (codes "f") (codes "a") none_left)) store-IsAddressed

requests_nowhere_example :
    (do_put_file env 1 root (codes "g") new_file store ≡ (failed, store))
    × (do_post_file_replace env 1 root (codes "g") true new_file store ≡ (failed, store))
    × (do_rename_file env 1 root (codes "g") (codes "a") (codes "c") store ≡ (failed, store))
    × (do_del_file env 1 root (codes "g") (codes "a") store ≡ (failed, store))
unfolding path_names skip_slash dir_at entry_in find_dent get_seafdir str_eq strcmp
requests_nowhere_example =
    requests_nowhere env 1 refl store root (codes "g") (codes "a") (codes "c") true new_file refl

requests_return_example :
    Returns (do_put_file env 1 root (codes "f") new_file store)
    × Returns (do_post_file_replace env 1 root (codes "f") true new_file store)
    × Returns (do_rename_file env 1 root (codes "f") (codes "a") (codes "c") store)
    × Returns (do_del_file env 1 root (codes "f") (codes "a") store)
unfolding path_names skip_slash dir_at entry_in find_dent get_seafdir str_eq strcmp
    generate_unique_filename unique_loop filename_exists numbered decimal split_filename
    split_last_dot
requests_return_example =
    requests_return env 1 refl store root (codes "f") (dir_of sub_list) (codes "a") (codes "c") true
      new_file (codes "a (1)") refl (λ id. refl) refl

generate_unique_filename-FirstFree_example :
    FirstFree sub_list
      (candidate (codes "a") (some (codes "txt")))
      0
      100
      (generate_unique_filename (codes "a.txt") sub_list)
unfolding with_ext
generate_unique_filename-FirstFree_example =
    generate_unique_filename-FirstFree (codes "a") (some (codes "txt")) sub_list
      (refl, (refl, (refl, tt)))

get_canonical_path_idem_example :
    ((slashed : Text) × Slashed (codes "/a\\b//") slashed
      × (k : ℕ) × (get_canonical_path (codes "/a\\b//") ++ replicate k 47 ≡ slashed))
    × EndsWell (get_canonical_path (codes "/a\\b//"))
    × (get_canonical_path (get_canonical_path (codes "/a\\b//"))
        ≡ get_canonical_path (codes "/a\\b//"))
get_canonical_path_idem_example = get_canonical_path_idem (codes "/a\\b//")
