-- ===== src/Update/Requests.antt =====
-- server/repo-op.c and server/repo-mgr.c: the whole request to delete or rename files of a repository.
use seafile_server_learn.Prelude.{
  ℕ, zero, suc, ◌-◌, ◌==◌, ltb, leb, not, Bool, true, false, Option, none, some, [], ◌∷◌, ◌++◌,
  if◌then◌else◌, length,
}
use seafile_server_learn.Prelude.Text.{Text, codes, str_eq}
use seafile_server_learn.Prelude.Exec.{ok, failed, Exec, resume}
use seafile_server_learn.Fs.Object.{s_isdir}
use seafile_server_learn.Fs.Store.{FsStore}
use seafile_server_learn.Fs.Lookup.{
  located, dir_missing, path_no_exist, get_seafdir_by_path, find_dent,
}
use seafile_server_learn.Commit.Object.{SeafCommit}
use seafile_server_learn.RepoOp.Names.{get_canonical_path, decimal}
use seafile_server_learn.RepoOp.Entries.{Deleted, has_char}
use seafile_server_learn.RepoOp.Edit.{do_del_file, do_rename_file}
use seafile_server_learn.RepoOp.Edit
use seafile_server_learn.Update.Server.{Server}
use seafile_server_learn.Update.NewCommit.{Repo, Env, gen_new_commit}

-- `merge_virtual_repo` is seaf_repo_manager_merge_virtual_repo of server/virtual-repo.c.
pub record Site : Type 0 where
  pub update : Env
  pub edit : Edit.Env
  pub utf8_validate : Text → Bool
  pub merge_virtual_repo : Server → Server

-- What fits in a buffer of SEAF_PATH_MAX bytes with the zero at its end.
unfoldable pub cut : ℕ → Text → Text
cut zero t = []
cut (suc n) [] = []
cut (suc n) (c ∷ cs) = c ∷ cut n cs

abbrev pub printed : Text → Text
printed t = cut 4095 t

-- The mode of the first entry of the name, in the directory that the path leads to.
unfoldable pub check_file_exists : FsStore → ℕ → Text → Text → Text → Option ℕ
unfolding get_seafdir_by_path find_dent
check_file_exists s version root_id parent_dir filename =
    elim (get_seafdir_by_path s version root_id parent_dir) [
      | dir_missing ↦ none
      | path_no_exist ↦ none
      | located dir ↦ elim (find_dent filename dir.entries) [ none ↦ none | some d ↦ some d.mode ]
    ]

abbrev pub text_or : Option Text → Text
text_or none = codes "(null)"
text_or (some t) = t

unfoldable pub deleted_desc : Deleted → Text
unfolding cut decimal s_isdir
deleted_desc del =
    let name = text_or del.desc_file in
    let mode : ℕ = elim del.mode [ none ↦ 0 | some m ↦ m ] in
    if ltb 1 del.deleted_num
    then printed (
        codes "Deleted \""
        ++ (name
            ++ (codes "\" and "
                ++ (decimal del.deleted_num (del.deleted_num - 1) ++ codes " more files"))))
    else if s_isdir mode
    then printed (codes "Removed directory \"" ++ (name ++ codes "\""))
    else printed (codes "Deleted \"" ++ (name ++ codes "\""))

unfoldable pub renamed_desc : ℕ → Text → Text
unfolding cut s_isdir
renamed_desc mode oldname =
    if s_isdir mode
    then printed (codes "Renamed directory \"" ++ (oldname ++ codes "\""))
    else printed (codes "Renamed \"" ++ (oldname ++ codes "\""))

module _ (site : Site) where
  unfoldable pub should_ignore_file : Text → Bool
  unfolding has_char
  should_ignore_file filename =
      if not (site.utf8_validate filename)
      then true
      else if leb 256 (length filename)
      then true
      else if has_char 47 filename
      then true
      else false

  -- An operation on the tree, as a part of the server.
  abbrev pub on_fs : {A : Type 0} → Exec FsStore A → Exec Server A
  on_fs f s = ((f s.fs).0, record s { fs = (f s.fs).1 })

  -- The commit of the new root, after what others did while the tree was written.
  unfoldable pub commit_root : SeafCommit → Text → Text → Text → Exec Server (Unit {0})
  unfolding gen_new_commit
  commit_root head root_id user desc s =
      let r = gen_new_commit site.update head root_id user desc (site.update.meanwhile 0 s) in
      resume (λ id s. (ok tt, site.merge_virtual_repo s)) r.0 r.1

  -- GET_REPO_OR_FAIL and GET_COMMIT_OR_FAIL
  unfoldable pub with_head : (Repo → SeafCommit → Exec Server (Unit {0})) → Exec Server (Unit {0})
  with_head k s = elim (site.update.get_repo 0 s) [
    | none ↦ (failed, s)
    | some repo ↦ elim (s.commits repo.head_id) [ none ↦ (failed, s) | some head ↦ k repo head s ]
  ]

  -- Nothing is committed if nothing was deleted.
  unfoldable pub after_delete : SeafCommit → Text → Text × Deleted → Exec Server (Unit {0})
  unfolding commit_root deleted_desc
  after_delete head user (root_id, del) s =
      if del.deleted_num == 0
      then (ok tt, s)
      else commit_root head root_id user (deleted_desc del) s

  unfoldable pub delete_in : Text → Text → Text → Repo → SeafCommit → Exec Server (Unit {0})
  unfolding after_delete do_del_file get_canonical_path get_seafdir_by_path
  delete_in parent_dir file_name user repo head s =
      let canon_path = get_canonical_path parent_dir in
      elim (get_seafdir_by_path s.fs repo.version head.root_id canon_path) [
        | dir_missing ↦ (failed, s)
        | path_no_exist ↦ (failed, s)
        | located dir ↦
            let r =
              on_fs (do_del_file site.edit repo.version head.root_id canon_path file_name) s in
            resume (after_delete head user) r.0 r.1
      ]

  unfoldable pub seaf_repo_manager_del_file : Text → Text → Text → Exec Server (Unit {0})
  unfolding with_head delete_in
  seaf_repo_manager_del_file parent_dir file_name user =
      with_head (delete_in parent_dir file_name user)

  unfoldable pub rename_in : Text → Text → Text → Text → Repo → SeafCommit → Exec Server (Unit {0})
  unfolding should_ignore_file check_file_exists do_rename_file commit_root renamed_desc
      get_canonical_path
  rename_in parent_dir oldname newname user repo head s =
      let canon_path = get_canonical_path parent_dir in
      if should_ignore_file newname
      then (failed, s)
      else elim (check_file_exists s.fs repo.version head.root_id canon_path oldname) [
        | none ↦ (failed, s)
        | some mode ↦ elim (check_file_exists s.fs repo.version head.root_id canon_path newname) [
          | some other ↦ (failed, s)
          | none ↦
              let r =
                on_fs
                  (do_rename_file site.edit repo.version head.root_id canon_path oldname newname)
                  s in
              resume (λ root. commit_root head root.0 user (renamed_desc mode oldname)) r.0 r.1
        ]
      ]

  unfoldable pub seaf_repo_manager_rename_file : Text → Text → Text → Text → Exec Server (Unit {0})
  unfolding with_head rename_in
  seaf_repo_manager_rename_file parent_dir oldname newname user s =
      if str_eq oldname newname
      then (ok tt, s)
      else with_head (rename_in parent_dir oldname newname user) s
