-- ===== src/Gc/Files.antt =====
-- server/gc/gc-core.c: the callback adds the blocks of every file of a tree to the index.
use mathlib.Core.Path.{subst}
use seafile_server_learn.Prelude.{
  ℕ, ◌≡◌, refl, sym, ap, ◌∙◌, true, false, none, some, List, [], ◌∷◌, In, here, there, arith,
  Option-cases, Bool-cases, inl, inr, ◌⊎◌,
}
use seafile_server_learn.Prelude.Text.{Text, str_eq, str_eq_iff}
use seafile_server_learn.Bloom.Filter.{bloom_add, bloom_test}
use seafile_server_learn.Bloom.Members.{
  IsFilter, Grows, Grows-refl, Grows-trans, bloom_test-Grows, bloom_add-IsFilter, bloom_add-Grows,
  test-bloom_add,
}
use seafile_server_learn.Fs.Object.{Seafile}
use seafile_server_learn.Fs.Store.{FsStore, get_seafile, empty_sha1}
use seafile_server_learn.Fs.Traverse.{file_type, traverse_file}
use seafile_server_learn.Commit.Traverse.{member}
use seafile_server_learn.Commit.Traverse.Complete.{member-In}
use seafile_server_learn.Gc.Index.{
  GcData, add_blocks, add_blocks_to_index, mark, after_mark, fs_callback,
}
use seafile_server_learn.Gc.Live.{Covers, Step, Step-refl, Yields}

module _ (sha_int : Text → ℕ → ℕ) where
  record Indexed (old new : GcData) (bs : List Text) : Type 0 where
    filter : IsFilter new.index
    grows : Grows old.index new.index
    same_visited : new.visited ≡ old.visited
    tests : (b : Text) → In b bs → bloom_test sha_int new.index b ≡ true

  add_blocks-Indexed :
      (bs : List Text) (gc : GcData) → IsFilter gc.index → Indexed gc (add_blocks sha_int bs gc) bs
  unfolding add_blocks
  add_blocks-Indexed [] gc w = record {
    filter = w;
    grows = Grows-refl gc.index;
    same_visited = refl;
    tests = λ b m. elim m [ ];
  }
  add_blocks-Indexed (b ∷ bs) gc w =
      let h = add_blocks-Indexed bs _ (bloom_add-IsFilter sha_int gc.index b w) in
      record {
        filter = h.filter;
        grows = Grows-trans gc.index _ _ (bloom_add-Grows sha_int gc.index b w) h.grows;
        same_visited = h.same_visited;
        tests = λ x m. first x m h;
      }
    where
      first :
          (x : Text)
          → In x (b ∷ bs)
          → Indexed
              (record gc {
                index = bloom_add sha_int gc.index b;
                traversed_blocks = (add_blocks sha_int (b ∷ []) gc).traversed_blocks;
              })
              (add_blocks sha_int (b ∷ bs) gc)
              bs
          → bloom_test sha_int (add_blocks sha_int (b ∷ bs) gc).index x ≡ true
      first x (here e) h = bloom_test-Grows sha_int x _ _ h.grows (
          subst (λ b. bloom_test sha_int (bloom_add sha_int gc.index b) x ≡ true) e
            (test-bloom_add sha_int gc.index x w))
      first x (there m) h = h.tests x m

  module _ (fs : FsStore) (version : ℕ) where
    -- After the callback on a file that returned TRUE.
    fs_callback_file-Step :
        (id : Text) (gc : GcData)
        → IsFilter gc.index
        → (fs_callback sha_int fs id file_type gc).result ≡ true
        → Step sha_int fs version gc (fs_callback sha_int fs id file_type gc).data'
          × In id (fs_callback sha_int fs id file_type gc).data'.visited
    unfolding fs_callback after_mark add_blocks_to_index
    fs_callback_file-Step id gc w good =
        by_cases (Bool-cases (member id gc.visited)) (Option-cases (get_seafile fs id)) good
      where
        by_cases :
            ((member id gc.visited ≡ true) ⊎ (member id gc.visited ≡ false))
            → ((get_seafile fs id ≡ none) ⊎ ((file : Seafile) × (get_seafile fs id ≡ some file)))
            → (fs_callback sha_int fs id file_type gc).result ≡ true
            → Step sha_int fs version gc (fs_callback sha_int fs id file_type gc).data'
              × In id (fs_callback sha_int fs id file_type gc).data'.visited
        by_cases (inl seen) file good =
            rw seen (Step-refl sha_int fs version gc w, member-In id gc.visited seen)
        by_cases (inr new) (inl missing) good = absurd (ground arith)
        by_cases (inr new) (inr (file, found)) good =
            let h = add_blocks-Indexed file.blk_sha1s (mark sha_int fs id gc) w in
            let now = subst (λ v. In id v) (sym h.same_visited) (here refl) in
            let made : fs_callback sha_int fs id file_type gc ≡ record {
              result = true;
              stop = false;
              data' = add_blocks sha_int file.blk_sha1s (mark sha_int fs id gc);
            } =
              rw (new, found, after_mark, add_blocks_to_index) refl in
            subst (λ c. Step sha_int fs version gc c.data' × In id c.data'.visited) (sym made)
              (
                record {
                  filter = h.filter;
                  grows = h.grows;
                  visited_kept = λ x m. subst (λ v. In x v) (sym h.same_visited) (there m);
                  covered = λ x m. split x file found h (subst (λ v. In x v) h.same_visited m);
                },
                now,
              )
          where
            split :
                (x : Text) (file : Seafile)
                → get_seafile fs id ≡ some file
                → Indexed
                    (mark sha_int fs id gc)
                    (add_blocks sha_int file.blk_sha1s (mark sha_int fs id gc))
                    file.blk_sha1s
                → In x (id ∷ gc.visited)
                → In x gc.visited
                  ⊎ Covers sha_int fs version
                      (add_blocks sha_int file.blk_sha1s (mark sha_int fs id gc))
                      x
            split x file found h (here e) = inr (inl (file, ap (get_seafile fs) e ∙ found, h.tests))
            split x file found h (there m) = inl m

    unfoldable pub FileDone : GcData → Text → GcData → Type 0
    FileDone old id new = Step sha_int fs version old new × ((id ≡ empty_sha1) ⊎ In id new.visited)

    pub traverse_file-Yields :
        (id : Text) (gc : GcData)
        → IsFilter gc.index
        → Yields sha_int fs version
            (FileDone gc id)
            (traverse_file fs version (fs_callback sha_int fs) false id gc)
    unfolding traverse_file FileDone
    traverse_file-Yields id gc w =
        by_cases (Bool-cases (str_eq id empty_sha1))
          (Bool-cases (fs_callback sha_int fs id file_type gc).result)
      where
        by_cases :
            ((str_eq id empty_sha1 ≡ true) ⊎ (str_eq id empty_sha1 ≡ false))
            → (((fs_callback sha_int fs id file_type gc).result ≡ true)
                ⊎ ((fs_callback sha_int fs id file_type gc).result ≡ false))
            → Yields sha_int fs version
                (FileDone gc id)
                (traverse_file fs version (fs_callback sha_int fs) false id gc)
        by_cases (inl e) r =
            rw e (Step-refl sha_int fs version gc w, inl ((str_eq_iff id empty_sha1).0 e))
        by_cases (inr ne) (inr bad) = rw (ne, bad) tt
        by_cases (inr ne) (inl good) =
            let (step, m) = fs_callback_file-Step id gc w good in rw (ne, good) (step, inr m)
