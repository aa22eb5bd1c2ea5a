-- ===== src/Gc/Index.antt =====
-- server/gc/gc-core.c: the index of live blocks and the callbacks that fill it. The table `visited`
-- of a run is a list; it is never NULL here, since every caller creates it.
use seafile_server_learn.Prelude.{
  ℕ, ◌+◌, ◌-◌, ◌*◌, ◌%◌, ◌^◌, Bool, true, false, ◌&&◌, Option, none, some, List, [], ◌∷◌,
  if◌then◌else◌, ltb, ◌==◌,
}
use seafile_server_learn.Prelude.Text.{Text}
use seafile_server_learn.Prelude.Int.{ℤ, pos, negsuc}
use seafile_server_learn.Prelude.Exec.{Outcome, ok, failed, out_of_fuel}
use seafile_server_learn.Bloom.Filter.{Bloom, bloom_create, bloom_add}
use seafile_server_learn.Fs.Store.{FsStore, get_seafile}
use seafile_server_learn.Fs.Traverse.{
  ObjType, invalid_type, file_type, link_type, dir_type, Called, traverse_tree,
}
use seafile_server_learn.Commit.Object.{SeafCommit}
use seafile_server_learn.Commit.Traverse.{member}

abbrev pub max : ℕ → ℕ → ℕ
max a b = if ltb b a then a else b

abbrev pub min : ℕ → ℕ → ℕ
min a b = if ltb a b then a else b

-- `total_blocks << 2` in 64 bits, at least 2^13 and at most MAX_BF_SIZE bits.
unfoldable pub gc_index_size : ℕ → ℕ
gc_index_size total_blocks = min (max (total_blocks * 4 % 2 ^ 64) (2 ^ 13)) (2 ^ 29)

unfoldable pub alloc_gc_index : (ℕ → Bool) → ℕ → Option Bloom
unfolding gc_index_size
alloc_gc_index memory total_blocks = bloom_create memory (gc_index_size total_blocks) (pos 3) 0

pub record GcData : Type 0 where
  pub index : Bloom
  pub visited : List Text
  pub traversed_head : Bool
  pub traversed_commits : ℕ
  pub traversed_blocks : ℕ
  pub traversed_fs_objs : ℕ

-- A 64-bit pattern as a `gint64`.
abbrev pub to_gint64 : ℕ → ℤ
to_gint64 n = if ltb n (2 ^ 63) then pos n else negsuc (2 ^ 64 - 1 - n)

abbrev pub int_ltb : ℤ → ℤ → Bool
int_ltb (pos a) (pos b) = ltb a b
int_ltb (pos a) (negsuc b) = false
int_ltb (negsuc a) (pos b) = true
int_ltb (negsuc a) (negsuc b) = ltb b a

abbrev pub int_is_zero : ℤ → Bool
int_is_zero (pos a) = a == 0
int_is_zero (negsuc a) = false

module _ (sha_int : Text → ℕ → ℕ) where
  -- The loop over the blocks of a file.
  unfoldable pub add_blocks : List Text → GcData → GcData
  add_blocks [] gc = gc
  add_blocks (b ∷ bs) gc = add_blocks bs (record gc {
    index = bloom_add sha_int gc.index b;
    traversed_blocks = (gc.traversed_blocks + 1) % 2 ^ 64;
  })

  module _ (fs : FsStore) where
    -- `none` for -1
    unfoldable pub add_blocks_to_index : GcData → Text → Option GcData
    unfolding add_blocks
    add_blocks_to_index gc file_id = elim (get_seafile fs file_id) [
      | none ↦ none
      | some seafile ↦ some (add_blocks seafile.blk_sha1s gc)
    ]

    -- The object enters the table and is counted.
    abbrev pub mark : Text → GcData → GcData
    mark obj_id gc = record gc {
      visited = obj_id ∷ gc.visited;
      traversed_fs_objs = (gc.traversed_fs_objs + 1) % 2 ^ 64;
    }

    unfoldable pub after_mark : Text → ObjType → GcData → Called GcData
    unfolding add_blocks_to_index
    after_mark obj_id invalid_type gc = record { result = true; stop = false; data' = gc }
    after_mark obj_id link_type gc = record { result = true; stop = false; data' = gc }
    after_mark obj_id dir_type gc = record { result = true; stop = false; data' = gc }
    after_mark obj_id file_type gc = elim (add_blocks_to_index gc obj_id) [
      | none ↦ record { result = false; stop = false; data' = gc }
      | some data' ↦ record { result = true; stop = false; data' = data' }
    ]

    unfoldable pub fs_callback : Text → ObjType → GcData → Called GcData
    unfolding after_mark
    fs_callback obj_id type gc =
        if member obj_id gc.visited
        then record { result = true; stop = true; data' = gc }
        else after_mark obj_id type (mark obj_id gc)

    module _ (truncate_time : ℤ) where
      -- Whether the traversal stops below this commit.
      unfoldable pub stops_at : SeafCommit → GcData → Bool
      stops_at commit gc =
          if int_is_zero truncate_time
          then true
          else int_ltb (pos 0) truncate_time
            && int_ltb (to_gint64 commit.ctime) truncate_time
            && gc.traversed_head

      abbrev pub started : GcData → GcData
      started gc = record gc {
        traversed_head = true;
        traversed_commits = (gc.traversed_commits + 1) % 2 ^ 32;
        traversed_fs_objs = 0;
      }

      -- The result of the callback, from that of traverse_tree. A traversal that is cut short for lack of
      -- fuel, which the source does not know, counts as failed.
      unfoldable pub tree_result : Outcome (Unit {0}) → Bool
      tree_result (ok a) = true
      tree_result failed = false
      tree_result out_of_fuel = false

      -- `depth` is the fuel of the traversal of the tree.
      unfoldable pub traverse_commit : ℕ → ℕ → SeafCommit → GcData → Called GcData
      unfolding fs_callback stops_at tree_result
      traverse_commit depth version commit gc =
          let r = traverse_tree fs version fs_callback false depth commit.root_id (started gc) in
          record { result = tree_result r.0; stop = stops_at commit gc; data' = r.1 }
