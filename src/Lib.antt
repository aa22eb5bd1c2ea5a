-- ===== src/Lib.antt =====
-- Seafile server: a model of the version-control core of the C server, with theorems about it.
--
-- The program keeps files as blocks, directories as objects named by the SHA-1 of their content,
-- and commits that point to a root directory. The parts modelled here and the files that model
-- them:
--
-- Prelude: shared names, C strings as lists of bytes with strcmp, and Exec, a function on a state
-- that returns a value or -1 and keeps what was written before a failure.
--
-- Bloom (lib/bloom-filter.c): the macros on the bit array, and filters with and without counters.
-- SHA-256 is a parameter (`sha_int`). An index is cut to 32 bits where a bit is written and is not
-- where it is tested, as in the source.
--
-- Fs (common/fs-mgr.c): directory entries, directories and files, reading, building, sorting,
-- looking up and saving a directory, and the traversal of a tree with a callback, under the names
-- of the source. The store is a record of functions from ids to objects; a save adds one object.
-- The serialised form and its SHA-1 are a parameter (`digest`), and so is what the backend refuses
-- to write. Objects stand in the store in decoded form: reading does not repeat the checks of
-- parse_dirent on ids, names and modifiers, and the fields of an entry that the JSON form leaves
-- out (version, name_len, a directory's modifier and size) are taken to be as reading fills them.
--
-- Vc (common/vc-common.c): the names of conflict copies. `strftime` is a parameter.
--
-- Commit (common/commit-mgr.c): the commit object, and the traversals of the history. The local
-- hash table of a traversal is a list of ids, and GLib's insertion into a sorted list is a
-- parameter.
--
-- Merge (common/merge-new.c): `merge_entries`, `merge_directories`, `merge_trees_recursive` and
-- `seaf_merge_trees`, under these names. `merge_entries` returns the array `dents` (names are
-- changed in place) and `dents_out`. The arrays of two or three pointers are the record `Slots`.
-- GLib's `g_list_sort`, the clock, the commit store and the callback are fields of `Env`.
--
-- Gc (server/gc/gc-core.c): the whole file, under the names of the source. `fs_callback` and
-- `traverse_commit` are the callbacks of the two traversals, `gc_v1_repo` collects one repository,
-- and `gc_core_run` goes through a list of them. What a run writes is in the record `World`; the
-- managers, the database and the block backend are in `Env`.
--
-- RepoOp (server/repo-op.c): posting, putting, renaming and deleting files in the tree of a root.
-- The C functions *_recursive share their way down a path and back up, which is `edit_dir`, and
-- differ in what they do to the directory at the end of the path (`post_dents`, `replace_dents`,
-- `rename_dents`, `del_leaf`, `add_leaf`). The recursion is on the names of the path, which
-- `path_names` takes apart as the calls of strchr do. GLib's list functions, g_strsplit, the clock
-- and the digest are in `Env`. Fs.Lookup says where a path leads to, and Fs.Addressed is the
-- invariant of the store: every directory stands under the digest of its content.
--
-- Update (server/repo-op.c, common/branch-mgr.c): gen_new_commit writes a commit of a new root,
-- merges it with the head if that has moved, and updates the branch by compare and swap, up to
-- three more times. The state is `Server`: objects, commits and the row of the branch. What other
-- requests do is a parameter, a function on this state that runs before each update (`meanwhile`)
-- and while the call sleeps (`pause`); so are the outcomes of the database.
-- seaf_repo_manager_del_file and seaf_repo_manager_rename_file put RepoOp and gen_new_commit
-- together; merging virtual repositories after them is a parameter, and computing the size of the
-- repository is left.
--
-- Cdc (common/cdc/cdc.c): file_chunk_cdc, on a list of bytes; the buffer is the list of its valid
-- bytes. The fingerprints, the errors of reads and the writing of a block are in `Env`. The offset
-- of a block is the 32-bit int of the source, widened to 64 bits; counts of blocks and sizes are
-- unbounded numbers. The loop runs on four units of fuel for each byte of the file and two more: a
-- round reads at least a byte, cuts off a block, or scans what was read for the last time.
--
-- Utils (lib/utils.c): hexadecimal text and back, and the test of object ids.
--
-- Range (server/access-file.c): parse_range_val. strtoll is a parameter; positions are 64-bit
-- numbers with the wrap-around written out.
--
-- The recursion of a merge over directories runs on fuel, the depth of the trees; the loop over
-- the entries of one level runs on as many rounds as there are entries. The traversal of a tree
-- runs on the depth of the tree, that of the history on two rounds more than there are commits.
-- Running out is an outcome of its own, `out_of_fuel`. The callback `traverse_commit` of the
-- garbage collection has no such outcome and makes a failure of it; Gc.Ends bounds the depth at
-- which no traversal of a tree is cut short.
--
-- Not modelled: reference counts and memory, log messages, the JSON forms of the objects, the
-- storage backends, and the parts of the server that only move data between the network, the
-- database and these objects.
pub mod Prelude
pub mod Fs
pub mod Commit
pub mod Vc
pub mod Merge
pub mod RepoOp
pub mod Update
pub mod Bloom
pub mod Utils
pub mod Cdc
pub mod Range
pub mod Gc
pub mod Tests
