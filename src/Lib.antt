-- ===== src/Lib.antt =====
-- sivfs is a filesystem for Linux whose files are shared memory with transactions under snapshot
-- isolation. A thread collects its writes in a writeset; a commit puts the writeset into the master
-- log under the next timestamp, validates it against the transactions since its snapshot, and
-- releases the timestamp.
--
-- Files and the code that they model:
--   Common       kern/sivfs_common.h, kern/sivfs_types.h: max2/max3, the dirty bit of a timestamp
--   Stack        kern/sivfs_stack.h: the growing array of pointers
--   Writeset     kern/sivfs_writeset.h: entries, the stream control word, the growing buffer
--   Walk         the loop over the entries of a writeset, which sivfs_ws_ent_conflicts_log,
--                _sivfs_validate and others write out, as one loop over a body
--   Log          kern/sivfs_log.h, kern/sivfs_shared_state.c, kern/sivfs_gc_log.c: entries, chunks,
--                lookup by timestamp, deletion
--   Commit       kern/sivfs_commit_update_checkpoints.c: sivfs_ws_ent_conflicts_log,
--                _sivfs_validate, sivfs_validate and sivfs_commit_changes
--   Page         kern/sivfs_commit_update_checkpoints.c: my_sivfs_update_page;
--                kern/sivfs_shared_state.h: sivfs_find_first_write
--   Update       kern/sivfs_workingset.c: sivfs_find_get_wspg;
--                kern/sivfs_commit_update_checkpoints.c: sivfs_update, sivfs_update_direct_access
--   Block        kern/alloc/sivfs_allocation.h, kern/alloc/sivfs_allocation.c: the blocks of a file,
--                allocation, frees, coalescing, and what commit and abort do with them
--   Reclaim      kern/sivfs_gc_checkpoints.c, kern/sivfs_checkpoints.h, kern/sivfs_state.c: which pages
--                and inodes of old checkpoints are freed, and which wait for a version
--   Checkpoint   kern/sivfs_checkpoints.h, kern/sivfs_checkpoints.c: the tree of checkpoints by timestamp,
--                and the way from the root of a checkpoint to a page
--   Make         kern/sivfs_make_checkpoint.c, kern/sivfs_checkpoints.c: a new checkpoint from the log, by
--                copy on write of the pages of the last one; reading a page; the zero pages
--   Samples      log entries and states that tests use
--   Base         shared names: tests on numbers, lists, 64-bit words, return codes
--
-- State and operations. A C struct is a record, a function that changes it takes the state and
-- returns the new one with its return code (Rc). Memory is a list of 64-bit words and sizes are in
-- bytes, as in the code; arithmetic on size_t is add64, sub64 and mul64, which wrap. What kmalloc,
-- kzalloc, vzalloc, radix_tree_insert and the wait for a lock answer is an argument; allocations are
-- assumed to serve at most 2 ^ 47 (IsBounded), the size of the address space. The log is the list of
-- its entries, oldest first, and the radix tree log_cache maps the timestamp of each to it.
-- `sivfs_commit_changes` is three functions, commit_begin (under the commit lock), commit_validate
-- and commit_release, and Commit.Steps lets those of different threads, and collections of the log,
-- interleave in any order; a start or a collection that fails is not a step.
--
-- The chunks of the block allocator are named by their addresses; a store maps an address to a chunk,
-- and another a page number to what starts and ends on the page. Block.Tiling says that the chunks
-- fill a file, one after another, up to the wilderness, which has no end.
--
-- A transaction of the log is a Txn: its log entry, the entries that its writeset holds, and the
-- snapshot it read; theorems about the log speak of a list of them with consecutive timestamps. A
-- page is its list of 512 words.
--
-- A checkpoint is a tree of pages, named by numbers, that shares what did not change with the one before.
-- Make.Nodes says what page stands at the end of a path of offsets; the entries of tables are read
-- without the flag bits of the hardware, and a new page never has the number of an old one. A page of a
-- checkpoint that Make reads is the page that a page fault (Page) starts from.
--
-- Fuel: the walk over a writeset gets one round more than the writeset has bytes in use, and each
-- entry takes at least 40; deletion gets one round more than the log has entries, and each round but
-- the last removes one; a loop that coalesces needs one round more than there are chunks on its side,
-- since each round but the last removes one; the loop of the collector of checkpoints
-- needs more than there are entries obsoleted or without a version, and more than any group has whose
-- version is not blocked. Theorems state that the functions return.
--
-- Not modelled: Linux itself (the virtual filesystem, page tables, locks, threads, radix trees), the
-- entry points by ioctl, statistics, write throttling, the non-sequential log; the loop
-- of the thread that makes checkpoints, and freeing a whole checkpoint at shutdown; and the heap of the
-- user library.
pub mod Base
pub mod Common
pub mod Stack
pub mod Writeset
pub mod Walk
pub mod Log
pub mod Commit
pub mod Page
pub mod Update
pub mod Block
pub mod Reclaim
pub mod Checkpoint
pub mod Make
pub mod Samples
