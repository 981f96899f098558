-- ===== src/Log.antt =====
-- The master log: kern/sivfs_log.h and the log half of kern/sivfs_shared_state.c. The entries are
-- kept oldest first. A `struct sivfs_log_entry*` is the list of the entry and those that its `next`
-- pointers lead to; NULL is the empty list. The radix tree `log_cache` maps the timestamp of each
-- entry in the list to it. What `kmalloc` and `radix_tree_insert` answer is an argument.
pub mod Find
pub mod Chunk
pub mod Gc
pub mod Create
mod Tests
use sivfs_public.Base.{
  ℕ, zero, suc, Bool, true, false, Option, none, some, List, [], ◌∷◌, ◌++◌, ◌++◌, ltb, leb, ◌==◌,
  length, if◌then◌else◌, add64, sub64, Rc, ok, einval, enomem, replicate, ◌/◌, failed as is_error,
}
use Prim.Native.Nat.{min}
use mathlib.Core.Option
use sivfs_public.Common.{invalid_ts, max2}
use sivfs_public.Writeset.{Writeset, empty}

-- `struct sivfs_log_entry`, less its list pointers.
pub record LogEntry : Type 0 where
  pub ts : ℕ
  pub ws : Writeset
  pub aborted : Bool
  pub commit_status_filled_in : Bool
  pub ws_has_metadata : Bool
  pub first_in_chunk : Bool

-- `sivfs_init_log_entry`
abbrev pub init_log_entry : LogEntry
init_log_entry = record {
  ts = invalid_ts;
  ws = empty;
  aborted = false;
  commit_status_filled_in = false;
  ws_has_metadata = false;
  first_in_chunk = false;
}

-- The chunk that `struct sivfs_log` allocates from. Addresses are numbers.
pub record LogChunk : Type 0 where
  pub bytes_remaining_chunk : ℕ
  pub chunk_ptr : ℕ
  pub chunk_start_ptr : ℕ

-- The part of `struct sivfs_shared_state` that commits work on. `kfreed` holds the start of each chunk
-- that was freed because an entry could not be inserted into `log_cache`; the chunks that are freed
-- with the last of their entries are not recorded.
pub record Shared : Type 0 where
  pub log : List LogEntry
  pub chunk : LogChunk
  pub kfreed : List ℕ
  pub master_log_deleted_ts : ℕ
  pub commit_started_ts : ℕ
  pub master_ts : ℕ

-- `radix_tree_lookup` in `log_cache`, with what follows the entry found.
unfoldable pub lookup : ℕ → List LogEntry → List LogEntry
lookup ts [] = []
lookup ts (e ∷ es) = if e.ts == ts then e ∷ es else lookup ts es

-- `sivfs_ts_to_log_entry`; `none` is ENOMEM, its only error.
unfoldable pub ts_to_log_entry : Shared → (ts ts_start : ℕ) → Option (List LogEntry)
ts_to_log_entry s ts ts_start =
    if ltb ts_start s.master_log_deleted_ts then none else some (lookup ts s.log)

-- `sizeof(struct sivfs_log_entry)`
abbrev pub log_entry_size : ℕ
log_entry_size = 56

-- `SIVFS_LOG_CHUNK_SIZE`
abbrev pub log_chunk_size : ℕ
log_chunk_size = 1024

-- A new chunk at `p`, behind the pointer that it begins with.
abbrev pub new_chunk : (p bytes : ℕ) → LogChunk
new_chunk p bytes = record {
  bytes_remaining_chunk = sub64 (max2 log_chunk_size (add64 bytes 8)) 8;
  chunk_ptr = add64 p 8;
  chunk_start_ptr = p;
}

-- The chunk to allocate `bytes` from: the current one if it has room, else a new one, which begins
-- with a pointer to the current one. `kmalloced` is what `kmalloc` answers if it is called.
unfoldable pub choose_chunk : (kmalloced : Option ℕ) → LogChunk → (bytes : ℕ) → Option LogChunk
choose_chunk kmalloced c bytes =
    if ltb c.bytes_remaining_chunk bytes
    then elim kmalloced [ none ↦ none | some p ↦ some (new_chunk p bytes) ]
    else some c

-- What an attempt to allocate a log entry does: it fails and frees no memory, fails and frees a
-- pointer, or gives the address of the entry, its entry, and the chunk that is left.
pub data Allocation : Type 0 where
  no_memory : Allocation
  not_inserted : Rc → (kfreed : ℕ) → Allocation
  allocated : (address : ℕ) → LogEntry → LogChunk → Allocation

abbrev pub entry_bytes : Writeset → ℕ
entry_bytes ws = add64 log_entry_size ws.size_bytes

-- The entry that is set up at an address: zeroed, with room for the writeset.
abbrev pub fresh_entry : Writeset → Bool → LogEntry
fresh_entry ws first = record init_log_entry {
  ws = record {
    capacity_bytes = ws.size_bytes;
    size_bytes = 0;
    entries = replicate (ws.size_bytes / 8) 0;
  };
  first_in_chunk = first;
}

unfoldable pub allocate_in : (inserted : Rc) → Writeset → Option LogChunk → Allocation
allocate_in inserted ws none = no_memory
allocate_in ok ws (some c) =
    allocated c.chunk_ptr (fresh_entry ws (c.chunk_ptr == add64 c.chunk_start_ptr 8)) (record c {
      bytes_remaining_chunk = sub64 c.bytes_remaining_chunk (entry_bytes ws);
      chunk_ptr = add64 (add64 c.chunk_ptr log_entry_size) ws.size_bytes;
    })
allocate_in rc ws (some c) = not_inserted rc c.chunk_start_ptr

-- `_sivfs_allocate_log_insert_log_cache` with SIVFS_FIGURE_SEQLOG_MODE as configured, the sequential
-- log. `inserted` is what `radix_tree_insert` answers.
unfoldable pub allocate_log :
    (kmalloced : Option ℕ) → (inserted : Rc) → LogChunk → Writeset → Allocation
unfolding choose_chunk allocate_in
allocate_log kmalloced inserted c ws =
    allocate_in inserted ws (choose_chunk kmalloced c (entry_bytes ws))

unfoldable pub created : Shared → Allocation → Rc × LogEntry × Shared
created s no_memory = (enomem, init_log_entry, s)
created s (not_inserted rc p) = (rc, init_log_entry, record s { kfreed = p ∷ s.kfreed })
created s (allocated address e c) = (ok, e, record s { log = s.log ++ (e ∷ []); chunk = c })

-- `sivfs_create_log_entry`: the entry allocated becomes the latest of the log, and is returned.
unfoldable pub create_log_entry :
    (kmalloced : Option ℕ) → (inserted : Rc) → Shared → Writeset → Rc × LogEntry × Shared
create_log_entry kmalloced inserted s ws = created s (allocate_log kmalloced inserted s.chunk ws)

-- One batch of `sivfs_delete_log`: of the oldest `room` entries, those before `stop_ts` are taken off.
-- The tree is iterated in the order of timestamps, and the first entry from `stop_ts` on ends it.
unfoldable pub delete_batch : (room : ℕ) → (stop_ts : ℕ) → List LogEntry → List LogEntry
delete_batch zero stop_ts es = es
delete_batch (suc room) stop_ts [] = []
delete_batch (suc room) stop_ts (e ∷ es) =
    if leb stop_ts e.ts then e ∷ es else delete_batch room stop_ts es

-- `DELETE_BATCH`
abbrev pub batch_size : ℕ
batch_size = 128

-- Batches until one deletes nothing. Each other batch makes the log shorter, so as many rounds as
-- there are entries, and one more, are enough; `none` is a run out of fuel.
unfoldable pub delete_batches :
    (fuel : ℕ) → (stop_ts : ℕ) → Bool → List LogEntry → Option (Bool × List LogEntry)
delete_batches zero stop_ts did es = none
delete_batches (suc fuel) stop_ts did es =
    elim (length (delete_batch batch_size stop_ts es) == length es) [
      | true ↦ some (did, es)
      | false ↦ delete_batches fuel stop_ts true (delete_batch batch_size stop_ts es)
    ]

-- The other effects of `sivfs_delete_log`: the unfinished chunk is given up when all goes, and the
-- bound is remembered.
unfoldable pub after_delete : Shared → (stop_ts : ℕ) → Bool × List LogEntry → Bool × Shared
after_delete s stop_ts (did, rest) = (
  did,
  record s {
    log = rest;
    master_log_deleted_ts = stop_ts;
    chunk =
        if stop_ts == invalid_ts then record (s.chunk) { bytes_remaining_chunk = 0 } else s.chunk;
  },
)

-- `sivfs_delete_log`. The first result is what it leaves in `*did_delete`.
unfoldable pub delete_log : (did_delete : Bool) → Shared → (stop_ts : ℕ) → Option (Bool × Shared)
delete_log did s stop_ts =
    Option.map (after_delete s stop_ts) (delete_batches (suc (length s.log)) stop_ts did s.log)

-- The bound of `sivfs_gc_log`: the least of the latest published checkpoint and the versions that
-- threads have checked out.
unfoldable pub gc_stop_ts : (latest_checkpoint : ℕ) → (checked_out : List ℕ) → ℕ
gc_stop_ts stop [] = stop
gc_stop_ts stop (v ∷ vs) = gc_stop_ts (min stop v) vs

-- `sivfs_gc_log`, with what `sivfs_new_stack` and `sivfs_get_checked_out_versions` answer, and the
-- versions that the latter collects. The Boolean is `*did_gc_out`, which an error leaves as it was.
unfoldable pub gc_log :
    (new_stack got_versions : Rc)
    → (did_gc_out : Bool) → Shared
    → (latest_checkpoint : ℕ) → (checked_out : List ℕ) → Option (Rc × Bool × Shared)
gc_log new_stack got_versions did_gc_out s latest checked_out =
    if is_error new_stack
    then some (new_stack, did_gc_out, s)
    else if is_error got_versions
    then some (got_versions, did_gc_out, s)
    else Option.map (λ (r : Bool × Shared). (ok, r.0, r.1))
        (delete_log false s (gc_stop_ts latest checked_out))
