-- ===== src/Log/Tests.antt =====
-- Tests of kern/sivfs_shared_state.c and kern/sivfs_gc_log.c at concrete inputs.
use sivfs_public.Base.{Rc, enomem, ℕ, ◌≡◌, refl, Bool, true, false, some, [], ◌∷◌, arith, ok}
use sivfs_public.Writeset.{Writeset}
use sivfs_public.Log.{
  LogEntry, LogChunk, Shared, init_log_entry, ts_to_log_entry, delete_log, gc_log, delete_batch,
  delete_batches, after_delete, gc_stop_ts,
}
use sivfs_public.Log.Find.{ts_to_log_entry-drop}
use sivfs_public.Log.Gc.{has_before, delete_log-drop_before, gc_log-keeps}

abbrev at_ts : ℕ → LogEntry
at_ts ts = record init_log_entry { ts = ts }

abbrev chunk : LogChunk
chunk = record { bytes_remaining_chunk = 1016; chunk_ptr = 4104; chunk_start_ptr = 4096 }

-- A log of three entries, from timestamp 4 on.
abbrev three : Shared
three = record {
  log = at_ts 4 ∷ at_ts 5 ∷ at_ts 6 ∷ [];
  chunk = chunk;
  kfreed = [];
  master_log_deleted_ts = 4;
  commit_started_ts = 6;
  master_ts = 6;
}

abbrev words_5 : Writeset
words_5 = record { capacity_bytes = 40; size_bytes = 40; entries = 0 ∷ 0 ∷ 8 ∷ 0 ∷ 1 ∷ [] }

delete-two :
    delete_log false three 6
    ≡ some (true, record three { log = at_ts 6 ∷ []; master_log_deleted_ts = 6 })
unfolding delete_log delete_batches delete_batch after_delete
delete-two = refl

-- A thread at version 5 keeps the entries that it still needs.
gc-keeps_version :
    gc_log ok ok false three 6 (5 ∷ 6 ∷ [])
    ≡ some (ok, true, record three { log = at_ts 5 ∷ at_ts 6 ∷ []; master_log_deleted_ts = 5 })
unfolding gc_log gc_stop_ts delete_log delete_batches delete_batch after_delete
gc-keeps_version = refl

ts_to_log_entry-drop_example : ts_to_log_entry three 5 5 ≡ some (at_ts 5 ∷ at_ts 6 ∷ [])
ts_to_log_entry-drop_example =
    ts_to_log_entry-drop three 4 5 5 (refl, (refl, (refl, tt))) (omega arith) (omega arith)

delete_log-drop_before_example :
    (s' : Shared) × (delete_log false three 6 ≡ some (true, s'))
    × (s'.log ≡ at_ts 6 ∷ [])
    × (has_before 6 s'.log ≡ false)
    × (s'.master_log_deleted_ts ≡ 6)
    × (s'.commit_started_ts ≡ 6)
    × (s'.master_ts ≡ 6)
delete_log-drop_before_example = delete_log-drop_before false three 6

gc_log-keeps_example :
    (r : Rc × Bool × Shared) × (gc_log ok ok false three 6 (5 ∷ []) ≡ some r)
    × (r.0 ≡ ok)
    × (ts_to_log_entry r.2 6 5 ≡ ts_to_log_entry three 6 5)
gc_log-keeps_example =
    gc_log-keeps ok ok false three 6 (5 ∷ []) 1 6 5 (omega arith) (omega arith) (omega arith)
      (omega arith)

-- Without memory for the versions nothing is collected.
gc-no_memory : gc_log ok enomem false three 6 [] ≡ some (enomem, false, three)
unfolding gc_log
gc-no_memory = refl

abbrev full : LogChunk
full = record chunk { bytes_remaining_chunk = 90; chunk_ptr = 5030 }
