-- ===== src/Commit/Tests.antt =====
-- Tests of kern/sivfs_commit_update_checkpoints.c at concrete inputs.
use sivfs_public.Base.{
  enomem, ℕ, ◌+◌, ◌≤◌, ◌≡◌, refl, true, false, some, none, List, [], ◌∷◌, arith, subst, ok, eintr,
}
use sivfs_public.Writeset.{copy, to_stream_info, wse_size}
use sivfs_public.Walk.{Ended, walk, walk_all}
use sivfs_public.Walk.Fold.{header}
use sivfs_public.Log.{
  Shared, lookup, ts_to_log_entry, choose_chunk, allocate_in, allocate_log, created,
  create_log_entry,
}
use sivfs_public.Log.{gc_log, gc_stop_ts, delete_log, delete_batches, delete_batch, after_delete}
use sivfs_public.Log.Find.{Consecutive}
use sivfs_public.Commit.{
  ws_ent_conflicts, conflicts_body, ws_ent_conflicts_log, on_conflict, validate_body,
  after_validate, validate_against, at_end, validate_loop, validate_found, validate, commit_begin,
  commit_validate, commit_release,
}
use sivfs_public.Commit.Conflict.{clash, ws_ent_conflicts_log-writes_to, validate_against-clash}
use sivfs_public.Commit.Validate.{Txn, validate-any_clash}
use sivfs_public.Commit.Begin.{Begun, commit_begin-Begun}
use sivfs_public.Commit.Steps.{
  System, begins, validates, releases, collects, CommitSteps, none_yet, followed,
}
use sivfs_public.Commit.Reach.{Starts, idle}
use sivfs_public.Samples.{
  logged, written, written-Logged, logged-Logged, shared_with, left, right, txn,
}
use sivfs_public.Commit.Progress.{Released, commits-Released}
use sivfs_public.Commit.Safety.{commits-isolated, snapshots-decided, log-Consecutive}

begin-first :
    commit_begin true none ok (shared_with [] 0 0 0) (written left)
    ≡ (ok, shared_with (logged left 1 false false ∷ []) 96 1 0)
unfolding commit_begin create_log_entry created allocate_log allocate_in choose_chunk copy
begin-first = refl

begin-second :
    commit_begin true none ok (shared_with (logged left 1 false false ∷ []) 96 1 0) (written right)
    ≡ (ok, shared_with (logged left 1 false false ∷ logged right 2 false false ∷ []) 192 2 0)
unfolding commit_begin create_log_entry created allocate_log allocate_in choose_chunk copy
begin-second = refl

-- A signal during the wait for the lock leaves all as it was.
begin-signal :
    commit_begin false none ok (shared_with [] 0 0 0) (written left) ≡ (eintr, shared_with [] 0 0 0)
unfolding commit_begin
begin-signal = refl

-- The entry would fit into the current chunk, but cannot be inserted: the chunk of the first entry is
-- freed.
begin-frees_chunk :
    commit_begin true none enomem
      (shared_with (logged left 1 false false ∷ []) 96 1 0)
      (written right)
    ≡ (enomem, record (shared_with (logged left 1 false false ∷ []) 96 1 0) { kfreed = 4096 ∷ [] })
unfolding commit_begin create_log_entry created allocate_log allocate_in choose_chunk copy
begin-frees_chunk = refl

abbrev both_begun : Shared
both_begun = shared_with (logged left 1 false false ∷ logged right 2 false false ∷ []) 192 2 0

validate-first :
    commit_validate 0 both_begun (logged left 1 false false) ≡ some (logged left 1 false true)
unfolding commit_validate
validate-first = refl

abbrev first_decided : Shared
first_decided = shared_with (logged left 1 false true ∷ logged right 2 false false ∷ []) 192 2 0

validate-second :
    commit_validate 0 first_decided (logged right 2 false false) ≡ some (logged right 2 false true)
unfolding commit_validate validate validate_found validate_loop validate_against at_end
    after_validate validate_body on_conflict ws_ent_conflicts_log conflicts_body ws_ent_conflicts
    ts_to_log_entry lookup walk walk_all to_stream_info wse_size
validate-second = refl

-- The second transaction aborts if it writes the word that the first wrote.
validate-clash :
    commit_validate 0
      (shared_with (logged left 1 false true ∷ logged left 2 false false ∷ []) 192 2 0)
      (logged left 2 false false)
    ≡ some (logged left 2 true true)
unfolding commit_validate validate validate_found validate_loop validate_against at_end
    after_validate validate_body on_conflict ws_ent_conflicts_log conflicts_body ws_ent_conflicts
    ts_to_log_entry lookup walk walk_all to_stream_info wse_size
validate-clash = refl

release-first : commit_release 1 first_decided ≡ some (record first_decided { master_ts = 1 })
unfolding commit_release
release-first = refl

release-second_waits : commit_release 2 first_decided ≡ none
unfolding commit_release
release-second_waits = refl

abbrev system : Shared → List Txn → System
system s txns = record { shared = s; txns = txns }

run-begins :
    CommitSteps
      (idle (shared_with [] 0 0 0))
      (system both_begun (txn left 1 false ∷ txn right 2 false ∷ []))
run-begins =
    followed _ _ _
      (followed _ _ _ (none_yet _) (
        begins (shared_with [] 0 0 0) _ [] none ok (written left) (logged left 1 false false)
          (left ∷ []) 0 (written-Logged 0 5) (omega arith) (omega arith) begin-first refl))
      (begins _ both_begun (txn left 1 false ∷ []) none ok (written right)
        (logged right 2 false false) (right ∷ []) 0 (written-Logged 8 6) (omega arith) (omega arith)
        begin-second refl)

run-first_decided :
    CommitSteps
      (idle (shared_with [] 0 0 0))
      (system first_decided (txn left 1 true ∷ txn right 2 false ∷ []))
run-first_decided = followed _ _ _ run-begins (
    validates both_begun [] (txn left 1 false) (txn right 2 false ∷ []) (logged left 1 false true)
      refl validate-first)

run-both_decided : CommitSteps (idle (shared_with [] 0 0 0)) (
    system
      (shared_with (logged left 1 false true ∷ logged right 2 false true ∷ []) 192 2 0)
      (txn left 1 true ∷ txn right 2 true ∷ []))
run-both_decided = followed _ _ _ run-first_decided (
    validates first_decided (txn left 1 true ∷ []) (txn right 2 false) []
      (logged right 2 false true) refl validate-second)

run-released :
    CommitSteps
      (idle (shared_with [] 0 0 0))
      (system (record first_decided { master_ts = 1 }) (txn left 1 true ∷ txn right 2 false ∷ []))
run-released =
    followed _ _ _ run-first_decided
      (releases first_decided _ [] (txn left 1 true) (txn right 2 false ∷ []) refl release-first)

abbrev collected : Shared
collected = record (shared_with (logged right 2 false false ∷ []) 192 2 1) {
  master_log_deleted_ts = 2;
}

-- Collecting the log up to version 2 takes off the first entry.
collect-first :
    gc_log ok ok false (record first_decided { master_ts = 1 }) 2 (4 ∷ [])
    ≡ some (ok, true, collected)
unfolding gc_log gc_stop_ts delete_log delete_batches delete_batch after_delete
collect-first = refl

run-collected :
    CommitSteps (idle (shared_with [] 0 0 0)) (system collected (txn right 2 false ∷ []))
run-collected = followed _ _ _ run-released (
    collects (record first_decided { master_ts = 1 }) collected (txn left 1 true ∷ [])
      (txn right 2 false ∷ []) 2 (4 ∷ []) false true ok collect-first (omega arith) refl)

empty-Starts : Starts (shared_with [] 0 0 0)
empty-Starts = record { no_log = refl; caught_up = refl; all_deleted = omega arith }

commits-isolated_example : clash (right ∷ []) (left ∷ []) ≡ false
commits-isolated_example =
    commits-isolated (shared_with [] 0 0 0) empty-Starts _ [] (txn left 1 true) []
      (txn right 2 true) [] run-both_decided refl refl refl (omega arith)

snapshots-decided_example : true ≡ true
snapshots-decided_example =
    snapshots-decided (shared_with [] 0 0 0) empty-Starts _ [] (txn left 1 true)
      (txn right 2 false ∷ []) run-released (omega arith)

commits-Released_example :
    Released (system first_decided (txn left 1 true ∷ txn right 2 false ∷ []))
commits-Released_example =
    commits-Released (shared_with [] 0 0 0) empty-Starts _ run-first_decided (omega arith)
      (omega arith)

log-Consecutive_example :
    (first : ℕ) × Consecutive first (logged right 2 false false ∷ []) × (3 ≡ first + 1) × (1 ≤ 2)
log-Consecutive_example =
    log-Consecutive (shared_with [] 0 0 0) empty-Starts collected (txn right 2 false ∷ [])
      run-collected

ws_ent_conflicts_log-writes_to_example :
    ws_ent_conflicts_log (header left) (logged right 2 false true) ≡ Ended.done false
ws_ent_conflicts_log-writes_to_example =
    ws_ent_conflicts_log-writes_to left (logged right 2 false true) (right ∷ [])
      (logged-Logged 8 6 2 false true)

validate_against-clash_example :
    validate_against (logged left 2 false false) (logged left 1 false true)
    ≡ some (logged left 2 true false)
validate_against-clash_example =
    validate_against-clash (logged left 2 false false) (logged left 1 false true) (left ∷ [])
      (left ∷ []) refl (logged-Logged 0 5 2 false false) (logged-Logged 0 5 1 false true)

validate-any_clash_example :
    validate both_begun (logged right 2 false false) 1 1 ≡ some (logged right 2 false false)
validate-any_clash_example =
    validate-any_clash (logged right 2 false false) (right ∷ []) refl
      (logged-Logged 8 6 2 false false) both_begun (txn left 1 false ∷ txn right 2 false ∷ []) 1 1 1
      refl (refl, (refl, tt))
      (logged-Logged 0 5 1 false false, (logged-Logged 8 6 2 false false, tt)) (omega arith)
      (omega arith) (omega arith) (omega arith)

commit_begin-Begun_example :
    Begun true none ok
      (shared_with [] 0 0 0)
      (written left)
      (ok, shared_with (logged left 1 false false ∷ []) 96 1 0)
commit_begin-Begun_example =
    subst (Begun true none ok (shared_with [] 0 0 0) (written left)) begin-first
      (commit_begin-Begun true none ok (shared_with [] 0 0 0) (written left) (omega arith))
