-- ===== src/Commit/Steps.antt =====
-- Threads that commit at once, in kern/sivfs_commit_update_checkpoints.c: the three parts of
-- `sivfs_commit_changes` of different threads interleave, as only Part I holds the commit lock.
use sivfs_public.Base.{
  Bool, ℕ, ◌^◌, ◌≤◌, ◌<◌, ◌≡◌, true, false, Option, some, List, [], ◌∷◌, ◌++◌, Rc, ok,
}
use sivfs_public.Writeset.Entry.{Entry}
use sivfs_public.Log.{LogEntry, Shared, gc_log}
use sivfs_public.Commit.{commit_begin, commit_validate, commit_release}
use sivfs_public.Commit.Conflict.{Logged}
use sivfs_public.Commit.Validate.{Txn, logs}

-- The shared state, and the transactions of its log.
pub record System : Type 0 where
  pub shared : Shared
  pub txns : List Txn

-- An undecided transaction that Part I put into the log.
abbrev pub begun : LogEntry → List Entry → ℕ → Txn
begun dest es state_ts = record { entry = dest; writes = es; state_ts = state_ts }

-- One part of one thread's commit. A snapshot is at most the latest released timestamp when its
-- transaction commits. The log may be collected in between, with a bound that does not fall. Attempts
-- at Part I that fail are left out, and with them the chunks that a failed insertion frees; and so are
-- collections that fail.
pub data CommitStep : System → System → Type 0 where
  begins :
      (s s' : Shared) (txns : List Txn) (kmalloced : Option ℕ) (inserted : Rc)
      (mine dest : LogEntry) (es : List Entry) (state_ts : ℕ)
      → Logged mine es
      → state_ts ≤ s.master_ts
      → s.commit_started_ts < 2 ^ 62
      → commit_begin true kmalloced inserted s mine ≡ (ok, s')
      → s'.log ≡ s.log ++ (dest ∷ [])
      → CommitStep
          (record { shared = s; txns = txns })
          (record { shared = s'; txns = txns ++ (begun dest es state_ts ∷ []) })
  validates :
      (s : Shared) (before : List Txn) (t : Txn) (after : List Txn) (dest : LogEntry)
      → t.entry.commit_status_filled_in ≡ false
      → commit_validate t.state_ts s t.entry ≡ some dest
      → CommitStep
          (record { shared = s; txns = before ++ (t ∷ after) })
          (record {
            shared = record s { log = logs (before ++ (record t { entry = dest } ∷ after)) };
            txns = before ++ (record t { entry = dest } ∷ after);
          })
  releases :
      (s s' : Shared) (before : List Txn) (t : Txn) (after : List Txn)
      → t.entry.commit_status_filled_in ≡ true
      → commit_release t.entry.ts s ≡ some s'
      → CommitStep
          (record { shared = s; txns = before ++ (t ∷ after) })
          (record { shared = s'; txns = before ++ (t ∷ after) })
  collects :
      (s s' : Shared) (gone kept : List Txn) (latest : ℕ) (checked_out : List ℕ) (did did' : Bool)
      (rc : Rc)
      → gc_log ok ok did s latest checked_out ≡ some (rc, did', s')
      → s.master_log_deleted_ts ≤ s'.master_log_deleted_ts
      → s'.log ≡ logs kept
      → CommitStep
          (record { shared = s; txns = gone ++ kept })
          (record { shared = s'; txns = kept })

pub data CommitSteps : System → System → Type 0 where
  none_yet : (a : System) → CommitSteps a a
  followed : (a b c : System) → CommitSteps a b → CommitStep b c → CommitSteps a c
