-- ===== src/Samples.antt =====
-- Log entries and shared states that several modules of tests use.
use sivfs_public.Base.{
  ℕ, ◌+◌, ◌-◌, Bool, true, false, refl, All, List, [], ◌∷◌, ◌++◌, arith, replicate,
}
use sivfs_public.Writeset.{Writeset}
use sivfs_public.Writeset.Entry.{Entry, words, plain}
use sivfs_public.Log.{LogEntry, Shared, init_log_entry}
use sivfs_public.Commit.Conflict.{Logged}
use sivfs_public.Commit.Validate.{Txn}
use sivfs_public.Page.Replay.{IsReadable}

-- One word of file 9.
abbrev pub word_at : ℕ → ℕ → Entry
word_at file_offset value = record {
  ino = 9;
  file_offset = file_offset;
  address = 0;
  stream_control = 0;
  value = value;
  more = [];
}

-- The writeset of a transaction that writes one word.
abbrev pub one_word : Entry → Writeset
one_word e = record { capacity_bytes = 160; size_bytes = 40; entries = words e ++ replicate 15 0 }

-- What it becomes in the log.
abbrev pub logged : Entry → ℕ → Bool → Bool → LogEntry
logged e ts aborted filled = record init_log_entry {
  ts = ts;
  ws = record { capacity_bytes = 40; size_bytes = 40; entries = words e };
  aborted = aborted;
  commit_status_filled_in = filled;
}

abbrev pub written : Entry → LogEntry
written e = record init_log_entry { ws = one_word e }

pub written-Logged : (o v : ℕ) → Logged (written (word_at o v)) (word_at o v ∷ [])
written-Logged o v = record {
  holds = record {
    valid = record {
      size_in = omega arith;
      aligned = omega arith;
      buffer = omega arith;
      small = omega arith;
    };
    holds = refl;
  };
  entries = (plain refl refl, tt);
}

pub logged-Logged :
    (o v ts : ℕ) (a f : Bool) → Logged (logged (word_at o v) ts a f) (word_at o v ∷ [])
logged-Logged o v ts a f = record {
  holds = record {
    valid = record {
      size_in = omega arith;
      aligned = omega arith;
      buffer = omega arith;
      small = omega arith;
    };
    holds = refl;
  };
  entries = (plain refl refl, tt);
}

-- A shared state with a chunk of 1024 bytes of which the first 16 are in use, and its log.
abbrev pub shared_with : List LogEntry → (used commit_started_ts master_ts : ℕ) → Shared
shared_with log used commit_started_ts master_ts = record {
  log = log;
  chunk = record {
    bytes_remaining_chunk = 1008 - used;
    chunk_ptr = 4112 + used;
    chunk_start_ptr = 4096;
  };
  kfreed = [];
  master_log_deleted_ts = 0;
  commit_started_ts = commit_started_ts;
  master_ts = master_ts;
}

abbrev pub left : Entry
left = word_at 0 5

abbrev pub right : Entry
right = word_at 8 6

abbrev pub txn : Entry → ℕ → Bool → Txn
txn e ts filled = record { entry = logged e ts false filled; writes = e ∷ []; state_ts = 0 }

-- Both entries committed; they write words 0 and 1 of file 9.
abbrev pub both : Shared
both = shared_with (logged left 1 false true ∷ logged right 2 false true ∷ []) 192 2 2

abbrev pub both_txns : List Txn
both_txns = txn left 1 true ∷ txn right 2 true ∷ []

pub both-IsReadable : All IsReadable both_txns
both-IsReadable = (
  record { logged = logged-Logged 0 5 1 false true; aligned = (refl, tt) },
  (record { logged = logged-Logged 8 6 2 false true; aligned = (refl, tt) }, tt),
)
