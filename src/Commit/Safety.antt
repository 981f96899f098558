-- ===== src/Commit/Safety.antt =====
-- Snapshot isolation: what holds however the parts of concurrent commits interleave, in
-- kern/sivfs_commit_update_checkpoints.c.
use sivfs_public.Base.{
  ℕ, suc, arith, ◌+◌, ◌≤◌, ◌<◌, ◌≡◌, sym, ◌∙◌, subst, not, true, false, ◌&&◌, List, ◌∷◌, ◌++◌,
  length, All-middle, ap,
}
use sivfs_public.Log.{Shared}
use sivfs_public.Log.Find.{Consecutive}
use sivfs_public.Commit.Conflict.{clash}
use sivfs_public.Commit.Validate.{Txn}
use sivfs_public.Commit.Steps.{System, CommitSteps}
use sivfs_public.Commit.Isolation.{Decided, IsValid, Isolated-pair, length-logs}
use sivfs_public.Commit.Reach.{Starts, idle, Starts-IsValid, steps-IsValid}

module _ (s : Shared) (starts : Starts s) where
  reached : (a : System) → CommitSteps (idle s) a → (first : ℕ) × IsValid first a
  reached a steps =
      steps-IsValid (suc s.commit_started_ts) (idle s) a steps (Starts-IsValid s starts)

  -- In every state that commits and collections of the log reach, in any interleaving, from a state
  -- whose log is empty (`Starts`): of any two transactions in the log that both committed, where the
  -- later one is decided and read a snapshot from before the earlier one, no two entries start at the
  -- same word of the same file.
  pub commits-isolated :
      (s' : Shared) (before : List Txn) (t : Txn) (middle : List Txn) (u : Txn) (after : List Txn)
      → CommitSteps
          (idle s)
          (record { shared = s'; txns = before ++ (t ∷ (middle ++ (u ∷ after))) })
      → u.entry.commit_status_filled_in ≡ true
      → u.entry.aborted ≡ false
      → t.entry.aborted ≡ false
      → u.state_ts < t.entry.ts
      → clash u.writes t.writes ≡ false
  commits-isolated s' before t middle u after steps filled committed live concurrent =
      ap (λ b. not b && clash u.writes t.writes) (sym live)
      ∙ Isolated-pair before t middle u after (reached _ steps).1.isolated filled committed
          concurrent

  -- In every such state, each transaction in the log that a snapshot at the released timestamp
  -- `master_ts` sees has its commit status filled in.
  pub snapshots-decided :
      (s' : Shared) (before : List Txn) (t : Txn) (after : List Txn)
      → CommitSteps (idle s) (record { shared = s'; txns = before ++ (t ∷ after) })
      → t.entry.ts ≤ s'.master_ts
      → t.entry.commit_status_filled_in ≡ true
  snapshots-decided s' before t after steps =
      All-middle (Decided s'.master_ts) before t after (reached _ steps).1.decided

  -- In every such state, the timestamps of the log follow one another without a gap up to the latest
  -- one started, also where the log was collected, and no timestamp is released that was not started.
  pub log-Consecutive :
      (s' : Shared) (txns : List Txn)
      → CommitSteps (idle s) (record { shared = s'; txns = txns })
      → (first : ℕ) × Consecutive first s'.log
        × (suc s'.commit_started_ts ≡ first + length s'.log)
        × (s'.master_ts ≤ s'.commit_started_ts)
  log-Consecutive s' txns steps =
      let (first, v) = reached (record { shared = s'; txns = txns }) steps in
      (
        first,
        subst (Consecutive first) (sym v.logged) v.consecutive,
        omega (arith, v.next, ap length v.logged, length-logs txns),
        v.released,
      )
