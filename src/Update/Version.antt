-- ===== src/Update/Version.antt =====
-- `sivfs_update` of kern/sivfs_commit_update_checkpoints.c as a whole, and `sivfs_update_direct_access`.
use sivfs_public.Base.{
  ℕ, suc, ◌+◌, ◌-◌, ◌^◌, ◌≤◌, ◌<◌, ◌≡◌, refl, sym, ◌∙◌, ap, subst, ◌⊎◌, inl, inr, Bool, true, false,
  not, if-cases, Option, some, List, arith, ltb, le→ltb, ◌==◌, ==_ne, if◌then◌else◌, length,
  length-drop, take, drop, All, All-drop, add64, Rc, ok, failed, einval,
}
use sivfs_public.Common.{invalid_ts}
use sivfs_public.Walk.{done}
use sivfs_public.Log.{Shared, ts_to_log_entry}
use sivfs_public.Log.Find.{Consecutive, Consecutive-drop, ts_to_log_entry-drop}
use sivfs_public.Commit.Validate.{Txn, logs, logs-drop}
use sivfs_public.Page.Scan.{between}
use sivfs_public.Page.First.{IsLogged}
use sivfs_public.Page.Replay.{replay}
use sivfs_public.Update.{
  AnonInode, ThreadState, apply_logs_loop, update_done, update_found, update, update_direct_access,
}
use sivfs_public.Update.Write.{IsPlain}
use sivfs_public.Update.Apply.{Applied, at_page, unskipped, loop-replay, apply_logs-loop}

update-scans :
    (s : Shared) (next_ts skip_ts : ℕ) (state : ThreadState)
    → state.direct_access ≡ false
    → state.ts < next_ts
    → next_ts < 2 ^ 63
    → update s next_ts skip_ts state
      ≡ update_found next_ts skip_ts state (ts_to_log_entry s (suc state.ts) (suc state.ts))
unfolding update
update-scans s next_ts skip_ts state shared o small =
    ap on_shared shared
    ∙ rw
        (
          ==_ne next_ts (2 ^ 64 - 1) (omega (arith, small)),
          ==_ne state.ts (2 ^ 64 - 1) (omega (arith, small, o)),
        )
        (rw (le→ltb (add64 state.ts 1) next_ts (omega (arith, o, small)))
          (ap (λ k. update_found next_ts skip_ts state (ts_to_log_entry s k k)) one_more))
  where
    one_more : add64 state.ts 1 ≡ suc state.ts
    one_more = omega (arith, o, small)

    on_shared : Bool → Option (Rc × ThreadState)
    on_shared b =
        if b
        then some (einval, state)
        else if next_ts == invalid_ts
        then some (einval, state)
        else if state.ts == invalid_ts
        then some (ok, record state { ts = next_ts })
        else if ltb next_ts (add64 state.ts 1)
        then some (ok, record state { ts = next_ts })
        else update_found next_ts skip_ts state
            (ts_to_log_entry s (add64 state.ts 1) (add64 state.ts 1))

-- `sivfs_update` of a thread to a later version, where the log has every transaction since its version
-- and no page of a checkpoint is mapped in: it succeeds, and each page that was mapped in has become
-- what replaying the committed transactions up to the new version on it gives, as for a page fault,
-- the transaction `skip_ts` left out; no page came or went.
pub update-replay :
    (s : Shared) (rs : List Txn) (first next_ts skip_ts : ℕ) (state : ThreadState)
    → s.log ≡ logs rs
    → Consecutive first (logs rs)
    → All IsLogged rs
    → s.master_log_deleted_ts ≤ suc state.ts
    → first ≤ suc state.ts
    → state.ts < next_ts
    → next_ts < first + length rs
    → next_ts < 2 ^ 63
    → state.direct_access ≡ false
    → All IsPlain state.workingset
    → (state' : ThreadState) × (update s next_ts skip_ts state ≡ some (ok, state'))
      × (state'.ts ≡ next_ts)
      × Applied
          (at_page (λ ino off.
            replay ino off (unskipped skip_ts (between first (suc state.ts) next_ts rs))))
          state.workingset
          state'.workingset
unfolding update_found update_done
update-replay s rs first next_ts skip_ts state e c a d f o l small shared h = (
  record state { ts = next_ts; workingset = got.0 },
  update-scans s next_ts skip_ts state shared o small
      ∙ ap (update_found next_ts skip_ts state) found
      ∙ ap (update_done next_ts state) (
          apply_logs-loop next_ts skip_ts (first + (suc state.ts - first)) rest state.workingset
            placed (omega arith) (omega (arith, long))
          ∙ got.1),
  refl,
  got.2,
)
  where
    rest : List Txn
    rest = drop (suc state.ts - first) rs

    long : next_ts - suc state.ts < length rest
    long = omega (arith, length-drop (suc state.ts - first) rs)

    placed : Consecutive (first + (suc state.ts - first)) (logs rest)
    placed =
        subst (Consecutive (first + (suc state.ts - first)))
          (sym (logs-drop (suc state.ts - first) rs))
          (Consecutive-drop (suc state.ts - first) first (logs rs) c)

    found : ts_to_log_entry s (suc state.ts) (suc state.ts) ≡ some (logs rest)
    found =
        ts_to_log_entry-drop s first (suc state.ts) (suc state.ts)
          (subst (Consecutive first) (sym e) c) f d
        ∙ ap some (ap (drop (suc state.ts - first)) e ∙ sym (logs-drop (suc state.ts - first) rs))

    got :
        (ws' : List AnonInode) × (apply_logs_loop next_ts skip_ts (logs rest) state.workingset
          ≡ done ws')
        × Applied
            (at_page (λ ino off.
              replay ino off (unskipped skip_ts (take (suc (next_ts - suc state.ts)) rest))))
            state.workingset
            ws'
    got =
        loop-replay next_ts skip_ts (next_ts - suc state.ts) (first + (suc state.ts - first)) rest
          state.workingset placed (All-drop IsLogged (suc state.ts - first) rs a) (omega arith) long
          h

-- How `sivfs_update_direct_access` may end.
abbrev pub Guarded : Shared → (next_ts : ℕ) → ThreadState → Rc × ThreadState → Type 0
Guarded s next_ts state (rc, state') =
    ((rc ≡ ok)
      × (next_ts ≡ state.checkpoint_ts)
      × (s.commit_started_ts ≡ next_ts)
      × (state'.ts ≡ next_ts)
      × (state'.direct_access ≡ true))
    ⊎ ((failed rc ≡ true) × (state'.ts ≡ state.ts) × (state'.direct_access ≡ state.direct_access))

-- `sivfs_update_direct_access` succeeds only at the version of the checkpoint, if no commit was started
-- after it, and then leaves the thread at that version in direct access; on every error the version and
-- the access of the thread are as before.
pub update_direct_access-Guarded :
    (s : Shared) (next_ts : ℕ) (invalidated : Rc × List AnonInode) (state : ThreadState)
    → Guarded s next_ts state (update_direct_access s next_ts invalidated state)
unfolding update_direct_access
update_direct_access-Guarded s next_ts (rc, ws) state =
    if-cases G (next_ts == invalid_ts) refused at_valid (λ h. inr (refl, refl, refl))
      λ valid.
        if-cases G (not (next_ts == state.checkpoint_ts)) refused at_checkpoint
          (λ h. inr (refl, refl, refl))
          λ current.
            if-cases G (not (s.commit_started_ts == next_ts)) refused at_quiet
              (λ h. inr (refl, refl, refl))
              λ quiet.
                if-cases G state.direct_access (ok, record state { ts = next_ts }) at_fresh
                  (λ direct. inl (
                    refl,
                    same next_ts state.checkpoint_ts current,
                    same s.commit_started_ts next_ts quiet,
                    refl,
                    direct,
                  ))
                  λ fresh.
                    if-cases G (failed rc) (rc, record state { workingset = ws }) granted
                      (λ h. inr (h, refl, refl))
                      λ h. inl (
                        refl,
                        same next_ts state.checkpoint_ts current,
                        same s.commit_started_ts next_ts quiet,
                        refl,
                        refl,
                      )
  where
    G : Rc × ThreadState → Type 0
    G = Guarded s next_ts state

    same : (a b : ℕ) → not (a == b) ≡ false → a ≡ b
    same a b h = ground arith

    refused : Rc × ThreadState
    refused = (einval, state)

    granted : Rc × ThreadState
    granted = (ok, record state { ts = next_ts; direct_access = true; workingset = ws })

    at_fresh : Rc × ThreadState
    at_fresh = if failed rc then (rc, record state { workingset = ws }) else granted

    at_quiet : Rc × ThreadState
    at_quiet = if state.direct_access then (ok, record state { ts = next_ts }) else at_fresh

    at_checkpoint : Rc × ThreadState
    at_checkpoint = if not (s.commit_started_ts == next_ts) then refused else at_quiet

    at_valid : Rc × ThreadState
    at_valid = if not (next_ts == state.checkpoint_ts) then refused else at_checkpoint
