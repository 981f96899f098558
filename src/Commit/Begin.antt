-- ===== src/Commit/Begin.antt =====
-- Part I of `sivfs_commit_changes` of kern/sivfs_commit_update_checkpoints.c.
use sivfs_public.Base.{
  ℕ, ◌+◌, ◌/◌, ◌^◌, ◌<◌, ◌≡◌, refl, sym, subst, ◌⊎◌, inl, inr, add64, if◌then◌else◌, ap, Bool, true,
  false, Option, List, [], ◌∷◌, ◌++◌, arith, length-replicate, Rc, ok, failed, einval, enomem,
  eexist, eagain, eintr,
}
use sivfs_public.Writeset.{Writeset, copy}
use sivfs_public.Writeset.Append.{Holds}
use sivfs_public.Writeset.Copy.{copy-Holds}
use sivfs_public.Log.{LogEntry, Shared, create_log_entry, fresh_entry}
use sivfs_public.Log.Create.{Created, Refused, create_log_entry-Created}
use sivfs_public.Commit.{commit_begin}

-- What a successful start of a commit of `mine` leaves: one more entry in the log, with the next
-- timestamp, undecided, whose writeset holds what that of `mine` holds.
pub record Appended (s : Shared) (mine dest : LogEntry) (s' : Shared) : Type 0 where
  pub log : s'.log ≡ s.log ++ (dest ∷ [])
  pub ts : dest.ts ≡ s.commit_started_ts + 1
  pub started : s'.commit_started_ts ≡ dest.ts
  pub master : s'.master_ts ≡ s.master_ts
  pub deleted : s'.master_log_deleted_ts ≡ s.master_log_deleted_ts
  pub live : dest.aborted ≡ false
  pub undecided : dest.commit_status_filled_in ≡ false
  pub same : (ms : List ℕ) → Holds ms mine.ws → Holds ms dest.ws

-- How a start of a commit ends.
abbrev pub Begun :
    (got_lock : Bool)
    → (kmalloced : Option ℕ) → (inserted : Rc) → Shared
    → LogEntry
    → Rc × Shared
    → Type 0
Begun got_lock kmalloced inserted s mine (ok, s') =
    (got_lock ≡ true) × ((dest : LogEntry) × Appended s mine dest s')
Begun got_lock kmalloced inserted s mine (rc, s') =
    (got_lock ≡ false) × (rc ≡ eintr) × (s' ≡ s)
    ⊎ (got_lock ≡ true) × Refused kmalloced inserted s mine.ws rc s'

published : (next_ts : ℕ) → Shared → LogEntry → LogEntry → Shared → Rc → Rc × Shared
published next_ts s mine dest s' rc = if failed rc then (rc, s') else (
  ok,
  record s' {
    commit_started_ts = next_ts;
    log = s.log ++ (record dest { ws = copy dest.ws mine.ws; ts = next_ts; aborted = false } ∷ []);
  },
)

fresh-Holds :
    (ws : Writeset) (first : Bool) (ms : List ℕ)
    → Holds ms ws
    → Holds ms (copy (fresh_entry ws first).ws ws)
fresh-Holds ws first ms h =
    copy-Holds ms (fresh_entry ws first).ws ws h
      (omega (arith, length-replicate {A = ℕ} (ws.size_bytes / 8) 0, h.valid.aligned)) (omega arith)
      (omega (arith, h.valid.size_in))

Created-Begun :
    (kmalloced : Option ℕ) (inserted : Rc) (s : Shared) (mine : LogEntry)
    (r : Rc × LogEntry × Shared)
    → s.commit_started_ts < 2 ^ 63
    → Created kmalloced inserted s mine.ws r
    → Begun true kmalloced inserted s mine
        (published (add64 s.commit_started_ts 1) s mine r.1 r.2 r.0)
unfolding published
Created-Begun kmalloced inserted s mine (ok, e, s') h (first, c, fresh, after) = (
  refl,
  (
    _,
    record {
      log = refl;
      ts = omega (arith, h);
      started = refl;
      master = ap (λ (z : Shared). z.master_ts) after;
      deleted = ap (λ (z : Shared). z.master_log_deleted_ts) after;
      live = refl;
      undecided = ap (λ (z : LogEntry). z.commit_status_filled_in) fresh;
      same = λ ms m.
          subst (λ (z : LogEntry). Holds ms (copy z.ws mine.ws)) (sym fresh)
            (fresh-Holds mine.ws first ms m);
    },
  ),
)
Created-Begun kmalloced inserted s mine (einval, e, s') h c = inr (refl, c)
Created-Begun kmalloced inserted s mine (enomem, e, s') h c = inr (refl, c)
Created-Begun kmalloced inserted s mine (eexist, e, s') h c = inr (refl, c)
Created-Begun kmalloced inserted s mine (eagain, e, s') h c = inr (refl, c)
Created-Begun kmalloced inserted s mine (eintr, e, s') h c = inr (refl, c)

-- `sivfs_commit_changes` up to the unlock, with timestamps below 2 ^ 63, ends in one of four ways. It appends one undecided entry to the
-- log, with the next timestamp and a copy of the writeset. Or it returns EINTR without the lock, or
-- ENOMEM without memory for a new chunk where one is needed, and changes nothing. Or it returns the
-- error of the insertion into `log_cache`: log, current chunk and timestamps then stay as they were, so
-- that the timestamp remains available, but the chunk that the entry was taken from is freed, which is
-- the current one if that had room for the entry.
pub commit_begin-Begun :
    (got_lock : Bool) (kmalloced : Option ℕ) (inserted : Rc) (s : Shared) (mine : LogEntry)
    → s.commit_started_ts < 2 ^ 63
    → Begun got_lock kmalloced inserted s mine (commit_begin got_lock kmalloced inserted s mine)
unfolding commit_begin published
commit_begin-Begun false kmalloced inserted s mine h = inl (refl, refl, refl)
commit_begin-Begun true kmalloced inserted s mine h =
    Created-Begun kmalloced inserted s mine (create_log_entry kmalloced inserted s mine.ws) h
      (create_log_entry-Created kmalloced inserted s mine.ws)
