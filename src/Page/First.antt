-- ===== src/Page/First.antt =====
-- `sivfs_find_first_write` of kern/sivfs_shared_state.h finds the first committed transaction of a range
-- of timestamps that writes to a range of a file.
use sivfs_public.Base.{
  ℕ, suc, ◌+◌, ◌-◌, ◌^◌, ◌≤◌, ◌<◌, ◌≡◌, refl, ◌∙◌, ap, inl, inr, Bool, false, not, ◌&&◌, ◌||◌,
  Option, none, some, List, [], ◌∷◌, arith, le→ltb, lt→leb, ◌==◌, ==_ne, Bool-cases, if◌then◌else◌,
  length, drop, All, All-take, All-drop, add64, ok,
}
use sivfs_public.Common.{invalid_ts}
use sivfs_public.Writeset.Entry.{Entry}
use sivfs_public.Walk.{next, stop, done, then_next}
use sivfs_public.Walk.Fold.{header, fold, walk_all-fold}
use sivfs_public.Log.{LogEntry, Shared, ts_to_log_entry}
use sivfs_public.Log.Find.{Consecutive}
use sivfs_public.Commit.Conflict.{Logged}
use sivfs_public.Commit.Validate.{Txn, logs}
use sivfs_public.Page.{
  scan, range_overlaps_wsent, first_body, first_found, first_entry, first_done, first_scanned,
  find_first_write,
}
use sivfs_public.Page.Scan.{between, scan_fold, scan-between}

abbrev pub IsLogged : Txn → Type 0
IsLogged r = Logged r.entry r.writes

module _ (file_ino offset_start offset_end : ℕ) where
  -- Some entry starts within the range of the file.
  abbrev pub in_range : List Entry → Bool
  in_range [] = false
  in_range (e ∷ es) =
      (e.ino == file_ino && range_overlaps_wsent offset_start offset_end (header e)) || in_range es

  -- The timestamp of the first of some transactions that committed and has such an entry.
  abbrev pub first_writer : List Txn → Option ℕ
  first_writer [] = none
  first_writer (r ∷ rs) =
      if not r.entry.aborted && in_range r.writes then some r.entry.ts else first_writer rs

  -- `SIVFS_INVALID_TS` stands for no timestamp.
  abbrev pub or_invalid : Option ℕ → ℕ
  or_invalid none = invalid_ts
  or_invalid (some ts) = ts

  fold-first :
      (ts : ℕ) (es : List Entry)
      → fold (first_body file_ino offset_start offset_end ts) es none
        ≡ done (if in_range es then some ts else none)
  unfolding first_body
  fold-first ts [] = refl
  fold-first ts (e ∷ es) =
      elim (Bool-cases
        (e.ino == file_ino && range_overlaps_wsent offset_start offset_end (header e))) [
          | inl hit ↦ rw hit refl
          | inr miss ↦ rw miss (fold-first ts es)
        ]

  first_entry-step :
      (r : Txn)
      → IsLogged r
      → first_entry file_ino offset_start offset_end r.entry none
        ≡ (if not r.entry.aborted && in_range r.writes then stop (some r.entry.ts) else next none)
  unfolding first_entry first_found
  first_entry-step r l = elim (Bool-cases r.entry.aborted) [
    | inl gone ↦ rw gone refl
    | inr committed ↦ rw committed (
        ap (first_found file_ino offset_start offset_end) (
          walk_all-fold (first_body file_ino offset_start offset_end r.entry.ts) r.writes r.entry.ws
            none l.entries l.holds
          ∙ fold-first r.entry.ts r.writes)
        ∙ elim (Bool-cases (in_range r.writes)) [ inl hit ↦ rw hit refl | inr miss ↦ rw miss refl ])
  ]

  scan_fold-first :
      (rs : List Txn)
      → All IsLogged rs
      → scan_fold (first_entry file_ino offset_start offset_end) rs none ≡ done (first_writer rs)
  scan_fold-first [] a = refl
  scan_fold-first (r ∷ rs) a =
      ap (λ z. then_next z (scan_fold (first_entry file_ino offset_start offset_end) rs))
        (first_entry-step r a.0)
      ∙ elim (Bool-cases (not r.entry.aborted && in_range r.writes)) [
        | inl hit ↦ rw hit refl
        | inr miss ↦ rw miss (scan_fold-first rs a.1)
      ]

  -- `sivfs_find_first_write` of a range that is not empty, where the log has all the transactions of
  -- (start_ts, end_ts], returns the timestamp of the first of them that committed and has an entry that
  -- starts in the range, and SIVFS_INVALID_TS if there is none.
  pub find_first_write-first_writer :
      (s : Shared) (rs : List Txn) (first out start_ts end_ts : ℕ)
      → s.log ≡ logs rs
      → Consecutive first (logs rs)
      → All IsLogged rs
      → s.master_log_deleted_ts ≤ suc start_ts
      → first ≤ suc start_ts
      → start_ts < end_ts
      → end_ts < first + length rs
      → end_ts < 2 ^ 63
      → offset_start < offset_end
      → find_first_write file_ino offset_start offset_end s out start_ts end_ts
        ≡ some (ok, or_invalid (first_writer (between first (suc start_ts) end_ts rs)))
  unfolding find_first_write first_scanned first_done
  find_first_write-first_writer s rs first out start_ts end_ts e c a d f o l small range =
      rw
        (
          le→ltb start_ts end_ts (omega arith),
          lt→leb offset_start offset_end range,
          ==_ne end_ts start_ts (omega arith),
        )
        (ap (λ k. first_scanned file_ino offset_start offset_end out end_ts (ts_to_log_entry s k k))
            next_ts
          ∙ ap (first_scanned file_ino offset_start offset_end out end_ts) got.2
          ∙ ap (first_done file_ino offset_start offset_end out)
              (got.3 none ∙ scan_fold-first seen logged)
          ∙ ended (first_writer seen))
    where
      seen : List Txn
      seen = between first (suc start_ts) end_ts rs

      logged : All IsLogged seen
      logged =
          All-take IsLogged (suc (end_ts - suc start_ts)) (drop (suc start_ts - first) rs)
            (All-drop IsLogged (suc start_ts - first) rs a)

      next_ts : add64 start_ts 1 ≡ suc start_ts
      next_ts = omega (arith, o, small)

      got :
          (c : LogEntry) × (cs : List LogEntry) × (ts_to_log_entry s (suc start_ts) (suc start_ts)
            ≡ some (c ∷ cs))
          × ((x : Option ℕ)
              → scan (first_entry file_ino offset_start offset_end) end_ts (c ∷ cs) x
                ≡ scan_fold (first_entry file_ino offset_start offset_end) seen x)
      got =
          scan-between (first_entry file_ino offset_start offset_end) s rs first (suc start_ts)
            end_ts e c d f (omega arith) l

      ended :
          (w : Option ℕ)
          → first_done file_ino offset_start offset_end out (done w) ≡ some (ok, or_invalid w)
      ended none = refl
      ended (some ts) = refl
