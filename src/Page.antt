-- ===== src/Page.antt =====
-- Reading the master log: the scan over the log entries of a range of timestamps, a page brought to a
-- snapshot by `my_sivfs_update_page` of kern/sivfs_commit_update_checkpoints.c, and
-- `sivfs_find_first_write` of kern/sivfs_shared_state.h. A page is its list of words; file offsets are
-- whole words.
pub mod Scan
pub mod Replay
pub mod Newest
pub mod First
mod Tests
use sivfs_public.Base.{
  ℕ, Bool, true, false, not, ◌&&◌, ◌||◌, Option, none, some, List, [], ◌∷◌, ◌/◌, ◌%◌, ltb, leb,
  ◌==◌, if◌then◌else◌, set, add64, Rc, ok, einval, enomem, failed as is_error,
}
use sivfs_public.Common.{invalid_ts}
use sivfs_public.Walk.{
  Head, Step, next, stop, fail, exhaust, Ended, done, failed, out_of_fuel, then_next, walk_all,
}
use sivfs_public.Log.{LogEntry, Shared, ts_to_log_entry}
use sivfs_public.Commit.{at_end}

-- `PAGE_SIZE`
abbrev pub page_size : ℕ
page_size = 4096

-- `sivfs_same_page`
abbrev pub same_page : ℕ → ℕ → Bool
same_page a b = a / page_size == b / page_size

-- `sivfs_apply_ws_ent_pg`
abbrev pub apply_ws_ent_pg : Head → List ℕ → List ℕ
apply_ws_ent_pg ent mem = set mem (ent.file_offset % page_size / 8) ent.value

-- What a walk over the writeset of one log entry means for the scan.
abbrev pub as_step : {S : Type 0} → Ended S → Step S
as_step (done s) = next s
as_step (failed rc s) = fail rc s
as_step out_of_fuel = exhaust

-- The scan from a log entry on to the last one up to `ts_stop`.
module _ {S : Type 0} (visit : LogEntry → S → Step S) where
  pub scan : (ts_stop : ℕ) → List LogEntry → S → Ended S
  scan ts_stop [] s = done s
  scan ts_stop (clog ∷ rest) s =
      then_next (visit clog s)
        λ s'. elim (at_end ts_stop rest) [ true ↦ done s' | false ↦ scan ts_stop rest s' ]

module _ (file_ino file_offset : ℕ) where
  -- The body of the inner loop of `my_sivfs_update_page`.
  page_body : Head → List ℕ → Step (List ℕ)
  page_body ent mem =
      if ent.ino == file_ino && same_page ent.file_offset file_offset
      then next (apply_ws_ent_pg ent mem)
      else next mem

  -- The body of its outer loop.
  pub page_entry : LogEntry → List ℕ → Step (List ℕ)
  page_entry log_ent mem =
      if log_ent.aborted then next mem else as_step (walk_all page_body log_ent.ws mem)

  page_done : Ended (List ℕ) → Option (Rc × List ℕ)
  page_done (done mem) = some (ok, mem)
  page_done (failed rc mem) = some (rc, mem)
  page_done out_of_fuel = none

  page_found : (target_ts : ℕ) → List ℕ → Option (List LogEntry) → Option (Rc × List ℕ)
  page_found target_ts mem none = some (enomem, mem)
  page_found target_ts mem (some []) = some (einval, mem)
  page_found target_ts mem (some (c ∷ cs)) = page_done (scan page_entry target_ts (c ∷ cs) mem)

-- The checkpoint of a thread: its timestamp, and what reading a page of it by `sivfs_read_checkpoint`
-- answers.
pub record Checkpoint : Type 0 where
  pub cp_ts : ℕ
  pub read : (file_ino file_offset : ℕ) → Rc × List ℕ

module _ (s : Shared) (target_ts file_ino file_offset : ℕ) where
  page_from : (cp_ts : ℕ) → Rc × List ℕ → Option (Rc × List ℕ)
  page_from cp_ts (rc, mem) =
      if is_error rc
      then some (rc, mem)
      else if ltb target_ts (add64 cp_ts 1)
      then some (ok, mem)
      else page_found file_ino file_offset target_ts mem
          (ts_to_log_entry s (add64 cp_ts 1) (add64 cp_ts 1))

  page_checkpoint : List ℕ → Option Checkpoint → Option (Rc × List ℕ)
  page_checkpoint mem none = some (einval, mem)
  page_checkpoint mem (some cp) = page_from cp.cp_ts (cp.read file_ino file_offset)

  -- `my_sivfs_update_page`: the new contents of the page `mem`. The outer `none` is a run out of fuel.
  pub update_page : Option Checkpoint → List ℕ → Option (Rc × List ℕ)
  update_page checkpoint mem =
      if target_ts == invalid_ts
      then some (einval, mem)
      else if not (file_offset % page_size == 0)
      then some (einval, mem)
      else page_checkpoint mem checkpoint

-- `sivfs_range_overlaps_wsent`
abbrev pub range_overlaps_wsent : (start end : ℕ) → Head → Bool
range_overlaps_wsent start end ent = leb start ent.file_offset && ltb ent.file_offset end

module _ (file_ino offset_start offset_end : ℕ) where
  -- The body of the inner loop of `sivfs_find_first_write`; the state is what was found.
  first_body : (ts : ℕ) → Head → Option ℕ → Step (Option ℕ)
  first_body ts ent found =
      if ent.ino == file_ino && range_overlaps_wsent offset_start offset_end ent
      then stop (some ts)
      else next found

  -- A hit ends the outer loop too.
  first_found : Ended (Option ℕ) → Step (Option ℕ)
  first_found (done (some ts)) = stop (some ts)
  first_found (done none) = next none
  first_found (failed rc found) = fail rc found
  first_found out_of_fuel = exhaust

  pub first_entry : LogEntry → Option ℕ → Step (Option ℕ)
  first_entry log_ent found =
      if log_ent.aborted
      then next found
      else first_found (walk_all (first_body log_ent.ts) log_ent.ws found)

  first_done : (out : ℕ) → Ended (Option ℕ) → Option (Rc × ℕ)
  first_done out (done none) = some (ok, invalid_ts)
  first_done out (done (some ts)) = some (ok, ts)
  first_done out (failed rc found) = some (rc, out)
  first_done out out_of_fuel = none

  first_scanned : (out end_ts : ℕ) → Option (List LogEntry) → Option (Rc × ℕ)
  first_scanned out end_ts none = some (enomem, out)
  first_scanned out end_ts (some []) = some (einval, out)
  first_scanned out end_ts (some (c ∷ cs)) = first_done out (scan first_entry end_ts (c ∷ cs) none)

  -- `sivfs_find_first_write`; `out` is what `*first_modifier_out` holds before. The outer `none` is a
  -- run out of fuel.
  pub find_first_write : Shared → (out start_ts end_ts : ℕ) → Option (Rc × ℕ)
  find_first_write s out start_ts end_ts =
      if ltb end_ts start_ts || leb offset_end offset_start
      then some (einval, out)
      else if end_ts == start_ts
      then some (ok, invalid_ts)
      else first_scanned out end_ts (ts_to_log_entry s (add64 start_ts 1) (add64 start_ts 1))
