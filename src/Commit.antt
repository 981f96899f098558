-- ===== src/Commit.antt =====
-- Commits in kern/sivfs_commit_update_checkpoints.c: write-write conflicts between entries, the
-- validation of a transaction against the concurrent ones in the log, and `sivfs_commit_changes` in
-- its three parts, between which other threads may act.
pub mod Conflict
pub mod Begin
pub mod Validate
pub mod Window
pub mod Steps
pub mod Isolation
pub mod Preserved
pub mod Reach
pub mod Safety
pub mod Progress
mod Tests
use sivfs_public.Base.{
  ℕ, Bool, true, false, not, ◌&&◌, ◌||◌, Option, none, some, List, [], ◌∷◌, ◌++◌, ltb, leb, ◌==◌,
  if◌then◌else◌, add64, sub64, Rc, ok, failed as is_error, einval, eintr,
}
use mathlib.Core.Option
use sivfs_public.Writeset.{Writeset, copy}
use sivfs_public.Walk.{
  Head, Step, next, stop, fail, exhaust, Ended, done, failed, out_of_fuel, walk_all,
}
use sivfs_public.Log.{LogEntry, Shared, ts_to_log_entry, create_log_entry}

-- `sivfs_ws_ent_conflicts`
pub ws_ent_conflicts : Head → Head → Bool
ws_ent_conflicts a b = a.ino == b.ino && a.file_offset == b.file_offset

-- The body of the loop of `sivfs_ws_ent_conflicts_log`; the state is `*conflicts`.
conflicts_body : Head → Head → Bool → Step Bool
conflicts_body conflict_ent ent found =
    if ws_ent_conflicts ent conflict_ent then stop true else next found

-- `sivfs_ws_ent_conflicts_log`
pub ws_ent_conflicts_log : Head → LogEntry → Ended Bool
ws_ent_conflicts_log conflict_ent log = walk_all (conflicts_body conflict_ent) log.ws false

-- What `_sivfs_validate` makes of a search for conflicts; an error counts as a conflict.
on_conflict : Ended Bool → Bool → Step Bool
on_conflict (done true) aborted = stop true
on_conflict (done false) aborted = next aborted
on_conflict (failed rc found) aborted = stop true
on_conflict out_of_fuel aborted = exhaust

-- The body of the loop of `_sivfs_validate`; the state is the `aborted` of the entry validated.
validate_body : LogEntry → Head → Bool → Step Bool
validate_body other_log ent aborted = on_conflict (ws_ent_conflicts_log ent other_log) aborted

after_validate : LogEntry → Ended Bool → Option LogEntry
after_validate mine (done aborted) = some (record mine { aborted = aborted })
after_validate mine (failed rc aborted) = some (record mine { aborted = true })
after_validate mine out_of_fuel = none

-- `_sivfs_validate`
pub validate_against : LogEntry → LogEntry → Option LogEntry
validate_against mine other_log =
    if other_log.aborted
    then some mine
    else after_validate mine (walk_all (validate_body other_log) mine.ws mine.aborted)

-- The loop of `sivfs_validate` ends for want of a next entry up to `ts_stop`.
unfoldable pub at_end : (ts_stop : ℕ) → List LogEntry → Bool
at_end ts_stop [] = true
at_end ts_stop (n ∷ ns) = ltb ts_stop n.ts

-- The loop of `sivfs_validate`. `none` stands for a NULL that it dereferences.
validate_loop : (ts_stop : ℕ) → LogEntry → List LogEntry → Option LogEntry
validate_loop ts_stop mine [] = none
validate_loop ts_stop mine (clog ∷ rest) = elim (validate_against mine clog) [
  | none ↦ none
  | some mine' ↦ elim (mine'.aborted || (clog.ts == ts_stop || at_end ts_stop rest)) [
    | true ↦ some mine'
    | false ↦ validate_loop ts_stop mine' rest
  ]
]

-- What an error in `sivfs_validate` does.
abbrev pub abort : LogEntry → LogEntry
abort mine = record mine { aborted = true }

validate_found : (ts_stop : ℕ) → LogEntry → Option (List LogEntry) → Option LogEntry
validate_found ts_stop mine none = some (abort mine)
validate_found ts_stop mine (some clog) = validate_loop ts_stop mine clog

-- `sivfs_validate`
pub validate : Shared → LogEntry → (ts_start ts_stop : ℕ) → Option LogEntry
validate s mine ts_start ts_stop =
    if ltb ts_stop ts_start
    then some (abort mine)
    else validate_found ts_stop mine (ts_to_log_entry s ts_start ts_start)

-- Part I of `sivfs_commit_changes`, under the commit lock: a timestamp and a place in the log are
-- taken, and the writeset is copied there. `got_lock` is false where a signal ends the wait for it.
pub commit_begin :
    (got_lock : Bool) → (kmalloced : Option ℕ) → (inserted : Rc) → Shared → LogEntry → Rc × Shared
commit_begin got_lock kmalloced inserted s log_writeset =
    let next_ts = add64 s.commit_started_ts 1 in
    let (rc, dest, s') = create_log_entry kmalloced inserted s log_writeset.ws in
    if not got_lock then (eintr, s) else if is_error rc then (rc, s') else (
      ok,
      record s' {
        commit_started_ts = next_ts;
        log =
            s.log
            ++ (record dest { ws = copy dest.ws log_writeset.ws; ts = next_ts; aborted = false }
                ∷ []);
      },
    )

abbrev pub fill_in : LogEntry → LogEntry
fill_in dest = record dest { commit_status_filled_in = true }

-- Part II: the entry `dest` of the log is validated against the concurrent transactions, which are
-- those after the snapshot `state_ts`, and its status is published.
pub commit_validate : (state_ts : ℕ) → Shared → LogEntry → Option LogEntry
commit_validate state_ts s dest = Option.map fill_in (
    if leb (add64 state_ts 2) dest.ts
    then validate s dest (add64 state_ts 1) (sub64 dest.ts 1)
    else some dest)

-- Part III waits until all earlier timestamps are released, and releases its own. `none`: it waits.
pub commit_release : (next_ts : ℕ) → Shared → Option Shared
commit_release next_ts s =
    if s.master_ts == sub64 next_ts 1 then some (record s { master_ts = next_ts }) else none
