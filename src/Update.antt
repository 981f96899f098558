-- ===== src/Update.antt =====
-- Bringing a thread to a version: `sivfs_find_get_wspg` of kern/sivfs_workingset.c, and
-- `sivfs_update` and `sivfs_update_direct_access` of kern/sivfs_commit_update_checkpoints.c. The
-- workingset is the list of its anonymous inodes, each with the pages that are mapped in; the radix
-- tree `anon_inodes` maps a backing inode to the first of them with its number.
pub mod Write
pub mod Apply
pub mod Version
mod Tests
use sivfs_public.Base.{
  ℕ, Bool, true, false, not, ◌&&◌, ◌||◌, Option, none, some, List, [], ◌∷◌, ◌/◌, ltb, ◌==◌,
  if◌then◌else◌, add64, Rc, ok, einval, enomem, failed as is_error,
}
use sivfs_public.Common.{invalid_ts}
use sivfs_public.Walk.{
  Head, Step, next, fail, exhaust, Ended, done, failed, out_of_fuel, then_next, walk_all,
}
use sivfs_public.Log.{LogEntry, Shared, ts_to_log_entry}
use sivfs_public.Commit.{at_end}
use sivfs_public.Page.{page_size, apply_ws_ent_pg, as_step}

-- A page that `find_get_page` finds in a mapping.
pub record AnonPage : Type 0 where
  pub pgoff : ℕ
  pub is_checkpoint : Bool
  pub mem : List ℕ

-- The part of an anonymous inode and its `struct sivfs_inode_info` that is used here.
pub record AnonInode : Type 0 where
  pub ino : ℕ
  pub checkpoint_checked_out : Bool
  pub checkpoint_pages : List ℕ
  pub pages : List AnonPage

-- `find_get_page`
abbrev pub find_page : ℕ → List AnonPage → Option AnonPage
find_page pgoff [] = none
find_page pgoff (p ∷ ps) = if p.pgoff == pgoff then some p else find_page pgoff ps

-- `sivfs_unmap_page_range` of one page.
abbrev pub unmap_page : ℕ → List AnonPage → List AnonPage
unmap_page pgoff [] = []
unmap_page pgoff (p ∷ ps) =
    if p.pgoff == pgoff then unmap_page pgoff ps else p ∷ unmap_page pgoff ps

-- `radix_tree_lookup` and `radix_tree_delete` in `checkpoint_pages`.
abbrev pub has_page : ℕ → List ℕ → Bool
has_page pgoff [] = false
has_page pgoff (q ∷ qs) = q == pgoff || has_page pgoff qs

abbrev pub delete_page : ℕ → List ℕ → List ℕ
delete_page pgoff [] = []
delete_page pgoff (q ∷ qs) = if q == pgoff then delete_page pgoff qs else q ∷ delete_page pgoff qs

evict_checkpoint : ℕ → AnonInode → AnonInode
evict_checkpoint pgoff a =
    if a.checkpoint_checked_out
    then record a { checkpoint_checked_out = false; pages = unmap_page pgoff a.pages }
    else a

evict_page : ℕ → AnonInode → AnonInode
evict_page pgoff a =
    if has_page pgoff a.checkpoint_pages
    then record a {
      checkpoint_pages = delete_page pgoff a.checkpoint_pages;
      pages = unmap_page pgoff a.pages;
    }
    else a

-- `sivfs_find_get_wspg` in an inode that is there, with the flag SIVFS_EVICT_CHECKPOINT or without it.
pub find_get_wspg : (evict : Bool) → (offset : ℕ) → AnonInode → Rc × Option AnonPage × AnonInode
find_get_wspg true offset a =
    let a' = evict_page (offset / page_size) (evict_checkpoint (offset / page_size) a) in
    (ok, find_page (offset / page_size) a'.pages, a')
find_get_wspg false offset a =
    if a.checkpoint_checked_out || has_page (offset / page_size) a.checkpoint_pages
    then (einval, none, a)
    else (ok, find_page (offset / page_size) a.pages, a)

-- The page found is written in place.
abbrev pub write_page : ℕ → Head → List AnonPage → List AnonPage
write_page pgoff ent [] = []
write_page pgoff ent (p ∷ ps) =
    if p.pgoff == pgoff
    then record p { mem = apply_ws_ent_pg ent p.mem } ∷ ps
    else p ∷ write_page pgoff ent ps

-- What `_sivfs_apply_log_entry_workingset` does with the page found for an entry.
apply_found : Head → Rc × Option AnonPage × AnonInode → Rc × AnonInode
apply_found ent (ok, none, a) = (ok, a)
apply_found ent (ok, some pg, a) =
    if pg.is_checkpoint
    then (einval, a)
    else (ok, record a { pages = write_page (ent.file_offset / page_size) ent a.pages })
apply_found ent (rc, pg, a) = (rc, a)

-- The same with the inode looked up: without one there is no page to write to.
pub apply_ent : Head → List AnonInode → Rc × List AnonInode
apply_ent ent [] = (ok, [])
apply_ent ent (a ∷ more) =
    let rest = apply_ent ent more in
    let here = apply_found ent (find_get_wspg true ent.file_offset a) in
    if a.ino == ent.ino then (here.0, here.1 ∷ more) else (rest.0, a ∷ rest.1)

or_fail : {S : Type 0} → Rc × S → Step S
or_fail (ok, s) = next s
or_fail (rc, s) = fail rc s

-- The body of the loop of `_sivfs_apply_log_entry_workingset`.
apply_body : Head → List AnonInode → Step (List AnonInode)
apply_body ent ws = or_fail (apply_ent ent ws)

-- `_sivfs_apply_log_entry_workingset`
pub apply_log_entry : LogEntry → List AnonInode → Ended (List AnonInode)
apply_log_entry log ws = if log.aborted then done ws else walk_all apply_body log.ws ws

apply_unless_skipped : (ts_skip : ℕ) → LogEntry → List AnonInode → Step (List AnonInode)
apply_unless_skipped ts_skip clog ws =
    if clog.ts == ts_skip then next ws else as_step (apply_log_entry clog ws)

module _ (ts_stop ts_skip : ℕ) where
  pub apply_logs_loop : List LogEntry → List AnonInode → Ended (List AnonInode)
  apply_logs_loop [] ws = done ws
  apply_logs_loop (clog ∷ rest) ws = then_next (apply_unless_skipped ts_skip clog ws) λ ws'.
      elim (clog.ts == ts_stop || at_end ts_stop rest) [
        | true ↦ done ws'
        | false ↦ apply_logs_loop rest ws'
      ]

  -- `sivfs_apply_logs_workingset` from a log entry on; without one `sivfs_update` reports EINVAL.
  pub apply_logs : List LogEntry → List AnonInode → Ended (List AnonInode)
  apply_logs [] ws = failed einval ws
  apply_logs (clog ∷ rest) ws =
      if ltb ts_stop clog.ts then failed einval ws else apply_logs_loop (clog ∷ rest) ws

-- The part of `struct sivfs_state` that is used here.
pub record ThreadState : Type 0 where
  pub ts : ℕ
  pub checkpoint_ts : ℕ
  pub direct_access : Bool
  pub workingset : List AnonInode

update_done : (next_ts : ℕ) → ThreadState → Ended (List AnonInode) → Option (Rc × ThreadState)
update_done next_ts state (done ws) = some (ok, record state { ts = next_ts; workingset = ws })
update_done next_ts state (failed rc ws) = some (rc, record state { workingset = ws })
update_done next_ts state out_of_fuel = none

update_found :
    (next_ts skip_ts : ℕ) → ThreadState → Option (List LogEntry) → Option (Rc × ThreadState)
update_found next_ts skip_ts state none = some (enomem, state)
update_found next_ts skip_ts state (some log) =
    update_done next_ts state (apply_logs next_ts skip_ts log state.workingset)

-- `sivfs_update`. `none` is a run out of fuel.
pub update : Shared → (next_ts skip_ts : ℕ) → ThreadState → Option (Rc × ThreadState)
update s next_ts skip_ts state =
    if state.direct_access
    then some (einval, state)
    else if next_ts == invalid_ts
    then some (einval, state)
    else if state.ts == invalid_ts
    then some (ok, record state { ts = next_ts })
    else if ltb next_ts (add64 state.ts 1)
    then some (ok, record state { ts = next_ts })
    else update_found next_ts skip_ts state
        (ts_to_log_entry s (add64 state.ts 1) (add64 state.ts 1))

-- `sivfs_update_direct_access`. `invalidated` is what `sivfs_invalidate_workingset` answers and leaves.
pub update_direct_access :
    Shared → (next_ts : ℕ) → (invalidated : Rc × List AnonInode) → ThreadState → Rc × ThreadState
update_direct_access s next_ts (rc, ws) state =
    if next_ts == invalid_ts
    then (einval, state)
    else if not (next_ts == state.checkpoint_ts)
    then (einval, state)
    else if not (s.commit_started_ts == next_ts)
    then (einval, state)
    else if state.direct_access
    then (ok, record state { ts = next_ts })
    else if is_error rc
    then (rc, record state { workingset = ws })
    else (ok, record state { ts = next_ts; direct_access = true; workingset = ws })
