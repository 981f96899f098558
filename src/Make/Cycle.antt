-- ===== src/Make/Cycle.antt =====
-- A cycle of the thread that makes checkpoints, `sivfs_make_checkpoint` of kern/sivfs_make_checkpoint.c: the
-- log since the latest checkpoint is applied to a new checkpoint, which is then published. Checkpoint inodes
-- are named by numbers. What the allocations and the mutex answer is an argument.
pub mod Replays
pub mod Scanned
pub mod Agrees
pub mod Obsolete
pub mod Publishes
pub mod Settles
use sivfs_public.Base.{
  ℕ, Bool, true, false, not, Option, none, some, List, [], ◌∷◌, ltb, ◌==◌, if◌then◌else◌, add64, Rc,
  ok, einval, enomem, failed as is_error,
}
use sivfs_public.Walk.{Head, Step, next, fail, Ended, done, failed, out_of_fuel, walk_all}
use sivfs_public.Log.{LogEntry, Shared, ts_to_log_entry}
use sivfs_public.Page.{as_step, scan}
use sivfs_public.Checkpoint.{
  Checkpoints, checkpoints_insert, checkpoints_insert_finish, checkpoints_remove,
}
use sivfs_public.Reclaim.{Collector, mark_pages_obsoleted}
use sivfs_public.Make.{Maker, override, page_pointer, apply_change_checkpoint}

module _ (zero_pxd_page : List ℕ) (next_ts : ℕ) where
  -- The body of the inner loop of `_sivfs_make_checkpoint`.
  pub make_body : Head → Maker → Step Maker
  make_body ent m =
      let r = apply_change_checkpoint zero_pxd_page next_ts false ent m in
      if is_error r.0 then fail r.0 r.1 else next r.1

  -- The body of its outer loop.
  pub make_entry : LogEntry → Maker → Step Maker
  make_entry log m = if log.aborted then next m else as_step (walk_all make_body log.ws m)

  pub pages_ended : Ended Maker → Option (Rc × Maker)
  pages_ended (done m) = some (ok, m)
  pages_ended (failed rc m) = some (rc, m)
  pages_ended out_of_fuel = none

  pub make_from : Maker → Option (List LogEntry) → Option (Rc × Maker)
  make_from m none = some (enomem, m)
  make_from m (some []) = some (einval, m)
  make_from m (some (log ∷ rest)) =
      if ltb next_ts log.ts
      then some (ok, m)
      else pages_ended (scan make_entry next_ts (log ∷ rest) m)

  -- `_sivfs_make_checkpoint`. The outer `none` is a run out of fuel.
  pub make_pages : Shared → (latest_checkpoint : ℕ) → Maker → Option (Rc × Maker)
  make_pages s latest_checkpoint m =
      if next_ts == latest_checkpoint
      then some (einval, m)
      else make_from m (ts_to_log_entry s (add64 latest_checkpoint 1) (add64 latest_checkpoint 1))

-- The part of `struct sivfs_inode_info` of a checkpoint.
pub record CpInfo : Type 0 where
  pub cp_root : ℕ
  pub cp_ts : ℕ
  pub obsoleted_ts : ℕ

-- All that a cycle works on.
pub record Cycle : Type 0 where
  pub maker : Maker
  pub cpinfo : ℕ → CpInfo
  pub checkpoints : Checkpoints

-- What the rest of the kernel answers in a cycle.
pub record Answers : Type 0 where
  pub has_state : Bool
  pub new_stack : Rc
  pub new_inode : Rc × ℕ
  pub locked : Rc
  pub room : Rc
  pub reserved : Rc

abbrev pub page_pointers : List ℕ → List ℕ
page_pointers [] = []
page_pointers (p ∷ ps) = page_pointer p ∷ page_pointers ps

abbrev pub stacked : Option (List ℕ) → List ℕ
stacked none = []
stacked (some pages) = pages

-- The exit of the function: a lack of memory is not an error of the thread.
abbrev pub suppress : Rc × Bool × Cycle → Rc × Bool × Cycle
suppress (enomem, made_checkpoint, c) = (ok, made_checkpoint, c)
suppress r = r

abbrev pub timestamp_of : Cycle → ℕ → ℕ
timestamp_of c cp = (c.cpinfo cp).cp_ts

module _ (made_checkpoint : Bool) (answers : Answers) (next_ts : ℕ) (prior new : ℕ) where
  -- From the insertion on, with the pages made.
  pub publish : Cycle → Rc × Bool × Cycle
  publish c =
      let inserted =
        checkpoints_insert (timestamp_of c) answers.locked answers.room (some new) c.checkpoints in
      let marked = record c {
        checkpoints = inserted.1;
        cpinfo = override c.cpinfo prior (record (c.cpinfo prior) { obsoleted_ts = next_ts });
      } in
      let noted =
        mark_pages_obsoleted answers.reserved (page_pointers (stacked c.maker.obsoleted_pages))
          (some prior) c.maker.collector in
      if is_error inserted.0
      then (inserted.0, made_checkpoint, record c { checkpoints = inserted.1 })
      else if is_error noted.0
      then (
        noted.0,
        made_checkpoint,
        record marked {
          checkpoints = checkpoints_remove (timestamp_of marked) new marked.checkpoints;
          maker = record (c.maker) { collector = noted.1 };
        },
      )
      else (
        ok,
        true,
        record marked {
          checkpoints = checkpoints_insert_finish (timestamp_of marked) new marked.checkpoints;
          maker = record (c.maker) { collector = noted.1 };
        },
      )

  pub after_pages : Cycle → Option (Rc × Maker) → Option (Rc × Bool × Cycle)
  after_pages c none = none
  after_pages c (some (rc, m)) = some (
      suppress (
        if is_error rc
        then (rc, made_checkpoint, record c { maker = m })
        else publish (record c { maker = m })))

module _ (zero_pxd_page : List ℕ) (made_checkpoint : Bool) (answers : Answers) (s : Shared) where
  -- From the new stack on.
  unfoldable pub make_new : (prior : ℕ) → Cycle → Option (Rc × Bool × Cycle)
  make_new prior c =
      let new = answers.new_inode.1 in
      let started = record c {
        maker = record (c.maker) { root = (c.cpinfo prior).cp_root; obsoleted_pages = some [] };
        cpinfo =
            override c.cpinfo new
              (record (c.cpinfo new) { cp_root = (c.cpinfo prior).cp_root; cp_ts = s.master_ts });
      } in
      if is_error answers.new_stack
      then some (suppress (answers.new_stack, made_checkpoint, c))
      else if is_error answers.new_inode.0
      then some (suppress (answers.new_inode.0, made_checkpoint, c))
      else after_pages made_checkpoint answers s.master_ts prior new started
          (make_pages zero_pxd_page s.master_ts s (c.cpinfo prior).cp_ts started.maker)

  unfoldable pub make_prior : Cycle → Option ℕ → Option (Rc × Bool × Cycle)
  make_prior c none = some (einval, made_checkpoint, c)
  make_prior c (some prior) =
      if not ((c.cpinfo prior).cp_ts == c.checkpoints.ts)
      then some (einval, made_checkpoint, c)
      else make_new prior c

  -- `sivfs_make_checkpoint`. The Boolean is `*made_checkpoint`, which an error leaves as it was.
  unfoldable pub make_checkpoint : Cycle → Option (Rc × Bool × Cycle)
  make_checkpoint c =
      if not answers.has_state
      then some (einval, made_checkpoint, c)
      else if s.master_ts == c.checkpoints.ts
      then some (ok, false, c)
      else make_prior c c.checkpoints.checkpoint
