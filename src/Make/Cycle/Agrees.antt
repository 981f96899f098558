-- ===== src/Make/Cycle/Agrees.antt =====
-- A page of the checkpoint that `_sivfs_make_checkpoint` of kern/sivfs_make_checkpoint.c makes, and the same
-- page brought up to date by `my_sivfs_update_page` of kern/sivfs_commit_update_checkpoints.c.
use sivfs_public.Base.{
  ℕ, suc, ◌+◌, ◌%◌, ◌^◌, ◌<◌, ◌≤◌, ◌≡◌, ◌≢◌, ◌⊎◌, inl, inr, refl, sym, ap, subst, ◌∙◌, true, Option,
  none, some, List, arith, length, All, Rc, ok, failed as is_error,
}
use sivfs_public.Walk.{Ended, done, failed, out_of_fuel}
use sivfs_public.Log.{Shared}
use sivfs_public.Log.Find.{Consecutive}
use sivfs_public.Commit.Validate.{Txn, logs}
use sivfs_public.Page.{page_size, update_page, Checkpoint}
use sivfs_public.Page.Scan.{between, scan_fold}
use sivfs_public.Page.Replay.{IsReadable, replay}
use sivfs_public.Page.Newest.{update_page-replay, seen-IsReadable}
use sivfs_public.Make.{Maker}
use sivfs_public.Make.Round.{Tree}
use sivfs_public.Make.Snapshot.{IsSnapshot, Frame-read_checkpoint}
use sivfs_public.Make.Read.{read_checkpoint}
use sivfs_public.Make.Read.Files.{Tree-HasZeroPages, read_checkpoint-path_of}
use sivfs_public.Make.Paths.{IsSmall}
use sivfs_public.Make.Cycle.{make_entry, make_pages, pages_ended}
use sivfs_public.Make.Cycle.Scanned.{make_pages-scan_fold}
use sivfs_public.Make.Cycle.Replays.{Ends, scan-Ends}

module _ (zero_pxd_page : List ℕ) (s : Shared) (next_ts latest_checkpoint : ℕ) (m : Maker)
    (file_ino file_offset : ℕ) (buf mem : List ℕ) where
  -- A page of a checkpoint, given by its root.
  abbrev pub page_read : Maker → (cp_root : ℕ) → Rc × List ℕ
  page_read k cp_root = read_checkpoint k.mem page_size (some cp_root) file_ino file_offset buf

  -- The older checkpoint, for a page fault.
  abbrev pub older_checkpoint : Checkpoint
  older_checkpoint = record {
    cp_ts = latest_checkpoint;
    read = λ ino offset. read_checkpoint m.mem page_size (some m.root) ino offset buf;
  }

  -- How `_sivfs_make_checkpoint` may end: with a page that is the one of a fault, or with an error; the
  -- older checkpoint has the page that it had.
  abbrev pub Agrees : Option (Rc × Maker) → Type 0
  Agrees none = ⊥
  Agrees (some (rc, m')) =
      (page_read m' m.root ≡ page_read m m.root)
      × ((is_error rc ≡ true)
          ⊎ (rc ≡ ok)
            × (update_page s next_ts file_ino file_offset (some older_checkpoint) mem
                ≡ some (page_read m' m'.root)))

  abbrev old_words : List ℕ
  old_words = (page_read m m.root).1

  module _ (t : Tree zero_pxd_page m) (old : IsSnapshot zero_pxd_page next_ts m m.root)
      (small : IsSmall file_ino file_offset) (whole : file_offset % page_size ≡ 0) where
    old_read : page_read m m.root ≡ (ok, old_words)
    old_read =
        let path =
          read_checkpoint-path_of zero_pxd_page m m.root file_ino file_offset buf
            (Tree-HasZeroPages zero_pxd_page m t) small whole in
        path ∙ ap (λ (r : Rc × List ℕ). (ok, r.1)) (sym path)

    pages_ended-Agrees :
        (rs : List Txn) (some_ts : next_ts ≢ 0)
        → (update_page s next_ts file_ino file_offset (some older_checkpoint) mem
            ≡ some (ok, replay file_ino file_offset rs old_words))
        → (r : Ended Maker)
        → Ends zero_pxd_page next_ts file_ino file_offset buf small whole some_ts
            (replay file_ino file_offset rs)
            m
            r
        → Agrees (pages_ended zero_pxd_page next_ts r)
    unfolding pages_ended
    pages_ended-Agrees rs some_ts fault (done m') (f, t', g, k) = (
      Frame-read_checkpoint zero_pxd_page next_ts m m' m.root old f file_ino file_offset buf t small
          whole,
      inr (refl, fault ∙ ap some (sym (g old_words old_read))),
    )
    pages_ended-Agrees rs some_ts fault (failed rc m') (f, bad) = (
      Frame-read_checkpoint zero_pxd_page next_ts m m' m.root old f file_ino file_offset buf t small
          whole,
      inl bad,
    )
    pages_ended-Agrees rs some_ts fault out_of_fuel e = e

  -- Making the pages of a checkpoint at a timestamp `next_ts` up to which the log has every
  -- transaction since the latest checkpoint, from a tree of pages of which none belongs to a
  -- checkpoint at `next_ts`, never runs out of fuel: it ends with an error, or each page of each
  -- file that a checkpoint has room for is, in the new one, exactly what a fault on that page at
  -- the version `next_ts` makes of it. In both cases the page of the latest checkpoint is what it
  -- was, though the two share pages.
  pub make_pages-Agrees :
      (rs : List Txn) (first : ℕ)
      → s.log ≡ logs rs
      → Consecutive first (logs rs)
      → All IsReadable rs
      → s.master_log_deleted_ts ≤ suc latest_checkpoint
      → first ≤ suc latest_checkpoint
      → latest_checkpoint < next_ts
      → next_ts < first + length rs
      → next_ts < 2 ^ 63
      → Tree zero_pxd_page m
      → IsSnapshot zero_pxd_page next_ts m m.root
      → IsSmall file_ino file_offset
      → file_offset % page_size ≡ 0
      → Agrees (make_pages zero_pxd_page next_ts s latest_checkpoint m)
  make_pages-Agrees rs first e c a d f later l small_ts t old small whole =
      subst Agrees
        (sym (
          make_pages-scan_fold zero_pxd_page s next_ts latest_checkpoint m rs first e c d f later l
            small_ts))
        (pages_ended-Agrees t old small whole seen some_ts
          (update_page-replay s rs first next_ts file_ino file_offset older_checkpoint mem old_words
            e c a d f later l small_ts whole (old_read t old small whole))
          (scan_fold (make_entry zero_pxd_page next_ts) seen m)
          (scan-Ends zero_pxd_page next_ts file_ino file_offset buf small whole some_ts seen m
            (seen-IsReadable rs first (suc latest_checkpoint) next_ts a) t))
    where
      seen : List Txn
      seen = between first (suc latest_checkpoint) next_ts rs

      some_ts : next_ts ≢ 0
      some_ts h = absurd (omega (arith, h, later))
