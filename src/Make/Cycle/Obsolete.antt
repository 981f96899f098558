-- ===== src/Make/Cycle/Obsolete.antt =====
-- The pages that `_sivfs_make_checkpoint` of kern/sivfs_make_checkpoint.c hands to the collector.
use sivfs_public.Base.{
  ℕ, suc, ◌+◌, ◌^◌, ◌<◌, ◌≤◌, ◌≡◌, ◌≢◌, refl, sym, ap, subst, ◌∙◌, Option, none, some, List, [],
  arith, length, All, Rc, ok, failed as is_error,
}
use mathlib.Core.Bool.{true≢false}
use sivfs_public.Walk.{Ended, done, failed, out_of_fuel}
use sivfs_public.Log.{Shared}
use sivfs_public.Log.Find.{Consecutive}
use sivfs_public.Commit.Validate.{Txn, logs}
use sivfs_public.Page.Scan.{between, scan_fold}
use sivfs_public.Page.Replay.{IsReadable, replay}
use sivfs_public.Page.Newest.{seen-IsReadable}
use sivfs_public.Make.{Maker}
use sivfs_public.Make.Got.{pages_of}
use sivfs_public.Make.Round.{Tree, Gone, AllGone}
use sivfs_public.Make.Paths.{IsSmall}
use sivfs_public.Make.Cycle.{make_entry, make_pages, pages_ended}
use sivfs_public.Make.Cycle.Scanned.{make_pages-scan_fold}
use sivfs_public.Make.Cycle.Replays.{Ends, scan-Ends}

module _ (zero_pxd_page : List ℕ) (next_ts : ℕ) where
  -- If the pages were made, they are a tree, and no path of the new checkpoint leads to a page that the new
  -- one made obsolete.
  abbrev pub Discards : Option (Rc × Maker) → Type 0
  Discards none = ⊥
  Discards (some (rc, m')) = rc ≡ ok → Tree zero_pxd_page m' × AllGone zero_pxd_page m'

  first_page : IsSmall 0 0
  first_page = record { small_ino = omega arith; small_page = omega arith }

  pages_ended-Discards :
      (m : Maker) (rs : List Txn) (some_ts : next_ts ≢ 0)
      → AllGone zero_pxd_page m
      → (r : Ended Maker)
      → Ends zero_pxd_page next_ts 0 0 [] first_page refl some_ts (replay 0 0 rs) m r
      → Discards (pages_ended zero_pxd_page next_ts r)
  unfolding pages_ended
  pages_ended-Discards m rs some_ts g (done m') (f, t, _, h) = λ e. (t, h g)
  pages_ended-Discards m rs some_ts g (failed rc m') (f, bad) =
      λ e. absurd (true≢false (sym bad ∙ ap is_error e))
  pages_ended-Discards m rs some_ts g out_of_fuel e = e

  -- Where the log has every transaction since the latest checkpoint, whose pages are a tree, making
  -- the pages of the next one with an empty stack of obsolete pages ends, and if it succeeds, the
  -- new checkpoint is again a tree of pages, and no path in it leads to any of the pages that are
  -- then on the stack, which is given to the collector.
  pub make_pages-Discards :
      (s : Shared) (latest_checkpoint : ℕ) (m : Maker) (rs : List Txn) (first : ℕ)
      → s.log ≡ logs rs
      → Consecutive first (logs rs)
      → All IsReadable rs
      → s.master_log_deleted_ts ≤ suc latest_checkpoint
      → first ≤ suc latest_checkpoint
      → latest_checkpoint < next_ts
      → next_ts < first + length rs
      → next_ts < 2 ^ 63
      → Tree zero_pxd_page m
      → m.obsoleted_pages ≡ some []
      → Discards (make_pages zero_pxd_page next_ts s latest_checkpoint m)
  make_pages-Discards s latest_checkpoint m rs first e c a d f later l small_ts t fresh_stack =
      subst Discards
        (sym (
          make_pages-scan_fold zero_pxd_page s next_ts latest_checkpoint m rs first e c d f later l
            small_ts))
        (pages_ended-Discards m seen some_ts
          (subst (λ (o : Option (List ℕ)). All (Gone zero_pxd_page m) (pages_of o))
            (sym fresh_stack) tt)
          (scan_fold (make_entry zero_pxd_page next_ts) seen m)
          (scan-Ends zero_pxd_page next_ts 0 0 [] first_page refl some_ts seen m
            (seen-IsReadable rs first (suc latest_checkpoint) next_ts a) t))
    where
      seen : List Txn
      seen = between first (suc latest_checkpoint) next_ts rs

      some_ts : next_ts ≢ 0
      some_ts h = absurd (omega (arith, h, later))
