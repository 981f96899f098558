-- ===== src/Make/Cycle/Replays.antt =====
-- `_sivfs_make_checkpoint` of kern/sivfs_make_checkpoint.c applies the log to a checkpoint as
-- `my_sivfs_update_page` of kern/sivfs_commit_update_checkpoints.c applies it to a page.
use sivfs_public.Base.{
  ℕ, ◌%◌, ◌≡◌, ◌≢◌, ◌⊎◌, inl, inr, sym, ap, subst, ◌∙◌, true, false, some, List, [], ◌∷◌,
  if◌then◌else◌, if-cases, Bool-cases, All, Rc, ok, failed as is_error,
}
use mathlib.Core.Bool.{true≢false}
use sivfs_public.Writeset.Entry.{Entry}
use sivfs_public.Walk.{Step, next, fail, Ended, done, failed, out_of_fuel, then_next}
use sivfs_public.Walk.Fold.{header, fold, walk_all-fold}
use sivfs_public.Commit.Validate.{Txn}
use sivfs_public.Page.{page_size, as_step}
use sivfs_public.Page.Scan.{scan_fold}
use sivfs_public.Page.Replay.{IsReadable, replay, replay_entry, replay_entries}
use sivfs_public.Make.{Maker, apply_change_checkpoint}
use sivfs_public.Make.Round.{AllGone, Frame, Frame-refl, Tree}
use sivfs_public.Make.Change.{Changed}
use sivfs_public.Make.Frames.{Frame-trans}
use sivfs_public.Make.Read.{read_checkpoint}
use sivfs_public.Make.Paths.{IsSmall, path_of}
use sivfs_public.Make.Apply.{
  apply_change_checkpoint-Finished, read_checkpoint-apply_change_checkpoint,
}
use sivfs_public.Make.Cycle.{make_body, make_entry}

module _ (zero_pxd_page : List ℕ) (next_ts file_ino file_offset : ℕ) (buf : List ℕ)
    (small : IsSmall file_ino file_offset) (whole : file_offset % page_size ≡ 0)
    (some_ts : next_ts ≢ 0) where
  abbrev reading : Maker → Rc × List ℕ
  reading m = read_checkpoint m.mem page_size (some m.root) file_ino file_offset buf

  -- How a part of the log may end, which makes of a page what `change` does.
  abbrev pub Ends : (change : List ℕ → List ℕ) → Maker → Ended Maker → Type 0
  Ends change m (done m') =
      Frame next_ts m m'
      × Tree zero_pxd_page m'
      × ((words : List ℕ) → reading m ≡ (ok, words) → reading m' ≡ (ok, change words))
      × (AllGone zero_pxd_page m → AllGone zero_pxd_page m')
  Ends change m (failed rc m') = Frame next_ts m m' × (is_error rc ≡ true)
  Ends change m out_of_fuel = ⊥

  then-Ends :
      (change change' : List ℕ → List ℕ) (m m1 : Maker) (r : Ended Maker)
      → Frame next_ts m m1
      → ((words : List ℕ) → reading m ≡ (ok, words) → reading m1 ≡ (ok, change words))
      → (AllGone zero_pxd_page m → AllGone zero_pxd_page m1)
      → Ends change' m1 r
      → Ends (λ words. change' (change words)) m r
  then-Ends change change' m m1 (done m') f g h (a, b, c, d) =
      (Frame-trans next_ts m m1 m' f a, b, λ words e. c (change words) (g words e), λ k. d (h k))
  then-Ends change change' m m1 (failed rc m') f g h (a, b) = (Frame-trans next_ts m m1 m' f a, b)
  then-Ends change change' m m1 out_of_fuel f g h a = a

  fold-Ends :
      (es : List Entry) (m : Maker)
      → Tree zero_pxd_page m
      → Ends
          (replay_entries file_ino file_offset es)
          m
          (fold (make_body zero_pxd_page next_ts) es m)
  unfolding make_body
  fold-Ends [] m t = (Frame-refl next_ts m, t, λ words e. e, λ g. g)
  fold-Ends (e ∷ es) m t =
      after (fold-Ends es (apply_change_checkpoint zero_pxd_page next_ts false (header e) m).1)
        (apply_change_checkpoint-Finished zero_pxd_page next_ts false (header e) m t some_ts)
    where
      r : Rc × Maker
      r = apply_change_checkpoint zero_pxd_page next_ts false (header e) m

      Goal : Step Maker → Type 0
      Goal st =
          Ends (replay_entries file_ino file_offset (e ∷ es)) m
            (then_next st (fold (make_body zero_pxd_page next_ts) es))

      after :
          (Tree zero_pxd_page r.1
            → Ends
                (replay_entries file_ino file_offset es)
                r.1
                (fold (make_body zero_pxd_page next_ts) es r.1))
          → Frame next_ts m r.1
            × ((is_error r.0 ≡ true)
                ⊎ (r.0 ≡ ok)
                  × IsSmall (header e).ino (header e).file_offset
                  × Changed zero_pxd_page next_ts false
                      (header e)
                      (path_of (header e).ino (header e).file_offset)
                      m
                      r.1)
          → Goal (if is_error r.0 then fail r.0 r.1 else next r.1)
      after rest (f, inl bad) =
          if-cases Goal (is_error r.0) (fail r.0 r.1) (next r.1) (λ _. (f, bad))
            (λ good. absurd (true≢false (sym bad ∙ good)))
      after rest (f, inr (good, s, c)) =
          if-cases Goal (is_error r.0) (fail r.0 r.1) (next r.1)
            (λ bad. absurd (true≢false (sym bad ∙ ap is_error good)))
            (λ _.
              then-Ends (replay_entry file_ino file_offset e)
                (replay_entries file_ino file_offset es) m r.1
                (fold (make_body zero_pxd_page next_ts) es r.1) f
                (λ words h.
                  read_checkpoint-apply_change_checkpoint zero_pxd_page next_ts false (header e) m
                    file_ino file_offset buf t some_ts good small whole
                  ∙ ap (λ (old : Rc × List ℕ). (ok, replay_entry file_ino file_offset e old.1)) h)
                c.gone (rest c.tree))

  -- What follows the walk over a writeset.
  as_step-Ends :
      (change change' : List ℕ → List ℕ) (m : Maker) (k : Maker → Ended Maker)
      → ((m1 : Maker) → Tree zero_pxd_page m1 → Ends change' m1 (k m1))
      → (r : Ended Maker) → Ends change m r
      → Ends (λ words. change' (change words)) m (then_next (as_step r) k)
  as_step-Ends change change' m k after (done m1) (f, t, g, h) =
      then-Ends change change' m m1 (k m1) f g h (after m1 t)
  as_step-Ends change change' m k after (failed rc m1) e = e
  as_step-Ends change change' m k after out_of_fuel e = e

  entry-Ends :
      (r : Txn) (m : Maker) (change' : List ℕ → List ℕ) (k : Maker → Ended Maker)
      → IsReadable r
      → Tree zero_pxd_page m
      → ((m1 : Maker) → Tree zero_pxd_page m1 → Ends change' m1 (k m1))
      → Ends
          (λ words.
            change' (
              if r.entry.aborted
              then words
              else replay_entries file_ino file_offset r.writes words))
          m
          (then_next (make_entry zero_pxd_page next_ts r.entry m) k)
  unfolding make_entry
  entry-Ends r m change' k l t after = elim (Bool-cases r.entry.aborted) [
    | inl gone ↦ rw gone (after m t)
    | inr committed ↦ rw committed (
        as_step-Ends (replay_entries file_ino file_offset r.writes) change' m k after _ (
          subst (Ends (replay_entries file_ino file_offset r.writes) m)
            (sym (
              walk_all-fold (make_body zero_pxd_page next_ts) r.writes r.entry.ws m l.logged.entries
                l.logged.holds))
            (fold-Ends r.writes m t)))
  ]

  pub scan-Ends :
      (rs : List Txn) (m : Maker)
      → All IsReadable rs
      → Tree zero_pxd_page m
      → Ends (replay file_ino file_offset rs) m (scan_fold (make_entry zero_pxd_page next_ts) rs m)
  scan-Ends [] m a t = (Frame-refl next_ts m, t, λ words e. e, λ g. g)
  scan-Ends (r ∷ rs) m a t =
      entry-Ends r m (replay file_ino file_offset rs)
        (scan_fold (make_entry zero_pxd_page next_ts) rs) a.0 t (λ m1 u. scan-Ends rs m1 a.1 u)
