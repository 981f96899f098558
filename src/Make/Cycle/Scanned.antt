-- ===== src/Make/Cycle/Scanned.antt =====
-- The log that `_sivfs_make_checkpoint` of kern/sivfs_make_checkpoint.c goes through.
use sivfs_public.Base.{
  ℕ, suc, ◌+◌, ◌^◌, ◌<◌, ◌≤◌, ◌≡◌, refl, sym, ap, subst, ◌∙◌, false, Option, none, some, List, [],
  ◌∷◌, arith, ltb, le→ltb, ◌==◌, ==_iff, ==_ne, if◌then◌else◌, if-cases, get_or, length, All, add64,
  Rc, ok, einval, failed as is_error,
}
use sivfs_public.Writeset.Entry.{Entry}
use sivfs_public.Walk.{Step, then_next, Ended, done, failed, out_of_fuel}
use sivfs_public.Walk.Fold.{header, fold, walk_all-fold}
use sivfs_public.Log.{LogEntry, Shared, lookup, ts_to_log_entry}
use sivfs_public.Log.Find.{Consecutive}
use sivfs_public.Commit.Validate.{Txn, logs}
use sivfs_public.Page.{as_step, scan}
use sivfs_public.Page.Scan.{between, scan_fold, scan-between}
use sivfs_public.Page.Replay.{IsReadable}
use sivfs_public.Make.{Maker, apply_change_checkpoint}
use sivfs_public.Make.Cycle.{make_body, make_entry, make_pages, make_from, pages_ended}

lookup-found : (ts : ℕ) (es cs : List LogEntry) (c : LogEntry) → lookup ts es ≡ c ∷ cs → c.ts ≡ ts
unfolding lookup
lookup-found ts [] cs c e = absurd (omega (arith, ap length e))
lookup-found ts (d ∷ es) cs c e =
    if-cases (λ (l : List LogEntry). l ≡ c ∷ cs → c.ts ≡ ts) (d.ts == ts) (d ∷ es) (lookup ts es)
      (λ hit h. ap (λ (l : List LogEntry). (get_or l 0 c).ts) (sym h) ∙ (==_iff d.ts ts).0 hit)
      (λ _ h. lookup-found ts es cs c h) e

ts_to_log_entry-found :
    (s : Shared) (t : ℕ) (c : LogEntry) (cs : List LogEntry)
    → ts_to_log_entry s t t ≡ some (c ∷ cs)
    → c.ts ≡ t
unfolding ts_to_log_entry
ts_to_log_entry-found s t c cs =
    if-cases (λ (o : Option (List LogEntry)). o ≡ some (c ∷ cs) → c.ts ≡ t)
      (ltb t s.master_log_deleted_ts) none (some (lookup t s.log)) (λ _ e. cc)
      (λ _ e. lookup-found t s.log cs c (ap (λ (o : Option (List LogEntry)). got o) e))
  where
    got : Option (List LogEntry) → List LogEntry
    got none = []
    got (some l) = l

module _ (zero_pxd_page : List ℕ) (s : Shared) (next_ts latest_checkpoint : ℕ) (m : Maker)
    (rs : List Txn) (first : ℕ) where
  -- The transactions since the latest checkpoint, in order.
  pub make_pages-scan_fold :
      s.log ≡ logs rs
      → Consecutive first (logs rs)
      → s.master_log_deleted_ts ≤ suc latest_checkpoint
      → first ≤ suc latest_checkpoint
      → latest_checkpoint < next_ts
      → next_ts < first + length rs
      → next_ts < 2 ^ 63
      → make_pages zero_pxd_page next_ts s latest_checkpoint m
        ≡ pages_ended zero_pxd_page next_ts (
            scan_fold
              (make_entry zero_pxd_page next_ts)
              (between first (suc latest_checkpoint) next_ts rs)
              m)
  unfolding make_pages make_from
  make_pages-scan_fold e c d f later l small_ts =
      ap
        (λ b.
          if b
          then some (einval, m)
          else from (ts_to_log_entry s (add64 latest_checkpoint 1) (add64 latest_checkpoint 1)))
        (==_ne next_ts latest_checkpoint (λ h. absurd (omega (arith, h, later))))
      ∙ ap (λ k. from (ts_to_log_entry s k k)) next
      ∙ ap from got.2
      ∙ ap
          (λ b.
            if b
            then some (ok, m)
            else pages_ended zero_pxd_page next_ts
                (scan (make_entry zero_pxd_page next_ts) next_ts (got.0 ∷ got.1) m))
          in_range
      ∙ ap (pages_ended zero_pxd_page next_ts) (got.3 m)
    where
      seen : List Txn
      seen = between first (suc latest_checkpoint) next_ts rs

      next : add64 latest_checkpoint 1 ≡ suc latest_checkpoint
      next = omega (arith, later, small_ts)

      got :
          (log : LogEntry) × (rest : List LogEntry) × (ts_to_log_entry s
              (suc latest_checkpoint)
              (suc latest_checkpoint)
            ≡ some (log ∷ rest))
          × ((x : Maker)
              → scan (make_entry zero_pxd_page next_ts) next_ts (log ∷ rest) x
                ≡ scan_fold (make_entry zero_pxd_page next_ts) seen x)
      got =
          scan-between (make_entry zero_pxd_page next_ts) s rs first (suc latest_checkpoint) next_ts
            e c d f later l

      in_range : ltb next_ts got.0.ts ≡ false
      in_range =
          le→ltb got.0.ts next_ts (
            omega (arith, later, ts_to_log_entry-found s (suc latest_checkpoint) got.0 got.1 got.2))

      from : Option (List LogEntry) → Option (Rc × Maker)
      from = make_from zero_pxd_page next_ts m

-- The walk ends.
abbrev Returns : {S : Type 0} → Ended S → Type 0
Returns (done s) = Unit
Returns (failed rc s) = Unit
Returns out_of_fuel = ⊥

module _ (zero_pxd_page : List ℕ) (next_ts : ℕ) where
  fold-Returns :
      (es : List Entry) (m : Maker) → Returns (fold (make_body zero_pxd_page next_ts) es m)
  unfolding make_body
  fold-Returns [] m = tt
  fold-Returns (e ∷ es) m =
      if-cases
        (λ (st : Step Maker). Returns (then_next st (fold (make_body zero_pxd_page next_ts) es)))
        (is_error (apply_change_checkpoint zero_pxd_page next_ts false (header e) m).0) _ _
        (λ _. tt)
        (λ _. fold-Returns es (apply_change_checkpoint zero_pxd_page next_ts false (header e) m).1)

  as_step-Returns :
      (k : Maker → Ended Maker)
      → ((m : Maker) → Returns (k m))
      → (r : Ended Maker) → Returns r
      → Returns (then_next (as_step r) k)
  as_step-Returns k h (done m) e = h m
  as_step-Returns k h (failed rc m) e = tt
  as_step-Returns k h out_of_fuel e = e

  pub scan_fold-Returns :
      (rs : List Txn) (m : Maker)
      → All IsReadable rs
      → Returns (scan_fold (make_entry zero_pxd_page next_ts) rs m)
  unfolding make_entry
  scan_fold-Returns [] m a = tt
  scan_fold-Returns (r ∷ rs) m a =
      if-cases
        (λ (st : Step Maker).
          Returns (then_next st (scan_fold (make_entry zero_pxd_page next_ts) rs)))
        r.entry.aborted _ _ (λ _. scan_fold-Returns rs m a.1)
        (λ _.
          as_step-Returns (scan_fold (make_entry zero_pxd_page next_ts) rs)
            (λ m1. scan_fold-Returns rs m1 a.1) _
            (subst Returns
              (sym (
                walk_all-fold (make_body zero_pxd_page next_ts) r.writes r.entry.ws m
                  a.0.logged.entries a.0.logged.holds))
              (fold-Returns r.writes m)))

  pub pages_ended-Returns :
      (r : Ended Maker)
      → Returns r
      → (a : Rc × Maker) × (pages_ended zero_pxd_page next_ts r ≡ some a)
  unfolding pages_ended
  pages_ended-Returns (done m) e = ((ok, m), refl)
  pages_ended-Returns (failed rc m) e = ((rc, m), refl)
  pages_ended-Returns out_of_fuel e = absurd e
