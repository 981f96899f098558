-- ===== src/Page/Scan.antt =====
-- The scan over the log visits exactly the log entries of the range of timestamps, in order.
use sivfs_public.Base.{
  ℕ, zero, suc, ◌+◌, ◌-◌, ◌≤◌, ◌<◌, ◌≡◌, refl, sym, ◌∙◌, ap, true, List, [], ◌∷◌, arith, lt→ltb,
  length, length-drop, take, drop, fun_ext, some, subst,
}
use sivfs_public.Walk.{Step, Ended, done, then_next}
use sivfs_public.Log.{LogEntry, Shared, ts_to_log_entry}
use sivfs_public.Log.Find.{Consecutive, Consecutive-drop, ts_to_log_entry-drop}
use sivfs_public.Commit.{at_end}
use sivfs_public.Commit.Validate.{Txn, logs, logs-drop, at_end-false}
use sivfs_public.Page.{scan}

-- The transactions at the timestamps from `start` to `stop`, of a log that begins at `first`.
abbrev pub between : (first start stop : ℕ) → List Txn → List Txn
between first start stop rs = take (suc (stop - start)) (drop (start - first) rs)

pub at_end-true :
    (t : ℕ) (rs : List Txn) → Consecutive (suc t) (logs rs) → at_end t (logs rs) ≡ true
unfolding at_end
at_end-true t [] c = refl
at_end-true t (r ∷ rs) c = lt→ltb t r.entry.ts (omega (arith, c.0))

module _ {S : Type 0} (visit : LogEntry → S → Step S) where
  -- The body at each log entry in turn, until it stops or fails.
  abbrev pub scan_fold : List Txn → S → Ended S
  scan_fold [] s = done s
  scan_fold (r ∷ rs) s = then_next (visit r.entry s) (scan_fold rs)

  scan-fold :
      (n t stop : ℕ) (rs : List Txn) (s : S)
      → Consecutive t (logs rs)
      → stop ≡ t + n
      → n < length rs
      → scan visit stop (logs rs) s ≡ scan_fold (take (suc n) rs) s
  unfolding scan
  scan-fold n t stop [] s c e h = absurd (omega (arith, h))
  scan-fold zero t stop (r ∷ rs) s c e h =
      ap (then_next (visit r.entry s)) (
        fun_ext
          λ s'. rw (subst (λ k. at_end k (logs rs) ≡ true) t_stop (at_end-true t rs c.1)) refl)
    where
      t_stop : t ≡ stop
      t_stop = omega (arith, e)
  scan-fold (suc n) t stop (r ∷ rs) s c e h = ap (then_next (visit r.entry s)) (
      fun_ext λ s'.
        rw (at_end-false n t stop rs c.1 e (omega arith))
          (scan-fold n (suc t) stop rs s' c.1 (omega arith) (omega arith)))

nonempty : (rs : List Txn) → 0 < length rs → (r : Txn) × (rs' : List Txn) × (rs ≡ r ∷ rs')
nonempty [] h = elim h [ ]
nonempty (r ∷ rs) h = (r, rs, refl)

-- What the log gives from `start` on: the entries in the log, of which there is at least one, so that
-- the caller scans those up to `stop`.
pub scan-between :
    {S : Type 0} (visit : LogEntry → S → Step S) (s : Shared) (rs : List Txn) (first start stop : ℕ)
    → s.log ≡ logs rs
    → Consecutive first (logs rs)
    → s.master_log_deleted_ts ≤ start
    → first ≤ start
    → start ≤ stop
    → stop < first + length rs
    → (c : LogEntry) × (cs : List LogEntry) × (ts_to_log_entry s start start ≡ some (c ∷ cs))
      × ((x : S) → scan visit stop (c ∷ cs) x ≡ scan_fold visit (between first start stop rs) x)
scan-between visit s rs first start stop e c d f o h = (
  at_start.0.entry,
  logs at_start.1,
  found ∙ ap (λ l. some (logs l)) at_start.2,
  λ x.
      sym (ap (λ l. scan visit stop (logs l) x) at_start.2)
      ∙ scan-fold visit (stop - start) (first + (start - first)) stop rest x placed (omega arith)
          long,
)
  where
    rest : List Txn
    rest = drop (start - first) rs

    long : stop - start < length rest
    long = omega (arith, length-drop (start - first) rs)

    at_start : (r : Txn) × (rs' : List Txn) × (rest ≡ r ∷ rs')
    at_start = nonempty rest (omega (arith, long))

    placed : Consecutive (first + (start - first)) (logs rest)
    placed =
        subst (Consecutive _) (sym (logs-drop (start - first) rs))
          (Consecutive-drop (start - first) first (logs rs) c)

    found : ts_to_log_entry s start start ≡ some (logs rest)
    found =
        ts_to_log_entry-drop s first start start (subst (Consecutive first) (sym e) c) f d
        ∙ ap some (ap (drop (start - first)) e ∙ sym (logs-drop (start - first) rs))
