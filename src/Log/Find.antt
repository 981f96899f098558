-- ===== src/Log/Find.antt =====
-- Looking entries up by timestamp in the log of kern/sivfs_shared_state.c, whose timestamps follow
-- one another.
use sivfs_public.Base.{
  ℕ, zero, suc, ◌+◌, ◌-◌, ◌≤◌, ◌≡◌, refl, ap, subst, some, List, [], ◌∷◌, ◌++◌, arith, length, drop,
  ==_iff, ==_ne, le→ltb, lt→ltb, none, ◌<◌,
}
use sivfs_public.Log.{LogEntry, Shared, lookup, ts_to_log_entry}

-- The entries have the timestamps `t`, `t + 1`, and so on.
abbrev pub Consecutive : ℕ → List LogEntry → Type 0
Consecutive t [] = Unit {0}
Consecutive t (e ∷ es) = (e.ts ≡ t) × Consecutive (suc t) es

pub Consecutive-drop :
    (n t : ℕ) (es : List LogEntry) → Consecutive t es → Consecutive (t + n) (drop n es)
Consecutive-drop zero t es c = subst (λ k. Consecutive k es) (omega arith) c
Consecutive-drop (suc n) t [] c = tt
Consecutive-drop (suc n) t (e ∷ es) c =
    subst (λ k. Consecutive k (drop n es)) (omega arith) (Consecutive-drop n (suc t) es c.1)

pub Consecutive-append :
    (t : ℕ) (es : List LogEntry) (e : LogEntry)
    → Consecutive t es
    → e.ts ≡ t + length es
    → Consecutive t (es ++ (e ∷ []))
Consecutive-append t [] e c h = (omega arith, tt)
Consecutive-append t (d ∷ es) e c h = (c.0, Consecutive-append (suc t) es e c.1 (omega arith))

lookup-drop :
    (k t ts : ℕ) (es : List LogEntry) → Consecutive t es → ts ≡ t + k → lookup ts es ≡ drop k es
unfolding lookup
lookup-drop zero t ts [] c h = refl
lookup-drop zero t ts (e ∷ es) c h = rw ((==_iff e.ts ts).1 (omega arith))
lookup-drop (suc k) t ts [] c h = refl
lookup-drop (suc k) t ts (e ∷ es) c h =
    rw (==_ne e.ts ts (omega arith)) (lookup-drop k (suc t) ts es c.1 (omega arith))

-- `sivfs_ts_to_log_entry` on a log that begins at `t`, asked for a timestamp from `t` on that was not
-- garbage collected, gives the entries from that timestamp on; NULL behind the end.
pub ts_to_log_entry-drop :
    (s : Shared) (t ts ts_start : ℕ)
    → Consecutive t s.log
    → t ≤ ts
    → s.master_log_deleted_ts ≤ ts_start
    → ts_to_log_entry s ts ts_start ≡ some (drop (ts - t) s.log)
unfolding ts_to_log_entry
ts_to_log_entry-drop s t ts ts_start c h k =
    rw (le→ltb _ _ k) (ap some (lookup-drop (ts - t) t ts s.log c (omega arith)))

-- Of what may have been garbage collected, it gives ENOMEM.
pub ts_to_log_entry-deleted :
    (s : Shared) (ts ts_start : ℕ)
    → ts_start < s.master_log_deleted_ts
    → ts_to_log_entry s ts ts_start ≡ none
unfolding ts_to_log_entry
ts_to_log_entry-deleted s ts ts_start h = rw (lt→ltb _ _ h)
