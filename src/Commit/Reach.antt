-- ===== src/Commit/Reach.antt =====
-- What is reachable by the steps of threads that commit by
-- kern/sivfs_commit_update_checkpoints.c, while the log is collected by kern/sivfs_gc_log.c.
use sivfs_public.Base.{
  Rc, ok, ℕ, suc, ◌+◌, ◌-◌, ◌≤◌, ◌<◌, ◌≡◌, refl, sym, ◌∙◌, ap, subst, ◌⊎◌, inl, inr, Bool, false,
  some, List, [], ◌∷◌, ◌++◌, arith, leb, Bool-cases, if◌then◌else◌, length, length-append, All-map,
  All-right,
}
use sivfs_public.Log.{LogEntry, Shared, gc_log}
use sivfs_public.Log.Find.{Consecutive}
use sivfs_public.Log.Gc.{drop_before, gc_log-left}
use sivfs_public.Commit.Validate.{Txn, logs, AreLogged}
use sivfs_public.Commit.Steps.{
  System, CommitStep, begins, validates, releases, collects, CommitSteps, none_yet, followed,
}
use sivfs_public.Commit.Isolation.{Isolated, IsTxn, Decided, IsValid, length-logs}
use sivfs_public.Commit.Preserved.{appended, begins-IsValid, validates-IsValid, releases-IsValid}

Consecutive-right :
    (first : ℕ) (gone kept : List Txn)
    → Consecutive first (logs (gone ++ kept))
    → Consecutive (first + length gone) (logs kept)
Consecutive-right first [] kept c = subst (λ k. Consecutive k (logs kept)) (omega arith) c
Consecutive-right first (t ∷ gone) kept c =
    subst (λ k. Consecutive k (logs kept)) (omega arith)
      (Consecutive-right (suc first) gone kept c.1)

AreLogged-right : (gone kept : List Txn) → AreLogged (gone ++ kept) → AreLogged kept
AreLogged-right [] kept a = a
AreLogged-right (t ∷ gone) kept a = AreLogged-right gone kept a.1

Isolated-right : (gone kept : List Txn) → Isolated (gone ++ kept) → Isolated kept
Isolated-right [] kept i = i
Isolated-right (t ∷ gone) kept i = Isolated-right gone kept i.1

-- What the garbage collection took off lies before its bound.
gone-before :
    (first stop : ℕ) (gone kept : List Txn)
    → Consecutive first (logs (gone ++ kept))
    → logs kept ≡ drop_before stop (logs (gone ++ kept))
    → (length gone ≡ 0) ⊎ (first + length gone ≤ stop)
gone-before first stop [] kept c e = inl refl
gone-before first stop (t ∷ gone) kept c e = elim (Bool-cases (leb stop t.entry.ts)) [
  | inl stays ↦ absurd (
      omega (
        arith,
        ap length (e ∙ ap pick stays),
        length-logs kept,
        length-logs (gone ++ kept),
        length-append gone kept,
      ))
  | inr goes ↦ elim (gone-before (suc first) stop gone kept c.1 (e ∙ ap pick goes)) [
    | inl none_more ↦ inr (omega (arith, none_more, c.0, before goes))
    | inr more ↦ inr (omega (arith, more))
  ]
]
  where
    pick : Bool → List LogEntry
    pick b = if b then t.entry ∷ logs (gone ++ kept) else drop_before stop (logs (gone ++ kept))

    before : leb stop t.entry.ts ≡ false → t.entry.ts < stop
    before h = ground arith

collects-IsValid :
    (first : ℕ) (s s' : Shared) (gone kept : List Txn) (latest : ℕ) (checked_out : List ℕ)
    (did did' : Bool) (rc : Rc)
    → gc_log ok ok did s latest checked_out ≡ some (rc, did', s')
    → s.master_log_deleted_ts ≤ s'.master_log_deleted_ts
    → s'.log ≡ logs kept
    → IsValid first (record { shared = s; txns = gone ++ kept })
    → IsValid (first + length gone) (record { shared = s'; txns = kept })
collects-IsValid first s s' gone kept latest checked_out did did' rc e rises l v = record {
  logged = l;
  consecutive = Consecutive-right first gone kept v.consecutive;
  entries = AreLogged-right gone kept v.entries;
  each = All-right IsTxn gone kept v.each;
  next = omega (arith, v.next, length-append gone kept, left.1);
  released = omega (arith, v.released, left.1, left.2);
  decided =
      All-map (Decided s.master_ts) (Decided s'.master_ts) kept
        (λ t f k. f (omega (arith, left.2, k)))
        (All-right (Decided s.master_ts) gone kept v.decided);
  opens =
      elim (gone-before first s'.master_log_deleted_ts gone kept v.consecutive
        (sym l ∙ left.0 ∙ ap (drop_before s'.master_log_deleted_ts) v.logged)) [
          | inl none_gone ↦ omega (arith, v.opens, none_gone, rises)
          | inr some_gone ↦ omega (arith, some_gone)
        ];
  isolated = Isolated-right gone kept v.isolated;
}
  where
    left :
        (s'.log ≡ drop_before s'.master_log_deleted_ts s.log)
        × (s'.commit_started_ts ≡ s.commit_started_ts)
        × (s'.master_ts ≡ s.master_ts)
    left = gc_log-left s s' latest checked_out did did' rc e

-- Each step keeps the invariant, of a log that may begin later.
pub step-IsValid :
    (first : ℕ) (a b : System) → CommitStep a b → IsValid first a → (first' : ℕ) × IsValid first' b
step-IsValid first _ _ (begins s s' txns k i mine dest es state_ts l snap small e d) v = (
  first,
  begins-IsValid first s s' txns mine dest es state_ts l snap small
      (appended k i s s' mine dest small e d) v,
)
step-IsValid first _ _ (validates s before t after dest u e) v =
    (first, validates-IsValid first s before t after dest u e v)
step-IsValid first _ _ (releases s s' before t after f e) v =
    (first, releases-IsValid first s s' before t after f e v)
step-IsValid first _ _ (collects s s' gone kept latest checked_out did did' rc e rises l) v = (
  first + length gone,
  collects-IsValid first s s' gone kept latest checked_out did did' rc e rises l v,
)

pub steps-IsValid :
    (first : ℕ) (a b : System) → CommitSteps a b → IsValid first a → (first' : ℕ) × IsValid first' b
steps-IsValid first _ _ (none_yet a) v = (first, v)
steps-IsValid first _ _ (followed a b c ss s) v =
    let before = steps-IsValid first a b ss v in step-IsValid before.0 b c s before.1

-- A filesystem after `init`, or after all of its log was collected: no transaction is in the log.
pub record Starts (s : Shared) : Type 0 where
  pub no_log : s.log ≡ []
  pub caught_up : s.master_ts ≡ s.commit_started_ts
  pub all_deleted : s.commit_started_ts ≤ s.master_log_deleted_ts - 1

abbrev pub idle : Shared → System
idle s = record { shared = s; txns = [] }

pub Starts-IsValid : (s : Shared) → Starts s → IsValid (suc s.commit_started_ts) (idle s)
Starts-IsValid s h = record {
  logged = h.no_log;
  consecutive = tt;
  entries = tt;
  each = tt;
  next = omega arith;
  released = omega (arith, h.caught_up);
  decided = tt;
  opens = omega (arith, h.all_deleted);
  isolated = tt;
}
