-- ===== src/Commit/Progress.antt =====
-- The wait of Part III of `sivfs_commit_changes` in kern/sivfs_commit_update_checkpoints.c.
use sivfs_public.Base.{
  ℕ, zero, suc, ◌-◌, ◌^◌, ◌≤◌, ◌<◌, ◌≡◌, refl, sym, ◌∙◌, ap, subst, inl, inr, true, some, List, [],
  ◌∷◌, ◌++◌, arith, length, Bool-cases, All-middle, sub64, ==_iff,
}
use sivfs_public.Log.{Shared}
use sivfs_public.Log.Find.{Consecutive}
use sivfs_public.Commit.{commit_release}
use sivfs_public.Commit.Validate.{Txn, logs}
use sivfs_public.Commit.Window.{commit_validate-decides, ts-place}
use sivfs_public.Commit.Steps.{
  System, CommitStep, validates, releases, CommitSteps, none_yet, followed,
}
use sivfs_public.Commit.Isolation.{IsTxn, IsValid}
use sivfs_public.Commit.Reach.{Starts, idle, Starts-IsValid, steps-IsValid, step-IsValid}

split-at :
    (n : ℕ) (ts : List Txn)
    → n < length ts
    → (before : List Txn) × (t : Txn) × (after : List Txn) × (ts ≡ before ++ (t ∷ after))
      × (length before ≡ n)
split-at n [] h = elim h [ ]
split-at zero (t ∷ ts) h = ([], t, ts, refl, refl)
split-at (suc n) (t ∷ ts) h =
    let rest = split-at n ts (omega arith) in
    (t ∷ rest.0, rest.1, rest.2, ap (λ l. t ∷ l) rest.3, ap suc rest.4)

-- A state from which the released timestamp has grown by one.
abbrev pub Released : System → Type 0
Released a = (b : System) × CommitSteps a b × (b.shared.master_ts ≡ suc a.shared.master_ts)

release-turn :
    (s : Shared) (next_ts : ℕ)
    → next_ts ≡ suc s.master_ts
    → next_ts < 2 ^ 63
    → commit_release next_ts s ≡ some (record s { master_ts = next_ts })
unfolding commit_release
release-turn s next_ts e small =
    rw ((==_iff s.master_ts (sub64 next_ts 1)).1 (omega (arith, e, small))) refl

release-next :
    (first : ℕ) (s : Shared) (before : List Txn) (t : Txn) (after : List Txn)
    → IsValid first (record { shared = s; txns = before ++ (t ∷ after) })
    → t.entry.ts ≡ suc s.master_ts
    → t.entry.commit_status_filled_in ≡ true
    → Released (record { shared = s; txns = before ++ (t ∷ after) })
release-next first s before t after v e filled = (
  _,
  followed _ _ _ (none_yet _) (
      releases s (record s { master_ts = t.entry.ts }) before t after filled
        (release-turn s t.entry.ts e (All-middle IsTxn before t after v.each).small)),
  e,
)

-- From a decision of `t` on.
Released-after :
    (a b : System)
    → CommitStep a b
    → b.shared.master_ts ≡ a.shared.master_ts
    → Released b
    → Released a
Released-after a b step same (c, steps, e) = (c, prepend a b c step steps, e ∙ ap suc same)
  where
    prepend : (a b c : System) → CommitStep a b → CommitSteps b c → CommitSteps a c
    prepend a b _ st (none_yet _) = followed a a b (none_yet a) st
    prepend a b _ st (followed _ m c ss s) = followed a m c (prepend a b m st ss) s

decide-next :
    (first : ℕ) (s : Shared) (before : List Txn) (t : Txn) (after : List Txn)
    → IsValid first (record { shared = s; txns = before ++ (t ∷ after) })
    → t.entry.ts ≡ suc s.master_ts
    → Released (record { shared = s; txns = before ++ (t ∷ after) })
decide-next first s before t after v e = elim (Bool-cases t.entry.commit_status_filled_in) [
  | inl filled ↦ release-next first s before t after v e filled
  | inr undecided ↦
      let here = All-middle IsTxn before t after v.each in
      let got =
        commit_validate-decides s first before t after v.logged v.consecutive v.entries v.opens
          (here.undecided undecided) here.recent here.small in
      let step = validates s before t after _ undecided got.1 in
      let after_it = step-IsValid first _ _ step v in
      Released-after _ _ step refl (release-next after_it.0 _ before _ after after_it.1 e refl)
]

module _ (s : Shared) (starts : Starts s) where
  -- No commit waits in vain: in every state that commits and collections of the log reach, if some
  -- timestamp was started that is not released, and the log was not collected past the released
  -- timestamp, then there are steps that release the next timestamp.
  pub commits-Released :
      (a : System)
      → CommitSteps (idle s) a
      → a.shared.master_ts < a.shared.commit_started_ts
      → a.shared.master_log_deleted_ts ≤ suc a.shared.master_ts
      → Released a
  commits-Released a steps waiting kept =
      subst (λ ts. Released (record { shared = a.shared; txns = ts })) (sym place.3)
        (decide-next first a.shared place.0 place.1 place.2
          (subst (λ ts. IsValid first (record { shared = a.shared; txns = ts })) place.3 v)
          (ts-place first place.0 place.1 place.2
              (subst (λ ts. Consecutive first (logs ts)) place.3 v.consecutive)
            ∙ omega (arith, place.4, v.opens, kept, v.next)))
    where
      got : (f : ℕ) × IsValid f a
      got = steps-IsValid (suc s.commit_started_ts) (idle s) a steps (Starts-IsValid s starts)

      first : ℕ
      first = got.0

      v : IsValid first a
      v = got.1

      place :
          (before : List Txn) × (t : Txn) × (after : List Txn) × (a.txns ≡ before ++ (t ∷ after))
          × (length before ≡ suc a.shared.master_ts - first)
      place =
          split-at (suc a.shared.master_ts - first) a.txns
            (omega (arith, v.next, v.opens, kept, waiting))
