-- ===== src/Commit/Window.antt =====
-- The concurrent transactions that Part II of `sivfs_commit_changes` validates against: those between
-- the snapshot and the own timestamp, in kern/sivfs_commit_update_checkpoints.c.
use sivfs_public.Base.{
  ℕ, suc, ◌+◌, ◌-◌, ◌^◌, ◌≤◌, ◌<◌, ◌≡◌, refl, sym, ◌∙◌, ap, inl, inr, Bool, true, false, ◌||◌, some,
  List, [], ◌∷◌, ◌++◌, arith, ltb, leb, leb→le, le→ltb, ltb→lt, length, take, drop, length-drop,
  length-append, drop-append_left, take-append_exact, Bool-cases, All, All-map, ap₂, add64, sub64,
}
use mathlib.Core.Option
use sivfs_public.Writeset.Entry.{Entry}
use sivfs_public.Log.{Shared}
use sivfs_public.Log.Find.{Consecutive, ts_to_log_entry-deleted}
use sivfs_public.Commit.{commit_validate, validate, validate_found, abort, fill_in}
use sivfs_public.Commit.Conflict.{Logged}
use sivfs_public.Commit.Validate.{Txn, logs, AreLogged, hits, any_clash, validate-any_clash}

-- The place of a transaction in the log follows from its timestamp.
pub ts-place :
    (first : ℕ) (before : List Txn) (u : Txn) (after : List Txn)
    → Consecutive first (logs (before ++ (u ∷ after)))
    → u.entry.ts ≡ first + length before
ts-place first [] u after c = omega (arith, c.0)
ts-place first (t ∷ before) u after c = omega (arith, ts-place (suc first) before u after c.1)

pub before-ts :
    (first stop : ℕ) (before rest : List Txn)
    → Consecutive first (logs (before ++ rest))
    → first + length before ≤ stop
    → All (λ (t : Txn). t.entry.ts < stop) before
before-ts first stop [] rest c h = tt
before-ts first stop (t ∷ before) rest c h =
    (omega (arith, c.0), before-ts (suc first) stop before rest c.1 (omega arith))

-- A transaction after the snapshot is aborted, or no entry of it starts where one of `es` does.
abbrev pub Free : List Entry → ℕ → Txn → Type 0
Free es state_ts t = state_ts < t.entry.ts → hits es t ≡ false

or-false : (a b : Bool) → (a || b) ≡ false → (a ≡ false) × (b ≡ false)
or-false true b h = cc
or-false false b h = (refl, h)

window-Free :
    (es : List Entry) (first state_ts : ℕ) (before rest : List Txn)
    → Consecutive first (logs (before ++ rest))
    → any_clash es (drop (suc state_ts - first) before) ≡ false
    → All (Free es state_ts) before
window-Free es first state_ts [] rest c h = tt
window-Free es first state_ts (t ∷ before) rest c h = elim (Bool-cases (ltb first (suc state_ts))) [
  | inl old ↦ (
    λ k. absurd (omega (arith, c.0, ltb→lt first _ old)),
    window-Free es (suc first) state_ts before rest c.1
        (sym (ap (λ n. any_clash es (drop n (t ∷ before))) (more (ltb→lt first _ old))) ∙ h),
  )
  | inr new ↦ (
    λ k. (both new).0,
    window-Free es (suc first) state_ts before rest c.1
        (sym (ap (λ n. any_clash es (drop n before)) (less new)) ∙ (both new).1),
  )
]
  where
    more : first < suc state_ts → suc state_ts - first ≡ suc (suc state_ts - suc first)
    more k = omega arith

    none_old : ltb first (suc state_ts) ≡ false → suc state_ts ≤ first
    none_old k = ground arith

    less : ltb first (suc state_ts) ≡ false → 0 ≡ suc state_ts - suc first
    less k = omega (arith, none_old k)

    zero_old : ltb first (suc state_ts) ≡ false → suc state_ts - first ≡ 0
    zero_old k = omega (arith, none_old k)

    both : ltb first (suc state_ts) ≡ false → (hits es t ≡ false) × (any_clash es before ≡ false)
    both k = or-false _ _ (sym (ap (λ n. any_clash es (drop n (t ∷ before))) (zero_old k)) ∙ h)

-- The range that is searched ends just before the own entry.
window :
    (first start : ℕ) (before : List Txn) (u : Txn) (after : List Txn)
    → first ≤ start
    → start < first + length before
    → take
        (suc ((first + length before - 1) - start))
        (drop (start - first) (before ++ (u ∷ after)))
      ≡ drop (start - first) before
window first start before u after h k =
    ap (take (suc ((first + length before - 1) - start)))
      (drop-append_left (start - first) before (u ∷ after) (omega arith))
    ∙ take-append_exact (suc ((first + length before - 1) - start)) (drop (start - first) before)
        (u ∷ after) (omega (arith, length-drop (start - first) before))

AreLogged-middle :
    (before : List Txn) (u : Txn) (after : List Txn)
    → AreLogged (before ++ (u ∷ after))
    → Logged u.entry u.writes
AreLogged-middle [] u after a = a.0
AreLogged-middle (t ∷ before) u after a = AreLogged-middle before u after a.1

module _ (s : Shared) (first : ℕ) (before : List Txn) (u : Txn) (after : List Txn)
    (e : s.log ≡ logs (before ++ (u ∷ after)))
    (c : Consecutive first (logs (before ++ (u ∷ after)))) (a : AreLogged (before ++ (u ∷ after)))
    (opens : first ≤ suc (s.master_log_deleted_ts - 1)) (live : u.entry.aborted ≡ false)
    (recent : u.state_ts < u.entry.ts) (small : u.entry.ts < 2 ^ 63) where
  place : u.entry.ts ≡ first + length before
  place = ts-place first before u after c

  deleted-aborts :
      suc u.state_ts < u.entry.ts
      → suc u.state_ts < s.master_log_deleted_ts
      → validate s u.entry (suc u.state_ts) (u.entry.ts - 1) ≡ some (abort u.entry)
  unfolding validate validate_found
  deleted-aborts k gone = rw (le→ltb (suc u.state_ts) (u.entry.ts - 1) (omega arith)) (
      ap (validate_found (u.entry.ts - 1) u.entry)
        (ts_to_log_entry-deleted s (suc u.state_ts) (suc u.state_ts) gone))

  kept-window :
      suc u.state_ts < u.entry.ts
      → s.master_log_deleted_ts ≤ suc u.state_ts
      → validate s u.entry (suc u.state_ts) (u.entry.ts - 1)
        ≡ some (record (u.entry) {
          aborted = any_clash u.writes (drop (suc u.state_ts - first) before);
        })
  kept-window k kept =
      validate-any_clash u.entry u.writes live (AreLogged-middle before u after a) s
        (before ++ (u ∷ after)) first (suc u.state_ts) (u.entry.ts - 1) e c a kept
        (omega (arith, opens)) (omega arith)
        (omega (arith, place, length-append before (u ∷ after)))
      ∙ ap (λ rs. some (record (u.entry) { aborted = any_clash u.writes rs }))
          (ap
              (λ n.
                take (suc ((n - 1) - suc u.state_ts))
                  (drop (suc u.state_ts - first) (before ++ (u ∷ after))))
              place
            ∙ window first (suc u.state_ts) before u after (omega (arith, opens, kept))
                (omega (arith, place)))

  pub commit_validate-decides :
      (b : Bool) × (commit_validate u.state_ts s u.entry
        ≡ some (record (u.entry) { aborted = b; commit_status_filled_in = true }))
      × (b ≡ false → All (Free u.writes u.state_ts) before)
  unfolding commit_validate
  commit_validate-decides = elim (Bool-cases (leb (add64 u.state_ts 2) u.entry.ts)) [
    | inl concurrent ↦
        rw concurrent (elim (Bool-cases (ltb (suc u.state_ts) s.master_log_deleted_ts)) [
          | inl gone ↦ (
            true,
            ap (Option.map fill_in) (bounds ∙ deleted-aborts (later concurrent) (ltb→lt _ _ gone)),
            λ f. cc,
          )
          | inr kept ↦ (
            _,
            ap (Option.map fill_in) (bounds ∙ kept-window (later concurrent) (ground arith)),
            window-Free u.writes first u.state_ts before (u ∷ after) c,
          )
        ])
    | inr alone ↦ rw alone (
      false,
      ap (λ b. some (record (u.entry) { aborted = b; commit_status_filled_in = true })) live,
      λ f.
          All-map _ (Free u.writes u.state_ts) before (λ t k l. absurd (omega (arith, next alone)))
            (before-ts first u.entry.ts before (u ∷ after) c (omega (arith, place))),
    )
  ]
    where
      later : leb (add64 u.state_ts 2) u.entry.ts ≡ true → suc u.state_ts < u.entry.ts
      later k = omega (arith, leb→le _ _ k, recent, small)

      next : leb (add64 u.state_ts 2) u.entry.ts ≡ false → u.entry.ts ≤ suc u.state_ts
      next k = ground arith

      bounds :
          validate s u.entry (add64 u.state_ts 1) (sub64 u.entry.ts 1)
          ≡ validate s u.entry (suc u.state_ts) (u.entry.ts - 1)
      bounds =
          ap₂ (validate s u.entry) (omega (arith, recent, small)) (omega (arith, recent, small))
