-- ===== src/Reclaim/Blockers.antt =====
-- Which version blocks an entry, in `sivfs_gc_or_reassign_entry` of kern/sivfs_gc_checkpoints.c.
use sivfs_public.Base.{
  ℕ, ◌≤◌, ◌<◌, ◌≡◌, ◌≢◌, ◌⊎◌, refl, sym, ◌∙◌, ap, ap₂, subst, inl, inr, true, false, ◌&&◌, ◌||◌,
  List, [], ◌∷◌, arith, All, ltb, leb, ◌==◌, if◌then◌else◌, ==_iff, ==_ne, Bool-cases, if-cases,
  ltb→lt, lt→ltb, le→leb,
}
use mathlib.Core.Bool.{true≢false}
use sivfs_public.Common.{invalid_ts}
use sivfs_public.Reclaim.{
  Lifetime, ts_range_contains, last_blocker, reassign_to, holds_version, still_blocked,
}

-- An entry is visible in a version.
pub record Sees (l : Lifetime) (ts : ℕ) : Type 0 where
  pub started : l.start_ts ≤ ts
  pub obsoleted : ts < l.obsoleted_ts

contains-Sees :
    (l : Lifetime) (ts : ℕ) → ts_range_contains l.start_ts l.obsoleted_ts ts ≡ true → Sees l ts
contains-Sees l ts e = record { started = ground arith; obsoleted = ground arith }

not_contains-Sees :
    (l : Lifetime) (ts : ℕ) → ts_range_contains l.start_ts l.obsoleted_ts ts ≡ false → ¬ Sees l ts
not_contains-Sees l ts e s =
    true≢false (sym (ap₂ (λ a b. a && b) (le→leb _ _ s.started) (lt→ltb _ _ s.obsoleted)) ∙ e)

-- What the search for a blocker ends with.
abbrev Found : Lifetime → (acc : ℕ) → List ℕ → ℕ → Type 0
Found l acc versions r =
    ((r ≡ acc) × All (λ v. ¬ Sees l v) versions) ⊎ ((holds_version r versions ≡ true) × Sees l r)

last_blocker-Found :
    (l : Lifetime) (acc : ℕ) (versions : List ℕ)
    → Found l acc versions (last_blocker l acc versions)
unfolding last_blocker
last_blocker-Found l acc [] = inl (refl, tt)
last_blocker-Found l acc (v ∷ versions) =
    elim (Bool-cases (ts_range_contains l.start_ts l.obsoleted_ts v)) [
      | inl seen ↦
          subst (λ b. Found l acc (v ∷ versions) (last_blocker l (if b then v else acc) versions))
            (sym seen) (from_here (contains-Sees l v seen) (last_blocker-Found l v versions))
      | inr unseen ↦
          subst (λ b. Found l acc (v ∷ versions) (last_blocker l (if b then v else acc) versions))
            (sym unseen)
            (from_before (not_contains-Sees l v unseen) (last_blocker-Found l acc versions))
    ]
  where
    first : (r : ℕ) → r ≡ v → holds_version r (v ∷ versions) ≡ true
    first r e = ap (λ b. b || holds_version r versions) ((==_iff v r).1 (sym e))

    rest : (r : ℕ) → holds_version r versions ≡ true → holds_version r (v ∷ versions) ≡ true
    rest r e = elim (Bool-cases (v == r)) [
      | inl here ↦ ap (λ b. b || holds_version r versions) here
      | inr other ↦ ap (λ b. b || holds_version r versions) other ∙ e
    ]

    from_here : Sees l v → {r : ℕ} → Found l v versions r → Found l acc (v ∷ versions) r
    from_here s (inl p) = inr (first _ p.0, subst (Sees l) (sym p.0) s)
    from_here s (inr p) = inr (rest _ p.0, p.1)

    from_before : ¬ Sees l v → {r : ℕ} → Found l acc versions r → Found l acc (v ∷ versions) r
    from_before n (inl p) = inl (p.0, (n, p.1))
    from_before n (inr p) = inr (rest _ p.0, p.1)

-- A lifetime of an entry that a published checkpoint has.
pub record IsLifetime (latest : ℕ) (l : Lifetime) : Type 0 where
  pub published : l.start_ts ≤ latest
  pub is_word : l.obsoleted_ts ≤ invalid_ts

-- Nothing can see the entry any more.
pub record Unneeded (checked_out : List ℕ) (latest : ℕ) (l : Lifetime) : Type 0 where
  pub not_latest : l.obsoleted_ts ≤ latest
  pub not_checked_out : All (λ v. ¬ Sees l v) checked_out

-- A version that still blocks, and that the entry is visible in.
pub record Blocks (checked_out : List ℕ) (latest : ℕ) (l : Lifetime) (ts : ℕ) : Type 0 where
  pub version : ts ≢ invalid_ts
  pub seen : Sees l ts
  pub blocked : still_blocked ts checked_out latest ≡ true

module _ (checked_out : List ℕ) (latest : ℕ) (l : Lifetime) (valid : IsLifetime latest l)
    (small : latest < invalid_ts) where
  blocking :
      (ts : ℕ)
      → ts ≢ invalid_ts
      → (leb latest ts || holds_version ts checked_out) ≡ true
      → still_blocked ts checked_out latest ≡ true
  unfolding still_blocked
  blocking ts n e =
      ap (λ b. if b then false else leb latest ts || holds_version ts checked_out)
        (==_ne ts invalid_ts n)
      ∙ e

  held :
      (ts : ℕ)
      → holds_version ts checked_out ≡ true
      → (leb latest ts || holds_version ts checked_out) ≡ true
  held ts e = elim (Bool-cases (leb latest ts)) [
    | inl here ↦ ap (λ b. b || holds_version ts checked_out) here
    | inr other ↦ ap (λ b. b || holds_version ts checked_out) other ∙ e
  ]

  -- An entry has no blocker only if nothing can see it, and else its blocker is one.
  pub reassign_to-Blocks :
      ((reassign_to l checked_out latest ≡ invalid_ts) × Unneeded checked_out latest l)
      ⊎ Blocks checked_out latest l (reassign_to l checked_out latest)
  unfolding reassign_to
  reassign_to-Blocks =
      if-cases
        (λ r. ((r ≡ invalid_ts) × Unneeded checked_out latest l) ⊎ Blocks checked_out latest l r)
        (ltb latest l.obsoleted_ts) latest (last_blocker l invalid_ts checked_out)
        (λ visible. inr (record {
          version = λ e. omega (arith, e, small);
          seen = record { started = valid.published; obsoleted = ltb→lt _ _ visible };
          blocked =
              blocking latest (λ e. omega (arith, e, small))
                (ap (λ b. b || holds_version latest checked_out)
                  (le→leb latest latest (omega arith)));
        }))
        (λ gone. elim (last_blocker-Found l invalid_ts checked_out) [
          | inl (e, unseen) ↦
              inl (e, record { not_latest = at_most gone; not_checked_out = unseen })
          | inr (holds, seen) ↦ inr (record {
            version = λ e. omega (arith, e, seen.obsoleted, valid.is_word);
            seen = seen;
            blocked =
                blocking _ (λ e. omega (arith, e, seen.obsoleted, valid.is_word)) (held _ holds);
          })
        ])
    where
      at_most : ltb latest l.obsoleted_ts ≡ false → l.obsoleted_ts ≤ latest
      at_most e = ground arith

pub still_blocked-version :
    (checked_out : List ℕ) (latest ts : ℕ)
    → still_blocked ts checked_out latest ≡ true
    → ts ≢ invalid_ts
unfolding still_blocked
still_blocked-version checked_out latest ts blocked e = true≢false (
    sym blocked
    ∙ ap (λ b. if b then false else leb latest ts || holds_version ts checked_out)
        ((==_iff ts invalid_ts).1 e))
