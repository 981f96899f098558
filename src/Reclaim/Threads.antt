-- ===== src/Reclaim/Threads.antt =====
-- The versions that `sivfs_get_checked_out_versions` of kern/sivfs_state.c reads.
use sivfs_public.Base.{
  ℕ, ◌≡◌, sym, ◌∙◌, ap, inl, inr, true, false, ◌||◌, List, [], ◌∷◌, All, Bool-cases, if-cases, ◌==◌,
  ==_refl, Rc, failed,
}
use mathlib.Core.Bool.{true≢false}
use sivfs_public.Reclaim.{holds_version, checked_out_versions}

holds-later :
    (v w : ℕ) (out : List ℕ) → holds_version v out ≡ true → holds_version v (w ∷ out) ≡ true
holds-later v w out h = elim (Bool-cases (w == v)) [
  | inl here ↦ ap (λ b. b || holds_version v out) here
  | inr other ↦ ap (λ b. b || holds_version v out) other ∙ h
]

holds-first : (v : ℕ) (out : List ℕ) → holds_version v (v ∷ out) ≡ true
holds-first v out = ap (λ b. b || holds_version v out) (==_refl v)

module _ (push_ends : List ℕ → Rc) where
  -- What was read before stays.
  checked_out_versions-keeps :
      (threads : List (ℕ × ℕ)) (out : List ℕ) (v : ℕ)
      → holds_version v out ≡ true
      → holds_version v (checked_out_versions push_ends threads out).1 ≡ true
  unfolding checked_out_versions
  checked_out_versions-keeps [] out v h = h
  checked_out_versions-keeps ((cp, prior) ∷ threads) out v h =
      if-cases (λ (r : Rc × List ℕ). holds_version v r.1 ≡ true) (failed (push_ends out)) _ _
        (λ _. h)
        (λ _.
          if-cases (λ (r : Rc × List ℕ). holds_version v r.1 ≡ true) (failed (push_ends (cp ∷ out)))
            _ _ (λ _. holds-later v cp out h)
            (λ _.
              checked_out_versions-keeps threads (prior ∷ cp ∷ out) v
                (holds-later v prior (cp ∷ out) (holds-later v cp out h))))

  -- If all pushes succeed, both versions of every thread are read; an error is returned with
  -- what was read before it.
  pub checked_out_versions-holds :
      (threads : List (ℕ × ℕ)) (out : List ℕ)
      → failed (checked_out_versions push_ends threads out).0 ≡ false
      → All
          (λ t.
            (holds_version t.0 (checked_out_versions push_ends threads out).1 ≡ true)
            × (holds_version t.1 (checked_out_versions push_ends threads out).1 ≡ true))
          threads
  unfolding checked_out_versions
  checked_out_versions-holds [] out good = tt
  checked_out_versions-holds ((cp, prior) ∷ threads) out ends =
      if-cases
        (λ (r : Rc × List ℕ).
          failed r.0 ≡ false
          → All (λ t. (holds_version t.0 r.1 ≡ true) × (holds_version t.1 r.1 ≡ true))
              ((cp, prior) ∷ threads))
        (failed (push_ends out)) _ _ (λ bad good. absurd (true≢false (sym bad ∙ good)))
        (λ _.
          if-cases
            (λ (r : Rc × List ℕ).
              failed r.0 ≡ false
              → All (λ t. (holds_version t.0 r.1 ≡ true) × (holds_version t.1 r.1 ≡ true))
                  ((cp, prior) ∷ threads))
            (failed (push_ends (cp ∷ out))) _ _ (λ bad good. absurd (true≢false (sym bad ∙ good)))
            (λ _ good. (
              (
                checked_out_versions-keeps threads (prior ∷ cp ∷ out) cp
                    (holds-later cp prior (cp ∷ out) (holds-first cp out)),
                checked_out_versions-keeps threads (prior ∷ cp ∷ out) prior
                    (holds-first prior (cp ∷ out)),
              ),
              checked_out_versions-holds threads (prior ∷ cp ∷ out) good,
            )))
        ends
