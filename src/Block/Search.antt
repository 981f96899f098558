-- ===== src/Block/Search.antt =====
-- The search of `sivfs_alloc_block` in kern/alloc/sivfs_allocation.c.
use sivfs_public.Base.{
  ℕ, ◌≤◌, ◌≡◌, ◌⊎◌, inl, inr, refl, sym, ◌∙◌, subst, Bool, true, false, not, Option, none, some,
  List, [], ◌∷◌, arith, All, ltb, ◌==◌, ==_iff, if◌then◌else◌, ltb→lt,
}
use mathlib.Core.Bool.{true≢false}
use mathlib.Core.Option.{some-injective, none-ne-some}
use sivfs_public.Block.{Chunk, minus_one, is_free_visible, find_chunk}

-- The chunk serves the request: it is large enough, and is the wilderness or visibly free.
pub record Fits (chunk : ℕ → Chunk) (size_requested ts id : ℕ) : Type 0 where
  pub large : size_requested ≤ (chunk id).size
  pub usable : ((chunk id).size ≡ minus_one) ⊎ (is_free_visible (chunk id) ts ≡ true)

-- One step of the search, whatever is asked of its result.
pick :
    {A : Type 0} (P : A → Type 0) (small wild hidden : Bool) (skip as_wilderness here : A)
    → (small ≡ true → P skip)
    → (small ≡ false → wild ≡ true → P as_wilderness)
    → (small ≡ false → wild ≡ false → hidden ≡ true → P skip)
    → (small ≡ false → wild ≡ false → hidden ≡ false → P here)
    → P (if small then skip else if wild then as_wilderness else if hidden then skip else here)
pick P true wild hidden skip as_wilderness here a b c d = a refl
pick P false true hidden skip as_wilderness here a b c d = b refl refl
pick P false false true skip as_wilderness here a b c d = c refl refl refl
pick P false false false skip as_wilderness here a b c d = d refl refl refl

module _ (chunk : ℕ → Chunk) (size_requested ts : ℕ) where
  large-of :
      (id : ℕ) → ltb (chunk id).size size_requested ≡ false → size_requested ≤ (chunk id).size
  large-of id e = ground arith

  shown : (b : Bool) → not b ≡ false → b ≡ true
  shown true e = refl
  shown false e = sym e

  hidden : (b : Bool) → not b ≡ true → b ≡ false
  hidden true e = sym e
  hidden false e = refl

  unfit :
      (id : ℕ)
      → ¬ ((chunk id).size ≡ minus_one)
      → is_free_visible (chunk id) ts ≡ false
      → ¬ Fits chunk size_requested ts id
  unfit id m v f = elim f.usable [ inl wild ↦ m wild | inr free ↦ true≢false (sym free ∙ v) ]

  -- What is found serves the request and has what all chunks of the list have.
  pub find_chunk-Fits :
      (Q : ℕ → Type 0) (w : Option ℕ) (ids : List ℕ)
      → All Q ids
      → ((i : ℕ) → w ≡ some i → Q i × Fits chunk size_requested ts i)
      → (i : ℕ) → find_chunk chunk size_requested ts w ids ≡ some i
      → Q i × Fits chunk size_requested ts i
  unfolding find_chunk
  find_chunk-Fits Q w [] q got = got
  find_chunk-Fits Q w (id ∷ ids) q got =
      pick (λ o. (i : ℕ) → o ≡ some i → Q i × Fits chunk size_requested ts i)
        (ltb (chunk id).size size_requested) ((chunk id).size == minus_one)
        (not (is_free_visible (chunk id) ts)) (find_chunk chunk size_requested ts w ids)
        (find_chunk chunk size_requested ts (some id) ids) (some id)
        (λ s. find_chunk-Fits Q w ids q.1 got)
        (λ s m. find_chunk-Fits Q (some id) ids q.1 (λ i e.
          subst (λ j. Q j × Fits chunk size_requested ts j) (some-injective id i e)
            (q.0, record { large = large-of id s; usable = inl ((==_iff _ _).0 m) })))
        (λ s m v. find_chunk-Fits Q w ids q.1 got)
        (λ s m v i e.
          subst (λ j. Q j × Fits chunk size_requested ts j) (some-injective id i e)
            (
              q.0,
              record {
                large = large-of id s;
                usable = inr (shown (is_free_visible (chunk id) ts) v);
              },
            ))

  -- Nothing is found only if no chunk serves the request.
  pub find_chunk-none :
      (w : Option ℕ) (ids : List ℕ)
      → find_chunk chunk size_requested ts w ids ≡ none
      → (w ≡ none) × All (λ i. ¬ Fits chunk size_requested ts i) ids
  unfolding find_chunk
  find_chunk-none w [] e = (e, tt)
  find_chunk-none w (id ∷ ids) none_found =
      pick (λ o. o ≡ none → (w ≡ none) × All (λ i. ¬ Fits chunk size_requested ts i) (id ∷ ids))
        (ltb (chunk id).size size_requested) ((chunk id).size == minus_one)
        (not (is_free_visible (chunk id) ts)) (find_chunk chunk size_requested ts w ids)
        (find_chunk chunk size_requested ts (some id) ids) (some id)
        (λ s e.
          let rest = find_chunk-none w ids e in
          (rest.0, ((λ f. omega (arith, f.large, ltb→lt _ _ s)), rest.1)))
        (λ s m e. absurd (none-ne-some id (sym (find_chunk-none (some id) ids e).0)))
        (λ s m v e.
          let rest = find_chunk-none w ids e in
          (
            rest.0,
            (
              (λ f.
                  unfit id (λ e'. true≢false (sym ((==_iff _ _).1 e') ∙ m))
                    (hidden (is_free_visible (chunk id) ts) v) f),
              rest.1,
            ),
          ))
        (λ s m v e. absurd (none-ne-some id (sym e))) none_found
