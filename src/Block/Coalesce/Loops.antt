-- ===== src/Block/Coalesce/Loops.antt =====
-- The loops of `_sivfs_free_block` in kern/alloc/sivfs_allocation.c.
use sivfs_public.Base.{
  ℕ, zero, suc, length, length-append, ◌+◌, ◌/◌, ◌<◌, ◌≡◌, refl, subst, ◌∙◌, ap, inl, inr, ◌⊎◌,
  Option, none, some, List, [], ◌∷◌, ◌++◌, arith, Rc, sub64, mul64, ok, ◌==◌, if◌then◌else◌,
}
use sivfs_public.Common.{invalid_ts}
use sivfs_public.Page.{page_size}
use sivfs_public.Block.{without_flags, Blocks}
use sivfs_public.Block.Tiling.{Tiles-Starts, Fill, Fill-at}
use sivfs_public.Block.Free.{get_pginfo-there}
use sivfs_public.Block.Coalesce.{
  Coalesced, error, kept, merged, absorb, coalesce_with_next, coalesce_with_prev, prev_at,
  loop_next, loop_prev, release_chunk, then_prev, free_now,
}
use sivfs_public.Block.Marks.{mark, mark-Fill, relisted-Fill}
use sivfs_public.Block.Coalesce.Cases.{coalesce_with_next-Fill}

module _ (inserted : ℕ → Rc) (id : ℕ) (before : List ℕ) where
  pub loop_next-Fill :
      (fuel budget : ℕ) (b : Blocks) (n : ℕ) (ns : List ℕ)
      → length ns < fuel
      → Fill b (before ++ (id ∷ n ∷ ns))
      → (budget' : ℕ) × (b' : Blocks) × (m : ℕ) × (ms : List ℕ) × (loop_next inserted fuel id budget
            b
          ≡ some (ok, budget', b'))
        × Fill b' (before ++ (id ∷ m ∷ ms))
  unfolding loop_next
  loop_next-Fill zero budget b n ns h t = absurd (omega (arith, h))
  loop_next-Fill (suc fuel) budget b n ns h t =
      let got = coalesce_with_next-Fill inserted b id n budget ns before t in
      elim got.0 [
        | inl e ↦ (budget, b, n, ns, ap after e, t)
        | inr (m, ms, more, free, cheap, e) ↦
            let rest =
              loop_next-Fill fuel (sub64 budget (b.chunk n).size) (absorb inserted id n b) m ms
                (omega (arith, h, ap length more))
                (subst (λ l. Fill (absorb inserted id n b) (before ++ (id ∷ l))) more
                  (got.1 m ms more)) in
            (rest.0, rest.1, rest.2, rest.3, ap after e ∙ rest.4, rest.5)
      ]
    where
      after : Coalesced → Option (Rc × ℕ × Blocks)
      after r = elim r [
        | error rc b' ↦ some (rc, budget, b')
        | kept b' ↦ some (ok, budget, b')
        | merged budget' b' ↦ loop_next inserted fuel id budget' b'
      ]

-- A list is empty or has a last element.
snoc-cases : (l : List ℕ) → (l ≡ []) ⊎ ((ys : List ℕ) × (y : ℕ) × (l ≡ ys ++ (y ∷ [])))
snoc-cases [] = inl refl
snoc-cases (x ∷ xs) = elim (snoc-cases xs) [
  | inl e ↦ inr ([], x, ap (λ l. x ∷ l) e)
  | inr (ys, y, e) ↦ inr (x ∷ ys, y, ap (λ l. x ∷ l) e)
]

snoc-append : (ys : List ℕ) (y : ℕ) (l : List ℕ) → (ys ++ (y ∷ [])) ++ l ≡ ys ++ (y ∷ l)
snoc-append [] y l = refl
snoc-append (x ∷ xs) y l = ap (λ k. x ∷ k) (snoc-append xs y l)

module _ (inserted : ℕ → Rc) where
  first-prev :
      (id budget : ℕ) (b : Blocks) (ids : List ℕ)
      → Fill b (id ∷ ids)
      → coalesce_with_prev inserted id budget b ≡ (none, kept b)
  unfolding coalesce_with_prev prev_at
  first-prev id budget b ids t =
      let st = Tiles-Starts b 0 none id ids t in
      ap (prev_at inserted budget) (
        get_pginfo-there inserted b (b.chunk id).start _
          (ap (λ k. b.pginfo (k / page_size)) st.start ∙ st.page))

  later-prev :
      (id budget : ℕ) (b : Blocks) (ys : List ℕ) (y : ℕ) (ids : List ℕ)
      → Fill b (ys ++ (y ∷ id ∷ ids))
      → coalesce_with_prev inserted id budget b ≡ (some y, coalesce_with_next inserted y budget b)
  unfolding coalesce_with_prev prev_at
  later-prev id budget b ys y ids t =
      let st = Tiles-Starts b _ (some y) id ids (Fill-at b ys y (id ∷ ids) t).1.2 in
      ap (prev_at inserted budget) (
        get_pginfo-there inserted b (b.chunk id).start _
          (ap (λ k. b.pginfo (k / page_size)) st.start ∙ st.page))

  pub loop_prev-Fill :
      (fuel id budget : ℕ) (b : Blocks) (before : List ℕ) (n : ℕ) (ns : List ℕ)
      → length before < fuel
      → Fill b (before ++ (id ∷ n ∷ ns))
      → (b' : Blocks) × (ids : List ℕ) × (loop_prev inserted fuel id budget b ≡ some (ok, b'))
        × Fill b' ids
  unfolding loop_prev
  loop_prev-Fill zero id budget b before n ns h t = absurd (omega (arith, h))
  loop_prev-Fill (suc fuel) id budget b before n ns h t = elim (snoc-cases before) [
    | inl e ↦ (
      b,
      id ∷ n ∷ ns,
      ap after (first-prev id budget b (n ∷ ns) (subst (λ l. Fill b (l ++ (id ∷ n ∷ ns))) e t)),
      subst (λ l. Fill b (l ++ (id ∷ n ∷ ns))) e t,
    )
    | inr (ys, y, e) ↦
        let whole =
          subst (Fill b) (ap (λ l. l ++ (id ∷ n ∷ ns)) e ∙ snoc-append ys y (id ∷ n ∷ ns)) t in
        let got = coalesce_with_next-Fill inserted b y id budget (n ∷ ns) ys whole in
        let is_prev = ap after (later-prev id budget b ys y (n ∷ ns) whole) in
        elim got.0 [
          | inl k ↦ (b, ys ++ (y ∷ id ∷ n ∷ ns), is_prev ∙ ap (λ r. after (some y, r)) k, whole)
          | inr (m, ms, more, free, cheap, k) ↦
              let rest =
                loop_prev-Fill fuel y (sub64 budget (b.chunk id).size) (absorb inserted y id b) ys n
                  ns (omega (arith, h, ap length e, length-append ys (y ∷ []))) (got.1 n ns refl) in
              (rest.0, rest.1, is_prev ∙ ap (λ r. after (some y, r)) k ∙ rest.2, rest.3)
        ]
  ]
    where
      after : Option ℕ × Coalesced → Option (Rc × Blocks)
      after r = elim r.1 [
        | error rc b' ↦ some (rc, b')
        | kept b' ↦ some (ok, b')
        | merged budget' b' ↦ elim r.0 [
          | none ↦ some (ok, b')
          | some prev ↦ loop_prev inserted fuel prev budget' b'
        ]
      ]

  pub release_chunk-Fill :
      (id commit_ts : ℕ) (b : Blocks) (ids : List ℕ)
      → Fill b ids
      → Fill (release_chunk inserted id commit_ts b) ids
  unfolding release_chunk
  release_chunk-Fill id commit_ts b ids t =
      let ts = if commit_ts == invalid_ts then (b.chunk id).last_freed_ts else commit_ts in
      relisted-Fill (mark id (without_flags ts) b) (id ∷ b.bestfit_list) ids
        (mark-Fill id (without_flags ts) b ids t)

  -- In a file that its chunks fill, freeing a chunk other than the last ends without an error, if it
  -- has as much fuel as there are chunks, and the chunks that are left fill the file.
  pub free_now-Fill :
      (fuel id commit_ts : ℕ) (b : Blocks) (before : List ℕ) (n : ℕ) (ns : List ℕ)
      → length before + length ns < fuel
      → Fill b (before ++ (id ∷ n ∷ ns))
      → (b' : Blocks) × (ids : List ℕ) × (free_now inserted fuel id commit_ts b ≡ some (ok, b'))
        × Fill b' ids
  unfolding free_now then_prev
  free_now-Fill fuel id commit_ts b before n ns h t =
      let freed = release_chunk inserted id commit_ts b in
      let first =
        loop_next-Fill inserted id before fuel (mul64 (freed.chunk id).size 4) freed n ns
          (omega (arith, h)) (release_chunk-Fill id commit_ts b (before ++ (id ∷ n ∷ ns)) t) in
      let second =
        loop_prev-Fill fuel id first.0 first.1 before first.2 first.3 (omega (arith, h)) first.5 in
      (second.0, second.1, ap (then_prev inserted fuel id) first.4 ∙ second.2, second.3)
