-- ===== src/Block/Coalesce/Merge.antt =====
-- The place in the file of a chunk that `sivfs_coalesce_with_next` in
-- kern/alloc/sivfs_allocation.c has merged.
use sivfs_public.Base.{
  ℕ, ◌+◌, ◌^◌, ◌≤◌, ◌<◌, ◌≡◌, ◌≢◌, refl, sym, subst, ◌∙◌, ap, Option, some, List, ◌∷◌, ◌++◌, arith,
  All, All-of, Rc,
}
use sivfs_public.Page.{page_size}
use sivfs_public.Block.{Blocks}
use sivfs_public.Block.Tiling.{Tiles, later, later-ne, Fill, Fill-at}
use sivfs_public.Block.Before.{Fill-before}
use sivfs_public.Block.Behind.{Tiles-behind}
use sivfs_public.Block.Coalesce.{absorb}
use sivfs_public.Block.Coalesce.Absorb.{absorb-others, absorb-grown, absorb-below, absorb-Shifted}

module _ (inserted : ℕ → Rc) (b : Blocks) (id next n : ℕ) (ns : List ℕ) where
  Tiles-absorb :
      (prev : Option ℕ)
      → Tiles b (b.chunk id).start prev id (next ∷ n ∷ ns)
      → Tiles (absorb inserted id next b) (b.chunk id).start prev id (n ∷ ns)
  Tiles-absorb prev t = (
    record {
      start = ap (λ c. c.start) big;
      page =
          absorb-below inserted b id next follows t.1.size_page t.2.1.size_page small _
            (omega (arith, follows, t.1.size_page))
          ∙ t.0.page;
    },
    record {
      size_page = subst (λ c. page_size ≤ c.size) (sym big) (omega (arith, t.1.size_page));
      small =
          subst (λ c. (b.chunk id).start + c.size < 2 ^ 62) (sym big)
            (omega (arith, follows, small));
    },
    subst (λ k. Tiles b' k (some id) n ns) stop
        (Tiles-behind b b' id id
          (λ i k _.
            absorb-others inserted b id next follows t.1.size_page t.2.1.size_page small i k)
          ((b.chunk next).start + (b.chunk next).size) (some next) n ns
          (absorb-Shifted inserted b id next follows t.1.size_page t.2.1.size_page small) apart
          apart
          (subst (λ k. Tiles b (k + (b.chunk next).size) (some next) n ns) (sym follows) t.2.2)),
  )
    where
      b' : Blocks
      b' = absorb inserted id next b

      follows : (b.chunk next).start ≡ (b.chunk id).start + (b.chunk id).size
      follows = t.2.0.start

      small : (b.chunk next).start + (b.chunk next).size < 2 ^ 62
      small = omega (arith, follows, t.2.1.small)

      big : b'.chunk id ≡ record (b.chunk id) { size = (b.chunk id).size + (b.chunk next).size }
      big = absorb-grown inserted b id next follows t.1.size_page t.2.1.size_page small

      stop : (b.chunk next).start + (b.chunk next).size ≡ (b.chunk id).start + (b'.chunk id).size
      stop = omega (arith, ap (λ c. c.size) big, follows)

      apart : All (λ i. i ≢ id) (n ∷ ns)
      apart =
          (later-ne b (b.chunk id).start id (next ∷ n ∷ ns) refl
            (later b (b.chunk id).start prev id (next ∷ n ∷ ns) t)).1

  pub absorb-Fill :
      (before : List ℕ)
      → Fill b (before ++ (id ∷ next ∷ n ∷ ns))
      → Fill (absorb inserted id next b) (before ++ (id ∷ n ∷ ns))
  absorb-Fill before t =
      let tile = Fill-at b before id (next ∷ n ∷ ns) t in
      let follows = tile.1.2.0.start in
      let small = end_small follows tile.1.2.1.small in
      Fill-before b (absorb inserted id next b) id (λ i. i ≡ i)
        (λ x other _.
          absorb-others inserted b id next follows tile.1.1.size_page tile.1.2.1.size_page small x
            other)
        (λ pg h.
          absorb-below inserted b id next follows tile.1.1.size_page tile.1.2.1.size_page small pg
            (omega (arith, h, follows)))
        (next ∷ n ∷ ns) (n ∷ ns) Tiles-absorb before (All-of (λ i. i ≡ i) before (λ i. refl)) t
    where
      end_small :
          (b.chunk next).start ≡ (b.chunk id).start + (b.chunk id).size
          → (b.chunk id).start + (b.chunk id).size + (b.chunk next).size < 2 ^ 62
          → (b.chunk next).start + (b.chunk next).size < 2 ^ 62
      end_small e h = omega (arith, e, h)
