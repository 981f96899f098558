-- ===== src/Block/Coalesce/Cases.antt =====
-- One call of `sivfs_coalesce_with_next` in kern/alloc/sivfs_allocation.c, on all its branches.
use sivfs_public.Base.{
  ℕ, ◌+◌, ◌/◌, ◌%◌, ◌≤◌, ◌≡◌, refl, sym, subst, ◌∙◌, ap, inl, inr, ◌⊎◌, false, Option, some, List,
  [], ◌∷◌, ◌++◌, arith, Rc, sub64, ok, if-cases, ==_iff, ◌==◌, ltb, add64,
}
use mathlib.Core.Bool.{true≢false}
use sivfs_public.Page.{page_size}
use sivfs_public.Block.{PgInfo, Blocks, minus_one, get_pginfo}
use sivfs_public.Block.Tiling.{Tiles, Tiles-Starts, Fill, Fill-at}
use sivfs_public.Block.Free.{get_pginfo-there}
use sivfs_public.Block.Coalesce.{
  Coalesced, kept, merged, is_busy, absorb, absorb_start, absorb_end, coalesce_at,
  coalesce_with_next,
}
use sivfs_public.Block.Coalesce.Merge.{absorb-Fill}

-- The chunk behind is left alone, or taken in; then it was free, in the budget and not the wilderness.
abbrev pub NextCases : (ℕ → Rc) → Blocks → (id n budget : ℕ) → List ℕ → Coalesced → Type 0
NextCases inserted b id n budget ns r =
    (r ≡ kept b)
    ⊎ ((m : ℕ) × (ms : List ℕ) × (ns ≡ m ∷ ms)
        × (is_busy (b.chunk n) ≡ false)
        × ((b.chunk n).size ≤ budget)
        × (r ≡ merged (sub64 budget (b.chunk n).size) (absorb inserted id n b)))

module _ (inserted : ℕ → Rc) (b : Blocks) (id n budget : ℕ) (free : is_busy (b.chunk n) ≡ false)
    (cheap : (b.chunk n).size ≤ budget) where
  absorbed :
      (ns : List ℕ) (prev : Option ℕ)
      → Tiles b (b.chunk id).start prev id (n ∷ ns)
      → ((b.chunk n).size == minus_one) ≡ false
      → NextCases inserted b id n budget ns (
          absorb_end inserted id n budget
            (get_pginfo inserted b (add64 (b.chunk n).start (b.chunk n).size)))
  unfolding absorb_end absorb_start
  absorbed [] prev t bounded = absurd (true≢false (sym ((==_iff _ _).1 t.2.1) ∙ bounded))
  absorbed (m ∷ ms) prev t bounded = inr (
    m,
    ms,
    refl,
    free,
    cheap,
    ap (absorb_end inserted id n budget) (
          get_pginfo-there inserted b (add64 (b.chunk n).start (b.chunk n).size) _
            (ap (λ k. b.pginfo (k / page_size)) stop ∙ (Tiles-Starts b _ (some n) m ms t.2.2).page))
        ∙ ap (absorb_start inserted id n budget)
            (get_pginfo-there inserted b (b.chunk id).start _ t.0.page),
  )
    where
      stop :
          add64 (b.chunk n).start (b.chunk n).size
          ≡ (b.chunk id).start + (b.chunk id).size + (b.chunk n).size
      stop = omega (arith, t.2.0.start, t.2.1.small)

module _ (inserted : ℕ → Rc) (b : Blocks) (id n budget : ℕ) (ns : List ℕ) where
  next-Cases :
      (prev : Option ℕ)
      → Tiles b (b.chunk id).start prev id (n ∷ ns)
      → NextCases inserted b id n budget ns (coalesce_with_next inserted id budget b)
  unfolding coalesce_with_next coalesce_at
  next-Cases prev t =
      subst (λ r. NextCases inserted b id n budget ns (coalesce_at inserted id budget r))
        (sym there)
        (if-cases (NextCases inserted b id n budget ns) (is_busy (b.chunk n)) _ _ (λ _. inl refl)
          (λ free.
            if-cases (NextCases inserted b id n budget ns) ((b.chunk n).size == minus_one) _ _
              (λ _. inl refl)
              (λ bounded.
                if-cases (NextCases inserted b id n budget ns) (ltb budget (b.chunk n).size) _ _
                  (λ _. inl refl)
                  (λ cheap.
                    absorbed inserted b id n budget free (at_most cheap) ns prev t bounded))))
    where
      at_most : ltb budget (b.chunk n).size ≡ false → (b.chunk n).size ≤ budget
      at_most e = ground arith

      p : PgInfo
      p = record {
        boundary_offset = ((b.chunk id).start + (b.chunk id).size) % page_size;
        ends_chunk = some id;
        starts_chunk = some n;
      }

      boundary : add64 (b.chunk id).start (b.chunk id).size ≡ (b.chunk id).start + (b.chunk id).size
      boundary = omega (arith, t.1.small)

      there : get_pginfo inserted b (add64 (b.chunk id).start (b.chunk id).size) ≡ (ok, p, b)
      there =
          get_pginfo-there inserted b (add64 (b.chunk id).start (b.chunk id).size) p (
            ap (λ k. b.pginfo (k / page_size)) boundary
            ∙ (Tiles-Starts b _ (some id) n ns t.2).page)

  -- In a file that its chunks fill, coalescing with the next chunk leaves all as it was, or takes in
  -- a chunk that is neither allocated, nor being freed, nor the wilderness, nor larger than the budget,
  -- and then the other chunks still fill the file.
  pub coalesce_with_next-Fill :
      (before : List ℕ)
      → Fill b (before ++ (id ∷ n ∷ ns))
      → NextCases inserted b id n budget ns (coalesce_with_next inserted id budget b)
        × ((m : ℕ) (ms : List ℕ)
            → ns ≡ m ∷ ms
            → Fill (absorb inserted id n b) (before ++ (id ∷ ns)))
  coalesce_with_next-Fill before t =
      let tile = Fill-at b before id (n ∷ ns) t in
      (
        next-Cases tile.0 tile.1,
        λ m ms e.
            subst (λ l. Fill (absorb inserted id n b) (before ++ (id ∷ l))) (sym e)
              (absorb-Fill inserted b id n m ms before
                (subst (λ l. Fill b (before ++ (id ∷ n ∷ l))) e t)),
      )
