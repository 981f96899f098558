-- ===== src/Block/Behind.antt =====
-- What is behind a chunk that `sivfs_alloc_block` in kern/alloc/sivfs_allocation.c splits.
use sivfs_public.Base.{
  ℕ, ◌+◌, ◌-◌, ◌^◌, ◌≤◌, ◌<◌, ◌≡◌, ◌≢◌, refl, sym, subst, ◌∙◌, ap, true, not, Option, some, List,
  [], ◌∷◌, arith, All, Rc, ==_ne, ==_iff, ◌==◌,
}
use sivfs_public.Page.{page_size}
use sivfs_public.Block.{Blocks, minus_one, cut}
use sivfs_public.Block.Tiling.{Tiles, later, later-ne, frame}
use sivfs_public.Block.Split.{Cut, Shifted, cut_bound-Cut, cut_end-Cut, cut_end-Shifted}
use sivfs_public.Block.Cuts.{Rest}

module _ (b b' : Blocks) (cur remain : ℕ)
    (others : (i : ℕ) → i ≢ cur → i ≢ remain → b'.chunk i ≡ b.chunk i) where
  same-others :
      (js : List ℕ)
      → All (λ i. i ≢ cur) js
      → All (λ i. i ≢ remain) js
      → All
          (λ i. ((b'.chunk i).start ≡ (b.chunk i).start) × ((b'.chunk i).size ≡ (b.chunk i).size))
          js
  same-others [] h k = tt
  same-others (j ∷ js) h k =
      let e = others j h.0 k.0 in
      ((ap (λ d. d.start) e, ap (λ d. d.size) e), same-others js h.1 k.1)

  -- Only the chunk before is another.
  pub Tiles-behind :
      (stop : ℕ) (prev : Option ℕ) (n : ℕ) (ns : List ℕ)
      → Shifted b stop remain b'
      → All (λ i. i ≢ cur) (n ∷ ns)
      → All (λ i. i ≢ remain) (n ∷ ns)
      → Tiles b stop prev n ns
      → Tiles b' stop (some remain) n ns
  Tiles-behind stop prev n [] over h k t =
      let s = same-others (n ∷ []) h k in
      (record { start = s.0.0 ∙ t.0.start; page = over.page_end _ t.0.page }, s.0.1 ∙ t.1)
  Tiles-behind stop prev n (m ∷ ms) over h k t =
      let s = same-others (n ∷ m ∷ ms) h k in
      (
        record { start = s.0.0 ∙ t.0.start; page = over.page_end _ t.0.page },
        record {
          size_page = subst (λ v. page_size ≤ v) (sym s.0.1) t.1.size_page;
          small = subst (λ v. stop + v < 2 ^ 62) (sym s.0.1) t.1.small;
        },
        subst (λ v. Tiles b' (stop + v) (some n) m ms) (sym s.0.1)
            (frame b b' (stop + (b.chunk n).size) (some n) m ms s.1
              (λ pg above. over.page_after pg (omega (arith, above, t.1.size_page))) t.2),
      )

module _ (inserted : ℕ → Rc) (cur size_requested remain : ℕ) (b : Blocks)
    (fresh : remain ≢ cur) where
  -- A chunk is cut, whatever is behind it.
  pub cut-Cuts :
      (prev : Option ℕ) (after : List ℕ)
      → All (λ i. i ≢ remain) after
      → page_size ≤ size_requested
      → size_requested + page_size < (b.chunk cur).size
      → (b.chunk cur).start + size_requested < 2 ^ 62
      → Tiles b (b.chunk cur).start prev cur after
      → let b' = cut inserted cur size_requested (not ((b.chunk cur).size == minus_one)) remain b in
        (size : ℕ) × Cut b cur size_requested remain size b'
        × Rest b'
            ((b.chunk cur).start + (b.chunk cur).size)
            (b.chunk cur).size
            size_requested
            remain
            size
            after
  unfolding cut
  cut-Cuts prev [] free page large small t = (
    (b.chunk cur).size,
    subst
        (λ h.
          Cut b cur size_requested remain (b.chunk cur).size
            (cut inserted cur size_requested (not h) remain b))
        (sym ((==_iff _ _).1 t.1))
        (cut_bound-Cut inserted cur size_requested remain b fresh (b.chunk cur).size small),
    t.1,
  )
  cut-Cuts prev (n ∷ ns) free page large small t = (
    (b.chunk cur).size - size_requested,
    on_end (λ b'. Cut b cur size_requested remain ((b.chunk cur).size - size_requested) b') is_cut,
    on_end
        (λ b'.
          Rest b' ((b.chunk cur).start + (b.chunk cur).size) (b.chunk cur).size size_requested
            remain ((b.chunk cur).size - size_requested) (n ∷ ns))
        (
          omega (arith, large),
          omega (arith, large),
          t.1.small,
          Tiles-behind b done cur remain is_cut.chunk_other
              ((b.chunk cur).start + (b.chunk cur).size) (some cur) n ns
              (cut_end-Shifted inserted cur size_requested remain b fresh t.1.small large)
              (later-ne b (b.chunk cur).start cur (n ∷ ns) refl
                (later b (b.chunk cur).start prev cur (n ∷ ns) t))
              free t.2,
        ),
  )
    where
      done : Blocks
      done = cut inserted cur size_requested true remain b

      on_end :
          (P : Blocks → Type 0)
          → P done
          → P (cut inserted cur size_requested (not ((b.chunk cur).size == minus_one)) remain b)
      on_end P p =
          subst (λ h. P (cut inserted cur size_requested (not h) remain b))
            (sym (==_ne (b.chunk cur).size minus_one (λ e. omega (arith, e, t.1.small)))) p

      is_cut : Cut b cur size_requested remain ((b.chunk cur).size - size_requested) done
      is_cut = cut_end-Cut inserted cur size_requested remain b fresh t.1.small large
