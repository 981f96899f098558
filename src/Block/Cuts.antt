-- ===== src/Block/Cuts.antt =====
-- The pages and chunks of a split in `sivfs_alloc_block` of kern/alloc/sivfs_allocation.c.
use sivfs_public.Base.{
  ℕ, ◌+◌, ◌/◌, ◌^◌, ◌≤◌, ◌<◌, ◌≡◌, sym, subst, ◌∙◌, ap, Option, some, List, [], ◌∷◌, arith,
}
use sivfs_public.Page.{page_size}
use sivfs_public.Block.{Blocks, minus_one}
use sivfs_public.Block.Tiling.{Starts, Tiles}
use sivfs_public.Block.Split.{Cut}

-- What stands behind a chunk of some size that is cut, if `size` is left of it.
abbrev pub Rest : Blocks → (stop whole size_requested remain size : ℕ) → List ℕ → Type 0
Rest b stop whole size_requested remain size [] = size ≡ minus_one
Rest b stop whole size_requested remain size (n ∷ ns) =
    (size_requested + size ≡ whole)
    × (page_size ≤ size)
    × (stop < 2 ^ 62)
    × Tiles b stop (some remain) n ns

module _ (b b' : Blocks) (cur size_requested remain size : ℕ)
    (c : Cut b cur size_requested remain size b') (page : page_size ≤ size_requested) where
  Starts-remain :
      (pos : ℕ) → (b.chunk cur).start ≡ pos → Starts b' (pos + size_requested) (some cur) remain
  Starts-remain pos e =
      subst (λ k. Starts b' (k + size_requested) (some cur) remain) e
        (record { start = ap (λ k. k.start) c.chunk_remain; page = c.page_bound })

  Starts-cur : (pos : ℕ) (prev : Option ℕ) → Starts b pos prev cur → Starts b' pos prev cur
  Starts-cur pos prev st = record {
    start = ap (λ k. k.start) c.chunk_cur ∙ st.start;
    page = c.page_below (pos / page_size) (omega (arith, page, st.start)) ∙ st.page;
  }

  Tiles-remain :
      (pos : ℕ) (ids : List ℕ)
      → (b.chunk cur).start ≡ pos
      → Rest b' (pos + (b.chunk cur).size) (b.chunk cur).size size_requested remain size ids
      → Tiles b' (pos + size_requested) (some cur) remain ids
  Tiles-remain pos [] e rest = (Starts-remain pos e, ap (λ k. k.size) c.chunk_remain ∙ rest)
  Tiles-remain pos (n ∷ ns) e rest = (
    Starts-remain pos e,
    record {
      size_page = subst (λ k. page_size ≤ k) (sym is_size) rest.1;
      small =
          subst (λ k. pos + size_requested + k < 2 ^ 62) (sym is_size)
            (omega (arith, rest.0, rest.2));
    },
    subst (λ k. Tiles b' k (some remain) n ns) (omega (arith, is_size, rest.0)) rest.3,
  )
    where
      is_size : (b'.chunk remain).size ≡ size
      is_size = ap (λ k. k.size) c.chunk_remain

  pub cut-here :
      (pos : ℕ) (prev : Option ℕ) (ids : List ℕ)
      → pos + size_requested < 2 ^ 62
      → Rest b' (pos + (b.chunk cur).size) (b.chunk cur).size size_requested remain size ids
      → Starts b pos prev cur
      → Tiles b' pos prev cur (remain ∷ ids)
  cut-here pos prev ids small rest st = (
    Starts-cur pos prev st,
    record {
      size_page = subst (λ k. page_size ≤ k) (sym is_size) page;
      small = subst (λ k. pos + k < 2 ^ 62) (sym is_size) small;
    },
    subst (λ k. Tiles b' (pos + k) (some cur) remain ids) (sym is_size)
        (Tiles-remain pos ids st.start rest),
  )
    where
      is_size : (b'.chunk cur).size ≡ size_requested
      is_size = ap (λ k. k.size) c.chunk_cur
