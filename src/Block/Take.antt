-- ===== src/Block/Take.antt =====
-- The split of `sivfs_alloc_block` in kern/alloc/sivfs_allocation.c, on all its branches.
use sivfs_public.Base.{
  Among-middle, ℕ, ◌+◌, ◌^◌, ◌≤◌, ◌<◌, ◌≡◌, ◌≢◌, refl, sym, subst, ◌∙◌, ap, Bool, true, false, not,
  Option, none, some, List, ◌∷◌, ◌++◌, arith, All, Rc, failed, ltb→lt, ok, einval, enomem, eexist,
  eagain, eintr, if-cases, ◌==◌, ltb, add64,
}
use sivfs_public.Page.{page_size}
use sivfs_public.Block.{
  PgInfo, Blocks, minus_one, get_pginfo, cut, split, split_end, split_chunk, max_block_alloc_size,
}
use sivfs_public.Block.Tiling.{IsTiled}
use sivfs_public.Block.Keeps.{Keeps, Keeps-trans, get_pginfo-Keeps}
use sivfs_public.Block.Alloc.{Splits, failed-Splits, cut-Splits}

module _ (inserted : ℕ → Rc) (cur size_requested : ℕ) (kzalloced : Option ℕ) (b : Blocks)
    (before after : List ℕ) (tiled : IsTiled b (before ++ (cur ∷ after)))
    (enough : size_requested ≤ (b.chunk cur).size)
    (fresh : (remain : ℕ)
      → kzalloced ≡ some remain
      → All (λ i. i ≢ remain) (before ++ (cur ∷ after)))
    (page : page_size ≤ size_requested) (modest : size_requested ≤ max_block_alloc_size)
    (low : (b.chunk cur).start < 2 ^ 61)
    (large : size_requested + page_size < (b.chunk cur).size) where
  error :
      (rc : Rc) (b' : Blocks) → failed rc ≡ true → Keeps b b' → Splits b cur size_requested (rc, b')
  error = failed-Splits inserted cur size_requested b before after tiled enough

  split_chunk-Splits :
      (h : Bool)
      → h ≡ not ((b.chunk cur).size == minus_one)
      → (rc : Rc) (p : PgInfo) (b' : Blocks) → Keeps b b'
      → (kz : Option ℕ) → kz ≡ kzalloced
      → Splits b cur size_requested (split_chunk inserted cur size_requested h (rc, p, b') kz)
  unfolding split_chunk
  split_chunk-Splits h e ok p b' k none kz = error enomem b' refl k
  split_chunk-Splits h e ok p b' k (some id) kz =
      subst
        (λ has_end. Splits b cur size_requested (ok, cut inserted cur size_requested has_end id b'))
        (ap (λ f. not ((f cur).size == minus_one)) k.chunks ∙ sym e)
        (cut-Splits inserted cur size_requested b before after tiled enough id b' k
          (fresh id (sym kz)) page
          (subst (λ f. size_requested + page_size < (f cur).size) (sym k.chunks) large)
          (subst (λ f. (f cur).start + size_requested < 2 ^ 62) (sym k.chunks)
            (omega (arith, low, modest))))
  split_chunk-Splits h e einval p b' k kz same = error einval b' refl k
  split_chunk-Splits h e enomem p b' k kz same = error enomem b' refl k
  split_chunk-Splits h e eexist p b' k kz same = error eexist b' refl k
  split_chunk-Splits h e eagain p b' k kz same = error eagain b' refl k
  split_chunk-Splits h e eintr p b' k kz same = error eintr b' refl k

  split_end-Splits :
      (rc : Rc) (p : PgInfo) (b' : Blocks)
      → Keeps b b'
      → Splits b cur size_requested (
          split_end inserted cur size_requested kzalloced
            (not ((b.chunk cur).size == minus_one))
            (rc, p, b'))
  unfolding split_end
  split_end-Splits ok p b' k =
      let h = not ((b.chunk cur).size == minus_one) in
      let got = get_pginfo inserted b' (add64 (b'.chunk cur).start (b'.chunk cur).size) in
      if-cases
        (λ r. Splits b cur size_requested (split_chunk inserted cur size_requested h r kzalloced)) h
        got (ok, p, b')
        (λ _.
          split_chunk-Splits h refl got.0 got.1 got.2
            (Keeps-trans b b' got.2 k
              (get_pginfo-Keeps inserted b' (add64 (b'.chunk cur).start (b'.chunk cur).size)))
            kzalloced refl)
        (λ _. split_chunk-Splits h refl ok p b' k kzalloced refl)
  split_end-Splits einval p b' k = error einval b' refl k
  split_end-Splits enomem p b' k = error enomem b' refl k
  split_end-Splits eexist p b' k = error eexist b' refl k
  split_end-Splits eagain p b' k = error eagain b' refl k
  split_end-Splits eintr p b' k = error eintr b' refl k

module _ (inserted : ℕ → Rc) (cur size_requested : ℕ) (kzalloced : Option ℕ) (b : Blocks)
    (before after : List ℕ) where
  pub split-Splits :
      IsTiled b (before ++ (cur ∷ after))
      → size_requested ≤ (b.chunk cur).size
      → ((remain : ℕ) → kzalloced ≡ some remain → All (λ i. i ≢ remain) (before ++ (cur ∷ after)))
      → page_size ≤ size_requested
      → size_requested ≤ max_block_alloc_size
      → (b.chunk cur).start < 2 ^ 61
      → Splits b cur size_requested (split inserted cur size_requested kzalloced b)
  unfolding split
  split-Splits tiled enough fresh page modest low =
      let got = get_pginfo inserted b (add64 (b.chunk cur).start size_requested) in
      if-cases (Splits b cur size_requested)
        (ltb (add64 size_requested page_size) (b.chunk cur).size)
        (split_end inserted cur size_requested kzalloced (not ((b.chunk cur).size == minus_one))
          got)
        (ok, b)
        (λ large.
          split_end-Splits inserted cur size_requested kzalloced b before after tiled enough fresh
            page modest low (omega (arith, ltb→lt _ _ large, modest)) got.0 got.1 got.2
            (get_pginfo-Keeps inserted b (add64 (b.chunk cur).start size_requested)))
        (λ small. record {
          ids = before ++ (cur ∷ after);
          tiled = tiled;
          here = Among-middle before cur after;
          start_kept = refl;
          freed_kept = refl;
          enough = enough;
          no_waste = λ _. fits small;
        })
    where
      fits :
          ltb (add64 size_requested page_size) (b.chunk cur).size ≡ false
          → (b.chunk cur).size ≤ size_requested + page_size
      fits e = ground arith
