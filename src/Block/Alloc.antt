-- ===== src/Block/Alloc.antt =====
-- A chunk that `sivfs_alloc_block` in kern/alloc/sivfs_allocation.c cuts, and its place in the file.
use sivfs_public.Base.{
  Among, Among-middle, Among-insert, Among-new, ℕ, ◌+◌, ◌^◌, ◌≤◌, ◌<◌, ◌≡◌, ◌≢◌, sym, subst, ◌∙◌,
  ap, true, not, none, List, [], ◌∷◌, ◌++◌, arith, All, All-map, All-middle, All-left, All-right,
  Rc, failed, ok, ◌==◌,
}
use mathlib.Core.Bool.{true≢false}
use sivfs_public.Page.{page_size}
use sivfs_public.Block.{Blocks, minus_one, cut}
use sivfs_public.Block.Tiling.{Tiles-Starts, IsTiled, Fill, Fill-at}
use sivfs_public.Block.Split.{cut-listed}
use sivfs_public.Block.Cuts.{cut-here}
use sivfs_public.Block.Before.{Fill-before}
use sivfs_public.Block.Keeps.{Keeps, Keeps-Tiles}
use sivfs_public.Block.Behind.{cut-Cuts}

module _ (inserted : ℕ → Rc) (cur size_requested remain : ℕ) (b : Blocks) where
  cut-Fill :
      (before after : List ℕ)
      → All (λ i. i ≢ remain) (before ++ (cur ∷ after))
      → page_size ≤ size_requested
      → size_requested + page_size < (b.chunk cur).size
      → (b.chunk cur).start + size_requested < 2 ^ 62
      → Fill b (before ++ (cur ∷ after))
      → Fill
          (cut inserted cur size_requested (not ((b.chunk cur).size == minus_one)) remain b)
          (before ++ (cur ∷ remain ∷ after))
  cut-Fill before after free page large small t =
      let b' = cut inserted cur size_requested (not ((b.chunk cur).size == minus_one)) remain b in
      let cuts =
        cut-Cuts inserted cur size_requested remain b
          (λ e. All-middle (λ i. i ≢ remain) before cur after free (sym e)) in
      let behind = (All-right (λ i. i ≢ remain) before (cur ∷ after) free).1 in
      let tile = Fill-at b before cur after t in
      let c = (cuts tile.0 after behind page large small tile.1).1 in
      Fill-before b b' cur (λ i. i ≢ remain) (λ x other fresh. c.chunk_other x other fresh)
        (λ pg h. c.page_below pg (omega (arith, h, page))) after (remain ∷ after)
        (λ prev tiles.
          let got = cuts prev after behind page large small tiles in
          cut-here b b' cur size_requested remain got.0 got.1 page (b.chunk cur).start prev after
            small got.2 (Tiles-Starts b (b.chunk cur).start prev cur after tiles))
        before (All-left (λ i. i ≢ remain) before (cur ∷ after) free) t

-- What a split that is asked for a chunk does, whatever its answer.
pub record Splits (b : Blocks) (cur size_requested : ℕ) (r : Rc × Blocks) : Type 0 where
  pub ids : List ℕ
  pub tiled : IsTiled r.1 ids
  pub here : Among cur ids
  pub start_kept : (r.1.chunk cur).start ≡ (b.chunk cur).start
  pub freed_kept : (r.1.chunk cur).last_freed_ts ≡ (b.chunk cur).last_freed_ts
  pub enough : size_requested ≤ (r.1.chunk cur).size
  pub no_waste : r.0 ≡ ok → (r.1.chunk cur).size ≤ size_requested + page_size

Keeps-IsTiled : (b b' : Blocks) → Keeps b b' → (ids : List ℕ) → IsTiled b ids → IsTiled b' ids
Keeps-IsTiled b b' k [] t = absurd t.tiles
Keeps-IsTiled b b' k (id ∷ ids) t = record {
  tiles = Keeps-Tiles b b' k 0 none id ids t.tiles;
  listed = subst (λ l. All (λ i. Among i (id ∷ ids)) l) (sym k.free_list) t.listed;
}

module _ (inserted : ℕ → Rc) (cur size_requested : ℕ) (b : Blocks) (before after : List ℕ)
    (tiled : IsTiled b (before ++ (cur ∷ after)))
    (enough : size_requested ≤ (b.chunk cur).size) where
  -- An error leaves the chunks.
  pub failed-Splits :
      (rc : Rc) (b' : Blocks) → failed rc ≡ true → Keeps b b' → Splits b cur size_requested (rc, b')
  failed-Splits rc b' bad k = record {
    ids = before ++ (cur ∷ after);
    tiled = Keeps-IsTiled b b' k (before ++ (cur ∷ after)) tiled;
    here = Among-middle before cur after;
    start_kept = ap (λ f. (f cur).start) k.chunks;
    freed_kept = ap (λ f. (f cur).last_freed_ts) k.chunks;
    enough = subst (λ f. size_requested ≤ (f cur).size) (sym k.chunks) enough;
    no_waste = λ good. absurd (true≢false (sym bad ∙ ap failed good));
  }

  pub cut-Splits :
      (remain : ℕ) (b' : Blocks)
      → Keeps b b'
      → All (λ i. i ≢ remain) (before ++ (cur ∷ after))
      → page_size ≤ size_requested
      → size_requested + page_size < (b'.chunk cur).size
      → (b'.chunk cur).start + size_requested < 2 ^ 62
      → Splits b cur size_requested
          (ok, cut inserted cur size_requested (not ((b'.chunk cur).size == minus_one)) remain b')
  cut-Splits remain b' k free page large small = record {
    ids = before ++ (cur ∷ remain ∷ after);
    tiled = record {
      tiles =
          cut-Fill inserted cur size_requested remain b' before after free page large small
            again.tiles;
      listed =
          subst (λ l. All (λ i. Among i (before ++ (cur ∷ remain ∷ after))) l)
            (sym (
              cut-listed inserted cur size_requested remain b'
                (not ((b'.chunk cur).size == minus_one))))
            (
              Among-new before cur remain after,
              All-map (λ i. Among i (before ++ (cur ∷ after)))
                  (λ i. Among i (before ++ (cur ∷ remain ∷ after))) b'.bestfit_list
                  (Among-insert before cur remain after) again.listed,
            );
    };
    here = Among-insert before cur remain after cur (Among-middle before cur after);
    start_kept = ap (λ c. c.start) shorter ∙ ap (λ f. (f cur).start) k.chunks;
    freed_kept = ap (λ c. c.last_freed_ts) shorter ∙ ap (λ f. (f cur).last_freed_ts) k.chunks;
    enough = subst (λ n. size_requested ≤ n) (sym (ap (λ c. c.size) shorter)) (omega arith);
    no_waste = λ good.
        subst (λ n. n ≤ size_requested + page_size) (sym (ap (λ c. c.size) shorter)) (omega arith);
  }
    where
      again : IsTiled b' (before ++ (cur ∷ after))
      again = Keeps-IsTiled b b' k (before ++ (cur ∷ after)) tiled

      shorter :
          (cut inserted cur size_requested (not ((b'.chunk cur).size == minus_one)) remain b').chunk
            cur
          ≡ record (b'.chunk cur) { size = size_requested }
      shorter =
          (cut-Cuts inserted cur size_requested remain b'
            (λ e. All-middle (λ i. i ≢ remain) before cur after free (sym e))
            (Fill-at b' before cur after again.tiles).0 after
            ((All-right (λ i. i ≢ remain) before (cur ∷ after) free).1) page large small
            (Fill-at b' before cur after again.tiles).1).1.chunk_cur
