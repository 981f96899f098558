-- ===== src/Block/Serve.antt =====
-- `sivfs_alloc_block` in kern/alloc/sivfs_allocation.c as a whole.
use sivfs_public.Base.{
  Among, Among-split, ℕ, ◌+◌, ◌%◌, ◌^◌, ◌≤◌, ◌<◌, ◌≡◌, ◌≢◌, refl, sym, subst, ◌∙◌, ap, true, false,
  not, Option, none, some, List, ◌∷◌, arith, All, All-middle, Rc, failed, ok, einval, enomem,
  eexist, eagain, eintr, if-cases, ◌==◌, ltb, set_bit,
}
use mathlib.Core.Bool.{true≢false}
use mathlib.Core.Option.{none-ne-some}
use sivfs_public.Page.{page_size}
use sivfs_public.Block.{
  Chunk, is_free, Blocks, AllocState, allocated_bit, list_del, find_chunk, split, take_chunk,
  alloc_found, alloc_block, max_block_alloc_size,
}
use sivfs_public.Block.Tiling.{update-hit, IsTiled}
use sivfs_public.Block.Search.{Fits, find_chunk-Fits}
use sivfs_public.Block.Alloc.{Splits}
use sivfs_public.Block.Apart.{Apart, Fill-Apart}
use sivfs_public.Block.Take.{split-Splits}
use sivfs_public.Block.Marks.{mark, mark-IsTiled, list_del-All, relisted, is_free-allocated}

-- What an allocation of a thread does: on success it hands out a chunk that serves the request, has at
-- most a page more than asked, shares no byte with another chunk, and is marked as allocated; else it hands out nothing and leaves
-- the thread as it was. The chunks fill the file in either case.
pub record Allocates (state : AllocState) (b : Blocks) (size_requested : ℕ)
    (r : Rc × Option (ℕ × ℕ) × AllocState × Blocks) : Type 0 where
  pub ids : List ℕ
  pub tiled : IsTiled r.3 ids
  pub fails : failed r.0 ≡ true → (r.1 ≡ none) × (r.2 ≡ state)
  pub serves :
      r.0 ≡ ok
      → (id : ℕ) × Fits b.chunk size_requested state.ts id
        × (r.1 ≡ some ((b.chunk id).start, (r.3.chunk id).size))
        × (size_requested ≤ (r.3.chunk id).size)
        × ((r.3.chunk id).size ≤ size_requested + page_size)
        × (is_free (r.3.chunk id) ≡ false)
        × ((j : ℕ) → Among j ids → id ≢ j → Apart r.3 id j)
        × (r.2 ≡ record state { allocated_chunks = id ∷ state.allocated_chunks })

module _ (inserted : ℕ → Rc) (state : AllocState) (size_requested : ℕ) (b : Blocks) where
  fails-Allocates :
      (rc : Rc) (b' : Blocks) (ids : List ℕ)
      → failed rc ≡ true
      → IsTiled b' ids
      → Allocates state b size_requested (rc, none, state, b')
  fails-Allocates rc b' ids bad t = record {
    ids = ids;
    tiled = t;
    fails = λ _. (refl, refl);
    serves = λ good. absurd (true≢false (sym bad ∙ ap failed good));
  }

  take_chunk-Allocates :
      (cur : ℕ)
      → Fits b.chunk size_requested state.ts cur
      → (rc : Rc) (b' : Blocks) → Splits b cur size_requested (rc, b')
      → Allocates state b size_requested (take_chunk inserted cur state (rc, b'))
  unfolding take_chunk
  take_chunk-Allocates cur fits ok b' s = record {
    ids = s.ids;
    tiled = is_tiled;
    fails = λ bad. absurd (true≢false (sym bad));
    serves = λ _.
        let now = update-hit b'.chunk cur marked cur refl in
        (
          cur,
          fits,
          ap (λ v. some v) (ap (λ v. (v, (b'.chunk cur).size)) s.start_kept)
              ∙ ap (λ c. some ((b.chunk cur).start, c.size)) (sym now),
          subst (λ c. size_requested ≤ c.size) (sym now) s.enough,
          subst (λ c. c.size ≤ size_requested + page_size) (sym now) (s.no_waste refl),
          ap is_free now ∙ is_free-allocated (b'.chunk cur),
          λ j there other. Fill-Apart done s.ids is_tiled.tiles cur j s.here there other,
          refl,
        );
  }
    where
      unlisted : Blocks
      unlisted = record b' { bestfit_list = list_del cur b'.bestfit_list }

      done : Blocks
      done = mark cur (set_bit allocated_bit (b'.chunk cur).last_freed_ts) unlisted

      is_tiled : IsTiled done s.ids
      is_tiled =
          mark-IsTiled cur (set_bit allocated_bit (b'.chunk cur).last_freed_ts) unlisted s.ids (
            relisted b' (list_del cur b'.bestfit_list) s.ids
              (list_del-All (λ i. Among i s.ids) cur b'.bestfit_list s.tiled.listed) s.tiled)

      marked : Chunk
      marked = record (b'.chunk cur) {
        last_freed_ts = set_bit allocated_bit (b'.chunk cur).last_freed_ts;
      }
  take_chunk-Allocates cur fits einval b' s = fails-Allocates einval b' s.ids refl s.tiled
  take_chunk-Allocates cur fits enomem b' s = fails-Allocates enomem b' s.ids refl s.tiled
  take_chunk-Allocates cur fits eexist b' s = fails-Allocates eexist b' s.ids refl s.tiled
  take_chunk-Allocates cur fits eagain b' s = fails-Allocates eagain b' s.ids refl s.tiled
  take_chunk-Allocates cur fits eintr b' s = fails-Allocates eintr b' s.ids refl s.tiled

  alloc_found-Allocates :
      (kzalloced : Option ℕ) (ids : List ℕ)
      → IsTiled b ids
      → ((remain : ℕ) → kzalloced ≡ some remain → All (λ i. i ≢ remain) ids)
      → page_size ≤ size_requested
      → size_requested ≤ max_block_alloc_size
      → All (λ i. (b.chunk i).start < 2 ^ 61) ids
      → (found : Option ℕ)
      → ((cur : ℕ) → found ≡ some cur → Among cur ids × Fits b.chunk size_requested state.ts cur)
      → Allocates state b size_requested
          (alloc_found inserted kzalloced size_requested state b found)
  unfolding alloc_found
  alloc_found-Allocates kzalloced ids tiled fresh page modest low none got =
      fails-Allocates enomem b ids refl tiled
  alloc_found-Allocates kzalloced ids tiled fresh page modest low (some cur) got =
      let place = Among-split cur ids (got cur refl).0 in
      let fits = (got cur refl).1 in
      let r = split inserted cur size_requested kzalloced b in
      take_chunk-Allocates cur fits r.0 r.1 (
        split-Splits inserted cur size_requested kzalloced b place.0 place.1
          (subst (IsTiled b) place.2 tiled) fits.large
          (λ remain e. subst (All (λ i. i ≢ remain)) place.2 (fresh remain e)) page modest
          (All-middle (λ i. (b.chunk i).start < 2 ^ 61) place.0 cur place.1
            (subst (All (λ i. (b.chunk i).start < 2 ^ 61)) place.2 low)))

  -- In a file that its chunks fill, whose chunks start below 2 ^ 61, a request of a page at least
  -- keeps the chunks filling the file, whatever the allocations answer. On success the thread gets a
  -- chunk that is large enough, of at most a page more than asked, that shares no byte with another
  -- chunk of the file, that was the wilderness or free since a timestamp the thread may see, and that
  -- is set to allocated; on an error it gets nothing and its state stays.
  pub alloc_block-Allocates :
      (kzalloced : Option ℕ) (ids : List ℕ)
      → IsTiled b ids
      → ((remain : ℕ) → kzalloced ≡ some remain → All (λ i. i ≢ remain) ids)
      → page_size ≤ size_requested
      → All (λ i. (b.chunk i).start < 2 ^ 61) ids
      → Allocates state b size_requested (alloc_block inserted kzalloced state b size_requested)
  unfolding alloc_block
  alloc_block-Allocates kzalloced ids tiled fresh page low =
      if-cases (Allocates state b size_requested) (ltb max_block_alloc_size size_requested) _ _
        (λ _. fails-Allocates einval b ids refl tiled)
        (λ modest.
          if-cases (Allocates state b size_requested) (not (size_requested % 8 == 0)) _ _
            (λ _. fails-Allocates einval b ids refl tiled)
            (λ _.
              alloc_found-Allocates kzalloced ids tiled fresh page (at_most modest) low
                (find_chunk b.chunk size_requested state.ts none b.bestfit_list)
                (find_chunk-Fits b.chunk size_requested state.ts (λ i. Among i ids) none
                  b.bestfit_list tiled.listed (λ i e. absurd (none-ne-some i e)))))
    where
      at_most :
          ltb max_block_alloc_size size_requested ≡ false → size_requested ≤ max_block_alloc_size
      at_most e = ground arith
