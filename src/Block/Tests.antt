-- ===== src/Block/Tests.antt =====
-- Tests of kern/alloc/sivfs_allocation.c at a file of three chunks.
use sivfs_public.Base.{
  ℕ, ◌≡◌, ◌≢◌, refl, false, some, none, List, [], ◌∷◌, arith, All, inl, inr, ok, einval, ◌==◌,
  if◌then◌else◌,
}
use mathlib.Core.Option.{some-injective}
use sivfs_public.Block.{
  Blocks, AllocState, minus_one, set_abort, find_chunk, get_pginfo_at, get_pginfo, cut, cut_bound,
  split, split_end, split_chunk, take_chunk, alloc_found, alloc_block, free_block, free_at,
}
use sivfs_public.Block.Tiling.{Fill, IsTiled}
use sivfs_public.Block.Serve.{Allocates, alloc_block-Allocates}
use sivfs_public.Block.Marks.{mark}
use sivfs_public.Block.Free.{freeing, free_block-once}
use sivfs_public.Block.Coalesce.{coalesce_with_next, absorb, free_now}
use sivfs_public.Block.Coalesce.Cases.{NextCases, coalesce_with_next-Fill}
use sivfs_public.Block.Coalesce.Loops.{free_now-Fill}

-- Two blocks of two pages, of which the first is allocated, and the wilderness.
abbrev three : Blocks
three = record {
  chunk = λ i.
      if i == 1
      then record { last_freed_ts = 9223372036854775815; start = 0; size = 8192 }
      else if i == 2
      then record { last_freed_ts = 5; start = 8192; size = 8192 }
      else record { last_freed_ts = 0; start = 16384; size = minus_one };
  pginfo = λ pg.
      if pg == 0
      then some (record { boundary_offset = 0; ends_chunk = none; starts_chunk = some 1 })
      else if pg == 2
      then some (record { boundary_offset = 0; ends_chunk = some 1; starts_chunk = some 2 })
      else if pg == 4
      then some (record { boundary_offset = 0; ends_chunk = some 2; starts_chunk = some 3 })
      else none;
  bestfit_list = 3 ∷ 2 ∷ [];
}

abbrev thread_at : ℕ → AllocState
thread_at ts = record {
  ts = ts;
  should_abort = false;
  allocated_chunks = [];
  alloc_chunks_to_free = [];
}

three-Fill : Fill three (1 ∷ 2 ∷ 3 ∷ [])
three-Fill = (
  record { start = refl; page = refl },
  record { size_page = omega arith; small = omega arith },
  (
    record { start = refl; page = refl },
    record { size_page = omega arith; small = omega arith },
    (record { start = refl; page = refl }, refl),
  ),
)

three-IsTiled : IsTiled three (1 ∷ 2 ∷ 3 ∷ [])
three-IsTiled = record { tiles = three-Fill; listed = (inr (inr (inl refl)), (inr (inl refl), tt)) }

-- A thread that may see the free of the second block gets its first page.
alloc-seen : (alloc_block (λ _. ok) (some 4) (thread_at 6) three 4096).1 ≡ some (8192, 8192)
unfolding alloc_block alloc_found take_chunk split find_chunk
alloc-seen = refl

-- A thread with an older snapshot gets a page of the wilderness.
alloc-older : (alloc_block (λ _. ok) (some 4) (thread_at 4) three 4096).1 ≡ some (16384, 4096)
unfolding alloc_block alloc_found take_chunk split split_end split_chunk cut cut_bound find_chunk
    get_pginfo get_pginfo_at
alloc-older = refl

alloc-odd : (alloc_block (λ _. ok) (some 4) (thread_at 6) three 4097).0 ≡ einval
unfolding alloc_block
alloc-odd = refl

alloc_block-Allocates_example :
    Allocates (thread_at 4) three 4096 (alloc_block (λ _. ok) (some 4) (thread_at 4) three 4096)
alloc_block-Allocates_example =
    alloc_block-Allocates (λ _. ok) (thread_at 4) 4096 three (some 4) (1 ∷ 2 ∷ 3 ∷ []) three-IsTiled
      (λ remain e. new remain (some-injective 4 remain e)) (omega arith)
      (omega arith, (omega arith, (omega arith, tt)))
  where
    new : (remain : ℕ) → 4 ≡ remain → All (λ i. i ≢ remain) (1 ∷ 2 ∷ 3 ∷ [])
    new remain e =
        (λ f. omega (arith, e, f), (λ f. omega (arith, e, f), (λ f. omega (arith, e, f), tt)))

free_block-once_example :
    let b' = mark 1 (freeing 9223372036854775815) three in
    (free_block (λ _. ok) (thread_at 7) three 0
      ≡ some (ok, record (thread_at 7) { alloc_chunks_to_free = 1 ∷ [] }, b'))
    × IsTiled b' (1 ∷ 2 ∷ 3 ∷ [])
    × ((other : AllocState) → free_block (λ _. ok) other b' 0 ≡ some (ok, set_abort other, b'))
free_block-once_example =
    free_block-once (λ _. ok) three (1 ∷ 2 ∷ 3 ∷ []) 1 three-IsTiled (inl refl) (thread_at 7) refl
      (omega arith)

-- The second page of the first block starts nothing.
-- An allocated chunk takes in the free one behind it.
coalesce_with_next-Fill_example :
    NextCases (λ _. ok) three 1 2 32768 (3 ∷ []) (coalesce_with_next (λ _. ok) 1 32768 three)
    × ((m : ℕ) (ms : List ℕ) → 3 ∷ [] ≡ m ∷ ms → Fill (absorb (λ _. ok) 1 2 three) (1 ∷ 3 ∷ []))
coalesce_with_next-Fill_example =
    coalesce_with_next-Fill (λ _. ok) three 1 2 32768 (3 ∷ []) [] three-Fill

free_now-Fill_example :
    (b' : Blocks) × (ids : List ℕ) × (free_now (λ _. ok) 4 1 9 three ≡ some (ok, b')) × Fill b' ids
free_now-Fill_example = free_now-Fill (λ _. ok) 4 1 9 three [] 2 (3 ∷ []) (omega arith) three-Fill

-- A free at the start of a page that has no page information yet dereferences a NULL.
free-absent : free_block (λ _. ok) (thread_at 7) three 4096 ≡ none
unfolding free_block free_at get_pginfo get_pginfo_at
free-absent = refl

-- A file with nothing in it.
abbrev fresh : Blocks
fresh = record {
  chunk = λ _. record { last_freed_ts = 0; start = 0; size = 0 };
  pginfo = λ _. none;
  bestfit_list = [];
}
