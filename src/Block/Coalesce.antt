-- ===== src/Block/Coalesce.antt =====
-- What commit and abort do with blocks: freeing with coalescence, and the lists of a thread, in
-- kern/alloc/sivfs_allocation.c.
pub mod Absorb
pub mod Merge
pub mod Cases
pub mod Loops
use sivfs_public.Base.{
  ℕ, zero, suc, Bool, true, false, not, ◌||◌, Option, none, some, List, [], ◌∷◌, ◌/◌, ltb, ◌==◌,
  if◌then◌else◌, add64, sub64, mul64, has_bit, set_bit, clear_bit, Rc, ok, einval, failed,
}
use sivfs_public.Common.{invalid_ts}
use sivfs_public.Page.{page_size}
use sivfs_public.Block.{
  Chunk, PgInfo, Blocks, AllocState, minus_one, allocated_bit, freeing_bit, without_flags,
  set_chunk, set_pginfo, ends_at, list_del, get_pginfo,
}

-- `SIVFS_CHUNK_FREEING | SIVFS_CHUNK_ALLOCATED`
abbrev pub is_busy : Chunk → Bool
is_busy c = has_bit freeing_bit c.last_freed_ts || has_bit allocated_bit c.last_freed_ts

-- How an attempt to coalesce ends: with an error, with nothing done, or with what is left of the budget.
pub data Coalesced : Type 0 where
  error : Rc → Blocks → Coalesced
  kept : Blocks → Coalesced
  merged : (budget : ℕ) → Blocks → Coalesced

-- `(last_freed_ts & SIVFS_CHUNK_ALLOC_FLAGS) | SIVFS_CHUNK_ALLOCATED`
abbrev pub only_flags : ℕ → ℕ
only_flags ts = set_bit allocated_bit (if has_bit freeing_bit ts then 4611686018427387904 else 0)

-- The frees of the thread are undone.
abbrev pub keep_all : List ℕ → Blocks → Blocks
keep_all [] b = b
keep_all (id ∷ ids) b =
    keep_all ids (
      set_chunk id (record (b.chunk id) { last_freed_ts = only_flags (b.chunk id).last_freed_ts })
        b)

module _ (inserted : ℕ → Rc) where
  -- The chunk `next`, which starts where `id` ends, becomes a part of it.
  pub absorb : (id next : ℕ) → Blocks → Blocks
  absorb id next b =
      let c = b.chunk id in
      let n = b.chunk next in
      let grown = set_chunk id (record c { size = add64 c.size n.size }) b in
      let unbound =
        set_pginfo (add64 c.start c.size / page_size)
          (record { boundary_offset = minus_one; ends_chunk = none; starts_chunk = none }) grown in
      record (ends_at (add64 n.start n.size / page_size) id unbound) {
        bestfit_list = list_del next b.bestfit_list;
      }

  pub absorb_start : (id next budget : ℕ) → Rc × PgInfo × Blocks → Coalesced
  absorb_start id next budget (ok, p, b) =
      merged (sub64 budget (b.chunk next).size) (absorb id next b)
  absorb_start id next budget (rc, p, b) = error rc b

  pub absorb_end : (id next budget : ℕ) → Rc × PgInfo × Blocks → Coalesced
  absorb_end id next budget (ok, p, b) =
      absorb_start id next budget (get_pginfo inserted b (b.chunk id).start)
  absorb_end id next budget (rc, p, b) = error rc b

  pub coalesce_at : (id budget : ℕ) → Rc × PgInfo × Blocks → Coalesced
  coalesce_at id budget (ok, p, b) = elim p.starts_chunk [
    | none ↦ kept b
    | some next ↦
        if is_busy (b.chunk next)
        then kept b
        else if (b.chunk next).size == minus_one
        then kept b
        else if ltb budget (b.chunk next).size
        then kept b
        else absorb_end id next budget
            (get_pginfo inserted b (add64 (b.chunk next).start (b.chunk next).size))
  ]
  coalesce_at id budget (rc, p, b) = error rc b

  -- `sivfs_coalesce_with_next`
  pub coalesce_with_next : (id budget : ℕ) → Blocks → Coalesced
  coalesce_with_next id budget b =
      coalesce_at id budget (get_pginfo inserted b (add64 (b.chunk id).start (b.chunk id).size))

  -- `sivfs_coalesce_with_prev`, with the chunk before, if there is one.
  pub prev_at : (budget : ℕ) → Rc × PgInfo × Blocks → Option ℕ × Coalesced
  prev_at budget (ok, p, b) = elim p.ends_chunk [
    | none ↦ (none, kept b)
    | some prev ↦ (some prev, coalesce_with_next prev budget b)
  ]
  prev_at budget (rc, p, b) = (none, error rc b)

  pub coalesce_with_prev : (id budget : ℕ) → Blocks → Option ℕ × Coalesced
  coalesce_with_prev id budget b = prev_at budget (get_pginfo inserted b (b.chunk id).start)

  -- The loops of `_sivfs_free_block`. Each round but the last takes the size of a chunk from the budget;
  -- `none` is a run out of fuel.
  pub loop_next : (fuel id budget : ℕ) → Blocks → Option (Rc × ℕ × Blocks)
  loop_next zero id budget b = none
  loop_next (suc fuel) id budget b = elim (coalesce_with_next id budget b) [
    | error rc b' ↦ some (rc, budget, b')
    | kept b' ↦ some (ok, budget, b')
    | merged budget' b' ↦ loop_next fuel id budget' b'
  ]

  pub loop_prev : (fuel id budget : ℕ) → Blocks → Option (Rc × Blocks)
  loop_prev zero id budget b = none
  loop_prev (suc fuel) id budget b =
      let r = coalesce_with_prev id budget b in
      elim r.1 [
        | error rc b' ↦ some (rc, b')
        | kept b' ↦ some (ok, b')
        | merged budget' b' ↦ elim r.0 [
          | none ↦ some (ok, b')
          | some prev ↦ loop_prev fuel prev budget' b'
        ]
      ]

  -- The flags and the place in the list of free chunks.
  pub release_chunk : (id commit_ts : ℕ) → Blocks → Blocks
  release_chunk id commit_ts b =
      let c = b.chunk id in
      let ts = if commit_ts == invalid_ts then c.last_freed_ts else commit_ts in
      record (set_chunk id (record c { last_freed_ts = without_flags ts }) b) {
        bestfit_list = id ∷ b.bestfit_list;
      }

  pub then_prev : (fuel id : ℕ) → Option (Rc × ℕ × Blocks) → Option (Rc × Blocks)
  then_prev fuel id none = none
  then_prev fuel id (some (ok, budget, b)) = loop_prev fuel id budget b
  then_prev fuel id (some (rc, budget, b)) = some (rc, b)

  -- `_sivfs_free_block` of a chunk with an allocator: it is freed and coalesced.
  pub free_now : (fuel id commit_ts : ℕ) → Blocks → Option (Rc × Blocks)
  free_now fuel id commit_ts b =
      let b' = release_chunk id commit_ts b in
      then_prev fuel id (loop_next fuel id (mul64 (b'.chunk id).size 4) b')

  -- The chunks are freed in turn, until one fails.
  pub free_all : (fuel commit_ts : ℕ) → (ids : List ℕ) → Blocks → Option (Rc × List ℕ × Blocks)
  free_all fuel commit_ts [] b = some (ok, [], b)
  free_all fuel commit_ts (id ∷ ids) b = elim (free_now fuel id commit_ts b) [
    | none ↦ none
    | some (rc, b') ↦ elim (failed rc) [
      | true ↦ some (einval, ids, b')
      | false ↦ free_all fuel commit_ts ids b'
    ]
  ]

  -- `_sivfs_allocation_on_commit`
  pub on_commit : (fuel commit_ts : ℕ) → AllocState → Blocks → Option (Rc × AllocState × Blocks)
  on_commit fuel commit_ts state b = elim (free_all fuel commit_ts state.alloc_chunks_to_free b) [
    | none ↦ none
    | some (rc, left, b') ↦
        some (rc, record state { allocated_chunks = []; alloc_chunks_to_free = left }, b')
  ]

  -- `_sivfs_allocation_on_abort`
  pub on_abort : (fuel : ℕ) → AllocState → Blocks → Option (Rc × AllocState × Blocks)
  on_abort fuel state b =
      elim (free_all fuel invalid_ts state.allocated_chunks
        (keep_all state.alloc_chunks_to_free b)) [
          | none ↦ none
          | some (rc, left, b') ↦
              some (rc, record state { allocated_chunks = left; alloc_chunks_to_free = [] }, b')
        ]

  -- `sivfs_allocation_on_commit`
  pub allocation_on_commit :
      (fuel : ℕ)
      → AllocState
      → Blocks
      → (aborted : Bool) → (commit_ts : ℕ) → Option (Rc × AllocState × Blocks)
  allocation_on_commit fuel state b aborted commit_ts =
      if not aborted then on_commit fuel commit_ts state b else on_abort fuel state b
