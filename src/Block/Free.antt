-- ===== src/Block/Free.antt =====
-- `sivfs_free_block` in kern/alloc/sivfs_allocation.c, of a block that a chunk of the file starts at.
use sivfs_public.Base.{
  Among, Among-split, ℕ, ◌/◌, ◌%◌, ◌≤◌, ◌≡◌, refl, sym, subst, ◌∙◌, ap, Bool, true, false, not,
  Option, some, List, ◌∷◌, arith, Rc, clear_bit, le→ltb, ==_refl, ok, ==_ne, ◌==◌, ltb, set_bit,
  if◌then◌else◌,
}
use mathlib.Core.Bool.{true≢false}
use sivfs_public.Page.{page_size}
use sivfs_public.Block.{
  Chunk, PgInfo, is_free, without_flags, freeing_bit, set_abort, free_chunk, free_at, free_block,
  Blocks, AllocState, minus_one, allocated_bit, get_pginfo_at, get_pginfo,
}
use sivfs_public.Block.Tiling.{update-hit, Starts, Tiles-Starts, later, IsTiled, Fill, Fill-at}
use sivfs_public.Block.Marks.{mark, mark-IsTiled, mark-start}

pub get_pginfo-there :
    (inserted : ℕ → Rc) (b : Blocks) (offset : ℕ) (p : PgInfo)
    → b.pginfo (offset / page_size) ≡ some p
    → get_pginfo inserted b offset ≡ (ok, p, b)
unfolding get_pginfo get_pginfo_at
get_pginfo-there inserted b offset p e =
    ap (λ o. get_pginfo_at (inserted (offset / page_size)) b (offset / page_size) o) e

-- The page of a chunk of the file.
pub Starts-at :
    (b : Blocks) (ids : List ℕ) (id : ℕ)
    → IsTiled b ids
    → Among id ids
    → (prev : Option ℕ) × Starts b (b.chunk id).start prev id
Starts-at b ids id t m =
    let place = Among-split id ids m in
    let tile = Fill-at b place.0 id place.1 (subst (Fill b) place.2 t.tiles) in
    (tile.0, Tiles-Starts b (b.chunk id).start tile.0 id place.1 tile.1)

-- The flags of a chunk that is being freed.
abbrev pub freeing : ℕ → ℕ
freeing ts = set_bit freeing_bit (clear_bit allocated_bit ts)

module _ (inserted : ℕ → Rc) (b : Blocks) (ids : List ℕ) (id : ℕ) (tiled : IsTiled b ids)
    (there : Among id ids) where
  free_block-chunk :
      (state : AllocState)
      → free_block inserted state b (b.chunk id).start ≡ some (free_chunk inserted state b id)
  unfolding free_block free_at
  free_block-chunk state =
      let st = Starts-at b ids id tiled there in
      ap (λ r. free_at inserted state (b.chunk id).start r)
        (get_pginfo-there inserted b (b.chunk id).start _ st.1.page)
      ∙ tests ((b.chunk id).start % page_size == minus_one)
          ((b.chunk id).start % page_size == (b.chunk id).start % page_size)
          (==_ne _ _ (λ e. omega (arith, e))) (==_refl _)
    where
      tests :
          (null right : Bool)
          → null ≡ false
          → right ≡ true
          → (if null
              then some (ok, set_abort state, b)
              else if not right
              then some (ok, set_abort state, b)
              else some (free_chunk inserted state b id))
            ≡ some (free_chunk inserted state b id)
      tests false true e f = refl
      tests true right e f = absurd (true≢false e)
      tests false false e f = absurd (true≢false (sym f))

  -- A chunk that is allocated, and was not freed after the snapshot of the thread, is set to freeing and
  -- noted for the commit of the thread.
  free_block-frees :
      (state : AllocState)
      → is_free (b.chunk id) ≡ false
      → without_flags (b.chunk id).last_freed_ts ≤ state.ts
      → free_block inserted state b (b.chunk id).start
        ≡ some (
          ok,
          record state { alloc_chunks_to_free = id ∷ state.alloc_chunks_to_free },
          mark id (freeing (b.chunk id).last_freed_ts) b,
        )
  unfolding free_chunk
  free_block-frees state busy seen =
      free_block-chunk state
      ∙ ap (λ r. some r) (tests (is_free (b.chunk id)) _ busy (le→ltb _ _ seen))
    where
      done : Rc × AllocState × Blocks
      done = (
        ok,
        record state { alloc_chunks_to_free = id ∷ state.alloc_chunks_to_free },
        mark id (freeing (b.chunk id).last_freed_ts) b,
      )

      tests :
          (free later : Bool)
          → free ≡ false
          → later ≡ false
          → (if free
              then (ok, set_abort state, b)
              else if later
              then (ok, set_abort state, b)
              else done)
            ≡ done
      tests false false e f = refl
      tests true later e f = absurd (true≢false e)
      tests false true e f = absurd (true≢false f)

  -- A block that is free already makes the transaction abort.
  free_block-aborts :
      (state : AllocState)
      → is_free (b.chunk id) ≡ true
      → free_block inserted state b (b.chunk id).start ≡ some (ok, set_abort state, b)
  unfolding free_chunk
  free_block-aborts state e =
      free_block-chunk state ∙ ap (λ c. some (if c then (ok, set_abort state, b) else busy)) e
    where
      busy : Rc × AllocState × Blocks
      busy =
          if ltb state.ts (without_flags (b.chunk id).last_freed_ts)
          then (ok, set_abort state, b)
          else (
            ok,
            record state { alloc_chunks_to_free = id ∷ state.alloc_chunks_to_free },
            mark id (freeing (b.chunk id).last_freed_ts) b,
          )

freeing-is_free :
    (c : Chunk) → is_free (record c { last_freed_ts = freeing c.last_freed_ts }) ≡ true
freeing-is_free c = ground arith

module _ (inserted : ℕ → Rc) (b : Blocks) (ids : List ℕ) (id : ℕ) where
  -- In a file that its chunks fill, an allocated block is freed once: a thread whose snapshot is not
  -- older than its last release sets it to freeing and notes it for its commit, and right after it a
  -- second free, of whatever thread, changes nothing and makes that thread abort.
  pub free_block-once :
      IsTiled b ids
      → Among id ids
      → (state : AllocState) → is_free (b.chunk id) ≡ false
      → without_flags (b.chunk id).last_freed_ts ≤ state.ts
      → let b' = mark id (freeing (b.chunk id).last_freed_ts) b in
        (free_block inserted state b (b.chunk id).start
          ≡ some (ok, record state { alloc_chunks_to_free = id ∷ state.alloc_chunks_to_free }, b'))
        × IsTiled b' ids
        × ((other : AllocState)
            → free_block inserted other b' (b.chunk id).start ≡ some (ok, set_abort other, b'))
  free_block-once tiled there state busy seen =
      let b' = mark id (freeing (b.chunk id).last_freed_ts) b in
      let again = mark-IsTiled id (freeing (b.chunk id).last_freed_ts) b ids tiled in
      (
        free_block-frees inserted b ids id tiled there state busy seen,
        again,
        λ other.
            subst (λ k. free_block inserted other b' k ≡ some (ok, set_abort other, b'))
              (mark-start id (freeing (b.chunk id).last_freed_ts) b id)
              (free_block-aborts inserted b' ids id again there other (
                ap is_free (
                  update-hit b.chunk id
                    (record (b.chunk id) { last_freed_ts = freeing (b.chunk id).last_freed_ts }) id
                    refl)
                ∙ freeing-is_free (b.chunk id))),
      )
