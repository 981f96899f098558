-- ===== src/Block.antt =====
-- The block allocator of a file, kern/alloc/sivfs_allocation.h and kern/alloc/sivfs_allocation.c. A
-- chunk is named by its address; the store maps addresses to chunks. `pginfo_tree` maps page numbers
-- to what starts and ends there. What `kzalloc` and `radix_tree_insert` answer is an argument.
pub mod Tiling
pub mod Keeps
pub mod Search
pub mod Split
pub mod Cuts
pub mod Before
pub mod Behind
pub mod Alloc
pub mod Take
pub mod Marks
pub mod Apart
pub mod Serve
pub mod Free
pub mod Coalesce
mod Tests
use sivfs_public.Base.{
  ℕ, suc, Bool, true, false, not, ◌&&◌, ◌||◌, Option, none, some, List, [], ◌∷◌, ◌/◌, ◌%◌, ◌*◌, ◌+◌,
  ltb, leb, ◌==◌, if◌then◌else◌, add64, sub64, mul64, has_bit, set_bit, clear_bit, Rc, ok, einval,
  enomem, failed,
}
use sivfs_public.Common.{invalid_ts}
use sivfs_public.Page.{page_size}

-- `struct sivfs_alloc_chunk`, less its list nodes.
pub record Chunk : Type 0 where
  pub last_freed_ts : ℕ
  pub start : ℕ
  pub size : ℕ

-- `struct sivfs_allocator_pginfo`
pub record PgInfo : Type 0 where
  pub boundary_offset : ℕ
  pub ends_chunk : Option ℕ
  pub starts_chunk : Option ℕ

-- `struct sivfs_allocator_info` and the chunks.
pub record Blocks : Type 0 where
  pub chunk : ℕ → Chunk
  pub pginfo : ℕ → Option PgInfo
  pub bestfit_list : List ℕ

-- The part of `struct sivfs_state` that is used here.
pub record AllocState : Type 0 where
  pub ts : ℕ
  pub should_abort : Bool
  pub allocated_chunks : List ℕ
  pub alloc_chunks_to_free : List ℕ

abbrev pub update_at : {A : Type 0} → (ℕ → A) → ℕ → A → ℕ → A
update_at f k v q = if q == k then v else f q

-- `(size_t)-1`: the size of the wilderness, and no boundary.
abbrev pub minus_one : ℕ
minus_one = 18446744073709551615

-- The flags SIVFS_CHUNK_ALLOCATED and SIVFS_CHUNK_FREEING of `last_freed_ts`.
abbrev pub allocated_bit : ℕ
allocated_bit = 63

abbrev pub freeing_bit : ℕ
freeing_bit = 62

-- `last_freed_ts & ~SIVFS_CHUNK_ALLOC_FLAGS`
abbrev pub without_flags : ℕ → ℕ
without_flags ts = clear_bit freeing_bit (clear_bit allocated_bit ts)

-- `sivfs_alloc_chunk_is_free`
abbrev pub is_free : Chunk → Bool
is_free c = not (has_bit allocated_bit c.last_freed_ts)

-- `sivfs_alloc_chunk_is_free_visible`
abbrev pub is_free_visible : Chunk → (test_ts : ℕ) → Bool
is_free_visible c test_ts = is_free c && leb (without_flags c.last_freed_ts) test_ts

abbrev pub set_chunk : ℕ → Chunk → Blocks → Blocks
set_chunk id c b = record b { chunk = update_at b.chunk id c }

abbrev pub set_pginfo : ℕ → PgInfo → Blocks → Blocks
set_pginfo pgoff p b = record b { pginfo = update_at b.pginfo pgoff (some p) }

-- A pginfo fresh from `kzalloc`.
abbrev pub zero_pginfo : PgInfo
zero_pginfo = record { boundary_offset = 0; ends_chunk = none; starts_chunk = none }

-- `sivfs_alloc_get_pginfo`: a missing one is inserted. `inserted` is what allocating and inserting one
-- for a page answers.
pub get_pginfo_at : (inserted : Rc) → Blocks → (pgoff : ℕ) → Option PgInfo → Rc × PgInfo × Blocks
get_pginfo_at inserted b pgoff (some p) = (ok, p, b)
get_pginfo_at ok b pgoff none = (ok, zero_pginfo, set_pginfo pgoff zero_pginfo b)
get_pginfo_at rc b pgoff none = (rc, zero_pginfo, b)

-- `end_pginfo->ends_chunk = id`, where the pginfo is there.
abbrev pub ends_at : (pgoff id : ℕ) → Blocks → Blocks
ends_at pgoff id b = elim (b.pginfo pgoff) [
  | none ↦ b
  | some p ↦ set_pginfo pgoff (record p { ends_chunk = some id }) b
]

-- The search of `sivfs_alloc_block`: the first chunk that is large enough and visibly free, else the
-- last wilderness met that is large enough.
pub find_chunk : (ℕ → Chunk) → (size_requested ts : ℕ) → (wilderness : Option ℕ) → List ℕ → Option ℕ
find_chunk chunk size_requested ts wilderness [] = wilderness
find_chunk chunk size_requested ts wilderness (id ∷ ids) =
    let as_wilderness = find_chunk chunk size_requested ts (some id) ids in
    let skip = find_chunk chunk size_requested ts wilderness ids in
    if ltb (chunk id).size size_requested
    then skip
    else if (chunk id).size == minus_one
    then as_wilderness
    else if not (is_free_visible (chunk id) ts)
    then skip
    else some id

-- `list_del`
abbrev pub list_del : ℕ → List ℕ → List ℕ
list_del id [] = []
list_del id (x ∷ xs) = if x == id then xs else x ∷ list_del id xs

-- `MAX_BLOCK_ALLOC_SIZE`
abbrev pub max_block_alloc_size : ℕ
max_block_alloc_size = 68719476736

-- What an abort of the calling transaction, requested by `sivfs_free_block`, sets.
abbrev pub set_abort : AllocState → AllocState
set_abort state = record state { should_abort = true }

module _ (inserted : ℕ → Rc) where
  pub get_pginfo : Blocks → (offset : ℕ) → Rc × PgInfo × Blocks
  get_pginfo b offset =
      get_pginfo_at (inserted (offset / page_size)) b (offset / page_size)
        (b.pginfo (offset / page_size))

  -- `sivfs_alloc_info_recover` of a fresh file: all is one free chunk, the wilderness.
  pub recovered : (kzalloced : Option ℕ) → Rc × PgInfo × Blocks → Rc × Blocks
  recovered none (ok, p, b) = (enomem, b)
  recovered (some id) (ok, p, b) = (
    ok,
    set_chunk id (record { last_freed_ts = 0; start = 0; size = minus_one })
        (set_pginfo 0 (record p { boundary_offset = 0; starts_chunk = some id })
          (record b { bestfit_list = id ∷ b.bestfit_list })),
  )
  recovered kzalloced (rc, p, b) = (rc, b)

  pub recover : (kzalloced : Option ℕ) → Blocks → Rc × Blocks
  recover kzalloced b = recovered kzalloced (get_pginfo b 0)

  module _ (cur size_requested : ℕ) where
    -- The end of a split: chunk `cur` is cut, and the rest becomes the chunk `remain`.
    pub cut_bound : (remain size : ℕ) → Blocks → Blocks
    cut_bound remain size b =
        let c = b.chunk cur in
        let boundary = add64 c.start size_requested in
        let rest : Chunk = record {
          last_freed_ts = c.last_freed_ts;
          start = boundary;
          size = size;
        } in
        let bound : PgInfo = record {
          boundary_offset = boundary % page_size;
          ends_chunk = some cur;
          starts_chunk = some remain;
        } in
        record (set_pginfo (boundary / page_size) bound
          (set_chunk remain rest (set_chunk cur (record c { size = size_requested }) b))) {
            bestfit_list = remain ∷ b.bestfit_list;
          }

    pub cut : (has_end : Bool) → (remain : ℕ) → Blocks → Blocks
    cut true remain b =
        ends_at (add64 (b.chunk cur).start (b.chunk cur).size / page_size) remain
          (cut_bound remain (sub64 (b.chunk cur).size size_requested) b)
    cut false remain b = cut_bound remain (b.chunk cur).size b

    pub split_chunk : (has_end : Bool) → Rc × PgInfo × Blocks → (kzalloced : Option ℕ) → Rc × Blocks
    split_chunk has_end (ok, p, b) none = (enomem, b)
    split_chunk has_end (ok, p, b) (some id) = (ok, cut has_end id b)
    split_chunk has_end (rc, p, b) kzalloced = (rc, b)

    pub split_end : (kzalloced : Option ℕ) → (has_end : Bool) → Rc × PgInfo × Blocks → Rc × Blocks
    split_end kzalloced has_end (ok, p, b) =
        split_chunk has_end
          (if has_end
            then get_pginfo b (add64 (b.chunk cur).start (b.chunk cur).size)
            else (ok, p, b))
          kzalloced
    split_end kzalloced has_end (rc, p, b) = (rc, b)

    -- The chunk is split if more than a page would be left.
    pub split : (kzalloced : Option ℕ) → Blocks → Rc × Blocks
    split kzalloced b =
        if ltb (add64 size_requested page_size) (b.chunk cur).size
        then split_end kzalloced (not ((b.chunk cur).size == minus_one))
            (get_pginfo b (add64 (b.chunk cur).start size_requested))
        else (ok, b)

  -- The chunk goes to the thread, and is set to allocated at once.
  pub take_chunk : (cur : ℕ) → AllocState → Rc × Blocks → Rc × Option (ℕ × ℕ) × AllocState × Blocks
  take_chunk cur state (ok, b) =
      let c = b.chunk cur in
      (
        ok,
        some (c.start, c.size),
        record state { allocated_chunks = cur ∷ state.allocated_chunks },
        set_chunk cur (record c { last_freed_ts = set_bit allocated_bit c.last_freed_ts })
            (record b { bestfit_list = list_del cur b.bestfit_list }),
      )
  take_chunk cur state (rc, b) = (rc, none, state, b)

  pub alloc_found :
      (kzalloced : Option ℕ)
      → (size_requested : ℕ) → AllocState
      → Blocks
      → Option ℕ
      → Rc × Option (ℕ × ℕ) × AllocState × Blocks
  alloc_found kzalloced size_requested state b none = (enomem, none, state, b)
  alloc_found kzalloced size_requested state b (some cur) =
      take_chunk cur state (split cur size_requested kzalloced b)

  -- `sivfs_alloc_block`: the return code, `*alloc_out` and `*alloc_size_out`, and the new states.
  pub alloc_block :
      (kzalloced : Option ℕ)
      → AllocState
      → Blocks
      → (size_requested : ℕ) → Rc × Option (ℕ × ℕ) × AllocState × Blocks
  alloc_block kzalloced state b size_requested =
      if ltb max_block_alloc_size size_requested
      then (einval, none, state, b)
      else if not (size_requested % 8 == 0)
      then (einval, none, state, b)
      else alloc_found kzalloced size_requested state b
          (find_chunk b.chunk size_requested state.ts none b.bestfit_list)

  -- The chunk that starts at the block is set to freeing, unless it is free or was freed after the
  -- snapshot of the thread; then the transaction is to abort.
  pub free_chunk : AllocState → Blocks → (id : ℕ) → Rc × AllocState × Blocks
  free_chunk state b id =
      let c = b.chunk id in
      if is_free c
      then (ok, set_abort state, b)
      else if ltb state.ts (without_flags c.last_freed_ts)
      then (ok, set_abort state, b)
      else (
        ok,
        record state { alloc_chunks_to_free = id ∷ state.alloc_chunks_to_free },
        set_chunk id
            (record c {
              last_freed_ts = set_bit freeing_bit (clear_bit allocated_bit c.last_freed_ts);
            })
            b,
      )

  -- `none` stands for a NULL that is dereferenced.
  pub free_at :
      AllocState → (block_offset : ℕ) → Rc × PgInfo × Blocks → Option (Rc × AllocState × Blocks)
  free_at state block_offset (ok, p, b) =
      if p.boundary_offset == minus_one
      then some (ok, set_abort state, b)
      else if not (p.boundary_offset == block_offset % page_size)
      then some (ok, set_abort state, b)
      else elim p.starts_chunk [ none ↦ none | some id ↦ some (free_chunk state b id) ]
  free_at state block_offset (rc, p, b) = some (rc, state, b)

  -- `sivfs_free_block`
  pub free_block : AllocState → Blocks → (block_offset : ℕ) → Option (Rc × AllocState × Blocks)
  free_block state b block_offset = free_at state block_offset (get_pginfo b block_offset)
