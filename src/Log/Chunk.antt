-- ===== src/Log/Chunk.antt =====
-- The sequential allocation of log entries in kern/sivfs_shared_state.c: what a success hands out, and
-- what a failure frees.
use sivfs_public.Base.{ℕ, ◌+◌, ◌^◌, ◌≤◌, ◌≡◌, ◌==◌}
use sivfs_public.Writeset.{Writeset}
use sivfs_public.Log.{LogEntry, LogChunk}

-- The chunk is `size` bytes of memory from `chunk_start_ptr`, of which those from `chunk_ptr` on are
-- free. The first word points to the chunk before.
pub record IsChunk (size : ℕ) (c : LogChunk) : Type 0 where
  pub ends : c.chunk_ptr + c.bytes_remaining_chunk ≡ c.chunk_start_ptr + size
  pub linked : c.chunk_start_ptr + 8 ≤ c.chunk_ptr
  pub small : c.chunk_start_ptr + size ≤ 2 ^ 62

-- The allocation of `bytes` from a chunk `d`: it lies at the start of what was free in it, the rest
-- stays free, and the entry is marked as the first of its chunk exactly if nothing stands before it.
pub record Allocated (size bytes : ℕ) (d : LogChunk) (address : ℕ) (e : LogEntry) (c : LogChunk)
    : Type 0 where
  pub valid : IsChunk size c
  pub from : address ≡ d.chunk_ptr
  pub to : address + bytes ≡ c.chunk_ptr
  pub same : c.chunk_start_ptr ≡ d.chunk_start_ptr
  pub first : e.first_in_chunk ≡ (address == c.chunk_start_ptr + 8)
