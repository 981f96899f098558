-- ===== src/Log/Create.antt =====
-- `sivfs_create_log_entry` of kern/sivfs_shared_state.c: what it returns and leaves of the shared state.
use sivfs_public.Base.{
  ℕ, ◌≤◌, ◌<◌, ◌≡◌, ◌⊎◌, inl, inr, refl, Bool, Bool-cases, Option, none, some, [], ◌∷◌, ◌++◌, ltb,
  ltb→lt, arith, false, Rc, ok, einval, enomem, eexist, eagain, eintr,
}
use sivfs_public.Writeset.{Writeset}
use sivfs_public.Log.{
  LogEntry, LogChunk, Shared, choose_chunk, allocate_in, allocate_log, created, create_log_entry,
  entry_bytes, fresh_entry, new_chunk,
}

-- The chunk that an entry is taken from starts at `p`: it is the current chunk if that has room for the
-- entry, and what `kmalloc` gave otherwise.
abbrev pub Chosen : (kmalloced : Option ℕ) → Shared → Writeset → (p : ℕ) → Type 0
Chosen kmalloced s ws p =
    (entry_bytes ws ≤ s.chunk.bytes_remaining_chunk) × (p ≡ s.chunk.chunk_start_ptr)
    ⊎ (s.chunk.bytes_remaining_chunk < entry_bytes ws) × (kmalloced ≡ some p)

-- How the function fails: for want of memory, where nothing changes; or because the entry cannot be
-- inserted, where the chunk that it was taken from is freed, and nothing else changes.
abbrev pub Refused :
    (kmalloced : Option ℕ) → (inserted : Rc) → Shared → Writeset → Rc → Shared → Type 0
Refused kmalloced inserted s ws rc s' =
    (rc ≡ enomem) × (s.chunk.bytes_remaining_chunk < entry_bytes ws) × (kmalloced ≡ none) × (s' ≡ s)
    ⊎ (rc ≡ inserted)
      × ((p : ℕ) × Chosen kmalloced s ws p × (s' ≡ record s { kfreed = p ∷ s.kfreed }))

-- What the function returns and leaves.
abbrev pub Created :
    (kmalloced : Option ℕ) → (inserted : Rc) → Shared → Writeset → Rc × LogEntry × Shared → Type 0
Created kmalloced inserted s ws (ok, e, s') =
    (first : Bool) × (c : LogChunk) × (e ≡ fresh_entry ws first)
    × (s' ≡ record s { log = s.log ++ (e ∷ []); chunk = c })
Created kmalloced inserted s ws (rc, e, s') = Refused kmalloced inserted s ws rc s'

module _ (kmalloced : Option ℕ) (s : Shared) (ws : Writeset) where
  created-Created :
      (inserted : Rc) (c : LogChunk)
      → Chosen kmalloced s ws c.chunk_start_ptr
      → Created kmalloced inserted s ws (created s (allocate_in inserted ws (some c)))
  unfolding created allocate_in
  created-Created ok c h = (_, _, refl, refl)
  created-Created einval c h = inr (refl, (c.chunk_start_ptr, h, refl))
  created-Created enomem c h = inr (refl, (c.chunk_start_ptr, h, refl))
  created-Created eexist c h = inr (refl, (c.chunk_start_ptr, h, refl))
  created-Created eagain c h = inr (refl, (c.chunk_start_ptr, h, refl))
  created-Created eintr c h = inr (refl, (c.chunk_start_ptr, h, refl))

new_chunk-Created :
    (kmalloced : Option ℕ) (inserted : Rc) (s : Shared) (ws : Writeset)
    → s.chunk.bytes_remaining_chunk < entry_bytes ws
    → Created kmalloced inserted s ws (
        created s (
          allocate_in inserted ws
            (elim kmalloced [ none ↦ none | some p ↦ some (new_chunk p (entry_bytes ws)) ])))
unfolding created allocate_in
new_chunk-Created none inserted s ws full = inl (refl, full, refl, refl)
new_chunk-Created (some p) inserted s ws full =
    created-Created (some p) s ws inserted (new_chunk p (entry_bytes ws)) (inr (full, refl))

pub create_log_entry-Created :
    (kmalloced : Option ℕ) (inserted : Rc) (s : Shared) (ws : Writeset)
    → Created kmalloced inserted s ws (create_log_entry kmalloced inserted s ws)
unfolding create_log_entry allocate_log choose_chunk
create_log_entry-Created kmalloced inserted s ws =
    elim (Bool-cases (ltb s.chunk.bytes_remaining_chunk (entry_bytes ws))) [
      | inl full ↦ rw full (new_chunk-Created kmalloced inserted s ws (ltb→lt _ _ full))
      | inr room ↦
          rw room (created-Created kmalloced s ws inserted s.chunk (inl (not_less _ _ room, refl)))
    ]
  where
    not_less : (a b : ℕ) → ltb a b ≡ false → b ≤ a
    not_less a b h = ground arith
