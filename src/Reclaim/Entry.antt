-- ===== src/Reclaim/Entry.antt =====
-- The entries of the collector, `sivfs_gc_entry` in kern/sivfs_checkpoints.h: pointers with a type in
-- their low bits.
use sivfs_public.Base.{ℕ, ◌+◌, ◌%◌, ◌≡◌, some, arith, ok}
use sivfs_public.Reclaim.{
  page, inode, entry_to_type, make_entry_page, make_entry_inode, entry_to_pointer,
}

-- A pointer to a page or an inode, aligned to 8 bytes, becomes an entry from which its type and
-- the pointer are read back.
pub make_entry-roundtrip :
    (pointer : ℕ)
    → pointer % 8 ≡ 0
    → (make_entry_page pointer ≡ (ok, pointer + 2))
      × (make_entry_inode pointer ≡ (ok, pointer + 4))
      × (entry_to_type (pointer + 2) ≡ some page)
      × (entry_to_type (pointer + 4) ≡ some inode)
      × (entry_to_pointer (pointer + 2) ≡ pointer)
      × (entry_to_pointer (pointer + 4) ≡ pointer)
unfolding make_entry_page make_entry_inode entry_to_type
make_entry-roundtrip pointer e =
    (ground arith, ground arith, ground arith, ground arith, omega (arith, e), omega (arith, e))
