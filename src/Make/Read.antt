-- ===== src/Make/Read.antt =====
-- Reading a page of a checkpoint, `sivfs_checkpoint_traverse`, `sivfs_read_checkpoint` and
-- `sivfs_lookup_cp_page_at_level` of kern/sivfs_checkpoints.c. A checkpoint is its root, 0 for NULL.
pub mod Words
pub mod Files
use sivfs_public.Base.{
  ℕ, ◌%◌, Bool, not, ◌||◌, Option, none, some, List, ltb, ◌==◌, if◌then◌else◌, get_or, replicate,
  Rc, ok, einval, failed,
}
use sivfs_public.Page.{page_size}
use sivfs_public.Checkpoint.{traverse_partial}

-- A pointer to a page, NULL is 0.
abbrev pub pointer : ℕ → Option ℕ
pointer p = if p == 0 then none else some p

module _ (mem : ℕ → List ℕ) where
  -- An entry of a page that is read as a table.
  abbrev pub entry_of : (p offset : ℕ) → Option ℕ
  entry_of p offset = pointer (get_or (mem p) offset 0)

  -- `sivfs_checkpoint_traverse`
  unfoldable pub checkpoint_traverse : (checkpoint_root file_ino file_offset : ℕ) → Rc × Option ℕ
  checkpoint_traverse checkpoint_root file_ino file_offset =
      traverse_partial entry_of (pointer checkpoint_root) file_ino file_offset 0

  -- What is copied out of a page.
  abbrev pub page_words : Option ℕ → List ℕ
  page_words none = replicate 512 0
  page_words (some p) = mem p

  -- `sivfs_read_checkpoint`: the buffer `buf` of `mem_size` bytes afterwards.
  unfoldable pub read_checkpoint :
      (mem_size : ℕ)
      → (checkpoint : Option ℕ) → (file_ino file_offset : ℕ) → (buf : List ℕ) → Rc × List ℕ
  read_checkpoint mem_size none file_ino file_offset buf = (einval, buf)
  read_checkpoint mem_size (some cp_root) file_ino file_offset buf =
      let found = checkpoint_traverse cp_root file_ino file_offset in
      if not (file_offset % page_size == 0) || not (mem_size == page_size)
      then (einval, buf)
      else if failed found.0
      then (found.0, buf)
      else (ok, page_words found.1)

  -- `sivfs_lookup_cp_page_at_level`
  pub lookup_cp_page_at_level :
      (checkpoint : Option ℕ) → (file_ino file_offset level_stop : ℕ) → Rc × Option ℕ
  lookup_cp_page_at_level none file_ino file_offset level_stop = (einval, none)
  lookup_cp_page_at_level (some cp_root) file_ino file_offset level_stop =
      let found = traverse_partial entry_of (pointer cp_root) file_ino file_offset level_stop in
      if ltb 4 level_stop then (einval, none) else if failed found.0 then (found.0, none) else found
