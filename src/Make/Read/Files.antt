-- ===== src/Make/Read/Files.antt =====
-- `sivfs_read_checkpoint` of kern/sivfs_checkpoints.c reads the page of a file at its path.
use sivfs_public.Base.{
  ℕ, ◌%◌, ◌≡◌, ap, ◌∙◌, Bool, false, not, ◌||◌, Option, none, some, List, arith, ◌==◌,
  if◌then◌else◌, Rc, ok, einval, failed,
}
use sivfs_public.Page.{page_size}
use sivfs_public.Checkpoint.{iter_init, descend, traverse_partial}
use sivfs_public.Make.{Maker}
use sivfs_public.Make.Round.{zero_of, Tree, page_at}
use sivfs_public.Make.Read.{pointer, entry_of, page_words, checkpoint_traverse, read_checkpoint}
use sivfs_public.Make.Read.Words.{HasZeroPages, root-words}
use sivfs_public.Make.Paths.{path_of, IsSmall, IsGood, iter_init-IsGood}

module _ (zero_pxd_page : List ℕ) where
  pub Tree-HasZeroPages :
      (m : Maker) → Tree zero_pxd_page m → HasZeroPages (zero_of zero_pxd_page) m.mem
  Tree-HasZeroPages m t = record {
    null_empty = t.absent;
    zero_page_there = t.zero_present;
    zero_page_words = t.zero_blank;
  }

  -- Reading a page gives the words at its path.
  pub read_checkpoint-path_of :
      (m : Maker) (root file_ino file_offset : ℕ) (buf : List ℕ)
      → HasZeroPages (zero_of zero_pxd_page) m.mem
      → IsSmall file_ino file_offset
      → file_offset % page_size ≡ 0
      → read_checkpoint m.mem page_size (some root) file_ino file_offset buf ≡ (
        ok,
        m.mem (page_at zero_pxd_page (record m { root = root }) (path_of file_ino file_offset)),
      )
  unfolding read_checkpoint checkpoint_traverse traverse_partial
  read_checkpoint-path_of m root file_ino file_offset buf h small whole =
      ap (λ b. reading b found) (==_iff-not (file_offset % page_size) whole)
      ∙ ap (reading false) (ap (λ rc. if failed rc then (rc, none) else (ok, leaf)) good.iter_ok)
      ∙ ap (λ ws. (ok, ws))
          (root-words (zero_of zero_pxd_page) m.mem h root (iter_init file_ino file_offset).1
            good.six)
    where
      good : IsGood (iter_init file_ino file_offset)
      good = iter_init-IsGood file_ino file_offset small

      ==_iff-not : (n : ℕ) → n ≡ 0 → (not (n == 0) || not (page_size == page_size)) ≡ false
      ==_iff-not n e = ground arith

      leaf : Option ℕ
      leaf = descend (entry_of m.mem) 6 0 (iter_init file_ino file_offset).1 (pointer root)

      found : Rc × Option ℕ
      found =
          if failed (iter_init file_ino file_offset).0
          then ((iter_init file_ino file_offset).0, none)
          else (ok, leaf)

      reading : Bool → Rc × Option ℕ → Rc × List ℕ
      reading b f =
          if b then (einval, buf) else if failed f.0 then (f.0, buf) else (ok, page_words m.mem f.1)
