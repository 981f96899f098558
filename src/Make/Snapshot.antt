-- ===== src/Make/Snapshot.antt =====
-- Checkpoints that share their pages with one that kern/sivfs_make_checkpoint.c is making.
use sivfs_public.Base.{
  ℕ, suc, ◌%◌, ◌<◌, ◌≤◌, ◌≡◌, ◌≢◌, inl, inr, refl, sym, ap, subst, ◌∙◌, Bool, some, List, [], ◌∷◌,
  arith, length, get_or, ok,
}
use sivfs_public.Walk.{Head}
use sivfs_public.Page.{page_size}
use sivfs_public.Make.{Maker, apply_change_checkpoint}
use sivfs_public.Make.Nodes.{shown, node}
use sivfs_public.Make.Round.{zero_of, is_zero_of, Foreign, Frame, Tree}
use sivfs_public.Make.Frames.{Foreign-kept}
use sivfs_public.Make.Read.{read_checkpoint}
use sivfs_public.Make.Read.Words.{HasZeroPages, empty_node}
use sivfs_public.Make.Read.Files.{Tree-HasZeroPages, read_checkpoint-path_of}
use sivfs_public.Make.Paths.{path_of, IsSmall, length-path_of}
use sivfs_public.Make.Apply.{apply_change_checkpoint-Finished}

module _ (zero_pxd_page : List ℕ) (checkpoint_ts : ℕ) where
  -- A checkpoint that was made before: none of its pages belongs to the one that is being made.
  pub record IsSnapshot (m : Maker) (cp_root : ℕ) : Type 0 where
    pub there :
        (xs : List ℕ) → length xs ≤ 6 → node (zero_of zero_pxd_page) m.mem cp_root xs < m.fresh
    pub older :
        (xs : List ℕ)
        → length xs ≤ 6
        → Foreign checkpoint_ts m (node (zero_of zero_pxd_page) m.mem cp_root xs)

  -- The empty checkpoint is one.
  pub empty-IsSnapshot : (m : Maker) → Tree zero_pxd_page (record m { root = 0 }) → IsSnapshot m 0
  empty-IsSnapshot m t = record {
    there = t.allocated;
    older = λ xs h.
        elim (empty_node (zero_of zero_pxd_page) m.mem
          (Tree-HasZeroPages zero_pxd_page (record m { root = 0 }) t) xs h) [
            | inl e ↦ inl e
            | inr (l, k, e) ↦ inr (inl (ap (is_zero_of m) e ∙ t.zero_marked l (omega (arith, k))))
          ];
  }

  module _ (m m' : Maker) (cp_root : ℕ) (s : IsSnapshot m cp_root)
      (f : Frame checkpoint_ts m m') where
    same_node :
        (xs : List ℕ)
        → length xs ≤ 6
        → node (zero_of zero_pxd_page) m'.mem cp_root xs
          ≡ node (zero_of zero_pxd_page) m.mem cp_root xs
    same_node [] h = refl
    same_node (x ∷ xs) h =
        ap (λ p. shown (zero_of zero_pxd_page) (suc (length xs)) (get_or (m'.mem p) x 0))
          (same_node xs (omega (arith, h)))
        ∙ ap (λ (ws : List ℕ). shown (zero_of zero_pxd_page) (suc (length xs)) (get_or ws x 0))
            (f.mem_kept _ (s.there xs (omega (arith, h))) (s.older xs (omega (arith, h))))

    same_words :
        (xs : List ℕ)
        → length xs ≤ 6
        → m'.mem (node (zero_of zero_pxd_page) m'.mem cp_root xs)
          ≡ m.mem (node (zero_of zero_pxd_page) m.mem cp_root xs)
    same_words xs h = ap m'.mem (same_node xs h) ∙ f.mem_kept _ (s.there xs h) (s.older xs h)

    pub Frame-IsSnapshot : IsSnapshot m' cp_root
    Frame-IsSnapshot = record {
      there = λ xs h. omega (arith, same_node xs h, s.there xs h, f.grows);
      older = λ xs h.
          subst (Foreign checkpoint_ts m') (sym (same_node xs h))
            (Foreign-kept checkpoint_ts m m' _ f (s.there xs h) (s.older xs h));
    }

    pub Frame-HasZeroPages : Tree zero_pxd_page m → HasZeroPages (zero_of zero_pxd_page) m'.mem
    Frame-HasZeroPages t = record {
      null_empty = f.mem_kept 0 t.some_page (inl refl) ∙ t.absent;
      zero_page_there = t.zero_present;
      zero_page_words = λ l h.
          f.mem_kept (zero_of zero_pxd_page l) (t.zero_allocated l h)
            (inr (inl (t.zero_marked l h)))
          ∙ t.zero_blank l h;
    }

    -- Its pages read as they did.
    pub Frame-read_checkpoint :
        (file_ino file_offset : ℕ) (buf : List ℕ)
        → Tree zero_pxd_page m
        → IsSmall file_ino file_offset
        → file_offset % page_size ≡ 0
        → read_checkpoint m'.mem page_size (some cp_root) file_ino file_offset buf
          ≡ read_checkpoint m.mem page_size (some cp_root) file_ino file_offset buf
    Frame-read_checkpoint file_ino file_offset buf t small whole =
        read_checkpoint-path_of zero_pxd_page m' cp_root file_ino file_offset buf
          (Frame-HasZeroPages t) small whole
        ∙ ap (λ ws. (ok, ws))
            (same_words (path_of file_ino file_offset)
              (omega (arith, length-path_of file_ino file_offset small)))
        ∙ sym (
            read_checkpoint-path_of zero_pxd_page m cp_root file_ino file_offset buf
              (Tree-HasZeroPages zero_pxd_page m t) small whole)

  -- A change to a checkpoint that is being made, whose pages are a tree, is not seen in any
  -- checkpoint of which no page belongs to the one being made, though the two share pages: each
  -- page of each file in range reads as it did, whether the change succeeds or fails on the way.
  pub read_checkpoint-apply_change_checkpoint_older :
      (nowrite : Bool) (ent : Head) (m : Maker) (cp_root file_ino file_offset : ℕ) (buf : List ℕ)
      → Tree zero_pxd_page m
      → checkpoint_ts ≢ 0
      → IsSnapshot m cp_root
      → IsSmall file_ino file_offset
      → file_offset % page_size ≡ 0
      → read_checkpoint
          (apply_change_checkpoint zero_pxd_page checkpoint_ts nowrite ent m).1.mem
          page_size
          (some cp_root)
          file_ino
          file_offset
          buf
        ≡ read_checkpoint m.mem page_size (some cp_root) file_ino file_offset buf
  read_checkpoint-apply_change_checkpoint_older nowrite ent m cp_root file_ino file_offset buf t
        some_ts s small whole =
      Frame-read_checkpoint m (apply_change_checkpoint zero_pxd_page checkpoint_ts nowrite ent m).1
        cp_root s
        (apply_change_checkpoint-Finished zero_pxd_page checkpoint_ts nowrite ent m t some_ts).0
        file_ino file_offset buf t small whole
