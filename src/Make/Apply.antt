-- ===== src/Make/Apply.antt =====
-- What `sivfs_apply_change_checkpoint` of kern/sivfs_make_checkpoint.c does to the pages that
-- `sivfs_read_checkpoint` of kern/sivfs_checkpoints.c reads.
use sivfs_public.Base.{
  ℕ, ◌/◌, ◌%◌, ◌≡◌, ◌≢◌, ◌⊎◌, inl, inr, sym, ap, ◌∙◌, Bool, true, false, ◌&&◌, some, List, [],
  arith, ◌==◌, if◌then◌else◌, if-cases, Bool-cases, Rc, ok, failed, not_failed,
}
use mathlib.Core.Bool.{true≢false}
use sivfs_public.Walk.{Head}
use sivfs_public.Page.{page_size, same_page}
use sivfs_public.Checkpoint.{iter_init}
use sivfs_public.Make.{Maker, root_slot, apply_change_checkpoint}
use sivfs_public.Make.Round.{Frame, Frame-refl, Tree, page_at}
use sivfs_public.Make.Leaf.{written}
use sivfs_public.Make.Change.{Changed, Finished, change_from-Finished}
use sivfs_public.Make.Read.{read_checkpoint}
use sivfs_public.Make.Read.Files.{Tree-HasZeroPages, read_checkpoint-path_of}
use sivfs_public.Make.Paths.{
  path_of, IsSmall, IsGood, iter_init-IsGood, iter_init-IsSmall, length-path_of, path_of-injective,
  path_of-same,
}

module _ (zero_pxd_page : List ℕ) (checkpoint_ts : ℕ) (nowrite : Bool) (ent : Head)
    (m : Maker) where
  abbrev applied : Rc × Maker
  applied = apply_change_checkpoint zero_pxd_page checkpoint_ts nowrite ent m

  -- How a change may end.
  pub apply_change_checkpoint-Finished :
      Tree zero_pxd_page m
      → checkpoint_ts ≢ 0
      → Frame checkpoint_ts m applied.1
        × ((failed applied.0 ≡ true)
            ⊎ (applied.0 ≡ ok)
              × IsSmall ent.ino ent.file_offset
              × Changed zero_pxd_page checkpoint_ts nowrite ent
                  (path_of ent.ino ent.file_offset)
                  m
                  applied.1)
  unfolding apply_change_checkpoint
  apply_change_checkpoint-Finished t some_ts =
      if-cases Ended (failed (iter_init ent.ino ent.file_offset).0)
        ((iter_init ent.ino ent.file_offset).0, m) _ (λ bad. (Frame-refl checkpoint_ts m, inl bad))
        (λ good.
          let small : IsSmall ent.ino ent.file_offset =
            iter_init-IsSmall ent.ino ent.file_offset (not_failed _ good) in
          let iter : IsGood (iter_init ent.ino ent.file_offset) =
            iter_init-IsGood ent.ino ent.file_offset small in
          with_small small _ (
            change_from-Finished zero_pxd_page checkpoint_ts nowrite ent 6
              (iter_init ent.ino ent.file_offset).1 [] root_slot m t tt (omega arith) iter.six
              iter.in_table some_ts))
    where
      Ended : Rc × Maker → Type 0
      Ended r =
          Frame checkpoint_ts m r.1
          × ((failed r.0 ≡ true)
              ⊎ (r.0 ≡ ok)
                × IsSmall ent.ino ent.file_offset
                × Changed zero_pxd_page checkpoint_ts nowrite ent (path_of ent.ino ent.file_offset)
                    m r.1)

      with_small :
          IsSmall ent.ino ent.file_offset
          → (r : Rc × Maker)
          → Finished zero_pxd_page checkpoint_ts nowrite ent (path_of ent.ino ent.file_offset) m r
          → Ended r
      with_small s r (frame, inl bad) = (frame, inl bad)
      with_small s r (frame, inr (good, c)) = (frame, inr (good, s, c))

  -- After a change that succeeds, to a checkpoint whose pages are a tree, every page of every file
  -- in range reads as it did in the old one, but for the page that the entry writes to, which has
  -- the entry applied (or nothing, under the option that only prepares the page).
  pub read_checkpoint-apply_change_checkpoint :
      (file_ino file_offset : ℕ) (buf : List ℕ)
      → Tree zero_pxd_page m
      → checkpoint_ts ≢ 0
      → applied.0 ≡ ok
      → IsSmall file_ino file_offset
      → file_offset % page_size ≡ 0
      → read_checkpoint applied.1.mem page_size (some applied.1.root) file_ino file_offset buf ≡ (
        ok,
        if ent.ino == file_ino && same_page ent.file_offset file_offset
            then written nowrite ent
                (read_checkpoint m.mem page_size (some m.root) file_ino file_offset buf).1
            else (read_checkpoint m.mem page_size (some m.root) file_ino file_offset buf).1,
      )
  read_checkpoint-apply_change_checkpoint file_ino file_offset buf t some_ts good small whole =
      elim (apply_change_checkpoint-Finished t some_ts).1 [
        | inl bad ↦ absurd (true≢false (sym bad ∙ ap failed good))
        | inr (e, s, c) ↦ changed s c
      ]
    where
      path : List ℕ
      path = path_of file_ino file_offset

      before :
          (ok, m.mem (page_at zero_pxd_page m path))
          ≡ read_checkpoint m.mem page_size (some m.root) file_ino file_offset buf
      before = sym (
          read_checkpoint-path_of zero_pxd_page m m.root file_ino file_offset buf
            (Tree-HasZeroPages zero_pxd_page m t) small whole)

      result : Bool → Rc × List ℕ → Rc × List ℕ
      result b old = (ok, if b then written nowrite ent old.1 else old.1)

      test : Bool
      test = ent.ino == file_ino && same_page ent.file_offset file_offset

      same : (a b c d : ℕ) → (a == b && c == d) ≡ true → (b ≡ a) × (d ≡ c)
      same a b c d e = ground arith

      differ : (a b c d : ℕ) → (a == b && c == d) ≡ false → b ≡ a → d ≡ c → ⊥
      differ a b c d e f g = ground arith

      changed :
          IsSmall ent.ino ent.file_offset
          → Changed zero_pxd_page checkpoint_ts nowrite ent
              (path_of ent.ino ent.file_offset)
              m
              applied.1
          → read_checkpoint applied.1.mem page_size (some applied.1.root) file_ino file_offset buf
            ≡ result test (read_checkpoint m.mem page_size (some m.root) file_ino file_offset buf)
      changed s c =
          read_checkpoint-path_of zero_pxd_page applied.1 applied.1.root file_ino file_offset buf
            (Tree-HasZeroPages zero_pxd_page applied.1 c.tree) small whole
          ∙ elim (Bool-cases test) [
            | inl hit ↦
                let here : path ≡ path_of ent.ino ent.file_offset =
                  path_of-same file_ino ent.ino file_offset ent.file_offset
                    (same ent.ino file_ino (ent.file_offset / page_size) (file_offset / page_size)
                      hit).0
                    (same ent.ino file_ino (ent.file_offset / page_size) (file_offset / page_size)
                      hit).1 in
                ap (λ l. (ok, applied.1.mem (page_at zero_pxd_page applied.1 l))) here
                ∙ ap (λ ws. (ok, ws)) c.here
                ∙ ap (λ l. (ok, written nowrite ent (m.mem (page_at zero_pxd_page m l)))) (sym here)
                ∙ ap (λ b. result b (ok, m.mem (page_at zero_pxd_page m path))) (sym hit)
            | inr miss ↦
                ap (λ ws. (ok, ws))
                  (c.elsewhere path (length-path_of file_ino file_offset small) (λ e.
                    let both =
                      path_of-injective file_ino ent.ino file_offset ent.file_offset small s e in
                    differ ent.ino file_ino (ent.file_offset / page_size) (file_offset / page_size)
                      miss both.0 both.1))
                ∙ ap (λ b. result b (ok, m.mem (page_at zero_pxd_page m path))) (sym miss)
          ]
          ∙ ap (result test) before
