-- ===== src/Make/Tests.antt =====
-- Tests of making checkpoints at concrete inputs.
use sivfs_public.Base.{
  ℕ, ◌<◌, ◌≡◌, ◌⊎◌, inl, inr, refl, sym, ap, subst, true, false, some, List, [], ◌∷◌, arith, ◌==◌,
  ◌&&◌, if◌then◌else◌, length, replicate, ok, enomem, failed,
}
use mathlib.Core.Bool.{true≢false}
use sivfs_public.Walk.{Head}
use sivfs_public.Page.{page_size, same_page}
use sivfs_public.Checkpoint.{iter_init, level_offsets, traverse_partial, descend}
use sivfs_public.Samples.{both, both_txns, both-IsReadable}
use sivfs_public.Make.{
  Maker, new_checkpoint_page, mk_zero_checkpoint_page, on_obsolete_page, put_checkpoint_page,
  copy_page, blank_page, page_for, to_leaf, change_from, apply_change_checkpoint,
}
use sivfs_public.Make.Round.{Tree}
use sivfs_public.Make.Leaf.{written}
use sivfs_public.Make.Read.{read_checkpoint, checkpoint_traverse}
use sivfs_public.Make.Apply.{read_checkpoint-apply_change_checkpoint}
use sivfs_public.Make.Snapshot.{empty-IsSnapshot, read_checkpoint-apply_change_checkpoint_older}
use sivfs_public.Make.Zero.{init_from, init_zero_checkpoint_pages}
use sivfs_public.Make.Zero.Blankness.{HasBlanks, IsBlank, init_zero_checkpoint_pages-Tree}
use sivfs_public.Make.Cycle.{Cycle, Answers, make_pages, make_checkpoint, make_prior, make_new}
use sivfs_public.Make.Cycle.Agrees.{Agrees, make_pages-Agrees}
use sivfs_public.Make.Cycle.Obsolete.{Discards, make_pages-Discards}
use sivfs_public.Make.Cycle.Settles.{Settles}

-- The machine before any checkpoint: page 1 is the zero page of the kernel.
abbrev boot : Maker
boot = record {
  mem = λ p. if p == 1 then replicate 512 0 else [];
  pginfo = λ p. record { checkpoint_ts = 0; obsoleted_ts = 0; level = 0; is_zero_page = p == 1 };
  index = λ p. 0;
  fresh = 2;
  ncheckpoint_pages = 0;
  answers = [];
  root = 0;
  obsoleted_pages = some [];
  collector = record { obsoleted_entries = []; blocked = []; freed = [] };
  pages_new = 0;
}

abbrev no_zero_pages : List ℕ
no_zero_pages = 0 ∷ 0 ∷ 0 ∷ 0 ∷ []

boot-HasBlanks : HasBlanks (1 ∷ 0 ∷ 0 ∷ 0 ∷ []) boot 1
boot-HasBlanks = record {
  four = refl;
  some_page = omega arith;
  null_empty = refl;
  sized = λ p a b. ap (λ i. length (boot.mem i)) (only p a b);
  blanks = λ l h.
      subst (IsBlank (1 ∷ 0 ∷ 0 ∷ 0 ∷ []) boot) (sym (first l h))
        (record { present = omega arith; there = omega arith; marked = refl; blank = refl });
}
  where
    only : (p : ℕ) → 0 < p → p < 2 → p ≡ 1
    only p a b = omega arith

    first : (l : ℕ) → l < 1 → l ≡ 0
    first l h = omega arith

init_zero_checkpoint_pages-Tree_example :
    (failed (init_zero_checkpoint_pages 1 no_zero_pages boot).0 ≡ true)
    ⊎ ((init_zero_checkpoint_pages 1 no_zero_pages boot).0 ≡ ok)
      × Tree
          (init_zero_checkpoint_pages 1 no_zero_pages boot).1
          (record ((init_zero_checkpoint_pages 1 no_zero_pages boot).2) { root = 0 })
init_zero_checkpoint_pages-Tree_example =
    init_zero_checkpoint_pages-Tree 1 0 0 0 0 boot boot-HasBlanks

-- The machine with its zero pages 1, 2, 3 and 4.
abbrev zs : List ℕ
zs = 1 ∷ 2 ∷ 3 ∷ 4 ∷ []

empty : Maker
empty = record ((init_zero_checkpoint_pages 1 no_zero_pages boot).2) { root = 0 }

empty-Tree : Tree zs empty
unfolding empty init_from init_zero_checkpoint_pages new_checkpoint_page
empty-Tree = elim init_zero_checkpoint_pages-Tree_example [
  | inl bad ↦ absurd (true≢false (sym bad))
  | inr (good, t) ↦ t
]

-- A write of word 1 of page 0 of file 9.
abbrev ent : Head
ent = record { ino = 9; file_offset = 8; address = 0; value = 77 }

applied-ok : (apply_change_checkpoint zs 5 false ent empty).0 ≡ ok
unfolding apply_change_checkpoint change_from page_for copy_page blank_page on_obsolete_page
    new_checkpoint_page put_checkpoint_page to_leaf iter_init level_offsets mk_zero_checkpoint_page
    empty init_from init_zero_checkpoint_pages
applied-ok = refl

read_checkpoint-apply_change_checkpoint_example :
    read_checkpoint
      (apply_change_checkpoint zs 5 false ent empty).1.mem
      page_size
      (some (apply_change_checkpoint zs 5 false ent empty).1.root)
      9
      0
      []
    ≡ (
      ok,
      if 9 == 9 && same_page 8 0
          then written false ent (read_checkpoint empty.mem page_size (some empty.root) 9 0 []).1
          else (read_checkpoint empty.mem page_size (some empty.root) 9 0 []).1,
    )
read_checkpoint-apply_change_checkpoint_example =
    read_checkpoint-apply_change_checkpoint zs 5 false ent empty 9 0 [] empty-Tree
      (λ h. absurd (omega (arith, h))) applied-ok
      (record { small_ino = omega arith; small_page = omega arith }) refl

read_checkpoint-apply_change_checkpoint_older_example :
    read_checkpoint (apply_change_checkpoint zs 5 false ent empty).1.mem page_size (some 0) 9 0 []
    ≡ read_checkpoint empty.mem page_size (some 0) 9 0 []
unfolding empty
read_checkpoint-apply_change_checkpoint_older_example =
    read_checkpoint-apply_change_checkpoint_older zs 5 false ent empty 0 9 0 [] empty-Tree
      (λ h. absurd (omega (arith, h))) (empty-IsSnapshot zs 5 empty empty-Tree)
      (record { small_ino = omega arith; small_page = omega arith }) refl

make_pages-Agrees_example : Agrees zs both 2 0 empty 9 0 [] [] (make_pages zs 2 both 0 empty)
unfolding empty
make_pages-Agrees_example =
    make_pages-Agrees zs both 2 0 empty 9 0 [] [] both_txns 1 refl (refl, (refl, tt))
      both-IsReadable (omega arith) (omega arith) (omega arith) (omega arith) (omega arith)
      empty-Tree (empty-IsSnapshot zs 2 empty empty-Tree)
      (record { small_ino = omega arith; small_page = omega arith }) refl

-- The empty checkpoint, inode 7, is the latest one.
abbrev cycle : Cycle
cycle = record {
  maker = boot;
  cpinfo = λ cp. record { cp_root = 0; cp_ts = 0; obsoleted_ts = 0 };
  checkpoints = record {
    checkpoint = some 7;
    ts = 0;
    latest_checkpoint_published = 0;
    checkpoints_reverse = (18446744073709551615, 7) ∷ [];
  };
}

abbrev answers : Answers
answers = record {
  has_state = true;
  new_stack = ok;
  new_inode = (ok, 8);
  locked = ok;
  room = ok;
  reserved = ok;
}

-- A lack of memory for the stack is not reported.
no_memory :
    make_checkpoint zs false (record answers { new_stack = enomem }) both cycle
    ≡ some (ok, false, cycle)
unfolding make_checkpoint make_prior make_new
no_memory = refl

-- After the write the page has its word, and the empty checkpoint does not.
page-written :
    read_checkpoint
      (apply_change_checkpoint zs 5 false ent empty).1.mem
      page_size
      (some (apply_change_checkpoint zs 5 false ent empty).1.root)
      9
      0
      []
    ≡ (ok, 0 ∷ 77 ∷ replicate 510 0)
unfolding apply_change_checkpoint change_from page_for copy_page blank_page on_obsolete_page
    new_checkpoint_page put_checkpoint_page to_leaf iter_init level_offsets mk_zero_checkpoint_page
    empty init_from init_zero_checkpoint_pages read_checkpoint checkpoint_traverse traverse_partial
    descend
page-written = refl

make_pages-Discards_example : Discards zs 2 (make_pages zs 2 both 0 empty)
unfolding empty init_from init_zero_checkpoint_pages new_checkpoint_page
make_pages-Discards_example =
    make_pages-Discards zs 2 both 0 empty both_txns 1 refl (refl, (refl, tt)) both-IsReadable
      (omega arith) (omega arith) (omega arith) (omega arith) (omega arith) empty-Tree refl
