-- ===== src/Make/Change.antt =====
-- The loop of `sivfs_apply_change_checkpoint` of kern/sivfs_make_checkpoint.c as a whole.
use sivfs_public.Base.{
  ℕ, zero, suc, ◌+◌, ◌/◌, ◌%◌, ◌<◌, ◌≡◌, ◌≢◌, ◌⊎◌, inl, inr, refl, sym, ap, subst, ◌∙◌, Bool, true,
  false, List, [], ◌∷◌, arith, if◌then◌else◌, if-cases, length, length-set, All, Rc, ok, failed,
}
use mathlib.Core.Bool.{true≢false}
use sivfs_public.Walk.{Head}
use sivfs_public.Page.{page_size}
use sivfs_public.Make.{
  Maker, Slot, table_slot, read_slot, write_slot, override, to_leaf, page_for, change_from,
}
use sivfs_public.Make.Frames.{Frame-trans}
use sivfs_public.Make.Round.{AllGone, Frame, Tree, page_at, SlotAt, Round}
use sivfs_public.Make.Turn.{Turn, page_for-Turn}
use sivfs_public.Make.Leaf.{
  written, write_slot-to_leaf, wrote-Tree, wrote-AllGone, wrote-Frame, wrote-here, wrote-elsewhere,
}
use sivfs_public.Make.Blank.{override_same}

-- The path of the offsets, taken from the outermost on, below a path.
abbrev pub way : (offsets : List ℕ) → (rs : List ℕ) → List ℕ
way [] rs = rs
way (offset ∷ offsets) rs = way offsets (offset ∷ rs)

pub length-way : (offsets rs : List ℕ) → length (way offsets rs) ≡ length offsets + length rs
length-way [] rs = omega arith
length-way (offset ∷ offsets) rs = omega (arith, length-way offsets (offset ∷ rs))

length-written :
    (nowrite : Bool) (ent : Head) (words : List ℕ)
    → length (written nowrite ent words) ≡ length words
length-written true ent words = refl
length-written false ent words = length-set words (ent.file_offset % page_size / 8) ent.value

to_leaf-wrote :
    (nowrite : Bool) (ent : Head) (p : ℕ) (m : Maker)
    → to_leaf nowrite ent p m ≡ record m {
      mem = override m.mem p (written nowrite ent (m.mem p));
      index = override m.index p (ent.file_offset / page_size);
    }
unfolding to_leaf
to_leaf-wrote true ent p m =
    ap
      (λ (f : ℕ → List ℕ). record m {
        mem = f;
        index = override m.index p (ent.file_offset / page_size);
      })
      (sym (override_same m.mem p))
to_leaf-wrote false ent p m = refl

module _ (zero_pxd_page : List ℕ) (checkpoint_ts : ℕ) (nowrite : Bool) (ent : Head) where
  -- The pages are a tree again, and the leaf pages hold what they held, but for the one at the path.
  pub record Changed (path : List ℕ) (m m' : Maker) : Type 0 where
    pub tree : Tree zero_pxd_page m'
    pub here :
        m'.mem (page_at zero_pxd_page m' path)
        ≡ written nowrite ent (m.mem (page_at zero_pxd_page m path))
    pub elsewhere :
        (xs : List ℕ)
        → length xs ≡ 6
        → xs ≢ path
        → m'.mem (page_at zero_pxd_page m' xs) ≡ m.mem (page_at zero_pxd_page m xs)
    pub gone : AllGone zero_pxd_page m → AllGone zero_pxd_page m'

  -- How the loop may end.
  abbrev pub Finished : (path : List ℕ) → (m : Maker) → Rc × Maker → Type 0
  Finished path m r =
      Frame checkpoint_ts m r.1 × ((failed r.0 ≡ true) ⊎ (r.0 ≡ ok) × Changed path m r.1)

  leaf_end :
      (m m2 : Maker) (rs : List ℕ) (p : ℕ)
      → length rs ≡ 6
      → Round zero_pxd_page checkpoint_ts m m2 rs p
      → Finished rs m (ok, to_leaf nowrite ent p m2)
  leaf_end m m2 rs p short r =
      subst (λ (k : Maker). Finished rs m (ok, k)) (sym (to_leaf-wrote nowrite ent p m2))
        (
          Frame-trans checkpoint_ts m m2 _ r.frame (
              wrote-Frame zero_pxd_page checkpoint_ts m2 r.tree rs p short r.page_is r.owned words
                size index'),
          inr (
            refl,
            record {
              tree =
                  wrote-Tree zero_pxd_page checkpoint_ts m2 r.tree rs p short r.page_is r.owned
                    words size index';
              here =
                  wrote-here zero_pxd_page checkpoint_ts m2 r.tree rs p short r.page_is r.owned
                    words size index'
                  ∙ ap (written nowrite ent) (ap m2.mem (sym r.page_is) ∙ r.leaves rs short);
              elsewhere = λ xs h n.
                  wrote-elsewhere zero_pxd_page checkpoint_ts m2 r.tree rs p short r.page_is r.owned
                    words size index' xs h n
                  ∙ r.leaves xs h;
              gone = λ g.
                  wrote-AllGone zero_pxd_page checkpoint_ts m2 r.tree rs p short r.page_is r.owned
                    words size index' (r.gone g);
            },
          ),
        )
    where
      words : List ℕ
      words = written nowrite ent (m2.mem p)

      index' : ℕ → ℕ
      index' = override m2.index p (ent.file_offset / page_size)

      allocated : p < m2.fresh
      allocated = omega (arith, r.page_is, r.tree.allocated rs (omega (arith, short)))

      present : 0 < p
      present = omega (arith, r.owned.present)

      size : length words ≡ 512
      size = length-written nowrite ent (m2.mem p) ∙ r.tree.sized p present allocated

  later_end :
      (path : List ℕ) (m m2 : Maker) (rs : List ℕ) (p : ℕ) (r : Rc × Maker)
      → length path ≡ 6
      → Round zero_pxd_page checkpoint_ts m m2 rs p
      → Finished path m2 r
      → Finished path m r
  later_end path m m2 rs p r short round (frame, inl bad) =
      (Frame-trans checkpoint_ts m m2 r.1 round.frame frame, inl bad)
  later_end path m m2 rs p r short round (frame, inr (good, c)) = (
    Frame-trans checkpoint_ts m m2 r.1 round.frame frame,
    inr (
      good,
      record {
        tree = c.tree;
        here = c.here ∙ ap (written nowrite ent) (round.leaves path short);
        elsewhere = λ xs h n. c.elsewhere xs h n ∙ round.leaves xs h;
        gone = λ g. c.gone (round.gone g);
      },
    ),
  )

  pub change_from-Finished :
      (level : ℕ) (offsets rs : List ℕ) (slot : Slot) (m : Maker)
      → Tree zero_pxd_page m
      → SlotAt zero_pxd_page checkpoint_ts m rs slot
      → level + length rs ≡ 6
      → length offsets ≡ level
      → All (λ offset. offset < 512) offsets
      → checkpoint_ts ≢ 0
      → Finished
          (way offsets rs)
          m
          (change_from zero_pxd_page checkpoint_ts nowrite ent level offsets slot m)
  unfolding change_from
  change_from-Finished zero [] rs slot m t s whole long small some_ts =
      after (page_for zero_pxd_page checkpoint_ts 0 (read_slot slot m) m)
        (page_for-Turn zero_pxd_page checkpoint_ts m t rs slot s 0 whole some_ts)
    where
      after :
          (got : Rc × ℕ × Maker)
          → Turn zero_pxd_page checkpoint_ts m t rs slot s got
          → Finished rs m (
              if failed got.0
              then (got.0, got.2)
              else (ok, write_slot slot got.1 (to_leaf nowrite ent got.1 got.2)))
      after got (inl (bad, frame)) =
          if-cases (Finished rs m) (failed got.0) (got.0, got.2) _ (λ _. (frame, inl bad))
            (λ good. absurd (true≢false (sym bad ∙ good)))
      after got (inr (good, round, apart)) =
          if-cases (Finished rs m) (failed got.0) (got.0, got.2) _
            (λ bad. absurd (true≢false (sym bad ∙ ap failed good)))
            (λ _.
              subst (λ (k : Maker). Finished rs m (ok, k))
                (sym (write_slot-to_leaf nowrite ent slot got.1 got.2 apart))
                (leaf_end m (write_slot slot got.1 got.2) rs got.1 (omega (arith, whole)) round))
  change_from-Finished zero (o ∷ os) rs slot m t s whole long small some_ts = absurd (omega arith)
  change_from-Finished (suc level) [] rs slot m t s whole long small some_ts = absurd (omega arith)
  change_from-Finished (suc level) (o ∷ os) rs slot m t s whole long small some_ts =
      after (page_for zero_pxd_page checkpoint_ts (suc level) (read_slot slot m) m)
        (page_for-Turn zero_pxd_page checkpoint_ts m t rs slot s (suc level) whole some_ts)
        (λ k b a at.
          change_from-Finished level os (o ∷ rs) (table_slot b o) k a at (omega (arith, whole))
            (omega (arith, long)) small.1 some_ts)
    where
      path : List ℕ
      path = way os (o ∷ rs)

      after :
          (got : Rc × ℕ × Maker)
          → Turn zero_pxd_page checkpoint_ts m t rs slot s got
          → ((k : Maker) (b : ℕ)
              → Tree zero_pxd_page k
              → SlotAt zero_pxd_page checkpoint_ts k (o ∷ rs) (table_slot b o)
              → Finished path k
                  (change_from zero_pxd_page checkpoint_ts nowrite ent level os (table_slot b o) k))
          → Finished path m (
              if failed got.0
              then (got.0, got.2)
              else change_from zero_pxd_page checkpoint_ts nowrite ent level os
                  (table_slot got.1 o)
                  (write_slot slot got.1 got.2))
      after got (inl (bad, frame)) below =
          if-cases (Finished path m) (failed got.0) (got.0, got.2) _ (λ _. (frame, inl bad))
            (λ good. absurd (true≢false (sym bad ∙ good)))
      after got (inr (good, round, apart)) below =
          if-cases (Finished path m) (failed got.0) (got.0, got.2) _
            (λ bad. absurd (true≢false (sym bad ∙ ap failed good)))
            (λ _.
              later_end path m (write_slot slot got.1 got.2) rs got.1 _
                (omega (arith, length-way os (o ∷ rs), whole, long)) round
                (below (write_slot slot got.1 got.2) got.1 round.tree
                  (refl, round.page_is, round.owned, small.0)))
