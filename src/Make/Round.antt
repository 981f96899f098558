-- ===== src/Make/Round.antt =====
-- A round of the loop of `sivfs_apply_change_checkpoint` of kern/sivfs_make_checkpoint.c that puts a new page
-- into its place.
use sivfs_public.Base.{
  subst, All, All-map, ℕ, suc, ◌<◌, ◌≤◌, ◌≡◌, ◌≢◌, ◌⊎◌, inl, inr, refl, sym, ap, ◌∙◌, Bool, true,
  false, List, [], ◌∷◌, arith, length, get_or,
}
use mathlib.Core.Bool.{true≢false}
use sivfs_public.Make.{PgInfo, Maker, Slot, root_slot, table_slot, override}
use sivfs_public.Make.Nodes.{node, IsPageTree}
use sivfs_public.Make.Link.{Linked}
use sivfs_public.Make.Keep.{link-IsPageTree, link-leaf}
use sivfs_public.Make.Got.{HasNew, obsolete}

-- The zero page of a level.
abbrev pub zero_of : List ℕ → ℕ → ℕ
zero_of zero_pxd_page level = get_or zero_pxd_page level 0

abbrev pub is_zero_of : Maker → ℕ → Bool
is_zero_of m p = (m.pginfo p).is_zero_page

-- A page that the maker of a checkpoint may write to: one of this checkpoint.
pub record Owned (checkpoint_ts : ℕ) (m : Maker) (p : ℕ) : Type 0 where
  pub present : p ≢ 0
  pub no_zero_page : (m.pginfo p).is_zero_page ≡ false
  pub same_checkpoint : (m.pginfo p).checkpoint_ts ≡ checkpoint_ts

-- A page that is not.
abbrev pub Foreign : (checkpoint_ts : ℕ) → Maker → ℕ → Type 0
Foreign checkpoint_ts m p =
    (p ≡ 0) ⊎ (((m.pginfo p).is_zero_page ≡ true) ⊎ ((m.pginfo p).checkpoint_ts ≢ checkpoint_ts))

pub Foreign-Owned :
    (checkpoint_ts : ℕ) (m : Maker) (p q : ℕ)
    → Foreign checkpoint_ts m p
    → Owned checkpoint_ts m q
    → p ≢ q
Foreign-Owned checkpoint_ts m p q (inl e) o h = o.present (sym h ∙ e)
Foreign-Owned checkpoint_ts m p q (inr (inl e)) o h =
    true≢false (sym e ∙ ap (is_zero_of m) h ∙ o.no_zero_page)
Foreign-Owned checkpoint_ts m p q (inr (inr e)) o h =
    e (ap (λ i. (m.pginfo i).checkpoint_ts) h ∙ o.same_checkpoint)

-- Pages that are not of this checkpoint keep their words, and no page changes its checkpoint.
pub record Frame (checkpoint_ts : ℕ) (m m' : Maker) : Type 0 where
  pub grows : m.fresh ≤ m'.fresh
  pub zero_kept : (p : ℕ) → p < m.fresh → is_zero_of m' p ≡ is_zero_of m p
  pub ts_kept : (p : ℕ) → p < m.fresh → (m'.pginfo p).checkpoint_ts ≡ (m.pginfo p).checkpoint_ts
  pub mem_kept : (p : ℕ) → p < m.fresh → Foreign checkpoint_ts m p → m'.mem p ≡ m.mem p

pub Frame-refl : (checkpoint_ts : ℕ) (m : Maker) → Frame checkpoint_ts m m
Frame-refl checkpoint_ts m = record {
  grows = omega arith;
  zero_kept = λ p h. refl;
  ts_kept = λ p h. refl;
  mem_kept = λ p h f. refl;
}

module _ (zero_pxd_page : List ℕ) where
  abbrev pub Tree : Maker → Type 0
  Tree m = IsPageTree (zero_of zero_pxd_page) m.mem (is_zero_of m) m.root m.fresh

  abbrev pub page_at : Maker → List ℕ → ℕ
  page_at m xs = node (zero_of zero_pxd_page) m.mem m.root xs

module _ (zero_pxd_page : List ℕ) where
  -- No path of the checkpoint leads to the page.
  pub record Gone (m : Maker) (p : ℕ) : Type 0 where
    pub old_page : p < m.fresh
    pub no_path : (xs : List ℕ) → length xs ≤ 6 → page_at zero_pxd_page m xs ≢ p

  -- None leads to a page that was made obsolete.
  abbrev pub AllGone : Maker → Type 0
  AllGone m = All (Gone m) (obsolete m)

module _ (zero_pxd_page : List ℕ) (checkpoint_ts : ℕ) where
  -- The slot that a path ends with.
  abbrev pub SlotAt : Maker → List ℕ → Slot → Type 0
  SlotAt m [] root_slot = Unit
  SlotAt m (x ∷ xs) root_slot = ⊥
  SlotAt m [] (table_slot table offset) = ⊥
  SlotAt m (x ∷ xs) (table_slot table offset) =
      (x ≡ offset)
      × (page_at zero_pxd_page m xs ≡ table)
      × Owned checkpoint_ts m table
      × (offset < 512)

  -- After a round the page at the path is one of this checkpoint, the pages are a tree, the leaf pages hold
  -- what they held.
  pub record Round (m m' : Maker) (rs : List ℕ) (p : ℕ) : Type 0 where
    pub tree : Tree zero_pxd_page m'
    pub page_is : page_at zero_pxd_page m' rs ≡ p
    pub owned : Owned checkpoint_ts m' p
    pub leaves :
        (xs : List ℕ)
        → length xs ≡ 6
        → m'.mem (page_at zero_pxd_page m' xs) ≡ m.mem (page_at zero_pxd_page m xs)
    pub frame : Frame checkpoint_ts m m'
    pub gone : AllGone zero_pxd_page m → AllGone zero_pxd_page m'

  module _ (m m1 : Maker) (words : List ℕ) (old : ℕ) (n : HasNew checkpoint_ts m old m1 words)
      (t : Tree zero_pxd_page m) where
    abbrev pub after_new : Maker
    after_new = record m1 { mem = override m.mem m.fresh words; fresh = suc m.fresh; root = m.root }

    pub after_new-eq : m1 ≡ after_new
    after_new-eq =
        ap (λ (f : ℕ → List ℕ). record m1 { mem = f }) n.new_mem
        ∙ ap (λ k. record m1 { mem = override m.mem m.fresh words; fresh = k }) n.new_fresh
        ∙ ap (λ k. record m1 { mem = override m.mem m.fresh words; fresh = suc m.fresh; root = k })
            n.same_root

    new-Owned : (m' : Maker) → m'.pginfo ≡ m1.pginfo → Owned checkpoint_ts m' m.fresh
    new-Owned m' e = record {
      present = λ h. absurd (omega (arith, h, t.some_page));
      no_zero_page = ap (λ (f : ℕ → PgInfo). (f m.fresh).is_zero_page) e ∙ n.new_zero;
      same_checkpoint = ap (λ (f : ℕ → PgInfo). (f m.fresh).checkpoint_ts) e ∙ n.new_ts;
    }

    new-Frame :
        (mem' : ℕ → List ℕ) (root' : ℕ)
        → ((p : ℕ) → p < m.fresh → Foreign checkpoint_ts m p → mem' p ≡ m.mem p)
        → Frame checkpoint_ts m (record after_new { mem = mem'; root = root' })
    new-Frame mem' root' h = record {
      grows = omega arith;
      zero_kept = n.same_zero;
      ts_kept = n.same_ts;
      mem_kept = h;
    }

    Foreign-blank : (p : ℕ) → (p ≡ 0) ⊎ (is_zero_of m p ≡ true) → Foreign checkpoint_ts m p
    Foreign-blank p (inl e) = inl e
    Foreign-blank p (inr e) = inr (inl e)

    -- From what the pages at all paths are, and what the words of the old pages are.
    pub new-Round :
        (mem' : ℕ → List ℕ) (root' : ℕ) (rs : List ℕ)
        → length rs ≤ 6
        → ((xs : List ℕ)
            → length xs ≤ 6
            → Linked rs m.fresh xs
                (page_at zero_pxd_page m xs)
                (node (zero_of zero_pxd_page) mem' root' xs))
        → (foreign_kept : (p : ℕ) → p < m.fresh → Foreign checkpoint_ts m p → mem' p ≡ m.mem p)
        → (leaf_kept : (p : ℕ)
            → p < m.fresh
            → (xs : List ℕ) → length xs ≡ 6
            → page_at zero_pxd_page m xs ≡ p
            → mem' p ≡ m.mem p)
        → (sizes : (p : ℕ) → p < m.fresh → length (mem' p) ≡ length (m.mem p))
        → mem' m.fresh ≡ words
        → length words ≡ 512
        → (length rs ≡ 6 → words ≡ m.mem (page_at zero_pxd_page m rs))
        → (old ≢ 0 → page_at zero_pxd_page m rs ≡ old)
        → Round m (record after_new { mem = mem'; root = root' }) rs m.fresh
    new-Round mem' root' rs short linked foreign_kept leaf_kept sizes new size leaf at_old =
        record {
          tree =
              link-IsPageTree (zero_of zero_pxd_page) m.mem (is_zero_of m) m.root m.fresh t mem'
                (is_zero_of m1) root' rs linked (λ p b h. foreign_kept p h (Foreign-blank p b))
                sizes (ap length new ∙ size) n.same_zero;
          page_is = elim (linked rs short) [ inl (e, f) ↦ f | inr (e, f) ↦ absurd (e refl) ];
          owned = new-Owned (record after_new { mem = mem'; root = root' }) refl;
          leaves =
              link-leaf (zero_of zero_pxd_page) m.mem (is_zero_of m) m.root m.fresh t mem'
                (is_zero_of m1) root' rs linked leaf_kept (λ h. new ∙ leaf h);
          frame = new-Frame mem' root' foreign_kept;
          gone = λ all. elim n.pushed [
            | inl same ↦ subst (All (Gone zero_pxd_page m')) (sym same) (still all)
            | inr (present, real, more) ↦
                subst (All (Gone zero_pxd_page m')) (sym more)
                  (replaced present real (at_old present), still all)
          ];
        }
      where
        m' : Maker
        m' = record after_new { mem = mem'; root = root' }

        still : AllGone zero_pxd_page m → All (Gone zero_pxd_page m') (obsolete m)
        still = All-map (Gone zero_pxd_page m) (Gone zero_pxd_page m') (obsolete m) (λ p g. record {
          old_page = omega (arith, g.old_page);
          no_path = λ xs h e. elim (linked xs h) [
            | inl (here, at_new) ↦ absurd (omega (arith, g.old_page, at_new, e))
            | inr (there, same) ↦ g.no_path xs h (sym same ∙ e)
          ];
        })

        replaced :
            old ≢ 0
            → is_zero_of m old ≡ false
            → page_at zero_pxd_page m rs ≡ old
            → Gone zero_pxd_page m' old
        replaced present real at = record {
          old_page = omega (arith, at, t.allocated rs short);
          no_path = λ xs h e. elim (linked xs h) [
            | inl (here, at_new) ↦ absurd (omega (arith, at, t.allocated rs short, at_new, e))
            | inr (there, same) ↦ there (
                t.unique xs rs h short (sym same ∙ e ∙ sym at) (λ z. present (sym e ∙ same ∙ z))
                  (ap (is_zero_of m) (sym same ∙ e) ∙ real))
          ];
        }
