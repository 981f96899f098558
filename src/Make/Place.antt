-- ===== src/Make/Place.antt =====
-- The new page of a round of `sivfs_apply_change_checkpoint` of kern/sivfs_make_checkpoint.c is put into the
-- root or into its table.
use sivfs_public.Base.{
  ℕ, suc, ◌<◌, ◌≤◌, ◌≡◌, ◌≢◌, ◌⊎◌, inl, inr, sym, ap, subst, ◌∙◌, List, [], ◌∷◌, arith, length,
  length-set,
}
use sivfs_public.Make.{Maker, Slot, root_slot, table_slot, write_slot, override}
use sivfs_public.Make.Nodes.{number_cases}
use sivfs_public.Make.Link.{
  Copies, link_root, link_table, linked_mem, table_words, other_words, new_words, override_other,
  override_self,
}
use sivfs_public.Make.Got.{HasNew}
use sivfs_public.Make.Round.{
  zero_of, is_zero_of, Owned, Foreign-Owned, Tree, page_at, SlotAt, Round, after_new-eq, new-Round,
}

module _ (zero_pxd_page : List ℕ) (checkpoint_ts : ℕ) (m m1 : Maker) (words : List ℕ) (old : ℕ)
    (n : HasNew checkpoint_ts m old m1 words) (t : Tree zero_pxd_page m)
    (size : length words ≡ 512) where
  abbrev z : ℕ → ℕ
  z = zero_of zero_pxd_page

  new_root :
      Copies z m.mem (is_zero_of m) m.root m.fresh t words []
      → (old ≢ 0 → m.root ≡ old)
      → Round zero_pxd_page checkpoint_ts m (write_slot root_slot m.fresh m1) [] m.fresh
  new_root same at_old =
      subst
        (λ (k : Maker).
          Round zero_pxd_page checkpoint_ts m (write_slot root_slot m.fresh k) [] m.fresh)
        (sym (after_new-eq zero_pxd_page checkpoint_ts m m1 words old n t))
        (new-Round zero_pxd_page checkpoint_ts m m1 words old n t (override m.mem m.fresh words)
          m.fresh [] (omega arith) (link_root z m.mem (is_zero_of m) m.root m.fresh t words same)
          (λ p h _. kept p h) (λ p h xs _ _. kept p h) (λ p h. ap length (kept p h))
          (override_self m.mem m.fresh words) size (λ h. absurd (omega arith)) at_old)
    where
      kept : (p : ℕ) → p < m.fresh → override m.mem m.fresh words p ≡ m.mem p
      kept p h = override_other m.mem m.fresh words p (λ e. absurd (omega (arith, h, e)))

  module _ (q o : ℕ) (ps : List ℕ) (at : page_at zero_pxd_page m ps ≡ q)
      (owned : Owned checkpoint_ts m q) (room : o < 512) (short : suc (length ps) ≤ 6) where
    new_entry :
        Copies z m.mem (is_zero_of m) m.root m.fresh t words (o ∷ ps)
        → (suc (length ps) ≡ 6 → words ≡ m.mem (page_at zero_pxd_page m (o ∷ ps)))
        → (old ≢ 0 → page_at zero_pxd_page m (o ∷ ps) ≡ old)
        → Round zero_pxd_page checkpoint_ts m
            (write_slot (table_slot q o) m.fresh m1)
            (o ∷ ps)
            m.fresh
    new_entry same leaf at_old =
        subst
          (λ (k : Maker).
            Round zero_pxd_page checkpoint_ts m (write_slot (table_slot q o) m.fresh k) (o ∷ ps)
              m.fresh)
          (sym (after_new-eq zero_pxd_page checkpoint_ts m m1 words old n t))
          (new-Round zero_pxd_page checkpoint_ts m m1 words old n t
            (linked_mem z m.mem (is_zero_of m) m.root m.fresh t words q o ps at owned.present
              owned.no_zero_page room short)
            m.root (o ∷ ps) short
            (link_table z m.mem (is_zero_of m) m.root m.fresh t words q o ps at owned.present
              owned.no_zero_page room short same)
            (λ p h f. other p (Foreign-Owned checkpoint_ts m p q f owned) h)
            (λ p h xs k e. other p (λ g. higher xs k (e ∙ g)) h)
            (λ p h. sized p h (number_cases p q))
            (new_words z m.mem (is_zero_of m) m.root m.fresh t words q o ps at owned.present
              owned.no_zero_page room short)
            size leaf at_old)
      where
        mem' : ℕ → List ℕ
        mem' =
            linked_mem z m.mem (is_zero_of m) m.root m.fresh t words q o ps at owned.present
              owned.no_zero_page room short

        other : (p : ℕ) → p ≢ q → p < m.fresh → mem' p ≡ m.mem p
        other p a h =
            other_words z m.mem (is_zero_of m) m.root m.fresh t words q o ps at owned.present
              owned.no_zero_page room short p a (λ e. absurd (omega (arith, h, e)))

        -- A table is not a leaf.
        higher : (xs : List ℕ) → length xs ≡ 6 → page_at zero_pxd_page m xs ≢ q
        higher xs k e = absurd (
            omega (
              arith,
              k,
              short,
              ap length (
                  t.unique xs ps (omega (arith, k)) (omega (arith, short)) (e ∙ sym at)
                    (λ g. owned.present (sym e ∙ g)) (ap (is_zero_of m) e ∙ owned.no_zero_page)),
            ))

        sized : (p : ℕ) → p < m.fresh → (p ≡ q) ⊎ (p ≢ q) → length (mem' p) ≡ length (m.mem p)
        sized p h (inl e) =
            ap (λ i. length (mem' i)) e
            ∙ ap length (
                table_words z m.mem (is_zero_of m) m.root m.fresh t words q o ps at owned.present
                  owned.no_zero_page room short)
            ∙ length-set (m.mem q) o m.fresh
            ∙ ap (λ i. length (m.mem i)) (sym e)
        sized p h (inr e) = ap length (other p e h)

  -- The new page at any place.
  pub new_slot :
      (rs : List ℕ) (slot : Slot)
      → length rs ≤ 6
      → SlotAt zero_pxd_page checkpoint_ts m rs slot
      → Copies (zero_of zero_pxd_page) m.mem (is_zero_of m) m.root m.fresh t words rs
      → (length rs ≡ 6 → words ≡ m.mem (page_at zero_pxd_page m rs))
      → (old ≢ 0 → page_at zero_pxd_page m rs ≡ old)
      → Round zero_pxd_page checkpoint_ts m (write_slot slot m.fresh m1) rs m.fresh
  new_slot [] root_slot short s same leaf at_old = new_root same at_old
  new_slot (x ∷ xs) root_slot short s same leaf at_old = absurd s
  new_slot [] (table_slot q o) short s same leaf at_old = absurd s
  new_slot (x ∷ xs) (table_slot q o) short s same leaf at_old =
      subst
        (λ i.
          Copies (zero_of zero_pxd_page) m.mem (is_zero_of m) m.root m.fresh t words (i ∷ xs)
          → (suc (length xs) ≡ 6 → words ≡ m.mem (page_at zero_pxd_page m (i ∷ xs)))
          → (old ≢ 0 → page_at zero_pxd_page m (i ∷ xs) ≡ old)
          → Round zero_pxd_page checkpoint_ts m (write_slot (table_slot q o) m.fresh m1) (i ∷ xs)
              m.fresh)
        (sym s.0) (new_entry q o xs s.1 s.2 s.3 short) same leaf at_old
