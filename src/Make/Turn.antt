-- ===== src/Make/Turn.antt =====
-- One round of the loop of `sivfs_apply_change_checkpoint` of kern/sivfs_make_checkpoint.c, whether the page is
-- absent, of this checkpoint, or of an older one.
use sivfs_public.Base.{
  ℕ, suc, ◌+◌, ◌≤◌, ◌≡◌, ◌≢◌, ◌⊎◌, inl, inr, refl, sym, ap, subst, ◌∙◌, Bool, true, false, List, [],
  ◌∷◌, arith, ◌==◌, if◌then◌else◌, if-cases, length, get_or, Rc, ok, failed, ==_iff,
}
use mathlib.Core.Bool.{true≢false}
use sivfs_public.Make.{
  Maker, PgInfo, Slot, root_slot, table_slot, read_slot, write_slot, override, page_for, page_ts,
  mk_zero_checkpoint_page,
}
use sivfs_public.Make.Nodes.{shown}
use sivfs_public.Make.Link.{Copies, shown-present}
use sivfs_public.Make.Got.{HasSame, Got, blank_page-Got}
use sivfs_public.Make.Copied.{copy_page-Got}
use sivfs_public.Make.Round.{
  zero_of, is_zero_of, Owned, Frame, Frame-refl, Tree, page_at, SlotAt, Round,
}
use sivfs_public.Make.Place.{new_slot}
use sivfs_public.Make.Blank.{
  set_same, override_same, shown-low, blank-low, blank-Copies, length-mk_zero_checkpoint_page,
}

-- The page that a slot gets is not the table of the slot.
abbrev pub Apart : Slot → ℕ → Type 0
Apart root_slot p = Unit
Apart (table_slot table offset) p = table ≢ p

module _ (zero_pxd_page : List ℕ) (checkpoint_ts : ℕ) where
  HasSame-Frame : (m m' : Maker) → HasSame m m' → Frame checkpoint_ts m m'
  HasSame-Frame m m' s = record {
    grows = s.kept_fresh;
    zero_kept = s.kept_zero;
    ts_kept = s.kept_ts;
    mem_kept = λ p h _. s.kept_mem p h;
  }

  -- What a slot holds is the page at its path.
  slot-page_at :
      (m : Maker) (rs : List ℕ) (slot : Slot)
      → SlotAt zero_pxd_page checkpoint_ts m rs slot
      → page_at zero_pxd_page m rs ≡ shown (zero_of zero_pxd_page) (length rs) (read_slot slot m)
  slot-page_at m [] root_slot s = at_root m.root
    where
      at_root : (p : ℕ) → p ≡ shown (zero_of zero_pxd_page) 0 p
      at_root p = ground arith
  slot-page_at m (x ∷ xs) root_slot s = absurd s
  slot-page_at m [] (table_slot q o) s = absurd s
  slot-page_at m (x ∷ xs) (table_slot q o) s =
      ap (λ p. shown (zero_of zero_pxd_page) (suc (length xs)) (get_or (m.mem p) x 0)) s.1
      ∙ ap (λ i. shown (zero_of zero_pxd_page) (suc (length xs)) (get_or (m.mem q) i 0)) s.0

  -- To store again what is there changes nothing.
  write_slot-read_slot : (slot : Slot) (m : Maker) → write_slot slot (read_slot slot m) m ≡ m
  write_slot-read_slot root_slot m = refl
  write_slot-read_slot (table_slot q o) m =
      ap (λ (ws : List ℕ). record m { mem = override m.mem q ws }) (set_same (m.mem q) o)
      ∙ ap (λ (f : ℕ → List ℕ). record m { mem = f }) (override_same m.mem q)

  new-Apart :
      (m : Maker) (t : Tree zero_pxd_page m) (rs : List ℕ) (slot : Slot)
      → length rs ≤ 6
      → SlotAt zero_pxd_page checkpoint_ts m rs slot
      → Apart slot m.fresh
  new-Apart m t rs root_slot short s = tt
  new-Apart m t [] (table_slot q o) short s = absurd s
  new-Apart m t (x ∷ xs) (table_slot q o) short s =
      λ e. absurd (omega (arith, s.1, e, t.allocated xs (omega (arith, short))))

  module _ (m : Maker) (t : Tree zero_pxd_page m) (rs : List ℕ) (slot : Slot)
      (s : SlotAt zero_pxd_page checkpoint_ts m rs slot) where
    -- How a round may end.
    abbrev pub Turn : Rc × ℕ × Maker → Type 0
    Turn r =
        (failed r.0 ≡ true) × Frame checkpoint_ts m r.2
        ⊎ (r.0 ≡ ok)
          × Round zero_pxd_page checkpoint_ts m (write_slot slot r.1 r.2) rs r.1
          × Apart slot r.1

    Got-Turn :
        (old : ℕ) (words : List ℕ) (r : Rc × ℕ × Maker)
        → length rs ≤ 6
        → length words ≡ 512
        → Copies (zero_of zero_pxd_page) m.mem (is_zero_of m) m.root m.fresh t words rs
        → (length rs ≡ 6 → words ≡ m.mem (page_at zero_pxd_page m rs))
        → (old ≢ 0 → page_at zero_pxd_page m rs ≡ old)
        → Got checkpoint_ts m old words r
        → Turn r
    Got-Turn old words r short size same leaf at_old (inl (bad, kept)) =
        inl (bad, HasSame-Frame m r.2 kept)
    Got-Turn old words r short size same leaf at_old (inr (good, at, n)) = inr (
      good,
      subst (λ k. Round zero_pxd_page checkpoint_ts m (write_slot slot k r.2) rs k) (sym at)
          (new_slot zero_pxd_page checkpoint_ts m r.2 words old n t size rs slot short s same leaf
            at_old),
      subst (Apart slot) (sym at) (new-Apart m t rs slot short s),
    )

    -- The page is one of this checkpoint.
    same-Turn :
        (entry : ℕ)
        → entry ≡ read_slot slot m
        → length rs ≤ 6
        → page_at zero_pxd_page m rs ≡ entry
        → entry ≢ 0
        → checkpoint_ts ≢ 0
        → page_ts (m.pginfo entry) ≡ checkpoint_ts
        → Turn (ok, entry, m)
    same-Turn entry e short at present some_ts own = inr (
      refl,
      subst (λ (k : Maker). Round zero_pxd_page checkpoint_ts m k rs entry)
          (sym (ap (λ p. write_slot slot p m) e ∙ write_slot-read_slot slot m))
          (record {
            tree = t;
            page_is = at;
            owned = mine (m.pginfo entry).is_zero_page refl;
            leaves = λ xs h. refl;
            frame = Frame-refl checkpoint_ts m;
            gone = λ g. g;
          }),
      same-Apart rs slot s short at,
    )
      where
        same-Apart :
            (ps : List ℕ) (k : Slot)
            → SlotAt zero_pxd_page checkpoint_ts m ps k
            → length ps ≤ 6
            → page_at zero_pxd_page m ps ≡ entry
            → Apart k entry
        same-Apart ps root_slot a l f = tt
        same-Apart [] (table_slot q o) a l f = absurd a
        same-Apart (x ∷ xs) (table_slot q o) a l f = λ h. absurd (
            omega (
              arith,
              ap length (
                  t.unique xs (x ∷ xs) (omega (arith, l)) l (a.1 ∙ h ∙ sym f)
                    (λ g. a.2.present (sym a.1 ∙ g)) (ap (is_zero_of m) a.1 ∙ a.2.no_zero_page)),
            ))

        info : PgInfo
        info = m.pginfo entry

        decided :
            (b : Bool)
            → info.is_zero_page ≡ b
            → (if b then 0 else info.checkpoint_ts) ≡ checkpoint_ts
        decided b f = ap (λ c. if c then 0 else info.checkpoint_ts) (sym f) ∙ own

        mine : (b : Bool) → info.is_zero_page ≡ b → Owned checkpoint_ts m entry
        mine true f = absurd (some_ts (sym (decided true f)))
        mine false f = record {
          present = present;
          no_zero_page = f;
          same_checkpoint = decided false f;
        }

    pub page_for-Turn :
        (level : ℕ)
        → level + length rs ≡ 6
        → checkpoint_ts ≢ 0
        → Turn (page_for zero_pxd_page checkpoint_ts level (read_slot slot m) m)
    unfolding page_for
    page_for-Turn level whole some_ts =
        if-cases Turn (read_slot slot m == 0) _ _
          (λ none_there.
            let at : page_at zero_pxd_page m rs ≡ shown (zero_of zero_pxd_page) (length rs) 0 =
              slot-page_at m rs slot s
              ∙ ap (shown (zero_of zero_pxd_page) (length rs))
                  ((==_iff (read_slot slot m) 0).0 none_there) in
            Got-Turn 0 (mk_zero_checkpoint_page zero_pxd_page level) _ (omega (arith, whole))
              (length-mk_zero_checkpoint_page zero_pxd_page level)
              (blank-Copies zero_pxd_page m t level rs whole at)
              (λ h.
                blank-low zero_pxd_page m t level (omega (arith, whole, h))
                ∙ ap m.mem (
                    sym (
                      at
                      ∙ shown-low (zero_of zero_pxd_page) (length rs) (omega (arith, whole, h))
                      ∙ ap (zero_of zero_pxd_page) (omega (arith, whole)))))
              (λ h. absurd (h refl)) (blank_page-Got checkpoint_ts level m zero_pxd_page))
          (λ there.
            let entry : ℕ = read_slot slot m in
            let present : entry ≢ 0 = λ e. true≢false (sym (ap (λ p. p == 0) e) ∙ there) in
            let at : page_at zero_pxd_page m rs ≡ entry =
              slot-page_at m rs slot s
              ∙ shown-present (zero_of zero_pxd_page) (length rs) entry present in
            if-cases Turn (page_ts (m.pginfo entry) == checkpoint_ts) _ _
              (λ own.
                same-Turn entry refl (omega (arith, whole)) at present some_ts
                  ((==_iff (page_ts (m.pginfo entry)) checkpoint_ts).0 own))
              (λ _.
                Got-Turn entry (m.mem entry) _ (omega (arith, whole))
                  (t.sized entry (omega (arith, present))
                    (omega (arith, at, t.allocated rs (omega (arith, whole)))))
                  (λ x.
                    ap (λ p. shown (zero_of zero_pxd_page) (suc (length rs)) (get_or (m.mem p) x 0))
                      (sym at))
                  (λ _. ap m.mem (sym at)) (λ _. at)
                  (copy_page-Got checkpoint_ts level m zero_pxd_page entry present)))
