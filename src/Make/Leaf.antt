-- ===== src/Make/Leaf.antt =====
-- The write to the leaf page at the end of `sivfs_apply_change_checkpoint` of kern/sivfs_make_checkpoint.c.
use sivfs_public.Base.{
  All-map, ℕ, suc, ◌<◌, ◌≤◌, ◌≡◌, ◌≢◌, ◌⊎◌, inl, inr, refl, sym, ap, fun_ext, ◌∙◌, Bool, true,
  false, List, [], ◌∷◌, arith, ◌/◌, if◌then◌else◌, length, set, get_or,
}
use sivfs_public.Walk.{Head}
use sivfs_public.Page.{page_size, apply_ws_ent_pg}
use sivfs_public.Make.{Maker, Slot, root_slot, table_slot, write_slot, override, to_leaf}
use sivfs_public.Make.Nodes.{shown, number_cases}
use sivfs_public.Make.Link.{override_other, override_self}
use sivfs_public.Make.Got.{obsolete}
use sivfs_public.Make.Round.{
  Gone, AllGone, zero_of, is_zero_of, Owned, Frame, Foreign-Owned, Tree, page_at,
}
use sivfs_public.Make.Turn.{Apart}

-- What a leaf page holds afterwards.
abbrev pub written : (nowrite : Bool) → Head → List ℕ → List ℕ
written nowrite ent words = if nowrite then words else apply_ws_ent_pg ent words

-- The leaf page may be written before or after it is put into its place.
pub write_slot-to_leaf :
    (nowrite : Bool) (ent : Head) (slot : Slot) (p : ℕ) (m : Maker)
    → Apart slot p
    → write_slot slot p (to_leaf nowrite ent p m) ≡ to_leaf nowrite ent p (write_slot slot p m)
unfolding to_leaf
write_slot-to_leaf true ent root_slot p m a = refl
write_slot-to_leaf false ent root_slot p m a = refl
write_slot-to_leaf true ent (table_slot q o) p m a = refl
write_slot-to_leaf false ent (table_slot q o) p m a =
    ap
      (λ (f : ℕ → List ℕ). record m {
        mem = f;
        index = override m.index p (ent.file_offset / page_size);
      })
      (fun_ext (λ i. each i (number_cases i p) (number_cases i q)))
  where
    w : List ℕ → List ℕ
    w = apply_ws_ent_pg ent

    f : ℕ → List ℕ
    f = override m.mem p (w (m.mem p))

    g : ℕ → List ℕ
    g = override m.mem q (set (m.mem q) o p)

    each :
        (i : ℕ)
        → (i ≡ p) ⊎ (i ≢ p)
        → (i ≡ q) ⊎ (i ≢ q)
        → override f q (set (f q) o p) i ≡ override g p (w (g p)) i
    each i (inl e) (inl h) = absurd (a (sym h ∙ e))
    each i (inl e) (inr h) =
        override_other f q (set (f q) o p) i h
        ∙ ap f e
        ∙ override_self m.mem p (w (m.mem p))
        ∙ sym (
            ap (override g p (w (g p))) e
            ∙ override_self g p (w (g p))
            ∙ ap w (override_other m.mem q (set (m.mem q) o p) p (λ k. a (sym k))))
    each i (inr e) (inl h) =
        ap (override f q (set (f q) o p)) h
        ∙ override_self f q (set (f q) o p)
        ∙ ap (λ (ws : List ℕ). set ws o p) (override_other m.mem p (w (m.mem p)) q a)
        ∙ sym
            (override_other g p (w (g p)) i e ∙ ap g h ∙ override_self m.mem q (set (m.mem q) o p))
    each i (inr e) (inr h) =
        override_other f q (set (f q) o p) i h
        ∙ override_other m.mem p (w (m.mem p)) i e
        ∙ sym (override_other g p (w (g p)) i e ∙ override_other m.mem q (set (m.mem q) o p) i h)

module _ (zero_pxd_page : List ℕ) (checkpoint_ts : ℕ) (m : Maker) (t : Tree zero_pxd_page m)
    (rs : List ℕ) (p : ℕ) (leaf : length rs ≡ 6) (at : page_at zero_pxd_page m rs ≡ p)
    (o : Owned checkpoint_ts m p) (words : List ℕ) (size : length words ≡ 512)
    (index' : ℕ → ℕ) where
  abbrev pub wrote : Maker
  wrote = record m { mem = override m.mem p words; index = index' }

  single : (xs : List ℕ) → length xs ≤ 6 → page_at zero_pxd_page m xs ≡ p → xs ≡ rs
  single xs h e =
      t.unique xs rs h (omega (arith, leaf)) (e ∙ sym at) (λ g. o.present (sym e ∙ g))
        (ap (is_zero_of m) e ∙ o.no_zero_page)

  -- The paths lead to the same pages.
  same_pages :
      (xs : List ℕ) → length xs ≤ 6 → page_at zero_pxd_page wrote xs ≡ page_at zero_pxd_page m xs
  same_pages [] h = refl
  same_pages (x ∷ xs) h =
      ap
        (λ i.
          shown (zero_of zero_pxd_page) (suc (length xs)) (get_or (override m.mem p words i) x 0))
        (same_pages xs (omega (arith, h)))
      ∙ ap (λ (ws : List ℕ). shown (zero_of zero_pxd_page) (suc (length xs)) (get_or ws x 0))
          (override_other m.mem p words (page_at zero_pxd_page m xs)
            (λ e. absurd (omega (arith, h, leaf, ap length (single xs (omega (arith, h)) e)))))

  other : (i : ℕ) → i ≢ p → override m.mem p words i ≡ m.mem i
  other i h = override_other m.mem p words i h

  pub wrote-Tree : Tree zero_pxd_page wrote
  wrote-Tree = record {
    some_page = t.some_page;
    absent = other 0 (λ e. o.present (sym e)) ∙ t.absent;
    sized = λ i a b. sized i a b (number_cases i p);
    allocated = λ xs h. omega (arith, same_pages xs h, t.allocated xs h);
    unique = λ xs ys h k e present marked.
        t.unique xs ys h k (sym (same_pages xs h) ∙ e ∙ same_pages ys k)
          (λ g. present (same_pages xs h ∙ g)) (ap (is_zero_of m) (sym (same_pages xs h)) ∙ marked);
    zero_allocated = t.zero_allocated;
    zero_present = t.zero_present;
    zero_marked = t.zero_marked;
    zero_blank = λ l h.
        other (zero_of zero_pxd_page l) (
          Foreign-Owned checkpoint_ts m (zero_of zero_pxd_page l) p (inr (inl (t.zero_marked l h)))
            o)
        ∙ t.zero_blank l h;
  }
    where
      sized :
          (i : ℕ)
          → 0 < i
          → i < m.fresh
          → (i ≡ p) ⊎ (i ≢ p)
          → length (override m.mem p words i) ≡ 512
      sized i a b (inl e) =
          ap (λ j. length (override m.mem p words j)) e
          ∙ ap length (override_self m.mem p words)
          ∙ size
      sized i a b (inr e) = ap length (other i e) ∙ t.sized i a b

  pub wrote-AllGone : AllGone zero_pxd_page m → AllGone zero_pxd_page wrote
  wrote-AllGone = All-map (Gone zero_pxd_page m) (Gone zero_pxd_page wrote) (obsolete m) (λ i g.
      record {
        old_page = g.old_page;
        no_path = λ xs h e. g.no_path xs h (sym (same_pages xs h) ∙ e);
      })

  pub wrote-Frame : Frame checkpoint_ts m wrote
  wrote-Frame = record {
    grows = omega arith;
    zero_kept = λ i h. refl;
    ts_kept = λ i h. refl;
    mem_kept = λ i h f. other i (Foreign-Owned checkpoint_ts m i p f o);
  }

  pub wrote-here : wrote.mem (page_at zero_pxd_page wrote rs) ≡ words
  wrote-here =
      ap (override m.mem p words) (same_pages rs (omega (arith, leaf)) ∙ at)
      ∙ override_self m.mem p words

  pub wrote-elsewhere :
      (xs : List ℕ)
      → length xs ≡ 6
      → xs ≢ rs
      → wrote.mem (page_at zero_pxd_page wrote xs) ≡ m.mem (page_at zero_pxd_page m xs)
  wrote-elsewhere xs h n =
      ap (override m.mem p words) (same_pages xs (omega (arith, h)))
      ∙ other (page_at zero_pxd_page m xs) (λ e. n (single xs (omega (arith, h)) e))
