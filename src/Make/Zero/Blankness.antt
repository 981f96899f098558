-- ===== src/Make/Zero/Blankness.antt =====
-- The empty checkpoint over the zero pages that `_sivfs_init_zero_checkpoint_pages` of
-- kern/sivfs_checkpoints.c makes.
use sivfs_public.Base.{
  ℕ, zero, suc, ◌+◌, ◌<◌, ◌≤◌, ◌≡◌, ◌≢◌, ◌⊎◌, inl, inr, refl, sym, ap, subst, ◌∙◌, true, List, [],
  ◌∷◌, arith, lt→ltb, if◌then◌else◌, if-cases, length, length-set, set, get_or-set_self,
  get_or-set_other, replicate, Rc, ok, failed,
}
use mathlib.Core.Bool.{true≢false}
use sivfs_public.Make.{Maker, PgInfo, store, new_checkpoint_page, mk_zero_checkpoint_page}
use sivfs_public.Make.Nodes.{zero_words, number_cases}
use sivfs_public.Make.Link.{override_self, override_other}
use sivfs_public.Make.Blank.{length-mk_zero_checkpoint_page}
use sivfs_public.Make.Got.{Allocated, allocated, new_checkpoint_page-Allocated}
use sivfs_public.Make.Round.{zero_of, is_zero_of, Tree}
use sivfs_public.Make.Read.Words.{HasZeroPages, empty_node}
use sivfs_public.Make.Zero.{
  mark_zero_page, destroy_zero_checkpoint_pages, init_from, init_zero_checkpoint_pages,
}

-- The zero page of a level.
pub record IsBlank (zs : List ℕ) (m : Maker) (level : ℕ) : Type 0 where
  pub present : 0 < zero_of zs level
  pub there : zero_of zs level < m.fresh
  pub marked : is_zero_of m (zero_of zs level) ≡ true
  pub blank : m.mem (zero_of zs level) ≡ zero_words (zero_of zs) level

-- The zero pages below a level are made.
pub record HasBlanks (zs : List ℕ) (m : Maker) (level : ℕ) : Type 0 where
  pub four : length zs ≡ 4
  pub some_page : 0 < m.fresh
  pub null_empty : m.mem 0 ≡ []
  pub sized : (p : ℕ) → 0 < p → p < m.fresh → length (m.mem p) ≡ 512
  pub blanks : (l : ℕ) → l < level → IsBlank zs m l

module _ (level : ℕ) (zs : List ℕ) (m : Maker) (h : HasBlanks zs m (suc level))
    (low : suc level < 4) where
  abbrev new_zs : List ℕ
  new_zs = set zs (suc level) m.fresh

  abbrev words : List ℕ
  words = mk_zero_checkpoint_page new_zs (suc level)

  abbrev after : Maker
  after = store m.fresh words (mark_zero_page m.fresh (allocated 0 (suc level) m))

  old_zero : (l : ℕ) → l ≤ level → zero_of new_zs l ≡ zero_of zs l
  old_zero l k = get_or-set_other zs (suc level) l m.fresh 0 (λ e. absurd (omega (arith, k, e)))

  new_zero : zero_of new_zs (suc level) ≡ m.fresh
  new_zero = get_or-set_self zs (suc level) m.fresh 0 (omega (arith, h.four, low))

  old_words : (p : ℕ) → p < m.fresh → after.mem p ≡ m.mem p
  old_words p k = override_other m.mem m.fresh words p (λ e. absurd (omega (arith, k, e)))

  old_zero_words : (l : ℕ) → l ≤ level → zero_words (zero_of zs) l ≡ zero_words (zero_of new_zs) l
  old_zero_words zero k = refl
  old_zero_words (suc l) k = ap (replicate 512) (sym (old_zero l (omega (arith, k))))

  step : (l : ℕ) → l < suc (suc level) → (l ≡ suc level) ⊎ (l ≢ suc level) → IsBlank new_zs after l
  unfolding mk_zero_checkpoint_page
  step l k (inl e) = subst (IsBlank new_zs after) (sym e) (record {
    present = omega (arith, new_zero, h.some_page);
    there = omega (arith, new_zero);
    marked =
        ap (is_zero_of after) new_zero
        ∙ ap (λ (i : PgInfo). i.is_zero_page)
            (override_self (allocated 0 (suc level) m).pginfo m.fresh _);
    blank =
        ap after.mem new_zero
        ∙ override_self m.mem m.fresh words
        ∙ ap (λ b. replicate 512 (if b then zero_of new_zs level else 0))
            (lt→ltb level 4 (omega (arith, low)));
  })
  step l k (inr n) =
      let b : IsBlank zs m l = h.blanks l (omega (arith, k, n)) in
      let same : zero_of new_zs l ≡ zero_of zs l = old_zero l (omega (arith, k, n)) in
      let old : zero_of zs l ≢ m.fresh = λ e. absurd (omega (arith, e, b.there)) in
      record {
        present = omega (arith, same, b.present);
        there = omega (arith, same, b.there);
        marked =
            ap (is_zero_of after) same
            ∙ ap (λ (i : PgInfo). i.is_zero_page)
                (override_other (allocated 0 (suc level) m).pginfo m.fresh _ (zero_of zs l) old
                  ∙ override_other m.pginfo m.fresh _ (zero_of zs l) old)
            ∙ b.marked;
        blank =
            ap after.mem same
            ∙ old_words (zero_of zs l) b.there
            ∙ b.blank
            ∙ old_zero_words l (omega (arith, k, n));
      }

  pub after-HasBlanks : HasBlanks new_zs after (suc (suc level))
  after-HasBlanks = record {
    four = length-set zs (suc level) m.fresh ∙ h.four;
    some_page = omega arith;
    null_empty = old_words 0 h.some_page ∙ h.null_empty;
    sized = λ p a b. size p a b (number_cases p m.fresh);
    blanks = λ l k. step l k (number_cases l (suc level));
  }
    where
      size :
          (p : ℕ)
          → 0 < p
          → p < suc m.fresh
          → (p ≡ m.fresh) ⊎ (p ≢ m.fresh)
          → length (after.mem p) ≡ 512
      size p a b (inl e) =
          ap (λ i. length (after.mem i)) e
          ∙ ap length (override_self m.mem m.fresh words)
          ∙ length-mk_zero_checkpoint_page new_zs (suc level)
      size p a b (inr n) = ap length (old_words p (omega arith)) ∙ h.sized p a (omega arith)

-- How making the zero pages may end.
abbrev pub Blanks : Rc × List ℕ × Maker → Type 0
Blanks r = (failed r.0 ≡ true) ⊎ (r.0 ≡ ok) × HasBlanks r.1 r.2 4

init_from-Blanks :
    (left level : ℕ) (zs : List ℕ) (m : Maker)
    → left + level ≡ 3
    → HasBlanks zs m (suc level)
    → Blanks (init_from left (suc level) zs m)
unfolding init_from
init_from-Blanks zero level zs m e h =
    inr (refl, subst (λ k. HasBlanks zs m (suc k)) (omega (arith, e)) h)
init_from-Blanks (suc left) level zs m e h =
    made (new_checkpoint_page 0 (suc level) m) (new_checkpoint_page-Allocated 0 (suc level) m) (
      init_from-Blanks left (suc level) (set zs (suc level) m.fresh)
        (after level zs m h (omega (arith, e))) (omega (arith, e))
        (after-HasBlanks level zs m h (omega (arith, e))))
  where
    rest : Rc × ℕ × Maker → Rc × List ℕ × Maker
    rest got = init_from left (suc (suc level)) (set zs (suc level) got.1) (
        store got.1 (mk_zero_checkpoint_page (set zs (suc level) got.1) (suc level))
          (mark_zero_page got.1 got.2))

    made :
        (got : Rc × ℕ × Maker)
        → Allocated 0 (suc level) m got
        → Blanks (rest (ok, m.fresh, allocated 0 (suc level) m))
        → Blanks
            (if failed got.0 then (got.0, zs, destroy_zero_checkpoint_pages zs got.2) else rest got)
    made got (inl (bad, same)) later =
        if-cases Blanks (failed got.0) _ (rest got) (λ _. inl bad)
          (λ good. absurd (true≢false (sym bad ∙ good)))
    made got (inr g) later =
        subst
          (λ (k : Rc × ℕ × Maker).
            Blanks (if failed k.0 then (k.0, zs, destroy_zero_checkpoint_pages zs k.2) else rest k))
          (sym g) later

module _ (zs : List ℕ) (m : Maker) (h : HasBlanks zs m 4) where
  zero_pages : HasZeroPages (zero_of zs) m.mem
  zero_pages = record {
    null_empty = h.null_empty;
    zero_page_there = λ l k. (h.blanks l (omega (arith, k))).present;
    zero_page_words = λ l k. (h.blanks l (omega (arith, k))).blank;
  }

  pub empty-Tree : Tree zs (record m { root = 0 })
  empty-Tree = record {
    some_page = h.some_page;
    absent = h.null_empty;
    sized = h.sized;
    allocated = λ xs k. elim (empty_node (zero_of zs) m.mem zero_pages xs k) [
      | inl e ↦ omega (arith, e, h.some_page)
      | inr (l, j, e) ↦ omega (arith, e, (h.blanks l j).there)
    ];
    unique = λ xs ys k j e present marked. elim (empty_node (zero_of zs) m.mem zero_pages xs k) [
      | inl f ↦ absurd (present f)
      | inr (l, i, f) ↦
          absurd (true≢false (sym (ap (is_zero_of m) f ∙ (h.blanks l i).marked) ∙ marked))
    ];
    zero_allocated = λ l k. (h.blanks l (omega (arith, k))).there;
    zero_present = λ l k. (h.blanks l (omega (arith, k))).present;
    zero_marked = λ l k. (h.blanks l (omega (arith, k))).marked;
    zero_blank = λ l k. (h.blanks l (omega (arith, k))).blank;
  }

-- Given the zero page of the kernel, and allocated pages of 512 words,
-- `_sivfs_init_zero_checkpoint_pages` either fails or makes the zero page of every level: the empty
-- checkpoint, whose root is NULL, is then a tree of pages.
pub init_zero_checkpoint_pages-Tree :
    (zero_page a b c d : ℕ) (m : Maker)
    → HasBlanks (zero_page ∷ b ∷ c ∷ d ∷ []) m 1
    → (failed (init_zero_checkpoint_pages zero_page (a ∷ b ∷ c ∷ d ∷ []) m).0 ≡ true)
      ⊎ ((init_zero_checkpoint_pages zero_page (a ∷ b ∷ c ∷ d ∷ []) m).0 ≡ ok)
        × Tree
            (init_zero_checkpoint_pages zero_page (a ∷ b ∷ c ∷ d ∷ []) m).1
            (record ((init_zero_checkpoint_pages zero_page (a ∷ b ∷ c ∷ d ∷ []) m).2) { root = 0 })
unfolding init_zero_checkpoint_pages
init_zero_checkpoint_pages-Tree zero_page a b c d m h =
    elim (init_from-Blanks 3 0 (zero_page ∷ b ∷ c ∷ d ∷ []) m (omega arith) h) [
      | inl bad ↦ inl bad
      | inr (good, blanks) ↦ inr (good, empty-Tree _ _ blanks)
    ]
