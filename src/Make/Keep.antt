-- ===== src/Make/Keep.antt =====
-- What a round of the loop of `sivfs_apply_change_checkpoint` of kern/sivfs_make_checkpoint.c leaves of the
-- tree of pages and of the words of the leaf pages.
use sivfs_public.Base.{
  ℕ, suc, ◌≤◌, ◌<◌, ◌≡◌, ◌≢◌, ◌⊎◌, inl, inr, refl, sym, ap, ◌∙◌, Bool, true, false, List, arith,
  length,
}
use sivfs_public.Make.Nodes.{node, number_cases, IsPageTree}
use sivfs_public.Make.Link.{Linked}

module _ (zero_page : ℕ → ℕ) (mem : ℕ → List ℕ) (is_zero : ℕ → Bool) (root fresh : ℕ)
    (t : IsPageTree zero_page mem is_zero root fresh) (mem' : ℕ → List ℕ) (is_zero' : ℕ → Bool)
    (root' : ℕ) (rs : List ℕ)
    (linked : (xs : List ℕ)
      → length xs ≤ 6
      → Linked rs fresh xs (node zero_page mem root xs) (node zero_page mem' root' xs)) where
  pub link-IsPageTree :
      (blank_kept : (p : ℕ) → (p ≡ 0) ⊎ (is_zero p ≡ true) → p < fresh → mem' p ≡ mem p)
      → (sizes : (p : ℕ) → p < fresh → length (mem' p) ≡ length (mem p))
      → (new_size : length (mem' fresh) ≡ 512)
      → (marks : (p : ℕ) → p < fresh → is_zero' p ≡ is_zero p)
      → IsPageTree zero_page mem' is_zero' root' (suc fresh)
  link-IsPageTree blank_kept sizes new_size marks = record {
    some_page = omega arith;
    absent = blank_kept 0 (inl refl) t.some_page ∙ t.absent;
    sized = λ p a b. size p a b (number_cases p fresh);
    allocated = λ xs h. elim (linked xs h) [
      | inl (e, f) ↦ omega (arith, f)
      | inr (e, f) ↦ omega (arith, f, t.allocated xs h)
    ];
    unique =
        λ xs ys h k e present marked. single xs ys h k e present marked (linked xs h) (linked ys k);
    zero_allocated = λ l h. omega (arith, t.zero_allocated l h);
    zero_present = t.zero_present;
    zero_marked = λ l h. marks (zero_page l) (t.zero_allocated l h) ∙ t.zero_marked l h;
    zero_blank = λ l h.
        blank_kept (zero_page l) (inr (t.zero_marked l h)) (t.zero_allocated l h)
        ∙ t.zero_blank l h;
  }
    where
      size : (p : ℕ) → 0 < p → p < suc fresh → (p ≡ fresh) ⊎ (p ≢ fresh) → length (mem' p) ≡ 512
      size p a b (inl e) = ap (λ i. length (mem' i)) e ∙ new_size
      size p a b (inr e) = sizes p (omega arith) ∙ t.sized p a (omega arith)

      single :
          (xs ys : List ℕ)
          → length xs ≤ 6
          → length ys ≤ 6
          → node zero_page mem' root' xs ≡ node zero_page mem' root' ys
          → node zero_page mem' root' xs ≢ 0
          → is_zero' (node zero_page mem' root' xs) ≡ false
          → Linked rs fresh xs (node zero_page mem root xs) (node zero_page mem' root' xs)
          → Linked rs fresh ys (node zero_page mem root ys) (node zero_page mem' root' ys)
          → xs ≡ ys
      single xs ys h k e present marked (inl (a, b)) (inl (c, d)) = a ∙ sym c
      single xs ys h k e present marked (inl (a, b)) (inr (c, d)) =
          absurd (omega (arith, e, b, d, t.allocated ys k))
      single xs ys h k e present marked (inr (a, b)) (inl (c, d)) =
          absurd (omega (arith, e, b, d, t.allocated xs h))
      single xs ys h k e present marked (inr (a, b)) (inr (c, d)) =
          t.unique xs ys h k (sym b ∙ e ∙ d) (λ g. present (b ∙ g))
            (sym (marks (node zero_page mem root xs) (t.allocated xs h))
              ∙ ap is_zero' (sym b)
              ∙ marked)

  -- The leaf pages hold what they held.
  pub link-leaf :
      (others_kept : (p : ℕ)
        → p < fresh
        → ((xs : List ℕ) → length xs ≡ 6 → node zero_page mem root xs ≡ p → mem' p ≡ mem p))
      → (new_leaf : length rs ≡ 6 → mem' fresh ≡ mem (node zero_page mem root rs)) → (xs : List ℕ)
      → length xs ≡ 6
      → mem' (node zero_page mem' root' xs) ≡ mem (node zero_page mem root xs)
  link-leaf others_kept new_leaf xs h = elim (linked xs (omega (arith, h))) [
    | inl (here, new) ↦
        ap mem' new
        ∙ new_leaf (ap length (sym here) ∙ h)
        ∙ ap (λ l. mem (node zero_page mem root l)) (sym here)
    | inr (there, old) ↦
        ap mem' old
        ∙ others_kept (node zero_page mem root xs) (t.allocated xs (omega (arith, h))) xs h refl
  ]
