-- ===== src/Make/Blank.antt =====
-- The words of a page without children, `sivfs_mk_zero_checkpoint_page` of kern/sivfs_checkpoints.c, and small
-- facts for the rounds of kern/sivfs_make_checkpoint.c.
use sivfs_public.Base.{
  ℕ, zero, suc, ◌+◌, ◌-◌, ◌≤◌, ◌≡◌, ◌⊎◌, inl, inr, refl, sym, ap, fun_ext, ◌∙◌, false, List, [],
  ◌∷◌, arith, leb, leb→le, ltb, lt→ltb, le→ltb, if◌then◌else◌, Bool-cases, length, length-replicate,
  replicate, set, get_or,
}
use sivfs_public.Make.{Maker, override, mk_zero_checkpoint_page}
use sivfs_public.Make.Nodes.{shown, number_cases}
use sivfs_public.Make.Link.{Copies, override_other, override_self, shown-present}
use sivfs_public.Make.Round.{zero_of, is_zero_of, Tree, page_at}

pub get_or-replicate :
    (n a x : ℕ) → (get_or (replicate n a) x 0 ≡ a) ⊎ (get_or (replicate n a) x 0 ≡ 0)
get_or-replicate zero a x = inr refl
get_or-replicate (suc n) a zero = inl refl
get_or-replicate (suc n) a (suc x) = get_or-replicate n a x

pub shown-high : (z : ℕ → ℕ) (depth p : ℕ) → depth ≤ 2 → shown z depth p ≡ p
shown-high z depth p h = ground (arith)

pub shown-low : (z : ℕ → ℕ) (depth : ℕ) → 3 ≤ depth → shown z depth 0 ≡ z (6 - depth)
shown-low z depth h = ground (arith)

pub set_same : (xs : List ℕ) (i : ℕ) → set xs i (get_or xs i 0) ≡ xs
set_same [] i = refl
set_same (x ∷ xs) zero = refl
set_same (x ∷ xs) (suc i) = ap (λ l. x ∷ l) (set_same xs i)

pub override_same : {A : Type 0} (f : ℕ → A) (k : ℕ) → override f k (f k) ≡ f
override_same f k = fun_ext (λ i. elim (number_cases i k) [
  | inl e ↦ ap (override f k (f k)) e ∙ override_self f k (f k) ∙ ap f (sym e)
  | inr e ↦ override_other f k (f k) i e
])

pub length-mk_zero_checkpoint_page :
    (zs : List ℕ) (level : ℕ) → length (mk_zero_checkpoint_page zs level) ≡ 512
unfolding mk_zero_checkpoint_page
length-mk_zero_checkpoint_page zs zero = length-replicate {A = ℕ} 512 0
length-mk_zero_checkpoint_page zs (suc level) =
    length-replicate {A = ℕ} 512 (if ltb level 4 then get_or zs level 0 else 0)

module _ (zero_pxd_page : List ℕ) (m : Maker) (t : Tree zero_pxd_page m) where
  -- Up to level 3 a blank page has the words of the zero page.
  pub blank-low :
      (level : ℕ)
      → level ≤ 3
      → mk_zero_checkpoint_page zero_pxd_page level ≡ m.mem (zero_of zero_pxd_page level)
  unfolding mk_zero_checkpoint_page
  blank-low zero h = sym (t.zero_blank 0 h)
  blank-low (suc level) h =
      ap (λ b. replicate 512 (if b then zero_of zero_pxd_page level else 0))
        (lt→ltb level 4 (omega arith))
      ∙ sym (t.zero_blank (suc level) h)

  -- The entries of a blank page lead where an absent table leads.
  pub blank-Copies :
      (level : ℕ) (rs : List ℕ)
      → level + length rs ≡ 6
      → page_at zero_pxd_page m rs ≡ shown (zero_of zero_pxd_page) (length rs) 0
      → Copies
          (zero_of zero_pxd_page)
          m.mem
          (is_zero_of m)
          m.root
          m.fresh
          t
          (mk_zero_checkpoint_page zero_pxd_page level)
          rs
  unfolding mk_zero_checkpoint_page
  blank-Copies level rs whole at x = elim (Bool-cases (leb level 3)) [
    | inl low ↦ ap show (
        ap (λ (ws : List ℕ). get_or ws x 0) (blank-low level (leb→le level 3 low))
        ∙ ap (λ p. get_or (m.mem p) x 0)
            (sym (
              at
              ∙ shown-low z (length rs) (omega (arith, leb→le level 3 low))
              ∙ ap z (omega (arith, whole)))))
    | inr high ↦
        above level whole (ground arith)
        ∙ ap (λ (ws : List ℕ). show (get_or ws x 0)) (sym t.absent)
        ∙ ap (λ p. show (get_or (m.mem p) x 0))
            (sym (at ∙ shown-high z (length rs) 0 (omega (arith, not_low level high))))
  ]
    where
      z : ℕ → ℕ
      z = zero_of zero_pxd_page

      show : ℕ → ℕ
      show = shown z (suc (length rs))

      not_low : (k : ℕ) → leb k 3 ≡ false → 4 ≤ k
      not_low k h = ground arith

      filled : (a : ℕ) → (show a ≡ show 0) → show (get_or (replicate 512 a) x 0) ≡ show 0
      filled a e = elim (get_or-replicate 512 a x) [ inl f ↦ ap show f ∙ e | inr f ↦ ap show f ]

      above :
          (k : ℕ)
          → k + length rs ≡ 6
          → 4 ≤ k
          → show (get_or (mk_zero_checkpoint_page zero_pxd_page k) x 0) ≡ show 0
      above zero e h = absurd (omega arith)
      above (suc k) e h = elim (number_cases k 3) [
        | inl at3 ↦ filled _ (
            ap show (ap (λ b. if b then z k else 0) (lt→ltb k 4 (omega arith)) ∙ ap z at3)
            ∙ shown-present z (suc (length rs)) (z 3)
                (λ g. absurd (omega (arith, g, t.zero_present 3 (omega arith))))
            ∙ sym (shown-low z (suc (length rs)) (omega arith) ∙ ap z (omega (arith, at3, e))))
        | inr past ↦ filled _ (ap show (ap (λ b. if b then z k else 0) (le→ltb 4 k (omega arith))))
      ]
