-- ===== src/Make/Read/Words.antt =====
-- `sivfs_read_checkpoint` of kern/sivfs_checkpoints.c copies the page at the path of the file's page.
use sivfs_public.Base.{
  ℕ, zero, suc, ◌+◌, ◌-◌, ◌<◌, ◌≤◌, ◌≡◌, ◌⊎◌, inl, inr, refl, sym, ap, ◌∙◌, false, Option, none,
  some, List, [], ◌∷◌, arith, leb, leb→le, ◌==◌, if◌then◌else◌, if-cases, Bool-cases, length,
  get_or, replicate, ==_iff, ==_ne,
}
use sivfs_public.Checkpoint.{descend}
use sivfs_public.Make.Nodes.{shown, node, zero_words}
use sivfs_public.Make.Link.{shown-present}
use sivfs_public.Make.Blank.{shown-low, shown-high, get_or-replicate}
use sivfs_public.Make.Change.{way}
use sivfs_public.Make.Read.{pointer, entry_of, page_words}

-- The zero pages and NULL hold what they should.
pub record HasZeroPages (zero_page : ℕ → ℕ) (mem : ℕ → List ℕ) : Type 0 where
  pub null_empty : mem 0 ≡ []
  pub zero_page_there : (level : ℕ) → level ≤ 3 → 0 < zero_page level
  pub zero_page_words : (level : ℕ) → level ≤ 3 → mem (zero_page level) ≡ zero_words zero_page level

module _ (zero_page : ℕ → ℕ) (mem : ℕ → List ℕ) (h : HasZeroPages zero_page mem) (root : ℕ) where
  -- Below an absent table all tables are absent.
  absent-below :
      (rs : List ℕ) (x : ℕ)
      → length rs ≤ 5
      → node zero_page mem root rs ≡ shown zero_page (length rs) 0
      → node zero_page mem root (x ∷ rs) ≡ shown zero_page (suc (length rs)) 0
  absent-below rs x short e =
      ap (λ p. shown zero_page (suc (length rs)) (get_or (mem p) x 0)) e
      ∙ elim (Bool-cases (leb (length rs) 2)) [
        | inl high ↦
            ap (λ (ws : List ℕ). shown zero_page (suc (length rs)) (get_or ws x 0))
              (ap mem (shown-high zero_page (length rs) 0 (leb→le (length rs) 2 high))
                ∙ h.null_empty)
        | inr low ↦
            ap (λ (ws : List ℕ). shown zero_page (suc (length rs)) (get_or ws x 0))
              (ap mem (
                  shown-low zero_page (length rs) (not_high (length rs) low)
                  ∙ ap zero_page (omega (arith, short)))
                ∙ h.zero_page_words (suc (5 - length rs)) (omega (arith, not_high (length rs) low)))
            ∙ filled (not_high (length rs) low)
      ]
    where
      not_high : (n : ℕ) → leb n 2 ≡ false → 3 ≤ n
      not_high n f = ground arith

      show : ℕ → ℕ
      show = shown zero_page (suc (length rs))

      filled :
          3 ≤ length rs → show (get_or (replicate 512 (zero_page (5 - length rs))) x 0) ≡ show 0
      filled k = elim (get_or-replicate 512 (zero_page (5 - length rs)) x) [
        | inl f ↦
            ap show f
            ∙ shown-present zero_page (suc (length rs)) (zero_page (5 - length rs)) (λ g.
              absurd (omega (arith, g, h.zero_page_there (5 - length rs) (omega (arith, k)))))
            ∙ sym (
                shown-low zero_page (suc (length rs)) (omega (arith, k))
                ∙ ap zero_page (omega arith))
        | inr f ↦ ap show f
      ]

  absent-way :
      (offsets rs : List ℕ)
      → length offsets + length rs ≡ 6
      → node zero_page mem root rs ≡ shown zero_page (length rs) 0
      → node zero_page mem root (way offsets rs) ≡ zero_page 0
  absent-way [] rs whole e =
      e
      ∙ shown-low zero_page (length rs) (omega (arith, whole))
      ∙ ap zero_page (omega (arith, whole))
  absent-way (o ∷ os) rs whole e =
      absent-way os (o ∷ rs) (omega (arith, whole)) (absent-below rs o (omega (arith, whole)) e)

  absent-words :
      (offsets rs : List ℕ)
      → length offsets + length rs ≡ 6
      → node zero_page mem root rs ≡ shown zero_page (length rs) 0
      → page_words mem none ≡ mem (node zero_page mem root (way offsets rs))
  absent-words offsets rs whole e =
      sym (ap mem (absent-way offsets rs whole e) ∙ h.zero_page_words 0 (omega arith))

  -- The page that a pointer leads to, or the absent one.
  abbrev pub Leads : (rs : List ℕ) → Option ℕ → Type 0
  Leads rs none = node zero_page mem root rs ≡ shown zero_page (length rs) 0
  Leads rs (some p) = node zero_page mem root rs ≡ p

  pointer-Leads :
      (rs : List ℕ) (p : ℕ)
      → node zero_page mem root rs ≡ shown zero_page (length rs) p
      → Leads rs (pointer p)
  pointer-Leads rs p e =
      if-cases (Leads rs) (p == 0) none (some p)
        (λ f. e ∙ ap (shown zero_page (length rs)) ((==_iff p 0).0 f))
        (λ f. e ∙ shown-present zero_page (length rs) p (λ g. ground arith))

  descend-words :
      (level : ℕ) (offsets rs : List ℕ) (pa : Option ℕ)
      → length offsets ≡ level
      → level + length rs ≡ 6
      → Leads rs pa
      → page_words mem (descend (entry_of mem) level 0 offsets pa)
        ≡ mem (node zero_page mem root (way offsets rs))
  unfolding descend
  descend-words zero offsets rs none long whole e =
      absent-words offsets rs (omega (arith, long, whole)) e
  descend-words (suc level) [] rs none long whole e = absurd (omega arith)
  descend-words (suc level) (o ∷ os) rs none long whole e =
      ap (λ b. page_words mem (if b then none else none))
        (==_ne (suc level) 0 (λ g. absurd (omega arith)))
      ∙ absent-words (o ∷ os) rs (omega (arith, long, whole)) e
  descend-words zero [] rs (some p) long whole e = ap mem (sym e)
  descend-words zero (o ∷ os) rs (some p) long whole e = absurd (omega arith)
  descend-words (suc level) [] rs (some p) long whole e = absurd (omega arith)
  descend-words (suc level) (o ∷ os) rs (some p) long whole e =
      ap
        (λ b.
          page_words mem
            (if b then some p else descend (entry_of mem) level 0 os (entry_of mem p o)))
        (==_ne (suc level) 0 (λ g. absurd (omega arith)))
      ∙ descend-words level os (o ∷ rs) (entry_of mem p o) (omega (arith, long))
          (omega (arith, whole))
          (pointer-Leads (o ∷ rs) (get_or (mem p) o 0)
            (ap (λ q. shown zero_page (suc (length rs)) (get_or (mem q) o 0)) e))

  -- The root leads to itself.
  pub root-words :
      (offsets : List ℕ)
      → length offsets ≡ 6
      → page_words mem (descend (entry_of mem) 6 0 offsets (pointer root))
        ≡ mem (node zero_page mem root (way offsets []))
  root-words offsets long =
      descend-words 6 offsets [] (pointer root) long (omega arith)
        (pointer-Leads [] root (ground arith))

-- Every path of the empty checkpoint leads to NULL or to a zero page.
pub empty_node :
    (zero_page : ℕ → ℕ) (mem : ℕ → List ℕ) (h : HasZeroPages zero_page mem) (xs : List ℕ)
    → length xs ≤ 6
    → (node zero_page mem 0 xs ≡ 0)
      ⊎ ((level : ℕ) × (level < 4) × (node zero_page mem 0 xs ≡ zero_page level))
empty_node zero_page mem h xs k = elim (Bool-cases (leb 3 (length xs))) [
  | inl low ↦ inr (
    6 - length xs,
    omega (arith, leb→le 3 (length xs) low),
    leads xs k ∙ ap (λ b. if b then zero_page (6 - length xs) else 0) low,
  )
  | inr high ↦ inl (leads xs k ∙ ap (λ b. if b then zero_page (6 - length xs) else 0) high)
]
  where
    leads : (ys : List ℕ) → length ys ≤ 6 → node zero_page mem 0 ys ≡ shown zero_page (length ys) 0
    leads [] j = refl
    leads (y ∷ ys) j =
        absent-below zero_page mem h 0 ys y (omega (arith, j)) (leads ys (omega (arith, j)))
