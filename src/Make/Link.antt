-- ===== src/Make/Link.antt =====
-- What becomes of the pages of a checkpoint when a round of the loop of `sivfs_apply_change_checkpoint` of
-- kern/sivfs_make_checkpoint.c puts a new page in the place of another.
use sivfs_public.Base.{
  ℕ, suc, ◌-◌, ◌≤◌, ◌<◌, ◌≡◌, ◌≢◌, ◌⊎◌, inl, inr, refl, sym, ap, ◌∙◌, Bool, false, ◌&&◌, List, [],
  ◌∷◌, arith, leb, if◌then◌else◌, length, get_or, set, subst, get_or-set_self, get_or-set_other,
  ==_refl, ==_ne,
}
use sivfs_public.Make.{override}
use sivfs_public.Make.Nodes.{shown, node, path_cases, number_cases, IsPageTree}

pub override_self : {A : Type 0} (f : ℕ → A) (k : ℕ) (v : A) → override f k v k ≡ v
override_self f k v = ap (λ b. if b then v else f k) (==_refl k)

pub override_other :
    {A : Type 0} (f : ℕ → A) (k : ℕ) (v : A) (i : ℕ) → i ≢ k → override f k v i ≡ f i
override_other f k v i h = ap (λ b. if b then v else f i) (==_ne i k h)

-- What an update does not change of a value, it does not change anywhere.
pub override_kept :
    {A B : Type 0} (part : A → B) (f : ℕ → A) (k : ℕ) (v : A) (i : ℕ)
    → part v ≡ part (f k)
    → part (override f k v i) ≡ part (f i)
override_kept part f k v i e = elim (number_cases i k) [
  | inl h ↦
      ap (λ j. part (override f k v j)) h
      ∙ ap part (override_self f k v)
      ∙ e
      ∙ ap (λ j. part (f j)) (sym h)
  | inr h ↦ ap part (override_other f k v i h)
]

pub shown-present : (zero_page : ℕ → ℕ) (depth p : ℕ) → p ≢ 0 → shown zero_page depth p ≡ p
shown-present zero_page depth p h =
    ap (λ b. if b && leb 3 depth then zero_page (6 - depth) else p) (==_ne p 0 h)

-- The page at the end of a path, after the page `n` was put at `rs`.
abbrev pub Linked : (rs : List ℕ) → (n : ℕ) → (xs : List ℕ) → (before after : ℕ) → Type 0
Linked rs n xs before after = (xs ≡ rs) × (after ≡ n) ⊎ (xs ≢ rs) × (after ≡ before)

longer : (x : ℕ) (xs rs : List ℕ) → xs ≡ rs → x ∷ xs ≢ rs
longer x xs rs e h = absurd (omega (arith, ap length e, ap length h))

module _ (zero_page : ℕ → ℕ) (mem : ℕ → List ℕ) (is_zero : ℕ → Bool) (root fresh : ℕ)
    (t : IsPageTree zero_page mem is_zero root fresh) (words : List ℕ) where
  -- The words of the new page lead where those of the page at `rs` do.
  abbrev pub Copies : (rs : List ℕ) → Type 0
  Copies rs =
      (x : ℕ)
      → shown zero_page (suc (length rs)) (get_or words x 0)
        ≡ shown zero_page (suc (length rs)) (get_or (mem (node zero_page mem root rs)) x 0)

  below_new :
      (mem' : ℕ → List ℕ) (root' : ℕ) (rs xs : List ℕ) (x : ℕ)
      → Copies rs
      → mem' fresh ≡ words
      → xs ≡ rs
      → node zero_page mem' root' xs ≡ fresh
      → node zero_page mem' root' (x ∷ xs) ≡ node zero_page mem root (x ∷ xs)
  below_new mem' root' rs xs x same new here at_new =
      ap (λ p. shown zero_page (suc (length xs)) (get_or (mem' p) x 0)) at_new
      ∙ ap (λ (ws : List ℕ). shown zero_page (suc (length xs)) (get_or ws x 0)) new
      ∙ subst
          (λ (l : List ℕ).
            shown zero_page (suc (length l)) (get_or words x 0)
            ≡ shown zero_page (suc (length l)) (get_or (mem (node zero_page mem root l)) x 0))
          (sym here) (same x)

  -- At the root.
  pub link_root :
      Copies []
      → (xs : List ℕ) → length xs ≤ 6
      → Linked [] fresh xs
          (node zero_page mem root xs)
          (node zero_page (override mem fresh words) fresh xs)
  link_root same [] short = inl (refl, refl)
  link_root same (x ∷ xs) short = inr (
    λ e. cc,
    elim (link_root same xs (omega arith)) [
      | inl (here, at_new) ↦
          below_new (override mem fresh words) fresh [] xs x same (override_self mem fresh words)
            here at_new
      | inr (there, old) ↦
          ap (λ p. shown zero_page (suc (length xs)) (get_or (override mem fresh words p) x 0)) old
          ∙ ap (λ (ws : List ℕ). shown zero_page (suc (length xs)) (get_or ws x 0))
              (override_other mem fresh words (node zero_page mem root xs)
                (λ e. absurd (omega (arith, e, t.allocated xs (omega arith)))))
    ],
  )

  module _ (q o : ℕ) (ps : List ℕ) (at : node zero_page mem root ps ≡ q) (real : q ≢ 0)
      (marked : is_zero q ≡ false) (room : o < 512) (short_ps : suc (length ps) ≤ 6) where
    abbrev pub linked_mem : ℕ → List ℕ
    linked_mem = override (override mem fresh words) q (set (override mem fresh words q) o fresh)

    old_table : q < fresh
    old_table = omega (arith, at, t.allocated ps (omega arith))

    pub table_words : linked_mem q ≡ set (mem q) o fresh
    table_words =
        override_self (override mem fresh words) q (set (override mem fresh words q) o fresh)
        ∙ ap (λ (ws : List ℕ). set ws o fresh)
            (override_other mem fresh words q (λ e. absurd (omega (arith, e, old_table))))

    pub other_words : (p : ℕ) → p ≢ q → p ≢ fresh → linked_mem p ≡ mem p
    other_words p a b =
        override_other (override mem fresh words) q (set (override mem fresh words q) o fresh) p a
        ∙ override_other mem fresh words p b

    pub new_words : linked_mem fresh ≡ words
    new_words =
        override_other (override mem fresh words) q (set (override mem fresh words q) o fresh) fresh
          (λ e. absurd (omega (arith, e, old_table)))
        ∙ override_self mem fresh words

    -- In a table.
    pub link_table :
        Copies (o ∷ ps)
        → (xs : List ℕ) → length xs ≤ 6
        → Linked (o ∷ ps) fresh xs (node zero_page mem root xs) (node zero_page linked_mem root xs)
    link_table same [] short = inr (λ e. cc, refl)
    link_table same (x ∷ xs) short = elim (link_table same xs (omega arith)) [
      | inl (here, at_new) ↦ inr (
        longer x xs (o ∷ ps) here,
        below_new linked_mem root (o ∷ ps) xs x same new_words here at_new,
      )
      | inr (there, old) ↦ elim (path_cases xs ps) [
        | inl e ↦ in_table x xs e (old ∙ ap (node zero_page mem root) e ∙ at)
        | inr e ↦ inr (
          λ h. e (cc),
          ap (λ p. shown zero_page (suc (length xs)) (get_or (linked_mem p) x 0)) old
              ∙ ap (λ (ws : List ℕ). shown zero_page (suc (length xs)) (get_or ws x 0))
                  (other_words (node zero_page mem root xs) (λ f. e (apart xs (omega arith) f))
                    (λ f. absurd (omega (arith, f, t.allocated xs (omega arith))))),
        )
      ]
    ]
      where
        apart : (xs : List ℕ) → length xs ≤ 6 → node zero_page mem root xs ≡ q → xs ≡ ps
        apart xs h f =
            t.unique xs ps h (omega arith) (f ∙ sym at) (λ g. real (sym f ∙ g))
              (ap is_zero f ∙ marked)

        hit : (x : ℕ) → x ≡ o → get_or (set (mem q) o fresh) x 0 ≡ fresh
        hit x h =
            ap (λ i. get_or (set (mem q) o fresh) i 0) h
            ∙ get_or-set_self (mem q) o fresh 0
                (omega (arith, t.sized q (omega (arith, real)) old_table, room))

        in_table :
            (x : ℕ) (xs : List ℕ)
            → xs ≡ ps
            → node zero_page linked_mem root xs ≡ q
            → Linked
                (o ∷ ps)
                fresh
                (x ∷ xs)
                (node zero_page mem root (x ∷ xs))
                (node zero_page linked_mem root (x ∷ xs))
        in_table x xs e old = elim (number_cases x o) [
          | inl h ↦ inl (
            cc,
            ap (λ p. shown zero_page (suc (length xs)) (get_or (linked_mem p) x 0)) old
                ∙ ap (λ (ws : List ℕ). shown zero_page (suc (length xs)) (get_or ws x 0))
                    table_words
                ∙ ap (shown zero_page (suc (length xs))) (hit x h)
                ∙ shown-present zero_page (suc (length xs)) fresh
                    (λ g. absurd (omega (arith, g, t.some_page))),
          )
          | inr h ↦ inr (
            λ g. h (cc),
            ap (λ p. shown zero_page (suc (length xs)) (get_or (linked_mem p) x 0)) old
                ∙ ap (λ (ws : List ℕ). shown zero_page (suc (length xs)) (get_or ws x 0))
                    table_words
                ∙ ap (shown zero_page (suc (length xs)))
                    (get_or-set_other (mem q) o x fresh 0 (λ e. h (sym e)))
                ∙ ap (λ p. shown zero_page (suc (length xs)) (get_or (mem p) x 0))
                    (sym (ap (node zero_page mem root) e ∙ at)),
          )
        ]
