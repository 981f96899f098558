-- ===== src/Make/Nodes.antt =====
-- The pages of a checkpoint by their paths, for kern/sivfs_make_checkpoint.c. A path lists the offsets of
-- the tables from the innermost on.
use sivfs_public.Base.{
  ℕ, zero, suc, ◌-◌, ◌≤◌, ◌<◌, ◌≡◌, ◌≢◌, ◌⊎◌, inl, inr, refl, Bool, true, false, ◌&&◌, List, [],
  ◌∷◌, arith, leb, ◌==◌, if◌then◌else◌, length, get_or, replicate, Bool-cases,
}

-- An absent table within a file, on level 3 or below, stands for the zero page of its level.
abbrev pub shown : (zero_page : ℕ → ℕ) → (depth p : ℕ) → ℕ
shown zero_page depth p = if p == 0 && leb 3 depth then zero_page (6 - depth) else p

-- The page at the end of a path.
abbrev pub node : (zero_page : ℕ → ℕ) → (mem : ℕ → List ℕ) → (root : ℕ) → List ℕ → ℕ
node zero_page mem root [] = root
node zero_page mem root (x ∷ xs) =
    shown zero_page (suc (length xs)) (get_or (mem (node zero_page mem root xs)) x 0)

pub number_cases : (x y : ℕ) → (x ≡ y) ⊎ (x ≢ y)
number_cases x y = elim (Bool-cases (x == y)) [
  | inl e ↦ inl (ground arith)
  | inr e ↦ inr (λ h. ground arith)
]

pub path_cases : (xs ys : List ℕ) → (xs ≡ ys) ⊎ (xs ≢ ys)
path_cases [] [] = inl refl
path_cases [] (y ∷ ys) = inr (λ e. cc)
path_cases (x ∷ xs) [] = inr (λ e. cc)
path_cases (x ∷ xs) (y ∷ ys) = both x y xs ys (path_cases xs ys)
  where
    both :
        (x y : ℕ) (xs ys : List ℕ) → (xs ≡ ys) ⊎ (xs ≢ ys) → (x ∷ xs ≡ y ∷ ys) ⊎ (x ∷ xs ≢ y ∷ ys)
    both x y xs ys (inl e) = elim (number_cases x y) [
      | inl h ↦ inl (cc)
      | inr h ↦ inr (λ b. h (cc))
    ]
    both x y xs ys (inr h) = inr (λ b. h (cc))

-- The words of the zero page of a level.
abbrev pub zero_words : (zero_page : ℕ → ℕ) → (level : ℕ) → List ℕ
zero_words zero_page zero = replicate 512 0
zero_words zero_page (suc level) = replicate 512 (zero_page level)

-- The pages below a root: allocated, of 512 words, and none that is not a zero page on two paths.
pub record IsPageTree (zero_page : ℕ → ℕ) (mem : ℕ → List ℕ) (is_zero : ℕ → Bool) (root fresh : ℕ)
    : Type 0 where
  pub some_page : 0 < fresh
  pub absent : mem 0 ≡ []
  pub sized : (p : ℕ) → 0 < p → p < fresh → length (mem p) ≡ 512
  pub allocated : (xs : List ℕ) → length xs ≤ 6 → node zero_page mem root xs < fresh
  pub unique :
      (xs ys : List ℕ)
      → length xs ≤ 6
      → length ys ≤ 6
      → node zero_page mem root xs ≡ node zero_page mem root ys
      → node zero_page mem root xs ≢ 0
      → is_zero (node zero_page mem root xs) ≡ false
      → xs ≡ ys
  pub zero_allocated : (level : ℕ) → level ≤ 3 → zero_page level < fresh
  pub zero_present : (level : ℕ) → level ≤ 3 → 0 < zero_page level
  pub zero_marked : (level : ℕ) → level ≤ 3 → is_zero (zero_page level) ≡ true
  pub zero_blank : (level : ℕ) → level ≤ 3 → mem (zero_page level) ≡ zero_words zero_page level
