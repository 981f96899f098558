-- ===== src/Base/Every.antt =====
-- A predicate of every element of a list, and what becomes of it when an element is replaced.
use Prim.Native.Nat.{ℕ, zero, suc}
use sivfs_public.Base.Lists.{take, drop}
use mathlib.Core.Path.{◌≡◌, refl, sym, ap}
use mathlib.Core.Logic.{◌⊎◌, inl, inr}
use mathlib.Core.List.{List, [], ◌∷◌, ◌++◌}

module _ {A : Type 0} (P : A → Type 0) where
  abbrev pub All : List A → Type 0
  All [] = Unit {0}
  All (x ∷ xs) = P x × All xs

module _ {A : Type 0} (P : A → Type 0) where
  pub All-append : (xs ys : List A) → All P xs → All P ys → All P (xs ++ ys)
  All-append [] ys a b = b
  All-append (x ∷ xs) ys a b = (a.0, All-append xs ys a.1 b)

  pub All-left : (xs ys : List A) → All P (xs ++ ys) → All P xs
  All-left [] ys a = tt
  All-left (x ∷ xs) ys a = (a.0, All-left xs ys a.1)

  pub All-right : (xs ys : List A) → All P (xs ++ ys) → All P ys
  All-right [] ys a = a
  All-right (x ∷ xs) ys a = All-right xs ys a.1

  pub All-middle : (xs : List A) (y : A) (ys : List A) → All P (xs ++ (y ∷ ys)) → P y
  All-middle [] y ys a = a.0
  All-middle (x ∷ xs) y ys a = All-middle xs y ys a.1

  pub All-replace :
      (xs : List A) (y y' : A) (ys : List A)
      → (P y → P y')
      → All P (xs ++ (y ∷ ys))
      → All P (xs ++ (y' ∷ ys))
  All-replace [] y y' ys f a = (f a.0, a.1)
  All-replace (x ∷ xs) y y' ys f a = (a.0, All-replace xs y y' ys f a.1)

  pub All-map : (Q : A → Type 0) (xs : List A) → ((x : A) → P x → Q x) → All P xs → All Q xs
  All-map Q [] f a = tt
  All-map Q (x ∷ xs) f a = (f x a.0, All-map Q xs f a.1)

  pub All-of : (xs : List A) → ((x : A) → P x) → All P xs
  All-of [] f = tt
  All-of (x ∷ xs) f = (f x, All-of xs f)

  pub All-take : (n : ℕ) (xs : List A) → All P xs → All P (take n xs)
  All-take zero xs a = tt
  All-take (suc n) [] a = tt
  All-take (suc n) (x ∷ xs) a = (a.0, All-take n xs a.1)

  pub All-drop : (n : ℕ) (xs : List A) → All P xs → All P (drop n xs)
  All-drop zero xs a = a
  All-drop (suc n) [] a = tt
  All-drop (suc n) (x ∷ xs) a = All-drop n xs a.1

-- The number is one of the list.
abbrev pub Among : ℕ → List ℕ → Type 0
Among i [] = ⊥
Among i (x ∷ xs) = (i ≡ x) ⊎ Among i xs

pub Among-split :
    (i : ℕ) (ids : List ℕ)
    → Among i ids
    → (before : List ℕ) × (after : List ℕ) × (ids ≡ before ++ (i ∷ after))
Among-split i [] m = elim m [ ]
Among-split i (x ∷ xs) (inl e) = ([], xs, ap (λ k. k ∷ xs) (sym e))
Among-split i (x ∷ xs) (inr m) =
    let rest = Among-split i xs m in (x ∷ rest.0, rest.1, ap (λ l. x ∷ l) rest.2)

pub Among-middle : (before : List ℕ) (i : ℕ) (after : List ℕ) → Among i (before ++ (i ∷ after))
Among-middle [] i after = inl refl
Among-middle (x ∷ xs) i after = inr (Among-middle xs i after)

pub Among-insert :
    (before : List ℕ) (cur remain : ℕ) (after : List ℕ) (i : ℕ)
    → Among i (before ++ (cur ∷ after))
    → Among i (before ++ (cur ∷ remain ∷ after))
Among-insert [] cur remain after i (inl e) = inl e
Among-insert [] cur remain after i (inr m) = inr (inr m)
Among-insert (x ∷ xs) cur remain after i (inl e) = inl e
Among-insert (x ∷ xs) cur remain after i (inr m) = inr (Among-insert xs cur remain after i m)

pub Among-new :
    (before : List ℕ) (cur remain : ℕ) (after : List ℕ)
    → Among remain (before ++ (cur ∷ remain ∷ after))
Among-new [] cur remain after = inr (inl refl)
Among-new (x ∷ xs) cur remain after = inr (Among-new xs cur remain after)
