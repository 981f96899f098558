-- ===== src/Reclaim/Groups.antt =====
-- The groups of the tree gc_blocked_entries of kern/sivfs_gc_checkpoints.c, and how often an entry
-- stands in them.
use sivfs_public.Base.{
  ℕ, ◌+◌, ◌<◌, ◌≡◌, refl, sym, subst, Bool, true, false, Option, none, some, List, [], ◌∷◌, arith,
  ltb, ◌==◌, if◌then◌else◌, ==_iff,
}
use mathlib.Core.Option.{some-injective, none-ne-some}
use sivfs_public.Reclaim.{group, put_group, drop_group}

-- How often an entry stands in a list, and in all groups.
abbrev pub one : ℕ → ℕ → ℕ
one x e = if e == x then 1 else 0

abbrev pub tally : ℕ → List ℕ → ℕ
tally x [] = 0
tally x (e ∷ es) = one x e + tally x es

abbrev pub tally_groups : ℕ → List (ℕ × List ℕ) → ℕ
tally_groups x [] = 0
tally_groups x ((t, es) ∷ rest) = tally x es + tally_groups x rest

-- The entries of a group, of which there are none if it is not there.
abbrev pub entries_of : Option (List ℕ) → List ℕ
entries_of none = []
entries_of (some es) = es

-- A property of all groups.
abbrev pub AllGroups : (ℕ → List ℕ → Type 0) → List (ℕ × List ℕ) → Type 0
AllGroups P [] = Unit
AllGroups P ((t, es) ∷ rest) = P t es × AllGroups P rest

-- The timestamps grow.
abbrev pub Sorted : List (ℕ × List ℕ) → Type 0
Sorted [] = Unit
Sorted ((t, es) ∷ rest) = AllGroups (λ k _. t < k) rest × Sorted rest

-- One step of a search, in two functions at once.
pub branch :
    {A B : Type 0} (P : A → B → Type 0) (here past : Bool) (x y z : A) (u v w : B)
    → (here ≡ true → P x u)
    → (here ≡ false → past ≡ true → P y v)
    → (here ≡ false → past ≡ false → P z w)
    → P (if here then x else if past then y else z) (if here then u else if past then v else w)
branch P true past x y z u v w f g h = f refl
branch P false true x y z u v w f g h = g refl refl
branch P false false x y z u v w f g h = h refl refl

pub put-tally :
    (x ts : ℕ) (new : List ℕ) (L : List (ℕ × List ℕ))
    → tally_groups x (put_group ts new L) + tally x (entries_of (group ts L))
      ≡ tally_groups x L + tally x new
unfolding put_group group
put-tally x ts new [] = omega arith
put-tally x ts new ((t, es) ∷ rest) =
    branch
      (λ b o.
        tally_groups x b + tally x (entries_of o) ≡ tally x es + tally_groups x rest + tally x new)
      (ts == t) (ltb ts t) ((ts, new) ∷ rest) ((ts, new) ∷ (t, es) ∷ rest)
      ((t, es) ∷ put_group ts new rest) (some es) none (group ts rest) (λ _. omega arith)
      (λ _ _. omega arith) (λ _ _. omega (arith, put-tally x ts new rest))

pub drop-tally :
    (x ts : ℕ) (L : List (ℕ × List ℕ))
    → tally_groups x (drop_group ts L) + tally x (entries_of (group ts L)) ≡ tally_groups x L
unfolding drop_group group
drop-tally x ts [] = omega arith
drop-tally x ts ((t, es) ∷ rest) =
    branch (λ b o. tally_groups x b + tally x (entries_of o) ≡ tally x es + tally_groups x rest)
      (ts == t) (ltb ts t) rest ((t, es) ∷ rest) ((t, es) ∷ drop_group ts rest) (some es) none
      (group ts rest) (λ _. omega arith) (λ _ _. omega arith)
      (λ _ _. omega (arith, drop-tally x ts rest))

module _ (P : ℕ → List ℕ → Type 0) where
  pub group-AllGroups :
      (ts : ℕ) (L : List (ℕ × List ℕ)) (es : List ℕ)
      → AllGroups P L
      → group ts L ≡ some es
      → P ts es
  unfolding group
  group-AllGroups ts [] es a e = absurd (none-ne-some es e)
  group-AllGroups ts ((t, old) ∷ rest) es a e₀ =
      branch (λ o _. o ≡ some es → P ts es) (ts == t) (ltb ts t) (some old) none (group ts rest)
        true true true
        (λ here e.
          subst (λ l. P ts l) (some-injective old es e)
            (subst (λ k. P k old) (sym ((==_iff ts t).0 here)) a.0))
        (λ _ _ e. absurd (none-ne-some es e)) (λ _ _ e. group-AllGroups ts rest es a.1 e) e₀

  pub put-AllGroups :
      (ts : ℕ) (new : List ℕ) (L : List (ℕ × List ℕ))
      → AllGroups P L
      → P ts new
      → AllGroups P (put_group ts new L)
  unfolding put_group
  put-AllGroups ts new [] a p = (p, tt)
  put-AllGroups ts new ((t, old) ∷ rest) a p =
      branch (λ b _. AllGroups P b) (ts == t) (ltb ts t) ((ts, new) ∷ rest)
        ((ts, new) ∷ (t, old) ∷ rest) ((t, old) ∷ put_group ts new rest) true true true
        (λ _. (p, a.1)) (λ _ _. (p, a)) (λ _ _. (a.0, put-AllGroups ts new rest a.1 p))

  pub drop-AllGroups :
      (ts : ℕ) (L : List (ℕ × List ℕ)) → AllGroups P L → AllGroups P (drop_group ts L)
  unfolding drop_group
  drop-AllGroups ts [] a = a
  drop-AllGroups ts ((t, old) ∷ rest) a =
      branch (λ b _. AllGroups P b) (ts == t) (ltb ts t) rest ((t, old) ∷ rest)
        ((t, old) ∷ drop_group ts rest) true true true (λ _. a.1) (λ _ _. a)
        (λ _ _. (a.0, drop-AllGroups ts rest a.1))

  pub AllGroups-map :
      (Q : ℕ → List ℕ → Type 0) (L : List (ℕ × List ℕ))
      → ((ts : ℕ) (es : List ℕ) → P ts es → Q ts es)
      → AllGroups P L
      → AllGroups Q L
  AllGroups-map Q [] f a = a
  AllGroups-map Q ((t, es) ∷ rest) f a = (f t es a.0, AllGroups-map Q rest f a.1)

pub AllGroups-both :
    (P Q : ℕ → List ℕ → Type 0) (L : List (ℕ × List ℕ))
    → AllGroups P L
    → AllGroups Q L
    → AllGroups (λ ts es. P ts es × Q ts es) L
AllGroups-both P Q [] a b = a
AllGroups-both P Q ((t, es) ∷ rest) a b = ((a.0, b.0), AllGroups-both P Q rest a.1 b.1)
