-- ===== src/Block/Apart.antt =====
-- The ranges of different chunks, and a fresh file of `sivfs_alloc_info_recover` in
-- kern/alloc/sivfs_allocation.c.
use sivfs_public.Base.{
  Among, ℕ, ◌+◌, ◌≤◌, ◌≢◌, ◌⊎◌, inl, inr, sym, subst, ◌∙◌, Option, none, some, List, [], ◌∷◌, arith,
}
use sivfs_public.Block.{Blocks}
use sivfs_public.Block.Tiling.{Tiles, Tiles-Starts, Fill}

-- Chunks share no byte.
abbrev pub Apart : Blocks → (i j : ℕ) → Type 0
Apart b i j =
    ((b.chunk i).start + (b.chunk i).size ≤ (b.chunk j).start)
    ⊎ ((b.chunk j).start + (b.chunk j).size ≤ (b.chunk i).start)

first-before :
    (b : Blocks) (pos : ℕ) (prev : Option ℕ) (id : ℕ) (ids : List ℕ)
    → Tiles b pos prev id ids
    → (j : ℕ) → Among j ids
    → (b.chunk id).start + (b.chunk id).size ≤ (b.chunk j).start
first-before b pos prev id [] t j m = elim m [ ]
first-before b pos prev id (n ∷ ns) t j (inl e) =
    subst (λ k. (b.chunk id).start + (b.chunk id).size ≤ (b.chunk k).start) (sym e)
      (omega (arith, t.0.start, (Tiles-Starts b _ (some id) n ns t.2).start))
first-before b pos prev id (n ∷ ns) t j (inr m) = omega (
  arith,
  first-before b (pos + (b.chunk id).size) (some id) n ns t.2 j m,
  t.0.start,
  (Tiles-Starts b _ (some id) n ns t.2).start,
)

Tiles-Apart :
    (b : Blocks) (pos : ℕ) (prev : Option ℕ) (id : ℕ) (ids : List ℕ)
    → Tiles b pos prev id ids
    → (i j : ℕ) → Among i (id ∷ ids)
    → Among j (id ∷ ids)
    → i ≢ j
    → Apart b i j
Tiles-Apart b pos prev id ids t i j (inl e) (inl f) n = absurd (n (e ∙ sym f))
Tiles-Apart b pos prev id ids t i j (inl e) (inr m) n = inl (
    subst (λ k. (b.chunk k).start + (b.chunk k).size ≤ (b.chunk j).start) (sym e)
      (first-before b pos prev id ids t j m))
Tiles-Apart b pos prev id ids t i j (inr m) (inl f) n = inr (
    subst (λ k. (b.chunk k).start + (b.chunk k).size ≤ (b.chunk i).start) (sym f)
      (first-before b pos prev id ids t i m))
Tiles-Apart b pos prev id [] t i j (inr m) (inr k) n = elim m [ ]
Tiles-Apart b pos prev id (x ∷ xs) t i j (inr m) (inr k) n =
    Tiles-Apart b (pos + (b.chunk id).size) (some id) x xs t.2 i j m k n

pub Fill-Apart :
    (b : Blocks) (ids : List ℕ)
    → Fill b ids
    → (i j : ℕ) → Among i ids
    → Among j ids
    → i ≢ j
    → Apart b i j
Fill-Apart b [] t = absurd t
Fill-Apart b (x ∷ xs) t = Tiles-Apart b 0 none x xs t
