-- ===== src/Block/Tiling.antt =====
-- How the chunks of a file lie in kern/alloc/sivfs_allocation.c: one after another from offset 0 on,
-- and the wilderness, which has no end, is the last.
use sivfs_public.Base.{
  Among, ℕ, ◌+◌, ◌/◌, ◌%◌, ◌^◌, ◌≤◌, ◌<◌, ◌≡◌, ◌≢◌, refl, sym, subst, ◌∙◌, ap, Option, none, some,
  List, [], ◌∷◌, ◌++◌, arith, All, ==_ne, ==_iff, Option-cases, inl, inr, if◌then◌else◌,
}
use sivfs_public.Page.{page_size}
use sivfs_public.Block.{PgInfo, Blocks, minus_one, update_at, set_pginfo, ends_at}

pub update-hit : {A : Type 0} (f : ℕ → A) (k : ℕ) (v : A) (q : ℕ) → q ≡ k → update_at f k v q ≡ v
update-hit f k v q e = ap (λ b. if b then v else f q) ((==_iff q k).1 e)

pub update-miss : {A : Type 0} (f : ℕ → A) (k : ℕ) (v : A) (q : ℕ) → q ≢ k → update_at f k v q ≡ f q
update-miss f k v q n = ap (λ b. if b then v else f q) (==_ne q k n)

-- Where the pginfo is there, only its `ends_chunk` changes; nothing else does.
pub ends_at-chunk : (pg id : ℕ) (b : Blocks) → (ends_at pg id b).chunk ≡ b.chunk
ends_at-chunk pg id b = elim (Option-cases (b.pginfo pg)) [
  | inl absent ↦ ap (λ o. (on o).chunk) absent
  | inr (p, there) ↦ ap (λ o. (on o).chunk) there
]
  where
    on : Option PgInfo → Blocks
    on o = elim o [ none ↦ b | some p ↦ set_pginfo pg (record p { ends_chunk = some id }) b ]

pub ends_at-other :
    (pg id : ℕ) (b : Blocks) (q : ℕ) → q ≢ pg → (ends_at pg id b).pginfo q ≡ b.pginfo q
ends_at-other pg id b q n = elim (Option-cases (b.pginfo pg)) [
  | inl absent ↦ ap (λ o. (on o).pginfo q) absent
  | inr (p, there) ↦
      ap (λ o. (on o).pginfo q) there
      ∙ update-miss b.pginfo pg (some (record p { ends_chunk = some id })) q n
]
  where
    on : Option PgInfo → Blocks
    on o = elim o [ none ↦ b | some p ↦ set_pginfo pg (record p { ends_chunk = some id }) b ]

pub ends_at-hit :
    (pg id : ℕ) (b : Blocks) (p : PgInfo)
    → b.pginfo pg ≡ some p
    → (ends_at pg id b).pginfo pg ≡ some (record p { ends_chunk = some id })
ends_at-hit pg id b p e = ap (λ o. (on o).pginfo pg) e ∙ update-hit b.pginfo pg _ pg refl
  where
    on : Option PgInfo → Blocks
    on o = elim o [ none ↦ b | some p ↦ set_pginfo pg (record p { ends_chunk = some id }) b ]

pub ends_at-listed : (pg id : ℕ) (b : Blocks) → (ends_at pg id b).bestfit_list ≡ b.bestfit_list
ends_at-listed pg id b = elim (Option-cases (b.pginfo pg)) [
  | inl absent ↦ ap (λ o. (on o).bestfit_list) absent
  | inr (p, there) ↦ ap (λ o. (on o).bestfit_list) there
]
  where
    on : Option PgInfo → Blocks
    on o = elim o [ none ↦ b | some p ↦ set_pginfo pg (record p { ends_chunk = some id }) b ]

-- The chunk starts at an offset, and its page knows it and the chunk that ends there.
pub record Starts (b : Blocks) (pos : ℕ) (prev : Option ℕ) (id : ℕ) : Type 0 where
  pub start : (b.chunk id).start ≡ pos
  pub page :
      b.pginfo (pos / page_size)
      ≡ some
          (record { boundary_offset = pos % page_size; ends_chunk = prev; starts_chunk = some id })

-- A chunk that is not the wilderness: a page at least, so that no page has two boundaries.
pub record IsBounded (b : Blocks) (pos id : ℕ) : Type 0 where
  pub size_page : page_size ≤ (b.chunk id).size
  pub small : pos + (b.chunk id).size < 2 ^ 62

-- The chunks `id ∷ ids` lie one after another from `pos` on, where `prev` ends.
abbrev pub Tiles : Blocks → (pos : ℕ) → (prev : Option ℕ) → (id : ℕ) → List ℕ → Type 0
Tiles b pos prev id [] = Starts b pos prev id × ((b.chunk id).size ≡ minus_one)
Tiles b pos prev id (n ∷ ns) =
    Starts b pos prev id × IsBounded b pos id × Tiles b (pos + (b.chunk id).size) (some id) n ns

pub Tiles-Starts :
    (b : Blocks) (pos : ℕ) (prev : Option ℕ) (id : ℕ) (ids : List ℕ)
    → Tiles b pos prev id ids
    → Starts b pos prev id
Tiles-Starts b pos prev id [] t = t.0
Tiles-Starts b pos prev id (n ∷ ns) t = t.0

-- The chunks behind the first start a page later at least.
pub later :
    (b : Blocks) (pos : ℕ) (prev : Option ℕ) (id : ℕ) (ids : List ℕ)
    → Tiles b pos prev id ids
    → All (λ j. pos + page_size ≤ (b.chunk j).start) ids
later b pos prev id [] t = tt
later b pos prev id (n ∷ ns) t = (
  omega (arith, (Tiles-Starts b _ _ n ns t.2).start, t.1.size_page),
  weaken ns (later b (pos + (b.chunk id).size) (some id) n ns t.2),
)
  where
    weaken :
        (js : List ℕ)
        → All (λ j. pos + (b.chunk id).size + page_size ≤ (b.chunk j).start) js
        → All (λ j. pos + page_size ≤ (b.chunk j).start) js
    weaken [] a = tt
    weaken (j ∷ js) a = (omega (arith, a.0), weaken js a.1)

-- Starting at different offsets, chunks are different.
pub ne-of-start : (b : Blocks) (i j : ℕ) → (b.chunk i).start < (b.chunk j).start → j ≢ i
ne-of-start b i j h e = absurd (omega (arith, h, ap (λ k. (b.chunk k).start) e))

pub later-ne :
    (b : Blocks) (pos : ℕ) (id : ℕ) (js : List ℕ)
    → (b.chunk id).start ≡ pos
    → All (λ j. pos + page_size ≤ (b.chunk j).start) js
    → All (λ j. j ≢ id) js
later-ne b pos id [] e a = tt
later-ne b pos id (j ∷ js) e a =
    (ne-of-start b id j (omega (arith, e, a.0)), later-ne b pos id js e a.1)

-- The tiles do not change if their chunks and pages do not.
pub frame :
    (b b' : Blocks) (pos : ℕ) (prev : Option ℕ) (id : ℕ) (ids : List ℕ)
    → All
        (λ i. ((b'.chunk i).start ≡ (b.chunk i).start) × ((b'.chunk i).size ≡ (b.chunk i).size))
        (id ∷ ids)
    → ((pg : ℕ) → pos / page_size ≤ pg → b'.pginfo pg ≡ b.pginfo pg)
    → Tiles b pos prev id ids
    → Tiles b' pos prev id ids
frame b b' pos prev id [] s p t = (
  record { start = s.0.0 ∙ t.0.start; page = p (pos / page_size) (omega arith) ∙ t.0.page },
  s.0.1 ∙ t.1,
)
frame b b' pos prev id (n ∷ ns) s p t = (
  record { start = s.0.0 ∙ t.0.start; page = p (pos / page_size) (omega arith) ∙ t.0.page },
  record {
    size_page = omega (arith, s.0.1, t.1.size_page);
    small = omega (arith, s.0.1, t.1.small);
  },
  subst (λ k. Tiles b' (pos + k) (some id) n ns) (sym s.0.1)
      (frame b b' (pos + (b.chunk id).size) (some id) n ns s.1 (λ pg h. p pg (omega (arith, h)))
        t.2),
)

-- The chunks fill the file, in this order.
abbrev pub Fill : Blocks → List ℕ → Type 0
Fill b [] = ⊥
Fill b (id ∷ ids) = Tiles b 0 none id ids

-- The chunks fill the file, and the list of free chunks has only chunks of the file.
pub record IsTiled (b : Blocks) (ids : List ℕ) : Type 0 where
  pub tiles : Fill b ids
  pub listed : All (λ i. Among i ids) b.bestfit_list

pub tile-at :
    (b : Blocks) (pos : ℕ) (prev : Option ℕ) (x : ℕ) (xs : List ℕ) (cur : ℕ) (after : List ℕ)
    → Tiles b pos prev x (xs ++ (cur ∷ after))
    → (before : Option ℕ) × Tiles b (b.chunk cur).start before cur after
tile-at b pos prev x [] cur after t = (
  some x,
  subst (λ k. Tiles b k (some x) cur after) (sym (Tiles-Starts b _ (some x) cur after t.2).start)
      t.2,
)
tile-at b pos prev x (y ∷ ys) cur after t =
    tile-at b (pos + (b.chunk x).size) (some x) y ys cur after t.2

pub Fill-at :
    (b : Blocks) (before : List ℕ) (cur : ℕ) (after : List ℕ)
    → Fill b (before ++ (cur ∷ after))
    → (prev : Option ℕ) × Tiles b (b.chunk cur).start prev cur after
Fill-at b [] cur after t =
    (none, subst (λ k. Tiles b k none cur after) (sym (Tiles-Starts b 0 none cur after t).start) t)
Fill-at b (x ∷ xs) cur after t = tile-at b 0 none x xs cur after t
