-- ===== src/Block/Marks.antt =====
-- Flags of a chunk and the list of free chunks, which the functions of
-- kern/alloc/sivfs_allocation.c set.
use sivfs_public.Base.{
  Among, ℕ, ◌≡◌, refl, sym, ◌∙◌, ap, inl, inr, false, none, List, [], ◌∷◌, arith, All, All-of,
  if-cases, Bool-cases, ==_iff, ◌==◌, set_bit, if◌then◌else◌,
}
use sivfs_public.Block.{Chunk, is_free, Blocks, allocated_bit, set_chunk, list_del}
use sivfs_public.Block.Tiling.{update-hit, frame, IsTiled, Fill}

-- The flags of a chunk are set.
abbrev pub mark : (id ts : ℕ) → Blocks → Blocks
mark id ts b = set_chunk id (record (b.chunk id) { last_freed_ts = ts }) b

pub mark-start :
    (id ts : ℕ) (b : Blocks) (i : ℕ) → ((mark id ts b).chunk i).start ≡ (b.chunk i).start
mark-start id ts b i = elim (Bool-cases (i == id)) [
  | inl e ↦
      ap (λ c. c.start)
        (update-hit b.chunk id (record (b.chunk id) { last_freed_ts = ts }) i ((==_iff i id).0 e))
      ∙ ap (λ k. (b.chunk k).start) (sym ((==_iff i id).0 e))
  | inr e ↦ ap (λ c. (if c then record (b.chunk id) { last_freed_ts = ts } else b.chunk i).start) e
]

pub mark-size : (id ts : ℕ) (b : Blocks) (i : ℕ) → ((mark id ts b).chunk i).size ≡ (b.chunk i).size
mark-size id ts b i = elim (Bool-cases (i == id)) [
  | inl e ↦
      ap (λ c. c.size)
        (update-hit b.chunk id (record (b.chunk id) { last_freed_ts = ts }) i ((==_iff i id).0 e))
      ∙ ap (λ k. (b.chunk k).size) (sym ((==_iff i id).0 e))
  | inr e ↦ ap (λ c. (if c then record (b.chunk id) { last_freed_ts = ts } else b.chunk i).size) e
]

pub mark-Fill : (id ts : ℕ) (b : Blocks) (ids : List ℕ) → Fill b ids → Fill (mark id ts b) ids
mark-Fill id ts b [] t = t
mark-Fill id ts b (x ∷ xs) t =
    frame b (mark id ts b) 0 none x xs
      (All-of
        (λ i.
          (((mark id ts b).chunk i).start ≡ (b.chunk i).start)
          × (((mark id ts b).chunk i).size ≡ (b.chunk i).size))
        (x ∷ xs) (λ i. (mark-start id ts b i, mark-size id ts b i)))
      (λ pg _. refl) t

pub mark-IsTiled :
    (id ts : ℕ) (b : Blocks) (ids : List ℕ) → IsTiled b ids → IsTiled (mark id ts b) ids
mark-IsTiled id ts b ids t = record { tiles = mark-Fill id ts b ids t.tiles; listed = t.listed }

pub list_del-All : (P : ℕ → Type 0) (id : ℕ) (ids : List ℕ) → All P ids → All P (list_del id ids)
list_del-All P id [] a = tt
list_del-All P id (x ∷ xs) a =
    if-cases (All P) (x == id) xs (x ∷ list_del id xs) (λ _. a.1)
      (λ _. (a.0, list_del-All P id xs a.1))

-- The list of free chunks is another.
pub relisted-Fill :
    (b : Blocks) (free ids : List ℕ) → Fill b ids → Fill (record b { bestfit_list = free }) ids
relisted-Fill b free [] t = t
relisted-Fill b free (x ∷ xs) t =
    frame b (record b { bestfit_list = free }) 0 none x xs
      (All-of (λ i. ((b.chunk i).start ≡ (b.chunk i).start) × ((b.chunk i).size ≡ (b.chunk i).size))
        (x ∷ xs) (λ i. (refl, refl)))
      (λ pg _. refl) t

pub relisted :
    (b : Blocks) (free ids : List ℕ)
    → All (λ i. Among i ids) free
    → IsTiled b ids
    → IsTiled (record b { bestfit_list = free }) ids
relisted b free ids a t = record { tiles = relisted-Fill b free ids t.tiles; listed = a }

pub is_free-allocated :
    (c : Chunk)
    → is_free (record c { last_freed_ts = set_bit allocated_bit c.last_freed_ts }) ≡ false
is_free-allocated c = ground arith
