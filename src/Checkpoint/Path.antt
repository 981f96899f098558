-- ===== src/Checkpoint/Path.antt =====
-- The way to a page of a checkpoint, `sivfs_checkpoint_iter_init` of kern/sivfs_checkpoints.h.
use sivfs_public.Base.{
  ℕ, suc, ◌+◌, ◌*◌, ◌/◌, ◌%◌, ◌^◌, ◌≤◌, ◌<◌, ◌≡◌, ◌⊎◌, ◌∙◌, ap, ap₂, inl, inr, Bool, List, [], ◌∷◌,
  ◌++◌, arith, if◌then◌else◌, lt→leb, le→leb, Rc, ok, einval, failed, get_or,
}
use sivfs_public.Page.{page_size}
use sivfs_public.Checkpoint.{level_offsets, iter_init}

three_levels : ℕ → List ℕ
three_levels n = n / 262144 % 512 ∷ n / 512 % 512 ∷ n / 1 % 512 ∷ []

level_offsets-three : (n : ℕ) → n < 2 ^ 27 → level_offsets 3 n ≡ (ok, three_levels n)
unfolding level_offsets three_levels
level_offsets-three n small =
    ap
      (λ (b : Bool).
        if b then (einval, []) else (ok, n / 262144 % 512 ∷ n / 512 % 512 ∷ n / 1 % 512 ∷ []))
      (lt→leb (n / 262144) 512 (omega (arith, small)))

level_offsets-refuses : (n : ℕ) → 2 ^ 27 ≤ n → level_offsets 3 n ≡ (einval, [])
unfolding level_offsets
level_offsets-refuses n large =
    ap
      (λ (b : Bool).
        if b then (einval, []) else (ok, n / 262144 % 512 ∷ n / 512 % 512 ∷ n / 1 % 512 ∷ []))
      (le→leb 512 (n / 262144) (omega (arith, large)))

-- The number that three offsets from `at` on stand for.
abbrev pub number_at : (at : ℕ) → List ℕ → ℕ
number_at at offsets =
    get_or offsets at 0 * 262144 + get_or offsets (suc at) 0 * 512 + get_or offsets (suc (suc at)) 0

-- The inode number and the page of a file can be read back from the offsets, so that different pages
-- have different places in a checkpoint, if both have less than 27 bits.
pub iter_init-number_at :
    (file_ino file_offset : ℕ)
    → file_ino < 2 ^ 27
    → file_offset / page_size < 2 ^ 27
    → ((iter_init file_ino file_offset).0 ≡ ok)
      × (number_at 0 (iter_init file_ino file_offset).1 ≡ file_ino)
      × (number_at 3 (iter_init file_ino file_offset).1 ≡ file_offset / page_size)
unfolding iter_init three_levels
iter_init-number_at file_ino file_offset small_ino small_offset =
    let whole =
      ap₂ joined (level_offsets-three file_ino small_ino)
        (level_offsets-three (file_offset / page_size) small_offset) in
    (
      ap (λ (r : Rc × List ℕ). r.0) whole,
      ap (λ (r : Rc × List ℕ). number_at 0 r.1) whole ∙ omega (arith, small_ino),
      ap (λ (r : Rc × List ℕ). number_at 3 r.1) whole ∙ omega (arith, small_offset),
    )
  where
    joined : Rc × List ℕ → Rc × List ℕ → Rc × List ℕ
    joined ino foffset = if failed ino.0 then ino else (foffset.0, ino.1 ++ foffset.1)

-- A number with more bits is refused.
pub iter_init-refuses :
    (file_ino file_offset : ℕ)
    → (2 ^ 27 ≤ file_ino) ⊎ (file_ino < 2 ^ 27) × (2 ^ 27 ≤ file_offset / page_size)
    → (iter_init file_ino file_offset).0 ≡ einval
unfolding iter_init three_levels
iter_init-refuses file_ino file_offset (inl large) =
    ap
      (λ (ino : Rc × List ℕ).
        (if failed ino.0 then ino else (
          (level_offsets 3 (file_offset / page_size)).0,
          ino.1 ++ (level_offsets 3 (file_offset / page_size)).1,
        )).0)
      (level_offsets-refuses file_ino large)
iter_init-refuses file_ino file_offset (inr (small, large)) =
    ap
      (λ (ino : Rc × List ℕ).
        (if failed ino.0 then ino else (
          (level_offsets 3 (file_offset / page_size)).0,
          ino.1 ++ (level_offsets 3 (file_offset / page_size)).1,
        )).0)
      (level_offsets-three file_ino small)
    ∙ ap (λ (r : Rc × List ℕ). r.0) (level_offsets-refuses (file_offset / page_size) large)

-- The offsets of a page, all at once.
pub iter_init-six :
    (file_ino file_offset : ℕ)
    → file_ino < 2 ^ 27
    → file_offset / page_size < 2 ^ 27
    → iter_init file_ino file_offset ≡ (
      ok,
      file_ino / 262144 % 512
          ∷ file_ino / 512 % 512
          ∷ file_ino / 1 % 512
          ∷ file_offset / page_size / 262144 % 512
          ∷ file_offset / page_size / 512 % 512
          ∷ file_offset / page_size / 1 % 512
          ∷ [],
    )
unfolding iter_init three_levels
iter_init-six file_ino file_offset small_ino small_offset =
    ap₂
      (λ (ino foffset : Rc × List ℕ). if failed ino.0 then ino else (foffset.0, ino.1 ++ foffset.1))
      (level_offsets-three file_ino small_ino)
      (level_offsets-three (file_offset / page_size) small_offset)
