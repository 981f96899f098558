-- ===== src/Make/Paths.antt =====
-- The path of a page of a file in a checkpoint, from `sivfs_checkpoint_iter_init` of
-- kern/sivfs_checkpoints.h.
use sivfs_public.Base.{
  ℕ, ◌/◌, ◌%◌, ◌^◌, ◌<◌, ◌≡◌, inl, inr, refl, sym, ap, ap₂, ◌∙◌, ◌++◌, false, List, [], ◌∷◌, arith,
  if◌then◌else◌, leb, leb→le, Bool-cases, length, get_or, All, Rc, ok, einval, failed, subst,
}
use mathlib.Core.Bool.{true≢false}
use sivfs_public.Page.{page_size}
use sivfs_public.Checkpoint.{iter_init, level_offsets}
use sivfs_public.Checkpoint.Path.{iter_init-six, iter_init-refuses}
use sivfs_public.Make.Change.{way}

-- The offsets, the innermost first.
abbrev pub path_of : (file_ino file_offset : ℕ) → List ℕ
path_of file_ino file_offset = way (iter_init file_ino file_offset).1 []

-- A file and an offset that a checkpoint has room for.
pub record IsSmall (file_ino file_offset : ℕ) : Type 0 where
  pub small_ino : file_ino < 2 ^ 27
  pub small_page : file_offset / page_size < 2 ^ 27

-- The offsets are six, each within a table.
pub record IsGood (iter : Rc × List ℕ) : Type 0 where
  pub iter_ok : iter.0 ≡ ok
  pub six : length (iter.1) ≡ 6
  pub in_table : All (λ o. o < 512) (iter.1)

pub iter_init-IsGood :
    (file_ino file_offset : ℕ)
    → IsSmall file_ino file_offset
    → IsGood (iter_init file_ino file_offset)
iter_init-IsGood file_ino file_offset s =
    subst IsGood (sym (iter_init-six file_ino file_offset s.small_ino s.small_page))
      (record { iter_ok = refl; six = omega arith; in_table = omega arith })

-- Only small ones are not refused.
pub iter_init-IsSmall :
    (file_ino file_offset : ℕ)
    → (iter_init file_ino file_offset).0 ≡ ok
    → IsSmall file_ino file_offset
iter_init-IsSmall file_ino file_offset e = elim (Bool-cases (leb (2 ^ 27) file_ino)) [
  | inl large ↦
      absurd
        (refused (iter_init-refuses file_ino file_offset (inl (leb→le (2 ^ 27) file_ino large))))
  | inr small ↦ elim (Bool-cases (leb (2 ^ 27) (file_offset / page_size))) [
    | inl large ↦ absurd (
        refused (
          iter_init-refuses file_ino file_offset
            (inr (below file_ino small, leb→le (2 ^ 27) (file_offset / page_size) large))))
    | inr both ↦ record {
      small_ino = below file_ino small;
      small_page = below (file_offset / page_size) both;
    }
  ]
]
  where
    refused : (iter_init file_ino file_offset).0 ≡ einval → ⊥
    refused f = true≢false (ap failed (sym f ∙ e))

    below : (n : ℕ) → leb (2 ^ 27) n ≡ false → n < 2 ^ 27
    below n f = ground arith

path_of-six :
    (file_ino file_offset : ℕ)
    → IsSmall file_ino file_offset
    → path_of file_ino file_offset
      ≡ file_offset / page_size / 1 % 512
        ∷ file_offset / page_size / 512 % 512
        ∷ file_offset / page_size / 262144 % 512
        ∷ file_ino / 1 % 512
        ∷ file_ino / 512 % 512
        ∷ file_ino / 262144 % 512
        ∷ []
path_of-six file_ino file_offset s =
    ap (λ (r : Rc × List ℕ). way r.1 [])
      (iter_init-six file_ino file_offset s.small_ino s.small_page)

pub length-path_of :
    (file_ino file_offset : ℕ)
    → IsSmall file_ino file_offset
    → length (path_of file_ino file_offset) ≡ 6
length-path_of file_ino file_offset s = ap length (path_of-six file_ino file_offset s)

-- Different pages have different paths.
pub path_of-injective :
    (ino ino' offset offset' : ℕ)
    → IsSmall ino offset
    → IsSmall ino' offset'
    → path_of ino offset ≡ path_of ino' offset'
    → (ino ≡ ino') × (offset / page_size ≡ offset' / page_size)
path_of-injective ino ino' offset offset' s s' e =
    let whole = sym (path_of-six ino offset s) ∙ e ∙ path_of-six ino' offset' s' in
    (
      omega (arith, s.small_ino, s'.small_ino, nth 3 whole, nth 4 whole, nth 5 whole),
      omega (arith, s.small_page, s'.small_page, nth 0 whole, nth 1 whole, nth 2 whole),
    )
  where
    nth : {xs ys : List ℕ} (i : ℕ) → xs ≡ ys → get_or xs i 0 ≡ get_or ys i 0
    nth i h = ap (λ (l : List ℕ). get_or l i 0) h

pub path_of-same :
    (ino ino' offset offset' : ℕ)
    → ino ≡ ino'
    → offset / page_size ≡ offset' / page_size
    → path_of ino offset ≡ path_of ino' offset'
unfolding iter_init
path_of-same ino ino' offset offset' e f =
    ap₂
      (λ (a b : ℕ).
        way
          (if failed (level_offsets 3 a).0
            then level_offsets 3 a
            else ((level_offsets 3 b).0, (level_offsets 3 a).1 ++ (level_offsets 3 b).1)).1
          [])
      e f
