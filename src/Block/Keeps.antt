-- ===== src/Block/Keeps.antt =====
-- The page information that `sivfs_alloc_get_pginfo` in kern/alloc/sivfs_allocation.c makes.
use sivfs_public.Base.{
  ℕ, ◌+◌, ◌/◌, ◌^◌, ◌≤◌, ◌<◌, ◌≡◌, refl, sym, subst, ◌∙◌, ap, Option, none, some, List, [], ◌∷◌, Rc,
  ok, einval, enomem, eexist, eagain, eintr,
}
use sivfs_public.Page.{page_size}
use sivfs_public.Block.{PgInfo, Blocks, zero_pginfo, get_pginfo_at, get_pginfo}
use sivfs_public.Block.Tiling.{update-miss, Starts, Tiles}
use mathlib.Core.Option.{none-ne-some}

-- Pages that were there are as they were, and so are all chunks.
pub record Keeps (b b' : Blocks) : Type 0 where
  pub chunks : b'.chunk ≡ b.chunk
  pub free_list : b'.bestfit_list ≡ b.bestfit_list
  pub pages : (pg : ℕ) (p : PgInfo) → b.pginfo pg ≡ some p → b'.pginfo pg ≡ some p

pub Keeps-refl : (b : Blocks) → Keeps b b
Keeps-refl b = record { chunks = refl; free_list = refl; pages = λ pg p e. e }

pub Keeps-trans : (a b c : Blocks) → Keeps a b → Keeps b c → Keeps a c
Keeps-trans a b c h k = record {
  chunks = k.chunks ∙ h.chunks;
  free_list = k.free_list ∙ h.free_list;
  pages = λ pg p e. k.pages pg p (h.pages pg p e);
}

pub get_pginfo_at-Keeps :
    (inserted : Rc) (b : Blocks) (pgoff : ℕ) (o : Option PgInfo)
    → b.pginfo pgoff ≡ o
    → Keeps b (get_pginfo_at inserted b pgoff o).2
unfolding get_pginfo_at
get_pginfo_at-Keeps inserted b pgoff (some p) e = Keeps-refl b
get_pginfo_at-Keeps ok b pgoff none e = record {
  chunks = refl;
  free_list = refl;
  pages = λ pg p there.
      update-miss b.pginfo pgoff (some zero_pginfo) pg
        (λ same. none-ne-some p (sym e ∙ ap b.pginfo (sym same) ∙ there))
      ∙ there;
}
get_pginfo_at-Keeps einval b pgoff none e = Keeps-refl b
get_pginfo_at-Keeps enomem b pgoff none e = Keeps-refl b
get_pginfo_at-Keeps eexist b pgoff none e = Keeps-refl b
get_pginfo_at-Keeps eagain b pgoff none e = Keeps-refl b
get_pginfo_at-Keeps eintr b pgoff none e = Keeps-refl b

Keeps-Starts :
    (b b' : Blocks)
    → Keeps b b'
    → (pos : ℕ) (prev : Option ℕ) (id : ℕ) → Starts b pos prev id
    → Starts b' pos prev id
Keeps-Starts b b' k pos prev id st = record {
  start = ap (λ f. (f id).start) k.chunks ∙ st.start;
  page = k.pages (pos / page_size) _ st.page;
}

pub Keeps-Tiles :
    (b b' : Blocks)
    → Keeps b b'
    → (pos : ℕ) (prev : Option ℕ) (id : ℕ) (ids : List ℕ) → Tiles b pos prev id ids
    → Tiles b' pos prev id ids
Keeps-Tiles b b' k pos prev id [] t =
    (Keeps-Starts b b' k pos prev id t.0, ap (λ f. (f id).size) k.chunks ∙ t.1)
Keeps-Tiles b b' k pos prev id (n ∷ ns) t = (
  Keeps-Starts b b' k pos prev id t.0,
  record {
    size_page = subst (λ f. page_size ≤ (f id).size) (sym k.chunks) t.1.size_page;
    small = subst (λ f. pos + (f id).size < 2 ^ 62) (sym k.chunks) t.1.small;
  },
  subst (λ f. Tiles b' (pos + (f id).size) (some id) n ns) (sym k.chunks)
      (Keeps-Tiles b b' k (pos + (b.chunk id).size) (some id) n ns t.2),
)

-- An answer of `sivfs_alloc_get_pginfo`.
pub get_pginfo-Keeps :
    (inserted : ℕ → Rc) (b : Blocks) (offset : ℕ) → Keeps b (get_pginfo inserted b offset).2
unfolding get_pginfo
get_pginfo-Keeps inserted b offset =
    get_pginfo_at-Keeps (inserted (offset / page_size)) b (offset / page_size)
      (b.pginfo (offset / page_size)) refl
