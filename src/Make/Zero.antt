-- ===== src/Make/Zero.antt =====
-- The zero pages of kern/sivfs_checkpoints.c, which checkpoints share where a file has no page, and how they
-- are counted. They are made level by level; level 0 is the zero page of the kernel. The array of the zero
-- pages has four entries, NULL at first, and keeps them when the pages are freed.
pub mod Blankness
use sivfs_public.Base.{
  ℕ, zero, suc, ◌+◌, ◌-◌, Bool, true, List, [], ◌∷◌, ◌==◌, if◌then◌else◌, set, Rc, ok, failed,
}
use sivfs_public.Make.{
  Maker, PgInfo, override, store, new_checkpoint_page, put_checkpoint_page, mk_zero_checkpoint_page,
}

-- `pginfo->is_zero_page = true`
abbrev pub mark_zero_page : (p : ℕ) → Maker → Maker
mark_zero_page p m = record m {
  pginfo = override m.pginfo p (record (m.pginfo p) { is_zero_page = true });
}

-- The loop of `_sivfs_destroy_zero_checkpoint_pages`.
pub destroy_pages : List ℕ → Maker → Maker
destroy_pages [] m = m
destroy_pages (p ∷ ps) m = destroy_pages ps (if p == 0 then m else put_checkpoint_page m)

-- `_sivfs_destroy_zero_checkpoint_pages`: all but the zero page of the kernel.
pub destroy_zero_checkpoint_pages : (zero_pxd_page : List ℕ) → Maker → Maker
destroy_zero_checkpoint_pages [] m = m
destroy_zero_checkpoint_pages (zero_page ∷ pages) m = destroy_pages pages m

-- The loop of `_sivfs_init_zero_checkpoint_pages`, with `left` levels to go.
unfoldable pub init_from : (left level : ℕ) → (zero_pxd_page : List ℕ) → Maker → Rc × List ℕ × Maker
init_from zero level zero_pxd_page m = (ok, zero_pxd_page, m)
init_from (suc left) level zero_pxd_page m =
    let got = new_checkpoint_page 0 level m in
    let rest = init_from left (suc level) (set zero_pxd_page level got.1) (
      store got.1 (mk_zero_checkpoint_page (set zero_pxd_page level got.1) level)
        (mark_zero_page got.1 got.2)) in
    if failed got.0
    then (got.0, zero_pxd_page, destroy_zero_checkpoint_pages zero_pxd_page got.2)
    else rest

-- `_sivfs_init_zero_checkpoint_pages`, given the zero page of the kernel.
unfoldable pub init_zero_checkpoint_pages :
    (zero_page : ℕ) → (zero_pxd_page : List ℕ) → Maker → Rc × List ℕ × Maker
init_zero_checkpoint_pages zero_page zero_pxd_page m =
    init_from 3 1 (set zero_pxd_page 0 zero_page) m

-- The zero pages with `sivfs_zero_pages_refcount`.
pub record ZeroPages : Type 0 where
  pub refcount : ℕ
  pub zero_pxd_page : List ℕ
  pub pages : Maker

-- `sivfs_get_zero_checkpoint_pages`
pub get_zero_checkpoint_pages : (zero_page : ℕ) → ZeroPages → Rc × ZeroPages
get_zero_checkpoint_pages zero_page z =
    let made = init_zero_checkpoint_pages zero_page z.zero_pxd_page z.pages in
    if z.refcount == 0
    then if failed made.0
      then (made.0, record z { zero_pxd_page = made.1; pages = made.2 })
      else (ok, record { refcount = 1; zero_pxd_page = made.1; pages = made.2 })
    else (ok, record z { refcount = z.refcount + 1 })

-- `sivfs_put_zero_checkpoint_pages`
pub put_zero_checkpoint_pages : ZeroPages → ZeroPages
put_zero_checkpoint_pages z =
    let left = record z { refcount = z.refcount - 1 } in
    if z.refcount == 0
    then z
    else if left.refcount == 0
    then record left { pages = destroy_zero_checkpoint_pages z.zero_pxd_page z.pages }
    else left
