-- ===== src/Make.antt =====
-- Making checkpoints, kern/sivfs_make_checkpoint.c, with the pages of kern/sivfs_checkpoints.c. A page is
-- named by a number, in the order of allocation; an entry of a table is the number of its page, without
-- the flag bits of the hardware, and NULL is 0. What the kernel's allocations answer, in turn, is a list
-- in the state; where it ends they succeed.
pub mod Nodes
pub mod Link
pub mod Keep
pub mod Got
pub mod Copied
pub mod Frames
pub mod Round
pub mod Place
pub mod Blank
pub mod Turn
pub mod Leaf
pub mod Change
pub mod Read
pub mod Paths
pub mod Apply
pub mod Snapshot
pub mod Cycle
pub mod Zero
mod Tests
use sivfs_public.Base.{
  ℕ, zero, suc, ◌+◌, ◌-◌, ◌*◌, ◌/◌, Bool, true, false, not, Option, none, some, List, [], ◌∷◌, ltb,
  leb, ◌==◌, if◌then◌else◌, set, get_or, replicate, sub64, Rc, ok, enomem, failed,
}
use sivfs_public.Common.{invalid_ts}
use sivfs_public.Walk.{Head}
use sivfs_public.Page.{page_size, apply_ws_ent_pg}
use sivfs_public.Checkpoint.{iter_init}
use sivfs_public.Reclaim.{Collector, mark_pages_obsoleted}

-- `struct sivfs_checkpoint_pginfo`
pub record PgInfo : Type 0 where
  pub checkpoint_ts : ℕ
  pub obsoleted_ts : ℕ
  pub level : ℕ
  pub is_zero_page : Bool

-- The words, the `pginfo` and the `index` of every page, and what one call of the maker works on: the root
-- of the checkpoint, and the stack of the pages that it makes obsolete (NULL if they go to the collector
-- one by one).
pub record Maker : Type 0 where
  pub mem : ℕ → List ℕ
  pub pginfo : ℕ → PgInfo
  pub index : ℕ → ℕ
  pub fresh : ℕ
  pub ncheckpoint_pages : ℕ
  pub answers : List Rc
  pub root : ℕ
  pub obsoleted_pages : Option (List ℕ)
  pub collector : Collector
  pub pages_new : ℕ

-- A function with the value at one argument replaced.
abbrev pub override : {A : Type 0} → (ℕ → A) → ℕ → A → ℕ → A
override f k v i = if i == k then v else f i

-- `SIVFS_MAX_CHECKPOINT_PAGES`: 4000 MB of pages.
abbrev pub max_checkpoint_pages : ℕ
max_checkpoint_pages = 1024000

-- `SIVFS_CHECKPOINT_CHILDREN_PER_NODE`
abbrev pub children_per_node : ℕ
children_per_node = 512

-- The next answer of an allocation, and those that are left.
abbrev pub next_answer : List Rc → Rc × List Rc
next_answer [] = (ok, [])
next_answer (rc ∷ rest) = (rc, rest)

-- The `pginfo` of a new page.
abbrev pub new_pginfo : (checkpoint_ts level : ℕ) → PgInfo
new_pginfo checkpoint_ts level = record {
  checkpoint_ts = checkpoint_ts;
  obsoleted_ts = invalid_ts;
  level = level;
  is_zero_page = false;
}

-- `sivfs_new_checkpoint_page`; the answer is that of `alloc_page` and `kzalloc` together. The words of the
-- new page are what they were.
pub new_checkpoint_page : (checkpoint_ts level : ℕ) → Maker → Rc × ℕ × Maker
new_checkpoint_page checkpoint_ts level m =
    let answer = next_answer m.answers in
    if ltb max_checkpoint_pages (m.ncheckpoint_pages + 1)
    then (enomem, 0, m)
    else if failed answer.0
    then (answer.0, 0, record m { answers = answer.1 })
    else (
      ok,
      m.fresh,
      record m {
        pginfo = override m.pginfo m.fresh (new_pginfo checkpoint_ts level);
        fresh = suc m.fresh;
        ncheckpoint_pages = m.ncheckpoint_pages + 1;
        answers = answer.1;
      },
    )

-- `sivfs_put_checkpoint_page` of a page that nobody else refers to.
pub put_checkpoint_page : Maker → Maker
put_checkpoint_page m = record m { ncheckpoint_pages = sub64 m.ncheckpoint_pages 1 }

-- Stores to the words and to the fields of a page.
abbrev pub store : (p : ℕ) → List ℕ → Maker → Maker
store p words m = record m { mem = override m.mem p words }

abbrev pub store_obsoleted : (p ts : ℕ) → Maker → Maker
store_obsoleted p ts m = record m {
  pginfo = override m.pginfo p (record (m.pginfo p) { obsoleted_ts = ts });
}

abbrev pub store_index : (p pgoff : ℕ) → Maker → Maker
store_index p pgoff m = record m { index = override m.index p pgoff }

-- `sivfs_mk_zero_checkpoint_page`; `zero_pxd_page` is the array of the zero pages by level, which starts with
-- `sivfs_zero_page`.
pub mk_zero_checkpoint_page : (zero_pxd_page : List ℕ) → (level : ℕ) → List ℕ
mk_zero_checkpoint_page zero_pxd_page zero = replicate children_per_node 0
mk_zero_checkpoint_page zero_pxd_page (suc level) =
    replicate children_per_node (if ltb level 4 then get_or zero_pxd_page level 0 else 0)

-- The address of a `struct page`, from the start of their array.
abbrev pub page_pointer : ℕ → ℕ
page_pointer p = 64 * p

-- `sivfs_on_obsolete_page`
pub on_obsolete_page : (old : ℕ) → Maker → Rc × Maker
on_obsolete_page old m =
    let answer = next_answer m.answers in
    let alone = mark_pages_obsoleted answer.0 (page_pointer old ∷ []) none m.collector in
    elim m.obsoleted_pages [
      | some pages ↦
          if failed answer.0
          then (answer.0, record m { answers = answer.1 })
          else (ok, record m { answers = answer.1; obsoleted_pages = some (old ∷ pages) })
      | none ↦ (alone.0, record m { answers = answer.1; collector = alone.1 })
    ]

-- Where a pointer to a page stands: the local `root_pa`, which is put into the root, or an entry of a
-- table.
pub data Slot : Type 0 where
  root_slot : Slot
  table_slot : (table offset : ℕ) → Slot

abbrev pub read_slot : Slot → Maker → ℕ
read_slot root_slot m = m.root
read_slot (table_slot table offset) m = get_or (m.mem table) offset 0

abbrev pub write_slot : Slot → ℕ → Maker → Maker
write_slot root_slot p m = record m { root = p }
write_slot (table_slot table offset) p m = store table (set (m.mem table) offset p) m

-- The timestamp that decides whether a page is copied.
abbrev pub page_ts : PgInfo → ℕ
page_ts p = if p.is_zero_page then 0 else p.checkpoint_ts

-- What the loop does to the leaf page.
pub to_leaf : (nowrite : Bool) → Head → (p : ℕ) → Maker → Maker
to_leaf nowrite ent p m =
    store_index p (ent.file_offset / page_size)
      (if nowrite then m else store p (apply_ws_ent_pg ent (m.mem p)) m)

module _ (zero_pxd_page : List ℕ) (checkpoint_ts : ℕ) where
  -- The body of the loop of `sivfs_apply_change_checkpoint`, up to the page to work on: a new page with the
  -- words of the old one,
  pub copy_page : (level old : ℕ) → Maker → Rc × ℕ × Maker
  copy_page level old m =
      let got = new_checkpoint_page checkpoint_ts level m in
      let counted = record (got.2) { pages_new = got.2.pages_new + 1 } in
      let copied = store got.1 (counted.mem old) counted in
      let noted = on_obsolete_page old (store_obsoleted old checkpoint_ts copied) in
      if failed got.0
      then got
      else if (m.pginfo old).is_zero_page
      then (ok, got.1, copied)
      else if failed noted.0
      then (noted.0, 0, put_checkpoint_page noted.1)
      else (ok, got.1, noted.1)

  -- or a new page with no children,
  pub blank_page : (level : ℕ) → Maker → Rc × ℕ × Maker
  blank_page level m =
      let got = new_checkpoint_page checkpoint_ts level m in
      let counted = record (got.2) { pages_new = got.2.pages_new + 1 } in
      if failed got.0
      then got
      else (ok, got.1, store got.1 (mk_zero_checkpoint_page zero_pxd_page level) counted)

  -- or the page itself, if it is one of this checkpoint.
  pub page_for : (level entry : ℕ) → Maker → Rc × ℕ × Maker
  page_for level entry m =
      if entry == 0
      then blank_page level m
      else if page_ts (m.pginfo entry) == checkpoint_ts
      then (ok, entry, m)
      else copy_page level entry m

  module _ (nowrite : Bool) (ent : Head) where
    -- The loop, from a level down to 0.
    pub change_from : (level : ℕ) → (offsets : List ℕ) → Slot → Maker → Rc × Maker
    change_from zero offsets slot m =
        let got = page_for 0 (read_slot slot m) m in
        if failed got.0
        then (got.0, got.2)
        else (ok, write_slot slot got.1 (to_leaf nowrite ent got.1 got.2))
    change_from (suc level) [] slot m = (ok, m)
    change_from (suc level) (offset ∷ offsets) slot m =
        let got = page_for (suc level) (read_slot slot m) m in
        let below =
          change_from level offsets (table_slot got.1 offset) (write_slot slot got.1 got.2) in
        if failed got.0 then (got.0, got.2) else below

    -- `sivfs_apply_change_checkpoint`; `nowrite` is its option.
    pub apply_change_checkpoint : Maker → Rc × Maker
    apply_change_checkpoint m =
        let iter = iter_init ent.ino ent.file_offset in
        if failed iter.0 then (iter.0, m) else change_from 6 iter.1 root_slot m

-- `sivfs_prepare_direct_access_page`: the maker works on the checkpoint of timestamp `cp_ts`, and the pages that
-- it makes obsolete go to the collector.
pub prepare_direct_access_page :
    (zero_pxd_page : List ℕ) → (cp_ts : ℕ) → (file_ino file_offset : ℕ) → Maker → Rc × Maker
prepare_direct_access_page zero_pxd_page cp_ts file_ino file_offset m =
    apply_change_checkpoint zero_pxd_page cp_ts true
      (record { ino = file_ino; file_offset = file_offset; address = 0; value = 0 })
      (record m { obsoleted_pages = none })
