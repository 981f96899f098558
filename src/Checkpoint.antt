-- ===== src/Checkpoint.antt =====
-- Checkpoints, kern/sivfs_checkpoints.h and kern/sivfs_checkpoints.c: the tree of checkpoints by timestamp,
-- and the way from the root of a checkpoint to a page. The tree is the list of its entries with growing
-- indices. Pages are named by numbers; NULL is `none`.
pub mod Path
pub mod Lookup
pub mod Insert
pub mod Remove
mod Tests
use sivfs_public.Base.{
  ℕ, zero, suc, ◌/◌, ◌%◌, ◌*◌, ◌^◌, Bool, true, false, ◌&&◌, Option, none, some, List, [], ◌∷◌,
  ◌++◌, ltb, leb, ◌==◌, if◌then◌else◌, add64, sub64, Rc, ok, einval, eexist, failed,
}
use sivfs_public.Common.{invalid_ts}
use sivfs_public.Page.{page_size}

-- The part of `struct sivfs_checkpoints` that finds checkpoints.
pub record Checkpoints : Type 0 where
  pub checkpoint : Option ℕ
  pub ts : ℕ
  pub latest_checkpoint_published : ℕ
  pub checkpoints_reverse : List (ℕ × ℕ)

-- `sivfs_checkpoints_ts_to_reverse_index` and `sivfs_checkpoints_reverse_index_to_ts`
pub ts_to_reverse_index : ℕ → ℕ
ts_to_reverse_index ts = add64 18446744073709551615 (sub64 0 ts)

pub reverse_index_to_ts : ℕ → ℕ
reverse_index_to_ts index = sub64 0 (add64 index 1)

-- The first entry of a tree from an index on.
pub first_from : (index : ℕ) → List (ℕ × ℕ) → Option ℕ
first_from index [] = none
first_from index ((i, cp) ∷ rest) =
    let later = first_from index rest in if leb index i then some cp else later

-- `sivfs_checkpoint_lookup`
pub checkpoint_lookup : Checkpoints → (desired_ts : ℕ) → Option ℕ
checkpoint_lookup c desired_ts =
    first_from
      (ts_to_reverse_index (
        if ltb c.latest_checkpoint_published desired_ts
        then c.latest_checkpoint_published
        else desired_ts))
      c.checkpoints_reverse

-- `radix_tree_insert` into a tree that has room.
pub tree_insert : (index cp : ℕ) → List (ℕ × ℕ) → Rc × List (ℕ × ℕ)
tree_insert index cp [] = (ok, (index, cp) ∷ [])
tree_insert index cp ((i, other) ∷ rest) =
    let later = tree_insert index cp rest in
    if index == i
    then (eexist, (i, other) ∷ rest)
    else if ltb index i
    then (ok, (index, cp) ∷ (i, other) ∷ rest)
    else (later.0, (i, other) ∷ later.1)

-- `radix_tree_delete`
pub tree_delete : (index : ℕ) → List (ℕ × ℕ) → List (ℕ × ℕ)
tree_delete index [] = []
tree_delete index ((i, cp) ∷ rest) =
    let later = tree_delete index rest in if index == i then rest else (i, cp) ∷ later

module _ (cp_ts : ℕ → ℕ) where
  -- `_sivfs_checkpoints_insert`, with what waiting for the mutex and the memory for the tree answer.
  pub checkpoints_insert : (locked room : Rc) → Option ℕ → Checkpoints → Rc × Checkpoints
  checkpoints_insert locked room none c = (einval, c)
  checkpoints_insert locked room (some cp) c =
      let r = tree_insert (ts_to_reverse_index (cp_ts cp)) cp c.checkpoints_reverse in
      if failed locked
      then (locked, c)
      else if failed room
      then (room, c)
      else (r.0, record c { checkpoints_reverse = r.1 })

  -- `_sivfs_checkpoints_insert_finish`: the steps of the double read lock, in turn.
  pub insert_dirty : Checkpoints → Checkpoints
  insert_dirty c = record c { ts = invalid_ts }

  unfoldable pub checkpoints_insert_finish : (cp : ℕ) → Checkpoints → Checkpoints
  checkpoints_insert_finish cp c = record (insert_dirty c) {
    checkpoint = some cp;
    ts = cp_ts cp;
    latest_checkpoint_published = cp_ts cp;
  }

  -- `_sivfs_checkpoints_remove`
  pub checkpoints_remove : (cp : ℕ) → Checkpoints → Checkpoints
  checkpoints_remove cp c = record c {
    checkpoints_reverse = tree_delete (ts_to_reverse_index (cp_ts cp)) c.checkpoints_reverse;
  }

-- The offsets of `sivfs_checkpoint_iter_init` for the levels of a number, from the highest of three on; a
-- number that has more is refused.
unfoldable pub level_offsets : (left : ℕ) → ℕ → Rc × List ℕ
level_offsets zero n = (ok, [])
level_offsets (suc sublevel) n =
    let rest = level_offsets sublevel n in
    if sublevel == 2 && leb 512 (n / 2 ^ (sublevel * 9))
    then (einval, [])
    else (rest.0, n / 2 ^ (sublevel * 9) % 512 ∷ rest.1)

-- `sivfs_checkpoint_iter_init`: SIVFS_CHECKPOINT_INO_LEVELS is 3, SIVFS_CHECKPOINT_FOFFSET_LEVELS is 4.
unfoldable pub iter_init : (file_ino file_offset : ℕ) → Rc × List ℕ
iter_init file_ino file_offset =
    let ino = level_offsets 3 file_ino in
    let foffset = level_offsets 3 (file_offset / page_size) in
    if failed ino.0 then ino else (foffset.0, ino.1 ++ foffset.1)

-- The loop of `sivfs_checkpoint_traverse_partial`. `table` reads an entry of a page.
unfoldable pub descend :
    (table : ℕ → ℕ → Option ℕ) → (level level_stop : ℕ) → List ℕ → Option ℕ → Option ℕ
descend table zero level_stop offsets pa = pa
descend table (suc level) level_stop [] pa = pa
descend table (suc level) level_stop (offset ∷ offsets) pa =
    let below : Option ℕ = elim pa [
      | none ↦ none
      | some p ↦ descend table level level_stop offsets (table p offset)
    ] in
    if suc level == level_stop then pa else below

-- `sivfs_checkpoint_traverse_partial`; the root is on level 6.
unfoldable pub traverse_partial :
    (table : ℕ → ℕ → Option ℕ)
    → (checkpoint_root : Option ℕ) → (file_ino file_offset level_stop : ℕ) → Rc × Option ℕ
traverse_partial table checkpoint_root file_ino file_offset level_stop =
    let iter = iter_init file_ino file_offset in
    if failed iter.0
    then (iter.0, none)
    else (ok, descend table 6 level_stop iter.1 checkpoint_root)
