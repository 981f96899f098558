-- ===== src/Walk.antt =====
-- The walk over the entries of a writeset, `while (size_left) { … ent += wse_size; }`, which
-- kern/sivfs_commit_update_checkpoints.c, kern/sivfs_workingset.c and kern/sivfs_shared_state.h write
-- out once for each use. Here it is one loop over a body. Memory is a list of words; a read behind it
-- gives 0. Every round of a walk over well-formed entries takes one entry, so one round of fuel more
-- than there are entries is enough.
pub mod Fold
pub mod Readback
mod Tests
use sivfs_public.Base.{
  ℕ, zero, suc, ◌/◌, Bool, true, false, Option, none, some, List, ◌==◌, get_or, drop, sub64, Rc,
  einval,
}
use sivfs_public.Writeset.{to_stream_info, wse_size, Writeset}

-- What a body reads of `struct sivfs_writeset_entry`.
pub record Head : Type 0 where
  pub ino : ℕ
  pub file_offset : ℕ
  pub address : ℕ
  pub value : ℕ

-- The entry that memory holds at its start; word 3 is the control word.
abbrev pub head_at : List ℕ → Head
head_at mem = record {
  ino = get_or mem 0 0;
  file_offset = get_or mem 1 0;
  address = get_or mem 2 0;
  value = get_or mem 4 0;
}

-- How a body ends: on to the next entry, `goto out`, an error, or a loop of its own that ran out of
-- fuel.
pub data Step (S : Type 0) : Type 0 where
  next : S → Step S
  stop : S → Step S
  fail : Rc → S → Step S
  exhaust : Step S

-- How a loop ends.
pub data Ended (S : Type 0) : Type 0 where
  done : S → Ended S
  failed : Rc → S → Ended S
  out_of_fuel : Ended S

-- What follows a body: the rest of the loop, or the end.
abbrev pub then_next : {S : Type 0} → Step S → (S → Ended S) → Ended S
then_next (next s) rest = rest s
then_next (stop s) rest = done s
then_next (fail rc s) rest = failed rc s
then_next exhaust rest = out_of_fuel

module _ {S : Type 0} (visit : Head → S → Step S) where
  unfoldable pub walk : (fuel : ℕ) → (mem : List ℕ) → (size_left : ℕ) → S → Ended S
  walk zero mem size_left s = out_of_fuel
  walk (suc fuel) mem size_left s = elim (size_left == 0) [
    | true ↦ done s
    | false ↦ elim (to_stream_info (get_or mem 3 0) size_left) [
      | none ↦ failed einval s
      | some info ↦
          then_next (visit (head_at mem) s)
            λ s'. walk fuel (drop (wse_size info / 8) mem) (sub64 size_left (wse_size info)) s'
    ]
  ]

  -- The walk over all that a writeset has in use. An entry has 40 bytes, so the fuel is enough for
  -- all entries that fit the size.
  unfoldable pub walk_all : Writeset → S → Ended S
  walk_all ws s = walk (suc ws.size_bytes) ws.entries ws.size_bytes s
