-- ===== src/Reclaim.antt =====
-- The collection of checkpoints, kern/sivfs_gc_checkpoints.c, and its entries, kern/sivfs_checkpoints.h.
-- The versions that threads have checked out are read by kern/sivfs_state.c.
-- A stack is the list of its values, top first. The tree gc_blocked_entries is the list of its groups
-- with growing timestamps. Freed entries are put on a list. What allocations, the insertion into the
-- tree and the pages and inodes answer is an argument.
pub mod Groups
pub mod Order
pub mod Blockers
pub mod Inv
pub mod Fetch
pub mod Step
pub mod Drain
pub mod Sweep
pub mod Collect
pub mod Entry
pub mod Threads
mod Tests
use sivfs_public.Base.{
  ℕ, zero, suc, ◌-◌, ◌%◌, ◌+◌, Bool, true, false, not, ◌&&◌, ◌||◌, Option, none, some, List, [],
  ◌∷◌, ◌++◌, ltb, leb, ◌==◌, if◌then◌else◌, set_bit, Rc, ok, einval, failed,
}
use sivfs_public.Common.{invalid_ts}

-- The type that the low three bits of a `sivfs_gc_entry` hold.
pub data EntryType : Type 0 where
  page inode : EntryType

-- `sivfs_gc_entry_to_type`; `none` is -EINVAL.
pub entry_to_type : ℕ → Option EntryType
entry_to_type entry =
    if entry % 8 == 2 then some page else if entry % 8 == 4 then some inode else none

-- `sivfs_gc_make_entry_page` and `sivfs_gc_make_entry_inode`
pub make_entry_page : ℕ → Rc × ℕ
make_entry_page pointer = if not (pointer % 8 == 0) then (einval, 0) else (ok, set_bit 1 pointer)

pub make_entry_inode : ℕ → Rc × ℕ
make_entry_inode pointer = if not (pointer % 8 == 0) then (einval, 0) else (ok, set_bit 2 pointer)

-- `sivfs_gc_entry_to_page` and `sivfs_gc_entry_to_inode`
abbrev pub entry_to_pointer : ℕ → ℕ
entry_to_pointer entry = entry - entry % 8

-- The checkpoints that an entry is visible in: from `start_ts` on, before `obsoleted_ts`.
pub record Lifetime : Type 0 where
  pub start_ts : ℕ
  pub obsoleted_ts : ℕ

-- The part of `struct sivfs_checkpoints` that is collected, and the entries that were freed.
pub record Collector : Type 0 where
  pub obsoleted_entries : List ℕ
  pub blocked : List (ℕ × List ℕ)
  pub freed : List ℕ

-- `radix_tree_lookup` of a group.
pub group : (ts : ℕ) → List (ℕ × List ℕ) → Option (List ℕ)
group ts [] = none
group ts ((t, es) ∷ rest) =
    let later = group ts rest in if ts == t then some es else if ltb ts t then none else later

-- The group of a timestamp is stored, in its place if it is new.
pub put_group : (ts : ℕ) → List ℕ → List (ℕ × List ℕ) → List (ℕ × List ℕ)
put_group ts new [] = (ts, new) ∷ []
put_group ts new ((t, es) ∷ rest) =
    let later = put_group ts new rest in
    if ts == t
    then (ts, new) ∷ rest
    else if ltb ts t
    then (ts, new) ∷ (t, es) ∷ rest
    else (t, es) ∷ later

-- `radix_tree_delete`
pub drop_group : (ts : ℕ) → List (ℕ × List ℕ) → List (ℕ × List ℕ)
drop_group ts [] = []
drop_group ts ((t, es) ∷ rest) =
    let later = drop_group ts rest in
    if ts == t then rest else if ltb ts t then (t, es) ∷ rest else (t, es) ∷ later

-- The timestamps that `radix_tree_for_each_slot` goes through.
abbrev pub timestamps : List (ℕ × List ℕ) → List ℕ
timestamps [] = []
timestamps ((t, es) ∷ rest) = t ∷ timestamps rest

-- `sivfs_ts_range_contains`
abbrev pub ts_range_contains : (start end ts : ℕ) → Bool
ts_range_contains start end ts = leb start ts && ltb ts end

-- The last of the versions that an entry is visible in.
pub last_blocker : Lifetime → (reassign_to : ℕ) → List ℕ → ℕ
last_blocker l reassign_to [] = reassign_to
last_blocker l reassign_to (blocker ∷ versions) =
    last_blocker l
      (if ts_range_contains l.start_ts l.obsoleted_ts blocker then blocker else reassign_to)
      versions

-- What blocks an entry: the latest checkpoint, or a version that a thread has checked out, or nothing.
pub reassign_to : Lifetime → (checked_out : List ℕ) → (latest : ℕ) → ℕ
reassign_to l checked_out latest =
    if ltb latest l.obsoleted_ts then latest else last_blocker l invalid_ts checked_out

-- Whether a version is checked out.
abbrev pub holds_version : ℕ → List ℕ → Bool
holds_version ts [] = false
holds_version ts (v ∷ versions) = v == ts || holds_version ts versions

-- A group is still blocked.
pub still_blocked : (ts : ℕ) → (checked_out : List ℕ) → (latest : ℕ) → Bool
still_blocked ts checked_out latest =
    if ts == invalid_ts then false else leb latest ts || holds_version ts checked_out

-- `sivfs_get_checked_out_versions` of kern/sivfs_state.c: each thread has a checkpoint timestamp, and a
-- prior one that it may still use. How a push on the stack `out` ends is an argument.
pub checked_out_versions : (push_ends : List ℕ → Rc) → List (ℕ × ℕ) → (out : List ℕ) → Rc × List ℕ
checked_out_versions push_ends [] out = (ok, out)
checked_out_versions push_ends ((checkpoint_ts, prior_checkpoint_ts) ∷ threads) out =
    let rest = checked_out_versions push_ends threads (prior_checkpoint_ts ∷ checkpoint_ts ∷ out) in
    if failed (push_ends out)
    then (push_ends out, out)
    else if failed (push_ends (checkpoint_ts ∷ out))
    then (push_ends (checkpoint_ts ∷ out), checkpoint_ts ∷ out)
    else rest

-- `sivfs_gc_blocked_entries_empty`
pub blocked_entries_empty : List (ℕ × List ℕ) → Bool
blocked_entries_empty [] = true
blocked_entries_empty ((t, []) ∷ rest) = blocked_entries_empty rest
blocked_entries_empty ((t, e ∷ es) ∷ rest) = false

-- `sivfs_stack_pop` of a group.
pub pop_group : (ts : ℕ) → List (ℕ × List ℕ) → List (ℕ × List ℕ)
pop_group ts blocked = elim (group ts blocked) [
  | none ↦ blocked
  | some es ↦ elim es [ [] ↦ blocked | e ∷ rest ↦ put_group ts rest blocked ]
]

-- The values of `sivfs_stack_push_all`, pushed in turn.
abbrev pub push_values : (stack : List ℕ) → (values : List ℕ) → List ℕ
push_values stack [] = stack
push_values stack (v ∷ values) = push_values (v ∷ stack) values

-- The entries of obsoleted pages, and of the obsoleted checkpoint, if there is one.
page_entries : List ℕ → Rc × List ℕ
page_entries [] = (ok, [])
page_entries (pointer ∷ pointers) =
    let rest = page_entries pointers in
    let entry = make_entry_page pointer in
    if failed entry.0 then (entry.0, []) else if failed rest.0 then rest else (ok, entry.1 ∷ rest.1)

checkpoint_entry : Option ℕ → Rc × List ℕ
checkpoint_entry none = (ok, [])
checkpoint_entry (some pointer) =
    let entry = make_entry_inode pointer in
    if failed entry.0 then (entry.0, []) else (ok, entry.1 ∷ [])

-- `sivfs_gc_mark_pages_obsoleted` of some pages. The size of the stack is set at the end, so that an
-- error adds nothing.
pub mark_pages_obsoleted : (reserved : Rc) → List ℕ → Option ℕ → Collector → Rc × Collector
mark_pages_obsoleted reserved pages checkpoint c =
    let added = page_entries pages in
    let last = checkpoint_entry checkpoint in
    if failed reserved
    then (reserved, c)
    else if failed added.0
    then (added.0, c)
    else if failed last.0
    then (last.0, c)
    else (ok, record c { obsoleted_entries = c.obsoleted_entries ++ (added.1 ++ last.1) })

module _ (new_group : ℕ → Rc) (pushed : ℕ → List ℕ → Rc)
    (lifetime : EntryType → ℕ → Option Lifetime) where
  -- `sivfs_gc_get_blocked_entries`: the group, which is made if it is not there.
  pub made : (ts : ℕ) → Collector → Rc → Option (List ℕ) → Rc × List ℕ × Collector
  made ts c rc (some es) = (ok, es, c)
  made ts c rc none =
      if failed rc then (rc, [], c) else (ok, [], record c { blocked = put_group ts [] c.blocked })

  pub get_blocked_entries : (ts : ℕ) → Collector → Rc × List ℕ × Collector
  get_blocked_entries ts c = made ts c (new_group ts) (group ts c.blocked)

  -- `sivfs_gc_entry_to_lifetime`
  pub entry_to_lifetime : ℕ → Option Lifetime
  entry_to_lifetime entry = elim (entry_to_type entry) [
    | none ↦ none
    | some type ↦ lifetime type (entry_to_pointer entry)
  ]

  -- `sivfs_stack_push` on the group.
  pub push_entry : (ts entry : ℕ) → Rc × List ℕ × Collector → Rc × Collector
  push_entry ts entry r =
      if failed r.0
      then (r.0, r.2)
      else if failed (pushed ts r.1)
      then (pushed ts r.1, r.2)
      else (ok, record r.2 { blocked = put_group ts (entry ∷ r.1) r.2.blocked })

  -- `sivfs_gc_or_reassign_entry`, with whether it freed the entry.
  pub gc_or_reassign_entry :
      (checked_out : List ℕ) → (latest entry : ℕ) → Collector → Rc × Bool × Collector
  gc_or_reassign_entry checked_out latest entry c = elim (entry_to_lifetime entry) [
    | none ↦ (einval, false, c)
    | some l ↦
        let to = reassign_to l checked_out latest in
        if to == invalid_ts
        then (ok, true, record c { freed = entry ∷ c.freed })
        else let r = push_entry to entry (get_blocked_entries to c) in (r.0, false, r.1)
  ]

  module _ (checked_out : List ℕ) (latest : ℕ) where
    -- The loop over the entries of a group; `none` is a run out of fuel. An entry is popped when it was
    -- freed or reassigned.
    pub drain : (fuel ts : ℕ) → (did_gc : Bool) → Collector → Option (Rc × Bool × Collector)
    drain zero ts did_gc c = none
    drain (suc fuel) ts did_gc c = elim (group ts c.blocked) [
      | none ↦ some (ok, did_gc, c)
      | some es ↦ elim es [
        | [] ↦ some (ok, did_gc, c)
        | entry ∷ rest ↦
            let r = gc_or_reassign_entry checked_out latest entry c in
            elim (failed r.0) [
              | true ↦ some (r.0, did_gc || r.1, r.2)
              | false ↦
                  drain fuel ts (did_gc || r.1) (record r.2 { blocked = pop_group ts r.2.blocked })
            ]
      ]
    ]

    -- The loop over the groups that were there at its start. A group that is made on the way is that of
    -- a version that still blocks, which the loop skips.
    pub sweep : (fuel : ℕ) → (did_gc : Bool) → List ℕ → Collector → Option (Rc × Bool × Collector)
    sweep fuel did_gc [] c = some (ok, did_gc, c)
    sweep fuel did_gc (ts ∷ tss) c =
        let skip = sweep fuel did_gc tss c in
        elim (still_blocked ts checked_out latest) [
          | true ↦ skip
          | false ↦ elim (drain fuel ts did_gc c) [
            | none ↦ none
            | some (rc, did_gc', c') ↦ elim (failed rc) [
              | true ↦ some (rc, did_gc', c')
              | false ↦ sweep fuel did_gc' tss (record c' { blocked = drop_group ts c'.blocked })
            ]
          ]
        ]

    pub swept : (fuel : ℕ) → (checked : Rc) → Rc × Collector → Option (Rc × Bool × Collector)
    swept fuel checked r =
        if failed r.0
        then some (r.0, false, r.1)
        else if blocked_entries_empty r.1.blocked
        then some (ok, false, r.1)
        else if failed checked
        then some (checked, false, r.1)
        else sweep fuel false (timestamps r.1.blocked) r.1

    -- All obsoleted entries go to the group without a version; `moved` is how `sivfs_stack_push_all` ends.
    pub take_obsoleted : (moved : Rc) → Rc × List ℕ × Collector → Rc × Collector
    take_obsoleted moved r =
        if failed r.0 then (r.0, r.2) else if failed moved then (moved, r.2) else (
          ok,
          record r.2 {
            obsoleted_entries = [];
            blocked = put_group invalid_ts (push_values r.1 r.2.obsoleted_entries) r.2.blocked;
          },
        )

    -- `sivfs_gc_checkpoints` in a thread that has a state, with what waiting for the mutex answers, and
    -- whether the checked out versions could be read.
    pub gc_checkpoints :
        (fuel : ℕ) → (locked moved checked : Rc) → Collector → Option (Rc × Bool × Collector)
    gc_checkpoints fuel locked moved checked c =
        if failed locked
        then some (locked, false, c)
        else swept fuel checked (take_obsoleted moved (get_blocked_entries invalid_ts c))
