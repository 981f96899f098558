-- ===== src/Writeset.antt =====
-- kern/sivfs_writeset.h in its kernel build: the entries of a transaction's writeset, their stream
-- control word, and the growing buffer that holds them one after another. Memory is a list of 64-bit
-- words; sizes are in bytes, as in the code. What `kzalloc` can serve is a parameter.
pub mod Control
pub mod Entry
pub mod Append
pub mod Copy
mod Tests
use sivfs_public.Base.{
  ℕ, ◌+◌, ◌*◌, ◌/◌, ◌^◌, ◌≡◌, Bool, true, false, not, Option, none, some, List, [], ◌∷◌, ◌++◌, ltb,
  leb, ◌==◌, if◌then◌else◌, length, get_or, take, write_at, replicate, add64, sub64, mul64, has_bit,
  set_bit, clear_bit, Rc, ok, einval, enomem,
}
use sivfs_public.Common.{max3}

-- `sizeof(struct sivfs_writeset_entry)`: ino, file_offset, address, stream_control, value.
abbrev pub entry_min_size : ℕ
entry_min_size = 40

-- `struct sivfs_wse_stream_info`
pub record StreamInfo : Type 0 where
  pub value_words : ℕ
  pub dest_words : ℕ
  pub is_stream : Bool
  pub is_const_stream : Bool

-- `sivfs_wse_size`, in bytes.
unfoldable pub wse_size : StreamInfo → ℕ
wse_size info = add64 entry_min_size (mul64 (sub64 info.value_words 1) 8)

-- The size check at the end of `sivfs_wse_to_stream_info`.
unfoldable pub checked : StreamInfo → ℕ → Option StreamInfo
checked info size = if ltb size (wse_size info) then none else some info

-- The part of `stream_control` that is not flags: bits 62 and 63 are cleared.
unfoldable pub dest_words_of : ℕ → ℕ
dest_words_of sc = clear_bit 62 (clear_bit 63 sc)

-- `sivfs_wse_to_stream_info` of an entry with the given control word, when `size` bytes are left.
-- `none` is its only error, EINVAL.
unfoldable pub to_stream_info : (sc size : ℕ) → Option StreamInfo
to_stream_info sc size =
    if sc == 0
    then some
        (record { value_words = 1; dest_words = 1; is_stream = false; is_const_stream = false })
    else if not (has_bit 63 sc)
    then none
    else if dest_words_of sc == 0
    then none
    else checked
        (record {
          value_words = if has_bit 62 sc then 1 else dest_words_of sc;
          dest_words = dest_words_of sc;
          is_stream = has_bit 63 sc;
          is_const_stream = has_bit 62 sc;
        })
        size

-- `struct sivfs_writeset`. `entries` holds the words of the buffer.
pub record Writeset : Type 0 where
  pub capacity_bytes : ℕ
  pub size_bytes : ℕ
  pub entries : List ℕ

-- Zero initialisation.
abbrev pub empty : Writeset
empty = record { capacity_bytes = 0; size_bytes = 0; entries = [] }

-- `sivfs_writeset_empty`
pub is_empty : Writeset → Bool
is_empty ws = ws.size_bytes == 0

-- `sivfs_ws_is_disabled`: the flag is bit 63 of the size.
pub is_disabled : Writeset → Bool
is_disabled ws = has_bit 63 ws.size_bytes

-- `sivfs_disable_ws`. On error the size stays as the function left it.
pub set_disabled : Writeset → Bool → Rc × Writeset
set_disabled ws true =
    if not (ws.size_bytes == 0)
    then (einval, ws)
    else (ok, record ws { size_bytes = set_bit 63 ws.size_bytes })
set_disabled ws false =
    let cleared = record ws { size_bytes = clear_bit 63 ws.size_bytes } in
    if not (clear_bit 63 ws.size_bytes == 0) then (einval, cleared) else (ok, cleared)

-- `sivfs_writeset_copy`, which returns the new destination.
unfoldable pub copy : Writeset → Writeset → Writeset
copy dest src =
    if ltb dest.capacity_bytes src.size_bytes then record dest { size_bytes = 0 } else record dest {
      size_bytes = src.size_bytes;
      entries = write_at 0 (take (src.size_bytes / 8) src.entries) dest.entries;
    }

-- `kzalloc` of a number of bytes succeeds.
module _ (grants : ℕ → Bool) where
  -- The branch of `sivfs_writeset_reserve` that allocates; the new buffer is zeroed.
  grow : Writeset → ℕ → Rc × Writeset
  grow ws cap =
      if grants cap
      then (
        ok,
        record ws {
          capacity_bytes = cap;
          entries = write_at 0 (take (ws.size_bytes / 8) ws.entries) (replicate (cap / 8) 0);
        },
      )
      else (enomem, ws)

  -- `sivfs_writeset_reserve`
  pub reserve : Writeset → ℕ → Rc × Writeset
  reserve ws new_capacity =
      if leb ws.capacity_bytes new_capacity
      then grow ws (max3 (mul64 ws.capacity_bytes 2) (4 * entry_min_size) new_capacity)
      else (ok, ws)

-- The copy of an entry of `size` bytes behind those in use, made if the reservation succeeded.
put : List ℕ → ℕ → Rc × Writeset → Rc × Writeset
put mem size (ok, ws) = (
  ok,
  record ws {
    size_bytes = add64 ws.size_bytes size;
    entries = write_at (ws.size_bytes / 8) (take (size / 8) mem) ws.entries;
  },
)
put mem size (rc, ws) = (rc, ws)

module _ (grants : ℕ → Bool) where
  add_sized : Writeset → List ℕ → Option StreamInfo → Rc × Writeset
  add_sized ws mem none = (einval, ws)
  add_sized ws mem (some info) =
      put mem (wse_size info) (reserve grants ws (add64 ws.size_bytes (wse_size info)))

  -- `sivfs_add_to_writeset` of the entry whose words are `mem`; word 3 is its control word. (The
  -- warning about a large commit has no effect.)
  pub add : Writeset → List ℕ → (size : ℕ) → Rc × Writeset
  add ws mem size =
      if is_disabled ws then (ok, ws) else add_sized ws mem (to_stream_info (get_or mem 3 0) size)
