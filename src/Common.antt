-- ===== src/Common.antt =====
-- kern/sivfs_common.h and kern/sivfs_types.h: maxima of sizes, and timestamps with a dirty bit.
mod Tests
use sivfs_public.Base.{
  ℕ, ◌-◌, ◌+◌, ◌^◌, ◌≤◌, ◌<◌, ◌≡◌, ◌⊎◌, Bool, true, ◌&&◌, arith, leb, has_bit, set_bit, clear_bit,
  if◌then◌else◌,
}

-- `max3_size_t`
unfoldable pub max3 : ℕ → ℕ → ℕ → ℕ
max3 a b c = if leb b a && leb c a then a else if leb a b && leb c b then b else c

-- `max2_size_t`
unfoldable pub max2 : ℕ → ℕ → ℕ
max2 a b = if leb b a then a else b

-- `SIVFS_INVALID_TS`, the largest timestamp.
abbrev pub invalid_ts : ℕ
invalid_ts = 2 ^ 64 - 1

-- `sivfs_ts_is_dirty`: bit 63.
unfoldable pub ts_is_dirty : ℕ → Bool
ts_is_dirty ts = has_bit 63 ts

-- `sivfs_ts_unset_dirty`
unfoldable pub ts_unset_dirty : ℕ → ℕ
ts_unset_dirty ts = clear_bit 63 ts

-- `sivfs_ts_set_dirty`
unfoldable pub ts_set_dirty : ℕ → ℕ
ts_set_dirty ts = set_bit 63 ts

-- An allocator of the kernel (`kzalloc`, `vzalloc`), told as the set of the requests that it serves, serves
-- at most 2 ^ 47 bytes: the kernel's half of the address space.
abbrev pub IsBounded : (ℕ → Bool) → Type 0
IsBounded grants = (n : ℕ) → grants n ≡ true → n ≤ 2 ^ 47

-- The maximum is one of the three, and none is above it.
pub max3_lem :
    (a b c : ℕ)
    → ((max3 a b c ≡ a) ⊎ ((max3 a b c ≡ b) ⊎ (max3 a b c ≡ c)))
      × (a ≤ max3 a b c)
      × (b ≤ max3 a b c)
      × (c ≤ max3 a b c)
unfolding max3
max3_lem a b c = grind arith

pub max2_lem : (a b : ℕ) → ((max2 a b ≡ a) ⊎ (max2 a b ≡ b)) × (a ≤ max2 a b) × (b ≤ max2 a b)
unfolding max2
max2_lem a b = grind arith

-- On a 64-bit timestamp, setting the dirty bit makes it dirty, setting it again changes nothing, and
-- clearing it gives the timestamp back without its own dirty bit, below `2 ^ 63`; a timestamp below
-- `2 ^ 63` comes back whole.
pub dirty-roundtrip :
    (ts : ℕ)
    → ts < 2 ^ 64
    → (ts_is_dirty (ts_set_dirty ts) ≡ true)
      × (ts_set_dirty (ts_set_dirty ts) ≡ ts_set_dirty ts)
      × (ts_unset_dirty (ts_set_dirty ts) ≡ ts_unset_dirty ts)
      × (ts_unset_dirty ts < 2 ^ 63)
      × (ts_set_dirty ts < 2 ^ 64)
      × (ts < 2 ^ 63 → ts_unset_dirty (ts_set_dirty ts) ≡ ts)
unfolding ts_is_dirty ts_set_dirty ts_unset_dirty
dirty-roundtrip ts h =
    (ground arith, ground arith, ground arith, ground arith, ground arith, λ small. ground arith)
