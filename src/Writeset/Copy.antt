-- ===== src/Writeset/Copy.antt =====
-- `sivfs_writeset_copy` of kern/sivfs_writeset.h.
use sivfs_public.Base.{
  ℕ, ◌+◌, ◌*◌, ◌/◌, ◌≤◌, ◌≡◌, ◌∙◌, List, arith, length, le→ltb, length-write_at, take-write_at,
}
use sivfs_public.Writeset.{Writeset, copy}
use sivfs_public.Writeset.Append.{IsValid, used, Holds, length-used}

-- A copy into a destination whose buffer has room for what is in use of the source holds the same.
pub copy-Holds :
    (ms : List ℕ) (dest src : Writeset)
    → Holds ms src
    → 8 * length dest.entries ≡ dest.capacity_bytes
    → src.size_bytes ≤ dest.capacity_bytes
    → dest.capacity_bytes ≤ src.capacity_bytes
    → Holds ms (copy dest src)
unfolding copy
copy-Holds ms dest src h buffer room small = rw (le→ltb _ _ room) (record {
  valid = record {
    size_in = room;
    aligned = v.aligned;
    buffer = omega (arith, length-write_at 0 (used src) dest.entries fits, buffer);
    small = omega (arith, v.small);
  };
  holds =
      take-write_at 0 (src.size_bytes / 8) (used src) dest.entries (omega arith)
        (omega (arith, length-used v))
      ∙ h.holds;
})
  where
    v : IsValid src
    v = h.valid

    fits : 0 + length (used src) ≤ length dest.entries
    fits = omega (arith, length-used v, v.aligned)
