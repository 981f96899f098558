-- ===== src/Writeset/Append.antt =====
-- The invariant of `struct sivfs_writeset` of kern/sivfs_writeset.h, and what
-- `sivfs_add_to_writeset` appends.
use sivfs_public.Base.{
  ℕ, ◌+◌, ◌*◌, ◌/◌, ◌^◌, ◌≤◌, ◌≡◌, refl, ◌∙◌, ap, ap₂, Bool, false, List, [], ◌++◌, arith, leb, inl,
  inr, Bool-cases, length, take, replicate, length-take, length-replicate, length-write_at,
  take-write_at, take-length, add64, mul64, has_bit, Rc, ok, Outcome,
}
use sivfs_public.Common.{IsBounded, max3_lem}
use sivfs_public.Writeset.{
  Writeset, empty, wse_size, grow, reserve, put, add_sized, add, is_disabled,
}
use sivfs_public.Writeset.Entry.{
  Entry, IsEntry, words, bytes, bytes-lt, info_of, wse_size-info_of, to_stream_info-info_of,
}

pub record IsValid (ws : Writeset) : Type 0 where
  pub size_in : ws.size_bytes ≤ ws.capacity_bytes
  pub aligned : ws.size_bytes ≡ 8 * (ws.size_bytes / 8)
  pub buffer : 8 * length ws.entries ≡ ws.capacity_bytes
  pub small : ws.capacity_bytes ≤ 2 ^ 47

-- The words in use.
abbrev pub used : Writeset → List ℕ
used ws = take (ws.size_bytes / 8) ws.entries

-- A valid writeset whose words in use are the given ones.
pub record Holds (ms : List ℕ) (ws : Writeset) : Type 0 where
  pub valid : IsValid ws
  pub holds : used ws ≡ ms

-- What a successful `sivfs_writeset_reserve` leaves.
pub record Reserved (ws : Writeset) (n : ℕ) (ws' : Writeset) : Type 0 where
  pub valid : IsValid ws'
  pub room : n ≤ ws'.capacity_bytes
  pub same_size : ws'.size_bytes ≡ ws.size_bytes
  pub same : used ws' ≡ used ws

pub empty-Holds : Holds [] empty
empty-Holds = record {
  valid = record {
    size_in = omega arith;
    aligned = omega arith;
    buffer = omega arith;
    small = omega arith;
  };
  holds = refl;
}

pub length-used : {ws : Writeset} → IsValid ws → length (used ws) ≡ ws.size_bytes / 8
length-used {ws} v = omega (arith, length-take (ws.size_bytes / 8) ws.entries, v.size_in, v.buffer)

-- Into a buffer with room for it, `size` bytes of an entry are copied behind the words in use.
put-Outcome :
    (ws : Writeset) (mem : List ℕ) (size n : ℕ) (r : Rc × Writeset)
    → size ≡ 8 * length mem
    → ws.size_bytes + size ≤ n
    → Outcome (Reserved ws n) ws r
    → Outcome (Holds (used ws ++ mem)) ws (put mem size r)
unfolding put
put-Outcome ws mem size n (ok, ws') e room o = record {
  valid = record {
    size_in = omega (arith, v.size_in, v.small, o.room, o.same_size);
    aligned = omega (arith, more, v.aligned);
    buffer = omega (arith, length-write_at (ws'.size_bytes / 8) part ws'.entries fits, v.buffer);
    small = v.small;
  };
  holds =
      take-write_at (ws'.size_bytes / 8) _ part ws'.entries (omega (arith, v.size_in, v.buffer))
        (omega (arith, more, v.aligned, ap length whole))
      ∙ ap₂ ◌++◌ o.same whole;
}
  where
    v : IsValid ws'
    v = o.valid

    part : List ℕ
    part = take (size / 8) mem

    whole : part ≡ mem
    whole = ap (λ k. take k mem) (omega arith) ∙ take-length mem

    more : add64 ws'.size_bytes size ≡ ws'.size_bytes + size
    more = omega (arith, v.size_in, v.small, o.room, o.same_size)

    fits : ws'.size_bytes / 8 + length part ≤ length ws'.entries
    fits = omega (arith, ap length whole, v.buffer, v.aligned, o.room, o.same_size)
put-Outcome ws mem size n (rc, ws') e room o = o

module _ (grants : ℕ → Bool) (bounded : IsBounded grants) where
  grow-Outcome :
      (ws : Writeset) (n cap : ℕ)
      → IsValid ws
      → ws.capacity_bytes ≤ cap
      → n ≤ cap
      → cap ≡ 8 * (cap / 8)
      → Outcome (Reserved ws n) ws (grow grants ws cap)
  unfolding grow
  grow-Outcome ws n cap v a b c = elim (Bool-cases (grants cap)) [
    | inr refused ↦ rw refused refl
    | inl granted ↦ rw granted (record {
      valid = record {
        size_in = omega (arith, v.size_in);
        aligned = v.aligned;
        buffer = omega (
          arith,
          c,
          length-write_at 0 kept (replicate (cap / 8) 0) fits,
          length-replicate {A = ℕ} (cap / 8) 0,
        );
        small = bounded _ granted;
      };
      room = b;
      same_size = refl;
      same =
          take-write_at 0 (ws.size_bytes / 8) kept (replicate (cap / 8) 0) (omega arith)
            (omega (arith, length-used v));
    })
  ]
    where
      kept : List ℕ
      kept = used ws

      fits : 0 + length kept ≤ length (replicate {A = ℕ} (cap / 8) 0)
      fits = omega (arith, length-used v, length-replicate {A = ℕ} (cap / 8) 0, v.size_in)

  -- `sivfs_writeset_reserve` of a whole number of words, fewer than 2 ^ 60 bytes.
  pub reserve-Outcome :
      (ws : Writeset) (n : ℕ)
      → IsValid ws
      → n ≡ 8 * (n / 8)
      → Outcome (Reserved ws n) ws (reserve grants ws n)
  unfolding reserve
  reserve-Outcome ws n v h = elim (Bool-cases (leb ws.capacity_bytes n)) [
    | inl short ↦ rw short (
        grow-Outcome ws n _ v
          (omega (arith, max3_lem (mul64 ws.capacity_bytes 2) 160 n, v.small, v.buffer))
          (omega (arith, max3_lem (mul64 ws.capacity_bytes 2) 160 n, v.small, v.buffer))
          (omega (arith, max3_lem (mul64 ws.capacity_bytes 2) 160 n, v.small, v.buffer, h)))
    | inr enough ↦
        rw enough (record { valid = v; room = ground arith; same_size = refl; same = refl })
  ]

  -- `sivfs_add_to_writeset` of a well-formed entry, told of all its bytes, to an enabled writeset
  -- either appends exactly the words of the entry, or reports ENOMEM and changes nothing.
  pub add-Outcome :
      (ws : Writeset) (e : Entry) (size : ℕ)
      → IsValid ws
      → IsEntry e
      → bytes e ≤ size
      → Outcome (Holds (used ws ++ words e)) ws (add grants ws (words e) size)
  unfolding add add_sized is_disabled
  add-Outcome ws e size v w fits =
      rw (enabled, to_stream_info-info_of w size fits)
        (put-Outcome ws (words e) (wse_size (info_of w)) _ _ (omega (arith, wse_size-info_of w))
          (omega (arith, wse_size-info_of w, bytes-lt w, v.size_in, v.small))
          (reserve-Outcome ws (add64 ws.size_bytes (wse_size (info_of w))) v
            (omega (arith, wse_size-info_of w, bytes-lt w, v.size_in, v.small, v.aligned))))
    where
      enabled : has_bit 63 ws.size_bytes ≡ false
      enabled = ground (arith, v.size_in, v.small)
