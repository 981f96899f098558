-- ===== src/Stack/Inv.antt =====
-- The representation invariant of the stack of kern/sivfs_stack.h, and that its functions keep it.
use sivfs_public.Base.{
  ℕ, ◌/◌, ◌^◌, ◌≤◌, ◌≡◌, refl, ◌∙◌, Bool, List, arith, leb, inl, inr, Bool-cases, length,
  take-append_left, take-take, take, drop, replicate, length-append, length-take, length-drop,
  length-replicate, mul64, Outcome,
}
use sivfs_public.Common.{IsBounded, max3_lem}
use sivfs_public.Stack.{Stack, empty, copy_words, grow, reserve}

pub record IsValid (s : Stack) : Type 0 where
  pub size_in : s.size ≤ s.capacity
  pub buffer : length s.values ≡ s.capacity
  pub small : s.capacity ≤ 2 ^ 44

-- What the stack holds, oldest first.
abbrev pub contents : Stack → List ℕ
contents s = take s.size s.values

pub empty-IsValid : IsValid empty
empty-IsValid = record { size_in = omega arith; buffer = refl; small = omega arith }

pub length-contents : {s : Stack} → IsValid s → length (contents s) ≡ s.size
length-contents {s} v = omega (arith, length-take s.size s.values, v.size_in, v.buffer)

-- A copy to the start of a buffer keeps the words copied.
take-copy_words :
    (n : ℕ) (src dst : List ℕ) → n ≤ length src → take n (copy_words n src dst) ≡ take n src
take-copy_words n src dst h =
    take-append_left n (take n src) (drop n dst) (omega (arith, length-take n src))
    ∙ take-take n src

length-copy_words :
    (n : ℕ) (src dst : List ℕ)
    → n ≤ length src
    → n ≤ length dst
    → length (copy_words n src dst) ≡ length dst
length-copy_words n src dst h k =
    omega (arith, length-append (take n src) (drop n dst), length-take n src, length-drop n dst)

-- What a successful `sivfs_stack_reserve` leaves.
pub record Reserved (s : Stack) (n : ℕ) (s' : Stack) : Type 0 where
  pub valid : IsValid s'
  pub room : n ≤ s'.capacity
  pub same_size : s'.size ≡ s.size
  pub same : contents s' ≡ contents s

module _ (grants : ℕ → Bool) (bounded : IsBounded grants) where
  grow-Outcome :
      (s : Stack) (n cap : ℕ)
      → IsValid s
      → s.capacity ≤ cap
      → n ≤ cap
      → cap ≤ 2 ^ 60
      → Outcome (Reserved s n) s (grow grants s cap)
  unfolding grow
  grow-Outcome s n cap v a b c = elim (Bool-cases (grants (mul64 cap 8))) [
    | inr failed ↦ rw failed refl
    | inl granted ↦ rw granted (record {
      valid = record {
        size_in = omega (arith, v.size_in);
        buffer =
            omega (arith, fits, length-copy_words s.size s.values (replicate (mul64 cap 8 / 8) 0));
        small = omega (arith, bounded _ granted);
      };
      room = b;
      same_size = refl;
      same = take-copy_words s.size s.values _ (omega (arith, v.size_in, v.buffer));
    })
  ]
    where
      fits : length (replicate {A = ℕ} (mul64 cap 8 / 8) 0) ≡ cap
      fits = omega (arith, length-replicate {A = ℕ} (mul64 cap 8 / 8) 0)

  -- `sivfs_stack_reserve` of up to 2 ^ 60 entries on a valid stack.
  pub reserve-Outcome :
      (s : Stack) (n : ℕ) → IsValid s → n ≤ 2 ^ 60 → Outcome (Reserved s n) s (reserve grants s n)
  unfolding reserve
  reserve-Outcome s n v h = elim (Bool-cases (leb s.capacity n)) [
    | inl short ↦ rw short (
        grow-Outcome s n _ v (omega (arith, max3_lem (mul64 s.capacity 2) 4 n, v.small))
          (omega (arith, max3_lem (mul64 s.capacity 2) 4 n, v.small))
          (omega (arith, max3_lem (mul64 s.capacity 2) 4 n, v.small)))
    | inr enough ↦
        rw enough (record { valid = v; room = ground arith; same_size = refl; same = refl })
  ]
