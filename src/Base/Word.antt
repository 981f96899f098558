-- ===== src/Base/Word.antt =====
-- 64-bit unsigned words (`size_t`, `unsigned long`, `uint64_t`, `sivfs_ts`) as native numbers: sums,
-- differences and products wrap, and single bits are read and written by arithmetic.
use Prim.Native.Nat.{ℕ, ◌+◌, ◌-◌, ◌*◌, ◌/◌, ◌%◌, ◌^◌}
use mathlib.Core.Bool.{Bool}
use sivfs_public.Base.Tests.{◌==◌, if◌then◌else◌}

abbrev pub word_mod : ℕ
word_mod = 2 ^ 64

abbrev pub add64 : ℕ → ℕ → ℕ
add64 a b = (a + b) % word_mod

-- `-` on ℕ stops at 0, so the modulus is added first.
abbrev pub sub64 : ℕ → ℕ → ℕ
sub64 a b = (a + word_mod - b) % word_mod

abbrev pub mul64 : ℕ → ℕ → ℕ
mul64 a b = a * b % word_mod

-- `(x & (1 << k)) != 0`
abbrev pub has_bit : ℕ → ℕ → Bool
has_bit k x = x / 2 ^ k % 2 == 1

-- `x | (1 << k)`
abbrev pub set_bit : ℕ → ℕ → ℕ
set_bit k x = if has_bit k x then x else x + 2 ^ k

-- `x & ~(1 << k)`
abbrev pub clear_bit : ℕ → ℕ → ℕ
clear_bit k x = if has_bit k x then x - 2 ^ k else x
