-- ===== src/Base/Codes.antt =====
-- The return code of the C functions, 0 or a negated errno, and how a function that returns one with
-- its new state may end.
use mathlib.Core.Bool.{Bool, true, false}
use mathlib.Core.Path.{◌≡◌, refl}

pub data Rc : Type 0 where
  ok einval enomem eexist eagain eintr : Rc

-- `if (rc)`
abbrev pub failed : Rc → Bool
failed ok = false
failed einval = true
failed enomem = true
failed eexist = true
failed eagain = true
failed eintr = true

pub not_failed : (rc : Rc) → failed rc ≡ false → rc ≡ ok
not_failed ok e = refl
not_failed einval e = cc
not_failed enomem e = cc
not_failed eexist e = cc
not_failed eagain e = cc
not_failed eintr e = cc

module _ {A : Type 0} where
  -- How a function that may run out of memory ends: with `ok` in a state of which `P` holds, or with
  -- ENOMEM and its state untouched, and in no other way.
  abbrev pub Outcome : (A → Type 0) → A → Rc × A → Type 0
  Outcome P s (ok, s') = P s'
  Outcome P s (enomem, s') = s' ≡ s
  Outcome P s (rc, s') = ⊥

  pub ok-Outcome : (P : A → Type 0) (s : A) (r : Rc × A) → r.0 ≡ ok → Outcome P s r → P r.1
  ok-Outcome P s (ok, s') e o = o
  ok-Outcome P s (einval, s') e o = absurd o
  ok-Outcome P s (enomem, s') e o = cc
  ok-Outcome P s (eexist, s') e o = absurd o
  ok-Outcome P s (eagain, s') e o = absurd o
  ok-Outcome P s (eintr, s') e o = absurd o
