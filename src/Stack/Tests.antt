-- ===== src/Stack/Tests.antt =====
-- Tests of kern/sivfs_stack.h at concrete inputs.
use sivfs_public.Base.{Outcome, ℕ, ◌^◌, ◌≡◌, refl, [], ◌∷◌, Bool, leb, leb→le, arith, ok, enomem}
use sivfs_public.Common.{max3}
use sivfs_public.Common.{IsBounded}
use sivfs_public.Stack.{Stack, empty, reserve, push, push_all, pop, remove}
use sivfs_public.Stack.Inv.{IsValid, Reserved, reserve-Outcome}
use sivfs_public.Stack.Refine.{Holds, push_all-Outcome}
use sivfs_public.Stack.Remove.{copy_within}

-- A machine that serves requests of up to 2 ^ 30 bytes.
abbrev serves : ℕ → Bool
serves n = leb n (2 ^ 30)

serves-IsBounded : IsBounded serves
serves-IsBounded n h = omega (arith, leb→le n (2 ^ 30) h)

abbrev three : Stack
three = record { size = 3; capacity = 4; values = 7 ∷ 8 ∷ 9 ∷ 0 ∷ [] }

three-IsValid : IsValid three
three-IsValid = record { size_in = omega arith; buffer = refl; small = omega arith }

-- The fourth push grows the buffer, since the test is `>=`.
push-grows :
    push serves three 5
    ≡ (ok, record { size = 4; capacity = 8; values = 7 ∷ 8 ∷ 9 ∷ 5 ∷ 0 ∷ 0 ∷ 0 ∷ 0 ∷ [] })
unfolding push reserve max3
push-grows = refl

push-no_memory : push (λ n. leb n 32) three 5 ≡ (enomem, three)
unfolding push reserve max3
push-no_memory = refl

pop-empty : pop empty ≡ (0, empty)
unfolding pop
pop-empty = refl

reserve-Outcome_example : Outcome (Reserved three 10) three (reserve serves three 10)
reserve-Outcome_example =
    reserve-Outcome serves serves-IsBounded three 10 three-IsValid (omega arith)

push_all-Outcome_example :
    Outcome (Holds (7 ∷ 8 ∷ 9 ∷ 7 ∷ 8 ∷ 9 ∷ [])) three (push_all serves three three)
push_all-Outcome_example =
    push_all-Outcome serves serves-IsBounded three three three-IsValid three-IsValid

three-push-ok : (push serves three 5).0 ≡ ok
unfolding push reserve max3
three-push-ok = refl

remove-second : (remove copy_within three 1).size ≡ 2
unfolding remove
remove-second = refl
