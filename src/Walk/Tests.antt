-- ===== src/Walk/Tests.antt =====
-- Tests of the walk over a writeset at concrete inputs.
use sivfs_public.Base.{ℕ, ◌^◌, ◌≡◌, refl, ◌⊎◌, List, [], ◌∷◌, arith, leb, leb→le, ok, enomem, Bool}
use sivfs_public.Common.{IsBounded}
use sivfs_public.Writeset.{empty}
use sivfs_public.Writeset.Entry.{Entry, plain}
use sivfs_public.Samples.{left, right}
use sivfs_public.Walk.{Ended, walk_all}
use sivfs_public.Walk.Readback.{collect, headers, add_all, add_all-walk_all}

abbrev serves : ℕ → Bool
serves n = leb n (2 ^ 20)

serves-IsBounded : IsBounded serves
serves-IsBounded n h = omega (arith, leb→le n (2 ^ 20) h)

abbrev both : List Entry
both = left ∷ right ∷ []

add_all-walk_all_example :
    ((add_all serves both empty).0 ≡ enomem)
    ⊎ (((add_all serves both empty).0 ≡ ok)
        × (walk_all collect (add_all serves both empty).1 [] ≡ Ended.done (headers both)))
add_all-walk_all_example =
    add_all-walk_all serves serves-IsBounded both (plain refl refl, (plain refl refl, tt))
