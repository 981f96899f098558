-- ===== src/Stack/Remove.antt =====
-- `sivfs_stack_remove` of kern/sivfs_stack.h.
use sivfs_public.Base.{
  ℕ, zero, suc, ◌+◌, ◌≤◌, ◌<◌, ◌≡◌, refl, ◌∙◌, ap, subst, List, [], ◌∷◌, arith, length, set, get_or,
  take, erase_idx, length-set, sub64, lt→leb, le→leb,
}
use sivfs_public.Stack.{Stack, remove}
use sivfs_public.Stack.Inv.{IsValid, contents}
use sivfs_public.Stack.Refine.{Holds}

-- A copy of `n` words within a buffer that reads each word before it is overwritten, as `memmove` does
-- for a move to lower addresses.
pub copy_within : (n to from : ℕ) → List ℕ → List ℕ
copy_within zero to from vs = vs
copy_within (suc n) to from vs = copy_within n (suc to) (suc from) (set vs to (get_or vs from 0))

length-copy_within : (n to from : ℕ) (vs : List ℕ) → length (copy_within n to from vs) ≡ length vs
unfolding copy_within
length-copy_within zero to from vs = refl
length-copy_within (suc n) to from vs =
    length-copy_within n (suc to) (suc from) (set vs to (get_or vs from 0))
    ∙ length-set vs to (get_or vs from 0)

-- Above the first word, a copy is a copy in the rest.
copy_within-cons :
    (n to from v : ℕ) (vs : List ℕ)
    → copy_within n (suc to) (suc from) (v ∷ vs) ≡ v ∷ copy_within n to from vs
unfolding copy_within
copy_within-cons zero to from v vs = refl
copy_within-cons (suc n) to from v vs =
    copy_within-cons n (suc to) (suc from) v (set vs to (get_or vs from 0))

shift_all :
    (n v : ℕ) (vs : List ℕ) → n ≤ length vs → take n (copy_within n 0 1 (v ∷ vs)) ≡ take n vs
unfolding copy_within
shift_all zero v vs h = refl
shift_all (suc n) v [] h = absurd (omega arith)
shift_all (suc n) v (w ∷ vs) h =
    ap (take (suc n)) (copy_within-cons n 0 1 w (w ∷ vs))
    ∙ ap (λ l. w ∷ l) (shift_all n w vs (omega arith))

shift_from :
    (n i m : ℕ) (vs : List ℕ)
    → m ≡ i + n
    → m < length vs
    → take m (copy_within n i (suc i) vs) ≡ erase_idx (take (suc m) vs) i
shift_from n i m [] e h = elim h [ ]
shift_from n zero m (v ∷ vs) e h =
    subst (λ k. take k (copy_within n 0 1 (v ∷ vs)) ≡ take k vs) (omega arith)
      (shift_all n v vs (omega arith))
shift_from n (suc i) zero (v ∷ vs) e h = absurd (omega arith)
shift_from n (suc i) (suc m) (v ∷ vs) e h =
    ap (take (suc m)) (copy_within-cons n i (suc i) v vs)
    ∙ ap (λ l. v ∷ l) (shift_from n i m vs (omega arith) (omega arith))

-- With a `memcpy` that copes with the overlap, below the size `sivfs_stack_remove` takes out the entry at
-- the index and moves the later ones down by one; from the size on it changes nothing.
pub remove-Holds :
    (s : Stack) (i : ℕ)
    → IsValid s
    → (i < s.size → Holds (erase_idx (contents s) i) (remove copy_within s i))
      × (s.size ≤ i → remove copy_within s i ≡ s)
unfolding remove
remove-Holds s i v = (λ h. rw (lt→leb _ _ h) (removed h), λ h. rw (le→leb _ _ h))
  where
    removed :
        i < s.size
        → Holds (erase_idx (contents s) i) (record s {
          size = sub64 s.size 1;
          values = copy_within (sub64 (sub64 s.size i) 1) i (suc i) s.values;
        })
    removed h = record {
      valid = record {
        size_in = omega (arith, v.size_in, v.small, h);
        buffer = length-copy_within (sub64 (sub64 s.size i) 1) i (suc i) s.values ∙ v.buffer;
        small = v.small;
      };
      holds =
          shift_from (sub64 (sub64 s.size i) 1) i (sub64 s.size 1) s.values
            (omega (arith, h, v.size_in, v.small)) (omega (arith, h, v.size_in, v.small, v.buffer))
          ∙ ap (λ n. erase_idx (take n s.values) i) {x = suc (sub64 s.size 1)}
              (omega (arith, h, v.size_in, v.small));
    }
