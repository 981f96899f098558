-- ===== src/Stack/Refine.antt =====
-- A valid stack of kern/sivfs_stack.h behaves as the list of what it holds.
use sivfs_public.Base.{
  Outcome, ok-Outcome, ℕ, zero, suc, ◌+◌, ◌^◌, ◌≤◌, ◌<◌, ◌≡◌, sym, ◌∙◌, ap, subst, Bool, List, [],
  ◌∷◌, ◌++◌, arith, length, set, get_or, take, length-set, length-append, take-set_end, take-suc,
  add64, Rc, ok,
}
use mathlib.Core.List.{append-nil, append_assoc}
use sivfs_public.Common.{IsBounded}
use sivfs_public.Stack.{Stack, put, push, push_loop, put_all, push_all, pop, peek}
use sivfs_public.Stack.Inv.{IsValid, contents, Reserved, reserve-Outcome, length-contents}

-- A valid stack that holds the given list.
pub record Holds (xs : List ℕ) (s : Stack) : Type 0 where
  pub valid : IsValid s
  pub holds : contents s ≡ xs

-- On a stack with room for one more, the write of `sivfs_stack_push` appends.
append-Holds :
    {xs : List ℕ} {s : Stack} (x : ℕ)
    → Holds xs s
    → suc s.size ≤ s.capacity
    → Holds (xs ++ (x ∷ [])) (record s { size = add64 s.size 1; values = set s.values s.size x })
append-Holds {xs} {s} x h room = record {
  valid = record {
    size_in = omega (arith, room, h.valid.small);
    buffer = omega (arith, length-set s.values s.size x, h.valid.buffer);
    small = h.valid.small;
  };
  holds =
      ap (λ n. take n (set s.values s.size x)) more
      ∙ take-set_end s.size s.values x (omega (arith, h.valid.buffer, room))
      ∙ ap (λ l. l ++ (x ∷ [])) h.holds;
}
  where
    more : add64 s.size 1 ≡ suc s.size
    more = omega (arith, room, h.valid.small)

put-Outcome :
    (s : Stack) (x n : ℕ) (r : Rc × Stack)
    → s.size < n
    → Outcome (Reserved s n) s r
    → Outcome (Holds (contents s ++ (x ∷ []))) s (put x r)
unfolding put
put-Outcome s x n (ok, s') lt o =
    append-Holds x (record { valid = o.valid; holds = o.same }) (omega (arith, o.room, o.same_size))
put-Outcome s x n (rc, s') lt o = o

-- Each round of the loop of `sivfs_stack_push_all` appends one more value of the source.
push_loop-Holds :
    (left i : ℕ) (src dest : Stack) (xs : List ℕ)
    → IsValid src
    → i + left ≡ src.size
    → Holds (xs ++ take i src.values) dest
    → dest.size + left ≤ dest.capacity
    → Holds (xs ++ contents src) (push_loop left i src dest)
unfolding push_loop
push_loop-Holds zero i src dest xs v e h room =
    subst (λ n. Holds (xs ++ take n src.values) dest) (omega arith) h
push_loop-Holds (suc left) i src dest xs v e h room =
    push_loop-Holds left (suc i) src _ xs v (omega arith) next (omega (arith, h.valid.small))
  where
    x : ℕ
    x = get_or src.values i 0

    grown : (xs ++ take i src.values) ++ (x ∷ []) ≡ xs ++ take (suc i) src.values
    grown =
        append_assoc xs (take i src.values) (x ∷ [])
        ∙ ap (λ l. xs ++ l) (sym (take-suc i src.values 0 (omega (arith, v.buffer, v.size_in))))

    next :
        Holds
          (xs ++ take (suc i) src.values)
          (record dest { size = add64 dest.size 1; values = set dest.values dest.size x })
    next =
        subst
          (λ l.
            Holds l
              (record dest { size = add64 dest.size 1; values = set dest.values dest.size x }))
          grown (append-Holds x h (omega arith))

put_all-Outcome :
    (src dest : Stack) (n : ℕ) (r : Rc × Stack)
    → IsValid src
    → dest.size + src.size ≤ n
    → Outcome (Reserved dest n) dest r
    → Outcome (Holds (contents dest ++ contents src)) dest (put_all src r)
unfolding put_all
put_all-Outcome src dest n (ok, s') v le o =
    push_loop-Holds src.size 0 src s' (contents dest) v (omega arith)
      (record { valid = o.valid; holds = o.same ∙ sym (append-nil (contents dest)) })
      (omega (arith, o.room, o.same_size))
put_all-Outcome src dest n (rc, s') v le o = o

module _ (grants : ℕ → Bool) (bounded : IsBounded grants) where
  -- `sivfs_stack_push` on a valid stack either appends the value, leaving a valid stack, or reports
  -- ENOMEM and changes nothing.
  pub push-Outcome :
      (s : Stack) (x : ℕ) → IsValid s → Outcome (Holds (contents s ++ (x ∷ []))) s (push grants s x)
  unfolding push
  push-Outcome s x v =
      put-Outcome s x _ _ (omega (arith, v.size_in, v.small))
        (reserve-Outcome grants bounded s _ v (omega (arith, v.size_in, v.small)))

  -- `sivfs_stack_push_all` on valid stacks either appends all that the source holds, in order,
  -- leaving a valid stack, or reports ENOMEM and changes nothing.
  pub push_all-Outcome :
      (dest src : Stack)
      → IsValid dest
      → IsValid src
      → Outcome (Holds (contents dest ++ contents src)) dest (push_all grants dest src)
  unfolding push_all
  push_all-Outcome dest src v w =
      put_all-Outcome src dest _ _ w (omega (arith, v.size_in, v.small, w.size_in, w.small)) (
        reserve-Outcome grants bounded dest _ v
          (omega (arith, v.size_in, v.small, w.size_in, w.small)))

-- `sivfs_stack_pop` and `sivfs_stack_peek` at `n + 1` entries.
pop-suc :
    (s : Stack) (n : ℕ)
    → s.size ≡ suc n
    → n < 2 ^ 63
    → (pop s ≡ (get_or s.values n 0, record s { size = n })) × (peek s ≡ get_or s.values n 0)
unfolding pop peek
pop-suc s n e h = ground arith

last_of_take :
    (xs : List ℕ) (x : ℕ) (vs : List ℕ)
    → take (suc (length xs)) vs ≡ xs ++ (x ∷ [])
    → (take (length xs) vs ≡ xs) × (get_or vs (length xs) 0 ≡ x)
last_of_take [] x [] h = ground arith
last_of_take [] x (v ∷ vs) h = ground arith
last_of_take (y ∷ xs) x [] h = ground arith
last_of_take (y ∷ xs) x (v ∷ vs) h = ground (arith, last_of_take xs x vs)

-- `sivfs_stack_pop` of a valid stack that holds `xs` and then `x` is `x`, and leaves `xs`.
pop-Holds :
    (xs : List ℕ) (x : ℕ) (s : Stack)
    → Holds (xs ++ (x ∷ [])) s
    → (peek s ≡ x) × ((pop s).0 ≡ x) × Holds xs (pop s).1
pop-Holds xs x s h = (
  step.1 ∙ last.1,
  ap (λ (p : ℕ × Stack). p.0) step.0 ∙ last.1,
  subst (Holds xs) (sym (ap (λ (p : ℕ × Stack). p.1) step.0)) (record {
    valid = record {
      size_in = omega (arith, size, h.valid.size_in);
      buffer = h.valid.buffer;
      small = h.valid.small;
    };
    holds = last.0;
  }),
)
  where
    size : s.size ≡ suc (length xs)
    size =
        sym (length-contents h.valid) ∙ ap length h.holds ∙ omega (arith, length-append xs (x ∷ []))

    last : (take (length xs) s.values ≡ xs) × (get_or s.values (length xs) 0 ≡ x)
    last = last_of_take xs x s.values (ap (λ n. take n s.values) (sym size) ∙ h.holds)

    step :
        (pop s ≡ (get_or s.values (length xs) 0, record s { size = length xs }))
        × (peek s ≡ get_or s.values (length xs) 0)
    step = pop-suc s (length xs) size (omega (arith, size, h.valid.size_in, h.valid.small))

-- After a successful push, `sivfs_stack_peek` and `sivfs_stack_pop` give the value pushed, and the
-- popped stack is valid and holds what was held before.
pub pop-push :
    (grants : ℕ → Bool)
    → IsBounded grants
    → (s : Stack) (x : ℕ) → IsValid s
    → (push grants s x).0 ≡ ok
    → let s' = (push grants s x).1 in
      (peek s' ≡ x) × ((pop s').0 ≡ x) × Holds (contents s) (pop s').1
pop-push grants bounded s x v e =
    pop-Holds (contents s) x _ (ok-Outcome _ s _ e (push-Outcome grants bounded s x v))
