-- ===== src/Stack.antt =====
-- kern/sivfs_stack.h, the stack as a dynamic array, in its kernel build. A function that changes
-- `*stack` returns its return code and the new stack. What `vzalloc` can serve is a parameter.
pub mod Inv
pub mod Refine
pub mod Remove
mod Tests
use sivfs_public.Base.{
  ℕ, zero, suc, ◌/◌, ◌≡◌, Bool, List, [], ◌++◌, leb, ◌==◌, if◌then◌else◌, get_or, set, take, drop,
  replicate, add64, sub64, mul64, Rc, ok, enomem,
}
use sivfs_public.Common.{max3}

-- `struct sivfs_stack`. `values` holds the words of the buffer; a `void*` is a number, NULL is 0.
pub record Stack : Type 0 where
  pub size : ℕ
  pub capacity : ℕ
  pub values : List ℕ

-- Zero initialisation.
abbrev pub empty : Stack
empty = record { size = 0; capacity = 0; values = [] }

-- `memcpy` of `n` words from the start of one buffer to the start of another.
abbrev pub copy_words : ℕ → List ℕ → List ℕ → List ℕ
copy_words n src dst = take n src ++ drop n dst

-- `sivfs_stack_empty`
pub is_empty : Stack → Bool
is_empty s = s.size == 0

-- `sivfs_stack_peek`
pub peek : Stack → ℕ
unfolding is_empty
peek s = if is_empty s then 0 else get_or s.values (sub64 s.size 1) 0

-- `sivfs_stack_pop`
pub pop : Stack → ℕ × Stack
unfolding is_empty
pop s =
    if is_empty s
    then (0, s)
    else (get_or s.values (sub64 s.size 1) 0, record s { size = sub64 s.size 1 })

-- `sivfs_stack_remove`. What `memcpy` of `n` words does within a buffer is an argument, since the two
-- ranges overlap if two or more words are moved, for which C does not define it.
pub remove : (memcpy : (n to from : ℕ) → List ℕ → List ℕ) → Stack → ℕ → Stack
remove memcpy s i = if leb s.size i then s else record s {
  size = sub64 s.size 1;
  values = memcpy (sub64 (sub64 s.size i) 1) i (suc i) s.values;
}

-- The assignments of `sivfs_stack_push`, made if the reservation succeeded.
put : ℕ → Rc × Stack → Rc × Stack
put value (ok, s) = (ok, record s { size = add64 s.size 1; values = set s.values s.size value })
put value (rc, s) = (rc, s)

-- The loop of `sivfs_stack_push_all`, with `left` rounds to go.
push_loop : (left i : ℕ) → Stack → Stack → Stack
push_loop zero i src dest = dest
push_loop (suc left) i src dest = push_loop left (suc i) src (record dest {
  size = add64 dest.size 1;
  values = set dest.values dest.size (get_or src.values i 0);
})

put_all : Stack → Rc × Stack → Rc × Stack
unfolding push_loop
put_all src (ok, dest) = (ok, push_loop src.size 0 src dest)
put_all src (rc, dest) = (rc, dest)

-- `vzalloc` of a number of bytes succeeds.
module _ (grants : ℕ → Bool) where
  -- `sivfs_stack_reserve`. The buffer that `vzalloc` returns is zeroed.
  grow : Stack → ℕ → Rc × Stack
  grow s cap =
      if grants (mul64 cap 8)
      then (
        ok,
        record s {
          capacity = cap;
          values = copy_words s.size s.values (replicate (mul64 cap 8 / 8) 0);
        },
      )
      else (enomem, s)

  pub reserve : Stack → ℕ → Rc × Stack
  unfolding grow
  reserve s new_capacity =
      if leb s.capacity new_capacity
      then grow s (max3 (mul64 s.capacity 2) 4 new_capacity)
      else (ok, s)

  -- `sivfs_stack_push`
  pub push : Stack → ℕ → Rc × Stack
  unfolding put
  push s value = put value (reserve s (add64 s.size 1))

  -- `sivfs_stack_push_all` on two different stacks.
  pub push_all : Stack → Stack → Rc × Stack
  unfolding put_all
  push_all dest src = put_all src (reserve dest (add64 dest.size src.size))
