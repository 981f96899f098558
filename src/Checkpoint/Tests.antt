-- ===== src/Checkpoint/Tests.antt =====
-- Tests of kern/sivfs_checkpoints.c at concrete inputs.
use sivfs_public.Base.{
  ℕ, suc, ◌*◌, ◌+◌, ◌≡◌, refl, some, none, [], ◌∷◌, arith, ltb, if◌then◌else◌, ok, eexist, ◌==◌,
}
use sivfs_public.Checkpoint.{
  Checkpoints, ts_to_reverse_index, reverse_index_to_ts, first_from, checkpoint_lookup, tree_insert,
  tree_delete, checkpoints_insert, checkpoints_insert_finish, checkpoints_remove, level_offsets,
  iter_init, descend, traverse_partial,
}
use sivfs_public.Checkpoint.Path.{number_at, iter_init-number_at}
use sivfs_public.Checkpoint.Insert.{checkpoint_lookup-insert}
use sivfs_public.Checkpoint.Remove.{Undoable, checkpoints_insert-Undoable}
use sivfs_public.Checkpoint.Lookup.{IsTree, Answers, checkpoint_lookup-Answers}

-- The timestamp of checkpoint `k` is `10 k`.
abbrev cp_ts : ℕ → ℕ
cp_ts k = if k == 1 then 10 else if k == 2 then 20 else 0

-- Checkpoints at 20, 10 and 0, of which the first is not published.
abbrev three : Checkpoints
three = record {
  checkpoint = some 1;
  ts = 10;
  latest_checkpoint_published = 10;
  checkpoints_reverse =
      (18446744073709551595, 2) ∷ (18446744073709551605, 1) ∷ (18446744073709551615, 0) ∷ [];
}

three-IsTree : IsTree cp_ts three.checkpoints_reverse
unfolding ts_to_reverse_index
three-IsTree = (
  omega arith,
  refl,
  (omega arith, (omega arith, tt)),
  (omega arith, refl, (omega arith, tt), (omega arith, refl, tt, tt)),
)

lookup-unpublished : checkpoint_lookup three 25 ≡ some 1
unfolding checkpoint_lookup first_from ts_to_reverse_index
lookup-unpublished = refl

lookup-older : checkpoint_lookup three 9 ≡ some 0
unfolding checkpoint_lookup first_from ts_to_reverse_index
lookup-older = refl

reverse-twice : reverse_index_to_ts (ts_to_reverse_index 20) ≡ 20
unfolding ts_to_reverse_index reverse_index_to_ts
reverse-twice = refl

insert-again : (checkpoints_insert cp_ts ok ok (some 1) three).0 ≡ eexist
unfolding checkpoints_insert tree_insert ts_to_reverse_index
insert-again = refl

remove-first :
    (checkpoints_remove cp_ts 2 three).checkpoints_reverse
    ≡ (18446744073709551605, 1) ∷ (18446744073709551615, 0) ∷ []
unfolding checkpoints_remove tree_delete ts_to_reverse_index
remove-first = refl

-- Every page has one child, at 5, whose number is one more.
traverse-leaf :
    traverse_partial
      (λ p offset. if offset == 5 then some (suc p) else none)
      (some 7)
      (5 * 262144 + 5 * 512 + 5)
      ((5 * 262144 + 5 * 512 + 5) * 4096)
      0
    ≡ (ok, some 13)
unfolding traverse_partial iter_init level_offsets descend
traverse-leaf = refl

checkpoint_lookup-Answers_example :
    Answers cp_ts
      (if ltb 10 25 then 10 else 25)
      three.checkpoints_reverse
      (checkpoint_lookup three 25)
checkpoint_lookup-Answers_example =
    checkpoint_lookup-Answers cp_ts three 25 three-IsTree (omega arith) (omega arith)

iter_init-number_at_example :
    ((iter_init 300000 8192).0 ≡ ok)
    × (number_at 0 (iter_init 300000 8192).1 ≡ 300000)
    × (number_at 3 (iter_init 300000 8192).1 ≡ 2)
iter_init-number_at_example = iter_init-number_at 300000 8192 (omega arith) (omega arith)

-- Checkpoints at 10 and 0.
abbrev two : Checkpoints
two = record three {
  checkpoints_reverse = (18446744073709551605, 1) ∷ (18446744073709551615, 0) ∷ [];
}

checkpoint_lookup-insert_example :
    checkpoint_lookup
      (checkpoints_insert_finish cp_ts 2 (checkpoints_insert cp_ts ok ok (some 2) two).1)
      25
    ≡ some 2
unfolding checkpoints_insert tree_insert ts_to_reverse_index
checkpoint_lookup-insert_example = checkpoint_lookup-insert cp_ts ok ok 2 two 25 refl (omega arith)

checkpoints_insert-Undoable_example :
    Undoable cp_ts 2 two (checkpoints_insert cp_ts ok ok (some 2) two)
checkpoints_insert-Undoable_example = checkpoints_insert-Undoable cp_ts ok ok 2 two
