-- ===== src/Checkpoint/Remove.antt =====
-- How the insertion of a checkpoint in kern/sivfs_checkpoints.c ends, and how it is undone.
use sivfs_public.Base.{
  ℕ, ◌≡◌, ◌⊎◌, inl, inr, refl, ap, ◌∙◌, true, false, some, List, [], ◌∷◌, ltb, ◌==◌, ==_refl,
  if◌then◌else◌, if-cases, Rc, ok, eexist, failed,
}
use sivfs_public.Checkpoint.{
  Checkpoints, ts_to_reverse_index, tree_insert, tree_delete, checkpoints_insert,
  checkpoints_remove,
}

-- What is inserted can be deleted again, and what is not inserted changes nothing.
abbrev Undone : (index : ℕ) → List (ℕ × ℕ) → Rc × List (ℕ × ℕ) → Type 0
Undone index tree r =
    (failed r.0 ≡ true) × (r.1 ≡ tree) ⊎ (r.0 ≡ ok) × (tree_delete index r.1 ≡ tree)

tree_insert-Undone :
    (index cp : ℕ) (tree : List (ℕ × ℕ)) → Undone index tree (tree_insert index cp tree)
unfolding tree_insert tree_delete
tree_insert-Undone index cp [] = inr (refl, gone [])
  where
    gone : (rest : List (ℕ × ℕ)) → tree_delete index ((index, cp) ∷ rest) ≡ rest
    gone rest = ap (λ b. if b then rest else (index, cp) ∷ tree_delete index rest) (==_refl index)
tree_insert-Undone index cp ((i, other) ∷ rest) =
    if-cases (Undone index ((i, other) ∷ rest)) (index == i) (eexist, (i, other) ∷ rest) _
      (λ _. inl (refl, refl))
      (λ differs.
        if-cases (Undone index ((i, other) ∷ rest)) (ltb index i) _ _
          (λ _. inr (
            refl,
            ap
                (λ b.
                  if b
                  then (i, other) ∷ rest
                  else (index, cp) ∷ tree_delete index ((i, other) ∷ rest))
                (==_refl index),
          ))
          (λ _. later differs (tree_insert-Undone index cp rest)))
  where
    later :
        (index == i) ≡ false
        → Undone index rest (tree_insert index cp rest)
        → Undone index
            ((i, other) ∷ rest)
            ((tree_insert index cp rest).0, (i, other) ∷ (tree_insert index cp rest).1)
    later differs (inl (bad, same)) = inl (bad, ap (λ l. (i, other) ∷ l) same)
    later differs (inr (good, back)) = inr (
      good,
      ap
            (λ b.
              if b
              then (tree_insert index cp rest).1
              else (i, other) ∷ tree_delete index (tree_insert index cp rest).1)
            differs
          ∙ ap (λ l. (i, other) ∷ l) back,
    )

module _ (cp_ts : ℕ → ℕ) where
  -- The insertion fails and changes nothing, or it can be undone.
  abbrev pub Undoable : (cp : ℕ) → Checkpoints → Rc × Checkpoints → Type 0
  Undoable cp c r =
      (failed r.0 ≡ true) × (r.1 ≡ c) ⊎ (r.0 ≡ ok) × (checkpoints_remove cp_ts cp r.1 ≡ c)

  -- The insertion of a checkpoint either returns an error, and the index is as it was, or returns no
  -- error, and `_sivfs_checkpoints_remove` of the checkpoint then gives back the index as it was.
  pub checkpoints_insert-Undoable :
      (locked room : Rc) (cp : ℕ) (c : Checkpoints)
      → Undoable cp c (checkpoints_insert cp_ts locked room (some cp) c)
  unfolding checkpoints_insert checkpoints_remove
  checkpoints_insert-Undoable locked room cp c =
      if-cases (Undoable cp c) (failed locked) (locked, c) _ (λ bad. inl (bad, refl))
        (λ _.
          if-cases (Undoable cp c) (failed room) (room, c) _ (λ bad. inl (bad, refl))
            (λ _.
              whole (tree_insert-Undone (ts_to_reverse_index (cp_ts cp)) cp c.checkpoints_reverse)))
    where
      r : Rc × List (ℕ × ℕ)
      r = tree_insert (ts_to_reverse_index (cp_ts cp)) cp c.checkpoints_reverse

      with_tree : List (ℕ × ℕ) → Checkpoints
      with_tree l = record c { checkpoints_reverse = l }

      whole :
          Undone (ts_to_reverse_index (cp_ts cp)) c.checkpoints_reverse r
          → Undoable cp c (r.0, with_tree r.1)
      whole (inl (bad, same)) = inl (bad, ap with_tree same)
      whole (inr (good, back)) = inr (good, ap with_tree back)
