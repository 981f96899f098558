-- ===== src/Checkpoint/Insert.antt =====
-- The insertion of a checkpoint in kern/sivfs_checkpoints.c, and its look-up.
use sivfs_public.Base.{
  ℕ, ◌^◌, ◌≤◌, ◌<◌, ◌≡◌, refl, sym, ◌∙◌, ap, false, none, some, List, [], ◌∷◌, arith, ltb, ◌==◌,
  if◌then◌else◌, lt→leb, le→leb, ltb→lt, All, All-map, Rc, ok, failed, if-cases,
}
use mathlib.Core.Bool.{true≢false}
use sivfs_public.Checkpoint.{
  Checkpoints, ts_to_reverse_index, first_from, checkpoint_lookup, tree_insert, checkpoints_insert,
  checkpoints_insert_finish, insert_dirty,
}
use sivfs_public.Checkpoint.Lookup.{IsTree}

module _ (cp_ts : ℕ → ℕ) where
  insert-after :
      (index cp bound : ℕ) (tree : List (ℕ × ℕ))
      → bound < index
      → All (λ e. bound < e.0) tree
      → All (λ e. bound < e.0) (tree_insert index cp tree).1
  unfolding tree_insert
  insert-after index cp bound [] h a = (h, tt)
  insert-after index cp bound ((i, other) ∷ rest) h a =
      if-cases (λ (r : Rc × List (ℕ × ℕ)). All (λ e. bound < e.0) r.1) (index == i) _ _ (λ _. a)
        (λ _.
          if-cases (λ (r : Rc × List (ℕ × ℕ)). All (λ e. bound < e.0) r.1) (ltb index i) _ _
            (λ _. (h, a)) (λ _. (a.0, insert-after index cp bound rest h a.1)))

  -- An insertion keeps the tree one.
  pub tree_insert-IsTree :
      (cp : ℕ) (tree : List (ℕ × ℕ))
      → cp_ts cp < 2 ^ 64
      → IsTree cp_ts tree
      → IsTree cp_ts (tree_insert (ts_to_reverse_index (cp_ts cp)) cp tree).1
  unfolding tree_insert
  tree_insert-IsTree cp [] small t = (small, refl, tt, tt)
  tree_insert-IsTree cp ((i, other) ∷ rest) small t =
      let index = ts_to_reverse_index (cp_ts cp) in
      if-cases (λ (r : Rc × List (ℕ × ℕ)). IsTree cp_ts r.1) (index == i) _ _ (λ _. t)
        (λ differs.
          if-cases (λ (r : Rc × List (ℕ × ℕ)). IsTree cp_ts r.1) (ltb index i) _ _
            (λ first. (
              small,
              refl,
              (
                ltb→lt index i first,
                All-map (λ e. i < e.0) (λ e. index < e.0) rest
                    (λ e h. omega (arith, h, ltb→lt index i first)) t.2,
              ),
              t,
            ))
            (λ past. (
              t.0,
              t.1,
              insert-after index cp i rest (above index i differs past) t.2,
              tree_insert-IsTree cp rest small t.3,
            )))
    where
      above : (a b : ℕ) → (a == b) ≡ false → ltb a b ≡ false → b < a
      above a b e f = ground arith

  inserted-first :
      (index cp : ℕ) (tree : List (ℕ × ℕ))
      → (tree_insert index cp tree).0 ≡ ok
      → first_from index (tree_insert index cp tree).1 ≡ some cp
  unfolding tree_insert first_from
  inserted-first index cp [] e =
      ap (λ b. if b then some cp else none) (le→leb index index (omega arith))
  inserted-first index cp ((i, other) ∷ rest) e =
      if-cases (λ (r : Rc × List (ℕ × ℕ)). r.0 ≡ ok → first_from index r.1 ≡ some cp) (index == i) _
        _ (λ _ bad. absurd (true≢false (ap failed bad)))
        (λ differs.
          if-cases (λ (r : Rc × List (ℕ × ℕ)). r.0 ≡ ok → first_from index r.1 ≡ some cp)
            (ltb index i) _ _
            (λ _ _.
              ap (λ b. if b then some cp else first_from index ((i, other) ∷ rest))
                (le→leb index index (omega arith)))
            (λ past good.
              ap (λ b. if b then some other else first_from index (tree_insert index cp rest).1)
                (lt→leb i index (above index i differs past))
              ∙ inserted-first index cp rest good))
        e
    where
      above : (a b : ℕ) → (a == b) ≡ false → ltb a b ≡ false → b < a
      above a b e f = ground arith

  -- After an insertion that did not fail and its publication, every look-up at the timestamp of the
  -- checkpoint or a later one finds the checkpoint.
  pub checkpoint_lookup-insert :
      (locked room : Rc) (cp : ℕ) (c : Checkpoints) (desired_ts : ℕ)
      → (checkpoints_insert cp_ts locked room (some cp) c).0 ≡ ok
      → cp_ts cp ≤ desired_ts
      → checkpoint_lookup
          (checkpoints_insert_finish cp_ts cp (checkpoints_insert cp_ts locked room (some cp) c).1)
          desired_ts
        ≡ some cp
  unfolding checkpoint_lookup checkpoints_insert checkpoints_insert_finish insert_dirty
  checkpoint_lookup-insert locked room cp c desired_ts good later =
      ap
        (λ ts.
          first_from (ts_to_reverse_index ts)
            (checkpoints_insert cp_ts locked room (some cp) c).1.checkpoints_reverse)
        (if-cases (λ ts. ts ≡ cp_ts cp) (ltb (cp_ts cp) desired_ts) (cp_ts cp) desired_ts
          (λ _. refl) (λ not_before. last not_before))
      ∙ stored good
    where
      last : ltb (cp_ts cp) desired_ts ≡ false → desired_ts ≡ cp_ts cp
      last e = ground arith

      r : Rc × List (ℕ × ℕ)
      r = tree_insert (ts_to_reverse_index (cp_ts cp)) cp c.checkpoints_reverse

      Found : Rc × Checkpoints → Type 0
      Found a =
          a.0 ≡ ok → first_from (ts_to_reverse_index (cp_ts cp)) a.1.checkpoints_reverse ≡ some cp

      stored : Found (checkpoints_insert cp_ts locked room (some cp) c)
      stored =
          if-cases Found (failed locked) (locked, c) _
            (λ bad e. absurd (true≢false (sym bad ∙ ap failed e)))
            (λ _.
              if-cases Found (failed room) (room, c) (r.0, record c { checkpoints_reverse = r.1 })
                (λ bad e. absurd (true≢false (sym bad ∙ ap failed e)))
                (λ _. inserted-first (ts_to_reverse_index (cp_ts cp)) cp c.checkpoints_reverse))
