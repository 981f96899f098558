-- ===== src/Reclaim/Order.antt =====
-- The order of the tree gc_blocked_entries of kern/sivfs_gc_checkpoints.c, and look-ups in it.
use sivfs_public.Base.{
  ℕ, ◌<◌, ◌≡◌, ◌≢◌, refl, sym, ◌∙◌, ap, subst, inl, inr, Bool, true, false, Option, none, some,
  List, [], ◌∷◌, arith, ltb, ◌==◌, if◌then◌else◌, ==_iff, ==_refl, ==_ne, Bool-cases, ltb→lt,
  lt→ltb,
}
use mathlib.Core.Bool.{true≢false}
use sivfs_public.Reclaim.{group, put_group, drop_group}
use sivfs_public.Reclaim.Groups.{
  branch, AllGroups, Sorted, put-AllGroups, drop-AllGroups, AllGroups-map,
}

-- Storing a group keeps the order, and so does deleting one, of which nothing is left.
pub put-Sorted :
    (ts : ℕ) (new : List ℕ) (L : List (ℕ × List ℕ)) → Sorted L → Sorted (put_group ts new L)
unfolding put_group
put-Sorted ts new [] s = (tt, tt)
put-Sorted ts new ((t, old) ∷ rest) s =
    branch (λ b _. Sorted b) (ts == t) (ltb ts t) ((ts, new) ∷ rest) ((ts, new) ∷ (t, old) ∷ rest)
      ((t, old) ∷ put_group ts new rest) true true true
      (λ here. (subst (λ k. AllGroups (λ j _. k < j) rest) (sym ((==_iff ts t).0 here)) s.0, s.1))
      (λ _ past. (
        (
          ltb→lt ts t past,
          AllGroups-map (λ j _. t < j) (λ j _. ts < j) rest
              (λ j es h. omega (arith, h, ltb→lt ts t past)) s.0,
        ),
        s,
      ))
      (λ here past. (
        put-AllGroups (λ j _. t < j) ts new rest s.0 (above ts t here past),
        put-Sorted ts new rest s.1,
      ))
  where
    above : (a b : ℕ) → (a == b) ≡ false → ltb a b ≡ false → b < a
    above a b e f = ground arith

pub drop-Sorted : (ts : ℕ) (L : List (ℕ × List ℕ)) → Sorted L → Sorted (drop_group ts L)
unfolding drop_group
drop-Sorted ts [] s = s
drop-Sorted ts ((t, old) ∷ rest) s =
    branch (λ b _. Sorted b) (ts == t) (ltb ts t) rest ((t, old) ∷ rest)
      ((t, old) ∷ drop_group ts rest) true true true (λ _. s.1) (λ _ _. s)
      (λ _ _. (drop-AllGroups (λ j _. t < j) ts rest s.0, drop-Sorted ts rest s.1))

pub drop-gone :
    (ts : ℕ) (L : List (ℕ × List ℕ)) → Sorted L → AllGroups (λ t _. t ≢ ts) (drop_group ts L)
unfolding drop_group
drop-gone ts [] s = tt
drop-gone ts ((t, old) ∷ rest) s =
    branch (λ b _. AllGroups (λ k _. k ≢ ts) b) (ts == t) (ltb ts t) rest ((t, old) ∷ rest)
      ((t, old) ∷ drop_group ts rest) true true true
      (λ here.
        AllGroups-map (λ k _. t < k) (λ k _. k ≢ ts) rest
          (λ k es h e. omega (arith, h, e, (==_iff ts t).0 here)) s.0)
      (λ _ past. (
        (λ e. omega (arith, e, ltb→lt ts t past)),
        AllGroups-map (λ k _. t < k) (λ k _. k ≢ ts) rest
            (λ k es h e. omega (arith, h, e, ltb→lt ts t past)) s.0,
      ))
      (λ here _. ((λ e. true≢false (sym ((==_iff ts t).1 (sym e)) ∙ here)), drop-gone ts rest s.1))

-- What a look-up finds after a group was stored.
pub group-put :
    (ts : ℕ) (new : List ℕ) (L : List (ℕ × List ℕ)) → group ts (put_group ts new L) ≡ some new
unfolding group put_group
group-put ts new [] =
    ap (λ b. if b then some new else if ltb ts ts then none else none) (==_refl ts)
group-put ts new ((t, old) ∷ rest) =
    branch (λ b _. group ts b ≡ some new) (ts == t) (ltb ts t) ((ts, new) ∷ rest)
      ((ts, new) ∷ (t, old) ∷ rest) ((t, old) ∷ put_group ts new rest) true true true
      (λ _.
        ap (λ b. if b then some new else if ltb ts ts then none else group ts rest) (==_refl ts))
      (λ _ _.
        ap (λ b. if b then some new else if ltb ts ts then none else group ts ((t, old) ∷ rest))
          (==_refl ts))
      (λ here past.
        ap
          (λ b. if b then some old else if ltb ts t then none else group ts (put_group ts new rest))
          here
        ∙ ap (λ b. if b then none else group ts (put_group ts new rest)) past
        ∙ group-put ts new rest)

same-branches : {A : Type 0} (b : Bool) (x : A) → (if b then x else x) ≡ x
same-branches true x = refl
same-branches false x = refl

pub group-put_other :
    (k ts : ℕ) (new : List ℕ) (L : List (ℕ × List ℕ))
    → k ≢ ts
    → group k (put_group ts new L) ≡ group k L
unfolding group put_group
group-put_other k ts new [] n =
    ap (λ b. if b then some new else if ltb k ts then none else none) (==_ne k ts n)
    ∙ same-branches (ltb k ts) none
group-put_other k ts new ((t, old) ∷ rest) n =
    branch (λ b _. group k b ≡ group k ((t, old) ∷ rest)) (ts == t) (ltb ts t) ((ts, new) ∷ rest)
      ((ts, new) ∷ (t, old) ∷ rest) ((t, old) ∷ put_group ts new rest) true true true
      (λ here.
        missed (group k rest)
        ∙ ap (λ j. if ltb k j then none else group k rest) ((==_iff ts t).0 here)
        ∙ sym (
            ap (λ b. if b then some old else if ltb k t then none else group k rest)
              (==_ne k t (λ e. n (e ∙ sym ((==_iff ts t).0 here))))))
      (λ here past. missed (group k ((t, old) ∷ rest)) ∙ passed past)
      (λ here past.
        ap (λ o. if k == t then some old else if ltb k t then none else o)
          (group-put_other k ts new rest n))
  where
    missed :
        (o : Option (List ℕ))
        → (if k == ts then some new else if ltb k ts then none else o)
          ≡ (if ltb k ts then none else o)
    missed o = ap (λ b. if b then some new else if ltb k ts then none else o) (==_ne k ts n)

    passed :
        ltb ts t ≡ true
        → (if ltb k ts then none else group k ((t, old) ∷ rest)) ≡ group k ((t, old) ∷ rest)
    passed past = elim (Bool-cases (ltb k ts)) [
      | inl below ↦
          ap (λ b. if b then none else group k ((t, old) ∷ rest)) below
          ∙ sym (
              ap (λ b. if b then none else group k rest)
                (lt→ltb k t (omega (arith, ltb→lt k ts below, ltb→lt ts t past))))
          ∙ sym (
              ap (λ b. if b then some old else if ltb k t then none else group k rest)
                (==_ne k t (λ e. omega (arith, e, ltb→lt k ts below, ltb→lt ts t past))))
      | inr above ↦ ap (λ b. if b then none else group k ((t, old) ∷ rest)) above
    ]
