-- ===== src/Block/Before.antt =====
-- The chunks before one that the functions of kern/alloc/sivfs_allocation.c change.
use sivfs_public.Base.{
  ℕ, ◌+◌, ◌/◌, ◌^◌, ◌≤◌, ◌<◌, ◌≡◌, ◌≢◌, sym, subst, ◌∙◌, ap, Option, none, some, List, [], ◌∷◌,
  ◌++◌, arith, All, All-middle,
}
use sivfs_public.Page.{page_size}
use sivfs_public.Block.{Blocks}
use sivfs_public.Block.Tiling.{ne-of-start, Starts, IsBounded, Tiles, Tiles-Starts, later, Fill}

module _ (b b' : Blocks) (cur : ℕ) (Other : ℕ → Type 0)
    (others : (x : ℕ) → x ≢ cur → Other x → b'.chunk x ≡ b.chunk x)
    (below : (pg : ℕ) → pg < (b.chunk cur).start / page_size → b'.pginfo pg ≡ b.pginfo pg) where
  module _ (x pos : ℕ) (other : Other x) (before : pos + page_size ≤ (b.chunk cur).start) where
    same-before : (b.chunk x).start ≡ pos → b'.chunk x ≡ b.chunk x
    same-before e =
        others x (λ same. ne-of-start b x cur (omega (arith, e, before)) (sym same)) other

    Starts-before : (prev : Option ℕ) → Starts b pos prev x → Starts b' pos prev x
    Starts-before prev st = record {
      start = ap (λ k. k.start) (same-before st.start) ∙ st.start;
      page = below (pos / page_size) (omega (arith, before)) ∙ st.page;
    }

    IsBounded-before :
        (prev : Option ℕ) → Starts b pos prev x → IsBounded b pos x → IsBounded b' pos x
    IsBounded-before prev st h =
        let e = sym (ap (λ k. k.size) (same-before st.start)) in
        record {
          size_page = subst (λ k. page_size ≤ k) e h.size_page;
          small = subst (λ k. pos + k < 2 ^ 62) e h.small;
        }

  module _ (ids ids' : List ℕ)
      (change : (prev : Option ℕ)
        → Tiles b (b.chunk cur).start prev cur ids
        → Tiles b' (b.chunk cur).start prev cur ids') where
    Tiles-before :
        (pos : ℕ) (prev : Option ℕ) (x : ℕ) (xs : List ℕ)
        → All Other (x ∷ xs)
        → Tiles b pos prev x (xs ++ (cur ∷ ids))
        → Tiles b' pos prev x (xs ++ (cur ∷ ids'))
    Tiles-before pos prev x [] all_other t =
        let before = (later b pos prev x (cur ∷ ids) t).0 in
        let at = (Tiles-Starts b (pos + (b.chunk x).size) (some x) cur ids t.2).start in
        (
          Starts-before x pos all_other.0 before prev t.0,
          IsBounded-before x pos all_other.0 before prev t.0 t.1,
          subst (λ k. Tiles b' (pos + k) (some x) cur ids')
              (sym (ap (λ k. k.size) (same-before x pos all_other.0 before t.0.start)))
              (subst (λ k. Tiles b' k (some x) cur ids') at
                (change (some x) (subst (λ k. Tiles b k (some x) cur ids) (sym at) t.2))),
        )
    Tiles-before pos prev x (y ∷ ys) all_other t =
        let before =
          All-middle (λ j. pos + page_size ≤ (b.chunk j).start) (y ∷ ys) cur ids
            (later b pos prev x (y ∷ (ys ++ (cur ∷ ids))) t) in
        (
          Starts-before x pos all_other.0 before prev t.0,
          IsBounded-before x pos all_other.0 before prev t.0 t.1,
          subst (λ k. Tiles b' (pos + k) (some x) y (ys ++ (cur ∷ ids')))
              (sym (ap (λ k. k.size) (same-before x pos all_other.0 before t.0.start)))
              (Tiles-before (pos + (b.chunk x).size) (some x) y ys all_other.1 t.2),
        )

    -- The chunks fill the file with the change.
    pub Fill-before :
        (before : List ℕ)
        → All Other before
        → Fill b (before ++ (cur ∷ ids))
        → Fill b' (before ++ (cur ∷ ids'))
    Fill-before [] all_other t =
        let at = (Tiles-Starts b 0 none cur ids t).start in
        subst (λ k. Tiles b' k none cur ids') at
          (change none (subst (λ k. Tiles b k none cur ids) (sym at) t))
    Fill-before (x ∷ xs) all_other t = Tiles-before 0 none x xs all_other t
