-- ===== src/Reclaim/Drain.antt =====
-- The loop of `sivfs_gc_checkpoints` in kern/sivfs_gc_checkpoints.c over the entries of a group.
use sivfs_public.Base.{
  ℕ, zero, suc, ◌+◌, ◌<◌, ◌≡◌, refl, sym, ◌∙◌, ap, inl, inr, Bool, true, false, ◌||◌, Option, none,
  some, List, [], ◌∷◌, arith, length, Bool-cases, Rc, ok, failed,
}
use mathlib.Core.Bool.{true≢false}
use sivfs_public.Common.{invalid_ts}
use sivfs_public.Reclaim.{
  EntryType, Lifetime, Collector, still_blocked, group, put_group, entry_to_lifetime, pop_group,
  gc_or_reassign_entry, drain,
}
use sivfs_public.Reclaim.Groups.{one, tally, entries_of, AllGroups, group-AllGroups, put-AllGroups}
use sivfs_public.Reclaim.Order.{group-put}
use sivfs_public.Reclaim.Blockers.{IsLifetime}
use sivfs_public.Reclaim.Inv.{Seen, Pending, Fits, Kept, put-Kept}
use sivfs_public.Reclaim.Step.{gc_or_reassign_entry-Stepped}

pop-there :
    (ts e : ℕ) (rest : List ℕ) (L : List (ℕ × List ℕ))
    → group ts L ≡ some (e ∷ rest)
    → pop_group ts L ≡ put_group ts rest L
unfolding pop_group
pop-there ts e rest L there = ap after there
  where
    after : Option (List ℕ) → List (ℕ × List ℕ)
    after o = elim o [ none ↦ L | some es ↦ elim es [ [] ↦ L | x ∷ xs ↦ put_group ts xs L ] ]

module _ (new_group : ℕ → Rc) (pushed : ℕ → List ℕ → Rc)
    (lifetime : EntryType → ℕ → Option Lifetime) (checked_out : List ℕ) (latest fuel : ℕ)
    (small : latest < invalid_ts)
    (valid : (e : ℕ) (l : Lifetime)
      → entry_to_lifetime new_group pushed lifetime e ≡ some l
      → IsLifetime latest l) where
  abbrev Keep : (ℕ → ℕ) → Collector → Type 0
  Keep n c = Kept new_group pushed lifetime checked_out latest fuel n c

  abbrev Waits : List ℕ → Collector → Type 0
  Waits tss c = AllGroups (Pending new_group pushed lifetime checked_out latest fuel tss) c.blocked

  -- How a loop ends that started with `c`; on success `P` holds of the collector.
  pub record Ends (P : Collector → Type 0) (n : ℕ → ℕ) (c : Collector)
      (o : Option (Rc × Bool × Collector)) : Type 0 where
    pub result : Rc × Bool × Collector
    pub returns : o ≡ some result
    pub kept : Kept new_group pushed lifetime checked_out latest fuel n result.2
    pub on_success : failed result.0 ≡ false → P result.2
    pub obsoleted : result.2.obsoleted_entries ≡ c.obsoleted_entries

  module _ (k : ℕ) (open_group : still_blocked k checked_out latest ≡ false) where
    -- The entry on top is popped.
    pop-Kept :
        (n : ℕ → ℕ) (c : Collector) (entry : ℕ) (rest : List ℕ)
        → group k c.blocked ≡ some (entry ∷ rest)
        → Keep (λ x. n x + one x entry) c
        → Keep n (record c { blocked = put_group k rest c.blocked })
    pop-Kept n c entry rest e kept =
        put-Kept new_group pushed lifetime checked_out latest fuel (λ x. n x + one x entry) n c k
          rest kept
          (λ v.
            (group-AllGroups (Seen new_group pushed lifetime checked_out latest fuel) k c.blocked
              (entry ∷ rest) kept.seen e v).1)
          (elim (group-AllGroups (Fits new_group pushed lifetime checked_out latest fuel) k
            c.blocked (entry ∷ rest) kept.fits e) [
              | inl blocked ↦ absurd (true≢false (sym blocked ∙ open_group))
              | inr fits ↦ inr (omega (arith, fits))
            ])
          (λ x. omega (arith, ap (λ o. tally x (entries_of o)) e))

    pop-Waits :
        (tss : List ℕ) (c : Collector) (entry : ℕ) (rest : List ℕ)
        → group k c.blocked ≡ some (entry ∷ rest)
        → Waits tss c
        → Waits tss (record c { blocked = put_group k rest c.blocked })
    pop-Waits tss c entry rest e p =
        put-AllGroups (Pending new_group pushed lifetime checked_out latest fuel tss) k rest
          c.blocked p
          (elim (group-AllGroups (Pending new_group pushed lifetime checked_out latest fuel tss) k
            c.blocked (entry ∷ rest) p e) [ inl later ↦ inl later | inr all ↦ inr all.1 ])

    -- What a round of the loop does with the group that it finds.
    abbrev round : (left : ℕ) → Bool → Collector → Option (List ℕ) → Option (Rc × Bool × Collector)
    round left did c o = elim o [
      | none ↦ some (ok, did, c)
      | some es ↦ elim es [
        | [] ↦ some (ok, did, c)
        | entry ∷ rest ↦
            let r = gc_or_reassign_entry new_group pushed lifetime checked_out latest entry c in
            elim (failed r.0) [
              | true ↦ some (r.0, did || r.1, r.2)
              | false ↦
                  drain new_group pushed lifetime checked_out latest left k (did || r.1)
                    (record r.2 { blocked = pop_group k r.2.blocked })
            ]
      ]
    ]

    pub drain-Ends :
        (left : ℕ) (did : Bool) (n : ℕ → ℕ) (tss : List ℕ) (c : Collector) (o : Option (List ℕ))
        → group k c.blocked ≡ o
        → length (entries_of o) < left
        → Keep n c
        → Waits tss c
        → Ends
            (λ c'. (entries_of (group k c'.blocked) ≡ []) × Waits tss c')
            n
            c
            (drain new_group pushed lifetime checked_out latest left k did c)
    unfolding drain
    drain-Ends zero did n tss c o e h kept p = absurd (omega (arith, h))
    drain-Ends (suc left) did n tss c none e h kept p = record {
      result = (ok, did, c);
      returns = ap (round left did c) e;
      kept = kept;
      on_success = λ _. (ap entries_of e, p);
      obsoleted = refl;
    }
    drain-Ends (suc left) did n tss c (some []) e h kept p = record {
      result = (ok, did, c);
      returns = ap (round left did c) e;
      kept = kept;
      on_success = λ _. (ap entries_of e, p);
      obsoleted = refl;
    }
    drain-Ends (suc left) did n tss c (some (entry ∷ rest)) e h kept p =
        let r = gc_or_reassign_entry new_group pushed lifetime checked_out latest entry c in
        let st =
          gc_or_reassign_entry-Stepped new_group pushed lifetime checked_out latest fuel k entry c
            small valid open_group in
        elim (Bool-cases (failed r.0)) [
          | inl bad ↦ record {
            result = (r.0, did || r.1, r.2);
            returns = ap (round left did c) e ∙ ap (next r) bad;
            kept = st.undone bad n kept;
            on_success = λ good. absurd (true≢false (sym bad ∙ good));
            obsoleted = st.obsoleted;
          }
          | inr good ↦
              let found = st.same ∙ e in
              let rec =
                drain-Ends left (did || r.1) n tss
                  (record r.2 { blocked = put_group k rest r.2.blocked }) (some rest)
                  (group-put k rest r.2.blocked) (omega (arith, h))
                  (pop-Kept n r.2 entry rest found (st.done good n kept))
                  (pop-Waits tss r.2 entry rest found (st.pending tss p)) in
              record {
                result = rec.result;
                returns =
                    ap (round left did c) e
                    ∙ ap (next r) good
                    ∙ ap
                        (λ b.
                          drain new_group pushed lifetime checked_out latest left k (did || r.1)
                            (record r.2 { blocked = b }))
                        (pop-there k entry rest r.2.blocked found)
                    ∙ rec.returns;
                kept = rec.kept;
                on_success = rec.on_success;
                obsoleted = rec.obsoleted ∙ st.obsoleted;
              }
        ]
      where
        next : Rc × Bool × Collector → Bool → Option (Rc × Bool × Collector)
        next r b = elim b [
          | true ↦ some (r.0, did || r.1, r.2)
          | false ↦
              drain new_group pushed lifetime checked_out latest left k (did || r.1)
                (record r.2 { blocked = pop_group k r.2.blocked })
        ]
