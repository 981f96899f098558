-- ===== src/Reclaim/Step.antt =====
-- One entry in `sivfs_gc_or_reassign_entry` of kern/sivfs_gc_checkpoints.c.
use sivfs_public.Base.{
  ℕ, ◌+◌, ◌<◌, ◌≡◌, ◌≢◌, refl, sym, ◌∙◌, ap, subst, inl, inr, Bool, true, false, Option, none, some,
  List, ◌∷◌, arith, ◌==◌, if◌then◌else◌, ==_iff, if-cases, Rc, ok, einval, failed, Option-cases,
}
use mathlib.Core.Bool.{true≢false}
use sivfs_public.Common.{invalid_ts}
use sivfs_public.Reclaim.{
  EntryType, Lifetime, Collector, still_blocked, group, put_group, entry_to_lifetime,
  get_blocked_entries, push_entry, gc_or_reassign_entry, reassign_to,
}
use sivfs_public.Reclaim.Groups.{one, tally, entries_of, AllGroups, group-AllGroups, put-AllGroups}
use sivfs_public.Reclaim.Order.{group-put_other}
use sivfs_public.Reclaim.Blockers.{IsLifetime, Unneeded, Blocks, reassign_to-Blocks}
use sivfs_public.Reclaim.Inv.{Lives, Seen, Pending, Kept, Blocks-Needed, put-Kept}
use sivfs_public.Reclaim.Fetch.{Fetched, get_blocked_entries-Fetched}

module _ (new_group : ℕ → Rc) (pushed : ℕ → List ℕ → Rc)
    (lifetime : EntryType → ℕ → Option Lifetime) (checked_out : List ℕ) (latest fuel : ℕ) where
  -- What a step with an entry does to the collector, while the group `k` is emptied: one more copy of
  -- the entry on success, and nothing on an error. The group itself stays.
  pub record Stepped (k : ℕ) (entry : ℕ) (c : Collector) (r : Rc × Collector) : Type 0 where
    pub done :
        failed r.0 ≡ false
        → (n : ℕ → ℕ) → Kept new_group pushed lifetime checked_out latest fuel n c
        → Kept new_group pushed lifetime checked_out latest fuel (λ x. n x + one x entry) r.1
    pub undone :
        failed r.0 ≡ true
        → (n : ℕ → ℕ) → Kept new_group pushed lifetime checked_out latest fuel n c
        → Kept new_group pushed lifetime checked_out latest fuel n r.1
    pub same : group k r.1.blocked ≡ group k c.blocked
    pub pending :
        (tss : List ℕ)
        → AllGroups (Pending new_group pushed lifetime checked_out latest fuel tss) c.blocked
        → AllGroups (Pending new_group pushed lifetime checked_out latest fuel tss) r.1.blocked
    pub obsoleted : r.1.obsoleted_entries ≡ c.obsoleted_entries

  push_entry-Stepped :
      (k entry : ℕ) (c : Collector) (l : Lifetime) (ts : ℕ)
      → entry_to_lifetime new_group pushed lifetime entry ≡ some l
      → Blocks checked_out latest l ts
      → k ≢ ts
      → (r : Rc × List ℕ × Collector)
      → Fetched new_group pushed lifetime checked_out latest fuel c ts r
      → Stepped k entry c (push_entry new_group pushed lifetime ts entry r)
  unfolding push_entry
  push_entry-Stepped k entry c l ts has b n r f =
      if-cases (Stepped k entry c) (failed r.0) _ _ (λ bad. failing r.0 bad)
        (λ good.
          if-cases (Stepped k entry c) (failed (pushed ts r.1)) _ _
            (λ bad. failing (pushed ts r.1) bad) (λ _. pushing (f.found good)))
    where
      failing : (rc : Rc) → failed rc ≡ true → Stepped k entry c (rc, r.2)
      failing rc bad = record {
        done = λ good. absurd (true≢false (sym bad ∙ good));
        undone = λ _ n k. f.kept n k;
        same = f.others k n;
        pending = f.pending;
        obsoleted = f.obsoleted;
      }

      pushing :
          group ts r.2.blocked ≡ some r.1
          → Stepped k entry c (ok, record r.2 { blocked = put_group ts (entry ∷ r.1) r.2.blocked })
      pushing e = record {
        done = λ _ m kept.
            let before = f.kept m kept in
            put-Kept new_group pushed lifetime checked_out latest fuel m (λ x. m x + one x entry)
              r.2 ts (entry ∷ r.1) before
              (λ v. (
                (l, has, b.seen),
                group-AllGroups (Seen new_group pushed lifetime checked_out latest fuel) ts
                    r.2.blocked r.1 before.seen e v,
              ))
              (inl b.blocked) (λ x. omega (arith, ap (λ o. tally x (entries_of o)) e));
        undone = λ bad. absurd (true≢false (sym bad));
        same = group-put_other k ts (entry ∷ r.1) r.2.blocked n ∙ f.others k n;
        pending = λ tss p.
            put-AllGroups (Pending new_group pushed lifetime checked_out latest fuel tss) ts
              (entry ∷ r.1) r.2.blocked (f.pending tss p)
              (elim (group-AllGroups (Pending new_group pushed lifetime checked_out latest fuel tss)
                ts r.2.blocked r.1 (f.pending tss p) e) [
                  | inl later ↦ inl later
                  | inr all ↦ inr (
                    (
                      l,
                      has,
                      Blocks-Needed new_group pushed lifetime checked_out latest fuel l ts b.version
                          b.blocked b.seen,
                    ),
                    all,
                  )
                ]);
        obsoleted = f.obsoleted;
      }

  free-Stepped :
      (k entry : ℕ) (c : Collector)
      → Lives new_group pushed lifetime (Unneeded checked_out latest) entry
      → Stepped k entry c (ok, record c { freed = entry ∷ c.freed })
  free-Stepped k entry c u = record {
    done = λ _ n kept. record {
      sorted = kept.sorted;
      seen = kept.seen;
      fits = kept.fits;
      gone = (u, kept.gone);
      sum = λ x. omega (arith, kept.sum x);
    };
    undone = λ bad. absurd (true≢false (sym bad));
    same = refl;
    pending = λ tss p. p;
    obsoleted = refl;
  }

  -- The entry of a group `k` that is not blocked is freed if nothing can see it, and else moves to the
  -- group of a version that it is visible in.
  pub gc_or_reassign_entry-Stepped :
      (k entry : ℕ) (c : Collector)
      → latest < invalid_ts
      → ((e : ℕ) (l : Lifetime)
          → entry_to_lifetime new_group pushed lifetime e ≡ some l
          → IsLifetime latest l)
      → still_blocked k checked_out latest ≡ false
      → let r = gc_or_reassign_entry new_group pushed lifetime checked_out latest entry c in
        Stepped k entry c (r.0, r.2)
  unfolding gc_or_reassign_entry
  gc_or_reassign_entry-Stepped k entry c small valid open_group =
      elim (Option-cases (entry_to_lifetime new_group pushed lifetime entry)) [
        | inl missing ↦
            subst (λ o. Stepped k entry c ((result o).0, (result o).2)) (sym missing)
              (record {
                done = λ good. absurd (true≢false good);
                undone = λ _ n kept. kept;
                same = refl;
                pending = λ tss p. p;
                obsoleted = refl;
              })
        | inr (l, has) ↦
            subst (λ o. Stepped k entry c ((result o).0, (result o).2)) (sym has) (living l has)
      ]
    where
      result : Option Lifetime → Rc × Bool × Collector
      result o = elim o [
        | none ↦ (einval, false, c)
        | some l ↦
            let to = reassign_to l checked_out latest in
            if to == invalid_ts
            then (ok, true, record c { freed = entry ∷ c.freed })
            else let r =
                push_entry new_group pushed lifetime to entry
                  (get_blocked_entries new_group pushed lifetime to c) in
              (r.0, false, r.1)
      ]

      living :
          (l : Lifetime)
          → entry_to_lifetime new_group pushed lifetime entry ≡ some l
          → Stepped k entry c ((result (some l)).0, (result (some l)).2)
      living l has =
          let to = reassign_to l checked_out latest in
          let cases = reassign_to-Blocks checked_out latest l (valid entry l has) small in
          if-cases (λ (r : Rc × Bool × Collector). Stepped k entry c (r.0, r.2)) (to == invalid_ts)
            _ _
            (λ is. elim cases [
              | inl (e, unneeded) ↦ free-Stepped k entry c (l, has, unneeded)
              | inr b ↦ absurd (b.version ((==_iff to invalid_ts).0 is))
            ])
            (λ isnt. elim cases [
              | inl (e, unneeded) ↦ absurd (true≢false (sym ((==_iff to invalid_ts).1 e) ∙ isnt))
              | inr b ↦
                  push_entry-Stepped k entry c l to has b
                    (λ e. true≢false (
                      sym b.blocked
                      ∙ sym (ap (λ t. still_blocked t checked_out latest) e)
                      ∙ open_group))
                    (get_blocked_entries new_group pushed lifetime to c)
                    (get_blocked_entries-Fetched new_group pushed lifetime checked_out latest fuel c
                      to (inl b.blocked))
            ])
