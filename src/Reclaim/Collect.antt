-- ===== src/Reclaim/Collect.antt =====
-- `sivfs_gc_checkpoints` in kern/sivfs_gc_checkpoints.c as a whole.
use sivfs_public.Base.{
  ℕ, ◌+◌, ◌<◌, ◌≡◌, refl, sym, ◌∙◌, ap, inl, inr, Bool, true, false, Option, some, List, [], ◌∷◌,
  arith, All, Among, length, if-cases, Rc, ok, failed,
}
use mathlib.Core.Bool.{true≢false}
use sivfs_public.Common.{invalid_ts}
use sivfs_public.Reclaim.{
  EntryType, Lifetime, Collector, group, put_group, entry_to_lifetime, get_blocked_entries,
  timestamps, push_values, blocked_entries_empty, sweep, swept, take_obsoleted, gc_checkpoints,
}
use sivfs_public.Reclaim.Groups.{
  tally, entries_of, AllGroups, put-tally, put-AllGroups, AllGroups-map,
}
use sivfs_public.Reclaim.Order.{put-Sorted}
use sivfs_public.Reclaim.Blockers.{IsLifetime}
use sivfs_public.Reclaim.Inv.{Needed, Lives, Seen, Pending, Fits, Kept}
use sivfs_public.Reclaim.Fetch.{Fetched, get_blocked_entries-Fetched}
use sivfs_public.Reclaim.Sweep.{sweep-Ends}

tally-push_values : (x : ℕ) (es vs : List ℕ) → tally x (push_values es vs) ≡ tally x es + tally x vs
tally-push_values x es [] = omega arith
tally-push_values x es (v ∷ vs) = omega (arith, tally-push_values x (v ∷ es) vs)

length-push_values : (es vs : List ℕ) → length (push_values es vs) ≡ length es + length vs
length-push_values es [] = omega arith
length-push_values es (v ∷ vs) = omega (arith, length-push_values (v ∷ es) vs)

timestamps-Among : (L : List (ℕ × List ℕ)) → AllGroups (λ t _. Among t (timestamps L)) L
timestamps-Among [] = tt
timestamps-Among ((t, es) ∷ rest) = (
  inl refl,
  AllGroups-map (λ k _. Among k (timestamps rest)) (λ k _. Among k (t ∷ timestamps rest)) rest
      (λ k _ m. inr m) (timestamps-Among rest),
)

empty-AllGroups :
    (P : ℕ → Type 0) (L : List (ℕ × List ℕ))
    → blocked_entries_empty L ≡ true
    → AllGroups (λ _ es. All P es) L
unfolding blocked_entries_empty
empty-AllGroups P [] e = tt
empty-AllGroups P ((t, []) ∷ rest) e = (tt, empty-AllGroups P rest e)
empty-AllGroups P ((t, x ∷ xs) ∷ rest) e = absurd (true≢false (sym e))

-- What a run of the collector has done: it has returned; what it freed is needed by nobody; each entry
-- stands somewhere as often as before; and if there was no error, no entry waits to be looked at, and
-- all that are left are needed.
pub record Collected (new_group : ℕ → Rc) (pushed : ℕ → List ℕ → Rc)
    (lifetime : EntryType → ℕ → Option Lifetime) (checked_out : List ℕ) (latest fuel : ℕ)
    (n : ℕ → ℕ) (o : Option (Rc × Bool × Collector)) : Type 0 where
  pub result : Rc × Bool × Collector
  pub returns : o ≡ some result
  pub kept : Kept new_group pushed lifetime checked_out latest fuel n result.2
  pub all_needed :
      failed result.0 ≡ false
      → (result.2.obsoleted_entries ≡ [])
        × AllGroups
            (λ _ es. All (Lives new_group pushed lifetime (Needed checked_out latest)) es)
            result.2.blocked

module _ (new_group : ℕ → Rc) (pushed : ℕ → List ℕ → Rc)
    (lifetime : EntryType → ℕ → Option Lifetime) (checked_out : List ℕ) (latest fuel : ℕ)
    (small : latest < invalid_ts)
    (valid : (e : ℕ) (l : Lifetime)
      → entry_to_lifetime new_group pushed lifetime e ≡ some l
      → IsLifetime latest l)
    (n : ℕ → ℕ) where
  abbrev Keep : Collector → Type 0
  Keep c = Kept new_group pushed lifetime checked_out latest fuel n c

  abbrev Collects : Option (Rc × Bool × Collector) → Type 0
  Collects o = Collected new_group pushed lifetime checked_out latest fuel n o

  stopped : (rc : Rc) (c : Collector) → failed rc ≡ true → Keep c → Collects (some (rc, false, c))
  stopped rc c bad kept = record {
    result = (rc, false, c);
    returns = refl;
    kept = kept;
    all_needed = λ good. absurd (true≢false (sym bad ∙ good));
  }

  swept-Collects :
      0 < fuel
      → (checked : Rc) (r : Rc × Collector) → Keep r.1
      → (failed r.0 ≡ false → r.1.obsoleted_entries ≡ [])
      → Collects (swept new_group pushed lifetime checked_out latest fuel checked r)
  unfolding swept
  swept-Collects some_fuel checked r kept none_left =
      if-cases Collects (failed r.0) _ _ (λ bad. stopped r.0 r.1 bad kept)
        (λ good.
          if-cases Collects (blocked_entries_empty r.1.blocked) _ _
            (λ empty. record {
              result = (ok, false, r.1);
              returns = refl;
              kept = kept;
              all_needed = λ _. (
                none_left good,
                empty-AllGroups (Lives new_group pushed lifetime (Needed checked_out latest))
                    r.1.blocked empty,
              );
            })
            (λ _.
              if-cases Collects (failed checked) _ _ (λ bad. stopped checked r.1 bad kept)
                (λ _. whole good)))
    where
      whole :
          failed r.0 ≡ false
          → Collects (
              sweep new_group pushed lifetime checked_out latest fuel false
                (timestamps r.1.blocked)
                r.1)
      whole good =
          let s =
            sweep-Ends new_group pushed lifetime checked_out latest fuel small valid some_fuel false
              n (timestamps r.1.blocked) r.1 kept
              (AllGroups-map (λ t _. Among t (timestamps r.1.blocked))
                (Pending new_group pushed lifetime checked_out latest fuel (timestamps r.1.blocked))
                r.1.blocked (λ t es m. inl m) (timestamps-Among r.1.blocked)) in
          record {
            result = s.result;
            returns = s.returns;
            kept = s.kept;
            all_needed = λ end. (
              s.obsoleted ∙ none_left good,
              AllGroups-map (Pending new_group pushed lifetime checked_out latest fuel [])
                  (λ _ es. All (Lives new_group pushed lifetime (Needed checked_out latest)) es)
                  s.result.2.blocked
                  (λ t es (p : Pending new_group pushed lifetime checked_out latest fuel [] t es).
                    elim p [ inl m ↦ elim m [ ] | inr all ↦ all ])
                  (s.on_success end),
            );
          }

  taken-Kept :
      (moved : Rc) (c : Collector) (r : Rc × List ℕ × Collector)
      → Keep c
      → length c.obsoleted_entries + length (entries_of (group invalid_ts c.blocked)) < fuel
      → Fetched new_group pushed lifetime checked_out latest fuel c invalid_ts r
      → let t = take_obsoleted new_group pushed lifetime checked_out latest moved r in
        Keep t.1 × (failed t.0 ≡ false → t.1.obsoleted_entries ≡ [])
  unfolding take_obsoleted
  taken-Kept moved c r kept short f =
      if-cases
        (λ (t : Rc × Collector). Keep t.1 × (failed t.0 ≡ false → t.1.obsoleted_entries ≡ []))
        (failed r.0) _ _ (λ bad. (f.kept n kept, λ good. absurd (true≢false (sym bad ∙ good))))
        (λ good.
          if-cases
            (λ (t : Rc × Collector). Keep t.1 × (failed t.0 ≡ false → t.1.obsoleted_entries ≡ []))
            (failed moved) _ _
            (λ bad. (f.kept n kept, λ good. absurd (true≢false (sym bad ∙ good))))
            (λ _. (all_taken (f.found good), λ _. refl)))
    where
      all_taken :
          group invalid_ts r.2.blocked ≡ some r.1
          → Keep (record r.2 {
            obsoleted_entries = [];
            blocked = put_group invalid_ts (push_values r.1 r.2.obsoleted_entries) r.2.blocked;
          })
      all_taken there =
          let before = f.kept n kept in
          let new = push_values r.1 r.2.obsoleted_entries in
          record {
            sorted = put-Sorted invalid_ts new r.2.blocked before.sorted;
            seen =
                put-AllGroups (Seen new_group pushed lifetime checked_out latest fuel) invalid_ts
                  new r.2.blocked before.seen (λ v. absurd (v refl));
            fits =
                put-AllGroups (Fits new_group pushed lifetime checked_out latest fuel) invalid_ts
                  new r.2.blocked before.fits
                  (inr (
                    omega (
                      arith,
                      short,
                      length-push_values r.1 r.2.obsoleted_entries,
                      ap length f.entries,
                      ap length f.obsoleted,
                    )));
            gone = before.gone;
            sum = λ x. omega (
              arith,
              before.sum x,
              put-tally x invalid_ts new r.2.blocked,
              tally-push_values x r.1 r.2.obsoleted_entries,
              ap (λ o. tally x (entries_of o)) there,
            );
          }

  -- A run of the collector of checkpoints returns, with more fuel than there are entries that were
  -- obsoleted or have no version yet, and more than there are in any group whose version is not
  -- blocked. It frees only entries that are visible neither in the latest checkpoint
  -- nor in a version that a thread has checked out, it loses no entry and puts none in twice, also on an
  -- error; and without an error all entries that are left are visible in one of these. The entries have
  -- lifetimes that start in a published checkpoint, and those in the groups are visible in the versions
  -- of their groups, which stays so.
  pub gc_checkpoints-Collects :
      (locked moved checked : Rc) (c : Collector)
      → Keep c
      → length c.obsoleted_entries + length (entries_of (group invalid_ts c.blocked)) < fuel
      → Collects
          (gc_checkpoints new_group pushed lifetime checked_out latest fuel locked moved checked c)
  unfolding gc_checkpoints
  gc_checkpoints-Collects locked moved checked c kept short =
      if-cases Collects (failed locked) _ _ (λ bad. stopped locked c bad kept)
        (λ _.
          let t =
            taken-Kept moved c (get_blocked_entries new_group pushed lifetime invalid_ts c) kept
              short
              (get_blocked_entries-Fetched new_group pushed lifetime checked_out latest fuel c
                invalid_ts (inr (omega (arith, short)))) in
          swept-Collects (omega (arith, short)) checked
            (take_obsoleted new_group pushed lifetime checked_out latest moved
              (get_blocked_entries new_group pushed lifetime invalid_ts c))
            t.0 t.1)
