-- ===== src/Reclaim/Sweep.antt =====
-- The loop of `sivfs_gc_checkpoints` in kern/sivfs_gc_checkpoints.c over the groups.
use sivfs_public.Base.{
  ℕ, ◌<◌, ◌≡◌, refl, sym, ◌∙◌, ap, inl, inr, Bool, true, false, Option, none, some, List, [], ◌∷◌,
  arith, length, Bool-cases, Rc, ok, failed, Option-cases,
}
use mathlib.Core.Bool.{true≢false}
use sivfs_public.Common.{invalid_ts}
use sivfs_public.Reclaim.{
  EntryType, Lifetime, Collector, still_blocked, group, drop_group, entry_to_lifetime, drain, sweep,
}
use sivfs_public.Reclaim.Groups.{entries_of, AllGroups, group-AllGroups}
use sivfs_public.Reclaim.Blockers.{IsLifetime, still_blocked-version}
use sivfs_public.Reclaim.Inv.{Pending, Fits, Kept, drop-Kept, next-skip, next-drop}
use sivfs_public.Reclaim.Drain.{Ends, drain-Ends}

module _ (new_group : ℕ → Rc) (pushed : ℕ → List ℕ → Rc)
    (lifetime : EntryType → ℕ → Option Lifetime) (checked_out : List ℕ) (latest fuel : ℕ)
    (small : latest < invalid_ts)
    (valid : (e : ℕ) (l : Lifetime)
      → entry_to_lifetime new_group pushed lifetime e ≡ some l
      → IsLifetime latest l) where
  abbrev Keep : (ℕ → ℕ) → Collector → Type 0
  Keep n c = Kept new_group pushed lifetime checked_out latest fuel n c

  abbrev Waits : List ℕ → Collector → Type 0
  Waits tss c = AllGroups (Pending new_group pushed lifetime checked_out latest fuel tss) c.blocked

  -- All groups were gone through: what is left is needed.
  pub sweep-Ends :
      0 < fuel
      → (did : Bool) (n : ℕ → ℕ) (tss : List ℕ) (c : Collector) → Keep n c
      → Waits tss c
      → Ends new_group pushed lifetime checked_out latest fuel small valid
          (Waits [])
          n
          c
          (sweep new_group pushed lifetime checked_out latest fuel did tss c)
  unfolding sweep
  sweep-Ends some_fuel did n [] c kept p = record {
    result = (ok, did, c);
    returns = refl;
    kept = kept;
    on_success = λ _. p;
    obsoleted = refl;
  }
  sweep-Ends some_fuel did n (ts ∷ tss) c kept p =
      elim (Bool-cases (still_blocked ts checked_out latest)) [
        | inl blocked ↦
            let rec = sweep-Ends some_fuel did n tss c kept (
              next-skip new_group pushed lifetime checked_out latest fuel ts tss n c kept
                (still_blocked-version checked_out latest ts blocked) blocked p) in
            record {
              result = rec.result;
              returns = ap choose blocked ∙ rec.returns;
              kept = rec.kept;
              on_success = rec.on_success;
              obsoleted = rec.obsoleted;
            }
        | inr open_group ↦
            let d =
              drain-Ends new_group pushed lifetime checked_out latest fuel small valid ts open_group
                fuel did n (ts ∷ tss) c (group ts c.blocked) refl (fits open_group) kept p in
            elim (Bool-cases (failed d.result.0)) [
              | inl bad ↦ record {
                result = d.result;
                returns = ap choose open_group ∙ ap after d.returns ∙ ap (next d.result) bad;
                kept = d.kept;
                on_success = λ good. absurd (true≢false (sym bad ∙ good));
                obsoleted = d.obsoleted;
              }
              | inr good ↦
                  let rec =
                    sweep-Ends some_fuel d.result.1 n tss
                      (record d.result.2 { blocked = drop_group ts d.result.2.blocked })
                      (drop-Kept new_group pushed lifetime checked_out latest fuel n d.result.2 ts
                        d.kept (d.on_success good).0)
                      (next-drop new_group pushed lifetime checked_out latest fuel ts tss d.result.2
                        d.kept.sorted (d.on_success good).1) in
                  record {
                    result = rec.result;
                    returns =
                        ap choose open_group
                        ∙ ap after d.returns
                        ∙ ap (next d.result) good
                        ∙ rec.returns;
                    kept = rec.kept;
                    on_success = rec.on_success;
                    obsoleted = rec.obsoleted ∙ d.obsoleted;
                  }
            ]
      ]
    where
      next : Rc × Bool × Collector → Bool → Option (Rc × Bool × Collector)
      next r b = elim b [
        | true ↦ some r
        | false ↦
            sweep new_group pushed lifetime checked_out latest fuel r.1 tss
              (record r.2 { blocked = drop_group ts r.2.blocked })
      ]

      after : Option (Rc × Bool × Collector) → Option (Rc × Bool × Collector)
      after o = elim o [ none ↦ none | some r ↦ next r (failed r.0) ]

      choose : Bool → Option (Rc × Bool × Collector)
      choose b = elim b [
        | true ↦ sweep new_group pushed lifetime checked_out latest fuel did tss c
        | false ↦ after (drain new_group pushed lifetime checked_out latest fuel ts did c)
      ]

      fits :
          still_blocked ts checked_out latest ≡ false
          → length (entries_of (group ts c.blocked)) < fuel
      fits open_group = elim (Option-cases (group ts c.blocked)) [
        | inl missing ↦ omega (arith, some_fuel, ap (λ o. length (entries_of o)) missing)
        | inr (es, there) ↦
            elim (group-AllGroups (Fits new_group pushed lifetime checked_out latest fuel) ts
              c.blocked es kept.fits there) [
                | inl blocked ↦ absurd (true≢false (sym blocked ∙ open_group))
                | inr short ↦ omega (arith, short, ap (λ o. length (entries_of o)) there)
              ]
      ]
