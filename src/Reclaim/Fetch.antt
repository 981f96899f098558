-- ===== src/Reclaim/Fetch.antt =====
-- `sivfs_gc_get_blocked_entries` of kern/sivfs_gc_checkpoints.c.
use sivfs_public.Base.{
  ℕ, ◌≡◌, ◌≢◌, refl, sym, ◌∙◌, ap, inr, false, Option, none, some, List, [], arith, if-cases, Rc,
  ok, failed,
}
use mathlib.Core.Bool.{true≢false}
use sivfs_public.Reclaim.{
  EntryType, Lifetime, Collector, group, put_group, made, get_blocked_entries,
}
use sivfs_public.Reclaim.Groups.{tally, entries_of, AllGroups, put-AllGroups}
use sivfs_public.Reclaim.Order.{group-put, group-put_other}
use sivfs_public.Reclaim.Inv.{Pending, Fits, Kept, put-Kept}

module _ (new_group : ℕ → Rc) (pushed : ℕ → List ℕ → Rc)
    (lifetime : EntryType → ℕ → Option Lifetime) (checked_out : List ℕ) (latest fuel : ℕ) where
  -- Looking up a group, which may make it, leaves the others.
  pub record Fetched (c : Collector) (ts : ℕ) (r : Rc × List ℕ × Collector) : Type 0 where
    pub kept :
        (n : ℕ → ℕ)
        → Kept new_group pushed lifetime checked_out latest fuel n c
        → Kept new_group pushed lifetime checked_out latest fuel n r.2
    pub found : failed r.0 ≡ false → group ts r.2.blocked ≡ some r.1
    pub entries : r.1 ≡ entries_of (group ts c.blocked)
    pub others : (k : ℕ) → k ≢ ts → group k r.2.blocked ≡ group k c.blocked
    pub pending :
        (tss : List ℕ)
        → AllGroups (Pending new_group pushed lifetime checked_out latest fuel tss) c.blocked
        → AllGroups (Pending new_group pushed lifetime checked_out latest fuel tss) r.2.blocked
    pub obsoleted : r.2.obsoleted_entries ≡ c.obsoleted_entries

  made-Fetched :
      (c : Collector) (ts : ℕ) (rc : Rc) (o : Option (List ℕ))
      → Fits new_group pushed lifetime checked_out latest fuel ts []
      → group ts c.blocked ≡ o
      → Fetched c ts (made new_group pushed lifetime ts c rc o)
  unfolding made
  made-Fetched c ts rc (some es) fits e = record {
    kept = λ n k. k;
    found = λ _. e;
    entries = sym (ap entries_of e);
    others = λ k n. refl;
    pending = λ tss p. p;
    obsoleted = refl;
  }
  made-Fetched c ts rc none fits e =
      if-cases (Fetched c ts) (failed rc) (rc, [], c)
        (ok, [], record c { blocked = put_group ts [] c.blocked })
        (λ bad. record {
          kept = λ n k. k;
          found = λ good. absurd (true≢false (sym bad ∙ good));
          entries = sym (ap entries_of e);
          others = λ k n. refl;
          pending = λ tss p. p;
          obsoleted = refl;
        })
        (λ _. record {
          kept = λ n k.
              put-Kept new_group pushed lifetime checked_out latest fuel n n c ts [] k (λ _. tt)
                fits (λ x. omega (arith, ap (λ o. tally x (entries_of o)) e));
          found = λ _. group-put ts [] c.blocked;
          entries = sym (ap entries_of e);
          others = λ k n. group-put_other k ts [] c.blocked n;
          pending = λ tss p.
              put-AllGroups (Pending new_group pushed lifetime checked_out latest fuel tss) ts []
                c.blocked p (inr tt);
          obsoleted = refl;
        })

  pub get_blocked_entries-Fetched :
      (c : Collector) (ts : ℕ)
      → Fits new_group pushed lifetime checked_out latest fuel ts []
      → Fetched c ts (get_blocked_entries new_group pushed lifetime ts c)
  unfolding get_blocked_entries
  get_blocked_entries-Fetched c ts fits =
      made-Fetched c ts (new_group ts) (group ts c.blocked) fits refl
