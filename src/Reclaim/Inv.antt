-- ===== src/Reclaim/Inv.antt =====
-- The invariant of the collection of kern/sivfs_gc_checkpoints.c.
use sivfs_public.Base.{
  ℕ, ◌+◌, ◌<◌, ◌≡◌, ◌≢◌, ◌⊎◌, sym, ◌∙◌, ap, subst, inl, inr, true, false, ◌||◌, Option, some, List,
  [], ◌∷◌, arith, All, All-map, Among, length, leb, if◌then◌else◌, ==_ne, Bool-cases, leb→le, Rc,
}
use sivfs_public.Common.{invalid_ts}
use sivfs_public.Reclaim.{
  EntryType, Lifetime, Collector, holds_version, still_blocked, group, put_group, drop_group,
  entry_to_lifetime,
}
use sivfs_public.Reclaim.Groups.{
  tally, tally_groups, entries_of, AllGroups, Sorted, put-tally, drop-tally, put-AllGroups,
  drop-AllGroups, AllGroups-map, AllGroups-both,
}
use sivfs_public.Reclaim.Order.{put-Sorted, drop-Sorted, drop-gone}
use sivfs_public.Reclaim.Blockers.{Sees, Unneeded}

-- A thread may still see the entry: in the latest checkpoint, or in a version it has checked out.
abbrev pub Needed : (checked_out : List ℕ) → (latest : ℕ) → Lifetime → Type 0
Needed checked_out latest l =
    (latest < l.obsoleted_ts) ⊎ ((v : ℕ) × (holds_version v checked_out ≡ true) × Sees l v)

module _ (new_group : ℕ → Rc) (pushed : ℕ → List ℕ → Rc)
    (lifetime : EntryType → ℕ → Option Lifetime) where
  -- A property of the lifetime of an entry that has one.
  abbrev pub Lives : (Lifetime → Type 0) → ℕ → Type 0
  Lives P entry =
      (l : Lifetime) × (entry_to_lifetime new_group pushed lifetime entry ≡ some l) × P l

  module _ (checked_out : List ℕ) (latest fuel : ℕ) where
    -- The entries of a group are visible in its version.
    abbrev pub Seen : ℕ → List ℕ → Type 0
    Seen ts es = ts ≢ invalid_ts → All (Lives (λ l. Sees l ts)) es

    -- A group waits for its turn, or all its entries are needed.
    abbrev pub Pending : (tss : List ℕ) → ℕ → List ℕ → Type 0
    Pending tss ts es = Among ts tss ⊎ All (Lives (Needed checked_out latest)) es

    -- A group that is not blocked is emptied within the fuel.
    abbrev pub Fits : ℕ → List ℕ → Type 0
    Fits ts es = (still_blocked ts checked_out latest ≡ true) ⊎ (length es < fuel)

    -- The timestamps of the groups grow; entries stand in groups of versions they are visible in; what
    -- was freed is needed by nobody; and an entry `x` stands `n x` times in the lists all together.
    pub record Kept (n : ℕ → ℕ) (c : Collector) : Type 0 where
      pub sorted : Sorted c.blocked
      pub seen : AllGroups Seen c.blocked
      pub fits : AllGroups Fits c.blocked
      pub gone : All (Lives (Unneeded checked_out latest)) c.freed
      pub sum :
          (x : ℕ) → tally x c.obsoleted_entries + tally_groups x c.blocked + tally x c.freed ≡ n x

    pub Blocks-Needed :
        (l : Lifetime) (ts : ℕ)
        → ts ≢ invalid_ts
        → still_blocked ts checked_out latest ≡ true
        → Sees l ts
        → Needed checked_out latest l
    unfolding still_blocked
    Blocks-Needed l ts n e s = elim (Bool-cases (leb latest ts)) [
      | inl newer ↦ inl (omega (arith, leb→le _ _ newer, s.obsoleted))
      | inr older ↦ inr (
        ts,
        sym (ap (λ b. b || holds_version ts checked_out) older)
            ∙ sym (
                ap (λ b. if b then false else leb latest ts || holds_version ts checked_out)
                  (==_ne ts invalid_ts n))
            ∙ e,
        s,
      )
    ]

    pub blocked-Needed :
        (ts : ℕ) (es : List ℕ)
        → ts ≢ invalid_ts
        → still_blocked ts checked_out latest ≡ true
        → Seen ts es
        → All (Lives (Needed checked_out latest)) es
    blocked-Needed ts es n e s =
        All-map (Lives (λ l. Sees l ts)) (Lives (Needed checked_out latest)) es
          (λ x (h : Lives (λ l. Sees l ts) x). (h.0, h.1, Blocks-Needed h.0 ts n e h.2)) (s n)

    -- A group is stored.
    pub put-Kept :
        (n m : ℕ → ℕ) (c : Collector) (ts : ℕ) (new : List ℕ)
        → Kept n c
        → Seen ts new
        → Fits ts new
        → ((x : ℕ) → n x + tally x new ≡ m x + tally x (entries_of (group ts c.blocked)))
        → Kept m (record c { blocked = put_group ts new c.blocked })
    put-Kept n m c ts new k seen fits count = record {
      sorted = put-Sorted ts new c.blocked k.sorted;
      seen = put-AllGroups Seen ts new c.blocked k.seen seen;
      fits = put-AllGroups Fits ts new c.blocked k.fits fits;
      gone = k.gone;
      sum = λ x. omega (arith, k.sum x, count x, put-tally x ts new c.blocked);
    }

    -- A group that is empty or not there is deleted.
    pub drop-Kept :
        (n : ℕ → ℕ) (c : Collector) (ts : ℕ)
        → Kept n c
        → entries_of (group ts c.blocked) ≡ []
        → Kept n (record c { blocked = drop_group ts c.blocked })
    drop-Kept n c ts k e = record {
      sorted = drop-Sorted ts c.blocked k.sorted;
      seen = drop-AllGroups Seen ts c.blocked k.seen;
      fits = drop-AllGroups Fits ts c.blocked k.fits;
      gone = k.gone;
      sum = λ x. omega (arith, k.sum x, drop-tally x ts c.blocked, ap (tally x) e);
    }

    -- The next timestamp of the loop is done.
    pub next-skip :
        (ts : ℕ) (tss : List ℕ) (n : ℕ → ℕ) (c : Collector)
        → Kept n c
        → ts ≢ invalid_ts
        → still_blocked ts checked_out latest ≡ true
        → AllGroups (Pending (ts ∷ tss)) c.blocked
        → AllGroups (Pending tss) c.blocked
    next-skip ts tss n c k v e p =
        AllGroups-map (λ t es. Seen t es × Pending (ts ∷ tss) t es) (Pending tss) c.blocked
          (λ t es (h : Seen t es × Pending (ts ∷ tss) t es). elim h.1 [
            | inl m ↦ elim m [
              | inl same ↦ inr (
                  subst (λ j. Seen j es → All (Lives (Needed checked_out latest)) es) (sym same)
                    (blocked-Needed ts es v e) h.0)
              | inr later ↦ inl later
            ]
            | inr all ↦ inr all
          ])
          (AllGroups-both Seen (Pending (ts ∷ tss)) c.blocked k.seen p)

    pub next-drop :
        (ts : ℕ) (tss : List ℕ) (c : Collector)
        → Sorted c.blocked
        → AllGroups (Pending (ts ∷ tss)) c.blocked
        → AllGroups (Pending tss) (drop_group ts c.blocked)
    next-drop ts tss c s p =
        AllGroups-map (λ t es. t ≢ ts × Pending (ts ∷ tss) t es) (Pending tss)
          (drop_group ts c.blocked)
          (λ t es (h : t ≢ ts × Pending (ts ∷ tss) t es). elim h.1 [
            | inl m ↦ elim m [ inl same ↦ absurd (h.0 same) | inr later ↦ inl later ]
            | inr all ↦ inr all
          ])
          (AllGroups-both (λ t _. t ≢ ts) (Pending (ts ∷ tss)) (drop_group ts c.blocked)
            (drop-gone ts c.blocked s) (drop-AllGroups (Pending (ts ∷ tss)) ts c.blocked p))
