-- ===== src/Reclaim/Tests.antt =====
-- Tests of kern/sivfs_gc_checkpoints.c at concrete inputs.
use sivfs_public.Base.{
  ℕ, ◌+◌, ◌≡◌, refl, sym, ◌∙◌, ap, subst, inl, inr, true, false, Option, some, none, [], ◌∷◌, arith,
  Option-cases, ok, enomem, ◌==◌, if◌then◌else◌,
}
use mathlib.Core.Option.{some-injective, none-ne-some}
use sivfs_public.Reclaim.{
  EntryType, page, inode, Lifetime, Collector, entry_to_type, entry_to_pointer, entry_to_lifetime,
  group, put_group, drop_group, pop_group, last_blocker, reassign_to, still_blocked,
  blocked_entries_empty, made, get_blocked_entries, push_entry, gc_or_reassign_entry, drain, sweep,
  swept, take_obsoleted, gc_checkpoints,
}
use sivfs_public.Reclaim.Groups.{tally, tally_groups}
use sivfs_public.Reclaim.Blockers.{IsLifetime}
use sivfs_public.Reclaim.Inv.{Kept}
use sivfs_public.Reclaim.Collect.{Collected, gc_checkpoints-Collects}

-- Pages are visible before version 2, inodes before version 3.
abbrev lifetime : EntryType → ℕ → Option Lifetime
lifetime page pointer = some (record { start_ts = 0; obsoleted_ts = 2 })
lifetime inode pointer = some (record { start_ts = 0; obsoleted_ts = 3 })

-- A page waits for version 1, and an inode was made obsolete.
abbrev waiting : Collector
waiting = record { obsoleted_entries = 20 ∷ []; blocked = (1, 10 ∷ []) ∷ []; freed = [] }

-- With versions 2 and 7 checked out, the page is freed and the inode waits for version 2.
run-waiting :
    gc_checkpoints (λ _. ok) (λ _ _. ok) lifetime (2 ∷ 7 ∷ []) 5 2 ok ok ok waiting
    ≡ some
        (ok, true, record { obsoleted_entries = []; blocked = (2, 20 ∷ []) ∷ []; freed = 10 ∷ [] })
unfolding gc_checkpoints swept take_obsoleted get_blocked_entries made group put_group drop_group
    pop_group blocked_entries_empty sweep still_blocked drain gc_or_reassign_entry entry_to_lifetime
    entry_to_type reassign_to last_blocker push_entry
run-waiting = refl

-- Without memory for the group of version 2, the inode stays where it is.
run-enomem :
    gc_checkpoints
      (λ ts. if ts == 2 then enomem else ok)
      (λ _ _. ok)
      lifetime
      (2 ∷ 7 ∷ [])
      5
      2
      ok
      ok
      ok
      (record waiting { blocked = [] })
    ≡ some (
      enomem,
      false,
      record { obsoleted_entries = []; blocked = (18446744073709551615, 20 ∷ []) ∷ []; freed = [] },
    )
unfolding gc_checkpoints swept take_obsoleted get_blocked_entries made group put_group drop_group
    pop_group blocked_entries_empty sweep still_blocked drain gc_or_reassign_entry entry_to_lifetime
    entry_to_type reassign_to last_blocker push_entry
run-enomem = refl

lifetime-IsLifetime :
    (e : ℕ) (l : Lifetime)
    → entry_to_lifetime (λ _. ok) (λ _ _. ok) lifetime e ≡ some l
    → IsLifetime 5 l
unfolding entry_to_lifetime
lifetime-IsLifetime e l has = elim (Option-cases (entry_to_type e)) [
  | inl missing ↦ absurd (none-ne-some l (sym (ap read missing) ∙ has))
  | inr (page, there) ↦
      subst (IsLifetime 5) (some-injective _ l (sym (ap read there) ∙ has))
        (record { published = omega arith; is_word = omega arith })
  | inr (inode, there) ↦
      subst (IsLifetime 5) (some-injective _ l (sym (ap read there) ∙ has))
        (record { published = omega arith; is_word = omega arith })
]
  where
    read : Option EntryType → Option Lifetime
    read o = elim o [ none ↦ none | some type ↦ lifetime type (entry_to_pointer e) ]

abbrev copies : ℕ → ℕ
copies x = tally x (20 ∷ []) + tally_groups x ((1, 10 ∷ []) ∷ []) + tally x []

waiting-Kept : Kept (λ _. ok) (λ _ _. ok) lifetime (2 ∷ 7 ∷ []) 5 2 copies waiting
unfolding entry_to_lifetime entry_to_type
waiting-Kept = record {
  sorted = (tt, tt);
  seen = (
    (λ _. (
      (
        record { start_ts = 0; obsoleted_ts = 2 },
        refl,
        record { started = omega arith; obsoleted = omega arith },
      ),
      tt,
    )),
    tt,
  );
  fits = (inr (omega arith), tt);
  gone = tt;
  sum = λ x. refl;
}

gc_checkpoints-Collects_example :
    Collected
      (λ _. ok)
      (λ _ _. ok)
      lifetime
      (2 ∷ 7 ∷ [])
      5
      2
      copies
      (gc_checkpoints (λ _. ok) (λ _ _. ok) lifetime (2 ∷ 7 ∷ []) 5 2 ok ok ok waiting)
unfolding group
gc_checkpoints-Collects_example =
    gc_checkpoints-Collects (λ _. ok) (λ _ _. ok) lifetime (2 ∷ 7 ∷ []) 5 2 (omega arith)
      lifetime-IsLifetime copies ok ok ok waiting waiting-Kept (omega arith)
