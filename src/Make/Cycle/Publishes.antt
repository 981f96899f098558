-- ===== src/Make/Cycle/Publishes.antt =====
-- The publication of a new checkpoint in `sivfs_make_checkpoint` of kern/sivfs_make_checkpoint.c.
use sivfs_public.Base.{
  ℕ, ◌≤◌, ◌≡◌, ◌≢◌, ◌⊎◌, inl, inr, refl, sym, ap, subst, fun_ext, ◌∙◌, Bool, true, false, some,
  arith, if-cases, Rc, ok, einval, enomem, eexist, eagain, eintr, failed, not_failed,
}
use mathlib.Core.Bool.{true≢false}
use sivfs_public.Checkpoint.{
  Checkpoints, checkpoint_lookup, checkpoints_insert, checkpoints_insert_finish, checkpoints_remove,
}
use sivfs_public.Checkpoint.Insert.{checkpoint_lookup-insert}
use sivfs_public.Checkpoint.Remove.{Undoable, checkpoints_insert-Undoable}
use sivfs_public.Reclaim.{Collector, mark_pages_obsoleted}
use sivfs_public.Make.{override}
use sivfs_public.Make.Nodes.{number_cases}
use sivfs_public.Make.Link.{override_kept, override_self, override_other}
use sivfs_public.Make.Cycle.{
  CpInfo, Cycle, Answers, page_pointers, stacked, suppress, timestamp_of, publish,
}

-- The checkpoint `new` is published, as the latest one, and found from its timestamp on.
abbrev pub Published : (next_ts new : ℕ) → Cycle → Type 0
Published next_ts new c =
    (c.checkpoints.ts ≡ next_ts)
    × ((ts : ℕ) → next_ts ≤ ts → checkpoint_lookup c.checkpoints ts ≡ some new)

-- The inode of a checkpoint that is obsoleted from `next_ts` on.
abbrev pub obsolete : (next_ts : ℕ) → CpInfo → CpInfo
obsolete next_ts info = record info { obsoleted_ts = next_ts }

-- The index of the checkpoints is as before, and so are their inodes, but for the new one, and but for
-- that of the latest checkpoint, which may be marked as obsoleted.
pub record Unpublished (next_ts new : ℕ) (before c : Cycle) : Type 0 where
  pub index : c.checkpoints ≡ before.checkpoints
  pub inodes :
      (cp : ℕ)
      → cp ≢ new
      → (c.cpinfo cp ≡ before.cpinfo cp)
        ⊎ (before.checkpoints.checkpoint ≡ some cp)
          × (c.cpinfo cp ≡ obsolete next_ts (before.cpinfo cp))

abbrev pub Settled :
    (next_ts new : ℕ) → Cycle → (failure : Rc → Type 0) → Rc × Bool × Cycle → Type 0
Settled next_ts new before failure r =
    (r.1 ≡ true) × (r.0 ≡ ok) × Published next_ts new r.2
    ⊎ (r.1 ≡ false) × failure r.0 × Unpublished next_ts new before r.2

-- The exit turns a lack of memory into no error.
pub suppress-Settled :
    (next_ts new : ℕ) (before : Cycle) (r : Rc × Bool × Cycle)
    → Settled next_ts new before (λ rc. Unit) r
    → Settled next_ts new before (λ rc. rc ≢ enomem) (suppress r)
suppress-Settled next_ts new before (ok, f, c) (inl s) = inl s
suppress-Settled next_ts new before (ok, f, c) (inr (a, b, e)) = inr (a, λ h. cc, e)
suppress-Settled next_ts new before (enomem, f, c) (inl (a, b, e)) =
    absurd (true≢false (ap failed b))
suppress-Settled next_ts new before (enomem, f, c) (inr (a, b, e)) = inr (a, λ h. cc, e)
suppress-Settled next_ts new before (einval, f, c) (inl s) = inl s
suppress-Settled next_ts new before (einval, f, c) (inr (a, b, e)) = inr (a, λ h. cc, e)
suppress-Settled next_ts new before (eexist, f, c) (inl s) = inl s
suppress-Settled next_ts new before (eexist, f, c) (inr (a, b, e)) = inr (a, λ h. cc, e)
suppress-Settled next_ts new before (eagain, f, c) (inl s) = inl s
suppress-Settled next_ts new before (eagain, f, c) (inr (a, b, e)) = inr (a, λ h. cc, e)
suppress-Settled next_ts new before (eintr, f, c) (inl s) = inl s
suppress-Settled next_ts new before (eintr, f, c) (inr (a, b, e)) = inr (a, λ h. cc, e)

finish-ts :
    (cp : ℕ) (cp_ts : ℕ → ℕ) (c : Checkpoints)
    → (checkpoints_insert_finish cp_ts cp c).ts ≡ cp_ts cp
unfolding checkpoints_insert_finish
finish-ts cp cp_ts c = refl

module _ (answers : Answers) (next_ts prior new : ℕ) (before c : Cycle)
    (ts : timestamp_of c new ≡ next_ts) (latest : before.checkpoints.checkpoint ≡ some prior)
    (index : c.checkpoints ≡ before.checkpoints)
    (inodes : (cp : ℕ) → cp ≢ new → c.cpinfo cp ≡ before.cpinfo cp) where
  pub publish-Settled :
      Settled next_ts new before (λ rc. Unit) (publish false answers next_ts prior new c)
  unfolding publish
  publish-Settled =
      if-cases Ends (failed inserted.0) _ _
        (λ bad. inr (
          refl,
          tt,
          record { index = refused bad ∙ index; inodes = λ cp other. inl (inodes cp other) },
        ))
        (λ fine.
          if-cases Ends (failed noted.0) _ _
            (λ _. inr (refl, tt, record { index = undone fine ∙ index; inodes = marked_inodes }))
            (λ _. inl (refl, refl, published fine)))
    where
      Ends : Rc × Bool × Cycle → Type 0
      Ends = Settled next_ts new before (λ rc. Unit)

      marked : ℕ → CpInfo
      marked = override c.cpinfo prior (obsolete next_ts (c.cpinfo prior))

      marked_inodes :
          (cp : ℕ)
          → cp ≢ new
          → (marked cp ≡ before.cpinfo cp)
            ⊎ (before.checkpoints.checkpoint ≡ some cp)
              × (marked cp ≡ obsolete next_ts (before.cpinfo cp))
      marked_inodes cp other = elim (number_cases cp prior) [
        | inl same ↦ inr (
          latest ∙ ap some (sym same),
          ap marked same
              ∙ override_self c.cpinfo prior (obsolete next_ts (c.cpinfo prior))
              ∙ ap (obsolete next_ts) (ap c.cpinfo (sym same) ∙ inodes cp other),
        )
        | inr differs ↦ inl (
            override_other c.cpinfo prior (obsolete next_ts (c.cpinfo prior)) cp differs
            ∙ inodes cp other)
      ]

      inserted : Rc × Checkpoints
      inserted =
          checkpoints_insert (timestamp_of c) answers.locked answers.room (some new) c.checkpoints

      noted : Rc × Collector
      noted =
          mark_pages_obsoleted answers.reserved (page_pointers (stacked c.maker.obsoleted_pages))
            (some prior) c.maker.collector

      ended : Undoable (timestamp_of c) new c.checkpoints inserted
      ended =
          checkpoints_insert-Undoable (timestamp_of c) answers.locked answers.room new c.checkpoints

      marked_ts : ℕ → ℕ
      marked_ts cp =
          (override c.cpinfo prior (record (c.cpinfo prior) { obsoleted_ts = next_ts }) cp).cp_ts

      same_ts : marked_ts ≡ timestamp_of c
      same_ts = fun_ext (λ cp.
          override_kept (λ (i : CpInfo). i.cp_ts) c.cpinfo prior
            (record (c.cpinfo prior) { obsoleted_ts = next_ts }) cp refl)

      refused : failed inserted.0 ≡ true → inserted.1 ≡ c.checkpoints
      refused bad = elim ended [
        | inl (b, e) ↦ e
        | inr (good, e) ↦ absurd (true≢false (sym bad ∙ ap failed good))
      ]

      undone :
          failed inserted.0 ≡ false → checkpoints_remove marked_ts new inserted.1 ≡ c.checkpoints
      undone fine =
          ap (λ (t : ℕ → ℕ). checkpoints_remove t new inserted.1) same_ts
          ∙ elim ended [ inl (b, e) ↦ absurd (true≢false (sym b ∙ fine)) | inr (good, e) ↦ e ]

      Found : (ℕ → ℕ) → Type 0
      Found t =
          ((checkpoints_insert_finish t new inserted.1).ts ≡ next_ts)
          × ((k : ℕ)
              → next_ts ≤ k
              → checkpoint_lookup (checkpoints_insert_finish t new inserted.1) k ≡ some new)

      published : failed inserted.0 ≡ false → Found marked_ts
      published fine = subst Found (sym same_ts) (
        finish-ts new (timestamp_of c) inserted.1 ∙ ts,
        λ k h.
            checkpoint_lookup-insert (timestamp_of c) answers.locked answers.room new c.checkpoints
              k (not_failed inserted.0 fine) (omega (arith, h, ts)),
      )
