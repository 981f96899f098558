-- ===== src/Make/Frames.antt =====
-- What a part of kern/sivfs_make_checkpoint.c does not touch is not touched by several parts in turn.
use sivfs_public.Base.{ℕ, ◌<◌, inl, inr, sym, ◌∙◌, arith}
use sivfs_public.Make.{Maker}
use sivfs_public.Make.Round.{Foreign, Frame}

module _ (checkpoint_ts : ℕ) where
  pub Foreign-kept :
      (m m' : Maker) (p : ℕ)
      → Frame checkpoint_ts m m'
      → p < m.fresh
      → Foreign checkpoint_ts m p
      → Foreign checkpoint_ts m' p
  Foreign-kept m m' p f h (inl e) = inl e
  Foreign-kept m m' p f h (inr (inl e)) = inr (inl (f.zero_kept p h ∙ e))
  Foreign-kept m m' p f h (inr (inr e)) = inr (inr (λ g. e (sym (f.ts_kept p h) ∙ g)))

  pub Frame-trans :
      (m m' m'' : Maker)
      → Frame checkpoint_ts m m'
      → Frame checkpoint_ts m' m''
      → Frame checkpoint_ts m m''
  Frame-trans m m' m'' f g = record {
    grows = omega (arith, f.grows, g.grows);
    zero_kept = λ p h. g.zero_kept p (omega (arith, h, f.grows)) ∙ f.zero_kept p h;
    ts_kept = λ p h. g.ts_kept p (omega (arith, h, f.grows)) ∙ f.ts_kept p h;
    mem_kept = λ p h a.
        g.mem_kept p (omega (arith, h, f.grows)) (Foreign-kept m m' p f h a) ∙ f.mem_kept p h a;
  }
