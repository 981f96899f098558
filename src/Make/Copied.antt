-- ===== src/Make/Copied.antt =====
-- The page of a round of `sivfs_apply_change_checkpoint` of kern/sivfs_make_checkpoint.c that is copied.
use sivfs_public.Base.{
  ℕ, ◌+◌, ◌≡◌, ◌≢◌, ◌⊎◌, inl, inr, refl, sym, ap, ◌∙◌, false, Option, none, some, List, [], ◌∷◌,
  arith, if-cases, if◌then◌else◌, Rc, ok, failed, subst,
}
use mathlib.Core.Bool.{true≢false}
use sivfs_public.Make.{
  PgInfo, Maker, override, new_checkpoint_page, on_obsolete_page, put_checkpoint_page, copy_page,
  page_pointer, store, store_obsoleted, next_answer,
}
use sivfs_public.Reclaim.{mark_pages_obsoleted}
use sivfs_public.Make.Link.{override_other, override_kept}
use sivfs_public.Make.Got.{
  pages_of, obsolete, HasNew, HasSame, Got, allocated, Allocated, allocated-HasNew,
  new_checkpoint_page-Allocated,
}

-- Noting that a page is obsolete touches no page.
pub record Untouched (old : ℕ) (m m' : Maker) : Type 0 where
  pub mem_eq : m'.mem ≡ m.mem
  pub pginfo_eq : m'.pginfo ≡ m.pginfo
  pub fresh_eq : m'.fresh ≡ m.fresh
  pub root_eq : m'.root ≡ m.root
  pub pushed_eq : (obsolete m' ≡ obsolete m) ⊎ (obsolete m' ≡ old ∷ obsolete m)

on_obsolete_page-Untouched : (old : ℕ) (m : Maker) → Untouched old m (on_obsolete_page old m).1
unfolding on_obsolete_page
on_obsolete_page-Untouched old m = noted m.obsoleted_pages refl
  where
    Fine : Rc × Maker → Type 0
    Fine r = Untouched old m r.1

    noted :
        (o : Option (List ℕ))
        → m.obsoleted_pages ≡ o
        → Fine (elim o [
          | some pages ↦
              if failed (next_answer m.answers).0
              then ((next_answer m.answers).0, record m { answers = (next_answer m.answers).1 })
              else (
                ok,
                record m {
                  answers = (next_answer m.answers).1;
                  obsoleted_pages = some (old ∷ pages);
                },
              )
          | none ↦ (
            (mark_pages_obsoleted
                (next_answer m.answers).0
                (page_pointer old ∷ [])
                none
                m.collector).0,
            record m {
              answers = (next_answer m.answers).1;
              collector =
                  (mark_pages_obsoleted
                    (next_answer m.answers).0
                    (page_pointer old ∷ [])
                    none
                    m.collector).1;
            },
          )
        ])
    noted (some pages) e =
        if-cases Fine (failed (next_answer m.answers).0) _ _
          (λ _. record {
            mem_eq = refl;
            pginfo_eq = refl;
            fresh_eq = refl;
            root_eq = refl;
            pushed_eq = inl refl;
          })
          (λ _. record {
            mem_eq = refl;
            pginfo_eq = refl;
            fresh_eq = refl;
            root_eq = refl;
            pushed_eq = inr (ap (λ (k : Option (List ℕ)). old ∷ pages_of k) (sym e));
          })
    noted none e = record {
      mem_eq = refl;
      pginfo_eq = refl;
      fresh_eq = refl;
      root_eq = refl;
      pushed_eq = inl refl;
    }

module _ (checkpoint_ts level : ℕ) (m : Maker) where
  abbrev pub copied_from : (old : ℕ) → Maker
  copied_from old = record (allocated checkpoint_ts level m) {
    pages_new = m.pages_new + 1;
    mem = override m.mem m.fresh (m.mem old);
  }

  -- The copy before the old page is noted as obsolete.
  abbrev marked_from : (old : ℕ) → Maker
  marked_from old = store_obsoleted old checkpoint_ts (copied_from old)

  marked-HasNew :
      (old : ℕ) (m' : Maker)
      → Untouched old (marked_from old) m'
      → old ≢ 0
      → (m.pginfo old).is_zero_page ≡ false
      → HasNew checkpoint_ts m old m' (m.mem old)
  marked-HasNew old m' u present real =
      allocated-HasNew checkpoint_ts level m old m' (m.mem old) u.mem_eq u.fresh_eq u.root_eq
        (λ p.
          ap (λ (f : ℕ → PgInfo). (f p).is_zero_page) u.pginfo_eq
          ∙ override_kept (λ (i : PgInfo). i.is_zero_page) (copied_from old).pginfo old _ p refl)
        (λ p.
          ap (λ (f : ℕ → PgInfo). (f p).checkpoint_ts) u.pginfo_eq
          ∙ override_kept (λ (i : PgInfo). i.checkpoint_ts) (copied_from old).pginfo old _ p refl)
        (elim u.pushed_eq [ inl e ↦ inl e | inr e ↦ inr (present, real, e) ])

  -- A new page is none of the old ones.
  HasNew-HasSame :
      (old : ℕ) (words : List ℕ) (m' : Maker) → HasNew checkpoint_ts m old m' words → HasSame m m'
  HasNew-HasSame old words m' n = record {
    kept_mem = λ p h.
        ap (λ (f : ℕ → List ℕ). f p) n.new_mem
        ∙ override_other m.mem m.fresh words p (λ g. absurd (omega arith));
    kept_zero = n.same_zero;
    kept_ts = n.same_ts;
    kept_fresh = omega (arith, n.new_fresh);
    kept_root = n.same_root;
  }

  pub copy_page-Got :
      (zero_pxd_page : List ℕ) (old : ℕ)
      → old ≢ 0
      → Got checkpoint_ts m old (m.mem old) (copy_page zero_pxd_page checkpoint_ts level old m)
  unfolding copy_page put_checkpoint_page
  copy_page-Got zero_pxd_page old present =
      after (new_checkpoint_page checkpoint_ts level m)
        (new_checkpoint_page-Allocated checkpoint_ts level m)
    where
      Copied : Rc × ℕ × Maker → Type 0
      Copied = Got checkpoint_ts m old (m.mem old)

      counted : Rc × ℕ × Maker → Maker
      counted g = record (g.2) { pages_new = g.2.pages_new + 1 }

      copied : Rc × ℕ × Maker → Maker
      copied g = store g.1 ((counted g).mem old) (counted g)

      noted : Rc × ℕ × Maker → Rc × Maker
      noted g = on_obsolete_page old (store_obsoleted old checkpoint_ts (copied g))

      finish : ℕ → Rc × Maker → Rc × ℕ × Maker
      finish p r = if failed r.0 then (r.0, 0, put_checkpoint_page r.1) else (ok, p, r.1)

      Outcome : Rc × ℕ × Maker → Type 0
      Outcome g = Copied (
          if failed g.0
          then g
          else if (m.pginfo old).is_zero_page
          then (ok, g.1, copied g)
          else finish g.1 (noted g))

      finished :
          (r : Rc × Maker)
          → Untouched old (marked_from old) r.1
          → (m.pginfo old).is_zero_page ≡ false
          → Copied (finish m.fresh r)
      finished r u real =
          if-cases Copied (failed r.0) (r.0, 0, put_checkpoint_page r.1) (ok, m.fresh, r.1)
            (λ bad. inl (
              bad,
              HasNew-HasSame old (m.mem old) (put_checkpoint_page r.1) (
                  marked-HasNew old (put_checkpoint_page r.1)
                    (record {
                      mem_eq = u.mem_eq;
                      pginfo_eq = u.pginfo_eq;
                      fresh_eq = u.fresh_eq;
                      root_eq = u.root_eq;
                      pushed_eq = u.pushed_eq;
                    })
                    present real),
            ))
            (λ good. inr (refl, refl, marked-HasNew old r.1 u present real))

      after : (g : Rc × ℕ × Maker) → Allocated checkpoint_ts level m g → Outcome g
      after g (inl (bad, same)) =
          if-cases Copied (failed g.0) g _ (λ _. inl (bad, same))
            (λ good. absurd (true≢false (sym bad ∙ good)))
      after g (inr e) = subst Outcome (sym e) (
          if-cases Copied (m.pginfo old).is_zero_page _ _
            (λ _. inr (
              refl,
              refl,
              allocated-HasNew checkpoint_ts level m old (copied_from old) (m.mem old) refl refl
                  refl (λ p. refl) (λ p. refl) (inl refl),
            ))
            (λ real.
              finished (on_obsolete_page old (marked_from old))
                (on_obsolete_page-Untouched old (marked_from old)) real))
