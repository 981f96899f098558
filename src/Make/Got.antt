-- ===== src/Make/Got.antt =====
-- The page that a round of the loop of `sivfs_apply_change_checkpoint` of kern/sivfs_make_checkpoint.c works
-- on: the one that is there, or a new one.
use sivfs_public.Base.{
  ℕ, suc, ◌+◌, ◌<◌, ◌≤◌, ◌≡◌, ◌≢◌, ◌⊎◌, inl, inr, refl, sym, ap, ◌∙◌, true, false, Option, none,
  some, List, [], ◌∷◌, arith, if-cases, if◌then◌else◌, ltb, Rc, ok, enomem, failed, subst,
}
use mathlib.Core.Bool.{true≢false}
use sivfs_public.Make.{
  PgInfo, Maker, override, new_pginfo, new_checkpoint_page, blank_page, next_answer,
  max_checkpoint_pages, mk_zero_checkpoint_page,
}
use sivfs_public.Make.Link.{override_self, override_other}

-- The pages that the maker has made obsolete so far.
abbrev pub pages_of : Option (List ℕ) → List ℕ
pages_of none = []
pages_of (some pages) = pages

abbrev pub obsolete : Maker → List ℕ
obsolete m = pages_of m.obsoleted_pages

-- The pages are those of before, with one new page; which pages are zero pages, and of which checkpoint, is
-- as before.
pub record HasNew (checkpoint_ts : ℕ) (m : Maker) (old : ℕ) (m' : Maker) (words : List ℕ)
    : Type 0 where
  pub new_mem : m'.mem ≡ override m.mem m.fresh words
  pub new_fresh : m'.fresh ≡ suc m.fresh
  pub same_root : m'.root ≡ m.root
  pub same_zero : (p : ℕ) → p < m.fresh → (m'.pginfo p).is_zero_page ≡ (m.pginfo p).is_zero_page
  pub same_ts : (p : ℕ) → p < m.fresh → (m'.pginfo p).checkpoint_ts ≡ (m.pginfo p).checkpoint_ts
  pub new_zero : (m'.pginfo m.fresh).is_zero_page ≡ false
  pub new_ts : (m'.pginfo m.fresh).checkpoint_ts ≡ checkpoint_ts
  pub pushed :
      (obsolete m' ≡ obsolete m)
      ⊎ (old ≢ 0) × ((m.pginfo old).is_zero_page ≡ false) × (obsolete m' ≡ old ∷ obsolete m)

-- Nothing of the pages that are there has changed, but for when they become obsolete.
pub record HasSame (m m' : Maker) : Type 0 where
  pub kept_mem : (p : ℕ) → p < m.fresh → m'.mem p ≡ m.mem p
  pub kept_zero : (p : ℕ) → p < m.fresh → (m'.pginfo p).is_zero_page ≡ (m.pginfo p).is_zero_page
  pub kept_ts : (p : ℕ) → p < m.fresh → (m'.pginfo p).checkpoint_ts ≡ (m.pginfo p).checkpoint_ts
  pub kept_fresh : m.fresh ≤ m'.fresh
  pub kept_root : m'.root ≡ m.root

-- How the page of a round may be had: not at all, or as a new page with some words.
abbrev pub Got : (checkpoint_ts : ℕ) → (m : Maker) → (old : ℕ) → List ℕ → Rc × ℕ × Maker → Type 0
Got checkpoint_ts m old words r =
    (failed r.0 ≡ true) × HasSame m r.2
    ⊎ (r.0 ≡ ok) × (r.1 ≡ m.fresh) × HasNew checkpoint_ts m old r.2 words

pub HasSame-refl :
    (m m' : Maker)
    → m'.mem ≡ m.mem
    → m'.pginfo ≡ m.pginfo
    → m'.fresh ≡ m.fresh
    → m'.root ≡ m.root
    → HasSame m m'
HasSame-refl m m' a b c d = record {
  kept_mem = λ p h. ap (λ (f : ℕ → List ℕ). f p) a;
  kept_zero = λ p h. ap (λ (f : ℕ → PgInfo). (f p).is_zero_page) b;
  kept_ts = λ p h. ap (λ (f : ℕ → PgInfo). (f p).checkpoint_ts) b;
  kept_fresh = omega (arith, c);
  kept_root = d;
}

module _ (checkpoint_ts level : ℕ) (m : Maker) where
  abbrev pub allocated : Maker
  allocated = record m {
    pginfo = override m.pginfo m.fresh (new_pginfo checkpoint_ts level);
    fresh = suc m.fresh;
    ncheckpoint_pages = m.ncheckpoint_pages + 1;
    answers = (next_answer m.answers).1;
  }

  -- How an allocation may end.
  abbrev pub Allocated : Rc × ℕ × Maker → Type 0
  Allocated r = (failed r.0 ≡ true) × HasSame m r.2 ⊎ (r ≡ (ok, m.fresh, allocated))

  pub new_checkpoint_page-Allocated : Allocated (new_checkpoint_page checkpoint_ts level m)
  unfolding new_checkpoint_page
  new_checkpoint_page-Allocated =
      if-cases Allocated (ltb max_checkpoint_pages (m.ncheckpoint_pages + 1)) (enomem, 0, m) _
        (λ _. inl (refl, HasSame-refl m m refl refl refl refl))
        (λ _.
          if-cases Allocated (failed (next_answer m.answers).0) _ (ok, m.fresh, allocated)
            (λ bad. inl (bad, HasSame-refl m _ refl refl refl refl)) (λ _. inr refl))

  -- A page with all its words set is a new one.
  pub allocated-HasNew :
      (old : ℕ) (m' : Maker) (words : List ℕ)
      → m'.mem ≡ override m.mem m.fresh words
      → m'.fresh ≡ suc m.fresh
      → m'.root ≡ m.root
      → ((p : ℕ) → (m'.pginfo p).is_zero_page ≡ (allocated.pginfo p).is_zero_page)
      → ((p : ℕ) → (m'.pginfo p).checkpoint_ts ≡ (allocated.pginfo p).checkpoint_ts)
      → (obsolete m' ≡ obsolete m)
        ⊎ (old ≢ 0) × ((m.pginfo old).is_zero_page ≡ false) × (obsolete m' ≡ old ∷ obsolete m)
      → HasNew checkpoint_ts m old m' words
  allocated-HasNew old m' words a b c d e f = record {
    pushed = f;
    new_mem = a;
    new_fresh = b;
    same_root = c;
    same_zero = λ p h.
        d p
        ∙ ap (λ (i : PgInfo). i.is_zero_page)
            (override_other m.pginfo m.fresh (new_pginfo checkpoint_ts level) p (λ g. omega arith));
    same_ts = λ p h.
        e p
        ∙ ap (λ (i : PgInfo). i.checkpoint_ts)
            (override_other m.pginfo m.fresh (new_pginfo checkpoint_ts level) p (λ g. omega arith));
    new_zero =
        d m.fresh
        ∙ ap (λ (i : PgInfo). i.is_zero_page)
            (override_self m.pginfo m.fresh (new_pginfo checkpoint_ts level));
    new_ts =
        e m.fresh
        ∙ ap (λ (i : PgInfo). i.checkpoint_ts)
            (override_self m.pginfo m.fresh (new_pginfo checkpoint_ts level));
  }

  pub blank_page-Got :
      (zero_pxd_page : List ℕ)
      → Got checkpoint_ts m 0
          (mk_zero_checkpoint_page zero_pxd_page level)
          (blank_page zero_pxd_page checkpoint_ts level m)
  unfolding blank_page
  blank_page-Got zero_pxd_page =
      after (new_checkpoint_page checkpoint_ts level m) new_checkpoint_page-Allocated
    where
      words : List ℕ
      words = mk_zero_checkpoint_page zero_pxd_page level

      Outcome : Rc × ℕ × Maker → Type 0
      Outcome g = Got checkpoint_ts m 0 words (
          if failed g.0 then g else (
            ok,
            g.1,
            record (g.2) { pages_new = g.2.pages_new + 1; mem = override g.2.mem g.1 words },
          ))

      after : (g : Rc × ℕ × Maker) → Allocated g → Outcome g
      after g (inl (bad, same)) =
          if-cases (Got checkpoint_ts m 0 words) (failed g.0) g _ (λ _. inl (bad, same))
            (λ good. absurd (true≢false (sym bad ∙ good)))
      after g (inr e) = subst Outcome (sym e) (
          inr (
            refl,
            refl,
            allocated-HasNew 0 _ words refl refl refl (λ p. refl) (λ p. refl) (inl refl),
          ))
