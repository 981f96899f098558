-- ===== src/Commit/Preserved.antt =====
-- Every step keeps the invariant of threads that commit by kern/sivfs_commit_update_checkpoints.c.
use sivfs_public.Base.{
  ℕ, suc, ◌+◌, ◌^◌, ◌≤◌, ◌<◌, ◌≡◌, refl, sym, inl, inr, ◌==◌, sub64, Bool-cases, ==_iff, ◌∙◌, ap,
  subst, Bool, true, false, not, ◌&&◌, Option, some, List, [], ◌∷◌, ◌++◌, arith, length, All,
  All-append, All-middle, All-replace, All-map, All-of, length-append, Rc, ok,
}
use mathlib.Core.Option.{some-injective, none-ne-some}
use sivfs_public.Writeset.Append.{Holds}
use sivfs_public.Writeset.Entry.{Entry}
use sivfs_public.Log.{LogEntry, Shared}
use sivfs_public.Log.Find.{Consecutive, Consecutive-append}
use sivfs_public.Commit.{commit_begin, commit_validate, commit_release}
use sivfs_public.Commit.Conflict.{Logged, clash}
use sivfs_public.Commit.Begin.{Appended, commit_begin-Begun, Begun}
use sivfs_public.Commit.Validate.{Txn, logs}
use sivfs_public.Commit.Window.{Free, commit_validate-decides, ts-place}
use sivfs_public.Commit.Steps.{begun}
use sivfs_public.Commit.Isolation.{
  Apart, IsTxn, Decided, IsValid, Isolated-append, Isolated-replace, Consecutive-replace,
  AreLogged-replace, AreLogged-append, logs-append, length-logs,
}

last-same : (xs : List LogEntry) (a b : LogEntry) → xs ++ (a ∷ []) ≡ xs ++ (b ∷ []) → a ≡ b
last-same [] a b e = cc
last-same (x ∷ xs) a b e = last-same xs a b cc

pub appended :
    (kmalloced : Option ℕ) (inserted : Rc) (s s' : Shared) (mine dest : LogEntry)
    → s.commit_started_ts < 2 ^ 62
    → commit_begin true kmalloced inserted s mine ≡ (ok, s')
    → s'.log ≡ s.log ++ (dest ∷ [])
    → Appended s mine dest s'
appended kmalloced inserted s s' mine dest small e l =
    subst (λ d. Appended s mine d s') (last-same s.log _ dest (sym got.1.log ∙ l)) got.1
  where
    got : (d : LogEntry) × Appended s mine d s'
    got =
        (subst (Begun true kmalloced inserted s mine) e
          (commit_begin-Begun true kmalloced inserted s mine (omega arith))).1

pub begins-IsValid :
    (first : ℕ) (s s' : Shared) (txns : List Txn) (mine dest : LogEntry) (es : List Entry)
    (state_ts : ℕ)
    → Logged mine es
    → state_ts ≤ s.master_ts
    → s.commit_started_ts < 2 ^ 62
    → Appended s mine dest s'
    → IsValid first (record { shared = s; txns = txns })
    → IsValid first (record { shared = s'; txns = txns ++ (begun dest es state_ts ∷ []) })
begins-IsValid first s s' txns mine dest es state_ts l snap small p v = record {
  logged =
      p.log
      ∙ ap (λ ds. ds ++ (dest ∷ [])) v.logged
      ∙ sym (logs-append txns (begun dest es state_ts ∷ []));
  consecutive = subst (Consecutive first) (sym (logs-append txns (begun dest es state_ts ∷ []))) (
      Consecutive-append first (logs txns) dest v.consecutive
        (omega (arith, p.ts, v.next, length-logs txns)));
  entries =
      AreLogged-append txns (begun dest es state_ts) v.entries
        (record { holds = p.same _ l.holds; entries = l.entries });
  each = All-append IsTxn txns (begun dest es state_ts ∷ []) v.each (
    record {
      undecided = λ k. p.live;
      recent = omega (arith, p.ts, snap, v.released);
      small = omega (arith, p.ts, small);
    },
    tt,
  );
  next = omega (arith, p.started, p.ts, v.next, length-append txns (begun dest es state_ts ∷ []));
  released = omega (arith, p.master, v.released, p.started, p.ts);
  decided =
      All-append (Decided s'.master_ts) txns (begun dest es state_ts ∷ [])
        (All-map (Decided s.master_ts) (Decided s'.master_ts) txns
          (λ t f k. f (omega (arith, p.master, k))) v.decided)
        (λ k. absurd (omega (arith, k, p.master, p.ts, v.released)), tt);
  opens = omega (arith, p.deleted, v.opens);
  isolated = Isolated-append txns (begun dest es state_ts) (λ t k. cc) v.isolated;
}

and-false : (a b : Bool) → b ≡ false → (a && b) ≡ false
and-false true b e = e
and-false false b e = refl

pub validates-IsValid :
    (first : ℕ) (s : Shared) (before : List Txn) (t : Txn) (after : List Txn) (dest : LogEntry)
    → t.entry.commit_status_filled_in ≡ false
    → commit_validate t.state_ts s t.entry ≡ some dest
    → IsValid first (record { shared = s; txns = before ++ (t ∷ after) })
    → IsValid first (record {
      shared = record s { log = logs (before ++ (record t { entry = dest } ∷ after)) };
      txns = before ++ (record t { entry = dest } ∷ after);
    })
validates-IsValid first s before t after dest undecided e v = record {
  logged = refl;
  consecutive = Consecutive-replace first before t t' after same_ts v.consecutive;
  entries =
      AreLogged-replace before t t' after
        (λ l. record { holds = subst (Holds _) (sym same_ws) l.holds; entries = l.entries })
        v.entries;
  each =
      All-replace IsTxn before t t' after
        (λ h. record {
          undecided = λ k. cc (filled, k);
          recent = omega (arith, h.recent, same_ts);
          small = omega (arith, h.small, same_ts);
        })
        v.each;
  next = omega (arith, v.next, length-append before (t ∷ after), length-append before (t' ∷ after));
  released = v.released;
  decided = All-replace (Decided s.master_ts) before t t' after (λ h k. filled) v.decided;
  opens = v.opens;
  isolated =
      Isolated-replace before t t' after free
        (λ w f k l m. and-false _ _ (
          ap (λ b. not b && clash w.writes t.writes) (sym (here.undecided undecided))
          ∙ f k l (subst (λ n. w.state_ts < n) same_ts m)))
        v.isolated;
}
  where
    t' : Txn
    t' = record t { entry = dest }

    here : IsTxn t
    here = All-middle IsTxn before t after v.each

    got :
        (b : Bool) × (commit_validate t.state_ts s t.entry
          ≡ some (record (t.entry) { aborted = b; commit_status_filled_in = true }))
        × (b ≡ false → All (Free t.writes t.state_ts) before)
    got =
        commit_validate-decides s first before t after v.logged v.consecutive v.entries v.opens
          (here.undecided undecided) here.recent here.small

    is_dest : dest ≡ record (t.entry) { aborted = got.0; commit_status_filled_in = true }
    is_dest = some-injective _ _ (sym e ∙ got.1)

    same_ts : dest.ts ≡ t.entry.ts
    same_ts = ap (λ (d : LogEntry). d.ts) is_dest

    same_ws : dest.ws ≡ t.entry.ws
    same_ws = ap (λ (d : LogEntry). d.ws) is_dest

    filled : dest.commit_status_filled_in ≡ true
    filled = ap (λ (d : LogEntry). d.commit_status_filled_in) is_dest

    status : dest.aborted ≡ got.0
    status = ap (λ (d : LogEntry). d.aborted) is_dest

    free : All (λ x. Apart x t') before
    free = elim (Bool-cases got.0) [
      | inl aborts ↦ All-of (λ x. Apart x t') before (λ x k live. cc (status, aborts, live))
      | inr commits ↦
          All-map (Free t.writes t.state_ts) (λ x. Apart x t') before (λ x f k live. f)
            (got.2 commits)
    ]

-- With `t` decided too, all up to its timestamp is.
release-Decided :
    (first m : ℕ) (before : List Txn) (t : Txn) (after : List Txn)
    → Consecutive first (logs (before ++ (t ∷ after)))
    → t.entry.commit_status_filled_in ≡ true
    → t.entry.ts ≡ suc m
    → All (Decided m) (before ++ (t ∷ after))
    → All (Decided (suc m)) (before ++ (t ∷ after))
release-Decided first m [] t after c done e d =
    (λ k. done, later (suc first) after c.1 (omega (arith, c.0)))
  where
    later :
        (next : ℕ) (ts : List Txn)
        → Consecutive next (logs ts)
        → suc m < next
        → All (Decided (suc m)) ts
    later next [] c h = tt
    later next (u ∷ us) c h =
        (λ k. absurd (omega (arith, k, c.0)), later (suc next) us c.1 (omega arith))
release-Decided first m (u ∷ before) t after c done e d = (
  λ k. d.0 (omega (arith, c.0, ts-place (suc first) before t after c.1)),
  release-Decided (suc first) m before t after c.1 done e d.1,
)

release-turn :
    (ts : ℕ) (s s' : Shared)
    → commit_release ts s ≡ some s'
    → (s.master_ts ≡ sub64 ts 1) × (record s { master_ts = ts } ≡ s')
unfolding commit_release
release-turn ts s s' e = elim (Bool-cases (s.master_ts == sub64 ts 1)) [
  | inr waits ↦ absurd (none-ne-some s' (sym (rw waits refl) ∙ e))
  | inl turn ↦ ((==_iff _ _).0 turn, some-injective _ _ (sym (rw turn refl) ∙ e))
]

pub releases-IsValid :
    (first : ℕ) (s s' : Shared) (before : List Txn) (t : Txn) (after : List Txn)
    → t.entry.commit_status_filled_in ≡ true
    → commit_release t.entry.ts s ≡ some s'
    → IsValid first (record { shared = s; txns = before ++ (t ∷ after) })
    → IsValid first (record { shared = s'; txns = before ++ (t ∷ after) })
releases-IsValid first s s' before t after done e v =
    subst (λ z. IsValid first (record { shared = z; txns = before ++ (t ∷ after) }))
      (release-turn t.entry.ts s s' e).1
      (record {
        logged = v.logged;
        consecutive = v.consecutive;
        entries = v.entries;
        each = v.each;
        next = v.next;
        released = omega (arith, place, v.next, length-append before (t ∷ after));
        decided =
            subst (λ m. All (Decided m) (before ++ (t ∷ after))) (sym next)
              (release-Decided first s.master_ts before t after v.consecutive done next v.decided);
        opens = v.opens;
        isolated = v.isolated;
      })
  where
    place : t.entry.ts ≡ first + length before
    place = ts-place first before t after v.consecutive

    here : IsTxn t
    here = All-middle IsTxn before t after v.each

    next : t.entry.ts ≡ suc s.master_ts
    next = omega (arith, (release-turn t.entry.ts s s' e).0, here.recent, here.small)
