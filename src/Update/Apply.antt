-- ===== src/Update/Apply.antt =====
-- The log entries that `sivfs_update` of kern/sivfs_commit_update_checkpoints.c applies to a workingset:
-- its pages follow the log.
use sivfs_public.Base.{
  ℕ, zero, suc, ◌+◌, ◌*◌, ◌/◌, ◌≤◌, ◌<◌, ◌≡◌, refl, fun_ext, ◌∙◌, ap, inl, inr, ◌&&◌, Option, none,
  some, List, [], ◌∷◌, arith, le→ltb, ◌==◌, ==_iff, ==_ne, Bool-cases, if◌then◌else◌, length, take,
  All,
}
use mathlib.Core.Option
use sivfs_public.Writeset.Entry.{Entry}
use sivfs_public.Walk.{next, done, then_next}
use sivfs_public.Walk.Fold.{header, fold, walk_all-fold}
use sivfs_public.Log.Find.{Consecutive}
use sivfs_public.Commit.Validate.{Txn, logs, at_end-false}
use sivfs_public.Page.{page_size, apply_ws_ent_pg, as_step}
use sivfs_public.Page.First.{IsLogged}
use sivfs_public.Page.Replay.{replay_entry, replay_entries, replay}
use sivfs_public.Update.{
  AnonInode, or_fail, apply_body, apply_log_entry, apply_unless_skipped, apply_logs_loop,
  apply_logs,
}
use sivfs_public.Update.Write.{IsPlain, page_at, written, apply_ent-written}

-- Every page of `ws` that is mapped in is `f` of what it was, none came and none went.
abbrev pub Applied : (ℕ → ℕ → List ℕ → List ℕ) → List AnonInode → List AnonInode → Type 0
Applied f ws ws' =
    All IsPlain ws'
    × ((ino pgoff : ℕ) → page_at ino pgoff ws' ≡ Option.map (f ino pgoff) (page_at ino pgoff ws))

map-map :
    (f g : List ℕ → List ℕ) (o : Option (List ℕ))
    → Option.map g (Option.map f o) ≡ Option.map (λ m. g (f m)) o
map-map f g none = refl
map-map f g (some m) = refl

map-id : (o : Option (List ℕ)) → o ≡ Option.map (λ m. m) o
map-id none = refl
map-id (some m) = refl

Applied-then :
    (f g : ℕ → ℕ → List ℕ → List ℕ) (a b c : List AnonInode)
    → Applied f a b
    → Applied g b c
    → Applied (λ ino pgoff m. g ino pgoff (f ino pgoff m)) a c
Applied-then f g a b c p q = (
  q.0,
  λ ino pgoff.
      q.1 ino pgoff
      ∙ ap (Option.map (g ino pgoff)) (p.1 ino pgoff)
      ∙ map-map (f ino pgoff) (g ino pgoff) (page_at ino pgoff a),
)

pub Applied-same :
    (f g : ℕ → ℕ → List ℕ → List ℕ) (a b : List AnonInode)
    → ((ino pgoff : ℕ) (m : List ℕ) → f ino pgoff m ≡ g ino pgoff m)
    → Applied f a b
    → Applied g a b
Applied-same f g a b e p = (
  p.0,
  λ ino pgoff. p.1 ino pgoff ∙ ap (λ h. Option.map h (page_at ino pgoff a)) (fun_ext (e ino pgoff)),
)

Applied-none : (ws : List AnonInode) → All IsPlain ws → Applied (λ ino pgoff m. m) ws ws
Applied-none ws h = (h, λ ino pgoff. map-id (page_at ino pgoff ws))

-- The page at `pgoff` as a fault on it replays the log.
abbrev pub at_page : (ℕ → ℕ → List ℕ → List ℕ) → ℕ → ℕ → List ℕ → List ℕ
at_page f ino pgoff = f ino (pgoff * page_size)

written-replay :
    (e : Entry) (ino pgoff : ℕ) (m : List ℕ)
    → written (header e) ino pgoff m ≡ replay_entry ino (pgoff * page_size) e m
written-replay e ino pgoff m =
    ap
      (λ p.
        if e.ino == ino && e.file_offset / page_size == p then apply_ws_ent_pg (header e) m else m)
      back
  where
    back : pgoff ≡ pgoff * page_size / page_size
    back = omega arith

fold-apply :
    (es : List Entry) (ws : List AnonInode)
    → All IsPlain ws
    → (ws' : List AnonInode) × (fold apply_body es ws ≡ done ws')
      × Applied (at_page (λ ino off. replay_entries ino off es)) ws ws'
unfolding apply_body or_fail
fold-apply [] ws h = (ws, refl, Applied-none ws h)
fold-apply (e ∷ es) ws h =
    let one = apply_ent-written (header e) ws h in
    let rest = fold-apply es one.0 one.2 in
    (
      rest.0,
      ap (λ r. then_next (or_fail r) (fold apply_body es)) one.1 ∙ rest.1,
      Applied-then (at_page (λ ino off. replay_entry ino off e))
          (at_page (λ ino off. replay_entries ino off es)) ws one.0 rest.0
          (
            one.2,
            λ ino pgoff.
                one.3 ino pgoff
                ∙ ap (λ f. Option.map f (page_at ino pgoff ws))
                    (fun_ext (written-replay e ino pgoff)),
          )
          rest.2,
    )

-- What a log entry that is not skipped does to a page.
abbrev pub replay_txn : Txn → ℕ → ℕ → List ℕ → List ℕ
replay_txn r ino off m = if r.entry.aborted then m else replay_entries ino off r.writes m

apply_log_entry-replay :
    (r : Txn) (ws : List AnonInode)
    → IsLogged r
    → All IsPlain ws
    → (ws' : List AnonInode) × (apply_log_entry r.entry ws ≡ done ws')
      × Applied (at_page (replay_txn r)) ws ws'
unfolding apply_log_entry
apply_log_entry-replay r ws l h = elim (Bool-cases r.entry.aborted) [
  | inl gone ↦ rw gone (ws, refl, Applied-none ws h)
  | inr committed ↦
      let made = fold-apply r.writes ws h in
      rw committed
        (made.0, walk_all-fold apply_body r.writes r.entry.ws ws l.entries l.holds ∙ made.1, made.2)
]

-- The transactions but the one at a timestamp.
abbrev pub unskipped : ℕ → List Txn → List Txn
unskipped skip [] = []
unskipped skip (r ∷ rs) = if r.entry.ts == skip then unskipped skip rs else r ∷ unskipped skip rs

module _ (stop skip : ℕ) where
  round :
      (r : Txn) (ws : List AnonInode)
      → IsLogged r
      → All IsPlain ws
      → (ws' : List AnonInode) × (apply_unless_skipped skip r.entry ws ≡ next ws')
        × Applied (at_page (λ ino off. replay ino off (unskipped skip (r ∷ [])))) ws ws'
  unfolding apply_unless_skipped
  round r ws l h = elim (Bool-cases (r.entry.ts == skip)) [
    | inl skipped ↦ rw skipped (ws, refl, Applied-none ws h)
    | inr seen ↦
        let made = apply_log_entry-replay r ws l h in rw seen (made.0, ap as_step made.1, made.2)
  ]

  replay-one :
      (r : Txn) (rs : List Txn) (ino off : ℕ) (m : List ℕ)
      → replay ino off (unskipped skip rs) (replay ino off (unskipped skip (r ∷ [])) m)
        ≡ replay ino off (unskipped skip (r ∷ rs)) m
  replay-one r rs ino off m = elim (Bool-cases (r.entry.ts == skip)) [
    | inl skipped ↦ rw skipped refl
    | inr seen ↦ rw seen refl
  ]

  pub loop-replay :
      (n t : ℕ) (rs : List Txn) (ws : List AnonInode)
      → Consecutive t (logs rs)
      → All IsLogged rs
      → stop ≡ t + n
      → n < length rs
      → All IsPlain ws
      → (ws' : List AnonInode) × (apply_logs_loop stop skip (logs rs) ws ≡ done ws')
        × Applied (at_page (λ ino off. replay ino off (unskipped skip (take (suc n) rs)))) ws ws'
  unfolding apply_logs_loop
  loop-replay n t [] ws c a e k h = absurd (omega (arith, k))
  loop-replay zero t (r ∷ rs) ws c a e k h =
      let one = round r ws a.0 h in
      (one.0, rw (one.1, (==_iff r.entry.ts stop).1 (omega (arith, c.0))) refl, one.2)
  loop-replay (suc n) t (r ∷ rs) ws c a e k h =
      let one = round r ws a.0 h in
      let rest = loop-replay n (suc t) rs one.0 c.1 a.1 (omega arith) (omega arith) one.2.0 in
      (
        rest.0,
        rw
            (
              one.1,
              ==_ne r.entry.ts stop (omega (arith, c.0)),
              at_end-false n t stop rs c.1 e (omega arith),
            )
            rest.1,
        Applied-same _
            (at_page (λ ino off. replay ino off (unskipped skip (take (suc (suc n)) (r ∷ rs))))) ws
            rest.0 (λ ino pgoff m. replay-one r (take (suc n) rs) ino (pgoff * page_size) m)
            (Applied-then (at_page (λ ino off. replay ino off (unskipped skip (r ∷ []))))
              (at_page (λ ino off. replay ino off (unskipped skip (take (suc n) rs)))) ws one.0
              rest.0 one.2 rest.2),
      )

  pub apply_logs-loop :
      (t : ℕ) (rs : List Txn) (ws : List AnonInode)
      → Consecutive t (logs rs)
      → t ≤ stop
      → 0 < length rs
      → apply_logs stop skip (logs rs) ws ≡ apply_logs_loop stop skip (logs rs) ws
  unfolding apply_logs
  apply_logs-loop t [] ws c o h = elim h [ ]
  apply_logs-loop t (r ∷ rs) ws c o h = rw (le→ltb r.entry.ts stop (omega (arith, c.0))) refl
