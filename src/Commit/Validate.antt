-- ===== src/Commit/Validate.antt =====
-- `sivfs_validate` of kern/sivfs_commit_update_checkpoints.c against the log as a list.
use sivfs_public.Base.{
  ℕ, zero, suc, ◌+◌, ◌-◌, ◌≤◌, ◌<◌, ◌≡◌, refl, ◌∙◌, ap, sym, inl, inr, Bool, true, false, not, ◌&&◌,
  ◌||◌, some, List, [], ◌∷◌, arith, ◌==◌, Bool-cases, length, take, drop, ==_iff, ==_ne, le→ltb,
  length-drop, subst,
}
use sivfs_public.Writeset.Entry.{Entry}
use sivfs_public.Log.{LogEntry, Shared}
use sivfs_public.Log.Find.{Consecutive, Consecutive-drop, ts_to_log_entry-drop}
use sivfs_public.Commit.{validate_against, at_end, validate_loop, validate_found, validate}
use sivfs_public.Commit.Conflict.{Logged, clash, validate_against-clash}

-- A committing transaction: its log entry, with the well-formed entries that the writeset holds, and
-- the timestamp of the snapshot that it read.
pub record Txn : Type 0 where
  pub entry : LogEntry
  pub writes : List Entry
  pub state_ts : ℕ

abbrev pub logs : List Txn → List LogEntry
logs [] = []
logs (r ∷ rs) = r.entry ∷ logs rs

abbrev pub AreLogged : List Txn → Type 0
AreLogged [] = Unit {0}
AreLogged (r ∷ rs) = Logged r.entry r.writes × AreLogged rs

-- The transaction is not aborted, and an entry of it starts at the same word of the same file as one
-- of `es`.
abbrev pub hits : List Entry → Txn → Bool
hits es r = not r.entry.aborted && clash es r.writes

abbrev pub any_clash : List Entry → List Txn → Bool
any_clash es [] = false
any_clash es (r ∷ rs) = hits es r || any_clash es rs

pub logs-drop : (n : ℕ) (rs : List Txn) → logs (drop n rs) ≡ drop n (logs rs)
logs-drop zero rs = refl
logs-drop (suc n) [] = refl
logs-drop (suc n) (r ∷ rs) = logs-drop n rs

AreLogged-drop : (n : ℕ) (rs : List Txn) → AreLogged rs → AreLogged (drop n rs)
AreLogged-drop zero rs a = a
AreLogged-drop (suc n) [] a = tt
AreLogged-drop (suc n) (r ∷ rs) a = AreLogged-drop n rs a.1

pub at_end-false :
    (n t stop : ℕ) (rs : List Txn)
    → Consecutive (suc t) (logs rs)
    → stop ≡ t + suc n
    → suc n < suc (length rs)
    → at_end stop (logs rs) ≡ false
unfolding at_end
at_end-false n t stop [] c e h = absurd (omega arith)
at_end-false n t stop (r ∷ rs) c e h = le→ltb _ _ (omega (arith, c.0))

loop-ends :
    (stop : ℕ) (mine clog m : LogEntry) (rest : List LogEntry)
    → validate_against mine clog ≡ some m
    → (m.aborted || (clog.ts == stop || at_end stop rest)) ≡ true
    → validate_loop stop mine (clog ∷ rest) ≡ some m
unfolding validate_loop
loop-ends stop mine clog m rest v e = rw (v, validate_loop) (rw e)

loop-continues :
    (stop : ℕ) (mine clog m : LogEntry) (rest : List LogEntry)
    → validate_against mine clog ≡ some m
    → (m.aborted || (clog.ts == stop || at_end stop rest)) ≡ false
    → validate_loop stop mine (clog ∷ rest) ≡ validate_loop stop m rest
unfolding validate_loop
loop-continues stop mine clog m rest v e = rw (v, validate_loop) (rw e)

module _ (mine : LogEntry) (es : List Entry) (live : mine.aborted ≡ false)
    (l : Logged mine es) where
  abbrev set_aborted : Bool → LogEntry
  set_aborted b = record mine { aborted = b }

  -- One round of the loop: it ends at a conflict, and otherwise goes on as on its remaining input.
  round :
      (stop : ℕ) (r : Txn) (rest : List LogEntry) (later : Bool)
      → Logged r.entry r.writes
      → (hits es r ≡ false → validate_loop stop mine (r.entry ∷ rest) ≡ some (set_aborted later))
      → validate_loop stop mine (r.entry ∷ rest) ≡ some (set_aborted (hits es r || later))
  round stop r rest later m go = elim (Bool-cases (hits es r)) [
    | inl hit ↦
        loop-ends stop mine r.entry _ rest
          (validate_against-clash mine r.entry es r.writes live l m) (rw hit refl)
        ∙ ap (λ b. some (set_aborted b)) (rw hit refl)
    | inr miss ↦ go miss ∙ ap (λ b. some (set_aborted b)) (rw miss refl)
  ]

  mine-eq : (b : Bool) → b ≡ false → set_aborted b ≡ mine
  mine-eq b e = ap set_aborted (e ∙ sym live)

  validate_loop-any_clash :
      (n t stop : ℕ) (rs : List Txn)
      → Consecutive t (logs rs)
      → AreLogged rs
      → stop ≡ t + n
      → n < length rs
      → validate_loop stop mine (logs rs)
        ≡ some (record mine { aborted = any_clash es (take (suc n) rs) })
  validate_loop-any_clash n t stop [] c a e h = absurd (omega (arith, h))
  validate_loop-any_clash zero t stop (r ∷ rs) c a e h = round stop r (logs rs) false a.0 (λ miss.
      loop-ends stop mine r.entry _ (logs rs)
        (validate_against-clash mine r.entry es r.writes live l a.0)
        (rw (miss, (==_iff r.entry.ts stop).1 (omega (arith, c.0))) refl)
      ∙ ap (λ b. some (set_aborted b)) miss)
  validate_loop-any_clash (suc n) t stop (r ∷ rs) c a e h = round stop r (logs rs) _ a.0 (λ miss.
      loop-continues stop mine r.entry _ (logs rs)
        (validate_against-clash mine r.entry es r.writes live l a.0)
        (rw
          (
            miss,
            ==_ne r.entry.ts stop (omega (arith, c.0)),
            at_end-false n t stop rs c.1 e (omega arith),
          )
          refl)
      ∙ ap (λ m. validate_loop stop m (logs rs)) (mine-eq _ miss)
      ∙ validate_loop-any_clash n (suc t) stop rs c.1 a.1 (omega arith) (omega arith))

  -- `sivfs_validate` of a transaction not yet aborted against the log entries of a range of timestamps
  -- that are all in the log and not garbage collected: it is aborted exactly if one of them is
  -- not aborted, be it committed or still undecided, and has an entry that starts at the same word of
  -- the same file as one of its own; nothing else of it changes.
  pub validate-any_clash :
      (s : Shared) (rs : List Txn) (first ts_start ts_stop : ℕ)
      → s.log ≡ logs rs
      → Consecutive first (logs rs)
      → AreLogged rs
      → s.master_log_deleted_ts ≤ ts_start
      → first ≤ ts_start
      → ts_start ≤ ts_stop
      → ts_stop < first + length rs
      → validate s mine ts_start ts_stop
        ≡ some (record mine {
          aborted = any_clash es (take (suc (ts_stop - ts_start)) (drop (ts_start - first) rs));
        })
  unfolding validate validate_found
  validate-any_clash s rs first ts_start ts_stop e c a d f o h = rw (le→ltb ts_start ts_stop o) (
      ap (validate_found ts_stop mine) (
        ts_to_log_entry-drop s first ts_start ts_start (subst (Consecutive first) (sym e) c) f d
        ∙ ap some (ap (drop (ts_start - first)) e ∙ sym (logs-drop (ts_start - first) rs)))
      ∙ validate_loop-any_clash (ts_stop - ts_start) (first + (ts_start - first)) ts_stop
          (drop (ts_start - first) rs)
          (subst (Consecutive _) (sym (logs-drop (ts_start - first) rs))
            (Consecutive-drop (ts_start - first) first (logs rs) c))
          (AreLogged-drop _ rs a) (omega arith) (omega (arith, length-drop (ts_start - first) rs)))
