-- ===== src/Commit/Isolation.antt =====
-- What holds in every state of threads that commit by kern/sivfs_commit_update_checkpoints.c.
use sivfs_public.Base.{
  ℕ, suc, ◌+◌, ◌-◌, ◌^◌, ◌≤◌, ◌<◌, ◌≡◌, refl, ◌∙◌, ap, true, false, List, [], ◌∷◌, ◌++◌, length,
  All, All-append, All-middle, All-replace, All-map,
}
use sivfs_public.Log.Find.{Consecutive}
use sivfs_public.Commit.Conflict.{Logged}
use sivfs_public.Commit.Validate.{Txn, logs, AreLogged}
use sivfs_public.Commit.Window.{Free}
use sivfs_public.Commit.Steps.{System}

-- If the later transaction `u` committed and its snapshot does not see the earlier `t`, then `t`
-- aborted or no two of their entries start at the same word of the same file.
abbrev pub Apart : Txn → Txn → Type 0
Apart t u =
    u.entry.commit_status_filled_in ≡ true → u.entry.aborted ≡ false → Free u.writes u.state_ts t

abbrev pub Isolated : List Txn → Type 0
Isolated [] = Unit {0}
Isolated (t ∷ ts) = All (Apart t) ts × Isolated ts

-- An undecided transaction is not aborted; a snapshot is before its own timestamp.
pub record IsTxn (t : Txn) : Type 0 where
  pub undecided : t.entry.commit_status_filled_in ≡ false → t.entry.aborted ≡ false
  pub recent : t.state_ts < t.entry.ts
  pub small : t.entry.ts < 2 ^ 63

-- All that a snapshot at `master_ts` sees is decided.
abbrev pub Decided : ℕ → Txn → Type 0
Decided master_ts t = t.entry.ts ≤ master_ts → t.entry.commit_status_filled_in ≡ true

pub record IsValid (first : ℕ) (a : System) : Type 0 where
  pub logged : a.shared.log ≡ logs a.txns
  pub consecutive : Consecutive first (logs a.txns)
  pub entries : AreLogged a.txns
  pub each : All IsTxn a.txns
  pub next : suc a.shared.commit_started_ts ≡ first + length a.txns
  pub released : a.shared.master_ts ≤ a.shared.commit_started_ts
  pub decided : All (Decided a.shared.master_ts) a.txns
  pub opens : first ≤ suc (a.shared.master_log_deleted_ts - 1)
  pub isolated : Isolated a.txns

pub Isolated-append :
    (ts : List Txn) (u : Txn) → ((t : Txn) → Apart t u) → Isolated ts → Isolated (ts ++ (u ∷ []))
Isolated-append [] u f i = (tt, tt)
Isolated-append (t ∷ ts) u f i =
    (All-append (Apart t) ts (u ∷ []) i.0 (f t, tt), Isolated-append ts u f i.1)

pub Isolated-replace :
    (before : List Txn) (u u' : Txn) (after : List Txn)
    → All (λ t. Apart t u') before
    → ((v : Txn) → Apart u v → Apart u' v)
    → Isolated (before ++ (u ∷ after))
    → Isolated (before ++ (u' ∷ after))
Isolated-replace [] u u' after f g i = (All-map (Apart u) (Apart u') after g i.0, i.1)
Isolated-replace (t ∷ before) u u' after f g i = (
  All-replace (Apart t) before u u' after (λ h. f.0) i.0,
  Isolated-replace before u u' after f.1 g i.1,
)

pub Isolated-pair :
    (before : List Txn) (t : Txn) (middle : List Txn) (u : Txn) (after : List Txn)
    → Isolated (before ++ (t ∷ (middle ++ (u ∷ after))))
    → Apart t u
Isolated-pair [] t middle u after i = All-middle (Apart t) middle u after i.0
Isolated-pair (x ∷ before) t middle u after i = Isolated-pair before t middle u after i.1

pub Consecutive-replace :
    (first : ℕ) (before : List Txn) (u u' : Txn) (after : List Txn)
    → u'.entry.ts ≡ u.entry.ts
    → Consecutive first (logs (before ++ (u ∷ after)))
    → Consecutive first (logs (before ++ (u' ∷ after)))
Consecutive-replace first [] u u' after e c = (e ∙ c.0, c.1)
Consecutive-replace first (t ∷ before) u u' after e c =
    (c.0, Consecutive-replace (suc first) before u u' after e c.1)

pub AreLogged-replace :
    (before : List Txn) (u u' : Txn) (after : List Txn)
    → (Logged u.entry u.writes → Logged u'.entry u'.writes)
    → AreLogged (before ++ (u ∷ after))
    → AreLogged (before ++ (u' ∷ after))
AreLogged-replace [] u u' after f a = (f a.0, a.1)
AreLogged-replace (t ∷ before) u u' after f a = (a.0, AreLogged-replace before u u' after f a.1)

pub AreLogged-append :
    (ts : List Txn) (u : Txn) → AreLogged ts → Logged u.entry u.writes → AreLogged (ts ++ (u ∷ []))
AreLogged-append [] u a l = (l, tt)
AreLogged-append (t ∷ ts) u a l = (a.0, AreLogged-append ts u a.1 l)

pub logs-append : (ts us : List Txn) → logs (ts ++ us) ≡ logs ts ++ logs us
logs-append [] us = refl
logs-append (t ∷ ts) us = ap (λ l. t.entry ∷ l) (logs-append ts us)

pub length-logs : (ts : List Txn) → length (logs ts) ≡ length ts
length-logs [] = refl
length-logs (t ∷ ts) = ap suc (length-logs ts)
