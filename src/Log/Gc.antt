-- ===== src/Log/Gc.antt =====
-- `sivfs_delete_log` of kern/sivfs_shared_state.c and `sivfs_gc_log` of kern/sivfs_gc_log.c.
use Prim.Native.Nat.{min}
use sivfs_public.Base.{
  ℕ, zero, suc, ◌≤◌, ◌<◌, ◌≡◌, refl, sym, subst, ◌∙◌, ap, Bool, true, false, not, ◌||◌,
  if◌then◌else◌, some, List, [], ◌∷◌, arith, ◌==◌, leb, length, get_or, Bool-cases, inl, inr,
  le→ltb, Option, Rc, ok, failed, not_failed, if-cases,
}
use mathlib.Core.Option
use mathlib.Core.Option.{some-injective}
use sivfs_public.Log.{
  LogEntry, Shared, batch_size, delete_batch, delete_batches, after_delete, delete_log, gc_stop_ts,
  gc_log, ts_to_log_entry, lookup,
}

-- What is left when every entry before `stop_ts` is gone.
abbrev pub drop_before : ℕ → List LogEntry → List LogEntry
drop_before stop_ts [] = []
drop_before stop_ts (e ∷ es) = if leb stop_ts e.ts then e ∷ es else drop_before stop_ts es

-- A batch deletes a part of what is to be deleted.
drop_before-batch :
    (room stop : ℕ) (es : List LogEntry)
    → drop_before stop (delete_batch room stop es) ≡ drop_before stop es
unfolding delete_batch
drop_before-batch zero stop es = refl
drop_before-batch (suc room) stop [] = refl
drop_before-batch (suc room) stop (e ∷ es) = ground (arith, drop_before-batch room stop es)

length-batch : (room stop : ℕ) (es : List LogEntry) → length (delete_batch room stop es) ≤ length es
unfolding delete_batch
length-batch zero stop es = omega arith
length-batch (suc room) stop [] = omega arith
length-batch (suc room) stop (e ∷ es) = ground (arith, length-batch room stop es)

-- The oldest entry is to be deleted.
abbrev pub has_before : ℕ → List LogEntry → Bool
has_before stop_ts [] = false
has_before stop_ts (e ∷ es) = not (leb stop_ts e.ts)

-- A batch with room deletes something exactly if there is something to delete.
batch_deletes :
    (room stop : ℕ) (es : List LogEntry)
    → (length (delete_batch (suc room) stop es) == length es) ≡ not (has_before stop es)
unfolding delete_batch
batch_deletes room stop [] = refl
batch_deletes room stop (e ∷ es) = ground (arith, length-batch room stop es)

drop_before-same :
    (stop : ℕ) (es : List LogEntry) → has_before stop es ≡ false → drop_before stop es ≡ es
drop_before-same stop [] h = refl
drop_before-same stop (e ∷ es) h = ground arith

length-batch_lt :
    (room stop : ℕ) (es : List LogEntry)
    → has_before stop es ≡ true
    → length (delete_batch (suc room) stop es) < length es
unfolding delete_batch
length-batch_lt room stop [] h = cc
length-batch_lt room stop (e ∷ es) h = ground (arith, length-batch room stop es)

delete_batches-drop_before :
    (fuel stop : ℕ) (did : Bool) (es : List LogEntry)
    → length es < fuel
    → delete_batches fuel stop did es ≡ some (did || has_before stop es, drop_before stop es)
unfolding delete_batches
delete_batches-drop_before zero stop did es h = elim h [ ]
delete_batches-drop_before (suc fuel) stop did es h = elim (Bool-cases (has_before stop es)) [
  | inl some_left ↦
      rw (batch_deletes 127 stop es, some_left, delete_batches)
        (delete_batches-drop_before fuel stop true (delete_batch batch_size stop es)
            (omega (arith, length-batch_lt 127 stop es some_left))
          ∙ ground (arith, drop_before-batch 128 stop es))
  | inr none_left ↦
      rw (batch_deletes 127 stop es, none_left, delete_batches)
        (ground (arith, drop_before-same stop es none_left))
]

lookup-drop_before :
    (stop ts : ℕ) (es : List LogEntry) → stop ≤ ts → lookup ts (drop_before stop es) ≡ lookup ts es
unfolding lookup
lookup-drop_before stop ts [] h = refl
lookup-drop_before stop ts (e ∷ es) h = ground (arith, lookup-drop_before stop ts es h)

-- No entry before the bound is left, where timestamps rise.
first-drop_before : (stop : ℕ) (es : List LogEntry) → has_before stop (drop_before stop es) ≡ false
first-drop_before stop [] = refl
first-drop_before stop (e ∷ es) = ground (arith, first-drop_before stop es)

gc_stop_ts-le_first : (latest : ℕ) (vs : List ℕ) → gc_stop_ts latest vs ≤ latest
unfolding gc_stop_ts
gc_stop_ts-le_first latest [] = omega arith
gc_stop_ts-le_first latest (v ∷ vs) = omega (arith, gc_stop_ts-le_first (min latest v) vs)

pub gc_stop_ts-le :
    (latest : ℕ) (vs : List ℕ) (i : ℕ)
    → i ≤ length vs
    → gc_stop_ts latest vs ≤ get_or (latest ∷ vs) i 0
unfolding gc_stop_ts
gc_stop_ts-le latest vs zero h = gc_stop_ts-le_first latest vs
gc_stop_ts-le latest [] (suc i) h = elim h [ ]
gc_stop_ts-le latest (v ∷ vs) (suc zero) h = omega (arith, gc_stop_ts-le_first (min latest v) vs)
gc_stop_ts-le latest (v ∷ vs) (suc (suc i)) h =
    gc_stop_ts-le (min latest v) vs (suc i) (omega arith)

-- `sivfs_delete_log` ends, takes exactly the entries before the bound off the front of the log, says
-- whether there were any, and remembers the bound.
pub delete_log-drop_before :
    (did : Bool) (s : Shared) (stop : ℕ)
    → (s' : Shared) × (delete_log did s stop ≡ some (did || has_before stop s.log, s'))
      × (s'.log ≡ drop_before stop s.log)
      × (has_before stop s'.log ≡ false)
      × (s'.master_log_deleted_ts ≡ stop)
      × (s'.commit_started_ts ≡ s.commit_started_ts)
      × (s'.master_ts ≡ s.master_ts)
unfolding delete_log after_delete
delete_log-drop_before did s stop = (
  (after_delete s stop (did || has_before stop s.log, drop_before stop s.log)).1,
  ap (Option.map (after_delete s stop))
      (delete_batches-drop_before (suc (length s.log)) stop did s.log (omega arith)),
  refl,
  first-drop_before stop s.log,
  refl,
  refl,
  refl,
)

-- Garbage collection of the log by `sivfs_gc_log` ends, with the error of the first of its calls that
-- fails or with no error, and a lookup that starts at or after the latest checkpoint or any version
-- that a thread has checked out finds the same entries as before.
pub gc_log-keeps :
    (new_stack got_versions : Rc) (did : Bool) (s : Shared) (latest : ℕ) (checked_out : List ℕ)
    (i ts ts_start : ℕ)
    → i ≤ length checked_out
    → get_or (latest ∷ checked_out) i 0 ≤ ts_start
    → ts_start ≤ ts
    → s.master_log_deleted_ts ≤ ts_start
    → (r : Rc × Bool × Shared) × (gc_log new_stack got_versions did s latest checked_out ≡ some r)
      × (r.0 ≡ (if failed new_stack then new_stack else got_versions))
      × (ts_to_log_entry r.2 ts ts_start ≡ ts_to_log_entry s ts ts_start)
unfolding gc_log ts_to_log_entry
gc_log-keeps new_stack got_versions did s latest checked_out i ts ts_start h a b c =
    if-cases Keeps (failed new_stack) _ _
      (λ bad. (_, refl, ap (λ q. if q then new_stack else got_versions) (sym bad), refl))
      (λ good.
        if-cases Keeps (failed got_versions) _ _
          (λ bad. (_, refl, ap (λ q. if q then new_stack else got_versions) (sym good), refl))
          (λ fine. (
            (ok, has_before stop s.log, gone.0),
            ap (Option.map (λ (r : Bool × Shared). (ok, r.0, r.1))) gone.1,
            sym (not_failed got_versions fine)
                ∙ ap (λ q. if q then new_stack else got_versions) (sym good),
            found,
          )))
  where
    stop : ℕ
    stop = gc_stop_ts latest checked_out

    below : stop ≤ ts_start
    below = omega (arith, gc_stop_ts-le latest checked_out i h)

    gone :
        (s' : Shared) × (delete_log false s stop ≡ some (has_before stop s.log, s'))
        × (s'.log ≡ drop_before stop s.log)
        × (has_before stop s'.log ≡ false)
        × (s'.master_log_deleted_ts ≡ stop)
        × (s'.commit_started_ts ≡ s.commit_started_ts)
        × (s'.master_ts ≡ s.master_ts)
    gone = delete_log-drop_before false s stop

    Keeps : Option (Rc × Bool × Shared) → Type 0
    Keeps o =
        (r : Rc × Bool × Shared) × (o ≡ some r)
        × (r.0 ≡ (if failed new_stack then new_stack else got_versions))
        × (ts_to_log_entry r.2 ts ts_start ≡ ts_to_log_entry s ts ts_start)

    found : ts_to_log_entry gone.0 ts ts_start ≡ ts_to_log_entry s ts ts_start
    found =
        rw (gone.4, le→ltb stop ts_start below, le→ltb _ _ c, gone.2)
          (ap some (lookup-drop_before stop ts s.log (omega (arith, below))))

-- What `sivfs_gc_log` leaves, when none of its calls fails.
pub gc_log-left :
    (s s' : Shared) (latest : ℕ) (checked_out : List ℕ) (did did' : Bool) (rc : Rc)
    → gc_log ok ok did s latest checked_out ≡ some (rc, did', s')
    → (s'.log ≡ drop_before s'.master_log_deleted_ts s.log)
      × (s'.commit_started_ts ≡ s.commit_started_ts)
      × (s'.master_ts ≡ s.master_ts)
unfolding gc_log
gc_log-left s s' latest checked_out did did' rc e =
    subst Left
      (ap (λ (r : Rc × Bool × Shared). r.2)
        (some-injective _ _
          (sym (ap (Option.map (λ (r : Bool × Shared). (ok, r.0, r.1))) gone.1) ∙ e)))
      (gone.2 ∙ ap (λ b. drop_before b s.log) (sym gone.4), gone.5, gone.6)
  where
    Left : Shared → Type 0
    Left z =
        (z.log ≡ drop_before z.master_log_deleted_ts s.log)
        × (z.commit_started_ts ≡ s.commit_started_ts)
        × (z.master_ts ≡ s.master_ts)

    stop : ℕ
    stop = gc_stop_ts latest checked_out

    gone :
        (z : Shared) × (delete_log false s stop ≡ some (has_before stop s.log, z))
        × (z.log ≡ drop_before stop s.log)
        × (has_before stop z.log ≡ false)
        × (z.master_log_deleted_ts ≡ stop)
        × (z.commit_started_ts ≡ s.commit_started_ts)
        × (z.master_ts ≡ s.master_ts)
    gone = delete_log-drop_before false s stop
