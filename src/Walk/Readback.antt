-- ===== src/Walk/Readback.antt =====
-- Entries added to a writeset by `sivfs_add_to_writeset` of kern/sivfs_writeset.h are read back by a
-- walk over it.
use sivfs_public.Base.{
  ℕ, ◌≡◌, refl, sym, ◌∙◌, ap, subst, ◌⊎◌, inl, inr, List, [], ◌∷◌, ◌++◌, arith, Rc, ok, einval,
  enomem, eexist, eagain, eintr, Outcome, Bool,
}
use mathlib.Core.List.{append_assoc, append-nil}
use sivfs_public.Common.{IsBounded}
use sivfs_public.Writeset.{Writeset, empty, add}
use sivfs_public.Writeset.Entry.{Entry, words, bytes}
use sivfs_public.Writeset.Append.{Holds, used, empty-Holds, add-Outcome}
use sivfs_public.Walk.{Head, Step, next, done, walk_all}
use sivfs_public.Walk.Fold.{header, layout, AreEntries, fold, walk_all-fold}

-- The headers that a walk meets, in order.
abbrev pub collect : Head → List Head → Step (List Head)
collect h hs = next (hs ++ (h ∷ []))

abbrev pub headers : List Entry → List Head
headers [] = []
headers (e ∷ es) = header e ∷ headers es

abbrev pub if_ok : Rc × Writeset → (Writeset → Rc × Writeset) → Rc × Writeset
if_ok (ok, ws) more = more ws
if_ok (rc, ws) more = (rc, ws)

fold-collect : (es : List Entry) (hs : List Head) → fold collect es hs ≡ done (hs ++ headers es)
fold-collect [] hs = ap done (sym (append-nil hs))
fold-collect (e ∷ es) hs =
    fold-collect es (hs ++ (header e ∷ [])) ∙ ap done (append_assoc hs (header e ∷ []) (headers es))

module _ (grants : ℕ → Bool) where
  -- Entries are added one after another until one fails.
  abbrev pub add_all : List Entry → Writeset → Rc × Writeset
  add_all [] ws = (ok, ws)
  add_all (e ∷ es) ws = if_ok (add grants ws (words e) (bytes e)) (add_all es)

-- No memory, or a success that holds the words.
abbrev pub Added : List ℕ → Rc × Writeset → Type 0
Added ms r = (r.0 ≡ enomem) ⊎ ((r.0 ≡ ok) × Holds ms r.1)

continue :
    (ms : List ℕ) (ws : Writeset) (r : Rc × Writeset) (more : Writeset → Rc × Writeset)
    (all : List ℕ)
    → Outcome (Holds ms) ws r
    → ((ws' : Writeset) → Holds ms ws' → Added all (more ws'))
    → Added all (if_ok r more)
continue ms ws (ok, ws') more all o f = f ws' o
continue ms ws (enomem, ws') more all o f = inl refl
continue ms ws (einval, ws') more all o f = absurd o
continue ms ws (eexist, ws') more all o f = absurd o
continue ms ws (eagain, ws') more all o f = absurd o
continue ms ws (eintr, ws') more all o f = absurd o

module _ (grants : ℕ → Bool) (bounded : IsBounded grants) where
  add_all-Added :
      (es : List Entry) (ms : List ℕ) (ws : Writeset)
      → AreEntries es
      → Holds ms ws
      → Added (ms ++ layout es) (add_all grants es ws)
  add_all-Added [] ms ws a h = inr (refl, subst (λ l. Holds l ws) (sym (append-nil ms)) h)
  add_all-Added (e ∷ es) ms ws a h =
      continue (used ws ++ words e) ws (add grants ws (words e) (bytes e)) (add_all grants es)
        (ms ++ (words e ++ layout es))
        (add-Outcome grants bounded ws e (bytes e) h.valid a.0 (omega arith))
        λ ws' h'.
          subst (λ l. Added l (add_all grants es ws'))
            (append_assoc (used ws) (words e) (layout es)
              ∙ ap (λ l. l ++ (words e ++ layout es)) h.holds)
            (add_all-Added es (used ws ++ words e) ws' a.1 h')

  -- Well-formed entries added to an empty writeset: either memory runs out, or all are added and a walk
  -- over the writeset meets exactly them, in the order in which they were added.
  pub add_all-walk_all :
      (es : List Entry)
      → AreEntries es
      → ((add_all grants es empty).0 ≡ enomem)
        ⊎ (((add_all grants es empty).0 ≡ ok)
            × (walk_all collect (add_all grants es empty).1 [] ≡ done (headers es)))
  add_all-walk_all es a = elim (add_all-Added es [] empty a empty-Holds) [
    | inl full ↦ inl full
    | inr (fine, holds) ↦
        inr (
          fine,
          walk_all-fold collect es (add_all grants es empty).1 [] a holds ∙ fold-collect es [],
        )
  ]
