-- ===== src/Walk/Fold.antt =====
-- Over well-formed entries laid out one after another, the walk visits each once, in order.
use sivfs_public.Base.{
  ℕ, zero, suc, ◌+◌, ◌*◌, ◌/◌, ◌^◌, ◌≤◌, ◌<◌, ◌≡◌, refl, ◌∙◌, ap, ap₂, sym, fun_ext, false, List,
  [], ◌∷◌, ◌++◌, arith, ◌==◌, length, drop, length-append, drop-append_exact, take-append-drop,
  sub64, ==_ne,
}
use mathlib.Core.List.{append_assoc}
use sivfs_public.Writeset.{Writeset, wse_size}
use sivfs_public.Writeset.Entry.{
  Entry, IsEntry, words, bytes, info_of, wse_size-info_of, to_stream_info-info_of,
}
use sivfs_public.Writeset.Append.{Holds, length-used}
use sivfs_public.Walk.{Head, Step, Ended, done, then_next, walk, walk_all}

abbrev pub header : Entry → Head
header e = record { ino = e.ino; file_offset = e.file_offset; address = e.address; value = e.value }

-- The words of entries one after another.
abbrev pub layout : List Entry → List ℕ
layout [] = []
layout (e ∷ es) = words e ++ layout es

abbrev pub AreEntries : List Entry → Type 0
AreEntries [] = Unit {0}
AreEntries (e ∷ es) = IsEntry e × AreEntries es

length-layout : (es : List Entry) → length es ≤ length (layout es)
length-layout [] = omega arith
length-layout (e ∷ es) = omega (arith, length-layout es, length-append (words e) (layout es))

module _ {S : Type 0} (visit : Head → S → Step S) where
  -- The body at each entry in turn, until it stops or fails.
  abbrev pub fold : List Entry → S → Ended S
  fold [] s = done s
  fold (e ∷ es) s = then_next (visit (header e) s) (fold es)

  pub walk-fold :
      (es : List Entry) (fuel : ℕ) (rest : List ℕ) (s : S)
      → AreEntries es
      → length es < fuel
      → 8 * length (layout es) < 2 ^ 63
      → walk visit fuel (layout es ++ rest) (8 * length (layout es)) s ≡ fold es s
  unfolding walk
  walk-fold es zero rest s a f h = elim f [ ]
  walk-fold [] (suc fuel) rest s a f h = refl
  walk-fold (e ∷ es) (suc fuel) rest s (w, a) f h =
      rw (more, walk)
        (rw (to_stream_info-info_of w _ fits, walk)
          (ap (then_next (visit (header e) s)) (
            fun_ext λ s'.
              ap₂ (λ m l. walk visit fuel m l s') dropped left
              ∙ walk-fold es fuel rest s' a (omega arith) (omega (arith, size)))))
    where
      size : length (layout (e ∷ es)) ≡ length (words e) + length (layout es)
      size = length-append (words e) (layout es)

      more : (8 * length (layout (e ∷ es)) == 0) ≡ false
      more = ==_ne _ _ (omega (arith, size))

      dropped : drop (wse_size (info_of w) / 8) (layout (e ∷ es) ++ rest) ≡ layout es ++ rest
      dropped =
          ap (drop (wse_size (info_of w) / 8)) (append_assoc (words e) (layout es) rest)
          ∙ drop-append_exact _ (words e) (layout es ++ rest) (omega (arith, wse_size-info_of w))

      left : sub64 (8 * length (layout (e ∷ es))) (wse_size (info_of w)) ≡ 8 * length (layout es)
      left = omega (arith, size, wse_size-info_of w)

      fits : bytes e ≤ 8 * length (layout (e ∷ es))
      fits = omega (arith, size)

  -- The walk over all of a writeset that holds the given well-formed entries and nothing else in use.
  pub walk_all-fold :
      (es : List Entry) (ws : Writeset) (s : S)
      → AreEntries es
      → Holds (layout es) ws
      → walk_all visit ws s ≡ fold es s
  unfolding walk_all
  walk_all-fold es ws s a h =
      ap₂ (λ m l. walk visit (suc ws.size_bytes) m l s) mem size
      ∙ walk-fold es (suc ws.size_bytes) rest s a (omega (arith, length-layout es, size))
          (omega (arith, size, h.valid.size_in, h.valid.small))
    where
      rest : List ℕ
      rest = drop (ws.size_bytes / 8) ws.entries

      mem : ws.entries ≡ layout es ++ rest
      mem = sym (take-append-drop (ws.size_bytes / 8) ws.entries) ∙ ap (λ l. l ++ rest) h.holds

      size : ws.size_bytes ≡ 8 * length (layout es)
      size = omega (arith, h.valid.aligned, ap length h.holds, length-used h.valid)
