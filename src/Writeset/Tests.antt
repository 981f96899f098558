-- ===== src/Writeset/Tests.antt =====
-- Tests of kern/sivfs_writeset.h at concrete inputs.
use sivfs_public.Base.{
  ℕ, ◌+◌, ◌^◌, ◌≤◌, ◌<◌, ◌≡◌, refl, [], ◌∷◌, Bool, true, some, none, leb, leb→le, arith, ok, einval,
  Outcome, replicate,
}
use sivfs_public.Common.{max3, IsBounded}
use sivfs_public.Writeset.{
  empty, to_stream_info, checked, dest_words_of, wse_size, add, add_sized, put, reserve, grow,
  is_disabled, set_disabled,
}
use sivfs_public.Writeset.Control.{
  stream_info, constant_info, to_stream_info-decodes, to_stream_info_wraps,
}
use sivfs_public.Writeset.Entry.{Entry, IsEntry, stream, words, word_entry}
use sivfs_public.Writeset.Append.{Holds, empty-Holds, add-Outcome}

abbrev serves : ℕ → Bool
serves n = leb n (2 ^ 20)

serves-IsBounded : IsBounded serves
serves-IsBounded n h = omega (arith, leb→le n (2 ^ 20) h)

-- The first entry makes room for four.
add-first : add serves empty (words (word_entry 4096 7)) 40 ≡ (
  ok,
  record { capacity_bytes = 160; size_bytes = 40; entries = 0 ∷ 0 ∷ 4096 ∷ 0 ∷ 7 ∷ replicate 15 0 },
)
unfolding add add_sized put reserve grow is_disabled to_stream_info wse_size max3
add-first = refl

-- A disabled writeset drops what is added, and reports no error.
add-disabled :
    add serves (set_disabled empty true).1 (words (word_entry 4096 7)) 40
    ≡ (ok, record { capacity_bytes = 0; size_bytes = 2 ^ 63; entries = [] })
unfolding add is_disabled set_disabled
add-disabled = refl

add-stream_too_long : add serves empty (0 ∷ 0 ∷ 0 ∷ (2 ^ 63 + 3) ∷ 1 ∷ []) 40 ≡ (einval, empty)
unfolding add add_sized is_disabled to_stream_info checked dest_words_of wse_size
add-stream_too_long = refl

to_stream_info-decodes_example :
    (56 ≤ 56 → to_stream_info (2 ^ 63 + 3) 56 ≡ some (stream_info 3))
    × (56 < 56 → to_stream_info (2 ^ 63 + 3) 56 ≡ none)
    × (40 ≤ 56 → to_stream_info (2 ^ 63 + 2 ^ 62 + 3) 56 ≡ some (constant_info 3))
    × (56 < 40 → to_stream_info (2 ^ 63 + 2 ^ 62 + 3) 56 ≡ none)
to_stream_info-decodes_example = to_stream_info-decodes 3 56 (omega arith) (omega arith)

to_stream_info_wraps_example :
    to_stream_info (2 ^ 63 + (2 ^ 61 + 1)) 40 ≡ some (stream_info (2 ^ 61 + 1))
to_stream_info_wraps_example = to_stream_info_wraps 1 40 (omega arith) (omega arith) (omega arith)

abbrev pair : Entry
pair = record {
  ino = 9;
  file_offset = 8192;
  address = 0;
  stream_control = 2 ^ 63 + 2;
  value = 5;
  more = 6 ∷ [];
}

pair-IsEntry : IsEntry pair
pair-IsEntry = stream 2 refl (omega arith) refl

add-Outcome_example : Outcome (Holds (words pair)) empty (add serves empty (words pair) 48)
add-Outcome_example =
    add-Outcome serves serves-IsBounded empty pair 48 empty-Holds.valid pair-IsEntry (omega arith)
