-- ===== src/Writeset/Control.antt =====
-- The stream control word of kern/sivfs_writeset.h: what `sivfs_wse_to_stream_info` makes of it.
use sivfs_public.Base.{
  refl, ℕ, ◌+◌, ◌*◌, ◌^◌, ◌≤◌, ◌<◌, ◌≡◌, ◌∙◌, refl, true, false, none, some, arith, le→ltb, lt→ltb,
}
use sivfs_public.Writeset.{StreamInfo, wse_size, checked, dest_words_of, to_stream_info}

abbrev pub plain_info : StreamInfo
plain_info = record { value_words = 1; dest_words = 1; is_stream = false; is_const_stream = false }

abbrev pub stream_info : ℕ → StreamInfo
stream_info n = record {
  value_words = n;
  dest_words = n;
  is_stream = true;
  is_const_stream = false;
}

abbrev pub constant_info : ℕ → StreamInfo
constant_info n = record {
  value_words = 1;
  dest_words = n;
  is_stream = true;
  is_const_stream = true;
}

-- The control words of a stream of `n` words and of a constant stream over `n` words.
abbrev pub stream_control : ℕ → ℕ
stream_control n = 2 ^ 63 + n

abbrev pub constant_control : ℕ → ℕ
constant_control n = 2 ^ 63 + 2 ^ 62 + n

dest_words-stream : (n : ℕ) → n < 2 ^ 62 → dest_words_of (stream_control n) ≡ n
unfolding dest_words_of
dest_words-stream n h = ground arith

dest_words-constant : (n : ℕ) → n < 2 ^ 62 → dest_words_of (constant_control n) ≡ n
unfolding dest_words_of
dest_words-constant n h = ground arith

pub wse_size-words :
    (info : StreamInfo)
    → 0 < info.value_words
    → info.value_words < 2 ^ 60
    → wse_size info ≡ 32 + 8 * info.value_words
unfolding wse_size
wse_size-words info h k = omega arith

pub to_stream_info-plain : (size : ℕ) → to_stream_info 0 size ≡ some plain_info
unfolding to_stream_info
to_stream_info-plain size = refl

to_stream_info-stream :
    (n size : ℕ)
    → 0 < n
    → n < 2 ^ 62
    → to_stream_info (stream_control n) size ≡ checked (stream_info n) size
unfolding to_stream_info
to_stream_info-stream n size h k = ground (arith, dest_words-stream n k)

to_stream_info-constant :
    (n size : ℕ)
    → 0 < n
    → n < 2 ^ 62
    → to_stream_info (constant_control n) size ≡ checked (constant_info n) size
unfolding to_stream_info
to_stream_info-constant n size h k = ground (arith, dest_words-constant n k)

checked-fits : (info : StreamInfo) (size : ℕ) → wse_size info ≤ size → checked info size ≡ some info
unfolding checked
checked-fits info size h = rw (le→ltb _ _ h)

checked-short : (info : StreamInfo) (size : ℕ) → size < wse_size info → checked info size ≡ none
unfolding checked
checked-short info size h = rw (lt→ltb _ _ h)

-- A stream of `n` words, and a constant stream over `n` words, of fewer than 2 ^ 60, are read as what
-- they are exactly if the entry with its value words fits the bytes left: `32 + 8 * n` bytes, or 40
-- for a constant stream.
pub to_stream_info-decodes :
    (n size : ℕ)
    → 0 < n
    → n < 2 ^ 60
    → (32 + 8 * n ≤ size → to_stream_info (stream_control n) size ≡ some (stream_info n))
      × (size < 32 + 8 * n → to_stream_info (stream_control n) size ≡ none)
      × (40 ≤ size → to_stream_info (constant_control n) size ≡ some (constant_info n))
      × (size < 40 → to_stream_info (constant_control n) size ≡ none)
to_stream_info-decodes n size h k = (
  λ fits.
      to_stream_info-stream n size h (omega arith) ∙ checked-fits _ size (omega (arith, stream)),
  λ short.
      to_stream_info-stream n size h (omega arith) ∙ checked-short _ size (omega (arith, stream)),
  λ fits.
      to_stream_info-constant n size h (omega arith)
      ∙ checked-fits _ size (omega (arith, constant)),
  λ short.
      to_stream_info-constant n size h (omega arith)
      ∙ checked-short _ size (omega (arith, constant)),
)
  where
    stream : wse_size (stream_info n) ≡ 32 + 8 * n
    stream = wse_size-words (stream_info n) h k

    constant : wse_size (constant_info n) ≡ 40
    constant = wse_size-words (constant_info n) (omega arith) (omega arith)

wse_size-wraps : (v : ℕ) → 0 < v → v < 2 ^ 60 → wse_size (stream_info (2 ^ 61 + v)) ≡ 32 + 8 * v
unfolding wse_size
wse_size-wraps v h k = omega arith

-- The size of an entry is computed modulo 2 ^ 64, so a stream that claims `2 ^ 61 + v` value words
-- passes the size check with the bytes of `v` words, and is handed on with the length it claims.
pub to_stream_info_wraps :
    (v size : ℕ)
    → 0 < v
    → v < 2 ^ 60
    → 32 + 8 * v ≤ size
    → to_stream_info (stream_control (2 ^ 61 + v)) size ≡ some (stream_info (2 ^ 61 + v))
to_stream_info_wraps v size h k fits =
    to_stream_info-stream (2 ^ 61 + v) size (omega arith) (omega arith)
    ∙ checked-fits _ size (omega (arith, wse_size-wraps v h k))
