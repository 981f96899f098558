-- ===== src/Writeset/Entry.antt =====
-- `struct sivfs_writeset_entry` of kern/sivfs_writeset.h: an entry, its words in memory, and which
-- entries are well formed.
use sivfs_public.Base.{ℕ, suc, ◌+◌, ◌*◌, ◌^◌, ◌≤◌, ◌<◌, ◌≡◌, some, List, [], ◌∷◌, arith, length}
use sivfs_public.Writeset.{StreamInfo, wse_size, to_stream_info}
use sivfs_public.Writeset.Control.{
  plain_info, stream_info, constant_info, stream_control, constant_control, wse_size-words,
  to_stream_info-decodes, to_stream_info-plain,
}

-- `value` is the first value word. A stream has more of them behind it: `more`.
pub record Entry : Type 0 where
  pub ino : ℕ
  pub file_offset : ℕ
  pub address : ℕ
  pub stream_control : ℕ
  pub value : ℕ
  pub more : List ℕ

-- The words of an entry, in the order of the struct.
abbrev pub words : Entry → List ℕ
words e = e.ino ∷ e.file_offset ∷ e.address ∷ e.stream_control ∷ e.value ∷ e.more

-- `sivfs_write_ws` and `DEFINE_WRITESET_ENTRY`: an entry for one word at an address.
abbrev pub word_entry : (address value : ℕ) → Entry
word_entry address value = record {
  ino = 0;
  file_offset = 0;
  address = address;
  stream_control = 0;
  value = value;
  more = [];
}

-- A single word, a stream with all its value words, or a constant stream.
pub data IsEntry (e : Entry) : Type 0 where
  plain : e.stream_control ≡ 0 → length e.more ≡ 0 → IsEntry e
  stream :
      (n : ℕ)
      → e.stream_control ≡ stream_control n
      → n < 2 ^ 58
      → n ≡ suc (length e.more)
      → IsEntry e
  constant :
      (n : ℕ)
      → e.stream_control ≡ constant_control n
      → 0 < n
      → n < 2 ^ 58
      → length e.more ≡ 0
      → IsEntry e

-- What the code reads from the control word of a well-formed entry.
abbrev pub info_of : {e : Entry} → IsEntry e → StreamInfo
info_of (plain sc one) = plain_info
info_of (stream n sc small all) = stream_info n
info_of (constant n sc some_words small one) = constant_info n

-- Bytes of an entry.
abbrev pub bytes : Entry → ℕ
bytes e = 40 + 8 * length e.more

pub bytes-lt : {e : Entry} → IsEntry e → bytes e < 2 ^ 62
bytes-lt (plain sc one) = omega arith
bytes-lt (stream n sc small all) = omega arith
bytes-lt (constant n sc some_words small one) = omega arith

pub wse_size-info_of : {e : Entry} (w : IsEntry e) → wse_size (info_of w) ≡ bytes e
wse_size-info_of (plain sc one) =
    omega (arith, wse_size-words plain_info (omega arith) (omega arith))
wse_size-info_of (stream n sc small all) =
    omega (arith, wse_size-words (stream_info n) (omega arith) (omega arith))
wse_size-info_of (constant n sc some_words small one) =
    omega (arith, wse_size-words (constant_info n) (omega arith) (omega arith))

-- The control word of a well-formed entry is read back as what the entry is, if the entry fits the
-- bytes left.
pub to_stream_info-info_of :
    {e : Entry} (w : IsEntry e) (size : ℕ)
    → bytes e ≤ size
    → to_stream_info e.stream_control size ≡ some (info_of w)
to_stream_info-info_of (plain sc one) size h = rw sc (to_stream_info-plain size)
to_stream_info-info_of (stream n sc small all) size h =
    rw sc ((to_stream_info-decodes n size (omega arith) (omega arith)).0 (omega arith))
to_stream_info-info_of (constant n sc some_words small one) size h =
    rw sc ((to_stream_info-decodes n size some_words (omega arith)).2 (omega arith))
