-- ===== src/Proto/Runtime.antt =====
-- The runtime library of protocol buffers, which is outside the repository: the calls that
-- google_cast_message.cpp makes, and the documented behaviour that its correctness rests on.
use libchromecast.Prelude.{
  ℕ, ◌+◌, ◌*◌, ◌/◌, ◌%◌, ◌^◌, ◌≤◌, ◌<◌, ◌≡◌, ◌≢◌, ◌⊎◌, Bool, true, false, [], ◌++◌, Bytes, Option,
  some, length,
}

-- WireFormatLite, CodedOutputStream and CodedInputStream. A write is the bytes that it adds; an
-- input stream is the bytes that are left.
pub record WireFormat : Type 0 where
  -- WriteEnum; WriteStringMaybeAliased, WriteBytesMaybeAliased and WriteBytes; WriteVarint32
  pub write_enum : ℕ → ℕ → Bytes
  pub write_string : ℕ → Bytes → Bytes
  pub write_varint32 : ℕ → Bytes
  -- EnumSize; StringSize and BytesSize
  pub enum_size : ℕ → ℕ
  pub string_size : Bytes → ℕ
  -- GetTagFieldNumber, GetTagWireType
  pub tag_field_number : ℕ → ℕ
  pub tag_wire_type : ℕ → ℕ
  -- ReadTagWithCutoff(127): the tag, and whether it is at most 127 and not the end
  pub read_tag_with_cutoff : Bytes → ℕ × Bool × Bytes
  -- ExpectTag: whether the tag is next, and then the stream behind it; ExpectAtEnd
  pub expect_tag : ℕ → Bytes → Bool × Bytes
  pub expect_at_end : Bytes → Bool
  -- ReadPrimitive of an enum; ReadString and ReadBytes; `none` where they return false
  pub read_enum : Bytes → Option (ℕ × Bytes)
  pub read_string : Bytes → Option (Bytes × Bytes)
  -- SkipField: what it copies to the unknown fields, and the stream behind the field
  pub skip_field : ℕ → Bytes → Option (Bytes × Bytes)

abbrev pub wiretype_end_group : ℕ
wiretype_end_group = 4

-- The documented wire format, on a stream whose limits are not reached: those that a stream has are
-- stated where one is made. `tag_bytes`, `enum_bytes` and `string_bytes` are the encodings of a
-- tag, of an enum's number and of a length with its bytes.
pub record IsWireFormat (w : WireFormat) : Type 0 where
  pub tag_bytes : ℕ → Bytes
  pub enum_bytes : ℕ → Bytes
  pub string_bytes : Bytes → Bytes
  pub write_enum-eq : (f v : ℕ) → w.write_enum f v ≡ tag_bytes (8 * f) ++ enum_bytes v
  pub write_string-eq :
      (f : ℕ) (s : Bytes) → w.write_string f s ≡ tag_bytes (8 * f + 2) ++ string_bytes s
  -- A tag of a field below 16 is one byte long.
  pub length-tag_bytes : (t : ℕ) → t < 128 → length (tag_bytes t) ≡ 1
  pub length-enum_bytes : (v : ℕ) → length (enum_bytes v) ≡ w.enum_size v
  pub length-string_bytes : (s : Bytes) → length (string_bytes s) ≡ w.string_size s
  -- A tag is eight times the number of the field, and the wire type.
  pub tag_field_number-eq : (t : ℕ) → w.tag_field_number t ≡ t / 8
  pub tag_wire_type-eq : (t : ℕ) → w.tag_wire_type t ≡ t % 8
  -- What was written is read back.
  pub read-tag_bytes :
      (t : ℕ) (rest : Bytes)
      → 0 < t
      → t < 128
      → w.read_tag_with_cutoff (tag_bytes t ++ rest) ≡ (t, true, rest)
  pub read_enum-enum_bytes :
      (v : ℕ) (rest : Bytes) → v < 2 ^ 31 → w.read_enum (enum_bytes v ++ rest) ≡ some (v, rest)
  pub read_string-string_bytes :
      (s rest : Bytes) → length s < 2 ^ 31 → w.read_string (string_bytes s ++ rest) ≡ some (s, rest)
  -- At the end of the stream there is no tag.
  pub read_tag-end : w.read_tag_with_cutoff [] ≡ (0, false, [])
  -- ExpectTag may answer no at any time, and then reads nothing; ExpectAtEnd likewise.
  pub expect_tag-sound :
      (t : ℕ) (s : Bytes)
      → (w.expect_tag t s ≡ (false, s))
        ⊎ ((rest : Bytes) × (w.expect_tag t s ≡ (true, rest)) × (s ≡ tag_bytes t ++ rest))
  pub expect_at_end-sound : (s : Bytes) → w.expect_at_end s ≡ true → s ≡ []
  -- A tag that was read took a byte at least, and nothing that is read makes the stream longer.
  pub read_tag-shrinks :
      (s : Bytes)
      → (w.read_tag_with_cutoff s).0 ≢ 0
      → length (w.read_tag_with_cutoff s).2 < length s
  pub read_enum-shrinks :
      (s : Bytes) (v : ℕ) (rest : Bytes) → w.read_enum s ≡ some (v, rest) → length rest ≤ length s
  pub read_string-shrinks :
      (s v rest : Bytes) → w.read_string s ≡ some (v, rest) → length rest ≤ length s
  pub skip_field-shrinks :
      (t : ℕ) (s u rest : Bytes) → w.skip_field t s ≡ some (u, rest) → length rest ≤ length s
