-- ===== src/Tests/Codec.antt =====
-- A wire format over the bytes as numbers: a tag, an enum's number or a length is one of them.
use libchromecast.Prelude.{
  ℕ, zero, suc, ◌+◌, ◌*◌, ◌/◌, ◌%◌, ◌≤◌, ◌<◌, ◌≡◌, ◌≢◌, ◌⊎◌, inl, inr, refl, ap, Bool, true, false,
  not, ◌&&◌, [], ◌∷◌, ◌++◌, Bytes, Option, none, some, length, take, drop, ◌==◌, ==_iff, Bool-cases,
  leb, ltb, ◌^◌, arith, if◌then◌else◌, take-length_append, drop-length_append, length-append,
}
use libchromecast.Proto.Runtime.{WireFormat, IsWireFormat}
use libchromecast.Proto.Nested.{MessageFormat, IsMessageFormat}
use libchromecast.Proto.CastMessage
use libchromecast.Proto.CastMessage.Serialize.{serialize_with_cached_sizes}
use libchromecast.Proto.CastMessage.Parse.{merge_partial_from_coded_stream}
use libchromecast.Cast.Serialize.{MessageLite, IsMessageLite, total_bytes_limit, accept}

abbrev read_tag : Bytes → ℕ × Bool × Bytes
read_tag [] = (0, false, [])
read_tag (t ∷ rest) = (t, leb t 127 && not (t == 0), rest)

abbrev match_tag : ℕ → Bytes → Bool × Bytes
match_tag t [] = (false, [])
match_tag t (x ∷ rest) = if x == t then (true, rest) else (false, x ∷ rest)

abbrev is_end : Bytes → Bool
is_end [] = true
is_end (x ∷ rest) = false

abbrev read_number : Bytes → Option (ℕ × Bytes)
read_number [] = none
read_number (v ∷ rest) = some (v, rest)

abbrev read_counted : Bytes → Option (Bytes × Bytes)
read_counted [] = none
read_counted (n ∷ rest) = if leb n (length rest) then some (take n rest, drop n rest) else none

abbrev skip_number : Bytes → Option (Bytes × Bytes)
skip_number [] = none
skip_number (v ∷ rest) = some (v ∷ [], rest)

abbrev pub codec : WireFormat
codec = record {
  write_enum = λ f v. (8 * f) ∷ v ∷ [];
  write_string = λ f s. (8 * f + 2) ∷ length s ∷ s;
  write_varint32 = λ n. n ∷ [];
  enum_size = λ v. 1;
  string_size = λ s. suc (length s);
  tag_field_number = λ t. t / 8;
  tag_wire_type = λ t. t % 8;
  read_tag_with_cutoff = read_tag;
  expect_tag = match_tag;
  expect_at_end = is_end;
  read_enum = read_number;
  read_string = read_counted;
  skip_field = λ t s. skip_number s;
}

match_tag_sound :
    (t : ℕ) (s : Bytes)
    → (match_tag t s ≡ (false, s))
      ⊎ ((rest : Bytes) × (match_tag t s ≡ (true, rest)) × (s ≡ (t ∷ []) ++ rest))
match_tag_sound t [] = inl refl
match_tag_sound t (x ∷ rest) = elim (Bool-cases (x == t)) [
  | inl e ↦ inr (rest, rw e refl, ap (λ y. y ∷ rest) ((==_iff x t).0 e))
  | inr e ↦ inl (rw e refl)
]

length-drop : (n : ℕ) (s : Bytes) → length (drop n s) ≤ length s
length-drop zero s = omega arith
length-drop (suc n) [] = omega arith
length-drop (suc n) (x ∷ s) = omega (arith, length-drop n s)

read_counted_small : (s v rest : Bytes) → read_counted s ≡ some (v, rest) → length rest ≤ length s
read_counted_small [] v rest h = ground arith
read_counted_small (n ∷ s) v rest h = ground (arith, length-drop n s)

read_counted_back : (s rest : Bytes) → read_counted ((length s ∷ s) ++ rest) ≡ some (s, rest)
read_counted_back s rest =
    ground (arith, length-append s rest, take-length_append s rest, drop-length_append s rest)

read_tag_small : (s : Bytes) → (read_tag s).0 ≢ 0 → length (read_tag s).2 < length s
read_tag_small [] h = absurd (h refl)
read_tag_small (t ∷ rest) h = omega arith

is_end_sound : (s : Bytes) → is_end s ≡ true → s ≡ []
is_end_sound [] h = refl
is_end_sound (x ∷ rest) h = ground arith

read_number_small :
    (s : Bytes) (v : ℕ) (rest : Bytes) → read_number s ≡ some (v, rest) → length rest ≤ length s
read_number_small [] v rest h = ground arith
read_number_small (x ∷ s) v rest h = ground arith

skip_number_small : (s u rest : Bytes) → skip_number s ≡ some (u, rest) → length rest ≤ length s
skip_number_small [] u rest h = ground arith
skip_number_small (x ∷ s) u rest h = ground arith

pub codec-IsWireFormat : IsWireFormat codec
codec-IsWireFormat = record {
  tag_bytes = λ t. t ∷ [];
  enum_bytes = λ v. v ∷ [];
  string_bytes = λ s. length s ∷ s;
  write_enum-eq = λ f v. refl;
  write_string-eq = λ f s. refl;
  length-tag_bytes = λ t h. refl;
  length-enum_bytes = λ v. refl;
  length-string_bytes = λ s. refl;
  tag_field_number-eq = λ t. refl;
  tag_wire_type-eq = λ t. refl;
  read-tag_bytes = λ t rest pos small. ground (arith, ==_iff t 0);
  read_enum-enum_bytes = λ v rest h. refl;
  read_string-string_bytes = λ s rest h. read_counted_back s rest;
  read_tag-end = refl;
  expect_tag-sound = match_tag_sound;
  expect_at_end-sound = is_end_sound;
  read_tag-shrinks = read_tag_small;
  read_enum-shrinks = read_number_small;
  read_string-shrinks = read_counted_small;
  skip_field-shrinks = λ t s u rest h. skip_number_small s u rest h;
}

-- Messages within messages.
abbrev pub message_format : MessageFormat
message_format = record {
  write_message = λ n size s. (8 * n + 2) ∷ size ∷ s;
  message_size = λ size. suc size;
}

pub message_format-IsMessageFormat : IsMessageFormat codec codec-IsWireFormat message_format
unfolding codec-IsWireFormat
message_format-IsMessageFormat = record {
  write_message-eq = λ n s. refl;
  message_size-eq = λ s. refl;
}

-- The runtime library's calls on this format.
abbrev pub lite : MessageLite
lite = record {
  serialize_to_coded_stream = λ m.
      if CastMessage.is_initialized m && ltb (length (serialize_with_cached_sizes codec m)) (2 ^ 31)
      then some (serialize_with_cached_sizes codec m)
      else none;
  parse_from_coded_stream = λ input.
      if ltb (length input) total_bytes_limit
      then accept
          (merge_partial_from_coded_stream codec (suc (length input)) CastMessage.new_message input)
      else none;
}

pub lite-IsMessageLite : IsMessageLite codec lite
lite-IsMessageLite = record {
  serialize_initialized = λ m h short. ground arith;
  serialize_too_long = λ m long. ground arith;
  parse-eq = λ input within. ground arith;
}
