-- ===== src/Proto/AuthResponse/Laws.antt =====
-- google_cast_message.cpp: the copies of AuthResponse, and its size.
use libchromecast.Prelude.{
  ℕ, ◌+◌, ◌*◌, ◌^◌, ◌<◌, ◌≡◌, refl, false, List, [], ◌∷◌, Bytes, length, length-append, arith,
  if◌then◌else◌, true, some,
}
use libchromecast.Proto.Runtime.{WireFormat, IsWireFormat}
use libchromecast.Proto.StringField
use libchromecast.Proto.StringField.Laws.{IsValid, View, view}
use libchromecast.Proto.EnumField
use libchromecast.Proto.EnumField.{EnumField}
use libchromecast.Proto.Fields.{
  clear_string, drop_bit, merge_string, merge_enum, string_total, enum_total,
}
use libchromecast.Proto.Fields.Laws.{length-put_string, length-put_enum}
use libchromecast.Proto.AuthEnums.{SignatureAlgorithm, rsassa_pkcs1v15, signature_algorithm_number}
use libchromecast.Proto.AuthResponse.{
  AuthResponse, new_message, has_any, clear, merge_from, copy_from, copy_constructor, put_repeated,
  serialize_with_cached_sizes, sizes, byte_size,
}

module _ (w : WireFormat) (format : IsWireFormat w) where
  -- Each certificate takes a tag of one byte, and its own bytes.
  length-put_repeated :
      (n : ℕ) (ss : List Bytes) → n < 15 → length (put_repeated w n ss) ≡ 1 * length ss + sizes w ss
  unfolding put_repeated sizes
  length-put_repeated n [] h = omega arith
  length-put_repeated n (s ∷ rest) h = simp length-append (
      omega (
        arith,
        length-put_repeated n rest h,
        length-put_string w format n (record { has = true; pointer = some s }) (omega arith),
      ))

  -- Without a bit that is set the sum over the fields is 0, so the test saves time only.
  fields_guard :
      (m : AuthResponse)
      → (if has_any m
          then string_total w m.signature
            + string_total w m.client_auth_certificate
            + enum_total w signature_algorithm_number m.signature_algorithm
          else 0)
        ≡ string_total w m.signature
          + string_total w m.client_auth_certificate
          + enum_total w signature_algorithm_number m.signature_algorithm
  unfolding has_any
  fields_guard m = ground arith

  length-serialize :
      (m : AuthResponse)
      → length (serialize_with_cached_sizes w m)
        ≡ string_total w m.signature
          + string_total w m.client_auth_certificate
          + enum_total w signature_algorithm_number m.signature_algorithm
          + (1 * length m.intermediate_certificate + sizes w m.intermediate_certificate)
          + length m.unknown_fields
  unfolding serialize_with_cached_sizes
  length-serialize m = simp length-append (
      omega (
        arith,
        length-put_string w format 1 m.signature (omega arith),
        length-put_string w format 2 m.client_auth_certificate (omega arith),
        length-put_repeated 3 m.intermediate_certificate (omega arith),
        length-put_enum w format signature_algorithm_number 4 m.signature_algorithm (omega arith),
      ))

  -- ByteSize is the number of bytes that SerializeWithCachedSizes adds, where an `int` holds it, and
  -- it is cached.
  pub auth_response-byte_size :
      (m : AuthResponse)
      → length (serialize_with_cached_sizes w m) < 2 ^ 31
      → ((byte_size w m).0 ≡ length (serialize_with_cached_sizes w m))
        × ((byte_size w m).1.cached_size ≡ (byte_size w m).0)
  unfolding byte_size
  auth_response-byte_size m short = (rw (fields_guard m) (omega (arith, length-serialize m)), refl)

-- Every string that is set is the message's own, and every field that is not set reads as its
-- default.
pub record IsConsistent (m : AuthResponse) : Type 0 where
  pub signature : IsValid m.signature
  pub client_auth_certificate : IsValid m.client_auth_certificate
  pub signature_algorithm :
      m.signature_algorithm.has ≡ false → m.signature_algorithm.value ≡ rsassa_pkcs1v15

-- What the accessors of a message show.
pub record ResponseView : Type 0 where
  pub signature : View
  pub client_auth_certificate : View
  pub intermediate_certificate : List Bytes
  pub signature_algorithm : EnumField SignatureAlgorithm
  pub unknown_fields : Bytes

unfoldable pub response_view : AuthResponse → ResponseView
response_view m = record {
  signature = view m.signature;
  client_auth_certificate = view m.client_auth_certificate;
  intermediate_certificate = m.intermediate_certificate;
  signature_algorithm = m.signature_algorithm;
  unknown_fields = m.unknown_fields;
}

-- CopyFrom of a consistent message makes any consistent message look like it, and so does the copy
-- constructor.
pub response_view-copy_from :
    (from m : AuthResponse)
    → IsConsistent from
    → IsConsistent m
    → (response_view (copy_from from m) ≡ response_view from)
      × (response_view (copy_constructor from) ≡ response_view from)
unfolding response_view copy_from copy_constructor merge_from clear new_message has_any clear_string
    drop_bit merge_string merge_enum StringField.set StringField.clear EnumField.set EnumField.clear
response_view-copy_from from m hf hm =
    (ground (arith, hf.signature_algorithm), ground (arith, hf.signature_algorithm))
