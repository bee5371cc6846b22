-- ===== src/Proto/CastMessage/Serialize.antt =====
-- google_cast_message.cpp: CastMessage::SerializeWithCachedSizes and CastMessage::ByteSize.
use libchromecast.Prelude.{
  ℕ, ◌+◌, ◌%◌, ◌^◌, ◌<◌, ◌≡◌, refl, ◌++◌, Bytes, if◌then◌else◌, arith, length, length-append,
}
use libchromecast.Proto.Runtime.{WireFormat, IsWireFormat}
use libchromecast.Proto.Fields.{put_enum, put_string, enum_total, string_total}
use libchromecast.Proto.Fields.Laws.{length-put_enum, length-put_string}
use libchromecast.Proto.CastMessage.{
  CastMessage, protocol_version_number, payload_type_number, has_any,
}

module _ (w : WireFormat) where
  -- CastMessage::SerializeWithCachedSizes: the bytes that are added to the output
  unfoldable pub serialize_with_cached_sizes : CastMessage → Bytes
  serialize_with_cached_sizes m =
      put_enum w protocol_version_number 1 m.protocol_version
      ++ (put_string w 2 m.source_id
          ++ (put_string w 3 m.destination_id
              ++ (put_string w 4 m.namespace
                  ++ (put_enum w payload_type_number 5 m.payload_type
                      ++ (put_string w 6 m.payload_utf8
                          ++ (put_string w 7 m.payload_binary ++ m.unknown_fields))))))

  fields_total : CastMessage → ℕ
  fields_total m =
      enum_total w protocol_version_number m.protocol_version
      + string_total w m.source_id
      + string_total w m.destination_id
      + string_total w m.namespace
      + enum_total w payload_type_number m.payload_type
      + string_total w m.payload_utf8
      + string_total w m.payload_binary

  -- CastMessage::ByteSize: the sum, which is kept in `_cached_size_`. It is an `int`, here its bit
  -- pattern: what is added wraps around at 2^32.
  unfoldable pub byte_size : CastMessage → ℕ × CastMessage
  unfolding has_any fields_total
  byte_size m =
      let fields = if has_any m then fields_total m else 0 in
      let total_size = (fields + length m.unknown_fields) % 2 ^ 32 in
      (total_size, record m { cached_size = total_size })

module _ (w : WireFormat) (format : IsWireFormat w) where
  -- Without a bit that is set the sum over the fields is 0, so the test saves time only.
  fields_total_guard :
      (m : CastMessage) → (if has_any m then fields_total w m else 0) ≡ fields_total w m
  unfolding has_any fields_total
  fields_total_guard m = ground arith

  length-serialize :
      (m : CastMessage)
      → length (serialize_with_cached_sizes w m) ≡ fields_total w m + length m.unknown_fields
  unfolding serialize_with_cached_sizes fields_total
  length-serialize m = simp length-append (
      omega (
        arith,
        length-put_enum w format protocol_version_number 1 m.protocol_version (omega arith),
        length-put_string w format 2 m.source_id (omega arith),
        length-put_string w format 3 m.destination_id (omega arith),
        length-put_string w format 4 m.namespace (omega arith),
        length-put_enum w format payload_type_number 5 m.payload_type (omega arith),
        length-put_string w format 6 m.payload_utf8 (omega arith),
        length-put_string w format 7 m.payload_binary (omega arith),
      ))

  -- ByteSize is the number of bytes that SerializeWithCachedSizes adds, where an `int` holds it, and
  -- it is cached.
  pub byte_size-length :
      (m : CastMessage)
      → length (serialize_with_cached_sizes w m) < 2 ^ 31
      → ((byte_size w m).0 ≡ length (serialize_with_cached_sizes w m))
        × ((byte_size w m).1.cached_size ≡ (byte_size w m).0)
  unfolding byte_size serialize_with_cached_sizes
  byte_size-length m short = (rw (fields_total_guard m) (omega (arith, length-serialize m)), refl)
