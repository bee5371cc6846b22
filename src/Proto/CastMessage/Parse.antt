-- ===== src/Proto/CastMessage/Parse.antt =====
-- google_cast_message.cpp: CastMessage::MergePartialFromCodedStream.
pub mod Fuel
pub mod Plain
pub mod Merge
pub mod Tails
pub mod Fields
pub mod RoundTrip
use libchromecast.Prelude.{ℕ, Bool, ◌++◌, Bytes}
use libchromecast.Proto.Runtime.{WireFormat}
use libchromecast.Proto.EnumField
use libchromecast.Proto.Fields.{read_into}
use libchromecast.Proto.Parser.{
  Parse, Next, expect, read_string_into, read_enum_into, expect_end, handle_unusual, field_case,
  parse_loop,
}
use libchromecast.Proto.CastMessage.{
  CastMessage, protocol_version_is_valid, payload_type_is_valid, to_protocol_version,
  to_payload_type,
}

abbrev pub add_unknown : Bytes → CastMessage → CastMessage
add_unknown bytes m = record m { unknown_fields = m.unknown_fields ++ bytes }

unfoldable pub set_protocol_version : ℕ → CastMessage → CastMessage
unfolding EnumField.set
set_protocol_version value m = record m {
  protocol_version = EnumField.set (to_protocol_version value) m.protocol_version;
}

unfoldable pub set_payload_type : ℕ → CastMessage → CastMessage
unfolding EnumField.set
set_payload_type value m = record m {
  payload_type = EnumField.set (to_payload_type value) m.payload_type;
}

unfoldable pub store_source_id : Bytes → CastMessage → CastMessage
unfolding read_into
store_source_id value m = record m { source_id = read_into value m.source_id }

unfoldable pub store_destination_id : Bytes → CastMessage → CastMessage
unfolding read_into
store_destination_id value m = record m { destination_id = read_into value m.destination_id }

unfoldable pub store_namespace : Bytes → CastMessage → CastMessage
unfolding read_into
store_namespace value m = record m { namespace = read_into value m.namespace }

unfoldable pub store_payload_utf8 : Bytes → CastMessage → CastMessage
unfolding read_into
store_payload_utf8 value m = record m { payload_utf8 = read_into value m.payload_utf8 }

unfoldable pub store_payload_binary : Bytes → CastMessage → CastMessage
unfolding read_into
store_payload_binary value m = record m { payload_binary = read_into value m.payload_binary }

module _ (w : WireFormat) where
  unfoldable pub parse_payload_binary : Next CastMessage → Next CastMessage
  parse_payload_binary next = read_string_into w store_payload_binary (expect_end w next)

  unfoldable pub parse_payload_utf8 : Next CastMessage → Next CastMessage
  parse_payload_utf8 next =
      read_string_into w store_payload_utf8 (expect w 58 (parse_payload_binary next) next)

  unfoldable pub parse_payload_type : Next CastMessage → Next CastMessage
  parse_payload_type next =
      read_enum_into w add_unknown 40 payload_type_is_valid set_payload_type
        (expect w 50 (parse_payload_utf8 next) next)

  unfoldable pub parse_namespace : Next CastMessage → Next CastMessage
  parse_namespace next =
      read_string_into w store_namespace (expect w 40 (parse_payload_type next) next)

  unfoldable pub parse_destination_id : Next CastMessage → Next CastMessage
  parse_destination_id next =
      read_string_into w store_destination_id (expect w 34 (parse_namespace next) next)

  unfoldable pub parse_source_id : Next CastMessage → Next CastMessage
  parse_source_id next =
      read_string_into w store_source_id (expect w 26 (parse_destination_id next) next)

  unfoldable pub parse_protocol_version : Next CastMessage → Next CastMessage
  parse_protocol_version next =
      read_enum_into w add_unknown 8 protocol_version_is_valid set_protocol_version
        (expect w 18 (parse_source_id next) next)

  -- the `switch`, at a tag within the cutoff
  unfoldable pub parse_field : ℕ → Next CastMessage → Next CastMessage
  parse_field tag next = field_case w add_unknown tag next 1 8 (parse_protocol_version next) (
      field_case w add_unknown tag next 2 18 (parse_source_id next) (
        field_case w add_unknown tag next 3 26 (parse_destination_id next) (
          field_case w add_unknown tag next 4 34 (parse_namespace next) (
            field_case w add_unknown tag next 5 40 (parse_payload_type next) (
              field_case w add_unknown tag next 6 50 (parse_payload_utf8 next) (
                field_case w add_unknown tag next 7 58 (parse_payload_binary next)
                  (handle_unusual w add_unknown tag next)))))))

  -- CastMessage::MergePartialFromCodedStream
  unfoldable pub merge_partial_from_coded_stream : ℕ → CastMessage → Bytes → Parse CastMessage
  merge_partial_from_coded_stream = parse_loop w add_unknown parse_field
