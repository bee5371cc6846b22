-- ===== src/Proto/CastMessage/Parse/Fuel.antt =====
-- The loop of CastMessage::MergePartialFromCodedStream ends.
use libchromecast.Prelude.{ℕ, ◌<◌, ◌≢◌, Bytes, length}
use libchromecast.Proto.Runtime.{WireFormat, IsWireFormat}
use libchromecast.Proto.Parser.{out_of_fuel, Next, handle_unusual, field_case}
use libchromecast.Proto.Parser.Fuel.{
  Ends, expect-Ends, read_string_into-Ends, read_enum_into-Ends, expect_end-Ends,
  handle_unusual-Ends, field_case-Ends, parse_loop-Ends,
}
use libchromecast.Proto.CastMessage.{CastMessage, payload_type_is_valid, protocol_version_is_valid}
use libchromecast.Proto.CastMessage.Parse.{
  add_unknown, parse_payload_binary, parse_payload_utf8, parse_payload_type, parse_namespace,
  parse_destination_id, parse_source_id, parse_protocol_version, set_protocol_version,
  set_payload_type, store_source_id, store_destination_id, store_namespace, store_payload_utf8,
  store_payload_binary, parse_field, merge_partial_from_coded_stream,
}

module _ (w : WireFormat) (format : IsWireFormat w) where
  parse_field_zero :
      (next : Next CastMessage) (m : CastMessage) (input : Bytes)
      → parse_field w 0 next m input ≢ out_of_fuel
  unfolding parse_field field_case handle_unusual
  parse_field_zero next m input = rw (format.tag_field_number-eq 0) (λ t. cc)

  module _ (n : ℕ) (next : Next CastMessage) (ends : Ends n next) where
    parse_payload_binary-Ends : Ends n (parse_payload_binary w next)
    unfolding parse_payload_binary
    parse_payload_binary-Ends =
        read_string_into-Ends w format n _ (expect_end-Ends w format n next ends)
          store_payload_binary

    parse_payload_utf8-Ends : Ends n (parse_payload_utf8 w next)
    unfolding parse_payload_utf8
    parse_payload_utf8-Ends =
        read_string_into-Ends w format n _
          (expect-Ends w format n next ends _ _ parse_payload_binary-Ends) store_payload_utf8

    parse_payload_type-Ends : Ends n (parse_payload_type w next)
    unfolding parse_payload_type
    parse_payload_type-Ends =
        read_enum_into-Ends w format n _
          (expect-Ends w format n next ends _ _ parse_payload_utf8-Ends) add_unknown 40
          payload_type_is_valid set_payload_type

    parse_namespace-Ends : Ends n (parse_namespace w next)
    unfolding parse_namespace
    parse_namespace-Ends =
        read_string_into-Ends w format n _
          (expect-Ends w format n next ends _ _ parse_payload_type-Ends) store_namespace

    parse_destination_id-Ends : Ends n (parse_destination_id w next)
    unfolding parse_destination_id
    parse_destination_id-Ends =
        read_string_into-Ends w format n _
          (expect-Ends w format n next ends _ _ parse_namespace-Ends) store_destination_id

    parse_source_id-Ends : Ends n (parse_source_id w next)
    unfolding parse_source_id
    parse_source_id-Ends =
        read_string_into-Ends w format n _
          (expect-Ends w format n next ends _ _ parse_destination_id-Ends) store_source_id

    parse_protocol_version-Ends : Ends n (parse_protocol_version w next)
    unfolding parse_protocol_version
    parse_protocol_version-Ends =
        read_enum_into-Ends w format n _ (expect-Ends w format n next ends _ _ parse_source_id-Ends)
          add_unknown 8 protocol_version_is_valid set_protocol_version

    parse_field-Ends : (tag : ℕ) → Ends n (parse_field w tag next)
    unfolding parse_field
    parse_field-Ends tag =
        field_case-Ends w format n next ends add_unknown tag _ _ _ _ parse_protocol_version-Ends (
          field_case-Ends w format n next ends add_unknown tag _ _ _ _ parse_source_id-Ends (
            field_case-Ends w format n next ends add_unknown tag _ _ _ _ parse_destination_id-Ends (
              field_case-Ends w format n next ends add_unknown tag _ _ _ _ parse_namespace-Ends (
                field_case-Ends w format n next ends add_unknown tag _ _ _ _ parse_payload_type-Ends
                  (field_case-Ends w format n next ends add_unknown tag _ _ _ _
                    parse_payload_utf8-Ends
                    (field_case-Ends w format n next ends add_unknown tag _ _ _ _
                      parse_payload_binary-Ends
                      (handle_unusual-Ends w format n next ends add_unknown tag)))))))

-- The parser's loop ends on every input and message: more fuel than the input has bytes is enough.
pub merge_partial-ne-out_of_fuel :
    (w : WireFormat)
    → IsWireFormat w
    → (fuel : ℕ) (m : CastMessage) (input : Bytes) → length input < fuel
    → merge_partial_from_coded_stream w fuel m input ≢ out_of_fuel
unfolding merge_partial_from_coded_stream
merge_partial-ne-out_of_fuel w format fuel m input h =
    parse_loop-Ends w format add_unknown (parse_field w) (parse_field_zero w format)
      (parse_field-Ends w format) fuel m input h
