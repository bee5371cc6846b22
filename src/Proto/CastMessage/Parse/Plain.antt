-- ===== src/Proto/CastMessage/Parse/Plain.antt =====
-- CastMessage::MergePartialFromCodedStream against a parser without jumps, which goes back to the
-- `switch` after every field.
use libchromecast.Prelude.{ℕ, ◌<◌, ◌≡◌, arith, Bytes, length}
use libchromecast.Proto.Runtime.{WireFormat, IsWireFormat}
use libchromecast.Proto.Parser.{
  Parse, Next, success, read_string_into, read_enum_into, handle_unusual, field_case, parse_loop,
}
use libchromecast.Proto.Parser.Jumps.{
  Agree, IsLoop, read_string_into-Agree, read_enum_into-Agree, handle_unusual-Agree,
  field_case-Agree, expect-Agree, expect_end-Agree, parse_loop-plain,
}
use libchromecast.Proto.CastMessage.{CastMessage, protocol_version_is_valid, payload_type_is_valid}
use libchromecast.Proto.CastMessage.Parse.{
  add_unknown, set_protocol_version, set_payload_type, store_source_id, store_destination_id,
  store_namespace, store_payload_utf8, store_payload_binary, parse_payload_binary,
  parse_payload_utf8, parse_payload_type, parse_namespace, parse_destination_id, parse_source_id,
  parse_protocol_version, parse_field, merge_partial_from_coded_stream,
}

module _ (w : WireFormat) where
  -- The `switch` without jumps: each case reads its field, and breaks.
  unfoldable pub plain_field : ℕ → Next CastMessage → Next CastMessage
  plain_field tag next =
      field_case w add_unknown tag next 1 8
        (read_enum_into w add_unknown 8 protocol_version_is_valid set_protocol_version next)
        (field_case w add_unknown tag next 2 18 (read_string_into w store_source_id next) (
          field_case w add_unknown tag next 3 26 (read_string_into w store_destination_id next) (
            field_case w add_unknown tag next 4 34 (read_string_into w store_namespace next) (
              field_case w add_unknown tag next 5 40
                (read_enum_into w add_unknown 40 payload_type_is_valid set_payload_type next)
                (field_case w add_unknown tag next 6 50 (read_string_into w store_payload_utf8 next)
                  (field_case w add_unknown tag next 7 58
                    (read_string_into w store_payload_binary next)
                    (handle_unusual w add_unknown tag next)))))))

  unfoldable pub plain_parse : ℕ → CastMessage → Bytes → Parse CastMessage
  plain_parse = parse_loop w add_unknown plain_field

module _ (w : WireFormat) (format : IsWireFormat w) where
  plain_zero :
      (next : Next CastMessage) (m : CastMessage) (input : Bytes)
      → plain_field w 0 next m input ≡ success m input
  unfolding plain_field field_case handle_unusual
  plain_zero next m input = rw (format.tag_field_number-eq 0)

  parse_zero :
      (next : Next CastMessage) (m : CastMessage) (input : Bytes)
      → parse_field w 0 next m input ≡ success m input
  unfolding parse_field field_case handle_unusual
  parse_zero next m input = rw (format.tag_field_number-eq 0)

  -- The plain `switch` does the same, where what follows does.
  plain-Agree :
      (n : ℕ) (f g : Next CastMessage)
      → Agree n f g
      → (tag : ℕ) → Agree n (plain_field w tag f) (plain_field w tag g)
  unfolding plain_field
  plain-Agree n f g same tag =
      field_case-Agree w format n add_unknown tag 1 8 f g _ _ _ _ same
        (read_enum_into-Agree w format n add_unknown 8 protocol_version_is_valid
          set_protocol_version f g same)
        (field_case-Agree w format n add_unknown tag 2 18 f g _ _ _ _ same
          (read_string_into-Agree w format n store_source_id f g same)
          (field_case-Agree w format n add_unknown tag 3 26 f g _ _ _ _ same
            (read_string_into-Agree w format n store_destination_id f g same)
            (field_case-Agree w format n add_unknown tag 4 34 f g _ _ _ _ same
              (read_string_into-Agree w format n store_namespace f g same)
              (field_case-Agree w format n add_unknown tag 5 40 f g _ _ _ _ same
                (read_enum_into-Agree w format n add_unknown 40 payload_type_is_valid
                  set_payload_type f g same)
                (field_case-Agree w format n add_unknown tag 6 50 f g _ _ _ _ same
                  (read_string_into-Agree w format n store_payload_utf8 f g same)
                  (field_case-Agree w format n add_unknown tag 7 58 f g _ _ _ _ same
                    (read_string_into-Agree w format n store_payload_binary f g same)
                    (handle_unusual-Agree w format n add_unknown tag f g same)))))))

  module _ (n : ℕ) (f next : Next CastMessage) (same : Agree n f next)
      (is_loop : IsLoop w format (plain_field w) n next) where
    -- Each label does what its case of the plain `switch` does.
    payload_binary-Agree :
        Agree n (parse_payload_binary w f) (read_string_into w store_payload_binary next)
    unfolding parse_payload_binary
    payload_binary-Agree =
        read_string_into-Agree w format n store_payload_binary _ next
          (expect_end-Agree w format (plain_field w) n f next same is_loop)

    payload_utf8-Agree :
        Agree n (parse_payload_utf8 w f) (read_string_into w store_payload_utf8 next)
    unfolding parse_payload_utf8 plain_field field_case
    payload_utf8-Agree = read_string_into-Agree w format n store_payload_utf8 _ next (
        expect-Agree w format (plain_field w) n f next same is_loop 58 (parse_payload_binary w f)
          (omega arith) (omega arith)
          (λ m input h. rw (format.tag_field_number-eq 58) (payload_binary-Agree m input h)))

    payload_type-Agree :
        Agree n
          (parse_payload_type w f)
          (read_enum_into w add_unknown 40 payload_type_is_valid set_payload_type next)
    unfolding parse_payload_type plain_field field_case
    payload_type-Agree =
        read_enum_into-Agree w format n add_unknown 40 payload_type_is_valid set_payload_type _ next
          (expect-Agree w format (plain_field w) n f next same is_loop 50 (parse_payload_utf8 w f)
            (omega arith) (omega arith)
            (λ m input h. rw (format.tag_field_number-eq 50) (payload_utf8-Agree m input h)))

    namespace-Agree : Agree n (parse_namespace w f) (read_string_into w store_namespace next)
    unfolding parse_namespace plain_field field_case
    namespace-Agree = read_string_into-Agree w format n store_namespace _ next (
        expect-Agree w format (plain_field w) n f next same is_loop 40 (parse_payload_type w f)
          (omega arith) (omega arith)
          (λ m input h. rw (format.tag_field_number-eq 40) (payload_type-Agree m input h)))

    destination_id-Agree :
        Agree n (parse_destination_id w f) (read_string_into w store_destination_id next)
    unfolding parse_destination_id plain_field field_case
    destination_id-Agree = read_string_into-Agree w format n store_destination_id _ next (
        expect-Agree w format (plain_field w) n f next same is_loop 34 (parse_namespace w f)
          (omega arith) (omega arith)
          (λ m input h. rw (format.tag_field_number-eq 34) (namespace-Agree m input h)))

    source_id-Agree : Agree n (parse_source_id w f) (read_string_into w store_source_id next)
    unfolding parse_source_id plain_field field_case
    source_id-Agree = read_string_into-Agree w format n store_source_id _ next (
        expect-Agree w format (plain_field w) n f next same is_loop 26 (parse_destination_id w f)
          (omega arith) (omega arith)
          (λ m input h. rw (format.tag_field_number-eq 26) (destination_id-Agree m input h)))

    protocol_version-Agree :
        Agree n
          (parse_protocol_version w f)
          (read_enum_into w add_unknown 8 protocol_version_is_valid set_protocol_version next)
    unfolding parse_protocol_version plain_field field_case
    protocol_version-Agree =
        read_enum_into-Agree w format n add_unknown 8 protocol_version_is_valid set_protocol_version
          _ next
          (expect-Agree w format (plain_field w) n f next same is_loop 18 (parse_source_id w f)
            (omega arith) (omega arith)
            (λ m input h. rw (format.tag_field_number-eq 18) (source_id-Agree m input h)))

    parse_field-Agree : (tag : ℕ) → Agree n (parse_field w tag f) (plain_field w tag next)
    unfolding parse_field plain_field
    parse_field-Agree tag =
        field_case-Agree w format n add_unknown tag 1 8 f next _ _ _ _ same protocol_version-Agree (
          field_case-Agree w format n add_unknown tag 2 18 f next _ _ _ _ same source_id-Agree (
            field_case-Agree w format n add_unknown tag 3 26 f next _ _ _ _ same
              destination_id-Agree
              (field_case-Agree w format n add_unknown tag 4 34 f next _ _ _ _ same namespace-Agree
                (field_case-Agree w format n add_unknown tag 5 40 f next _ _ _ _ same
                  payload_type-Agree
                  (field_case-Agree w format n add_unknown tag 6 50 f next _ _ _ _ same
                    payload_utf8-Agree
                    (field_case-Agree w format n add_unknown tag 7 58 f next _ _ _ _ same
                      payload_binary-Agree
                      (handle_unusual-Agree w format n add_unknown tag f next same)))))))

-- The parser does exactly what the parser without jumps does, on every input and message, whatever
-- ExpectTag and ExpectAtEnd answer: the jumps save rounds of the loop, and nothing else. The fuel is
-- more than the input has bytes.
pub merge_partial-plain :
    (w : WireFormat)
    → IsWireFormat w
    → (fuel : ℕ) (m : CastMessage) (input : Bytes) → length input < fuel
    → merge_partial_from_coded_stream w fuel m input ≡ plain_parse w fuel m input
unfolding merge_partial_from_coded_stream plain_parse
merge_partial-plain w format fuel m input h =
    parse_loop-plain w format add_unknown (plain_field w) (plain_zero w format)
      (plain-Agree w format) (parse_field w) (parse_zero w format) (parse_field-Agree w format) fuel
      m input h
