-- ===== src/Proto/CastMessage/Parse/Fields.antt =====
-- google_cast_message.cpp: the parser at the output of SerializeWithCachedSizes, from the last
-- field to the first.
use libchromecast.Prelude.{◌≡◌, [], arith, Bytes, subst, sym}
use libchromecast.Proto.Runtime.{WireFormat, IsWireFormat}
use libchromecast.Proto.Parser.{Next, expect, expect_end, field_case}
use libchromecast.Proto.Parser.Steps
use libchromecast.Proto.Parser.Steps.{
  put_string-Parses, put_enum-Parses, Parses-nil, expect-Goes, expect_end-Goes,
}
use libchromecast.Proto.Fields.Laws.{lift_string}
use libchromecast.Proto.CastMessage.{
  CastMessage, protocol_version_number, payload_type_number, payload_type_is_valid,
  protocol_version_is_valid,
}
use libchromecast.Proto.CastMessage.Parse.{
  add_unknown, parse_field, parse_payload_binary, parse_payload_utf8, parse_payload_type,
  parse_namespace, parse_destination_id, parse_source_id, parse_protocol_version,
  set_protocol_version, set_payload_type, store_source_id, store_destination_id, store_namespace,
  store_payload_utf8, store_payload_binary,
}
use libchromecast.Proto.CastMessage.Parse.Merge.{
  small_protocol_version, valid_protocol_version, small_payload_type, valid_payload_type,
  same_protocol_version, same_payload_type,
}
use libchromecast.Proto.CastMessage.Parse.Tails.{
  IsShort, tail_7, tail_6, tail_5, tail_4, tail_3, tail_2, tail_1, update_7, update_6, update_5,
  update_4, update_3, update_2, update_1, updates_7, updates_6, updates_5, updates_4, updates_3,
  updates_2, updates_1,
}

module _ (w : WireFormat) (format : IsWireFormat w) where
  -- The loop of CastMessage reads `input` to its end, and does `finish` to the message.
  abbrev pub Parses : Bytes → (CastMessage → CastMessage) → Type 0
  Parses = Steps.Parses w format add_unknown (parse_field w)

  -- The `switch` finds the label of each tag.
  pub at_source_id : (next : Next CastMessage) → parse_field w 18 next ≡ parse_source_id w next
  unfolding parse_field field_case
  at_source_id next = rw (format.tag_field_number-eq 18)

  pub at_protocol_version :
      (next : Next CastMessage) → parse_field w 8 next ≡ parse_protocol_version w next
  unfolding parse_field field_case
  at_protocol_version next = rw (format.tag_field_number-eq 8)

  pub at_destination_id :
      (next : Next CastMessage) → parse_field w 26 next ≡ parse_destination_id w next
  unfolding parse_field field_case
  at_destination_id next = rw (format.tag_field_number-eq 26)

  pub at_namespace : (next : Next CastMessage) → parse_field w 34 next ≡ parse_namespace w next
  unfolding parse_field field_case
  at_namespace next = rw (format.tag_field_number-eq 34)

  pub at_payload_type :
      (next : Next CastMessage) → parse_field w 40 next ≡ parse_payload_type w next
  unfolding parse_field field_case
  at_payload_type next = rw (format.tag_field_number-eq 40)

  pub at_payload_utf8 :
      (next : Next CastMessage) → parse_field w 50 next ≡ parse_payload_utf8 w next
  unfolding parse_field field_case
  at_payload_utf8 next = rw (format.tag_field_number-eq 50)

  pub at_payload_binary :
      (next : Next CastMessage) → parse_field w 58 next ≡ parse_payload_binary w next
  unfolding parse_field field_case
  at_payload_binary next = rw (format.tag_field_number-eq 58)

module _ (w : WireFormat) (format : IsWireFormat w) (from : CastMessage)
    (none_unknown : from.unknown_fields ≡ []) (short : IsShort from) where
  -- After the last field the input is at its end.
  Parses-tail_8 : Parses w format from.unknown_fields (λ m. m)
  Parses-tail_8 =
      subst (λ tail. Parses w format tail (λ m. m)) (sym none_unknown)
        (Parses-nil w format add_unknown (parse_field w))

  Parses-tail_7 : Parses w format (tail_7 w from) (updates_7 from)
  unfolding store_payload_binary parse_payload_binary
  Parses-tail_7 =
      put_string-Parses w format add_unknown (parse_field w) from.unknown_fields (λ m. m)
        Parses-tail_8 7 from.payload_binary store_payload_binary (update_7 from) (expect_end w)
        (omega arith) (omega arith) short.payload_binary
        (λ m.
          lift_string from.payload_binary m.payload_binary (λ g. record m { payload_binary = g }))
        (at_payload_binary w format)
        (expect_end-Goes w format add_unknown (parse_field w) from.unknown_fields (λ m. m)
          Parses-tail_8)

  Parses-tail_6 : Parses w format (tail_6 w from) (updates_6 from)
  unfolding store_payload_utf8 parse_payload_utf8
  Parses-tail_6 =
      put_string-Parses w format add_unknown (parse_field w) (tail_7 w from) (updates_7 from)
        Parses-tail_7 6 from.payload_utf8 store_payload_utf8 (update_6 from)
        (λ next. expect w 58 (parse_payload_binary w next) next) (omega arith) (omega arith)
        short.payload_utf8
        (λ m. lift_string from.payload_utf8 m.payload_utf8 (λ g. record m { payload_utf8 = g }))
        (at_payload_utf8 w format)
        (expect-Goes w format add_unknown (parse_field w) (tail_7 w from) (updates_7 from)
          Parses-tail_7 58 (parse_payload_binary w) (λ next. next) (omega arith) (omega arith)
          (at_payload_binary w format) Parses-tail_7)

  Parses-tail_5 : Parses w format (tail_5 w from) (updates_5 from)
  unfolding set_payload_type parse_payload_type
  Parses-tail_5 =
      put_enum-Parses w format add_unknown (parse_field w) (tail_6 w from) (updates_6 from)
        Parses-tail_6 payload_type_number 5 from.payload_type payload_type_is_valid set_payload_type
        (update_5 from) (λ next. expect w 50 (parse_payload_utf8 w next) next) (omega arith)
        (omega arith) (small_payload_type from.payload_type.value)
        (valid_payload_type from.payload_type.value) (λ m. same_payload_type from.payload_type m)
        (at_payload_type w format)
        (expect-Goes w format add_unknown (parse_field w) (tail_6 w from) (updates_6 from)
          Parses-tail_6 50 (parse_payload_utf8 w) (λ next. next) (omega arith) (omega arith)
          (at_payload_utf8 w format) Parses-tail_6)

  Parses-tail_4 : Parses w format (tail_4 w from) (updates_4 from)
  unfolding store_namespace parse_namespace
  Parses-tail_4 =
      put_string-Parses w format add_unknown (parse_field w) (tail_5 w from) (updates_5 from)
        Parses-tail_5 4 from.namespace store_namespace (update_4 from)
        (λ next. expect w 40 (parse_payload_type w next) next) (omega arith) (omega arith)
        short.namespace
        (λ m. lift_string from.namespace m.namespace (λ g. record m { namespace = g }))
        (at_namespace w format)
        (expect-Goes w format add_unknown (parse_field w) (tail_5 w from) (updates_5 from)
          Parses-tail_5 40 (parse_payload_type w) (λ next. next) (omega arith) (omega arith)
          (at_payload_type w format) Parses-tail_5)

  Parses-tail_3 : Parses w format (tail_3 w from) (updates_3 from)
  unfolding store_destination_id parse_destination_id
  Parses-tail_3 =
      put_string-Parses w format add_unknown (parse_field w) (tail_4 w from) (updates_4 from)
        Parses-tail_4 3 from.destination_id store_destination_id (update_3 from)
        (λ next. expect w 34 (parse_namespace w next) next) (omega arith) (omega arith)
        short.destination_id
        (λ m.
          lift_string from.destination_id m.destination_id (λ g. record m { destination_id = g }))
        (at_destination_id w format)
        (expect-Goes w format add_unknown (parse_field w) (tail_4 w from) (updates_4 from)
          Parses-tail_4 34 (parse_namespace w) (λ next. next) (omega arith) (omega arith)
          (at_namespace w format) Parses-tail_4)

  Parses-tail_2 : Parses w format (tail_2 w from) (updates_2 from)
  unfolding store_source_id parse_source_id
  Parses-tail_2 =
      put_string-Parses w format add_unknown (parse_field w) (tail_3 w from) (updates_3 from)
        Parses-tail_3 2 from.source_id store_source_id (update_2 from)
        (λ next. expect w 26 (parse_destination_id w next) next) (omega arith) (omega arith)
        short.source_id
        (λ m. lift_string from.source_id m.source_id (λ g. record m { source_id = g }))
        (at_source_id w format)
        (expect-Goes w format add_unknown (parse_field w) (tail_3 w from) (updates_3 from)
          Parses-tail_3 26 (parse_destination_id w) (λ next. next) (omega arith) (omega arith)
          (at_destination_id w format) Parses-tail_3)

  pub Parses-tail_1 : Parses w format (tail_1 w from) (updates_1 from)
  unfolding set_protocol_version parse_protocol_version
  Parses-tail_1 =
      put_enum-Parses w format add_unknown (parse_field w) (tail_2 w from) (updates_2 from)
        Parses-tail_2 protocol_version_number 1 from.protocol_version protocol_version_is_valid
        set_protocol_version (update_1 from) (λ next. expect w 18 (parse_source_id w next) next)
        (omega arith) (omega arith) (small_protocol_version from.protocol_version.value)
        (valid_protocol_version from.protocol_version.value)
        (λ m. same_protocol_version from.protocol_version m) (at_protocol_version w format)
        (expect-Goes w format add_unknown (parse_field w) (tail_2 w from) (updates_2 from)
          Parses-tail_2 18 (parse_source_id w) (λ next. next) (omega arith) (omega arith)
          (at_source_id w format) Parses-tail_2)
