-- ===== src/Proto/EnumMessage/Parse/Laws.antt =====
-- google_cast_message.cpp: parsing what AuthChallenge or AuthError wrote merges the message that
-- was written, and the loop ends on every input.
use libchromecast.Prelude.{
  ℕ, ◌<◌, ◌≡◌, ◌≢◌, ap, ◌∙◌, sym, [], ◌++◌, Bytes, if◌then◌else◌, length, arith, append-nil, subst,
}
use libchromecast.Proto.Runtime.{WireFormat, IsWireFormat}
use libchromecast.Proto.EnumField.{EnumField}
use libchromecast.Proto.Fields.{merge_enum}
use libchromecast.Proto.Fields.Laws.{lift_enum}
use libchromecast.Proto.Parser.{Next, success, out_of_fuel, field_case, handle_unusual, expect_end}
use libchromecast.Proto.Parser.Steps.{Parses, Parses-nil, put_enum-Parses, expect_end-Goes}
use libchromecast.Proto.Parser.Fuel.{
  Ends, read_enum_into-Ends, expect_end-Ends, handle_unusual-Ends, field_case-Ends, parse_loop-Ends,
}
use libchromecast.Proto.EnumMessage.{EnumCode, EnumMessage, merge_from, serialize_with_cached_sizes}
use libchromecast.Proto.EnumMessage.Laws.{IsEnumCode}
use libchromecast.Proto.EnumMessage.Parse.{
  add_unknown, set_field, parse_enum, parse_field, merge_partial_from_coded_stream,
}

module _ {E : Type 0} (code : EnumCode E) (w : WireFormat) (format : IsWireFormat w) where
  parse_field_zero :
      (next : Next (EnumMessage E)) (m : EnumMessage E) (input : Bytes)
      → parse_field code w 0 next m input ≢ out_of_fuel
  unfolding parse_field field_case handle_unusual
  parse_field_zero next m input = rw (format.tag_field_number-eq 0) (λ t. cc)

  parse_field-Ends :
      (n : ℕ) (next : Next (EnumMessage E))
      → Ends n next
      → (tag : ℕ) → Ends n (parse_field code w tag next)
  unfolding parse_field parse_enum
  parse_field-Ends n next ends tag =
      field_case-Ends w format n next ends add_unknown tag 1 8 _ _
        (read_enum_into-Ends w format n _ (expect_end-Ends w format n next ends) add_unknown 8
          code.is_valid (set_field code))
        (handle_unusual-Ends w format n next ends add_unknown tag)

  -- The parser's loop ends on every input: more fuel than the input has bytes is enough.
  pub merge_partial-ne-out_of_fuel :
      (fuel : ℕ) (m : EnumMessage E) (input : Bytes)
      → length input < fuel
      → merge_partial_from_coded_stream code w fuel m input ≢ out_of_fuel
  unfolding merge_partial_from_coded_stream
  merge_partial-ne-out_of_fuel fuel m input h =
      parse_loop-Ends w format add_unknown (parse_field code w) parse_field_zero parse_field-Ends
        fuel m input h

  at_enum : (next : Next (EnumMessage E)) → parse_field code w 8 next ≡ parse_enum code w next
  unfolding parse_field field_case
  at_enum next = rw (format.tag_field_number-eq 8)

  same_enum :
      IsEnumCode code
      → (f : EnumField E) (m : EnumMessage E)
      → (if f.has then set_field code (code.number f.value) m else m)
        ≡ record m { field = merge_enum f m.field }
  unfolding set_field
  same_enum is_code f m =
      rw (is_code.cast-number f.value) (lift_enum f m.field (λ g. record m { field = g }))

  merge_from-field :
      (from m : EnumMessage E)
      → from.unknown_fields ≡ []
      → record m { field = merge_enum from.field m.field } ≡ merge_from code from m
  unfolding merge_from merge_enum
  merge_from-field from m e =
      let same : m.unknown_fields ++ from.unknown_fields ≡ m.unknown_fields =
        ap (λ u. m.unknown_fields ++ u) e ∙ append-nil m.unknown_fields in
      ground (arith, same)

  -- Parsing the bytes that SerializeWithCachedSizes wrote for `from`, into any message, reads them
  -- all and does what MergeFrom does, where `from` holds no unknown fields.
  pub parse-serialize_enum :
      IsEnumCode code
      → (from m : EnumMessage E) (fuel : ℕ) → from.unknown_fields ≡ []
      → length (serialize_with_cached_sizes code w from) < fuel
      → merge_partial_from_coded_stream code w fuel m (serialize_with_cached_sizes code w from)
        ≡ success (merge_from code from m) []
  unfolding serialize_with_cached_sizes merge_partial_from_coded_stream parse_enum
  parse-serialize_enum is_code from m fuel e enough =
      put_enum-Parses w format add_unknown (parse_field code w) from.unknown_fields (λ n. n) at_end
        code.number 1 from.field code.is_valid (set_field code)
        (λ n. record n { field = merge_enum from.field n.field }) (expect_end w) (omega arith)
        (omega arith) (is_code.number-small from.field.value)
        (is_code.is_valid-number from.field.value) (same_enum is_code from.field) at_enum
        (expect_end-Goes w format add_unknown (parse_field code w) from.unknown_fields (λ n. n)
          at_end)
        fuel m enough
      ∙ ap (λ x. success x []) (merge_from-field from m e)
    where
      at_end : Parses w format add_unknown (parse_field code w) from.unknown_fields (λ n. n)
      at_end =
          subst (λ tail. Parses w format add_unknown (parse_field code w) tail (λ n. n)) (sym e)
            (Parses-nil w format add_unknown (parse_field code w))
