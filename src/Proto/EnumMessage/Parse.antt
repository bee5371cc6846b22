-- ===== src/Proto/EnumMessage/Parse.antt =====
-- google_cast_message.cpp: MergePartialFromCodedStream of AuthChallenge and of AuthError.
pub mod Laws
use libchromecast.Prelude.{ℕ, ◌++◌, Bytes}
use libchromecast.Proto.Runtime.{WireFormat}
use libchromecast.Proto.EnumField
use libchromecast.Proto.Parser.{
  Parse, Next, read_enum_into, expect_end, handle_unusual, field_case, parse_loop,
}
use libchromecast.Proto.EnumMessage.{EnumCode, EnumMessage}

module _ {E : Type 0} where
  abbrev pub add_unknown : Bytes → EnumMessage E → EnumMessage E
  add_unknown bytes m = record m { unknown_fields = m.unknown_fields ++ bytes }

module _ {E : Type 0} (code : EnumCode E) where
  -- set_signature_algorithm(static_cast<SignatureAlgorithm>(value))
  unfoldable pub set_field : ℕ → EnumMessage E → EnumMessage E
  unfolding EnumField.set
  set_field value m = record m { field = EnumField.set (code.cast value) m.field }

  module _ (w : WireFormat) where
    unfoldable pub parse_enum : Next (EnumMessage E) → Next (EnumMessage E)
    parse_enum next = read_enum_into w add_unknown 8 code.is_valid set_field (expect_end w next)

    -- the `switch`, at a tag within the cutoff
    unfoldable pub parse_field : ℕ → Next (EnumMessage E) → Next (EnumMessage E)
    parse_field tag next =
        field_case w add_unknown tag next 1 8 (parse_enum next)
          (handle_unusual w add_unknown tag next)

    -- MergePartialFromCodedStream
    unfoldable pub merge_partial_from_coded_stream :
        ℕ → EnumMessage E → Bytes → Parse (EnumMessage E)
    merge_partial_from_coded_stream = parse_loop w add_unknown parse_field
