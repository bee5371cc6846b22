-- ===== src/Proto/AuthResponse/Parse.antt =====
-- google_cast_message.cpp: AuthResponse::MergePartialFromCodedStream.
pub mod Fuel
pub mod Merge
pub mod RoundTrip
use libchromecast.Prelude.{ℕ, zero, suc, Bool, [], ◌∷◌, ◌++◌, Bytes, length}
use libchromecast.Proto.Runtime.{WireFormat}
use libchromecast.Proto.EnumField
use libchromecast.Proto.Fields.{read_into}
use libchromecast.Proto.Parser.{
  Parse, out_of_fuel, Next, expect, read_string_into, read_enum_into, expect_end, handle_unusual,
  field_case, parse_loop,
}
use libchromecast.Proto.AuthEnums.{signature_algorithm_is_valid, to_signature_algorithm}
use libchromecast.Proto.AuthResponse.{AuthResponse}

abbrev pub add_unknown : Bytes → AuthResponse → AuthResponse
add_unknown bytes m = record m { unknown_fields = m.unknown_fields ++ bytes }

unfoldable pub store_signature : Bytes → AuthResponse → AuthResponse
unfolding read_into
store_signature value m = record m { signature = read_into value m.signature }

unfoldable pub store_client_auth_certificate : Bytes → AuthResponse → AuthResponse
unfolding read_into
store_client_auth_certificate value m = record m {
  client_auth_certificate = read_into value m.client_auth_certificate;
}

-- ReadBytes(input, this->add_intermediate_certificate())
unfoldable pub store_intermediate_certificate : Bytes → AuthResponse → AuthResponse
store_intermediate_certificate value m = record m {
  intermediate_certificate = m.intermediate_certificate ++ value ∷ [];
}

unfoldable pub set_signature_algorithm : ℕ → AuthResponse → AuthResponse
unfolding EnumField.set
set_signature_algorithm value m = record m {
  signature_algorithm = EnumField.set (to_signature_algorithm value) m.signature_algorithm;
}

module _ (w : WireFormat) where
  unfoldable pub parse_signature_algorithm : Next AuthResponse → Next AuthResponse
  parse_signature_algorithm next =
      read_enum_into w add_unknown 32 signature_algorithm_is_valid set_signature_algorithm
        (expect_end w next)

  -- The label parse_intermediate_certificate, which jumps to itself.
  unfoldable pub parse_certificates : ℕ → Next AuthResponse → Next AuthResponse
  parse_certificates zero next m input = out_of_fuel
  parse_certificates (suc fuel) next m input =
      read_string_into w store_intermediate_certificate
        (expect w 26 (parse_certificates fuel next)
          (expect w 32 (parse_signature_algorithm next) next))
        m input

  -- Each jump reads a tag, so the length of the input is enough.
  unfoldable pub parse_intermediate_certificate : Next AuthResponse → Next AuthResponse
  unfolding parse_certificates
  parse_intermediate_certificate next m input = parse_certificates (suc (length input)) next m input

  unfoldable pub parse_client_auth_certificate : Next AuthResponse → Next AuthResponse
  parse_client_auth_certificate next =
      read_string_into w store_client_auth_certificate
        (expect w 26 (parse_intermediate_certificate next) next)

  unfoldable pub parse_signature : Next AuthResponse → Next AuthResponse
  parse_signature next =
      read_string_into w store_signature (expect w 18 (parse_client_auth_certificate next) next)

  -- the `switch`, at a tag within the cutoff
  unfoldable pub parse_field : ℕ → Next AuthResponse → Next AuthResponse
  parse_field tag next = field_case w add_unknown tag next 1 10 (parse_signature next) (
      field_case w add_unknown tag next 2 18 (parse_client_auth_certificate next) (
        field_case w add_unknown tag next 3 26 (parse_intermediate_certificate next) (
          field_case w add_unknown tag next 4 32 (parse_signature_algorithm next)
            (handle_unusual w add_unknown tag next))))

  -- AuthResponse::MergePartialFromCodedStream
  unfoldable pub merge_partial_from_coded_stream : ℕ → AuthResponse → Bytes → Parse AuthResponse
  merge_partial_from_coded_stream = parse_loop w add_unknown parse_field
