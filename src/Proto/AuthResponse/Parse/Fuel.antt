-- ===== src/Proto/AuthResponse/Parse/Fuel.antt =====
-- The loops of AuthResponse::MergePartialFromCodedStream end: that of the function, and that of
-- the label parse_intermediate_certificate.
use libchromecast.Prelude.{
  ℕ, zero, suc, ◌≤◌, ◌<◌, ◌≡◌, ◌≢◌, inl, inr, arith, Bytes, length, length-append, ap, Option-cases,
}
use libchromecast.Proto.Runtime.{WireFormat, IsWireFormat}
use libchromecast.Proto.Parser.{out_of_fuel, Next, handle_unusual, field_case}
use libchromecast.Proto.Parser.Fuel.{
  Ends, expect-Ends, expect-shorter-Ends, read_string_into-Ends, read_enum_into-Ends,
  expect_end-Ends, handle_unusual-Ends, field_case-Ends, parse_loop-Ends,
}
use libchromecast.Proto.AuthEnums.{signature_algorithm_is_valid}
use libchromecast.Proto.AuthResponse.{AuthResponse}
use libchromecast.Proto.AuthResponse.Parse.{
  add_unknown, store_signature, store_client_auth_certificate, store_intermediate_certificate,
  set_signature_algorithm, parse_signature_algorithm, parse_certificates,
  parse_intermediate_certificate, parse_client_auth_certificate, parse_signature, parse_field,
  merge_partial_from_coded_stream,
}

Ends-mono : {n k : ℕ} (next : Next AuthResponse) → k ≤ n → Ends n next → Ends k next
Ends-mono next less ends m input h = ends m input (omega arith)

module _ (w : WireFormat) (format : IsWireFormat w) where
  parse_field_zero :
      (next : Next AuthResponse) (m : AuthResponse) (input : Bytes)
      → parse_field w 0 next m input ≢ out_of_fuel
  unfolding parse_field field_case handle_unusual
  parse_field_zero next m input = rw (format.tag_field_number-eq 0) (λ t. cc)

  parse_signature_algorithm-Ends :
      (n : ℕ) (next : Next AuthResponse) → Ends n next → Ends n (parse_signature_algorithm w next)
  unfolding parse_signature_algorithm
  parse_signature_algorithm-Ends n next ends =
      read_enum_into-Ends w format n _ (expect_end-Ends w format n next ends) add_unknown 32
        signature_algorithm_is_valid set_signature_algorithm

  -- Fuel for each byte of the input is enough for the label's own loop.
  parse_certificates-Ends :
      (fuel n : ℕ) (next : Next AuthResponse)
      → n ≤ fuel
      → Ends n next
      → Ends n (parse_certificates w fuel next)
  unfolding parse_certificates
  parse_certificates-Ends zero n next less ends m input h = absurd (omega arith)
  parse_certificates-Ends (suc fuel) zero next less ends m input h = absurd (omega arith)
  parse_certificates-Ends (suc fuel) (suc n) next less ends m input h =
      read_string_into-Ends w format (suc n) _
        (expect-shorter-Ends w format (suc n) _
          (expect-Ends w format (suc n) next ends 32 _
            (parse_signature_algorithm-Ends (suc n) next ends))
          26 n _ (omega arith) (omega arith)
          (parse_certificates-Ends fuel n next (omega arith) (Ends-mono next (omega arith) ends)))
        store_intermediate_certificate m input h

  module _ (n : ℕ) (next : Next AuthResponse) (ends : Ends n next) where
    parse_intermediate_certificate-Ends : Ends n (parse_intermediate_certificate w next)
    unfolding parse_intermediate_certificate
    parse_intermediate_certificate-Ends m input h =
        parse_certificates-Ends (suc (length input)) (suc (length input)) next (omega arith)
          (Ends-mono next h ends) m input (omega arith)

    parse_client_auth_certificate-Ends : Ends n (parse_client_auth_certificate w next)
    unfolding parse_client_auth_certificate
    parse_client_auth_certificate-Ends =
        read_string_into-Ends w format n _
          (expect-Ends w format n next ends 26 _ parse_intermediate_certificate-Ends)
          store_client_auth_certificate

    parse_signature-Ends : Ends n (parse_signature w next)
    unfolding parse_signature
    parse_signature-Ends =
        read_string_into-Ends w format n _
          (expect-Ends w format n next ends 18 _ parse_client_auth_certificate-Ends) store_signature

    parse_field-Ends : (tag : ℕ) → Ends n (parse_field w tag next)
    unfolding parse_field
    parse_field-Ends tag =
        field_case-Ends w format n next ends add_unknown tag _ _ _ _ parse_signature-Ends (
          field_case-Ends w format n next ends add_unknown tag _ _ _ _
            parse_client_auth_certificate-Ends
            (field_case-Ends w format n next ends add_unknown tag _ _ _ _
              parse_intermediate_certificate-Ends
              (field_case-Ends w format n next ends add_unknown tag _ _ _ _
                (parse_signature_algorithm-Ends n next ends)
                (handle_unusual-Ends w format n next ends add_unknown tag))))

  -- The parser of AuthResponse, whose label for the repeated field loops in itself, ends on every
  -- input and message: more fuel than the input has bytes is enough.
  pub auth_response-ne-out_of_fuel :
      (fuel : ℕ) (m : AuthResponse) (input : Bytes)
      → length input < fuel
      → merge_partial_from_coded_stream w fuel m input ≢ out_of_fuel
  unfolding merge_partial_from_coded_stream
  auth_response-ne-out_of_fuel fuel m input h =
      parse_loop-Ends w format add_unknown (parse_field w) parse_field_zero parse_field-Ends fuel m
        input h

  -- The label's own fuel does not show.
  pub parse_certificates-fuel :
      (k j : ℕ) (next : Next AuthResponse) (m : AuthResponse) (input : Bytes)
      → length input < k
      → length input < j
      → parse_certificates w k next m input ≡ parse_certificates w j next m input
  unfolding parse_certificates
  parse_certificates-fuel zero j next m input h g = absurd (omega arith)
  parse_certificates-fuel (suc k) zero next m input h g = absurd (omega arith)
  parse_certificates-fuel (suc k) (suc j) next m input h g =
      elim (Option-cases (w.read_string input)) [
        | inl e ↦ rw e
        | inr ((value, rest), e) ↦ rw e (elim (format.expect_tag-sound 26 rest) [
          | inl missing ↦ rw missing
          | inr (behind, found, bytes) ↦
              let shorter : length behind < length input = omega (
                arith,
                ap length bytes,
                length-append (format.tag_bytes 26) behind,
                format.length-tag_bytes 26 (omega arith),
                format.read_string-shrinks input value rest e,
              ) in
              rw found (
                parse_certificates-fuel k j next (store_intermediate_certificate value m) behind
                  (omega arith) (omega arith))
        ])
      ]
