-- ===== src/Proto/AuthResponse/Parse/RoundTrip.antt =====
-- google_cast_message.cpp: parsing what AuthResponse::SerializeWithCachedSizes wrote merges the
-- message that was written.
use libchromecast.Prelude.{
  ℕ, suc, ◌^◌, ◌<◌, ◌≡◌, sym, ap, ◌∙◌, subst, List, [], ◌∷◌, ◌++◌, Bytes, arith, length,
  length-append, append_assoc, All,
}
use libchromecast.Proto.Runtime.{WireFormat, IsWireFormat}
use libchromecast.Proto.Fields.{put_string, put_enum}
use libchromecast.Proto.Fields.Laws.{lift_string, lift_enum}
use libchromecast.Proto.Parser.{success, Next, expect, expect_end, field_case}
use libchromecast.Proto.Parser.Steps
use libchromecast.Proto.Parser.Steps.{
  put_string-Parses, put_enum-Parses, string-step, Parses-nil, Goes, expect-Goes, expect_at-Goes,
  expect_end-Goes,
}
use libchromecast.Proto.AuthEnums.{
  signature_algorithm_number, signature_algorithm_is_valid, signature_algorithm_code-IsEnumCode,
}
use libchromecast.Proto.AuthResponse.{
  AuthResponse, merge_from, put_repeated, serialize_with_cached_sizes,
}
use libchromecast.Proto.AuthResponse.Parse.{
  add_unknown, store_signature, store_client_auth_certificate, store_intermediate_certificate,
  set_signature_algorithm, parse_signature_algorithm, parse_certificates,
  parse_intermediate_certificate, parse_client_auth_certificate, parse_signature, parse_field,
  merge_partial_from_coded_stream,
}
use libchromecast.Proto.AuthResponse.Parse.Fuel.{parse_certificates-fuel}
use libchromecast.Proto.AuthResponse.Parse.Merge.{
  IsShort, update_4, update_2, update_1, updates_3, updates_3-certificates, updates-merge_from,
}

module _ (w : WireFormat) (format : IsWireFormat w) where
  abbrev Parses : Bytes → (AuthResponse → AuthResponse) → Type 0
  Parses = Steps.Parses w format add_unknown (parse_field w)

  -- The `switch` finds the label of each tag.
  at_signature : (next : Next AuthResponse) → parse_field w 10 next ≡ parse_signature w next
  unfolding parse_field field_case
  at_signature next = rw (format.tag_field_number-eq 10)

  at_client_auth_certificate :
      (next : Next AuthResponse) → parse_field w 18 next ≡ parse_client_auth_certificate w next
  unfolding parse_field field_case
  at_client_auth_certificate next = rw (format.tag_field_number-eq 18)

  at_intermediate_certificate :
      (next : Next AuthResponse) → parse_field w 26 next ≡ parse_intermediate_certificate w next
  unfolding parse_field field_case
  at_intermediate_certificate next = rw (format.tag_field_number-eq 26)

  at_signature_algorithm :
      (next : Next AuthResponse) → parse_field w 32 next ≡ parse_signature_algorithm w next
  unfolding parse_field field_case
  at_signature_algorithm next = rw (format.tag_field_number-eq 32)

  -- A certificate in front of `tail`, which goes on as the loop does.
  certificate-step :
      (tail : Bytes) (finish : AuthResponse → AuthResponse)
      → Parses tail finish
      → (s : Bytes) → length s < 2 ^ 31
      → Parses (w.write_string 3 s ++ tail) (λ m. finish (store_intermediate_certificate s m))
  unfolding parse_certificates parse_intermediate_certificate
  certificate-step tail finish parses s short =
      let k = length (format.string_bytes s ++ tail) in
      string-step w format add_unknown (parse_field w) tail finish parses 3 s
        store_intermediate_certificate
        (λ next.
          expect w 26 (parse_certificates w k next)
            (expect w 32 (parse_signature_algorithm w next) next))
        (omega arith) (omega arith) short
        (λ next m. ap (λ g. g m (format.string_bytes s ++ tail)) (at_intermediate_certificate next))
        (expect_at-Goes w format add_unknown (parse_field w) tail finish parses 26
          (parse_certificates w k) (λ next. expect w 32 (parse_signature_algorithm w next) next)
          (omega arith) (omega arith)
          (λ next m rest less.
            ap (λ g. g m rest) (at_intermediate_certificate next)
            ∙ parse_certificates-fuel w format (suc (length rest)) k next m rest (omega arith)
                (omega (arith, length-append (format.string_bytes s) tail)))
          (expect-Goes w format add_unknown (parse_field w) tail finish parses 32
            (parse_signature_algorithm w) (λ next. next) (omega arith) (omega arith)
            at_signature_algorithm parses))

  module _ (from : AuthResponse) (none_unknown : from.unknown_fields ≡ [])
      (short : IsShort from) where
    abbrev tail_4 : Bytes
    tail_4 = put_enum w signature_algorithm_number 4 from.signature_algorithm ++ from.unknown_fields

    abbrev tail_3 : Bytes
    tail_3 = put_repeated w 3 from.intermediate_certificate ++ tail_4

    abbrev tail_2 : Bytes
    tail_2 = put_string w 2 from.client_auth_certificate ++ tail_3

    Parses-end : Parses from.unknown_fields (λ m. m)
    Parses-end =
        subst (λ tail. Parses tail (λ m. m)) (sym none_unknown)
          (Parses-nil w format add_unknown (parse_field w))

    Parses-tail_4 : Parses tail_4 (update_4 from)
    unfolding parse_signature_algorithm set_signature_algorithm
    Parses-tail_4 =
        put_enum-Parses w format add_unknown (parse_field w) from.unknown_fields (λ m. m) Parses-end
          signature_algorithm_number 4 from.signature_algorithm signature_algorithm_is_valid
          set_signature_algorithm (update_4 from) (expect_end w) (omega arith) (omega arith)
          (signature_algorithm_code-IsEnumCode.number-small from.signature_algorithm.value)
          (signature_algorithm_code-IsEnumCode.is_valid-number from.signature_algorithm.value)
          (λ m.
            rw (signature_algorithm_code-IsEnumCode.cast-number from.signature_algorithm.value) (
              lift_enum from.signature_algorithm m.signature_algorithm
                (λ g. record m { signature_algorithm = g })))
          at_signature_algorithm
          (expect_end-Goes w format add_unknown (parse_field w) from.unknown_fields (λ m. m)
            Parses-end)

    Parses-repeated :
        (ss : List Bytes)
        → All (λ s. length s < 2 ^ 31) ss
        → Parses (put_repeated w 3 ss ++ tail_4) (updates_3 from ss)
    unfolding put_repeated
    Parses-repeated [] h = Parses-tail_4
    Parses-repeated (s ∷ rest) h =
        subst (λ input. Parses input (updates_3 from (s ∷ rest)))
          (sym (append_assoc (w.write_string 3 s) (put_repeated w 3 rest) tail_4))
          (certificate-step (put_repeated w 3 rest ++ tail_4) (updates_3 from rest)
            (Parses-repeated rest h.1) s h.0)

    Parses-tail_3 : Parses tail_3 (updates_3 from from.intermediate_certificate)
    Parses-tail_3 = Parses-repeated from.intermediate_certificate short.intermediate_certificate

    Parses-tail_2 :
        Parses tail_2 (λ m. updates_3 from from.intermediate_certificate (update_2 from m))
    unfolding parse_client_auth_certificate store_client_auth_certificate
    Parses-tail_2 =
        put_string-Parses w format add_unknown (parse_field w) tail_3
          (updates_3 from from.intermediate_certificate) Parses-tail_3 2
          from.client_auth_certificate store_client_auth_certificate (update_2 from)
          (λ next. expect w 26 (parse_intermediate_certificate w next) next) (omega arith)
          (omega arith) short.client_auth_certificate
          (λ m.
            lift_string from.client_auth_certificate m.client_auth_certificate
              (λ g. record m { client_auth_certificate = g }))
          at_client_auth_certificate
          (expect-Goes w format add_unknown (parse_field w) tail_3
            (updates_3 from from.intermediate_certificate) Parses-tail_3 26
            (parse_intermediate_certificate w) (λ next. next) (omega arith) (omega arith)
            at_intermediate_certificate Parses-tail_3)

    Parses-tail_1 :
        Parses
          (put_string w 1 from.signature ++ tail_2)
          (λ m. updates_3 from from.intermediate_certificate (update_2 from (update_1 from m)))
    unfolding parse_signature store_signature
    Parses-tail_1 =
        put_string-Parses w format add_unknown (parse_field w) tail_2
          (λ m. updates_3 from from.intermediate_certificate (update_2 from m)) Parses-tail_2 1
          from.signature store_signature (update_1 from)
          (λ next. expect w 18 (parse_client_auth_certificate w next) next) (omega arith)
          (omega arith) short.signature
          (λ m. lift_string from.signature m.signature (λ g. record m { signature = g }))
          at_signature
          (expect-Goes w format add_unknown (parse_field w) tail_2
            (λ m. updates_3 from from.intermediate_certificate (update_2 from m)) Parses-tail_2 18
            (parse_client_auth_certificate w) (λ next. next) (omega arith) (omega arith)
            at_client_auth_certificate Parses-tail_2)

-- Parsing the bytes that SerializeWithCachedSizes wrote for `from`, with any number of
-- certificates, into any message, reads them all and does what MergeFrom does, where `from` holds
-- no unknown fields and its strings are within the limit of the wire format.
pub auth_response-parse :
    (w : WireFormat)
    → IsWireFormat w
    → (from m : AuthResponse) (fuel : ℕ) → from.unknown_fields ≡ []
    → IsShort from
    → length (serialize_with_cached_sizes w from) < fuel
    → merge_partial_from_coded_stream w fuel m (serialize_with_cached_sizes w from)
      ≡ success (merge_from from m) []
unfolding serialize_with_cached_sizes merge_partial_from_coded_stream
auth_response-parse w format from m fuel e short enough =
    Parses-tail_1 w format from e short fuel m enough
    ∙ ap (λ x. success x [])
        (updates_3-certificates from from.intermediate_certificate (update_2 from (update_1 from m))
          ∙ updates-merge_from from m e)
