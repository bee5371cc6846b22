-- ===== src/Proto/DeviceAuthMessage/Parse/RoundTrip.antt =====
-- google_cast_message.cpp: parsing what DeviceAuthMessage::SerializeWithCachedSizes wrote after
-- ByteSize merges the message that was written.
use libchromecast.Prelude.{
  ℕ, suc, ◌+◌, ◌*◌, ◌^◌, ◌<◌, ◌≡◌, sym, ap, ◌∙◌, subst, [], ◌++◌, Bytes, arith, length,
  if◌then◌else◌,
}
use libchromecast.Proto.Runtime.{WireFormat, IsWireFormat}
use libchromecast.Proto.Nested.{
  MessageFormat, IsMessageFormat, MessageReader, IsMessageReader, read_message_into,
}
use libchromecast.Proto.MessageField.{MessageField, get}
use libchromecast.Proto.MessageField.Laws.{written, lift_message}
use libchromecast.Proto.Parser.{Parse, success, Next, expect, expect_end, field_case}
use libchromecast.Proto.Parser.Steps
use libchromecast.Proto.Parser.Steps.{
  optional_field, field-step, Parses-nil, Goes, expect-Goes, expect_end-Goes,
}
use libchromecast.Proto.EnumMessage.Parse.Laws.{parse-serialize_enum}
use libchromecast.Proto.AuthEnums.{
  signature_algorithm_code, error_type_code, signature_algorithm_code-IsEnumCode,
  error_type_code-IsEnumCode,
}
use libchromecast.Proto.AuthChallenge
use libchromecast.Proto.AuthChallenge.{AuthChallenge}
use libchromecast.Proto.AuthResponse
use libchromecast.Proto.AuthResponse.{AuthResponse}
use libchromecast.Proto.AuthResponse.Parse as ResponseParse
use libchromecast.Proto.AuthResponse.Parse.RoundTrip.{auth_response-parse}
use libchromecast.Proto.AuthError
use libchromecast.Proto.AuthError.{AuthError}
use libchromecast.Proto.DeviceAuthMessage.{
  DeviceAuthMessage, merge_from, serialize_with_cached_sizes, byte_size,
}
use libchromecast.Proto.DeviceAuthMessage.Laws.{
  IsConsistent, challenge_bytes, response_bytes, error_bytes, serialize_sized,
}
use libchromecast.Proto.DeviceAuthMessage.Parse.{
  Readers, add_unknown, current_challenge, current_response, current_error, store_challenge,
  store_response, store_error, parse_challenge, parse_response, parse_error, parse_field,
  merge_partial_from_coded_stream,
}
use libchromecast.Proto.DeviceAuthMessage.Parse.Fuel.{IsReaders}
use libchromecast.Proto.DeviceAuthMessage.Parse.Merge.{
  IsPlain, update_1, update_2, update_3, updates-merge_from,
}

module _ (w : WireFormat) (format : IsWireFormat w) (readers : Readers)
    (are_readers : IsReaders w format readers) where
  abbrev Parses : Bytes → (DeviceAuthMessage → DeviceAuthMessage) → Type 0
  Parses = Steps.Parses w format add_unknown (parse_field w readers)

  -- A written message field, in front of `tail`: the inner parser merges the object.
  written-Parses :
      (tail : Bytes) (finish : DeviceAuthMessage → DeviceAuthMessage) (parses : Parses tail finish)
      {X : Type 0} (fresh : X) (serialize : X → Bytes) (parse : ℕ → X → Bytes → Parse X)
      (merge : X → X → X) (r : MessageReader X) (reader : IsMessageReader w format parse r) (n : ℕ)
      (field : MessageField X) (current : DeviceAuthMessage → X)
      (store : X → DeviceAuthMessage → DeviceAuthMessage)
      (update : DeviceAuthMessage → DeviceAuthMessage)
      (follow : Next DeviceAuthMessage → Next DeviceAuthMessage)
      → 0 < n
      → n < 15
      → length (serialize (get fresh field)) < 2 ^ 31
      → ((x : X)
          → parse (suc (length (serialize (get fresh field)))) x (serialize (get fresh field))
            ≡ success (merge (get fresh field) x) [])
      → ((m : DeviceAuthMessage)
          → (if field.has then store (merge (get fresh field) (current m)) m else m) ≡ update m)
      → ((next : Next DeviceAuthMessage)
          → parse_field w readers (8 * n + 2) next
            ≡ read_message_into r current store (follow next))
      → Goes w format add_unknown (parse_field w readers) tail finish parses follow
      → Parses (written w format fresh serialize n field ++ tail) (λ m. finish (update m))
  written-Parses tail finish parses fresh serialize parse merge r reader n field current store
        update follow pos small short inner merged same goes =
      let x = get fresh field in
      let body = format.string_bytes (serialize x) in
      optional_field w format add_unknown (parse_field w readers) tail finish parses field.has
        (format.tag_bytes (8 * n + 2) ++ body) (λ m. store (merge x (current m)) m) update merged
        (field-step w format add_unknown (parse_field w readers) tail finish parses (8 * n + 2) body
          (λ m. store (merge x (current m)) m) follow (omega arith) (omega arith)
          (λ next m.
            ap (λ g. g m (body ++ tail)) (same next)
            ∙ rw (
                reader.read_message-string_bytes (current m) (merge x (current m)) (serialize x)
                  tail short (inner (current m))))
          goes)

  -- The `switch` finds the label of each tag.
  at_challenge :
      (next : Next DeviceAuthMessage)
      → parse_field w readers 10 next ≡ parse_challenge w readers next
  unfolding parse_field field_case
  at_challenge next = rw (format.tag_field_number-eq 10)

  at_response :
      (next : Next DeviceAuthMessage)
      → parse_field w readers 18 next ≡ parse_response w readers next
  unfolding parse_field field_case
  at_response next = rw (format.tag_field_number-eq 18)

  at_error :
      (next : Next DeviceAuthMessage) → parse_field w readers 26 next ≡ parse_error w readers next
  unfolding parse_field field_case
  at_error next = rw (format.tag_field_number-eq 26)

  module _ (from : DeviceAuthMessage) (plain : IsPlain w from) where
    abbrev tail_3 : Bytes
    tail_3 = error_bytes w format from ++ from.unknown_fields

    abbrev tail_2 : Bytes
    tail_2 = response_bytes w format from ++ tail_3

    Parses-end : Parses from.unknown_fields (λ m. m)
    Parses-end =
        subst (λ tail. Parses tail (λ m. m)) (sym plain.unknown)
          (Parses-nil w format add_unknown (parse_field w readers))

    Parses-tail_3 : Parses tail_3 (update_3 from)
    unfolding parse_error store_error AuthError.merge_partial_from_coded_stream
        AuthError.serialize_with_cached_sizes AuthError.merge_from
    Parses-tail_3 =
        written-Parses from.unknown_fields (λ m. m) Parses-end AuthError.new_message
          (AuthError.serialize_with_cached_sizes w) (AuthError.merge_partial_from_coded_stream w)
          AuthError.merge_from readers.error are_readers.error 3 from.error current_error
          store_error (update_3 from) (expect_end w) (omega arith) (omega arith) plain.error_size
          (λ x.
            parse-serialize_enum error_type_code w format error_type_code-IsEnumCode
              (current_error from) x _ plain.error_unknown (omega arith))
          (λ m.
            lift_message AuthError.new_message AuthError.merge_from from.error m.error
              (λ g. record m { error = g }))
          at_error
          (expect_end-Goes w format add_unknown (parse_field w readers) from.unknown_fields (λ m. m)
            Parses-end)

    Parses-tail_2 : Parses tail_2 (λ m. update_3 from (update_2 from m))
    unfolding parse_response store_response
    Parses-tail_2 =
        written-Parses tail_3 (update_3 from) Parses-tail_3 AuthResponse.new_message
          (AuthResponse.serialize_with_cached_sizes w)
          (ResponseParse.merge_partial_from_coded_stream w) AuthResponse.merge_from readers.response
          are_readers.response 2 from.response current_response store_response (update_2 from)
          (λ next. expect w 26 (parse_error w readers next) next) (omega arith) (omega arith)
          plain.response_size
          (λ x.
            auth_response-parse w format (current_response from) x _ plain.response_unknown
              plain.response_strings (omega arith))
          (λ m.
            lift_message AuthResponse.new_message AuthResponse.merge_from from.response m.response
              (λ g. record m { response = g }))
          at_response
          (expect-Goes w format add_unknown (parse_field w readers) tail_3 (update_3 from)
            Parses-tail_3 26 (parse_error w readers) (λ next. next) (omega arith) (omega arith)
            at_error Parses-tail_3)

    Parses-tail_1 :
        Parses
          (challenge_bytes w format from ++ tail_2)
          (λ m. update_3 from (update_2 from (update_1 from m)))
    unfolding parse_challenge store_challenge AuthChallenge.merge_partial_from_coded_stream
        AuthChallenge.serialize_with_cached_sizes AuthChallenge.merge_from
    Parses-tail_1 =
        written-Parses tail_2 (λ m. update_3 from (update_2 from m)) Parses-tail_2
          AuthChallenge.new_message (AuthChallenge.serialize_with_cached_sizes w)
          (AuthChallenge.merge_partial_from_coded_stream w) AuthChallenge.merge_from
          readers.challenge are_readers.challenge 1 from.challenge current_challenge store_challenge
          (update_1 from) (λ next. expect w 18 (parse_response w readers next) next) (omega arith)
          (omega arith) plain.challenge_size
          (λ x.
            parse-serialize_enum signature_algorithm_code w format
              signature_algorithm_code-IsEnumCode (current_challenge from) x _
              plain.challenge_unknown (omega arith))
          (λ m.
            lift_message AuthChallenge.new_message AuthChallenge.merge_from from.challenge
              m.challenge (λ g. record m { challenge = g }))
          at_challenge
          (expect-Goes w format add_unknown (parse_field w readers) tail_2
            (λ m. update_3 from (update_2 from m)) Parses-tail_2 18 (parse_response w readers)
            (λ next. next) (omega arith) (omega arith) at_response Parses-tail_2)

-- Parsing the bytes that SerializeWithCachedSizes writes for `from` after ByteSize, into any
-- message, reads them all and does what MergeFrom does, inner messages included, where every field
-- that is set has an object, no message holds unknown fields, and all are within the limit of the
-- wire format.
pub device_auth-parse :
    (w : WireFormat) (format : IsWireFormat w) (f : MessageFormat)
    → IsMessageFormat w format f
    → (readers : Readers) → IsReaders w format readers
    → (from m : DeviceAuthMessage) (fuel : ℕ) → IsConsistent from
    → IsPlain w from
    → length (serialize_with_cached_sizes w f (byte_size w f from).1) < fuel
    → merge_partial_from_coded_stream w readers fuel m
        (serialize_with_cached_sizes w f (byte_size w f from).1)
      ≡ success (merge_from from m) []
unfolding merge_partial_from_coded_stream
device_auth-parse w format f is_format readers are_readers from m fuel own plain enough =
    let bytes = serialize_sized w format f is_format from own (record {
      challenge = plain.challenge_size;
      response = plain.response_size;
      error = plain.error_size;
    }) in
    ap (merge_partial_from_coded_stream w readers fuel m) bytes
    ∙ (Parses-tail_1 w format readers are_readers from plain fuel m
          (subst (λ s. length s < fuel) bytes enough)
        ∙ ap (λ x. success x []) (updates-merge_from from m plain.unknown))
