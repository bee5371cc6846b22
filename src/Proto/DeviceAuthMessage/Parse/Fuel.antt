-- ===== src/Proto/DeviceAuthMessage/Parse/Fuel.antt =====
-- The loop of DeviceAuthMessage::MergePartialFromCodedStream ends.
use libchromecast.Prelude.{ℕ, ◌<◌, ◌≢◌, inl, inr, arith, Bytes, length, Option-cases}
use libchromecast.Proto.Runtime.{WireFormat, IsWireFormat}
use libchromecast.Proto.Nested.{MessageReader, IsMessageReader, read_message_into}
use libchromecast.Proto.Parser.{Parse, out_of_fuel, Next, handle_unusual, field_case}
use libchromecast.Proto.Parser.Fuel.{
  Ends, expect-Ends, expect_end-Ends, handle_unusual-Ends, field_case-Ends, parse_loop-Ends,
}
use libchromecast.Proto.AuthChallenge
use libchromecast.Proto.AuthResponse.Parse
use libchromecast.Proto.AuthError
use libchromecast.Proto.DeviceAuthMessage.{DeviceAuthMessage}
use libchromecast.Proto.DeviceAuthMessage.Parse.{
  Readers, add_unknown, current_challenge, current_response, current_error, store_challenge,
  store_response, store_error, parse_challenge, parse_response, parse_error, parse_field,
  merge_partial_from_coded_stream,
}

-- The readers run the parsers of the inner classes.
pub record IsReaders (w : WireFormat) (format : IsWireFormat w) (readers : Readers) : Type 0 where
  pub challenge :
      IsMessageReader w format (AuthChallenge.merge_partial_from_coded_stream w) readers.challenge
  pub response : IsMessageReader w format (Parse.merge_partial_from_coded_stream w) readers.response
  pub error : IsMessageReader w format (AuthError.merge_partial_from_coded_stream w) readers.error

read_message_into-Ends :
    {X : Type 0} (w : WireFormat) (format : IsWireFormat w) (parse : ℕ → X → Bytes → Parse X)
    (r : MessageReader X)
    → IsMessageReader w format parse r
    → (n : ℕ) (next : Next DeviceAuthMessage) → Ends n next
    → (current : DeviceAuthMessage → X) (store : X → DeviceAuthMessage → DeviceAuthMessage)
    → Ends n (read_message_into r current store next)
read_message_into-Ends w format parse r reader n next ends current store m input h =
    elim (Option-cases (r.read_message (current m) input)) [
      | inl e ↦ rw e (λ t. cc)
      | inr ((value, rest), e) ↦
          rw e (
            ends _ rest (omega (arith, reader.read_message-shrinks (current m) value input rest e)))
    ]

module _ (w : WireFormat) (format : IsWireFormat w) (readers : Readers)
    (are_readers : IsReaders w format readers) where
  parse_field_zero :
      (next : Next DeviceAuthMessage) (m : DeviceAuthMessage) (input : Bytes)
      → parse_field w readers 0 next m input ≢ out_of_fuel
  unfolding parse_field field_case handle_unusual
  parse_field_zero next m input = rw (format.tag_field_number-eq 0) (λ t. cc)

  module _ (n : ℕ) (next : Next DeviceAuthMessage) (ends : Ends n next) where
    parse_error-Ends : Ends n (parse_error w readers next)
    unfolding parse_error
    parse_error-Ends =
        read_message_into-Ends w format _ readers.error are_readers.error n _
          (expect_end-Ends w format n next ends) current_error store_error

    parse_response-Ends : Ends n (parse_response w readers next)
    unfolding parse_response
    parse_response-Ends =
        read_message_into-Ends w format _ readers.response are_readers.response n _
          (expect-Ends w format n next ends 26 _ parse_error-Ends) current_response store_response

    parse_challenge-Ends : Ends n (parse_challenge w readers next)
    unfolding parse_challenge
    parse_challenge-Ends =
        read_message_into-Ends w format _ readers.challenge are_readers.challenge n _
          (expect-Ends w format n next ends 18 _ parse_response-Ends) current_challenge
          store_challenge

    parse_field-Ends : (tag : ℕ) → Ends n (parse_field w readers tag next)
    unfolding parse_field
    parse_field-Ends tag =
        field_case-Ends w format n next ends add_unknown tag _ _ _ _ parse_challenge-Ends (
          field_case-Ends w format n next ends add_unknown tag _ _ _ _ parse_response-Ends (
            field_case-Ends w format n next ends add_unknown tag _ _ _ _ parse_error-Ends
              (handle_unusual-Ends w format n next ends add_unknown tag)))

  -- The parser of DeviceAuthMessage ends on every input and message: more fuel than the input has
  -- bytes is enough.
  pub device_auth-ne-out_of_fuel :
      (fuel : ℕ) (m : DeviceAuthMessage) (input : Bytes)
      → length input < fuel
      → merge_partial_from_coded_stream w readers fuel m input ≢ out_of_fuel
  unfolding merge_partial_from_coded_stream
  device_auth-ne-out_of_fuel fuel m input h =
      parse_loop-Ends w format add_unknown (parse_field w readers) parse_field_zero parse_field-Ends
        fuel m input h
