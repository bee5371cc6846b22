-- ===== src/Proto/DeviceAuthMessage/Parse.antt =====
-- google_cast_message.cpp: DeviceAuthMessage::MergePartialFromCodedStream.
pub mod Fuel
pub mod Merge
pub mod RoundTrip
use libchromecast.Prelude.{ℕ, true, some, ◌++◌, Bytes}
use libchromecast.Proto.Runtime.{WireFormat}
use libchromecast.Proto.Nested.{MessageReader, read_message_into}
use libchromecast.Proto.MessageField
use libchromecast.Proto.MessageField.{MessageField}
use libchromecast.Proto.Parser.{
  Parse, Next, expect, expect_end, handle_unusual, field_case, parse_loop,
}
use libchromecast.Proto.AuthChallenge
use libchromecast.Proto.AuthChallenge.{AuthChallenge}
use libchromecast.Proto.AuthResponse
use libchromecast.Proto.AuthResponse.{AuthResponse}
use libchromecast.Proto.AuthError
use libchromecast.Proto.AuthError.{AuthError}
use libchromecast.Proto.DeviceAuthMessage.{DeviceAuthMessage}

abbrev pub add_unknown : Bytes → DeviceAuthMessage → DeviceAuthMessage
add_unknown bytes m = record m { unknown_fields = m.unknown_fields ++ bytes }

-- The objects that mutable_challenge(), mutable_response() and mutable_error() return.
abbrev pub current_challenge : DeviceAuthMessage → AuthChallenge
current_challenge m = MessageField.get AuthChallenge.new_message m.challenge

abbrev pub current_response : DeviceAuthMessage → AuthResponse
current_response m = MessageField.get AuthResponse.new_message m.response

abbrev pub current_error : DeviceAuthMessage → AuthError
current_error m = MessageField.get AuthError.new_message m.error

-- What they are after they were read.
unfoldable pub store_challenge : AuthChallenge → DeviceAuthMessage → DeviceAuthMessage
store_challenge x m = record m { challenge = record { has = true; pointer = some x } }

unfoldable pub store_response : AuthResponse → DeviceAuthMessage → DeviceAuthMessage
store_response x m = record m { response = record { has = true; pointer = some x } }

unfoldable pub store_error : AuthError → DeviceAuthMessage → DeviceAuthMessage
store_error x m = record m { error = record { has = true; pointer = some x } }

-- ReadMessageNoVirtual at the classes of the fields
pub record Readers : Type 0 where
  pub challenge : MessageReader AuthChallenge
  pub response : MessageReader AuthResponse
  pub error : MessageReader AuthError

module _ (w : WireFormat) (readers : Readers) where
  unfoldable pub parse_error : Next DeviceAuthMessage → Next DeviceAuthMessage
  parse_error next = read_message_into readers.error current_error store_error (expect_end w next)

  unfoldable pub parse_response : Next DeviceAuthMessage → Next DeviceAuthMessage
  parse_response next =
      read_message_into readers.response current_response store_response
        (expect w 26 (parse_error next) next)

  unfoldable pub parse_challenge : Next DeviceAuthMessage → Next DeviceAuthMessage
  parse_challenge next =
      read_message_into readers.challenge current_challenge store_challenge
        (expect w 18 (parse_response next) next)

  -- the `switch`, at a tag within the cutoff
  unfoldable pub parse_field : ℕ → Next DeviceAuthMessage → Next DeviceAuthMessage
  parse_field tag next = field_case w add_unknown tag next 1 10 (parse_challenge next) (
      field_case w add_unknown tag next 2 18 (parse_response next) (
        field_case w add_unknown tag next 3 26 (parse_error next)
          (handle_unusual w add_unknown tag next)))

  -- DeviceAuthMessage::MergePartialFromCodedStream
  unfoldable pub merge_partial_from_coded_stream :
      ℕ → DeviceAuthMessage → Bytes → Parse DeviceAuthMessage
  merge_partial_from_coded_stream = parse_loop w add_unknown parse_field
