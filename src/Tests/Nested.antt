-- ===== src/Tests/Nested.antt =====
-- Messages within messages over the wire format of Codec, and the example of their round trip.
use libchromecast.Prelude.{
  ◌++◌, ℕ, suc, ◌≤◌, ◌≡◌, refl, inl, inr, arith, true, [], ◌∷◌, Bytes, Option, none, some, length,
  Option-cases, subst,
}
use libchromecast.Proto.Nested.{MessageReader, IsMessageReader}
use libchromecast.Proto.Parser.{Parse, success, failure, out_of_fuel}
use libchromecast.Proto.MessageField
use libchromecast.Proto.AuthChallenge
use libchromecast.Proto.AuthError
use libchromecast.Proto.AuthResponse
use libchromecast.Proto.AuthResponse.Parse as ResponseParse
use libchromecast.Proto.DeviceAuthMessage.{
  DeviceAuthMessage, merge_from, serialize_with_cached_sizes, byte_size,
}
use libchromecast.Proto.DeviceAuthMessage.Laws.{
  IsConsistent, challenge_bytes, response_bytes, error_bytes, serialize-byte_size,
}
use libchromecast.Proto.DeviceAuthMessage.Parse.{Readers, merge_partial_from_coded_stream}
use libchromecast.Proto.DeviceAuthMessage.Parse.Merge.{IsPlain}
use libchromecast.Proto.DeviceAuthMessage.Parse.Fuel.{IsReaders}
use libchromecast.Proto.DeviceAuthMessage.Parse.RoundTrip.{device_auth-parse}
use libchromecast.Tests.Codec.{
  codec, codec-IsWireFormat, message_format, message_format-IsMessageFormat,
}
use libchromecast.Tests.Authentication.{error_message, response_message}

module _ {X : Type 0} (parse : ℕ → X → Bytes → Parse X) where
  -- All bytes of the message must be read.
  abbrev consumed : Bytes → Parse X → Option (X × Bytes)
  consumed rest (success y []) = some (y, rest)
  consumed rest (success y (b ∷ more)) = none
  consumed rest failure = none
  consumed rest out_of_fuel = none

  abbrev read_within : X → Option (Bytes × Bytes) → Option (X × Bytes)
  read_within x none = none
  read_within x (some (s, rest)) = consumed rest (parse (suc (length s)) x s)

  abbrev reader : MessageReader X
  reader = record { read_message = λ x input. read_within x (codec.read_string input) }

  consumed-rest :
      (p : Parse X) (left rest : Bytes) (y : X) → consumed left p ≡ some (y, rest) → left ≡ rest
  consumed-rest (success z []) left rest y e = ground (arith, e)
  consumed-rest (success z (b ∷ more)) left rest y e = absurd (cc)
  consumed-rest failure left rest y e = absurd (cc)
  consumed-rest out_of_fuel left rest y e = absurd (cc)

  read_within-shrinks :
      (x y : X) (s rest : Bytes)
      → read_within x (codec.read_string s) ≡ some (y, rest)
      → length rest ≤ length s
  read_within-shrinks x y s rest e = elim (Option-cases (codec.read_string s)) [
    | inl missing ↦ absurd (cc)
    | inr ((inside, left), found) ↦
        let h : consumed left (parse (suc (length inside)) x inside) ≡ some (y, rest) =
          subst (λ o. read_within x o ≡ some (y, rest)) found e in
        subst (λ r. length r ≤ length s)
          (consumed-rest (parse (suc (length inside)) x inside) left rest y h)
          (codec-IsWireFormat.read_string-shrinks s inside left found)
  ]

  reader-IsMessageReader : IsMessageReader codec codec-IsWireFormat parse reader
  reader-IsMessageReader = record {
    read_message-string_bytes =
        λ x y s rest short e. rw (codec-IsWireFormat.read_string-string_bytes s rest short, e) refl;
    read_message-shrinks = λ x y s rest e. read_within-shrinks x y s rest e;
  }

abbrev readers : Readers
readers = record {
  challenge = reader (AuthChallenge.merge_partial_from_coded_stream codec);
  response = reader (ResponseParse.merge_partial_from_coded_stream codec);
  error = reader (AuthError.merge_partial_from_coded_stream codec);
}

readers-IsReaders : IsReaders codec codec-IsWireFormat readers
readers-IsReaders = record {
  challenge = reader-IsMessageReader (AuthChallenge.merge_partial_from_coded_stream codec);
  response = reader-IsMessageReader (ResponseParse.merge_partial_from_coded_stream codec);
  error = reader-IsMessageReader (AuthError.merge_partial_from_coded_stream codec);
}

-- A message with a response and an error.
abbrev device_auth : DeviceAuthMessage
device_auth = record {
  challenge = MessageField.unset;
  response = record { has = true; pointer = some response_message };
  error = record { has = true; pointer = some error_message };
  unknown_fields = [];
  cached_size = 0;
}

device_auth-IsConsistent : IsConsistent device_auth
device_auth-IsConsistent = record {
  challenge = λ e. cc;
  response = λ e. λ n. cc;
  error = λ e. λ n. cc;
}

device_auth-IsPlain : IsPlain codec device_auth
unfolding AuthChallenge.serialize_with_cached_sizes AuthError.serialize_with_cached_sizes
    AuthChallenge.new_message AuthResponse.serialize_with_cached_sizes
device_auth-IsPlain = record {
  unknown = refl;
  challenge_unknown = refl;
  response_unknown = refl;
  error_unknown = refl;
  response_strings = record {
    signature = omega arith;
    client_auth_certificate = omega arith;
    intermediate_certificate = (omega arith, (omega arith, tt));
  };
  challenge_size = omega arith;
  response_size = omega arith;
  error_size = omega arith;
}

serialize-byte_size_example :
    (serialize_with_cached_sizes codec message_format (byte_size codec message_format device_auth).1
      ≡ challenge_bytes codec codec-IsWireFormat device_auth
        ++ (response_bytes codec codec-IsWireFormat device_auth
            ++ (error_bytes codec codec-IsWireFormat device_auth ++ device_auth.unknown_fields)))
    × ((byte_size codec message_format device_auth).0
        ≡ length (
            serialize_with_cached_sizes codec message_format
              (byte_size codec message_format device_auth).1))
unfolding serialize_with_cached_sizes byte_size AuthResponse.serialize_with_cached_sizes
    AuthResponse.byte_size AuthError.serialize_with_cached_sizes AuthError.byte_size
serialize-byte_size_example =
    serialize-byte_size codec codec-IsWireFormat message_format message_format-IsMessageFormat
      device_auth device_auth-IsConsistent
      (record {
        challenge = device_auth-IsPlain.challenge_size;
        response = device_auth-IsPlain.response_size;
        error = device_auth-IsPlain.error_size;
      })
      (omega arith)

device_auth-parse_example :
    merge_partial_from_coded_stream codec readers 50 device_auth (
      serialize_with_cached_sizes codec message_format
        (byte_size codec message_format device_auth).1)
    ≡ success (merge_from device_auth device_auth) []
unfolding serialize_with_cached_sizes byte_size AuthResponse.serialize_with_cached_sizes
    AuthResponse.byte_size AuthError.serialize_with_cached_sizes AuthError.byte_size
device_auth-parse_example =
    device_auth-parse codec codec-IsWireFormat message_format message_format-IsMessageFormat readers
      readers-IsReaders device_auth device_auth 50 device_auth-IsConsistent device_auth-IsPlain
      (omega arith)
