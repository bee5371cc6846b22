-- ===== src/Proto/DeviceAuthMessage/Laws.antt =====
-- google_cast_message.cpp: DeviceAuthMessage::ByteSize leaves the sizes that
-- SerializeWithCachedSizes writes.
use libchromecast.Prelude.{
  ◌+◌, ◌^◌, ◌<◌, ◌≡◌, refl, ap, inl, inr, ◌++◌, Bytes, arith, length, length-append, Bool-cases,
}
use libchromecast.Proto.Runtime.{WireFormat, IsWireFormat}
use libchromecast.Proto.Nested.{MessageFormat, IsMessageFormat}
use libchromecast.Proto.MessageField.{size_field, get}
use libchromecast.Proto.MessageField.Laws.{IsOwn, written, Sizes, put_message-size_field}
use libchromecast.Proto.EnumMessage
use libchromecast.Proto.EnumMessage.Laws
use libchromecast.Proto.AuthEnums.{signature_algorithm_code, error_type_code}
use libchromecast.Proto.AuthChallenge
use libchromecast.Proto.AuthResponse
use libchromecast.Proto.AuthResponse.Laws.{auth_response-byte_size}
use libchromecast.Proto.AuthError
use libchromecast.Proto.DeviceAuthMessage.{
  DeviceAuthMessage, has_any, put_challenge, put_response, put_error, serialize_with_cached_sizes,
  size_challenge, size_response, size_error, size_fields, byte_size,
}

-- Every field that is set has an object.
pub record IsConsistent (m : DeviceAuthMessage) : Type 0 where
  pub challenge : IsOwn m.challenge
  pub response : IsOwn m.response
  pub error : IsOwn m.error

-- The size of every message within the message is one that an `int` holds.
pub record IsSized (w : WireFormat) (m : DeviceAuthMessage) : Type 0 where
  pub challenge :
      length
        (AuthChallenge.serialize_with_cached_sizes w (get AuthChallenge.new_message m.challenge))
      < 2 ^ 31
  pub response :
      length (AuthResponse.serialize_with_cached_sizes w (get AuthResponse.new_message m.response))
      < 2 ^ 31
  pub error :
      length (AuthError.serialize_with_cached_sizes w (get AuthError.new_message m.error)) < 2 ^ 31

module _ (w : WireFormat) (format : IsWireFormat w) where
  abbrev pub challenge_bytes : DeviceAuthMessage → Bytes
  challenge_bytes m =
      written w format AuthChallenge.new_message (AuthChallenge.serialize_with_cached_sizes w) 1
        m.challenge

  abbrev pub response_bytes : DeviceAuthMessage → Bytes
  response_bytes m =
      written w format AuthResponse.new_message (AuthResponse.serialize_with_cached_sizes w) 2
        m.response

  abbrev pub error_bytes : DeviceAuthMessage → Bytes
  error_bytes m =
      written w format AuthError.new_message (AuthError.serialize_with_cached_sizes w) 3 m.error

  module _ (f : MessageFormat) (is_format : IsMessageFormat w format f) where
    challenge_sizes :
        Sizes w format AuthChallenge.new_message
          (AuthChallenge.serialize_with_cached_sizes w)
          f
          is_format
          (λ x. x.cached_size)
          (AuthChallenge.byte_size w)
    unfolding AuthChallenge.byte_size AuthChallenge.serialize_with_cached_sizes
        EnumMessage.byte_size EnumMessage.serialize_with_cached_sizes
    challenge_sizes x short = (
      Laws.byte_size-length signature_algorithm_code w format x short,
      Laws.byte_size-length signature_algorithm_code w format x short,
      refl,
    )

    error_sizes :
        Sizes w format AuthError.new_message
          (AuthError.serialize_with_cached_sizes w)
          f
          is_format
          (λ x. x.cached_size)
          (AuthError.byte_size w)
    unfolding AuthError.byte_size AuthError.serialize_with_cached_sizes EnumMessage.byte_size
        EnumMessage.serialize_with_cached_sizes
    error_sizes x short = (
      Laws.byte_size-length error_type_code w format x short,
      Laws.byte_size-length error_type_code w format x short,
      refl,
    )

    response_sizes :
        Sizes w format AuthResponse.new_message
          (AuthResponse.serialize_with_cached_sizes w)
          f
          is_format
          (λ x. x.cached_size)
          (AuthResponse.byte_size w)
    unfolding AuthResponse.byte_size AuthResponse.serialize_with_cached_sizes
    response_sizes x short =
        let (size, cached) = auth_response-byte_size w format x short in (size, size, refl)

    -- Without a bit that is set the fields have no size, and nothing to be cached.
    size_fields_guard :
        (m : DeviceAuthMessage)
        → size_fields w f m ≡ (
          (size_challenge w f m.challenge).0
              + (size_response w f m.response).0
              + (size_error w f m.error).0,
          record m {
            challenge = (size_challenge w f m.challenge).1;
            response = (size_response w f m.response).1;
            error = (size_error w f m.error).1;
          },
        )
    unfolding size_fields has_any size_challenge size_response size_error size_field
    size_fields_guard m = elim (Bool-cases (has_any m)) [
      | inl any ↦ rw any
      | inr none_set ↦ ground (arith, none_set)
    ]

    -- What the fields are written as after ByteSize, and their sizes.
    fields-size_fields :
        (m : DeviceAuthMessage)
        → IsConsistent m
        → IsSized w m
        → (put_challenge w f (size_challenge w f m.challenge).1 ≡ challenge_bytes m)
          × ((size_challenge w f m.challenge).0 ≡ length (challenge_bytes m))
          × (put_response w f (size_response w f m.response).1 ≡ response_bytes m)
          × ((size_response w f m.response).0 ≡ length (response_bytes m))
          × (put_error w f (size_error w f m.error).1 ≡ error_bytes m)
          × ((size_error w f m.error).0 ≡ length (error_bytes m))
    unfolding put_challenge put_response put_error size_challenge size_response size_error
    fields-size_fields m own sized =
        let (put_1, size_1) =
          put_message-size_field w format AuthChallenge.new_message
            (AuthChallenge.serialize_with_cached_sizes w) f is_format (λ x. x.cached_size)
            (AuthChallenge.byte_size w) challenge_sizes 1 m.challenge (omega arith) own.challenge
            sized.challenge in
        let (put_2, size_2) =
          put_message-size_field w format AuthResponse.new_message
            (AuthResponse.serialize_with_cached_sizes w) f is_format (λ x. x.cached_size)
            (AuthResponse.byte_size w) response_sizes 2 m.response (omega arith) own.response
            sized.response in
        let (put_3, size_3) =
          put_message-size_field w format AuthError.new_message
            (AuthError.serialize_with_cached_sizes w) f is_format (λ x. x.cached_size)
            (AuthError.byte_size w) error_sizes 3 m.error (omega arith) own.error sized.error in
        (put_1, size_1, put_2, size_2, put_3, size_3)

    -- Each inner message is written with its right length.
    pub serialize_sized :
        (m : DeviceAuthMessage)
        → IsConsistent m
        → IsSized w m
        → serialize_with_cached_sizes w f (byte_size w f m).1
          ≡ challenge_bytes m ++ (response_bytes m ++ (error_bytes m ++ m.unknown_fields))
    unfolding byte_size serialize_with_cached_sizes
    serialize_sized m own sized =
        let (put_1, size_1, put_2, size_2, put_3, size_3) = fields-size_fields m own sized in
        rw (size_fields_guard m, put_1, put_2, put_3) refl

    -- Where every field that is set has an object, the size of each inner message and the size of
    -- what is written are below 2^31, so that an `int` holds them, SerializeWithCachedSizes writes
    -- after ByteSize each inner message with its right length, and ByteSize is the number of bytes
    -- that it adds.
    pub serialize-byte_size :
        (m : DeviceAuthMessage)
        → IsConsistent m
        → IsSized w m
        → length (serialize_with_cached_sizes w f (byte_size w f m).1) < 2 ^ 31
        → (serialize_with_cached_sizes w f (byte_size w f m).1
            ≡ challenge_bytes m ++ (response_bytes m ++ (error_bytes m ++ m.unknown_fields)))
          × ((byte_size w f m).0 ≡ length (serialize_with_cached_sizes w f (byte_size w f m).1))
    unfolding byte_size
    serialize-byte_size m own sized short =
        let (put_1, size_1, put_2, size_2, put_3, size_3) = fields-size_fields m own sized in
        let bytes = serialize_sized m own sized in
        (
          bytes,
          omega (
            arith,
            ap (λ x. x.0) (size_fields_guard m),
            size_1,
            size_2,
            size_3,
            ap length bytes,
            length-append (challenge_bytes m)
                (response_bytes m ++ (error_bytes m ++ m.unknown_fields)),
            length-append (response_bytes m) (error_bytes m ++ m.unknown_fields),
            length-append (error_bytes m) m.unknown_fields,
          ),
        )
