-- ===== src/Proto/DeviceAuthMessage.antt =====
-- google_cast_message.h, google_cast_message.cpp: the generated class DeviceAuthMessage, which holds
-- an AuthChallenge, an AuthResponse and an AuthError.
pub mod Accessors
pub mod Parse
pub mod Laws
use libchromecast.Prelude.{
  ℕ, ◌+◌, ◌%◌, ◌^◌, Bool, true, false, ◌&&◌, ◌||◌, [], ◌++◌, Bytes, Option, length, if◌then◌else◌,
}
use libchromecast.Proto.Runtime.{WireFormat}
use libchromecast.Proto.Nested.{MessageFormat}
use libchromecast.Proto.MessageField
use libchromecast.Proto.MessageField.{
  MessageField, clear_field, merge_field, put_message, size_field,
}
use libchromecast.Proto.AuthChallenge
use libchromecast.Proto.AuthChallenge.{AuthChallenge}
use libchromecast.Proto.AuthResponse
use libchromecast.Proto.AuthResponse.{AuthResponse}
use libchromecast.Proto.AuthError
use libchromecast.Proto.AuthError.{AuthError}

pub record DeviceAuthMessage : Type 0 where
  pub challenge : MessageField AuthChallenge
  pub response : MessageField AuthResponse
  pub error : MessageField AuthError
  pub unknown_fields : Bytes
  pub cached_size : ℕ

-- DeviceAuthMessage::DeviceAuthMessage(), by SharedCtor
unfoldable pub new_message : DeviceAuthMessage
new_message = record {
  challenge = MessageField.unset;
  response = MessageField.unset;
  error = MessageField.unset;
  unknown_fields = [];
  cached_size = 0;
}

module _ (m : DeviceAuthMessage) where
  open m use {challenge, response, error}

  -- `_has_bits_[0] & 7` and `_has_bits_[0] & 0xff`: no other bit is ever set.
  unfoldable pub has_any : Bool
  has_any = challenge.has || response.has || error.has

  -- DeviceAuthMessage::Clear; where no bit is set the fields stay.
  unfoldable pub clear : DeviceAuthMessage
  unfolding has_any clear_field
  clear =
      let fields =
        if has_any
        then record m {
          challenge = clear_field AuthChallenge.clear challenge;
          response = clear_field AuthResponse.clear response;
          error = clear_field AuthError.clear error;
        }
        else m in
      record fields { unknown_fields = [] }

  -- DeviceAuthMessage::IsInitialized
  unfoldable pub is_initialized : Bool
  is_initialized =
      (if response.has
        then AuthResponse.is_initialized (MessageField.get AuthResponse.new_message response)
        else true)
      && (if error.has
          then AuthError.is_initialized (MessageField.get AuthError.new_message error)
          else true)

-- DeviceAuthMessage::MergeFrom, of another object
unfoldable pub merge_from : DeviceAuthMessage → DeviceAuthMessage → DeviceAuthMessage
unfolding has_any merge_field
merge_from from m =
    let fields =
      if has_any from
      then record m {
        challenge =
            merge_field AuthChallenge.new_message AuthChallenge.merge_from from.challenge
              m.challenge;
        response =
            merge_field AuthResponse.new_message AuthResponse.merge_from from.response m.response;
        error = merge_field AuthError.new_message AuthError.merge_from from.error m.error;
      }
      else m in
    record fields { unknown_fields = fields.unknown_fields ++ from.unknown_fields }

-- DeviceAuthMessage::CopyFrom, of another object
unfoldable pub copy_from : DeviceAuthMessage → DeviceAuthMessage → DeviceAuthMessage
unfolding merge_from clear
copy_from from m = merge_from from (clear m)

-- DeviceAuthMessage::DeviceAuthMessage(const DeviceAuthMessage&)
unfoldable pub copy_constructor : DeviceAuthMessage → DeviceAuthMessage
unfolding merge_from new_message
copy_constructor from = merge_from from new_message

-- DeviceAuthMessage::Swap, of two objects: member by member, the bits with their fields
unfoldable pub swap : DeviceAuthMessage × DeviceAuthMessage → DeviceAuthMessage × DeviceAuthMessage
swap (m, other) = (
  record {
    challenge = other.challenge;
    response = other.response;
    error = other.error;
    unknown_fields = other.unknown_fields;
    cached_size = other.cached_size;
  },
  record {
    challenge = m.challenge;
    response = m.response;
    error = m.error;
    unknown_fields = m.unknown_fields;
    cached_size = m.cached_size;
  },
)

module _ (w : WireFormat) (format : MessageFormat) where
  unfoldable pub put_challenge : MessageField AuthChallenge → Bytes
  unfolding put_message
  put_challenge =
      put_message format AuthChallenge.new_message (λ x. x.cached_size)
        (AuthChallenge.serialize_with_cached_sizes w) 1

  unfoldable pub put_response : MessageField AuthResponse → Bytes
  unfolding put_message
  put_response =
      put_message format AuthResponse.new_message (λ x. x.cached_size)
        (AuthResponse.serialize_with_cached_sizes w) 2

  unfoldable pub put_error : MessageField AuthError → Bytes
  unfolding put_message
  put_error =
      put_message format AuthError.new_message (λ x. x.cached_size)
        (AuthError.serialize_with_cached_sizes w) 3

  -- DeviceAuthMessage::SerializeWithCachedSizes: the bytes that are added to the output. The inner
  -- messages are written with their cached sizes.
  unfoldable pub serialize_with_cached_sizes : DeviceAuthMessage → Bytes
  unfolding put_challenge put_response put_error
  serialize_with_cached_sizes m =
      put_challenge m.challenge
      ++ (put_response m.response ++ (put_error m.error ++ m.unknown_fields))

  unfoldable pub size_challenge : MessageField AuthChallenge → ℕ × MessageField AuthChallenge
  unfolding size_field
  size_challenge = size_field format AuthChallenge.new_message (AuthChallenge.byte_size w)

  unfoldable pub size_response : MessageField AuthResponse → ℕ × MessageField AuthResponse
  unfolding size_field
  size_response = size_field format AuthResponse.new_message (AuthResponse.byte_size w)

  unfoldable pub size_error : MessageField AuthError → ℕ × MessageField AuthError
  unfolding size_field
  size_error = size_field format AuthError.new_message (AuthError.byte_size w)

  -- `if (_has_bits_[0] & 0xff)`, and the sizes of the fields
  unfoldable pub size_fields : DeviceAuthMessage → ℕ × DeviceAuthMessage
  unfolding has_any size_challenge size_response size_error
  size_fields m =
      if has_any m
      then (
        (size_challenge m.challenge).0 + (size_response m.response).0 + (size_error m.error).0,
        record m {
          challenge = (size_challenge m.challenge).1;
          response = (size_response m.response).1;
          error = (size_error m.error).1;
        },
      )
      else (0, m)

  -- DeviceAuthMessage::ByteSize: the sum, which is kept in `_cached_size_`, and in each inner
  -- message its own size. It is an `int`, here its bit pattern: what is added wraps around at 2^32.
  unfoldable pub byte_size : DeviceAuthMessage → ℕ × DeviceAuthMessage
  unfolding size_fields
  byte_size m =
      let (fields, sized) = size_fields m in
      let total_size = (fields + length m.unknown_fields) % 2 ^ 32 in
      (total_size, record sized { cached_size = total_size })
