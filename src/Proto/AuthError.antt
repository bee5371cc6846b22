-- ===== src/Proto/AuthError.antt =====
-- google_cast_message.h, google_cast_message.cpp: the generated class AuthError, an instance of the
-- code that Proto.EnumMessage models.
use libchromecast.Prelude.{ℕ, Bool, Bytes}
use libchromecast.Proto.Runtime.{WireFormat}
use libchromecast.Proto.Parser.{Parse}
use libchromecast.Proto.Accessors.{EnumAccessors, enum_accessors}
use libchromecast.Proto.AuthEnums.{ErrorType, error_type_code}
use libchromecast.Proto.EnumMessage
use libchromecast.Proto.EnumMessage.{EnumMessage}
use libchromecast.Proto.EnumMessage.Parse

-- `field` is error_type_, with its bit.
abbrev pub AuthError : Type 0
AuthError = EnumMessage ErrorType

-- AuthError::AuthError(), by SharedCtor
unfoldable pub new_message : AuthError
unfolding EnumMessage.new_message
new_message = EnumMessage.new_message error_type_code

-- AuthError::Clear
unfoldable pub clear : AuthError → AuthError
unfolding EnumMessage.clear
clear = EnumMessage.clear error_type_code

-- AuthError::MergeFrom
unfoldable pub merge_from : AuthError → AuthError → AuthError
unfolding EnumMessage.merge_from
merge_from = EnumMessage.merge_from error_type_code

-- AuthError::CopyFrom
unfoldable pub copy_from : AuthError → AuthError → AuthError
unfolding EnumMessage.copy_from
copy_from = EnumMessage.copy_from error_type_code

-- AuthError::AuthError(const AuthError&)
unfoldable pub copy_constructor : AuthError → AuthError
unfolding EnumMessage.copy_constructor
copy_constructor = EnumMessage.copy_constructor error_type_code

-- AuthError::Swap
unfoldable pub swap : AuthError × AuthError → AuthError × AuthError
unfolding EnumMessage.swap
swap = EnumMessage.swap error_type_code

-- AuthError::IsInitialized: `(_has_bits_[0] & 1) == 1`
unfoldable pub is_initialized : AuthError → Bool
is_initialized m = m.field.has

-- has_error_type, clear_error_type, error_type and
-- set_error_type
unfoldable pub error_type_accessors : EnumAccessors AuthError ErrorType
unfolding enum_accessors
error_type_accessors =
    enum_accessors error_type_code.default (λ m. m.field) λ f m. record m { field = f }

module _ (w : WireFormat) where
  -- AuthError::SerializeWithCachedSizes
  unfoldable pub serialize_with_cached_sizes : AuthError → Bytes
  unfolding EnumMessage.serialize_with_cached_sizes
  serialize_with_cached_sizes = EnumMessage.serialize_with_cached_sizes error_type_code w

  -- AuthError::ByteSize
  unfoldable pub byte_size : AuthError → ℕ × AuthError
  unfolding EnumMessage.byte_size
  byte_size = EnumMessage.byte_size error_type_code w

  -- AuthError::MergePartialFromCodedStream
  unfoldable pub merge_partial_from_coded_stream : ℕ → AuthError → Bytes → Parse AuthError
  unfolding Parse.merge_partial_from_coded_stream
  merge_partial_from_coded_stream = Parse.merge_partial_from_coded_stream error_type_code w
