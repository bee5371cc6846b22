-- ===== src/Proto/AuthChallenge.antt =====
-- google_cast_message.h, google_cast_message.cpp: the generated class AuthChallenge, an instance of the
-- code that Proto.EnumMessage models.
use libchromecast.Prelude.{ℕ, Bool, true, Bytes}
use libchromecast.Proto.Runtime.{WireFormat}
use libchromecast.Proto.Parser.{Parse}
use libchromecast.Proto.Accessors.{EnumAccessors, enum_accessors}
use libchromecast.Proto.AuthEnums.{SignatureAlgorithm, signature_algorithm_code}
use libchromecast.Proto.EnumMessage
use libchromecast.Proto.EnumMessage.{EnumMessage}
use libchromecast.Proto.EnumMessage.Parse

-- `field` is signature_algorithm_, with its bit.
abbrev pub AuthChallenge : Type 0
AuthChallenge = EnumMessage SignatureAlgorithm

-- AuthChallenge::AuthChallenge(), by SharedCtor
unfoldable pub new_message : AuthChallenge
unfolding EnumMessage.new_message
new_message = EnumMessage.new_message signature_algorithm_code

-- AuthChallenge::Clear
unfoldable pub clear : AuthChallenge → AuthChallenge
unfolding EnumMessage.clear
clear = EnumMessage.clear signature_algorithm_code

-- AuthChallenge::MergeFrom
unfoldable pub merge_from : AuthChallenge → AuthChallenge → AuthChallenge
unfolding EnumMessage.merge_from
merge_from = EnumMessage.merge_from signature_algorithm_code

-- AuthChallenge::CopyFrom
unfoldable pub copy_from : AuthChallenge → AuthChallenge → AuthChallenge
unfolding EnumMessage.copy_from
copy_from = EnumMessage.copy_from signature_algorithm_code

-- AuthChallenge::AuthChallenge(const AuthChallenge&)
unfoldable pub copy_constructor : AuthChallenge → AuthChallenge
unfolding EnumMessage.copy_constructor
copy_constructor = EnumMessage.copy_constructor signature_algorithm_code

-- AuthChallenge::Swap
unfoldable pub swap : AuthChallenge × AuthChallenge → AuthChallenge × AuthChallenge
unfolding EnumMessage.swap
swap = EnumMessage.swap signature_algorithm_code

-- AuthChallenge::IsInitialized
unfoldable pub is_initialized : AuthChallenge → Bool
is_initialized m = true

-- has_signature_algorithm, clear_signature_algorithm, signature_algorithm and
-- set_signature_algorithm
unfoldable pub signature_algorithm_accessors : EnumAccessors AuthChallenge SignatureAlgorithm
unfolding enum_accessors
signature_algorithm_accessors =
    enum_accessors signature_algorithm_code.default (λ m. m.field) λ f m. record m { field = f }

module _ (w : WireFormat) where
  -- AuthChallenge::SerializeWithCachedSizes
  unfoldable pub serialize_with_cached_sizes : AuthChallenge → Bytes
  unfolding EnumMessage.serialize_with_cached_sizes
  serialize_with_cached_sizes = EnumMessage.serialize_with_cached_sizes signature_algorithm_code w

  -- AuthChallenge::ByteSize
  unfoldable pub byte_size : AuthChallenge → ℕ × AuthChallenge
  unfolding EnumMessage.byte_size
  byte_size = EnumMessage.byte_size signature_algorithm_code w

  -- AuthChallenge::MergePartialFromCodedStream
  unfoldable pub merge_partial_from_coded_stream : ℕ → AuthChallenge → Bytes → Parse AuthChallenge
  unfolding Parse.merge_partial_from_coded_stream
  merge_partial_from_coded_stream = Parse.merge_partial_from_coded_stream signature_algorithm_code w
