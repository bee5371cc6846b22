-- ===== src/Proto/EnumMessage.antt =====
-- google_cast_message.h, google_cast_message.cpp: AuthChallenge and AuthError, two generated classes
-- of the same code: each has one enum field, of the number 1, and differs in the enum alone.
pub mod Parse
pub mod Laws
use libchromecast.Prelude.{ℕ, ◌+◌, ◌%◌, ◌^◌, Bool, [], ◌++◌, Bytes, length, if◌then◌else◌}
use libchromecast.Proto.Runtime.{WireFormat}
use libchromecast.Proto.EnumField
use libchromecast.Proto.EnumField.{EnumField}
use libchromecast.Proto.Fields.{merge_enum, put_enum, enum_total}

-- A generated enum: the default of the field, the number of an enumerator, E_IsValid, and
-- `static_cast` of a number that is valid.
pub record EnumCode (E : Type 0) : Type 0 where
  pub default : E
  pub number : E → ℕ
  pub is_valid : ℕ → Bool
  pub cast : ℕ → E

pub record EnumMessage (E : Type 0) : Type 0 where
  pub field : EnumField E
  pub unknown_fields : Bytes
  pub cached_size : ℕ

module _ {E : Type 0} (code : EnumCode E) where
  -- AuthChallenge::AuthChallenge(), by SharedCtor
  unfoldable pub new_message : EnumMessage E
  new_message = record {
    field = EnumField.unset code.default;
    unknown_fields = [];
    cached_size = 0;
  }

  -- AuthChallenge::Clear
  unfoldable pub clear : EnumMessage E → EnumMessage E
  unfolding EnumField.clear
  clear m = record m { field = EnumField.clear code.default m.field; unknown_fields = [] }

  -- AuthChallenge::MergeFrom, of another object
  unfoldable pub merge_from : EnumMessage E → EnumMessage E → EnumMessage E
  unfolding merge_enum
  merge_from from m = record m {
    field = if from.field.has then merge_enum from.field m.field else m.field;
    unknown_fields = m.unknown_fields ++ from.unknown_fields;
  }

  -- AuthChallenge::CopyFrom, of another object
  unfoldable pub copy_from : EnumMessage E → EnumMessage E → EnumMessage E
  unfolding merge_from clear
  copy_from from m = merge_from from (clear m)

  -- AuthChallenge::AuthChallenge(const AuthChallenge&)
  unfoldable pub copy_constructor : EnumMessage E → EnumMessage E
  unfolding merge_from new_message
  copy_constructor from = merge_from from new_message

  -- AuthChallenge::Swap, of two objects: member by member, the bit with its field
  unfoldable pub swap : EnumMessage E × EnumMessage E → EnumMessage E × EnumMessage E
  swap (m, other) = (
    record {
      field = other.field;
      unknown_fields = other.unknown_fields;
      cached_size = other.cached_size;
    },
    record { field = m.field; unknown_fields = m.unknown_fields; cached_size = m.cached_size },
  )

  module _ (w : WireFormat) where
    -- AuthChallenge::SerializeWithCachedSizes: the bytes that are added to the output
    unfoldable pub serialize_with_cached_sizes : EnumMessage E → Bytes
    serialize_with_cached_sizes m = put_enum w code.number 1 m.field ++ m.unknown_fields

    -- AuthChallenge::ByteSize: the sum, which is kept in `_cached_size_`. It is an `int`, here its bit
    -- pattern: what is added wraps around at 2^32.
    unfoldable pub byte_size : EnumMessage E → ℕ × EnumMessage E
    byte_size m =
        let fields = if m.field.has then enum_total w code.number m.field else 0 in
        let total_size = (fields + length m.unknown_fields) % 2 ^ 32 in
        (total_size, record m { cached_size = total_size })
