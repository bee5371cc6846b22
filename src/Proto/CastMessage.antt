-- ===== src/Proto/CastMessage.antt =====
-- google_cast_message.h, google_cast_message.cpp: the state of the generated class CastMessage,
-- and the operations on whole messages. `_has_bits_[0]` is kept as the bit of each field.
pub mod Serialize
pub mod Parse
pub mod Laws
pub mod Consistent
pub mod Accessors
use libchromecast.Prelude.{
  ℕ, zero, suc, Bool, true, false, ◌&&◌, ◌||◌, [], ◌++◌, Bytes, Option, none, ◌==◌, if◌then◌else◌,
}
use libchromecast.Proto.StringField
use libchromecast.Proto.StringField.{StringField}
use libchromecast.Proto.Fields.{clear_string, drop_bit, merge_string, merge_enum}
use libchromecast.Proto.EnumField
use libchromecast.Proto.EnumField.{EnumField}

-- enum CastMessage_ProtocolVersion
pub data ProtocolVersion : Type 0 where
  castv2_1_0 : ProtocolVersion

-- enum CastMessage_PayloadType
pub data PayloadType : Type 0 where
  string binary : PayloadType

abbrev pub protocol_version_number : ProtocolVersion → ℕ
protocol_version_number castv2_1_0 = 0

abbrev pub payload_type_number : PayloadType → ℕ
payload_type_number string = 0
payload_type_number binary = 1

-- CastMessage_ProtocolVersion_IsValid
abbrev pub protocol_version_is_valid : ℕ → Bool
protocol_version_is_valid value = value == 0

-- CastMessage_PayloadType_IsValid
abbrev pub payload_type_is_valid : ℕ → Bool
payload_type_is_valid value = value == 0 || value == 1

-- `static_cast` to the enums, of a number that is valid
abbrev pub to_protocol_version : ℕ → ProtocolVersion
to_protocol_version value = castv2_1_0

abbrev pub to_payload_type : ℕ → PayloadType
to_payload_type value = if value == 0 then string else binary

pub record CastMessage : Type 0 where
  pub protocol_version : EnumField ProtocolVersion
  pub source_id : StringField
  pub destination_id : StringField
  pub namespace : StringField
  pub payload_type : EnumField PayloadType
  pub payload_utf8 : StringField
  pub payload_binary : StringField
  pub unknown_fields : Bytes
  pub cached_size : ℕ

-- CastMessage::CastMessage(), by SharedCtor
unfoldable pub new_message : CastMessage
new_message = record {
  protocol_version = EnumField.unset castv2_1_0;
  source_id = StringField.unset;
  destination_id = StringField.unset;
  namespace = StringField.unset;
  payload_type = EnumField.unset string;
  payload_utf8 = StringField.unset;
  payload_binary = StringField.unset;
  unknown_fields = [];
  cached_size = 0;
}

module _ (m : CastMessage) where
  open m use {
    protocol_version, source_id, destination_id, namespace, payload_type, payload_utf8,
    payload_binary, unknown_fields,
  }

  -- `_has_bits_[0] & 127` and `_has_bits_[0] & 0xff`: no other bit is ever set.
  unfoldable pub has_any : Bool
  has_any =
      protocol_version.has || source_id.has || destination_id.has || namespace.has
      || payload_type.has || payload_utf8.has || payload_binary.has

  -- CastMessage::Clear
  unfoldable pub clear : CastMessage
  unfolding has_any EnumField.clear clear_string drop_bit
  clear =
      if has_any
      then record m {
        protocol_version = EnumField.clear castv2_1_0 protocol_version;
        source_id = clear_string source_id;
        destination_id = clear_string destination_id;
        namespace = clear_string namespace;
        payload_type = EnumField.clear string payload_type;
        payload_utf8 = clear_string payload_utf8;
        payload_binary = clear_string payload_binary;
        unknown_fields = [];
      }
      else record m {
        protocol_version = record protocol_version { has = false };
        source_id = drop_bit source_id;
        destination_id = drop_bit destination_id;
        namespace = drop_bit namespace;
        payload_type = record payload_type { has = false };
        payload_utf8 = drop_bit payload_utf8;
        payload_binary = drop_bit payload_binary;
        unknown_fields = [];
      }

  -- CastMessage::IsInitialized: `(_has_bits_[0] & 0x1f) == 0x1f`
  unfoldable pub is_initialized : Bool
  is_initialized =
      protocol_version.has && source_id.has && destination_id.has && namespace.has
      && payload_type.has

-- CastMessage::MergeFrom, of another object
unfoldable pub merge_from : CastMessage → CastMessage → CastMessage
unfolding has_any merge_string merge_enum
merge_from from m =
    let fields =
      if has_any from
      then record m {
        protocol_version = merge_enum from.protocol_version m.protocol_version;
        source_id = merge_string from.source_id m.source_id;
        destination_id = merge_string from.destination_id m.destination_id;
        namespace = merge_string from.namespace m.namespace;
        payload_type = merge_enum from.payload_type m.payload_type;
        payload_utf8 = merge_string from.payload_utf8 m.payload_utf8;
        payload_binary = merge_string from.payload_binary m.payload_binary;
      }
      else m in
    record fields { unknown_fields = fields.unknown_fields ++ from.unknown_fields }

-- CastMessage::CopyFrom, of another object
unfoldable pub copy_from : CastMessage → CastMessage → CastMessage
unfolding merge_from clear
copy_from from m = merge_from from (clear m)

-- CastMessage::CastMessage(const CastMessage&)
unfoldable pub copy_constructor : CastMessage → CastMessage
unfolding merge_from new_message
copy_constructor from = merge_from from new_message

-- CastMessage::Swap, of two objects: member by member, the bits with their fields
unfoldable pub swap : CastMessage × CastMessage → CastMessage × CastMessage
swap (m, other) = (
  record {
    protocol_version = other.protocol_version;
    source_id = other.source_id;
    destination_id = other.destination_id;
    namespace = other.namespace;
    payload_type = other.payload_type;
    payload_utf8 = other.payload_utf8;
    payload_binary = other.payload_binary;
    unknown_fields = other.unknown_fields;
    cached_size = other.cached_size;
  },
  record {
    protocol_version = m.protocol_version;
    source_id = m.source_id;
    destination_id = m.destination_id;
    namespace = m.namespace;
    payload_type = m.payload_type;
    payload_utf8 = m.payload_utf8;
    payload_binary = m.payload_binary;
    unknown_fields = m.unknown_fields;
    cached_size = m.cached_size;
  },
)
