-- ===== src/Proto/CastMessage/Accessors.antt =====
-- google_cast_message.h: the inline accessors of CastMessage, field by field.
pub mod Laws
use libchromecast.Proto.Accessors.{StringAccessors, string_accessors, EnumAccessors, enum_accessors}
use libchromecast.Proto.CastMessage.{CastMessage, ProtocolVersion, PayloadType, castv2_1_0, string}

-- has_source_id … set_allocated_source_id
source_id_accessors : StringAccessors CastMessage
unfolding string_accessors
source_id_accessors = string_accessors (λ m. m.source_id) λ f m. record m { source_id = f }

-- has_destination_id … set_allocated_destination_id
destination_id_accessors : StringAccessors CastMessage
unfolding string_accessors
destination_id_accessors =
    string_accessors (λ m. m.destination_id) λ f m. record m { destination_id = f }

-- has_namespace_ … set_allocated_namespace_
namespace_accessors : StringAccessors CastMessage
unfolding string_accessors
namespace_accessors = string_accessors (λ m. m.namespace) λ f m. record m { namespace = f }

-- has_payload_utf8 … set_allocated_payload_utf8
payload_utf8_accessors : StringAccessors CastMessage
unfolding string_accessors
payload_utf8_accessors = string_accessors (λ m. m.payload_utf8) λ f m. record m { payload_utf8 = f }

-- has_payload_binary … set_allocated_payload_binary
payload_binary_accessors : StringAccessors CastMessage
unfolding string_accessors
payload_binary_accessors =
    string_accessors (λ m. m.payload_binary) λ f m. record m { payload_binary = f }

pub data StringFieldName : Type 0 where
  source_id destination_id namespace payload_utf8 payload_binary : StringFieldName

unfoldable pub accessors : StringFieldName → StringAccessors CastMessage
unfolding source_id_accessors destination_id_accessors namespace_accessors payload_utf8_accessors
    payload_binary_accessors
accessors source_id = source_id_accessors
accessors destination_id = destination_id_accessors
accessors namespace = namespace_accessors
accessors payload_utf8 = payload_utf8_accessors
accessors payload_binary = payload_binary_accessors

-- has_protocol_version … set_protocol_version
unfoldable pub protocol_version_accessors : EnumAccessors CastMessage ProtocolVersion
unfolding enum_accessors
protocol_version_accessors =
    enum_accessors castv2_1_0 (λ m. m.protocol_version) λ f m. record m { protocol_version = f }

-- has_payload_type … set_payload_type
unfoldable pub payload_type_accessors : EnumAccessors CastMessage PayloadType
unfolding enum_accessors
payload_type_accessors =
    enum_accessors string (λ m. m.payload_type) λ f m. record m { payload_type = f }
