-- ===== src/Proto/CastMessage/Parse/Merge.antt =====
-- google_cast_message.cpp: what a parsed field does to the message is what MergeFrom does.
use libchromecast.Prelude.{◌^◌, ◌<◌, ◌≡◌, refl, true, if◌then◌else◌, arith}
use libchromecast.Proto.Fields.{merge_enum}
use libchromecast.Proto.EnumField.{EnumField}
use libchromecast.Proto.CastMessage.{
  CastMessage, PayloadType, ProtocolVersion, castv2_1_0, string, binary, to_payload_type,
  to_protocol_version, protocol_version_number, payload_type_number, payload_type_is_valid,
  protocol_version_is_valid,
}
use libchromecast.Proto.Fields.Laws.{lift_enum}
use libchromecast.Proto.CastMessage.Parse.{set_protocol_version, set_payload_type}

-- The numbers of the enumerators are valid, and cast back to them.
pub small_protocol_version : (v : ProtocolVersion) → protocol_version_number v < 2 ^ 31
small_protocol_version castv2_1_0 = omega arith

pub valid_protocol_version :
    (v : ProtocolVersion) → protocol_version_is_valid (protocol_version_number v) ≡ true
valid_protocol_version castv2_1_0 = refl

pub small_payload_type : (v : PayloadType) → payload_type_number v < 2 ^ 31
small_payload_type string = omega arith
small_payload_type binary = omega arith

pub valid_payload_type : (v : PayloadType) → payload_type_is_valid (payload_type_number v) ≡ true
valid_payload_type string = refl
valid_payload_type binary = refl

to_payload_type-number : (v : PayloadType) → to_payload_type (payload_type_number v) ≡ v
to_payload_type-number string = refl
to_payload_type-number binary = refl

to_protocol_version-number :
    (v : ProtocolVersion) → to_protocol_version (protocol_version_number v) ≡ v
to_protocol_version-number castv2_1_0 = refl

pub same_protocol_version :
    (f : EnumField ProtocolVersion) (m : CastMessage)
    → (if f.has then set_protocol_version (protocol_version_number f.value) m else m)
      ≡ record m { protocol_version = merge_enum f m.protocol_version }
unfolding set_protocol_version
same_protocol_version f m =
    rw (to_protocol_version-number f.value)
      (lift_enum f m.protocol_version (λ g. record m { protocol_version = g }))

pub same_payload_type :
    (f : EnumField PayloadType) (m : CastMessage)
    → (if f.has then set_payload_type (payload_type_number f.value) m else m)
      ≡ record m { payload_type = merge_enum f m.payload_type }
unfolding set_payload_type
same_payload_type f m =
    rw (to_payload_type-number f.value)
      (lift_enum f m.payload_type (λ g. record m { payload_type = g }))
