-- ===== src/Proto/CastMessage/Consistent.antt =====
-- google_cast_message.cpp: Clear and MergeFrom keep a message consistent.
use libchromecast.Prelude.{Bool-cases, inl, inr, arith}
use libchromecast.Proto.Fields.{clear_string, drop_bit, merge_string, merge_enum}
use libchromecast.Proto.StringField
use libchromecast.Proto.StringField.{StringField}
use libchromecast.Proto.StringField.Laws.{IsValid}
use libchromecast.Proto.EnumField
use libchromecast.Proto.EnumField.{EnumField}
use libchromecast.Proto.CastMessage.{
  CastMessage, ProtocolVersion, PayloadType, has_any, clear, merge_from,
}
use libchromecast.Proto.CastMessage.Laws.{IsDefault, IsConsistent}

clear_string-IsValid : (f : StringField) → IsValid f → IsValid (clear_string f)
unfolding clear_string StringField.clear
clear_string-IsValid f h = ground arith

merge_string-IsValid : (f g : StringField) → IsValid g → IsValid (merge_string f g)
unfolding merge_string StringField.set
merge_string-IsValid f g h = ground arith

merge_enum-IsDefault :
    {E : Type 0} (d : E) (f g : EnumField E) → IsDefault d g → IsDefault d (merge_enum f g)
unfolding merge_enum EnumField.set
merge_enum-IsDefault d f g h = ground (arith, h)

pub clear-IsConsistent : (m : CastMessage) → IsConsistent m → IsConsistent (clear m)
unfolding clear has_any clear_string drop_bit StringField.clear EnumField.clear
clear-IsConsistent m h = ground (arith, h.payload_type, h.protocol_version)

-- MergeFrom of any message keeps a message consistent.
pub merge_from-IsConsistent :
    (from m : CastMessage) → IsConsistent m → IsConsistent (merge_from from m)
unfolding merge_from
merge_from-IsConsistent from m h = elim (Bool-cases (has_any from)) [
  | inl any ↦ rw any (record {
    source_id = merge_string-IsValid from.source_id m.source_id h.source_id;
    destination_id = merge_string-IsValid from.destination_id m.destination_id h.destination_id;
    namespace = merge_string-IsValid from.namespace m.namespace h.namespace;
    payload_utf8 = merge_string-IsValid from.payload_utf8 m.payload_utf8 h.payload_utf8;
    payload_binary = merge_string-IsValid from.payload_binary m.payload_binary h.payload_binary;
    payload_type =
        merge_enum-IsDefault PayloadType.string from.payload_type m.payload_type h.payload_type;
    protocol_version =
        merge_enum-IsDefault ProtocolVersion.castv2_1_0 from.protocol_version m.protocol_version
          h.protocol_version;
  })
  | inr none_set ↦ rw none_set (record {
    source_id = h.source_id;
    destination_id = h.destination_id;
    namespace = h.namespace;
    payload_utf8 = h.payload_utf8;
    payload_binary = h.payload_binary;
    payload_type = h.payload_type;
    protocol_version = h.protocol_version;
  })
]
