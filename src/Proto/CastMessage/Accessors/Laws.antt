-- ===== src/Proto/CastMessage/Accessors/Laws.antt =====
-- google_cast_message.h: each accessor of CastMessage changes what the message shows of its own
-- field, and of no other.
use libchromecast.Prelude.{ℕ, true, false, ◌≡◌, [], Bytes, none, some, c_str, take, arith}
use libchromecast.Proto.Accessors.{string_accessors, enum_accessors}
use libchromecast.Proto.StringField
use libchromecast.Proto.StringField.{StringField}
use libchromecast.Proto.StringField.Laws.{View}
use libchromecast.Proto.EnumField
use libchromecast.Proto.CastMessage.{CastMessage, ProtocolVersion, PayloadType}
use libchromecast.Proto.CastMessage.Laws.{IsConsistent, MessageView, message_view}
use libchromecast.Proto.CastMessage.Accessors.{
  StringFieldName, source_id, destination_id, namespace, payload_utf8, payload_binary, accessors,
  source_id_accessors, destination_id_accessors, namespace_accessors, payload_utf8_accessors,
  payload_binary_accessors, protocol_version_accessors, payload_type_accessors,
}

-- A message's view with one field replaced.
unfoldable pub put_view : StringFieldName → View → MessageView → MessageView
put_view source_id v m = record m { source_id = v }
put_view destination_id v m = record m { destination_id = v }
put_view namespace v m = record m { namespace = v }
put_view payload_utf8 v m = record m { payload_utf8 = v }
put_view payload_binary v m = record m { payload_binary = v }

-- Each accessor that writes a string field shows there what it promises,
-- and nowhere else: the value that is set, up to its first zero byte or its size for a pointer;
-- the value that was there for mutable_f; no value after clear_f, release_f, and set_allocated_f
-- of a null pointer.
pub message_view-accessors :
    (field : StringFieldName) (m : CastMessage) (value : Bytes) (size : ℕ)
    → (message_view ((accessors field).set value m)
        ≡ put_view field (record { has = true; value = value }) (message_view m))
      × (message_view ((accessors field).set_char value m)
          ≡ put_view field (record { has = true; value = c_str value }) (message_view m))
      × (message_view ((accessors field).set_pointer value size m)
          ≡ put_view field (record { has = true; value = take size value }) (message_view m))
      × (message_view ((accessors field).mutable m)
          ≡ put_view field
              (record { has = true; value = (accessors field).get m })
              (message_view m))
      × (message_view ((accessors field).clear m)
          ≡ put_view field (record { has = false; value = [] }) (message_view m))
      × (message_view ((accessors field).release m).1
          ≡ put_view field (record { has = false; value = [] }) (message_view m))
      × (message_view ((accessors field).set_allocated (some value) m)
          ≡ put_view field (record { has = true; value = value }) (message_view m))
      × (message_view ((accessors field).set_allocated none m)
          ≡ put_view field (record { has = false; value = [] }) (message_view m))
unfolding accessors string_accessors source_id_accessors destination_id_accessors
    namespace_accessors payload_utf8_accessors payload_binary_accessors message_view put_view
    StringField.clear StringField.set StringField.set_char StringField.set_pointer
    StringField.mutable StringField.release StringField.set_allocated
message_view-accessors source_id m value size = ground arith
message_view-accessors destination_id m value size = ground arith
message_view-accessors namespace m value size = ground arith
message_view-accessors payload_utf8 m value size = ground arith
message_view-accessors payload_binary m value size = ground arith

-- The accessors that write a field keep the message consistent.
pub accessors-IsConsistent :
    (field : StringFieldName) (m : CastMessage) (value : Bytes) (version : ProtocolVersion)
    (t : PayloadType)
    → IsConsistent m
    → IsConsistent ((accessors field).set value m)
      × IsConsistent ((accessors field).mutable m)
      × IsConsistent ((accessors field).clear m)
      × IsConsistent ((accessors field).release m).1
      × IsConsistent ((accessors field).set_allocated (some value) m)
      × IsConsistent ((accessors field).set_allocated none m)
      × IsConsistent (protocol_version_accessors.set version m)
      × IsConsistent (protocol_version_accessors.clear m)
      × IsConsistent (payload_type_accessors.set t m)
      × IsConsistent (payload_type_accessors.clear m)
unfolding accessors string_accessors source_id_accessors destination_id_accessors
    namespace_accessors payload_utf8_accessors payload_binary_accessors StringField.clear
    StringField.set StringField.mutable StringField.release StringField.set_allocated
    protocol_version_accessors payload_type_accessors enum_accessors EnumField.clear EnumField.set
accessors-IsConsistent source_id m value version t h =
    ground (arith, h.payload_type, h.protocol_version)
accessors-IsConsistent destination_id m value version t h =
    ground (arith, h.payload_type, h.protocol_version)
accessors-IsConsistent namespace m value version t h =
    ground (arith, h.payload_type, h.protocol_version)
accessors-IsConsistent payload_utf8 m value version t h =
    ground (arith, h.payload_type, h.protocol_version)
accessors-IsConsistent payload_binary m value version t h =
    ground (arith, h.payload_type, h.protocol_version)
