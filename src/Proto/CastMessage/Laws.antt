-- ===== src/Proto/CastMessage/Laws.antt =====
-- google_cast_message.h, google_cast_message.cpp: what Clear, MergeFrom, CopyFrom and Swap promise.
use libchromecast.Prelude.{
  false, inl, inr, Bool-cases, ◌≡◌, refl, ap, sym, ◌∙◌, [], ◌++◌, Bytes, arith,
}
use libchromecast.Proto.Fields.{clear_string, drop_bit, merge_string, merge_enum}
use libchromecast.Proto.StringField
use libchromecast.Proto.StringField.{StringField}
use libchromecast.Proto.StringField.Laws.{IsValid, View, view}
use libchromecast.Proto.EnumField
use libchromecast.Proto.EnumField.{EnumField}
use libchromecast.Proto.CastMessage.{
  CastMessage, ProtocolVersion, PayloadType, new_message, has_any, clear, merge_from, copy_from,
  copy_constructor,
}

-- An enum that is not set has its default.
abbrev pub IsDefault : {E : Type 0} → E → EnumField E → Type 0
IsDefault default f = f.has ≡ false → f.value ≡ default

-- Every string that is set is the message's own, and every field that is not set reads as its
-- default.
pub record IsConsistent (m : CastMessage) : Type 0 where
  pub source_id : IsValid m.source_id
  pub destination_id : IsValid m.destination_id
  pub namespace : IsValid m.namespace
  pub payload_utf8 : IsValid m.payload_utf8
  pub payload_binary : IsValid m.payload_binary
  pub payload_type : IsDefault PayloadType.string m.payload_type
  pub protocol_version : IsDefault ProtocolVersion.castv2_1_0 m.protocol_version

-- What the accessors of a message show: whether each field is set, and its value.
pub record MessageView : Type 0 where
  pub protocol_version : EnumField ProtocolVersion
  pub source_id : View
  pub destination_id : View
  pub namespace : View
  pub payload_type : EnumField PayloadType
  pub payload_utf8 : View
  pub payload_binary : View
  pub unknown_fields : Bytes

unfoldable pub message_view : CastMessage → MessageView
message_view m = record {
  protocol_version = m.protocol_version;
  source_id = view m.source_id;
  destination_id = view m.destination_id;
  namespace = view m.namespace;
  payload_type = m.payload_type;
  payload_utf8 = view m.payload_utf8;
  payload_binary = view m.payload_binary;
  unknown_fields = m.unknown_fields;
}

pub new_message-IsConsistent : IsConsistent new_message
unfolding new_message
new_message-IsConsistent = record {
  source_id = refl;
  destination_id = refl;
  namespace = refl;
  payload_utf8 = refl;
  payload_binary = refl;
  payload_type = λ _. refl;
  protocol_version = λ _. refl;
}

clear_string-view :
    (f : StringField) → IsValid f → view (clear_string f) ≡ record { has = false; value = [] }
unfolding clear_string StringField.clear
clear_string-view f h = ground arith

merge_string-view :
    (f g : StringField)
    → IsValid f
    → view g ≡ record { has = false; value = [] }
    → view (merge_string f g) ≡ view f
unfolding merge_string StringField.set
merge_string-view f g h e = ground arith

-- Clear leaves a consistent message as a new one looks.
pub message_view-clear :
    (m : CastMessage) → IsConsistent m → message_view (clear m) ≡ message_view new_message
unfolding message_view new_message clear has_any clear_string drop_bit StringField.clear
message_view-clear m h = ground (arith, h.payload_type, h.protocol_version)

-- The fields of a message that looks new.
record LooksNew (m : CastMessage) : Type 0 where
  source_id : view m.source_id ≡ record { has = false; value = [] }
  destination_id : view m.destination_id ≡ record { has = false; value = [] }
  namespace : view m.namespace ≡ record { has = false; value = [] }
  payload_utf8 : view m.payload_utf8 ≡ record { has = false; value = [] }
  payload_binary : view m.payload_binary ≡ record { has = false; value = [] }
  payload_type : m.payload_type ≡ EnumField.unset PayloadType.string
  protocol_version : m.protocol_version ≡ EnumField.unset ProtocolVersion.castv2_1_0
  unknown_fields : m.unknown_fields ≡ []

looks_new : (m : CastMessage) → message_view m ≡ message_view new_message → LooksNew m
unfolding message_view new_message
looks_new m e = record {
  source_id = ap (λ v. v.source_id) e;
  destination_id = ap (λ v. v.destination_id) e;
  namespace = ap (λ v. v.namespace) e;
  payload_utf8 = ap (λ v. v.payload_utf8) e;
  payload_binary = ap (λ v. v.payload_binary) e;
  payload_type = ap (λ v. v.payload_type) e;
  protocol_version = ap (λ v. v.protocol_version) e;
  unknown_fields = ap (λ v. v.unknown_fields) e;
}

-- A string field that is not set looks so.
view_unset :
    (f : StringField) → IsValid f → f.has ≡ false → view f ≡ record { has = false; value = [] }
view_unset f h e = ground arith

merge_enum-view :
    {E : Type 0} (d : E) (f g : EnumField E)
    → IsDefault d f
    → g ≡ EnumField.unset d
    → merge_enum f g ≡ f
unfolding merge_enum EnumField.set
merge_enum-view d f g h e = ground (arith, h)

enum_unset :
    {E : Type 0} (d : E) (f : EnumField E) → IsDefault d f → f.has ≡ false → f ≡ EnumField.unset d
enum_unset d f h e = ground (arith, h e)

none_has :
    (m : CastMessage)
    → has_any m ≡ false
    → (m.protocol_version.has ≡ false)
      × (m.source_id.has ≡ false)
      × (m.destination_id.has ≡ false)
      × (m.namespace.has ≡ false)
      × (m.payload_type.has ≡ false)
      × (m.payload_utf8.has ≡ false)
      × (m.payload_binary.has ≡ false)
unfolding has_any
none_has m h = ground arith

merge_from-view :
    (from c : CastMessage)
    → IsConsistent from
    → LooksNew c
    → message_view (merge_from from c) ≡ message_view from
unfolding message_view merge_from
merge_from-view from c hf e = elim (Bool-cases (has_any from)) [
  | inl any ↦ rw any λ i. record {
    protocol_version =
        merge_enum-view ProtocolVersion.castv2_1_0 from.protocol_version c.protocol_version
          hf.protocol_version e.protocol_version i;
    source_id = merge_string-view from.source_id c.source_id hf.source_id e.source_id i;
    destination_id =
        merge_string-view from.destination_id c.destination_id hf.destination_id e.destination_id i;
    namespace = merge_string-view from.namespace c.namespace hf.namespace e.namespace i;
    payload_type =
        merge_enum-view PayloadType.string from.payload_type c.payload_type hf.payload_type
          e.payload_type i;
    payload_utf8 =
        merge_string-view from.payload_utf8 c.payload_utf8 hf.payload_utf8 e.payload_utf8 i;
    payload_binary =
        merge_string-view from.payload_binary c.payload_binary hf.payload_binary e.payload_binary i;
    unknown_fields = ap (λ u. u ++ from.unknown_fields) e.unknown_fields i;
  }
  | inr none_set ↦ rw none_set λ i. record {
    protocol_version =
        (e.protocol_version
            ∙ sym (
                enum_unset ProtocolVersion.castv2_1_0 from.protocol_version hf.protocol_version
                  (none_has from none_set).0))
          i;
    source_id =
        (e.source_id ∙ sym (view_unset from.source_id hf.source_id (none_has from none_set).1)) i;
    destination_id =
        (e.destination_id
            ∙ sym (view_unset from.destination_id hf.destination_id (none_has from none_set).2))
          i;
    namespace =
        (e.namespace ∙ sym (view_unset from.namespace hf.namespace (none_has from none_set).3)) i;
    payload_type =
        (e.payload_type
            ∙ sym (
                enum_unset PayloadType.string from.payload_type hf.payload_type
                  (none_has from none_set).4))
          i;
    payload_utf8 =
        (e.payload_utf8
            ∙ sym (view_unset from.payload_utf8 hf.payload_utf8 (none_has from none_set).5))
          i;
    payload_binary =
        (e.payload_binary
            ∙ sym (view_unset from.payload_binary hf.payload_binary (none_has from none_set).6))
          i;
    unknown_fields = ap (λ u. u ++ from.unknown_fields) e.unknown_fields i;
  }
]

-- CopyFrom of a consistent message makes any consistent message look like it, and so does the copy
-- constructor.
pub message_view-copy_from :
    (from m : CastMessage)
    → IsConsistent from
    → IsConsistent m
    → (message_view (copy_from from m) ≡ message_view from)
      × (message_view (copy_constructor from) ≡ message_view from)
unfolding copy_from copy_constructor
message_view-copy_from from m hf hm = (
  merge_from-view from (clear m) hf (looks_new (clear m) (message_view-clear m hm)),
  merge_from-view from new_message hf (looks_new new_message refl),
)
