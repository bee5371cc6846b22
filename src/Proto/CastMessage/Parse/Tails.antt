-- ===== src/Proto/CastMessage/Parse/Tails.antt =====
-- google_cast_message.cpp: the output of SerializeWithCachedSizes from each field on, and what
-- parsing it does to a message.
use libchromecast.Prelude.{◌^◌, ◌<◌, ◌++◌, Bytes, length}
use libchromecast.Proto.Fields.{merge_string, merge_enum, put_enum, put_string}
use libchromecast.Proto.Runtime.{WireFormat}
use libchromecast.Proto.StringField
use libchromecast.Proto.StringField.{StringField}
use libchromecast.Proto.CastMessage.{CastMessage, protocol_version_number, payload_type_number}

-- The strings of the message are within the limit of the wire format.
pub record IsShort (m : CastMessage) : Type 0 where
  pub source_id : length (StringField.get m.source_id) < 2 ^ 31
  pub destination_id : length (StringField.get m.destination_id) < 2 ^ 31
  pub namespace : length (StringField.get m.namespace) < 2 ^ 31
  pub payload_utf8 : length (StringField.get m.payload_utf8) < 2 ^ 31
  pub payload_binary : length (StringField.get m.payload_binary) < 2 ^ 31

-- The output of SerializeWithCachedSizes from the field of each number on.
module _ (w : WireFormat) (from : CastMessage) where
  abbrev pub tail_7 : Bytes
  tail_7 = put_string w 7 from.payload_binary ++ from.unknown_fields

  abbrev pub tail_6 : Bytes
  tail_6 = put_string w 6 from.payload_utf8 ++ tail_7

  abbrev pub tail_5 : Bytes
  tail_5 = put_enum w payload_type_number 5 from.payload_type ++ tail_6

  abbrev pub tail_4 : Bytes
  tail_4 = put_string w 4 from.namespace ++ tail_5

  abbrev pub tail_3 : Bytes
  tail_3 = put_string w 3 from.destination_id ++ tail_4

  abbrev pub tail_2 : Bytes
  tail_2 = put_string w 2 from.source_id ++ tail_3

  abbrev pub tail_1 : Bytes
  tail_1 = put_enum w protocol_version_number 1 from.protocol_version ++ tail_2

-- What MergeFrom does for the field of each number.
module _ (from : CastMessage) where
  abbrev pub update_7 : CastMessage → CastMessage
  update_7 m = record m { payload_binary = merge_string from.payload_binary m.payload_binary }

  abbrev pub update_6 : CastMessage → CastMessage
  update_6 m = record m { payload_utf8 = merge_string from.payload_utf8 m.payload_utf8 }

  abbrev pub update_5 : CastMessage → CastMessage
  update_5 m = record m { payload_type = merge_enum from.payload_type m.payload_type }

  abbrev pub update_4 : CastMessage → CastMessage
  update_4 m = record m { namespace = merge_string from.namespace m.namespace }

  abbrev pub update_3 : CastMessage → CastMessage
  update_3 m = record m { destination_id = merge_string from.destination_id m.destination_id }

  abbrev pub update_2 : CastMessage → CastMessage
  update_2 m = record m { source_id = merge_string from.source_id m.source_id }

  abbrev pub update_1 : CastMessage → CastMessage
  update_1 m = record m { protocol_version = merge_enum from.protocol_version m.protocol_version }

  -- The updates from the field of each number on.
  abbrev pub updates_7 : CastMessage → CastMessage
  updates_7 m = update_7 m

  abbrev pub updates_6 : CastMessage → CastMessage
  updates_6 m = updates_7 (update_6 m)

  abbrev pub updates_5 : CastMessage → CastMessage
  updates_5 m = updates_6 (update_5 m)

  abbrev pub updates_4 : CastMessage → CastMessage
  updates_4 m = updates_5 (update_4 m)

  abbrev pub updates_3 : CastMessage → CastMessage
  updates_3 m = updates_4 (update_3 m)

  abbrev pub updates_2 : CastMessage → CastMessage
  updates_2 m = updates_3 (update_2 m)

  abbrev pub updates_1 : CastMessage → CastMessage
  updates_1 m = updates_2 (update_1 m)
