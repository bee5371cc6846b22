-- ===== src/Tests/Messages.antt =====
-- Messages, and the examples of what is proved of them.
use libchromecast.Prelude.{
  ◌≡◌, ◌≢◌, refl, arith, true, false, [], ◌∷◌, Bytes, codes, none, some, c_str, str_compare,
}
use libchromecast.Proto.Parser.{success, out_of_fuel}
use libchromecast.Utils.{ok}
use libchromecast.Cast.Address.{Address, less, wildcard}
use libchromecast.Cast.Address.Order.{less_both_ways}
use libchromecast.Cast.Message
use libchromecast.Cast.Message.{CastMessage, version_2_1_0}
use libchromecast.Cast.Serialize
use libchromecast.Cast.Serialize.{save, load}
use libchromecast.Cast.Serialize.RoundTrip.{load-save_text, load-save_binary}
use libchromecast.Proto.StringField.{StringField, unset}
use libchromecast.Proto.CastMessage
use libchromecast.Proto.CastMessage.{
  CastMessage as ChromeCastMessage, clear as clear_message, copy_from, copy_constructor, merge_from,
  new_message,
}
use libchromecast.Proto.CastMessage.Accessors.{accessors, namespace}
use libchromecast.Proto.CastMessage.Accessors.Laws.{put_view, message_view-accessors}
use libchromecast.Proto.CastMessage.Laws.{IsConsistent, message_view, message_view-copy_from}
use libchromecast.Proto.CastMessage.Serialize.{serialize_with_cached_sizes}
use libchromecast.Proto.CastMessage.Parse.{merge_partial_from_coded_stream}
use libchromecast.Proto.CastMessage.Parse.Plain.{plain_parse, merge_partial-plain}
use libchromecast.Proto.CastMessage.Parse.Fuel.{merge_partial-ne-out_of_fuel}
use libchromecast.Proto.CastMessage.Parse.RoundTrip.{parse-serialize}
use libchromecast.Tests.Codec.{codec, codec-IsWireFormat, lite, lite-IsMessageLite}

abbrev pub sender_address : Address
sender_address = record {
  source = codes "sender-0";
  destination = codes "receiver-0";
  namespace = codes "tp";
}

abbrev pub text_message : CastMessage
text_message = record {
  protocol_version = version_2_1_0;
  address = sender_address;
  payload_type = Message.string;
  payload_utf8 = codes "PING";
  payload_binary = [];
}

abbrev pub binary_message : CastMessage
binary_message = record text_message {
  payload_type = Message.binary;
  payload_binary = 7 ∷ 0 ∷ 9 ∷ [];
}

load-save_text_example :
    (buffer : Bytes) × (save lite text_message ≡ ok buffer)
    × (load lite buffer binary_message
        ≡ ok (record binary_message {
          protocol_version = version_2_1_0;
          address = sender_address;
          payload_type = Message.string;
          payload_utf8 = codes "PING";
        }))
unfolding serialize_with_cached_sizes Serialize.text_message
load-save_text_example =
    load-save_text codec codec-IsWireFormat lite lite-IsMessageLite text_message binary_message refl
      (record { source = omega arith; destination = omega arith; namespace = omega arith })
      (omega arith) (omega arith)

load-save_binary_example :
    (buffer : Bytes) × (save lite binary_message ≡ ok buffer)
    × (load lite buffer text_message
        ≡ ok (record text_message {
          protocol_version = version_2_1_0;
          address = sender_address;
          payload_type = Message.binary;
          payload_binary = 7 ∷ 0 ∷ 9 ∷ [];
        }))
unfolding serialize_with_cached_sizes Serialize.binary_message
load-save_binary_example =
    load-save_binary codec codec-IsWireFormat lite lite-IsMessageLite binary_message text_message
      (λ e. cc) (λ e. cc)
      (record { source = omega arith; destination = omega arith; namespace = omega arith })
      (omega arith) (omega arith)

abbrev set_field : Bytes → StringField
set_field s = record { has = true; pointer = some s }

-- A generated message with a field that is not set.
abbrev generated : ChromeCastMessage
generated = record {
  protocol_version = record { has = true; value = CastMessage.castv2_1_0 };
  source_id = set_field (codes "a");
  destination_id = set_field (codes "b");
  namespace = set_field (codes "tp");
  payload_type = record { has = true; value = CastMessage.binary };
  payload_utf8 = unset;
  payload_binary = set_field (1 ∷ 2 ∷ []);
  unknown_fields = [];
  cached_size = 0;
}

abbrev with_unknown : ChromeCastMessage
with_unknown = record generated {
  payload_utf8 = set_field (codes "x");
  unknown_fields = 64 ∷ 5 ∷ [];
}

generated-IsConsistent : IsConsistent generated
generated-IsConsistent = record {
  source_id = λ e. cc;
  destination_id = λ e. cc;
  namespace = λ e. cc;
  payload_utf8 = refl;
  payload_binary = λ e. cc;
  payload_type = λ e. cc;
  protocol_version = λ e. refl;
}

with_unknown-IsConsistent : IsConsistent with_unknown
with_unknown-IsConsistent = record {
  source_id = λ e. cc;
  destination_id = λ e. cc;
  namespace = λ e. cc;
  payload_utf8 = λ e. cc;
  payload_binary = λ e. cc;
  payload_type = λ e. cc;
  protocol_version = λ e. refl;
}

parse-serialize_example :
    merge_partial_from_coded_stream codec 20 with_unknown
      (serialize_with_cached_sizes codec generated)
    ≡ success (merge_from generated with_unknown) []
unfolding serialize_with_cached_sizes
parse-serialize_example =
    parse-serialize codec codec-IsWireFormat generated with_unknown 20 refl
      (record {
        source_id = omega arith;
        destination_id = omega arith;
        namespace = omega arith;
        payload_utf8 = omega arith;
        payload_binary = omega arith;
      })
      (omega arith)

merge_partial-ne-out_of_fuel_example :
    merge_partial_from_coded_stream codec 5 with_unknown (64 ∷ 5 ∷ 12 ∷ []) ≢ out_of_fuel
merge_partial-ne-out_of_fuel_example =
    merge_partial-ne-out_of_fuel codec codec-IsWireFormat 5 with_unknown (64 ∷ 5 ∷ 12 ∷ [])
      (omega arith)

merge_partial-plain_example :
    merge_partial_from_coded_stream codec 9 with_unknown (8 ∷ 0 ∷ 18 ∷ 1 ∷ 65 ∷ 64 ∷ 5 ∷ [])
    ≡ plain_parse codec 9 with_unknown (8 ∷ 0 ∷ 18 ∷ 1 ∷ 65 ∷ 64 ∷ 5 ∷ [])
merge_partial-plain_example =
    merge_partial-plain codec codec-IsWireFormat 9 with_unknown (8 ∷ 0 ∷ 18 ∷ 1 ∷ 65 ∷ 64 ∷ 5 ∷ [])
      (omega arith)

message_view-copy_from_example :
    (message_view (copy_from generated with_unknown) ≡ message_view generated)
    × (message_view (copy_constructor generated) ≡ message_view generated)
message_view-copy_from_example =
    message_view-copy_from generated with_unknown generated-IsConsistent with_unknown-IsConsistent

message_view-accessors_example :
    (message_view ((accessors namespace).set (65 ∷ 0 ∷ 66 ∷ []) generated)
      ≡ put_view namespace
          (record { has = true; value = 65 ∷ 0 ∷ 66 ∷ [] })
          (message_view generated))
    × (message_view ((accessors namespace).set_char (65 ∷ 0 ∷ 66 ∷ []) generated)
        ≡ put_view namespace (record { has = true; value = 65 ∷ [] }) (message_view generated))
    × (message_view ((accessors namespace).set_pointer (65 ∷ 0 ∷ 66 ∷ []) 2 generated)
        ≡ put_view namespace (record { has = true; value = 65 ∷ 0 ∷ [] }) (message_view generated))
    × (message_view ((accessors namespace).mutable generated)
        ≡ put_view namespace
            (record { has = true; value = (accessors namespace).get generated })
            (message_view generated))
    × (message_view ((accessors namespace).clear generated)
        ≡ put_view namespace (record { has = false; value = [] }) (message_view generated))
    × (message_view ((accessors namespace).release generated).1
        ≡ put_view namespace (record { has = false; value = [] }) (message_view generated))
    × (message_view ((accessors namespace).set_allocated (some (65 ∷ 0 ∷ 66 ∷ [])) generated)
        ≡ put_view namespace
            (record { has = true; value = 65 ∷ 0 ∷ 66 ∷ [] })
            (message_view generated))
    × (message_view ((accessors namespace).set_allocated none generated)
        ≡ put_view namespace (record { has = false; value = [] }) (message_view generated))
unfolding c_str
message_view-accessors_example = message_view-accessors namespace generated (65 ∷ 0 ∷ 66 ∷ []) 2

less_both_ways_example :
    (less
        (record { source = codes "s"; destination = wildcard; namespace = codes "n" })
        (record { source = codes "s"; destination = codes "!x"; namespace = codes "n" })
      ≡ true)
    × (less
          (record { source = codes "s"; destination = codes "!x"; namespace = codes "n" })
          (record { source = codes "s"; destination = wildcard; namespace = codes "n" })
        ≡ true)
unfolding str_compare
less_both_ways_example =
    less_both_ways (record { source = codes "s"; destination = wildcard; namespace = codes "n" })
      (record { source = codes "s"; destination = codes "!x"; namespace = codes "n" }) refl refl
      refl refl
