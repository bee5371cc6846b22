-- ===== src/Cast/Serialize.antt =====
-- cast_message.cpp: CastMessage::Serialize, which writes a message to a buffer or reads one from
-- it, by way of the generated class.
pub mod RoundTrip
use libchromecast.Prelude.{
  ℕ, suc, ◌^◌, ◌*◌, ◌≤◌, ◌<◌, Bool, true, false, ◌≡◌, [], ◌∷◌, Bytes, codes, Option, none, some,
  length, if◌then◌else◌,
}
use libchromecast.Proto.Parser.{Parse, success, failure, out_of_fuel}
use libchromecast.Utils.{Error, exception, Result, ok, thrown, ◌>>=◌}
use libchromecast.Cast.Address.{Address}
use libchromecast.Cast.Message
use libchromecast.Cast.Message.{CastMessage, version_2_1_0, other_payload}
use libchromecast.Proto.Runtime.{WireFormat}
use libchromecast.Proto.StringField
use libchromecast.Proto.EnumField
use libchromecast.Proto.CastMessage
use libchromecast.Proto.CastMessage.{CastMessage as ChromeCastMessage}
use libchromecast.Proto.CastMessage.Serialize.{serialize_with_cached_sizes}
use libchromecast.Proto.CastMessage.Parse.{merge_partial_from_coded_stream}

-- google::protobuf::MessageLite, of the runtime library, on the generated class: the two calls
-- that CastMessage::Serialize makes, the second on a CodedInputStream that is made for the buffer
-- and has its default limits. `none` is the result `false`.
pub record MessageLite : Type 0 where
  pub serialize_to_coded_stream : ChromeCastMessage → Option Bytes
  pub parse_from_coded_stream : Bytes → Option ChromeCastMessage

-- What ParseFromCodedStream makes of the parser's result: the message has to be initialized.
abbrev pub accept : Parse ChromeCastMessage → Option ChromeCastMessage
accept (success m rest) = if CastMessage.is_initialized m then some m else none
accept failure = none
accept out_of_fuel = none

-- The total limit of a CodedInputStream on which SetTotalBytesLimit is not called: 64 megabytes.
abbrev pub total_bytes_limit : ℕ
total_bytes_limit = 64 * 2 ^ 20

-- Its documented behaviour: an initialized message whose size an `int` holds is written by
-- SerializeWithCachedSizes, and a longer one is refused; a message that stays below the total
-- limit of the stream, which the repository leaves at its default, is parsed into a cleared object
-- by MergePartialFromCodedStream, whose loop makes at most one round for a byte and one for the
-- end. Of longer inputs nothing is assumed.
pub record IsMessageLite (w : WireFormat) (lite : MessageLite) : Type 0 where
  pub serialize_initialized :
      (m : ChromeCastMessage)
      → CastMessage.is_initialized m ≡ true
      → length (serialize_with_cached_sizes w m) < 2 ^ 31
      → lite.serialize_to_coded_stream m ≡ some (serialize_with_cached_sizes w m)
  pub serialize_too_long :
      (m : ChromeCastMessage)
      → 2 ^ 31 ≤ length (serialize_with_cached_sizes w m)
      → lite.serialize_to_coded_stream m ≡ none
  pub parse-eq :
      (input : Bytes)
      → length input < total_bytes_limit
      → lite.parse_from_coded_stream input
        ≡ accept
            (merge_partial_from_coded_stream w (suc (length input)) CastMessage.new_message input)

or_throw : Option Bytes → Error → Result Bytes
or_throw none e = thrown e
or_throw (some a) e = ok a

-- The part of Serialize that both branches of the payload share: version and address.
unfoldable pub addressed : Address → ChromeCastMessage
unfolding CastMessage.new_message EnumField.set StringField.set
addressed a = record CastMessage.new_message {
  protocol_version = EnumField.set CastMessage.castv2_1_0 CastMessage.new_message.protocol_version;
  source_id = StringField.set a.source CastMessage.new_message.source_id;
  destination_id = StringField.set a.destination CastMessage.new_message.destination_id;
  namespace = StringField.set a.namespace CastMessage.new_message.namespace;
}

unfoldable pub text_message : CastMessage → ChromeCastMessage
unfolding addressed EnumField.set StringField.set CastMessage.new_message
text_message m = record (addressed m.address) {
  payload_type = EnumField.set CastMessage.string CastMessage.new_message.payload_type;
  payload_utf8 = StringField.set m.payload_utf8 CastMessage.new_message.payload_utf8;
}

-- `set_payload_binary(&payload_binary[0], payload_binary.size())`
unfoldable pub binary_message : CastMessage → ChromeCastMessage
unfolding addressed EnumField.set StringField.set_pointer CastMessage.new_message
binary_message m = record (addressed m.address) {
  payload_type = EnumField.set CastMessage.binary CastMessage.new_message.payload_type;
  payload_binary =
      StringField.set_pointer m.payload_binary (length m.payload_binary)
        CastMessage.new_message.payload_binary;
}

-- The message that is built, by the type of the payload; every type but String goes as Binary.
build : Message.PayloadType → CastMessage → Result ChromeCastMessage
unfolding text_message binary_message
build Message.string m = ok (text_message m)
build _ m = elim m.payload_binary [
  | [] ↦ thrown (exception (codes "cannot send a empty binary message"))
  | _ ∷ _ ↦ ok (binary_message m)
]

-- `Serialize(buffer, true)`: the bytes that are put in the buffer
unfoldable pub save : MessageLite → CastMessage → Result Bytes
unfolding build or_throw
save lite m = do
  msg ← build m.payload_type m
  or_throw (lite.serialize_to_coded_stream msg) (exception (codes "could not store message"))

-- `static_cast<eProtocolVersion>`
abbrev cast_version : CastMessage.ProtocolVersion → Message.ProtocolVersion
cast_version CastMessage.castv2_1_0 = version_2_1_0

loaded_payload : ChromeCastMessage → CastMessage → CastMessage
loaded_payload msg m = elim msg.payload_type.value [
  | CastMessage.string ↦ record m {
    payload_type = Message.string;
    payload_utf8 = StringField.get msg.payload_utf8;
  }
  | CastMessage.binary ↦ record m {
    payload_type = Message.binary;
    payload_binary = StringField.get msg.payload_binary;
  }
]

loaded : ChromeCastMessage → CastMessage → CastMessage
unfolding loaded_payload
loaded msg m = loaded_payload msg (record m {
  protocol_version = cast_version msg.protocol_version.value;
  address = record {
    source = StringField.get msg.source_id;
    destination = StringField.get msg.destination_id;
    namespace = StringField.get msg.namespace;
  };
})

after_parse : Option ChromeCastMessage → CastMessage → Result CastMessage
unfolding loaded
after_parse none m = thrown (exception (codes "could not load message"))
after_parse (some msg) m = ok (loaded msg m)

-- `Serialize(buffer, false)`: the message after it
unfoldable pub load : MessageLite → Bytes → CastMessage → Result CastMessage
unfolding after_parse
load lite buffer m = after_parse (lite.parse_from_coded_stream buffer) m
