-- ===== src/Cast/Serialize/RoundTrip.antt =====
-- cast_message.cpp: what CastMessage::Serialize saves it also loads.
use libchromecast.Prelude.{
  suc, ◌^◌, ◌<◌, ◌≡◌, ◌≢◌, refl, ◌∙◌, ◌≤◌, true, [], ◌∷◌, Bytes, codes, some, length, take, arith,
  ap,
}
use libchromecast.Utils.{exception, ok, thrown}
use libchromecast.Cast.Address.{Address}
use libchromecast.Cast.Message
use libchromecast.Cast.Message.{CastMessage, version_2_1_0}
use libchromecast.Proto.Runtime.{WireFormat, IsWireFormat}
use libchromecast.Proto.CastMessage
use libchromecast.Proto.CastMessage.{CastMessage as ChromeCastMessage}
use libchromecast.Proto.CastMessage.Serialize.{serialize_with_cached_sizes}
use libchromecast.Proto.CastMessage.Parse.Tails.{IsShort}
use libchromecast.Proto.CastMessage.Parse.RoundTrip.{parse-serialize}
use libchromecast.Cast.Serialize.{
  MessageLite, IsMessageLite, total_bytes_limit, text_message, binary_message, build, save, loaded,
  load,
}

-- The ids are within the limit of the wire format.
pub record Fits (a : Address) : Type 0 where
  pub source : length a.source < 2 ^ 31
  pub destination : length a.destination < 2 ^ 31
  pub namespace : length a.namespace < 2 ^ 31

take_all : (s : Bytes) → take (length s) s ≡ s
take_all [] = refl
take_all (x ∷ s) = ap (◌∷◌ x) (take_all s)

module _ (w : WireFormat) (format : IsWireFormat w) (lite : MessageLite)
    (law : IsMessageLite w lite) where
  -- A message that the library accepts comes back from its bytes as MergeFrom makes a new one.
  parsed :
      (msg : ChromeCastMessage)
      → msg.unknown_fields ≡ []
      → IsShort msg
      → length (serialize_with_cached_sizes w msg) < total_bytes_limit
      → CastMessage.is_initialized (CastMessage.merge_from msg CastMessage.new_message) ≡ true
      → lite.parse_from_coded_stream (serialize_with_cached_sizes w msg)
        ≡ some (CastMessage.merge_from msg CastMessage.new_message)
  parsed msg e short within initialized =
      let bytes = serialize_with_cached_sizes w msg in
      law.parse-eq bytes within
      ∙ rw
          (
            parse-serialize w format msg CastMessage.new_message (suc (length bytes)) e short
                (omega arith),
            initialized,
          )
          refl

  text_parsed :
      (m : CastMessage)
      → Fits m.address
      → length m.payload_utf8 < 2 ^ 31
      → length (serialize_with_cached_sizes w (text_message m)) < total_bytes_limit
      → lite.parse_from_coded_stream (serialize_with_cached_sizes w (text_message m))
        ≡ some (CastMessage.merge_from (text_message m) CastMessage.new_message)
  unfolding text_message CastMessage.is_initialized CastMessage.merge_from
  text_parsed m fits short within =
      parsed (text_message m) refl
        (record {
          source_id = fits.source;
          destination_id = fits.destination;
          namespace = fits.namespace;
          payload_utf8 = short;
          payload_binary = omega arith;
        })
        within refl

  -- A text message whose ids and text are shorter than 2^31 bytes and whose serialized form stays
  -- below 64 megabytes, the default limit of the stream that it is read from, is saved, and its
  -- bytes can be loaded into any message, which then has its address and its text, the version
  -- 2.1.0 and the type String, and keeps its own binary payload.
  pub load-save_text :
      (m m' : CastMessage)
      → m.payload_type ≡ Message.string
      → Fits m.address
      → length m.payload_utf8 < 2 ^ 31
      → length (serialize_with_cached_sizes w (text_message m)) < total_bytes_limit
      → (buffer : Bytes) × (save lite m ≡ ok buffer)
        × (load lite buffer m'
            ≡ ok (record m' {
              protocol_version = version_2_1_0;
              address = m.address;
              payload_type = Message.string;
              payload_utf8 = m.payload_utf8;
            }))
  unfolding save load text_message loaded CastMessage.is_initialized CastMessage.merge_from
  load-save_text m m' text fits short within = (
    serialize_with_cached_sizes w (text_message m),
    rw (ap (λ t. build t m) text, law.serialize_initialized (text_message m) refl (omega arith)),
    rw (text_parsed m fits short within),
  )

  -- A text message whose serialized form takes 2^31 bytes or more is not saved.
  save_too_long :
      (m : CastMessage)
      → m.payload_type ≡ Message.string
      → 2 ^ 31 ≤ length (serialize_with_cached_sizes w (text_message m))
      → save lite m ≡ thrown (exception (codes "could not store message"))
  unfolding save build
  save_too_long m text long =
      rw (ap (λ t. build t m) text, law.serialize_too_long (text_message m) long) refl

  binary_parsed :
      (m : CastMessage)
      → Fits m.address
      → length m.payload_binary < 2 ^ 31
      → length (serialize_with_cached_sizes w (binary_message m)) < total_bytes_limit
      → lite.parse_from_coded_stream (serialize_with_cached_sizes w (binary_message m))
        ≡ some (CastMessage.merge_from (binary_message m) CastMessage.new_message)
  unfolding binary_message CastMessage.is_initialized CastMessage.merge_from
  binary_parsed m fits short within =
      parsed (binary_message m) refl
        (record {
          source_id = fits.source;
          destination_id = fits.destination;
          namespace = fits.namespace;
          payload_utf8 = omega arith;
          payload_binary = omega (arith, ap length (take_all m.payload_binary));
        })
        within refl

  build_binary :
      (t : Message.PayloadType) (m : CastMessage)
      → t ≢ Message.string
      → m.payload_binary ≢ []
      → build t m ≡ ok (binary_message m)
  unfolding build
  build_binary Message.string m ne some_bytes = absurd (ne refl)
  build_binary _ m ne some_bytes = ground arith

  -- A message of any other type whose binary payload is not empty, its ids and that payload
  -- shorter than 2^31 bytes and its serialized form below 64 megabytes, the default limit of the
  -- stream that it is read from, is saved as a binary one: its bytes can be loaded into any
  -- message, which then has its address and its bytes, the version 2.1.0 and the type Binary, and
  -- keeps its own text.
  pub load-save_binary :
      (m m' : CastMessage)
      → m.payload_type ≢ Message.string
      → m.payload_binary ≢ []
      → Fits m.address
      → length m.payload_binary < 2 ^ 31
      → length (serialize_with_cached_sizes w (binary_message m)) < total_bytes_limit
      → (buffer : Bytes) × (save lite m ≡ ok buffer)
        × (load lite buffer m'
            ≡ ok (record m' {
              protocol_version = version_2_1_0;
              address = m.address;
              payload_type = Message.binary;
              payload_binary = m.payload_binary;
            }))
  unfolding save load binary_message loaded CastMessage.is_initialized CastMessage.merge_from
  load-save_binary m m' not_text some_bytes fits short within = (
    serialize_with_cached_sizes w (binary_message m),
    rw (
      build_binary m.payload_type m not_text some_bytes,
      law.serialize_initialized (binary_message m) refl (omega arith),
    ),
    rw (binary_parsed m fits short within, take_all m.payload_binary),
  )
