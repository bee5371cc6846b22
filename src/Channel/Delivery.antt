-- ===== src/Channel/Delivery.antt =====
-- channel.cpp, connection.cpp, cast_message.cpp: a text from Send of a channel to the bytes of the
-- connection and back to a message.
use libchromecast.Prelude.{◌%◌, ◌^◌, ◌<◌, ◌≡◌, refl, ◌++◌, Bytes, length, drop}
use libchromecast.Utils.{Result, ok, thrown}
use libchromecast.Action.{Action}
use libchromecast.Cast.Address.{Address}
use libchromecast.Cast.Message
use libchromecast.Cast.Message.{CastMessage, PayloadType, version_2_1_0}
use libchromecast.Cast.Serialize.{MessageLite, IsMessageLite, total_bytes_limit, text_message, load}
use libchromecast.Cast.Serialize.RoundTrip.{Fits, load-save_text}
use libchromecast.Proto.Runtime.{WireFormat, IsWireFormat}
use libchromecast.Proto.CastMessage.Serialize.{serialize_with_cached_sizes}
use libchromecast.Connection.Framing.{packet, new_cast_message}
use libchromecast.Connection.Framing.BigEndian.{big_endian}
use libchromecast.Channel.{base, send, send_text}

-- AsyncWrite of the connection, where the state is the bytes that it was given so far.
-- Its completion is write_completed of Connection/Framing.
write_bytes : Result Bytes → Action Bytes (Unit {0})
write_bytes (ok bytes) written = (ok tt, written ++ bytes)
write_bytes (thrown e) written = (thrown e, written)

unfoldable pub async_write : MessageLite → CastMessage → Action Bytes (Unit {0})
unfolding write_bytes
async_write lite message written = write_bytes (packet lite message) written

-- The message that Send of a text makes.
abbrev pub outgoing : Address → PayloadType → Bytes → CastMessage
outgoing address garbage text = record (new_cast_message garbage) {
  address = address;
  payload_type = Message.string;
  payload_utf8 = text;
}

module _ (w : WireFormat) (format : IsWireFormat w) (lite : MessageLite)
    (law : IsMessageLite w lite) where
  -- Send of a text, on a channel that does not replace OnSending and whose ids and text are
  -- shorter than 2^31 bytes and make a serialized message below 64 megabytes, the default limit of
  -- the stream that it is read from, returns and adds one packet to what was written; what stands
  -- behind the header of that packet can be loaded into any message, which then has the channel's
  -- address and the text, and keeps its own binary payload.
  pub load-send_text :
      (address : Address) (garbage : PayloadType) (text written : Bytes) (m : CastMessage)
      → Fits address
      → length text < 2 ^ 31
      → length (serialize_with_cached_sizes w (text_message (outgoing address garbage text)))
        < total_bytes_limit
      → (bytes : Bytes) × (send_text base (async_write lite) address garbage text written
          ≡ (ok tt, written ++ bytes))
        × (load lite (drop 4 bytes) m
            ≡ ok (record m {
              protocol_version = version_2_1_0;
              address = address;
              payload_type = Message.string;
              payload_utf8 = text;
            }))
  unfolding send_text send base async_write write_bytes packet big_endian
  load-send_text address garbage text written m fits short within =
      let message = outgoing address garbage text in
      let (buffer, saved, loaded) =
        load-save_text w format lite law message m refl fits short within in
      (big_endian (length buffer % 2 ^ 32) ++ buffer, rw (async_write, packet, saved) refl, loaded)
