-- ===== src/Tests/Deliveries.antt =====
-- A text that a channel sends, from Send to the message that is read.
use libchromecast.Prelude.{◌≡◌, arith, [], ◌++◌, Bytes, codes, drop}
use libchromecast.Utils.{ok}
use libchromecast.Cast.Message
use libchromecast.Cast.Message.{version_2_1_0}
use libchromecast.Cast.Serialize
use libchromecast.Cast.Serialize.{load}
use libchromecast.Channel.{base, send_text}
use libchromecast.Channel.Delivery.{async_write, load-send_text}
use libchromecast.Proto.CastMessage.Serialize.{serialize_with_cached_sizes}
use libchromecast.Tests.Codec.{codec, codec-IsWireFormat, lite, lite-IsMessageLite}
use libchromecast.Tests.Messages.{sender_address, binary_message}

load-send_text_example :
    (bytes : Bytes) × (send_text base
        (async_write lite)
        sender_address
        Message.binary
        (codes "PING")
        []
      ≡ (ok tt, [] ++ bytes))
    × (load lite (drop 4 bytes) binary_message
        ≡ ok (record binary_message {
          protocol_version = version_2_1_0;
          address = sender_address;
          payload_type = Message.string;
          payload_utf8 = codes "PING";
        }))
unfolding serialize_with_cached_sizes Serialize.text_message
load-send_text_example =
    load-send_text codec codec-IsWireFormat lite lite-IsMessageLite sender_address Message.binary
      (codes "PING") [] binary_message
      (record { source = omega arith; destination = omega arith; namespace = omega arith })
      (omega arith) (omega arith)
