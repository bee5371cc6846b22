-- ===== src/Tests/Frames.antt =====
-- Packets in pieces, and the examples of what is proved of them.
use libchromecast.Prelude.{
  ◌/◌, ◌≡◌, refl, arith, List, [], ◌∷◌, ◌++◌, Bytes, codes, length, take, drop,
}
use libchromecast.Utils.{Result, ok, ErrorCode}
use libchromecast.Action.{Action}
use libchromecast.Cast.Message
use libchromecast.Cast.Message.{CastMessage, version_2_1_0}
use libchromecast.Cast.Serialize
use libchromecast.Cast.Serialize.{save, load}
use libchromecast.Cast.Serialize.RoundTrip.{load-save_text}
use libchromecast.Proto.CastMessage
use libchromecast.Proto.CastMessage.Serialize.{serialize_with_cached_sizes}
use libchromecast.Connection.Framing.{
  packet, Completion, start_reading_packet_length, new_cast_message, run,
}
use libchromecast.Connection.Framing.BigEndian.{
  big_endian, from_big_endian, from_big_endian-big_endian,
}
use libchromecast.Connection.Framing.{Read, packet_length, reading, step}
use libchromecast.Connection.Framing.RoundTrip.{whole, partial, waiting, run-packet}
use libchromecast.Connection.Framing.Writing.{step-probe}
use libchromecast.Tests.Codec.{codec, codec-IsWireFormat, lite, lite-IsMessageLite}

-- A small message: its packet is 21 bytes long in the format of the tests.
abbrev message : CastMessage
message = record {
  protocol_version = version_2_1_0;
  address = record { source = codes "s"; destination = codes "d"; namespace = codes "n" };
  payload_type = Message.string;
  payload_utf8 = codes "hi";
  payload_binary = [];
}

-- It is recorded by a channel that keeps the messages of the connection.
abbrev record_message : CastMessage → Action (List CastMessage) (Unit {0})
record_message m s = (ok tt, m ∷ s)

abbrev packet_bytes : Bytes
packet_bytes =
    0 ∷ 0 ∷ 0 ∷ 17 ∷ 8 ∷ 0 ∷ 18 ∷ 1 ∷ 115 ∷ 26 ∷ 1 ∷ 100 ∷ 34 ∷ 1 ∷ 110 ∷ 40 ∷ 0 ∷ 50 ∷ 2 ∷ 104
    ∷ 105 ∷ []

packet_bytes_lem : packet lite message ≡ ok packet_bytes
unfolding packet save serialize_with_cached_sizes big_endian CastMessage.is_initialized
packet_bytes_lem = refl

saved_bytes : save lite message ≡ ok (drop 4 packet_bytes)
unfolding save serialize_with_cached_sizes CastMessage.is_initialized
saved_bytes = refl

loads_back : load lite (drop 4 packet_bytes) (new_cast_message Message.binary) ≡ ok message
unfolding serialize_with_cached_sizes Serialize.text_message
loads_back =
    let (buffer, saved, loaded) =
      load-save_text codec codec-IsWireFormat lite lite-IsMessageLite message
        (new_cast_message Message.binary) refl
        (record { source = omega arith; destination = omega arith; namespace = omega arith })
        (omega arith) (omega arith) in
    cc (saved, loaded, saved_bytes)

abbrev no_error : ErrorCode
no_error = record { value = 0; message = [] }

abbrev try_again : ErrorCode
try_again = record { value = 11; message = codes "try again" }

-- The header comes in two pieces, the rest in three.
abbrev header_reads : List Completion
header_reads =
    record { error = try_again; transferred = 0 ∷ 0 ∷ []; alive = no_error }
    ∷ record { error = no_error; transferred = 0 ∷ 17 ∷ []; alive = no_error }
    ∷ []

abbrev data_reads : List Completion
data_reads =
    record { error = try_again; transferred = 8 ∷ 0 ∷ 18 ∷ []; alive = no_error }
    ∷ record { error = try_again; transferred = []; alive = no_error }
    ∷ record { error = no_error; transferred = drop 7 packet_bytes; alive = no_error }
    ∷ []

run-packet_example :
    (run lite Message.binary record_message
        (header_reads ++ data_reads)
        (waiting lite Message.binary record_message [] [])).0
      ≡ ok tt
    × ((run lite Message.binary record_message
          (header_reads ++ data_reads)
          (waiting lite Message.binary record_message [] [])).1.rest
        ≡ message ∷ [])
    × (◌≡◌ {A = Result (Unit {0})} (ok tt) (ok tt)
        → (run lite Message.binary record_message
            (header_reads ++ data_reads)
            (waiting lite Message.binary record_message [] [])).1.pending
          ≡ start_reading_packet_length)
run-packet_example =
    run-packet lite Message.binary record_message message message packet_bytes header_reads
      data_reads [] [] packet_bytes_lem (omega arith) loads_back
      (partial _ refl refl (whole _ refl))
      (partial _ refl refl (partial _ refl refl (whole _ refl)))

abbrev half_header : Read
half_header = record { target = packet_length; received = []; buffer_size = 4 }

abbrev cut_off : Completion
cut_off = record {
  error = record { value = 2; message = codes "cut" };
  transferred = 0 ∷ 0 ∷ [];
  alive = no_error;
}

step-probe_example :
    (probe : Bytes) × (step lite Message.binary record_message cut_off
        (record { pending = reading half_header; probes = []; rest = [] })
      ≡ (
        ok tt,
        record {
          pending = reading (record half_header { received = 0 ∷ 0 ∷ []; buffer_size = 2 });
          probes = [] ++ probe;
          rest = [];
        },
      ))
    × (from_big_endian (take 4 (probe ++ packet_bytes)) ≡ length (drop 4 packet_bytes) / 256)
step-probe_example =
    step-probe lite Message.binary record_message half_header cut_off [] [] message packet_bytes
      (λ e. cc) refl packet_bytes_lem (omega arith)

from_big_endian-big_endian_example : from_big_endian (big_endian 66051) ≡ 66051
from_big_endian-big_endian_example = from_big_endian-big_endian 66051 (omega arith)
