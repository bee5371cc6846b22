-- ===== src/Connection/Framing.antt =====
-- connection.h, connection.cpp: the packets of ChromecastConnection. AsyncWrite writes them;
-- StartReadingPacketLength, StartReadingData and StartReading read them, one completed
-- asynchronous read at a time; EnsureConnectionIsAlive stands between two reads.
pub mod BigEndian
pub mod RoundTrip
pub mod Writing
use libchromecast.Prelude.{
  ℕ, ◌+◌, ◌-◌, ◌%◌, ◌^◌, Bool, true, false, not, ◌||◌, List, [], ◌∷◌, ◌++◌, Bytes, codes, length,
  ◌==◌, if◌then◌else◌, to_string,
}
use libchromecast.Utils.{
  Error, Result, ok, thrown, Site, ErrorCode, failed, throw_on_error, throw_on_error_code, ◌>>=◌,
  ◌>>◌,
}
use libchromecast.Action.{Action}
use libchromecast.Cast.Address.{Address}
use libchromecast.Cast.Message.{CastMessage, PayloadType, version_2_1_0}
use libchromecast.Cast.Serialize.{MessageLite, save, load}
use BigEndian.{big_endian, from_big_endian}

-- ChromecastConnection::AsyncWrite, up to the asynchronous write: the size of the serialized
-- message as a `big_uint32_t`, and the message serialized once more.
unfoldable pub packet : MessageLite → CastMessage → Result Bytes
packet lite message = do
  message_buffer ← save lite message
  let packet_size = big_endian (length message_buffer % 2 ^ 32)
  serialized ← save lite message
  ok (packet_size ++ serialized)

abbrev write_site : ℕ → Site
write_site line = record {
  file = codes "connection.cpp";
  function = codes "chromecast::ChromecastConnection::AsyncWrite::<lambda>";
  line = line;
}

-- The handler of the write in AsyncWrite: `total_size` is a `uint32_t`.
unfoldable pub write_completed : Bytes → ErrorCode → ℕ → Result (Unit {0})
write_completed output_buffer error bytes_transferred = do
  let total_size = length output_buffer % 2 ^ 32
  throw_on_error_code error (write_site 204)
      (codes "failed to write packet data: " ++ error.message)
  throw_on_error (not (total_size == bytes_transferred)) (write_site 207) (
      codes "could only write "
      ++ (to_string bytes_transferred
          ++ (codes " out of " ++ (to_string total_size ++ codes " bytes"))))

-- What a read is for: `_current_packet.length` or `_current_packet.data`.
pub data Target : Type 0 where
  packet_length packet_data : Target

-- A pending asynchronous read: the bytes its buffer has from the reads before, and how many are
-- still wanted.
pub record Read : Type 0 where
  pub target : Target
  pub received : Bytes
  pub buffer_size : ℕ

-- A completed one: its error, the bytes transferred, and the error of the write that
-- EnsureConnectionIsAlive makes if it comes to that.
pub record Completion : Type 0 where
  pub error : ErrorCode
  pub transferred : Bytes
  pub alive : ErrorCode

-- No read is pending after an exception.
pub data Pending : Type 0 where
  reading : Read → Pending
  idle : Pending

-- The connection's reading side, over the state `S` of the rest of the program; `probes` are the
-- bytes that EnsureConnectionIsAlive has written between the packets.
pub record Reader (S : Type 0) : Type 0 where
  pub pending : Pending
  pub probes : Bytes
  pub rest : S

-- StartReadingPacketLength
unfoldable pub start_reading_packet_length : Pending
start_reading_packet_length =
    reading (record { target = packet_length; received = []; buffer_size = 4 })

-- StartReadingData, with a buffer of the packet's length
unfoldable pub start_reading_data : ℕ → Pending
start_reading_data n = reading (record { target = packet_data; received = []; buffer_size = n })

-- `CastMessage message;`: the default members, and a payload type that is not initialized.
abbrev pub new_cast_message : PayloadType → CastMessage
new_cast_message garbage = record {
  protocol_version = version_2_1_0;
  address = record { source = []; destination = []; namespace = [] };
  payload_type = garbage;
  payload_utf8 = [];
  payload_binary = [];
}

abbrev alive_site : Site
alive_site = record {
  file = codes "connection.cpp";
  function = codes "chromecast::TLSConnection::EnsureConnectionIsAlive";
  line = 100;
}

module _ {S : Type 0} (lite : MessageLite) (garbage : PayloadType)
    (on_message : CastMessage → Action S (Unit {0})) where
  -- What OnMessage leaves: the next packet is read only if it returned.
  delivered : Bytes → Result (Unit {0}) × S → Result (Unit {0}) × Reader S
  unfolding start_reading_packet_length
  delivered probes (ok _, s) =
      (ok tt, record { pending = start_reading_packet_length; probes = probes; rest = s })
  delivered probes (thrown e, s) = (thrown e, record { pending = idle; probes = probes; rest = s })

  receive : Bytes → S → Result CastMessage → Result (Unit {0}) × Reader S
  unfolding delivered
  receive probes s (ok message) = delivered probes (on_message message s)
  receive probes s (thrown e) = (thrown e, record { pending = idle; probes = probes; rest = s })

  -- The handler that StartReadingPacketLength or StartReadingData gives to StartReading.
  completed_reading : Target → Bytes → Bytes → S → Result (Unit {0}) × Reader S
  unfolding receive start_reading_data
  completed_reading packet_length buffer probes s = (
    ok tt,
    record { pending = start_reading_data (from_big_endian buffer); probes = probes; rest = s },
  )
  completed_reading packet_data buffer probes s =
      receive probes s (load lite buffer (new_cast_message garbage))

  -- EnsureConnectionIsAlive, and the read of what is missing: `buffer + bytes_transferred`,
  -- `buffer_size - bytes_transferred`. The write adds its zero byte if it succeeds.
  retry : Read → Completion → Reader S → Result (Unit {0}) × Reader S
  retry r c reader =
      if failed c.alive
      then (
        throw_on_error_code c.alive alive_site (codes "invalid application"),
        record reader { pending = idle },
      )
      else (
        ok tt,
        record reader {
          pending = reading (record r {
            received = r.received ++ c.transferred;
            buffer_size = r.buffer_size - length c.transferred;
          });
          probes = reader.probes ++ 0 ∷ [];
        },
      )

  -- The handler of StartReading.
  on_read : Pending → Completion → Reader S → Result (Unit {0}) × Reader S
  unfolding retry completed_reading
  on_read idle c reader = (ok tt, reader)
  on_read (reading r) c reader =
      if failed c.error || not (r.buffer_size == length c.transferred)
      then retry r c reader
      else completed_reading r.target (r.received ++ c.transferred) reader.probes reader.rest

  unfoldable pub step : Completion → Reader S → Result (Unit {0}) × Reader S
  unfolding on_read
  step c reader = on_read reader.pending c reader

  -- A history of completions, up to one whose handler throws.
  unfoldable pub run : List Completion → Reader S → Result (Unit {0}) × Reader S
  run [] reader = (ok tt, reader)
  run (c ∷ cs) reader =
      let (result, reader') = step c reader in
      elim result [ ok _ ↦ run cs reader' | thrown e ↦ (thrown e, reader') ]
