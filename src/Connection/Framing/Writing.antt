-- ===== src/Connection/Framing/Writing.antt =====
-- connection.cpp: what the handler of a write accepts, and what the zero byte of
-- EnsureConnectionIsAlive does to the packet behind it.
use libchromecast.Prelude.{
  ℕ, ◌-◌, ◌/◌, ◌^◌, ◌<◌, ◌≡◌, ◌≢◌, refl, ◌++◌, ◌↔◌, false, [], ◌∷◌, Bytes, length, take, drop,
  ==_iff, arith,
}
use libchromecast.Utils.{ok, ErrorCode, failed, throw_on_error, throw_on_error_code}
use libchromecast.Action.{Action}
use libchromecast.Cast.Message.{CastMessage, PayloadType}
use libchromecast.Cast.Serialize.{MessageLite}
use libchromecast.Connection.Framing.{
  packet, write_completed, Read, Completion, reading, retry, on_read, step,
}
use libchromecast.Connection.Framing.BigEndian.{big_endian, from_big_endian}
use libchromecast.Connection.Framing.RoundTrip.{packet_header}

-- The handler of a write returns exactly if there is no error and every byte of the buffer, whose
-- size a `uint32_t` holds, is transferred; otherwise it throws.
pub write_completed-eq-ok :
    (buffer : Bytes) (error : ErrorCode) (n : ℕ)
    → length buffer < 2 ^ 32
    → (write_completed buffer error n ≡ ok tt) ↔ ((failed error ≡ false) × (n ≡ length buffer))
unfolding write_completed throw_on_error throw_on_error_code
write_completed-eq-ok buffer error n small = ground (arith, ==_iff (length buffer) n)

three : (bytes : Bytes) → take 3 bytes ≡ take 3 (take 4 bytes)
three [] = refl
three (_ ∷ []) = refl
three (_ ∷ _ ∷ []) = refl
three (_ ∷ _ ∷ _ ∷ rest) = refl

-- Behind a zero byte, the first four bytes of a packet give its size divided by 256.
from_big_endian-shifted :
    (lite : MessageLite) (message : CastMessage) (bytes : Bytes)
    → packet lite message ≡ ok bytes
    → length bytes < 2 ^ 32
    → from_big_endian (take 4 (0 ∷ bytes)) ≡ length (drop 4 bytes) / 256
unfolding from_big_endian big_endian
from_big_endian-shifted lite message bytes written small =
    let (small', header) = packet_header lite message bytes written small in
    rw (three bytes, header, from_big_endian) (omega arith)

-- A read that fails or does not fill its buffer, where the write of EnsureConnectionIsAlive
-- succeeds, puts a probe on the stream and reads on; to a peer, the first four bytes from that
-- probe on, a packet of fewer than 2^32 bytes that AsyncWrite writes standing behind it, give the
-- size of that packet divided by 256.
pub step-probe :
    {S : Type 0} (lite : MessageLite) (garbage : PayloadType)
    (on_message : CastMessage → Action S (Unit {0})) (r : Read) (c : Completion) (probes : Bytes)
    (s : S) (message : CastMessage) (bytes : Bytes)
    → (failed c.error ≡ false → r.buffer_size ≢ length c.transferred)
    → failed c.alive ≡ false
    → packet lite message ≡ ok bytes
    → length bytes < 2 ^ 32
    → (probe : Bytes) × (step lite garbage on_message c
          (record { pending = reading r; probes = probes; rest = s })
        ≡ (
          ok tt,
          record {
            pending = reading (record r {
              received = r.received ++ c.transferred;
              buffer_size = r.buffer_size - length c.transferred;
            });
            probes = probes ++ probe;
            rest = s;
          },
        ))
      × (from_big_endian (take 4 (probe ++ bytes)) ≡ length (drop 4 bytes) / 256)
unfolding step on_read retry
step-probe lite garbage on_message r c probes s message bytes incomplete alive written small = (
  0 ∷ [],
  ground (arith, ==_iff r.buffer_size (length c.transferred), incomplete, alive),
  from_big_endian-shifted lite message bytes written small,
)
