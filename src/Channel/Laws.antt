-- ===== src/Channel/Laws.antt =====
-- channel.cpp: what a channel does with a message, and what another one receives of it.
use libchromecast.Prelude.{
  true, not, ◌≡◌, ◌↔◌, ◌⊎◌, Bytes, str_eq, str_eq_sound, str_eq_refl, arith,
}
use libchromecast.Utils.{ok, throw_on_error}
use libchromecast.Action.{when, ◌>>=◌}
use libchromecast.Cast.Address.{wildcard}
use libchromecast.Cast.Message
use libchromecast.Cast.Message.{CastMessage, PayloadType}
use libchromecast.Channel.{base, handle, on_message, on_unhandled_message}

to_all : (d : Bytes) → (str_eq d wildcard ≡ true) ↔ (d ≡ wildcard)
to_all d = (str_eq_sound d wildcard, λ e. rw e (str_eq_refl wildcard))

by_type :
    {S : Type 0} (t : PayloadType) (message : CastMessage) (s : S)
    → ((handle base t message >>= λ handled. when (not handled) (on_unhandled_message message)) s
        ≡ (ok tt, s))
      ↔ ((message.address.destination ≡ wildcard) × ((t ≡ Message.string) ⊎ (t ≡ Message.binary)))
unfolding base handle on_unhandled_message throw_on_error
by_type Message.string message s = ground (arith, to_all message.address.destination)
by_type Message.binary message s = ground (arith, to_all message.address.destination)
by_type (Message.other_payload n) message s = ground (arith, to_all message.address.destination)

-- A channel that replaces no function throws on a message exactly if the message is for one
-- destination or its payload is neither text nor bytes.
pub on_message-base :
    {S : Type 0} (message : CastMessage) (s : S)
    → (on_message base message s ≡ (ok tt, s)) ↔ (
        (message.address.destination ≡ wildcard)
        × ((message.payload_type ≡ Message.string) ⊎ (message.payload_type ≡ Message.binary)))
unfolding on_message base
on_message-base message s = by_type message.payload_type message s
