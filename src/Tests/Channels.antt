-- ===== src/Tests/Channels.antt =====
-- Connections with channels, and the examples of what is proved of them.
use libchromecast.Prelude.{
  ℕ, ◌≡◌, ◌↔◌, refl, arith, List, [], ◌∷◌, codes, some, str_compare, str_eq,
}
use mathlib.Core.List.{Mem}
use libchromecast.Utils.{ok}
use libchromecast.Cast.Address.{Address, wildcard, less, swap_ends}
use libchromecast.Cast.Address.Order.{IsPlain}
use libchromecast.Cast.Message.{CastMessage}
use libchromecast.Connection.Registry.{Channel, ChannelMap}
use libchromecast.Connection.Registry.Laws.{IsRegistry}
use libchromecast.Connection.Dispatch.{Handlers, on_message, on_unrecognized_address}
use libchromecast.Connection.Dispatch.Broadcast.{visit, on_message-broadcast}
use libchromecast.Connection.Dispatch.Unicast.{on_message-unicast}
use libchromecast.Tests.Messages.{text_message}

abbrev receiver_0 : Address
receiver_0 = record {
  source = codes "receiver-0";
  destination = codes "sender-0";
  namespace = codes "tp";
}

abbrev pub receiver_1 : Address
receiver_1 = record {
  source = codes "receiver-0";
  destination = codes "sender-1";
  namespace = codes "tp";
}

abbrev heartbeat : Channel
heartbeat = record {
  pointer = 5;
  address = record {
    source = codes "sender-0";
    destination = codes "receiver-0";
    namespace = codes "tp";
  };
}

abbrev pub one_channel : ChannelMap
one_channel = (receiver_1, some 6) ∷ []

abbrev two_channels : ChannelMap
two_channels = (receiver_0, some 5) ∷ (receiver_1, some 6) ∷ []

pub one_channel-IsRegistry : IsRegistry one_channel
unfolding str_compare
one_channel-IsRegistry = (λ e. cc, tt, tt)

two_channels-IsRegistry : IsRegistry two_channels
unfolding str_compare str_eq less
two_channels-IsRegistry = (λ e. cc, (refl, tt), (λ e. cc, tt, tt))

heartbeat-IsPlain : IsPlain (swap_ends heartbeat.address)
unfolding str_compare swap_ends
heartbeat-IsPlain = λ e. cc

-- A program that keeps the calls of its channels, the last one first.
record Program : Type 0 where
  channels : ChannelMap
  calls : List (ℕ × CastMessage)

abbrev handlers : Handlers Program
handlers = record {
  channels = λ s. s.channels;
  on_message = λ c m s. (ok tt, record s { calls = (c, m) ∷ s.calls });
  on_unrecognized_address = on_unrecognized_address;
}

abbrev broadcast_message : CastMessage
broadcast_message = record text_message {
  address = record { source = codes "receiver-0"; destination = wildcard; namespace = codes "tp" };
}

abbrev reply_message : CastMessage
reply_message = record text_message { address = receiver_0 }

abbrev program : Program
program = record { channels = two_channels; calls = [] }

on_message-broadcast_example :
    (cs : List ℕ) × (on_message handlers 3 broadcast_message program
      ≡ some (visit handlers broadcast_message cs program))
    × ((c : ℕ)
        → Mem c cs
          ↔ ∥ (
              (k : Address) × Mem (k, some c) two_channels
              × (k.namespace ≡ codes "tp")
              × (k.source ≡ codes "receiver-0")) ∥₁)
on_message-broadcast_example =
    on_message-broadcast handlers broadcast_message 3 program refl (λ c s. refl)
      two_channels-IsRegistry (λ e. cc, (λ e. cc, tt)) (omega arith)

on_message-unicast_example :
    ((c : ℕ)
      → Mem (receiver_0, some c) two_channels
      → on_message handlers 0 reply_message program
        ≡ some (handlers.on_message c reply_message program))
    × (((c : ℕ) → ¬ Mem (receiver_0, some c) two_channels)
        → on_message handlers 0 reply_message program
          ≡ some (handlers.on_unrecognized_address reply_message program))
unfolding str_compare
on_message-unicast_example =
    on_message-unicast handlers reply_message 0 program (λ e. cc) (λ e. cc) two_channels-IsRegistry
