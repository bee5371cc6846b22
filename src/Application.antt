-- ===== src/Application.antt =====
-- sender_application.h, sender_application.cpp: SenderApplication; connection_channel.h,
-- connection_channel.cpp: the ConnectionChannel that it makes by way of the factory, at a pointer
-- that is given. `send` is ChromecastChannel::Send of a text.
pub mod Laws
use libchromecast.Prelude.{ℕ, ◌++◌, Bytes, codes, to_string, Option, none, some}
use libchromecast.Utils.{Result, ok, thrown}
use libchromecast.Action.{Action}
use libchromecast.Cast.Address.{Address}
use libchromecast.Connection.Registry.{Channel, ChannelMap, register_channel, unregister_channel}
use libchromecast.Json.Library.{Rapidjson}
use libchromecast.Json.{message_text}
use libchromecast.Receiver.Messages.{ApplicationInfo}
use libchromecast.Receiver.Channel.Messages.{typed}

pub record SenderApplication : Type 0 where
  pub app_id : Bytes
  pub session_id : Bytes
  pub connection : Option Channel

-- The application, the connection's map of channels, and what Send acts on.
pub record State (S : Type 0) : Type 0 where
  pub application : SenderApplication
  pub channels : ChannelMap
  pub rest : S

-- ConnectionChannel's constructor: the channel with its namespace
unfoldable pub connection_channel : ℕ → Bytes → Bytes → Channel
connection_channel pointer sender receiver = record {
  pointer = pointer;
  address = record {
    source = sender;
    destination = receiver;
    namespace = codes "urn:x-cast:com.google.cast.tp.connection";
  };
}

module _ {S : Type 0} where
  abbrev with_channels : State S → Result ChannelMap → Result (Unit {0}) × State S
  with_channels s (ok m) = (ok tt, record s { channels = m })
  with_channels s (thrown e) = (thrown e, s)

  -- `_connection` is given another channel, or none: the one it had is destroyed.
  assign_connection : Option Channel → Option Channel → State S → Result (Unit {0}) × State S
  assign_connection none channel s =
      (ok tt, record s { application = record s.application { connection = channel } })
  assign_connection (some old) channel s =
      with_channels (record s { application = record s.application { connection = channel } })
        (unregister_channel old s.channels)

  created : Channel → Result ChannelMap → State S → Result (Unit {0}) × State S
  unfolding assign_connection
  created channel (thrown e) s = (thrown e, s)
  created channel (ok m) s =
      assign_connection s.application.connection (some channel) (record s { channels = m })

  -- SenderApplication::CreateChannels
  unfoldable pub create_channels : ℕ → Bytes → Bytes → State S → Result (Unit {0}) × State S
  unfolding created connection_channel
  create_channels pointer sender_id receiver_id s =
      let channel = connection_channel pointer sender_id receiver_id in
      created channel (register_channel channel s.channels) s

module _ {S V : Type 0} (json : Rapidjson V) (send : Channel → Bytes → Action S (Unit {0})) where
  send_type : Bytes → Channel → State S → Result (Unit {0}) × State S
  unfolding typed message_text
  send_type type channel s =
      let (result, rest) = send channel (message_text json (typed json type)) s.rest in
      (result, record s { rest = rest })

  -- ConnectionChannel::Connect and Close
  unfoldable pub connect : Channel → State S → Result (Unit {0}) × State S
  unfolding send_type
  connect = send_type (codes "CONNECT")

  unfoldable pub close : Channel → State S → Result (Unit {0}) × State S
  unfolding send_type
  close = send_type (codes "CLOSE")

  unfoldable pub initialized :
      ApplicationInfo → Channel → Result (Unit {0}) × State S → Result (Unit {0}) × State S
  unfolding connect
  initialized app_info channel (thrown e, s) = (thrown e, s)
  initialized app_info channel (ok _, s) =
      connect channel
        (record s { application = record s.application { session_id = app_info.session_id } })

  -- SenderApplication::Initialize, with the value of std::hash for the id
  unfoldable pub initialize : ℕ → ℕ → ApplicationInfo → State S → Result (Unit {0}) × State S
  unfolding initialized create_channels connection_channel
  initialize hash pointer app_info s =
      let sender_id = codes "sender_" ++ to_string hash in
      initialized app_info (connection_channel pointer sender_id app_info.transport_id)
        (create_channels pointer sender_id app_info.transport_id s)

  closed : Channel → Result (Unit {0}) × State S → Result (Unit {0}) × State S
  unfolding assign_connection
  closed channel (thrown e, s) = (thrown e, s)
  closed channel (ok _, s) = assign_connection (some channel) none s

  stopped : Option Channel → State S → Result (Unit {0}) × State S
  unfolding closed close
  stopped none s = (ok tt, s)
  stopped (some channel) s = closed channel (close channel s)

  -- SenderApplication::OnStopped
  unfoldable pub on_stopped : State S → Result (Unit {0}) × State S
  unfolding stopped
  on_stopped s = stopped s.application.connection s
