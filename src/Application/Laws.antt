-- ===== src/Application/Laws.antt =====
-- sender_application.cpp: an application that is initialized and stopped leaves no channel.
use libchromecast.Prelude.{ℕ, ◌≡◌, refl, ap, ◌++◌, Bytes, codes, to_string, none, some}
use libchromecast.Utils.{ok}
use libchromecast.Action.{Action}
use libchromecast.Cast.Address.{swap_ends}
use libchromecast.Cast.Address.Order.{IsPlain}
use libchromecast.Connection.Registry.{Channel, ChannelMap, register_channel, unregister_channel}
use libchromecast.Connection.Registry.Laws.{
  IsRegistry, lookup, register_channel-Updates, unregister-register_channel,
}
use libchromecast.Json.Library.{Rapidjson}
use libchromecast.Json.{message_text}
use libchromecast.Receiver.Channel.Messages.{typed}
use libchromecast.Receiver.Messages.{ApplicationInfo}
use libchromecast.Application.{
  State, connection_channel, create_channels, created, assign_connection, send_type, connect, close,
  initialized, initialize, closed, stopped, on_stopped,
}

module _ {S V : Type 0} (json : Rapidjson V) (send : Channel → Bytes → Action S (Unit {0})) where
  -- The state that Initialize leaves then.
  abbrev after_initialize : Channel → ChannelMap → ApplicationInfo → State S → State S
  after_initialize channel m app_info s = record {
    application = record s.application {
      session_id = app_info.session_id;
      connection = some channel;
    };
    channels = m;
    rest = (send channel (message_text json (typed json (codes "CONNECT"))) s.rest).1;
  }

  initialize_lem :
      (hash pointer : ℕ) (app_info : ApplicationInfo) (s : State S) (m : ChannelMap)
      → let channel =
          connection_channel pointer (codes "sender_" ++ to_string hash) app_info.transport_id in
        s.application.connection ≡ none
        → register_channel channel s.channels ≡ ok m
        → ((c : Channel) (text : Bytes) (x : S) → (send c text x).0 ≡ ok tt)
        → initialize json send hash pointer app_info s
          ≡ (ok tt, after_initialize channel m app_info s)
  unfolding initialize initialized create_channels created assign_connection connect send_type
  initialize_lem hash pointer app_info s m unset registered sends =
      let channel =
        connection_channel pointer (codes "sender_" ++ to_string hash) app_info.transport_id in
      rw (initialize, create_channels, registered, created, unset)
        (ap (λ r. (r, after_initialize channel m app_info s))
          (sends channel (message_text json (typed json (codes "CONNECT"))) s.rest))

  on_stopped_lem :
      (channel : Channel) (m : ChannelMap) (s : State S)
      → s.application.connection ≡ some channel
      → unregister_channel channel s.channels ≡ ok m
      → ((c : Channel) (text : Bytes) (x : S) → (send c text x).0 ≡ ok tt)
      → ((on_stopped json send s).0 ≡ ok tt)
        × ((on_stopped json send s).1.application.connection ≡ none)
        × ((on_stopped json send s).1.channels ≡ m)
  unfolding on_stopped stopped closed close send_type assign_connection
  on_stopped_lem channel m s set unregistered sends =
      let text = message_text json (typed json (codes "CLOSE")) in
      rw (on_stopped, set, close, send_type, sends channel text s.rest, closed, unregistered)
        (refl, refl, refl)

  -- An application without a channel, whose channel's address is free in a valid map and does not
  -- sort before the wildcard, is initialized where Send always returns: its channel is registered
  -- and its session kept. When it is stopped then, the map of channels is the one before, the
  -- channel is gone, and neither call throws.
  pub on_stopped-initialize :
      (hash pointer : ℕ) (app_info : ApplicationInfo) (s : State S)
      → let channel =
          connection_channel pointer (codes "sender_" ++ to_string hash) app_info.transport_id in
        s.application.connection ≡ none
        → IsPlain (swap_ends channel.address)
        → IsRegistry s.channels
        → lookup (swap_ends channel.address) s.channels ≡ none
        → ((c : Channel) (text : Bytes) (x : S) → (send c text x).0 ≡ ok tt)
        → let (result, s') = initialize json send hash pointer app_info s in
          let (result', s'') = on_stopped json send s' in
          (result ≡ ok tt)
          × (s'.application.connection ≡ some channel)
          × (lookup (swap_ends channel.address) s'.channels ≡ some (some pointer))
          × (s'.application.session_id ≡ app_info.session_id)
          × (result' ≡ ok tt)
          × (s''.application.connection ≡ none)
          × (s''.channels ≡ s.channels)
  unfolding initialize initialized create_channels created assign_connection connect close send_type
      on_stopped stopped closed
  on_stopped-initialize hash pointer app_info s unset plain valid free sends =
      let channel =
        connection_channel pointer (codes "sender_" ++ to_string hash) app_info.transport_id in
      let (m', registered, updates) =
        register_channel-Updates channel s.channels plain valid free in
      let back = unregister-register_channel channel s.channels m' plain valid registered in
      let s' = after_initialize channel m' app_info s in
      let (returned, gone, restored) = on_stopped_lem channel s.channels s' refl back sends in
      rw (initialize_lem hash pointer app_info s m' unset registered sends)
        (refl, refl, updates.here, refl, returned, gone, restored)
