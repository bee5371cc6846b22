-- ===== src/Media/Player/Laws.antt =====
-- default_media_player.h: what OnStopped leaves of a media player.
use libchromecast.Prelude.{
  ℕ, ◌≡◌, ◌≢◌, refl, ap, ◌∙◌, Bool, true, false, ◌++◌, Bytes, codes, to_string, str_eq, Option,
  none, some, arith,
}
use libchromecast.Utils.{Error, runtime_error, Result, ok, thrown}
use libchromecast.Action.{Action, ◌>>=◌}
use libchromecast.Cast.Address.{swap_ends}
use libchromecast.Cast.Address.Order.{IsPlain}
use libchromecast.Connection.Registry.{Channel, register_channel}
use libchromecast.Connection.Registry.Laws.{
  IsRegistry, lookup, register_channel-throws_iff, unregister_channel-Updates,
}
use libchromecast.Receiver.Messages.{ApplicationInfo}
use libchromecast.Application.{connection_channel, create_channels}
use libchromecast.Media.{Media, Libraries}
use libchromecast.Media.Channel
use libchromecast.Media.Channel.{MediaChannel}
use libchromecast.Media.Player
use libchromecast.Media.Player.{
  on_base, with_channels, MediaPlayer, media_channel, on_stopped, on_media, load, play, pause, stop,
  seek, initialize, destroy,
}

namespaces_ne :
    codes "urn:x-cast:com.google.cast.tp.connection" ≢ codes "urn:x-cast:com.google.cast.media"
unfolding str_eq
namespaces_ne e =
    let wrong : false ≡ true = ap (λ s. str_eq s (codes "urn:x-cast:com.google.cast.media")) e in cc

module _ {K V D S : Type 0} where
  on_stopped-media_channel : (p : MediaPlayer K V D S) → (on_stopped p).1.media_channel ≡ none
  unfolding on_stopped destroy
  on_stopped-media_channel p = ground arith

  on_media-missing :
      (f : Channel → MediaChannel K V D S → Result (Unit {0}) × MediaChannel K V D S)
      (p : MediaPlayer K V D S)
      → p.media_channel ≡ none
      → on_media f p ≡ (thrown (runtime_error (codes "missing media channel")), p)
  unfolding on_media
  on_media-missing f p h = rw h refl

  missing :
      (f : Channel → MediaChannel K V D S → Result (Unit {0}) × MediaChannel K V D S)
      (p : MediaPlayer K V D S)
      → on_media f (on_stopped p).1
        ≡ (thrown (runtime_error (codes "missing media channel")), (on_stopped p).1)
  missing f p = on_media-missing f (on_stopped p).1 (on_stopped-media_channel p)

-- The functions of a media player that use its media channel
pub data Command (K D : Type 0) : Type 0 where
  do_load : Media D → Bool → Option K → Command K D
  do_play do_pause do_stop : Option K → Command K D
  do_seek : ℕ → Option K → Command K D

module _ {K V D S : Type 0} (libraries : Libraries V D)
    (send : Channel → Bytes → Action S (Unit {0})) where
  abbrev pub run : Command K D → Action (MediaPlayer K V D S) (Unit {0})
  run (do_load media autoplay callback) = load libraries send media autoplay callback
  run (do_play callback) = play libraries send callback
  run (do_pause callback) = pause libraries send callback
  run (do_stop callback) = stop libraries send callback
  run (do_seek n callback) = seek libraries send n callback

  -- After OnStopped every command throws and changes nothing.
  pub run-on_stopped :
      (command : Command K D) (p : MediaPlayer K V D S)
      → run command (on_stopped p).1
        ≡ (thrown (runtime_error (codes "missing media channel")), (on_stopped p).1)
  unfolding load play pause stop seek
  run-on_stopped (do_load media autoplay callback) p =
      missing (λ channel. Channel.load libraries (send channel) media autoplay callback) p
  run-on_stopped (do_play callback) p =
      missing (λ channel. Channel.play libraries (send channel) callback) p
  run-on_stopped (do_pause callback) p =
      missing (λ channel. Channel.pause libraries (send channel) callback) p
  run-on_stopped (do_stop callback) p =
      missing (λ channel. Channel.stop libraries (send channel) callback) p
  run-on_stopped (do_seek n callback) p =
      missing (λ channel. Channel.seek libraries (send channel) n callback) p

  initialize_taken :
      (hash pointer media_pointer next_id : ℕ) (app_info : ApplicationInfo) (on_status : K)
      (p : MediaPlayer K V D S) (e : Error)
      → register_channel
          (connection_channel pointer (codes "sender_" ++ to_string hash) app_info.transport_id)
          p.base.channels
        ≡ thrown e
      → (initialize libraries send hash pointer media_pointer next_id app_info on_status p).0
        ≡ thrown e
  unfolding initialize Player.create_channels create_channels
  initialize_taken hash pointer media_pointer next_id app_info on_status p e throws =
      let refused : create_channels pointer (codes "sender_" ++ to_string hash)
            app_info.transport_id p.base
          ≡ (thrown e, p.base) =
        rw (create_channels, throws) refl in
      rw (initialize, ◌>>=◌, Player.create_channels, refused) refl

  -- OnStopped of a player whose media channel is registered in a valid map removes that channel,
  -- and leaves the application as it is: nothing is sent, and the connection channel stays
  -- registered, so that Initialize for the same receiver throws.
  pub initialize-on_stopped :
      (hash pointer media_pointer next_id old : ℕ) (sender_id receiver_id : Bytes)
      (app_info : ApplicationInfo) (on_status : K) (media : MediaChannel K V D S)
      (p : MediaPlayer K V D S) (c : Option ℕ) (q : Option ℕ)
      → let channel = media_channel old sender_id receiver_id in
        let connection =
          connection_channel pointer (codes "sender_" ++ to_string hash) app_info.transport_id in
        p.media_channel ≡ some (channel, media)
        → IsRegistry p.base.channels
        → IsPlain (swap_ends channel.address)
        → lookup (swap_ends channel.address) p.base.channels ≡ some q
        → IsPlain (swap_ends connection.address)
        → lookup (swap_ends connection.address) p.base.channels ≡ some c
        → let (result, p') = on_stopped p in
          (result ≡ ok tt)
          × (lookup (swap_ends channel.address) p'.base.channels ≡ none)
          × (lookup (swap_ends connection.address) p'.base.channels ≡ some c)
          × (p'.base.application ≡ p.base.application)
          × (p'.base.rest ≡ p.base.rest)
          × (e : Error) × ((initialize libraries send hash pointer media_pointer next_id app_info
                on_status p').0
              ≡ thrown e)
  unfolding on_stopped destroy media_channel connection_channel swap_ends
  initialize-on_stopped hash pointer media_pointer next_id old sender_id receiver_id app_info
        on_status media p c q there valid plain there' plain' there'' =
      let channel = media_channel old sender_id receiver_id in
      let connection =
        connection_channel pointer (codes "sender_" ++ to_string hash) app_info.transport_id in
      let (m, unregistered, updates) =
        unregister_channel-Updates channel p.base.channels q plain valid there' in
      let stays : lookup (swap_ends connection.address) m ≡ some c =
        updates.elsewhere (swap_ends connection.address) plain'
          (λ same. namespaces_ne (ap (λ a. a.namespace) same))
        ∙ there'' in
      let (e, throws) = (register_channel-throws_iff connection m).1 (λ free. cc) in
      rw (on_stopped, there, unregistered)
        (
          refl,
          updates.here,
          stays,
          refl,
          refl,
          e,
          initialize_taken hash pointer media_pointer next_id app_info on_status
              (with_channels m (record p { media_channel = none })) e throws,
        )
