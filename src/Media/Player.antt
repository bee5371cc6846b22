-- ===== src/Media/Player.antt =====
-- default_media_player.h: DefaultMediaPlayer, a SenderApplication with a media channel that the
-- factory makes at a pointer that is given. The channel's requests act on what the application's
-- Send acts on; `next_id` is the last id of a request so far, which all channels share.
pub mod Laws
use libchromecast.Prelude.{
  ℕ, Bool, true, false, [], ◌∷◌, ◌++◌, Bytes, codes, to_string, Option, none, some, if◌then◌else◌,
}
use libchromecast.Utils.{runtime_error, Result, ok, thrown}
use libchromecast.Action.{Action, modify, ◌>>=◌, ◌>>◌}
use libchromecast.Connection.Registry.{Channel, ChannelMap, register_channel, unregister_channel}
use libchromecast.Receiver.Messages.{ApplicationInfo}
use libchromecast.Application
use libchromecast.Application.{State, connection_channel, initialized}
use libchromecast.Media.{Media, Libraries}
use libchromecast.Media.Status.{new_status}
use libchromecast.Media.Channel
use libchromecast.Media.Channel.{MediaChannel}

pub record MediaPlayer (K V D S : Type 0) : Type 0 where
  pub sender_id : Bytes
  pub base : State S
  pub media_channel : Option (Channel × MediaChannel K V D S)

-- MediaChannel's constructor: the channel with its namespace
unfoldable pub media_channel : ℕ → Bytes → Bytes → Channel
media_channel pointer sender_id receiver_id = record {
  pointer = pointer;
  address = record {
    source = sender_id;
    destination = receiver_id;
    namespace = codes "urn:x-cast:com.google.cast.media";
  };
}

abbrev or_given : Bytes → Bytes → Bytes
or_given [] sender_id = sender_id
or_given (c ∷ own) sender_id = c ∷ own

module _ {K V D S : Type 0} where
  abbrev on_base : Action (State S) (Unit {0}) → Action (MediaPlayer K V D S) (Unit {0})
  on_base f p = let (result, base) = f p.base in (result, record p { base = base })

  abbrev with_channels : ChannelMap → MediaPlayer K V D S → MediaPlayer K V D S
  with_channels m p = record p { base = record p.base { channels = m } }

  unregistered : Result ChannelMap → Action (MediaPlayer K V D S) (Unit {0})
  unregistered (thrown e) p = (thrown e, p)
  unregistered (ok m) p = (ok tt, with_channels m p)

  -- The channel that `_media_channel` had is destroyed, when it has its new value.
  destroy : Option (Channel × MediaChannel K V D S) → Action (MediaPlayer K V D S) (Unit {0})
  unfolding unregistered
  destroy none p = (ok tt, p)
  destroy (some (channel, _)) p = unregistered (unregister_channel channel p.base.channels) p

  -- OnStopped, which does not call that of SenderApplication
  unfoldable pub on_stopped : Action (MediaPlayer K V D S) (Unit {0})
  unfolding destroy
  on_stopped p = destroy p.media_channel (record p { media_channel = none })

  in_media :
      (Channel → MediaChannel K V D S → Result (Unit {0}) × MediaChannel K V D S)
      → Option (Channel × MediaChannel K V D S)
      → Action (MediaPlayer K V D S) (Unit {0})
  in_media f none p = (thrown (runtime_error (codes "missing media channel")), p)
  in_media f (some (channel, media)) p =
      let (result, media') =
        f channel (record media { requests = record media.requests { rest = p.base.rest } }) in
      (
        result,
        record p {
          base = record p.base { rest = media'.requests.rest };
          media_channel = some (channel, media');
        },
      )

  -- EnsureChannelExists, and a call of the media channel
  unfoldable pub on_media :
      (Channel → MediaChannel K V D S → Result (Unit {0}) × MediaChannel K V D S)
      → Action (MediaPlayer K V D S) (Unit {0})
  unfolding in_media
  on_media f p = in_media f p.media_channel p

module _ {K V D S : Type 0} (libraries : Libraries V D) where
  created : Channel → ℕ → Result ChannelMap → Action (MediaPlayer K V D S) (Unit {0})
  unfolding destroy new_status
  created channel next_id (thrown e) p = (thrown e, p)
  created channel next_id (ok m) p =
      let media : MediaChannel K V D S = record {
        requests = record { request_id = next_id; requests = []; rest = p.base.rest };
        last_status = new_status libraries;
      } in
      destroy p.media_channel (record (with_channels m p) { media_channel = some (channel, media) })

  create_media : ℕ → ℕ → Bytes → Action (MediaPlayer K V D S) (Unit {0})
  unfolding created media_channel
  create_media pointer next_id receiver_id p =
      let channel = media_channel pointer p.sender_id receiver_id in
      created channel next_id (register_channel channel p.base.channels) p

  -- CreateChannels
  unfoldable pub create_channels :
      ℕ → ℕ → ℕ → Bytes → Bytes → Action (MediaPlayer K V D S) (Unit {0})
  unfolding create_media Application.create_channels
  create_channels pointer media_pointer next_id sender_id receiver_id =
      on_base (Application.create_channels pointer sender_id receiver_id)
      >> (modify (λ p. record p { sender_id = or_given p.sender_id sender_id })
          >> create_media media_pointer next_id receiver_id)

module _ {K V D S : Type 0} (libraries : Libraries V D)
    (send : Channel → Bytes → Action S (Unit {0})) where
  -- Initialize: that of SenderApplication, which calls the CreateChannels above, with the value of
  -- std::hash for the id, and GetStatus with a callback of its own
  unfoldable pub initialize :
      ℕ → ℕ → ℕ → ℕ → ApplicationInfo → K → Action (MediaPlayer K V D S) (Unit {0})
  unfolding create_channels initialized connection_channel on_media Channel.get_status
  initialize hash pointer media_pointer next_id app_info on_status =
      let sender_id = codes "sender_" ++ to_string hash in
      let connection = connection_channel pointer sender_id app_info.transport_id in
      create_channels libraries pointer media_pointer next_id sender_id app_info.transport_id
      >> (on_base (λ s. initialized libraries.json send app_info connection (ok tt, s))
          >> on_media (λ channel. Channel.get_status libraries (send channel) (some on_status)))

  -- Load, Play, Pause, Stop and Seek
  unfoldable pub load : Media D → Bool → Option K → Action (MediaPlayer K V D S) (Unit {0})
  unfolding on_media Channel.load
  load media autoplay callback =
      on_media (λ channel. Channel.load libraries (send channel) media autoplay callback)

  unfoldable pub play : Option K → Action (MediaPlayer K V D S) (Unit {0})
  unfolding on_media Channel.play
  play callback = on_media (λ channel. Channel.play libraries (send channel) callback)

  unfoldable pub pause : Option K → Action (MediaPlayer K V D S) (Unit {0})
  unfolding on_media Channel.pause
  pause callback = on_media (λ channel. Channel.pause libraries (send channel) callback)

  unfoldable pub stop : Option K → Action (MediaPlayer K V D S) (Unit {0})
  unfolding on_media Channel.stop
  stop callback = on_media (λ channel. Channel.stop libraries (send channel) callback)

  unfoldable pub seek : ℕ → Option K → Action (MediaPlayer K V D S) (Unit {0})
  unfolding on_media Channel.seek
  seek minute_offset callback =
      on_media (λ channel. Channel.seek libraries (send channel) minute_offset callback)
