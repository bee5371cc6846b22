-- ===== src/Media/Channel/Laws.antt =====
-- media_channel.cpp: what the commands of a session send, and what a response does.
use libchromecast.Prelude.{
  ℕ, ◌+◌, ◌%◌, ◌^◌, ◌≡◌, refl, List, [], ◌∷◌, ◌++◌, Bytes, codes, Option, some,
}
use libchromecast.Utils.{Result, ok}
use libchromecast.Json.Library.{Rapidjson, IsRapidjson}
use libchromecast.Json.{const_index, message_text, uint32_value, strings_value}
use libchromecast.Json.Fields.{assign_all, assigned, const_index-assign_all}
use libchromecast.Requests.{request}
use libchromecast.Receiver.Channel.Messages.{typed}
use libchromecast.Media.{MediaStatus, Libraries}
use libchromecast.Media.Channel.{
  MediaChannel, session_request, play, pause, stop, seek, set_track_info,
}

-- The functions of MediaChannel that make a SessionRequest
pub data Command : Type 0 where
  do_play do_pause do_stop : Command
  do_seek : ℕ → Command
  do_set_track_info : List Bytes → Command

abbrev type_of : Command → Bytes
type_of do_play = codes "PLAY"
type_of do_pause = codes "PAUSE"
type_of do_stop = codes "STOP"
type_of (do_seek n) = codes "SEEK"
type_of (do_set_track_info ids) = codes "EDIT_TRACKS_INFO"

module _ {V : Type 0} (json : Rapidjson V) where
  abbrev arguments : Command → List (Bytes × V)
  arguments (do_seek n) = (codes "currentTime", uint32_value json n) ∷ []
  arguments (do_set_track_info ids) = (codes "activeTrackIds", strings_value json ids) ∷ []
  arguments _ = []

  -- The members of the message of a command, the last first
  abbrev pub members : {D : Type 0} → Command → ℕ → MediaStatus D → List (Bytes × V)
  members command id status =
      (codes "requestId", json.set_uint64 id)
      ∷ (codes "mediaSessionId", uint32_value json status.session_id)
      ∷ (arguments command ++ (codes "type", json.set_string (type_of command)) ∷ [])

module _ {K V D S : Type 0} (libraries : Libraries V D)
    (send : Bytes → S → Result (Unit {0}) × S) where
  abbrev pub run :
      Command → Option K → MediaChannel K V D S → Result (Unit {0}) × MediaChannel K V D S
  run do_play = play libraries send
  run do_pause = pause libraries send
  run do_stop = stop libraries send
  run (do_seek n) = seek libraries send n
  run (do_set_track_info ids) = set_track_info libraries send ids

  -- What is sent for a command, and what stays
  abbrev pub Sends :
      Command → MediaChannel K V D S → Result (Unit {0}) × MediaChannel K V D S → Type 0
  Sends command r (result, r') =
      let json = libraries.json in
      let id = (r.requests.request_id + 1) % 2 ^ 64 in
      (message : V) × ((result, r'.requests.rest)
        ≡ send (message_text json message) r.requests.rest)
      × ((u : Bytes) (v : V)
          → assigned u (members json command id r.last_status) ≡ some v
          → const_index json u message ≡ ok v)
      × (r'.requests.request_id ≡ id)
      × (r'.last_status ≡ r.last_status)

  module _ (law : IsRapidjson libraries.json) where
    -- The message of a command, and what it sends where it goes on to Request with that
    written : Command → MediaChannel K V D S → V
    written c r =
        assign_all libraries.json
          (members libraries.json c ((r.requests.request_id + 1) % 2 ^ 64) r.last_status)
          libraries.json.null

    requested-Sends :
        (c : Command) (r : MediaChannel K V D S) (answer : Result (Unit {0}) × MediaChannel K V D S)
        → (answer.0, answer.1.requests.rest)
          ≡ send (message_text libraries.json (written c r)) r.requests.rest
        → answer.1.requests.request_id ≡ (r.requests.request_id + 1) % 2 ^ 64
        → answer.1.last_status ≡ r.last_status
        → Sends c r answer
    unfolding written
    requested-Sends c r answer sent id same = (
      written c r,
      sent,
      λ u v.
          const_index-assign_all libraries.json law u
            (members libraries.json c ((r.requests.request_id + 1) % 2 ^ 64) r.last_status)
            libraries.json.null v,
      id,
      same,
    )

    -- A command sends one message, whose members are its type, its argument, the session of the
    -- last status and the next id, and returns what Send does; the last status stays.
    pub run-Sends :
        (command : Command) (callback : Option K) (r : MediaChannel K V D S)
        → Sends command r (run command callback r)
    unfolding play pause stop seek set_track_info session_request request typed written
    run-Sends do_play callback r =
        requested-Sends do_play r (play libraries send callback r) refl refl refl
    run-Sends do_pause callback r =
        requested-Sends do_pause r (pause libraries send callback r) refl refl refl
    run-Sends do_stop callback r =
        requested-Sends do_stop r (stop libraries send callback r) refl refl refl
    run-Sends (do_seek n) callback r =
        requested-Sends (do_seek n) r (seek libraries send n callback r) refl refl refl
    run-Sends (do_set_track_info ids) callback r =
        requested-Sends (do_set_track_info ids) r (set_track_info libraries send ids callback r)
          refl refl refl
