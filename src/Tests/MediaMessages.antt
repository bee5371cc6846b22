-- ===== src/Tests/MediaMessages.antt =====
-- Media messages, and the examples of what is proved of them.
use libchromecast.Prelude.{ℕ, ◌≡◌, refl, true, [], ◌∷◌, codes, str_eq, c_str, arith}
use libchromecast.Utils.{ok, thrown, assertion, Throws, throw_on_error}
use libchromecast.Json.{const_index, const_element, get_string, get_uint32, get_bool}
use libchromecast.Media.{Media, MediaStatus, Track, text, MetaData, new_media, paused, missing_mode}
use libchromecast.Media.Style.{edge_from_message, window_from_message, style_from_message}
use libchromecast.Media.Style.Laws.{style_from_message-Throws}
use libchromecast.Media.Tracks.RoundTrip.{IsTextTrack}
use libchromecast.Media.Metadata
use libchromecast.Media.Metadata.Laws
use libchromecast.Media.Content.{to_message, from_message}
use libchromecast.Media.Content.Laws.{from_message-to_message}
use libchromecast.Media.Status.{status_from_message}
use libchromecast.Tests.Values.{
  Value, json, null, text as string, number, flag, object, array, member, no_members, element,
  no_elements,
}
use libchromecast.Tests.ValueLaws.{json-IsRapidjson}
use libchromecast.Tests.Libraries.{libraries, garbage, cast_byte-IsLexicalCast}

abbrev track : Track
track = record {
  id = 3;
  type = text;
  content_id = codes "t";
  content_type = codes "vtt";
  name = codes "n";
  language = codes "en";
  sub_type = codes "SUB";
}

track-IsTextTrack : IsTextTrack track
unfolding c_str
track-IsTextTrack = record {
  type = refl;
  id = omega arith;
  content_id = refl;
  content_type = refl;
  name = refl;
  language = refl;
  sub_type = refl;
}

abbrev meta_data : MetaData
meta_data = record {
  type = 1;
  metadata_type = 2;
  title = codes "T";
  images = codes "u" ∷ codes "v" ∷ [];
}

abbrev movie : Media ℕ
movie = record garbage {
  meta_data = meta_data;
  content_id = codes "id";
  content_type = codes "mp4";
  tracks = track ∷ [];
}

abbrev load_message : Value
load_message = object (member (codes "type") (string (codes "LOAD")) no_members)

from_message-to_message_example :
    (message part : Value) × (to_message libraries movie load_message ≡ ok message)
    × (const_index json (codes "media") message ≡ ok part)
    × (from_message libraries part
        ≡ ok (record (new_media garbage) {
          content_id = codes "id";
          content_type = codes "mp4";
          tracks = track ∷ [];
        }))
unfolding c_str str_eq
from_message-to_message_example =
    from_message-to_message libraries json-IsRapidjson movie load_message refl refl
      (track-IsTextTrack, tt) refl refl

from_message-to_message_asserts_example :
    Metadata.from_message json (Metadata.to_message json meta_data load_message) ≡ thrown assertion
unfolding str_eq
from_message-to_message_asserts_example =
    Laws.from_message-to_message_asserts json json-IsRapidjson meta_data load_message (omega arith)
      (omega arith) refl refl

style_from_message-Throws_example :
    Throws (edge_from_message libraries null)
    × Throws (window_from_message libraries null)
    × Throws (style_from_message libraries null)
style_from_message-Throws_example = style_from_message-Throws libraries cast_byte-IsLexicalCast null

-- A status of one session.
abbrev json_status : Value
json_status = object (
    member (codes "mediaSessionId") (number 5) (
      member (codes "playbackRate") (number 1) (
        member (codes "currentTime") (number 30) (
          member (codes "supportedMediaCommands") (number 15) (
            member (codes "volume")
              (object
                (member (codes "muted") (flag true) (member (codes "level") (number 1) no_members)))
              (member (codes "currentItemId") (number 2)
                (member (codes "playerState") (string (codes "PAUSED")) no_members)))))))

abbrev pub status_message : Value
status_message = object (
    member (codes "type") (string (codes "MEDIA_STATUS"))
      (member (codes "status") (array (element json_status no_elements)) no_members))

abbrev pub session_status : MediaStatus ℕ
session_status = record {
  valid = true;
  muted = true;
  volume_level = 1;
  current_time = 30;
  session_id = 5;
  playback_rate = 1;
  current_item_id = 2;
  player_state = paused;
  supported_media_commands = 15;
  repeat_mode = missing_mode;
  media = new_media garbage;
  items = [];
}

pub session_status_lem : status_from_message libraries status_message ≡ ok session_status
unfolding status_from_message str_eq const_index throw_on_error get_string c_str const_element
    get_uint32 get_bool
session_status_lem = refl
