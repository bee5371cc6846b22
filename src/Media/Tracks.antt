-- ===== src/Media/Tracks.antt =====
-- media_messages.cpp: Media::Track, to and from a message.
pub mod RoundTrip
use libchromecast.Prelude.{true, not, Bytes, codes, str_eq, if◌then◌else◌}
use libchromecast.Utils.{Result, ok, thrown, Site, throw_on_error, ◌>>=◌, ◌>>◌}
use libchromecast.Json.Library.{Rapidjson}
use libchromecast.Json.{assign, string_value, char_value, uint32_value}
use libchromecast.Json.Read.{text_member, uint32_member}
use libchromecast.Media.{Track, TrackType, unknown_type, text}

abbrev type_site : Site
type_site = record {
  file = codes "media_messages.cpp";
  function = codes "chromecast::Media::Track::ToMessage";
  line = 28;
}

abbrev track_type : Bytes → TrackType
track_type type = if not (str_eq type (codes "TEXT")) then unknown_type else text

module _ {V : Type 0} (json : Rapidjson V) where
  write_type : TrackType → V → Result V
  unfolding assign char_value
  write_type text message = ok (assign json (codes "type") (char_value json (codes "TEXT")) message)
  write_type unknown_type message =
      throw_on_error true type_site (codes "unknown track type") >> ok message

  -- Track::ToMessage
  unfoldable pub to_message : Track → V → Result V
  unfolding write_type assign string_value uint32_value
  to_message track message = do
    typed ←
        write_type track.type (assign json (codes "trackId") (uint32_value json track.id) message)
    let content_id = assign json (codes "trackContentId") (string_value json track.content_id) typed
    let content_type =
        assign json (codes "trackContentType") (string_value json track.content_type) content_id
    let name = assign json (codes "name") (string_value json track.name) content_type
    let language = assign json (codes "language") (string_value json track.language) name
    ok (assign json (codes "subtype") (string_value json track.sub_type) language)

  -- Track::FromMessage
  unfoldable pub from_message : V → Result Track
  from_message message = do
    type ← text_member json (codes "type") message
    id ← uint32_member json (codes "trackId") message
    content_id ← text_member json (codes "trackContentId") message
    content_type ← text_member json (codes "trackContentType") message
    name ← text_member json (codes "name") message
    language ← text_member json (codes "language") message
    sub_type ← text_member json (codes "subtype") message
    ok (record {
      id = id;
      type = track_type type;
      content_id = content_id;
      content_type = content_type;
      name = name;
      language = language;
      sub_type = sub_type;
    })
