-- ===== src/Media/Content.antt =====
-- media_messages.cpp: Media and MediaItem, to and from a message.
pub mod Laws
use libchromecast.Prelude.{ℕ, Bool, true, false, List, [], Bytes, codes, if◌then◌else◌}
use libchromecast.Utils.{Result, ok, thrown, ◌>>=◌}
use libchromecast.Json.{or_assert, assign, index, string_value, char_value, const_index, get_uint32}
use libchromecast.Json.Read.{text_member, uint32_member, bool_member, read_array}
use libchromecast.Json.Records.{records_value}
use libchromecast.Media.{
  Media, MediaItem, StreamType, buffered, live, new_media, Track, MetaData, new_meta_data,
  TextTrackStyle, Libraries,
}
use libchromecast.Media.Style.{double_member, style_from_message}
use libchromecast.Media.Tracks
use libchromecast.Media.Metadata

abbrev stream_text : StreamType → Bytes
stream_text buffered = codes "BUFFERED"
stream_text live = codes "LIVE"

module _ {V D : Type 0} (libraries : Libraries V D) where
  open libraries use {json, garbage}

  -- Media::ToMessage
  unfoldable pub to_message : Media D → V → Result V
  unfolding Metadata.to_message assign index string_value char_value records_value
  to_message media message = do
    let part = index json (codes "media") message
    let content_id = assign json (codes "contentId") (string_value json media.content_id) part
    let content_type =
        assign json (codes "contentType") (string_value json media.content_type) content_id
    let stream_type =
        assign json (codes "streamType") (char_value json (stream_text media.stream_type))
          content_type
    tracks ← records_value json (Tracks.to_message json) media.tracks
    let json_media = assign json (codes "tracks") tracks stream_type
    ok (Metadata.to_message json media.meta_data (assign json (codes "media") json_media message))

  optional_tracks : V → Result (List Track)
  unfolding read_array Tracks.from_message
  optional_tracks message =
      if json.has_member (codes "tracks") message
      then (do
        tracks_part ← const_index json (codes "tracks") message
        read_array json (Tracks.from_message json) tracks_part)
      else ok []

  -- The style is read from the message, not from its member "textTrackStyle".
  optional_style : TextTrackStyle D → V → Result (TextTrackStyle D)
  unfolding style_from_message
  optional_style style message =
      if json.has_member (codes "textTrackStyle") message
      then style_from_message libraries message
      else ok style

  optional_meta_data : V → Result MetaData
  unfolding Metadata.from_message
  optional_meta_data message =
      if json.has_member (codes "metadata") message
      then Metadata.from_message json message
      else ok new_meta_data

  -- Media::FromMessage
  unfoldable pub from_message : V → Result (Media D)
  unfolding optional_tracks optional_style optional_meta_data new_media
  from_message message = do
    let media = new_media garbage
    content_id ← text_member json (codes "contentId") message
    content_type ← text_member json (codes "contentType") message
    tracks ← optional_tracks message
    style ← optional_style media.text_track_style message
    meta_data ← optional_meta_data message
    ok (record media {
      content_id = content_id;
      content_type = content_type;
      tracks = tracks;
      text_track_style = style;
      meta_data = meta_data;
    })

  -- MediaItem::FromMessage
  unfoldable pub item_from_message : V → Result (MediaItem D)
  unfolding from_message read_array
  item_from_message message = do
    id ← uint32_member json (codes "itemId") message
    autoplay ← bool_member json (codes "autoplay") message
    start_time ← double_member libraries (codes "startTime") message
    ids_part ← const_index json (codes "activeTrackIds") message
    active_track_ids ← read_array json (get_uint32 json) ids_part
    media_part ← const_index json (codes "media") message
    media ← from_message media_part
    ok (record {
      id = id;
      autoplay = autoplay;
      start_time = start_time;
      active_track_ids = active_track_ids;
      media = media;
    })
