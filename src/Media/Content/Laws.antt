-- ===== src/Media/Content/Laws.antt =====
-- media_messages.cpp: what of a Media is written and read back.
use libchromecast.Prelude.{
  ◌≡◌, refl, ap, ◌∙◌, true, false, [], ◌∷◌, List, Bytes, codes, c_str, str_eq, All, All-get_elem?,
  none, some,
}
use libchromecast.Utils.{ok, Throws, Throws-bind, Throws-first}
use libchromecast.Json.Library.{IsRapidjson}
use libchromecast.Json.{assign, const_index, empty_string, string_value, char_value, get_string}
use libchromecast.Json.Laws.{const_index-assign, index-missing, has_member-const_index}
use libchromecast.Json.Read.{text_member, read_array}
use libchromecast.Json.Records.{records_value}
use libchromecast.Json.Records.Laws.{read_array-records_value}
use libchromecast.Json.Fields.{
  assign_all, assigned, const_index-assign_all, is_object-assign, has_member-assign_all-none,
}
use libchromecast.Media.{Media, Libraries, new_media, Track}
use libchromecast.Media.Style.Laws.{IsLexicalCast, style_from_message-Throws}
use libchromecast.Media.Tracks
use libchromecast.Media.Tracks.RoundTrip
use libchromecast.Media.Tracks.RoundTrip.{IsTextTrack}
use libchromecast.Media.Metadata
use libchromecast.Media.Metadata.Laws.{to_message-ne}
use libchromecast.Media.Content.{
  to_message, from_message, stream_text, optional_tracks, optional_style, optional_meta_data,
}

module _ {V D : Type 0} (libraries : Libraries V D) where
  -- A media that has a text track style is never read.
  pub from_message-styled :
      (message : V)
      → IsLexicalCast libraries.lexical_cast_byte
      → libraries.json.has_member (codes "textTrackStyle") message ≡ true
      → Throws (from_message libraries message)
  unfolding from_message optional_style
  from_message-styled message law styled =
      Throws-bind (text_member libraries.json (codes "contentId") message) _ λ content_id.
        Throws-bind (text_member libraries.json (codes "contentType") message) _ λ content_type.
          Throws-bind (optional_tracks libraries message) _ λ tracks.
            Throws-first
              (optional_style libraries (new_media libraries.garbage).text_track_style message) _
              (rw styled (style_from_message-Throws libraries law message).2)

twice : (s : Bytes) → c_str s ≡ s → c_str (c_str s) ≡ s
twice s whole = ap c_str whole ∙ whole

module _ {V D : Type 0} (libraries : Libraries V D) (law : IsRapidjson libraries.json) where
  open libraries use {json, garbage}

  tracks_back :
      (tracks : List Track)
      → All IsTextTrack tracks
      → (value : V) × (records_value json (Tracks.to_message json) tracks ≡ ok value)
        × (read_array json (Tracks.from_message json) value ≡ ok tracks)
  tracks_back tracks all =
      read_array-records_value json law (Tracks.to_message json)
        (λ track. assign_all json (RoundTrip.fields json law track) (empty_string json))
        (Tracks.from_message json) tracks
        (λ i track e.
          (RoundTrip.from_message-to_message json law track (empty_string json)
            (All-get_elem? IsTextTrack tracks all i track e)).0)
        (λ i track e.
          (RoundTrip.from_message-to_message json law track (empty_string json)
            (All-get_elem? IsTextTrack tracks all i track e)).1)

  -- The members of "media" but the tracks, the last first
  abbrev texts : Media D → List (Bytes × V)
  texts media =
      (codes "streamType", char_value json (stream_text media.stream_type))
      ∷ (codes "contentType", string_value json media.content_type)
      ∷ (codes "contentId", string_value json media.content_id)
      ∷ []

  -- What Media::FromMessage reads of the member "media"
  part_back :
      (media : Media D) (tracks : V)
      → c_str media.content_id ≡ media.content_id
      → c_str media.content_type ≡ media.content_type
      → read_array json (Tracks.from_message json) tracks ≡ ok media.tracks
      → from_message libraries
          (assign_all json ((codes "tracks", tracks) ∷ texts media) (empty_string json))
        ≡ ok (record (new_media garbage) {
          content_id = media.content_id;
          content_type = media.content_type;
          tracks = media.tracks;
        })
  unfolding from_message optional_tracks optional_style optional_meta_data str_eq string_value
      get_string new_media
  part_back media tracks whole whole' back =
      let all_fields = (codes "tracks", tracks) ∷ texts media in
      let part = assign_all json all_fields (empty_string json) in
      let member : (u : Bytes) (v : V)
          → assigned u all_fields ≡ some v
          → const_index json u part ≡ ok v =
        λ u v e. const_index-assign_all json law u all_fields (empty_string json) v e in
      let missing : (u : Bytes) → assigned u all_fields ≡ none → json.has_member u part ≡ false =
        λ u e.
          has_member-assign_all-none json law u (codes "tracks", tracks) (texts media)
            (empty_string json) (law.is_object-set_string []) e in
      rw
        (
          member (codes "contentId") _ refl,
          law.get_string-set_string (c_str media.content_id),
          member (codes "contentType") _ refl,
          law.get_string-set_string (c_str media.content_type),
          has_member-const_index json law (codes "tracks") part tracks
              (member (codes "tracks") _ refl),
          member (codes "tracks") _ refl,
          back,
          missing (codes "textTrackStyle") refl,
          missing (codes "metadata") refl,
        )
        (λ i. ok (record (new_media garbage) {
          content_id = twice media.content_id whole i;
          content_type = twice media.content_type whole' i;
          tracks = media.tracks;
        }))

  -- A media whose tracks are all text tracks, with ids that a uint32_t holds, and whose id and type
  -- and whose tracks' strings hold no zero byte, is written to an object that has no "media" yet, and its id, its type and its
  -- tracks are read back from there; the other members are those of a new media. A media with a
  -- track of another type is not covered.
  pub from_message-to_message :
      (media : Media D) (m : V)
      → c_str media.content_id ≡ media.content_id
      → c_str media.content_type ≡ media.content_type
      → All IsTextTrack media.tracks
      → json.is_object m ≡ true
      → json.has_member (codes "media") m ≡ false
      → (message part : V) × (to_message libraries media m ≡ ok message)
        × (const_index json (codes "media") message ≡ ok part)
        × (from_message libraries part
            ≡ ok (record (new_media garbage) {
              content_id = media.content_id;
              content_type = media.content_type;
              tracks = media.tracks;
            }))
  unfolding to_message
  from_message-to_message media m whole whole' all object missing =
      let (tracks, written, back) = tracks_back media.tracks all in
      let part = assign_all json ((codes "tracks", tracks) ∷ texts media) (empty_string json) in
      let message = assign json (codes "media") part m in
      (
        Metadata.to_message json media.meta_data message,
        part,
        rw ((index-missing json law (codes "media") m object missing).0, written) refl,
        to_message-ne json law media.meta_data (codes "media") message
              (is_object-assign json law (codes "media") part m) (λ e. cc)
            ∙ (const_index-assign json law (codes "media") part m).0,
        part_back media tracks whole whole' back,
      )
