-- ===== src/Media/Tracks/RoundTrip.antt =====
-- media_messages.cpp: Track::FromMessage reads what Track::ToMessage wrote.
use libchromecast.Prelude.{
  ◌^◌, ◌<◌, ◌≡◌, refl, List, [], ◌∷◌, Bytes, codes, c_str, str_eq, some, sym,
}
use libchromecast.Utils.{ok}
use libchromecast.Json.Library.{Rapidjson, IsRapidjson}
use libchromecast.Json.{const_index, string_value, char_value, uint32_value, get_string, get_uint32}
use libchromecast.Json.Fields.{assign_all, assigned, const_index-assign_all}
use libchromecast.Media.{Track, text}
use libchromecast.Media.Tracks.{to_message, from_message}

-- A text track whose id is a uint32_t and whose strings have no zero byte.
pub record IsTextTrack (track : Track) : Type 0 where
  pub type : track.type ≡ text
  pub id : track.id < 2 ^ 32
  pub content_id : c_str track.content_id ≡ track.content_id
  pub content_type : c_str track.content_type ≡ track.content_type
  pub name : c_str track.name ≡ track.name
  pub language : c_str track.language ≡ track.language
  pub sub_type : c_str track.sub_type ≡ track.sub_type

module _ {V : Type 0} (json : Rapidjson V) (law : IsRapidjson json) where
  -- The members of a track, the last first
  abbrev pub fields : Track → List (Bytes × V)
  fields track =
      (codes "subtype", string_value json track.sub_type)
      ∷ (codes "language", string_value json track.language)
      ∷ (codes "name", string_value json track.name)
      ∷ (codes "trackContentType", string_value json track.content_type)
      ∷ (codes "trackContentId", string_value json track.content_id)
      ∷ (codes "type", char_value json (codes "TEXT"))
      ∷ (codes "trackId", uint32_value json track.id)
      ∷ []

  -- A text track is written, over whatever a part was, and read back as it was.
  pub from_message-to_message :
      (track : Track) (m : V)
      → IsTextTrack track
      → (to_message json track m ≡ ok (assign_all json (fields track) m))
        × (from_message json (assign_all json (fields track) m) ≡ ok track)
  unfolding to_message from_message string_value char_value uint32_value get_string get_uint32
      str_eq c_str
  from_message-to_message track m h =
      let member : (u : Bytes) (v : V)
          → assigned u (fields track) ≡ some v
          → const_index json u (assign_all json (fields track) m) ≡ ok v =
        λ u v e. const_index-assign_all json law u (fields track) m v e in
      (
        rw h.type refl,
        rw
            (
              member (codes "type") _ refl,
              law.get_string-set_string (codes "TEXT"),
              member (codes "trackId") _ refl,
              law.get_uint-set_uint track.id h.id,
              member (codes "trackContentId") _ refl,
              law.get_string-set_string (c_str track.content_id),
              member (codes "trackContentType") _ refl,
              law.get_string-set_string (c_str track.content_type),
              member (codes "name") _ refl,
              law.get_string-set_string (c_str track.name),
              member (codes "language") _ refl,
              law.get_string-set_string (c_str track.language),
              member (codes "subtype") _ refl,
              law.get_string-set_string (c_str track.sub_type),
              h.content_id,
              h.content_type,
              h.name,
              h.language,
              h.sub_type,
            )
            (λ i. ok (record {
              id = track.id;
              type = sym h.type i;
              content_id = h.content_id i;
              content_type = h.content_type i;
              name = h.name i;
              language = h.language i;
              sub_type = h.sub_type i;
            })),
      )
