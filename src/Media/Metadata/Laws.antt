-- ===== src/Media/Metadata/Laws.antt =====
-- media_messages.cpp: the images that MetaData::ToMessage writes are not what FromMessage reads.
use libchromecast.Prelude.{
  ◌^◌, ◌<◌, ◌≡◌, ◌≢◌, refl, true, false, none, List, [], ◌∷◌, Bytes, codes, c_str, str_eq, some,
}
use libchromecast.Utils.{assertion, ok, thrown}
use libchromecast.Json.Library.{Rapidjson, IsRapidjson}
use libchromecast.Json.{
  index, const_index, empty_string, string_value, uint32_value, get_string, get_uint32,
}
use libchromecast.Json.Laws.{const_index-assign, index-missing}
use libchromecast.Json.Read.{read_array}
use libchromecast.Json.Fields.{
  assign_all, assigned, const_index-assign_all, is_object-assign, is_object-assign_all_cons,
  has_member-assign_all-none,
}
use libchromecast.Media.{MetaData}
use libchromecast.Media.Metadata.{to_message, from_message, write_images}

module _ {V : Type 0} (json : Rapidjson V) (law : IsRapidjson json) where
  -- MetaData::ToMessage leaves the other members of an object alone.
  pub to_message-ne :
      (meta_data : MetaData) (u : Bytes) (m : V)
      → json.is_object m ≡ true
      → u ≢ codes "metadata"
      → const_index json u (to_message json meta_data m) ≡ const_index json u m
  unfolding to_message
  to_message-ne meta_data u m object ne =
      (const_index-assign json law (codes "metadata") _ m).2 u object ne

  -- The part of the images is the empty string, or an object with the last URL: no array.
  write_images-size :
      (images : List Bytes) (part : V)
      → json.size part ≡ none
      → json.size (write_images json images part) ≡ none
  unfolding write_images
  write_images-size [] part h = h
  write_images-size (url ∷ images) part h =
      write_images-size images _ (law.size-object _ (is_object-assign json law _ _ part))

  -- The members but the images and the title, the last first
  abbrev numbers : MetaData → List (Bytes × V)
  numbers meta_data =
      (codes "metadataType", uint32_value json meta_data.metadata_type)
      ∷ (codes "type", uint32_value json meta_data.type)
      ∷ []

  abbrev title_field : MetaData → Bytes × V
  title_field meta_data = (codes "title", string_value json meta_data.title)

  -- What MetaData::ToMessage writes to a message that has no "metadata" yet, FromMessage does not
  -- read: whatever the images are, asking for their number is a failed assertion.
  pub from_message-to_message_asserts :
      (meta_data : MetaData) (m : V)
      → meta_data.type < 2 ^ 32
      → meta_data.metadata_type < 2 ^ 32
      → json.is_object m ≡ true
      → json.has_member (codes "metadata") m ≡ false
      → from_message json (to_message json meta_data m) ≡ thrown assertion
  unfolding from_message to_message string_value uint32_value get_string get_uint32 str_eq
      read_array
  from_message-to_message_asserts meta_data m small small' object missing =
      let part : index json (codes "metadata") m ≡ empty_string json =
        (index-missing json law (codes "metadata") m object missing).0 in
      let title = assign_all json (title_field meta_data ∷ numbers meta_data) (empty_string json) in
      let no_images : json.has_member (codes "images") title ≡ false =
        has_member-assign_all-none json law (codes "images") (title_field meta_data)
          (numbers meta_data) (empty_string json) (law.is_object-set_string []) refl in
      let images_part : index json (codes "images") title ≡ empty_string json =
        (index-missing json law (codes "images") title
          (is_object-assign_all_cons json law (title_field meta_data) (numbers meta_data)
            (empty_string json))
          no_images).0 in
      let images = write_images json meta_data.images (empty_string json) in
      let all_fields = (codes "images", images) ∷ title_field meta_data ∷ numbers meta_data in
      let member : (u : Bytes) (v : V)
          → assigned u all_fields ≡ some v
          → const_index json u (assign_all json all_fields (empty_string json)) ≡ ok v =
        λ u v e. const_index-assign_all json law u all_fields (empty_string json) v e in
      rw
        (
          part,
          images_part,
          (const_index-assign json law (codes "metadata")
              (assign_all json all_fields (empty_string json)) m).0,
          member (codes "type") _ refl,
          law.get_uint-set_uint meta_data.type small,
          member (codes "title") _ refl,
          law.get_string-set_string (c_str meta_data.title),
          member (codes "metadataType") _ refl,
          law.get_uint-set_uint meta_data.metadata_type small',
          member (codes "images") _ refl,
          write_images-size meta_data.images (empty_string json) (law.size-set_string []),
        )
        refl
