-- ===== src/Media/Metadata.antt =====
-- media_messages.cpp: Media::MetaData, to and from a message.
pub mod Laws
use libchromecast.Prelude.{List, [], ◌∷◌, Bytes, codes}
use libchromecast.Utils.{Result, ok, thrown, ◌>>=◌}
use libchromecast.Json.Library.{Rapidjson}
use libchromecast.Json.{assign, index, string_value, uint32_value, const_index}
use libchromecast.Json.Read.{text_member, uint32_member, read_array}
use libchromecast.Media.{MetaData}

module _ {V : Type 0} (json : Rapidjson V) where
  -- The loop over the images: each is assigned to the member "url" of the one part.
  write_images : List Bytes → V → V
  unfolding assign string_value
  write_images [] part = part
  write_images (url ∷ images) part =
      write_images images (assign json (codes "url") (string_value json url) part)

  -- MetaData::ToMessage
  unfoldable pub to_message : MetaData → V → V
  unfolding write_images assign index string_value uint32_value
  to_message meta_data message =
      let part = index json (codes "metadata") message in
      let type = assign json (codes "type") (uint32_value json meta_data.type) part in
      let metadata_type =
        assign json (codes "metadataType") (uint32_value json meta_data.metadata_type) type in
      let title = assign json (codes "title") (string_value json meta_data.title) metadata_type in
      let images = write_images meta_data.images (index json (codes "images") title) in
      assign json (codes "metadata") (assign json (codes "images") images title) message

  -- Image::FromMessage
  unfoldable pub image_from_message : V → Result Bytes
  image_from_message message = text_member json (codes "url") message

  -- MetaData::FromMessage
  unfoldable pub from_message : V → Result MetaData
  unfolding image_from_message
  from_message message = do
    part ← const_index json (codes "metadata") message
    type ← uint32_member json (codes "type") part
    title ← text_member json (codes "title") part
    metadata_type ← uint32_member json (codes "metadataType") part
    images_part ← const_index json (codes "images") part
    images ← read_array json image_from_message images_part
    ok (record { type = type; metadata_type = metadata_type; title = title; images = images })
