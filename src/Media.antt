-- ===== src/Media.antt =====
-- media_messages.h: the data of the media messages. `D` is the type of doubles.
pub mod Style
pub mod Tracks
pub mod Metadata
pub mod Content
pub mod Status
pub mod Channel
pub mod Player
use libchromecast.Prelude.{ℕ, Bool, List, [], Bytes, Option}
use libchromecast.Json.Library.{Rapidjson}

-- Media::Track::eTrackType
pub data TrackType : Type 0 where
  unknown_type text : TrackType

pub record Track : Type 0 where
  pub id : ℕ
  pub type : TrackType
  pub content_id : Bytes
  pub content_type : Bytes
  pub name : Bytes
  pub language : Bytes
  pub sub_type : Bytes

-- Media::TextTrackStyle::Color, by its bytes `argb`
pub record Color : Type 0 where
  pub argb : Bytes

pub data EdgeType : Type 0 where
  unknown_edge outline : EdgeType

pub record Edge : Type 0 where
  pub type : EdgeType
  pub color : Color

pub data FontStyle : Type 0 where
  unknown_style normal : FontStyle

pub record Font (D : Type 0) : Type 0 where
  pub scale : D
  pub style : FontStyle
  pub family : Bytes
  pub generic_family : Bytes

pub data WindowType : Type 0 where
  no_window : WindowType

pub record Window (D : Type 0) : Type 0 where
  pub type : WindowType
  pub color : Color
  pub rounded_corner_radius : D

pub record TextTrackStyle (D : Type 0) : Type 0 where
  pub background : Color
  pub foreground : Color
  pub edge : Edge
  pub font : Font D
  pub window : Window D

-- Media::MetaData, its images by their URLs. eMetadataType is the number that is cast to it.
pub record MetaData : Type 0 where
  pub type : ℕ
  pub metadata_type : ℕ
  pub title : Bytes
  pub images : List Bytes

-- Media::MetaData::MetaData(): eMetadataType::Generic is 0.
abbrev pub new_meta_data : MetaData
new_meta_data = record { type = 0; metadata_type = 0; title = []; images = [] }

-- Media::eStreamType
pub data StreamType : Type 0 where
  buffered live : StreamType

pub record Media (D : Type 0) : Type 0 where
  pub meta_data : MetaData
  pub content_id : Bytes
  pub content_type : Bytes
  pub duration : D
  pub stream_type : StreamType
  pub tracks : List Track
  pub text_track_style : TextTrackStyle D

-- `Media media;`: what has no constructor is garbage.
unfoldable pub new_media : {D : Type 0} → Media D → Media D
new_media garbage =
    let style = garbage.text_track_style in
    record garbage {
      meta_data = new_meta_data;
      content_id = [];
      content_type = [];
      tracks = [];
      text_track_style = record style {
        font = record style.font { family = []; generic_family = [] };
      };
    }

pub record MediaItem (D : Type 0) : Type 0 where
  pub id : ℕ
  pub autoplay : Bool
  pub start_time : D
  pub active_track_ids : List ℕ
  pub media : Media D

-- MediaStatus::ePlayerState
pub data PlayerState : Type 0 where
  idle buffering playing paused missing : PlayerState

-- MediaStatus::eRepeatMode
pub data RepeatMode : Type 0 where
  off missing_mode : RepeatMode

-- MediaStatus; `supported_media_commands` is the number that is cast to eSupportedCommands.
pub record MediaStatus (D : Type 0) : Type 0 where
  pub valid : Bool
  pub muted : Bool
  pub volume_level : D
  pub current_time : D
  pub session_id : ℕ
  pub playback_rate : ℕ
  pub current_item_id : ℕ
  pub player_state : PlayerState
  pub supported_media_commands : ℕ
  pub repeat_mode : RepeatMode
  pub media : Media D
  pub items : List (MediaItem D)

pub record MediaResponse (D : Type 0) : Type 0 where
  pub reason : Bytes
  pub status : MediaStatus D

-- What the messages use that is outside the repository: rapidjson, with its doubles; the double 0;
-- boost::lexical_cast of a string to a byte, `none` where it throws bad_lexical_cast; and what is
-- found in storage that nothing was written to.
pub record Libraries (V D : Type 0) : Type 0 where
  pub json : Rapidjson V
  pub get_double : V → Option D
  pub zero_double : D
  pub lexical_cast_byte : Bytes → Option ℕ
  pub garbage : Media D
