-- ===== src/Tests/Libraries.antt =====
-- The libraries that the media messages use, with numbers for the doubles.
use libchromecast.Prelude.{ℕ, refl, [], ◌∷◌, Bytes, Option, none, some}
use libchromecast.Media.{
  Media, Libraries, new_meta_data, outline, normal, no_window, buffered, Color,
}
use libchromecast.Media.Style.Laws.{IsLexicalCast}
use libchromecast.Tests.Values.{Value, json, get_uint64}

abbrev pub cast_byte : Bytes → Option ℕ
cast_byte (c ∷ []) = some c
cast_byte _ = none

pub cast_byte-IsLexicalCast : IsLexicalCast cast_byte
cast_byte-IsLexicalCast (c ∷ []) ne = absurd (ne refl)
cast_byte-IsLexicalCast [] ne = refl
cast_byte-IsLexicalCast (c ∷ d ∷ text) ne = refl

abbrev white : Color
white = record { argb = 255 ∷ 255 ∷ 255 ∷ 255 ∷ [] }

abbrev pub garbage : Media ℕ
garbage = record {
  meta_data = new_meta_data;
  content_id = [];
  content_type = [];
  duration = 77;
  stream_type = buffered;
  tracks = [];
  text_track_style = record {
    background = white;
    foreground = white;
    edge = record { type = outline; color = white };
    font = record { scale = 5; style = normal; family = []; generic_family = [] };
    window = record { type = no_window; color = white; rounded_corner_radius = 6 };
  };
}

abbrev pub libraries : Libraries Value ℕ
libraries = record {
  json = json;
  get_double = get_uint64;
  zero_double = 0;
  lexical_cast_byte = cast_byte;
  garbage = garbage;
}
