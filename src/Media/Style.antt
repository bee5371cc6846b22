-- ===== src/Media/Style.antt =====
-- media_messages.cpp: Media::TextTrackStyle and its parts, which are read from one message.
pub mod Laws
use libchromecast.Prelude.{
  ℕ, zero, suc, ◌+◌, Bool, true, false, not, [], ◌∷◌, ◌++◌, Bytes, codes, str_eq, Option, none,
  some, length, take, drop, ◌==◌, if◌then◌else◌,
}
use libchromecast.Utils.{Error, runtime_error, exception, Result, ok, thrown, ◌>>=◌, ◌>>◌}
use libchromecast.Json.{or_assert, const_index}
use libchromecast.Json.Read.{text_member}
use libchromecast.Media.{
  Color, Edge, EdgeType, outline, Font, FontStyle, unknown_style, normal, Window, no_window,
  TextTrackStyle, Libraries,
}

-- value.front() == '#'
pub starts_with_hash : Bytes → Bool
starts_with_hash [] = false
starts_with_hash (c ∷ value) = c == b'#'

abbrev pub bad_cast : Error
bad_cast =
    exception (codes "bad lexical cast: source type value could not be interpreted as target")

abbrev converted : Option ℕ → Result ℕ
converted none = thrown bad_cast
converted (some b) = ok b

module _ (lexical_cast_byte : Bytes → Option ℕ) where
  abbrev cast_byte : Bytes → Result ℕ
  cast_byte text = converted (lexical_cast_byte text)

  -- The loop over the bytes of `argb`, `count` of which are left, each of two characters from `pos`
  -- on.
  read_channels : ℕ → ℕ → Bytes → Result Bytes
  read_channels zero pos value = ok []
  read_channels (suc count) pos value = do
    b ← cast_byte (take 2 (drop pos value))
    rest ← read_channels count (pos + 2) value
    ok (b ∷ rest)

  -- Color::FromString
  unfoldable pub color_from_string : Bytes → Result Color
  unfolding read_channels starts_with_hash
  color_from_string value =
      if not (length value == 9)
      then thrown (runtime_error (codes "invalid color value " ++ value))
      else if not (starts_with_hash value)
      then thrown (runtime_error (codes "color value does not start with a # prefix" ++ value))
      else (read_channels 4 1 value >>= λ argb. ok (record { argb = argb }))

-- Whatever the type is, the edge is an outline.
abbrev edge_type : Bytes → EdgeType
edge_type text = if not (str_eq text (codes "OUTLINE")) then outline else outline

abbrev font_style : Bytes → FontStyle
font_style text = if not (str_eq text (codes "NORMAL")) then unknown_style else normal

module _ {V D : Type 0} (libraries : Libraries V D) where
  open libraries use {json, get_double, lexical_cast_byte}

  abbrev pub color_member : Bytes → V → Result Color
  color_member t message = text_member json t message >>= color_from_string lexical_cast_byte

  abbrev pub double_member : Bytes → V → Result D
  double_member t message = const_index json t message >>= λ v. or_assert (get_double v)

  -- Edge::FromMessage
  unfoldable pub edge_from_message : V → Result Edge
  unfolding color_from_string
  edge_from_message message = do
    type ← text_member json (codes "edgeType") message
    color ← color_member (codes "edgeColor") message
    ok (record { type = edge_type type; color = color })

  -- Font::FromMessage
  unfoldable pub font_from_message : V → Result (Font D)
  font_from_message message = do
    style ← text_member json (codes "fontStyle") message
    scale ← double_member (codes "fontScale") message
    family ← text_member json (codes "fontFamily") message
    generic_family ← text_member json (codes "fontGenericFamily") message
    ok (record {
      scale = scale;
      style = font_style style;
      family = family;
      generic_family = generic_family;
    })

  -- Window::FromMessage
  unfoldable pub window_from_message : V → Result (Window D)
  unfolding color_from_string
  window_from_message message = do
    color ← color_member (codes "windowColor") message
    radius ← double_member (codes "windowRoundedCornerRadius") message
    ok (record { type = no_window; color = color; rounded_corner_radius = radius })

  -- TextTrackStyle::FromMessage
  unfoldable pub style_from_message : V → Result (TextTrackStyle D)
  unfolding edge_from_message font_from_message window_from_message color_from_string
  style_from_message message = do
    background ← color_member (codes "backgroundColor") message
    foreground ← color_member (codes "foregroundColor") message
    edge ← edge_from_message message
    font ← font_from_message message
    window ← window_from_message message
    ok (record {
      background = background;
      foreground = foreground;
      edge = edge;
      font = font;
      window = window;
    })
