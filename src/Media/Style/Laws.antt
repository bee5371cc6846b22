-- ===== src/Media/Style/Laws.antt =====
-- media_messages.cpp: what becomes of the colors of a TextTrackStyle.
use libchromecast.Prelude.{
  ℕ, suc, ◌≡◌, ◌≢◌, refl, inl, inr, Bool-cases, Bytes, none, codes, length, take, drop, ◌==◌, arith,
  [], ◌∷◌, Option, true,
}
use libchromecast.Utils.{thrown, Throws, Throws-bind, Throws-first}
use libchromecast.Json.Read.{text_member}
use libchromecast.Media.{Libraries}
use libchromecast.Media.Style.{
  bad_cast, color_from_string, read_channels, starts_with_hash, edge_from_message,
  window_from_message, style_from_message, color_member,
}

-- boost::lexical_cast of a string to a type of characters takes a string of one character.
abbrev pub IsLexicalCast : (Bytes → Option ℕ) → Type 0
IsLexicalCast cast = (text : Bytes) → length text ≢ 1 → cast text ≡ none

module _ (cast : Bytes → Option ℕ) (law : IsLexicalCast cast) where
  -- Two characters are never cast.
  read_channels-two :
      (count pos : ℕ) (value : Bytes)
      → length (take 2 (drop pos value)) ≡ 2
      → read_channels cast (suc count) pos value ≡ thrown bad_cast
  unfolding read_channels
  read_channels-two count pos value two =
      let refused : cast (take 2 (drop pos value)) ≡ none =
        law (take 2 (drop pos value)) (λ one. omega (arith, two)) in
      rw refused refl

  first_two : (value : Bytes) → length value ≡ 9 → length (take 2 (drop 1 value)) ≡ 2
  first_two [] h = omega arith
  first_two (a ∷ []) h = omega arith
  first_two (a ∷ b ∷ []) h = omega arith
  first_two (a ∷ b ∷ c ∷ value) h = refl

  -- A color of nine characters that starts with "#" is refused by the cast, and any other text by
  -- a check: no color is ever read.
  pub color_from_string-Throws :
      (value : Bytes)
      → Throws (color_from_string cast value)
        × (length value ≡ 9
            → starts_with_hash value ≡ true
            → color_from_string cast value ≡ thrown bad_cast)
  unfolding color_from_string
  color_from_string-Throws value = elim (Bool-cases (length value == 9)) [
    | inr other ↦ rw other ((_, refl), λ nine. absurd (ground arith))
    | inl nine ↦ elim (Bool-cases (starts_with_hash value)) [
      | inr other ↦ rw (nine, other) ((_, refl), λ h e. cc)
      | inl hash ↦
          rw (nine, hash, read_channels-two 3 1 value (first_two value (ground arith)))
            ((_, refl), λ h e. refl)
    ]
  ]

module _ {V D : Type 0} (libraries : Libraries V D)
    (law : IsLexicalCast libraries.lexical_cast_byte) where
  color_member-Throws : (t : Bytes) (message : V) → Throws (color_member libraries t message)
  color_member-Throws t message =
      Throws-bind (text_member libraries.json t message) _
        (λ value. (color_from_string-Throws libraries.lexical_cast_byte law value).0)

  -- An edge, a window and a style all have a color, so none is ever read.
  pub style_from_message-Throws :
      (message : V)
      → Throws (edge_from_message libraries message)
        × Throws (window_from_message libraries message)
        × Throws (style_from_message libraries message)
  unfolding edge_from_message window_from_message style_from_message
  style_from_message-Throws message = (
    Throws-bind (text_member libraries.json (codes "edgeType") message) _
        (λ type. Throws-first _ _ (color_member-Throws (codes "edgeColor") message)),
    Throws-first _ _ (color_member-Throws (codes "windowColor") message),
    Throws-first _ _ (color_member-Throws (codes "backgroundColor") message),
  )
