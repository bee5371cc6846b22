-- ===== src/Proto/EnumMessage/Laws.antt =====
-- google_cast_message.cpp: the copies of AuthChallenge and of AuthError, and their size.
use libchromecast.Prelude.{◌<◌, ◌≡◌, false, true, Bytes, length, length-append, arith, ◌^◌}
use libchromecast.Proto.Runtime.{WireFormat, IsWireFormat}
use libchromecast.Proto.EnumField
use libchromecast.Proto.EnumField.{EnumField}
use libchromecast.Proto.Fields.{merge_enum, put_enum}
use libchromecast.Proto.Fields.Laws.{length-put_enum}
use libchromecast.Proto.EnumMessage.{
  EnumCode, EnumMessage, clear, new_message, merge_from, copy_from, copy_constructor,
  serialize_with_cached_sizes, byte_size,
}

-- The numbers of the enumerators are valid, and cast back to them.
pub record IsEnumCode {E : Type 0} (code : EnumCode E) : Type 0 where
  pub number-small : (v : E) → code.number v < 2 ^ 31
  pub is_valid-number : (v : E) → code.is_valid (code.number v) ≡ true
  pub cast-number : (v : E) → code.cast (code.number v) ≡ v

-- What a message's accessors show.
pub record EnumView (E : Type 0) : Type 0 where
  pub field : EnumField E
  pub unknown_fields : Bytes

abbrev pub enum_view : {E : Type 0} → EnumMessage E → EnumView E
enum_view m = record { field = m.field; unknown_fields = m.unknown_fields }

module _ {E : Type 0} (code : EnumCode E) where
  -- CopyFrom makes any message look like a message whose field reads as the default where it is not
  -- set, and so does the copy constructor.
  pub enum_view-copy_from :
      (from m : EnumMessage E)
      → (from.field.has ≡ false → from.field.value ≡ code.default)
      → (enum_view (copy_from code from m) ≡ enum_view from)
        × (enum_view (copy_constructor code from) ≡ enum_view from)
  unfolding copy_from copy_constructor merge_from clear new_message merge_enum EnumField.set
      EnumField.clear
  enum_view-copy_from from m h = (ground (arith, h), ground (arith, h))

  -- ByteSize is the number of bytes that SerializeWithCachedSizes adds, where an `int` holds it.
  pub byte_size-length :
      (w : WireFormat)
      → IsWireFormat w
      → (m : EnumMessage E) → length (serialize_with_cached_sizes code w m) < 2 ^ 31
      → (byte_size code w m).0 ≡ length (serialize_with_cached_sizes code w m)
  unfolding byte_size serialize_with_cached_sizes
  byte_size-length w format m short = ground (
    arith,
    length-append (put_enum w code.number 1 m.field) m.unknown_fields,
    length-put_enum w format code.number 1 m.field (omega arith),
  )
