-- ===== src/Proto/StringField.antt =====
-- google_cast_message.h: the accessors of a singular string or bytes field, which are the same
-- code for each such field; shown at `source_id`.
pub mod Laws
use libchromecast.Prelude.{Bool, true, false, [], Bytes, Option, none, some, c_str, take, ℕ}

-- The field's bit of `_has_bits_`, and its pointer: `none` is the shared empty string of the
-- runtime library, `some s` a string of its own.
pub record StringField : Type 0 where
  pub has : Bool
  pub pointer : Option Bytes

-- SharedCtor: the pointer to the shared empty string, and no bit.
abbrev pub unset : StringField
unset = record { has = false; pointer = none }

abbrev pub pointee : Option Bytes → Bytes
pointee none = []
pointee (some s) = s

-- source_id()
abbrev pub get : StringField → Bytes
get f = pointee f.pointer

-- set_source_id(const std::string&)
unfoldable pub set : Bytes → StringField → StringField
set value f = record { has = true; pointer = some value }

-- set_source_id(const char*)
unfoldable pub set_char : Bytes → StringField → StringField
unfolding set
set_char value f = set (c_str value) f

-- set_source_id(const char*, size_t)
unfoldable pub set_pointer : Bytes → ℕ → StringField → StringField
unfolding set
set_pointer value size f = set (take size value) f

abbrev allocate : Option Bytes → Option Bytes
allocate none = some []
allocate (some s) = some s

-- mutable_source_id(), whose caller then writes the string
unfoldable pub mutable : StringField → StringField
mutable f = record { has = true; pointer = allocate f.pointer }

abbrev empty_own : Option Bytes → Option Bytes
empty_own none = none
empty_own (some s) = some []

-- clear_source_id(): a string of the field's own stays, emptied.
unfoldable pub clear : StringField → StringField
clear f = record { has = false; pointer = empty_own f.pointer }

-- release_source_id(): the field's own string or null, and the field after it
unfoldable pub release : StringField → Option Bytes × StringField
release f = (f.pointer, unset)

-- set_allocated_source_id(std::string*)
unfoldable pub set_allocated : Option Bytes → StringField → StringField
set_allocated none f = unset
set_allocated (some s) f = record { has = true; pointer = some s }
