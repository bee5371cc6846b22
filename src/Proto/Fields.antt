-- ===== src/Proto/Fields.antt =====
-- google_cast_message.cpp: what each generated class does with one of its fields in Clear,
-- MergeFrom, SerializeWithCachedSizes and ByteSize.
pub mod Laws
use libchromecast.Prelude.{ℕ, ◌+◌, Bool, true, false, [], Bytes, some, if◌then◌else◌}
use libchromecast.Proto.Runtime.{WireFormat}
use libchromecast.Proto.StringField
use libchromecast.Proto.StringField.{StringField}
use libchromecast.Proto.EnumField
use libchromecast.Proto.EnumField.{EnumField}

-- Clear, for a string field: `if (has_source_id()) { if it has a string of its own, clear it }`,
-- and the bit with all others.
unfoldable pub clear_string : StringField → StringField
unfolding StringField.clear
clear_string f = if f.has then StringField.clear f else record f { has = false }

unfoldable pub drop_bit : StringField → StringField
drop_bit f = record f { has = false }

-- MergeFrom, for a field: `if (from.has_source_id()) set_source_id(from.source_id())`
unfoldable pub merge_string : StringField → StringField → StringField
unfolding StringField.set
merge_string from to = if from.has then StringField.set (StringField.get from) to else to

unfoldable pub merge_enum : {E : Type 0} → EnumField E → EnumField E → EnumField E
unfolding EnumField.set
merge_enum from to = if from.has then EnumField.set from.value to else to

-- ReadString(input, this->mutable_source_id()), on the field
unfoldable pub read_into : Bytes → StringField → StringField
unfolding StringField.mutable
read_into value f = record (StringField.mutable f) { pointer = some value }

module _ (w : WireFormat) where
  -- SerializeWithCachedSizes, for a field: it is written where its bit is set.
  abbrev pub put_enum : {E : Type 0} → (E → ℕ) → ℕ → EnumField E → Bytes
  put_enum number n f = if f.has then w.write_enum n (number f.value) else []

  abbrev pub put_string : ℕ → StringField → Bytes
  put_string n f = if f.has then w.write_string n (StringField.get f) else []

  -- ByteSize, for a field
  abbrev pub enum_total : {E : Type 0} → (E → ℕ) → EnumField E → ℕ
  enum_total number f = if f.has then 1 + w.enum_size (number f.value) else 0

  abbrev pub string_total : StringField → ℕ
  string_total f = if f.has then 1 + w.string_size (StringField.get f) else 0
