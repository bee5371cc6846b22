-- ===== src/Proto/Fields/Laws.antt =====
-- google_cast_message.cpp: how long a written field is, and that what the parser does to a field
-- is what MergeFrom does to it.
use libchromecast.Prelude.{
  ℕ, ◌+◌, ◌*◌, ◌<◌, ◌≡◌, refl, Bool, true, false, some, if◌then◌else◌, arith, length, length-append,
}
use libchromecast.Proto.Runtime.{WireFormat, IsWireFormat}
use libchromecast.Proto.StringField
use libchromecast.Proto.StringField.{StringField}
use libchromecast.Proto.EnumField
use libchromecast.Proto.EnumField.{EnumField}
use libchromecast.Proto.Fields.{
  merge_string, merge_enum, read_into, put_enum, put_string, enum_total, string_total,
}

module _ (w : WireFormat) (format : IsWireFormat w) where
  pub length-put_enum :
      {E : Type 0} (number : E → ℕ) (n : ℕ) (f : EnumField E)
      → n < 16
      → length (put_enum w number n f) ≡ enum_total w number f
  length-put_enum number n f h = ground (
    arith,
    format.write_enum-eq n (number f.value),
    length-append (format.tag_bytes (8 * n)) (format.enum_bytes (number f.value)),
    format.length-tag_bytes (8 * n),
    format.length-enum_bytes (number f.value),
  )

  pub length-put_string :
      (n : ℕ) (f : StringField) → n < 16 → length (put_string w n f) ≡ string_total w f
  length-put_string n f h = ground (
    arith,
    format.write_string-eq n (StringField.get f),
    length-append (format.tag_bytes (8 * n + 2)) (format.string_bytes (StringField.get f)),
    format.length-tag_bytes (8 * n + 2),
    format.length-string_bytes (StringField.get f),
  )

if_lift :
    {A B : Type 0} (b : Bool) (x y : A) (k : A → B)
    → (if b then k x else k y) ≡ k (if b then x else y)
if_lift true x y k = refl
if_lift false x y k = refl

-- What a parsed string does to its field is what MergeFrom does to it, and so for an enum.
module _ {M : Type 0} where
  pub lift_string :
      (f g : StringField) (put : StringField → M)
      → (if f.has then put (read_into (StringField.get f) g) else put g) ≡ put (merge_string f g)
  unfolding merge_string read_into StringField.set StringField.mutable
  lift_string f g put =
      if_lift f.has (record { has = true; pointer = some (StringField.get f) }) g put

  pub lift_enum :
      {E : Type 0} (f g : EnumField E) (put : EnumField E → M)
      → (if f.has then put (EnumField.set f.value g) else put g) ≡ put (merge_enum f g)
  unfolding merge_enum EnumField.set
  lift_enum f g put = if_lift f.has (record { has = true; value = f.value }) g put
