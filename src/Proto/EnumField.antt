-- ===== src/Proto/EnumField.antt =====
-- google_cast_message.h: the accessors of a singular enum field, which are the same code for each
-- such field; shown at `protocol_version`. The number in the field is that of an enumerator: the
-- setter takes an enumerator, and asserts it.
use libchromecast.Prelude.{Bool, true, false}

pub record EnumField (E : Type 0) : Type 0 where
  pub has : Bool
  pub value : E

module _ {E : Type 0} where
  -- SharedCtor, with the default of the field
  abbrev pub unset : E → EnumField E
  unset default = record { has = false; value = default }

  -- set_protocol_version
  unfoldable pub set : E → EnumField E → EnumField E
  set value f = record { has = true; value = value }

  -- clear_protocol_version
  unfoldable pub clear : E → EnumField E → EnumField E
  clear default f = record { has = false; value = default }
