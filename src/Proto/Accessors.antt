-- ===== src/Proto/Accessors.antt =====
-- google_cast_message.h: the inline accessors of a field of a generated class.
use libchromecast.Prelude.{ℕ, Bool, Bytes, Option}
use libchromecast.Proto.StringField
use libchromecast.Proto.StringField.{StringField}
use libchromecast.Proto.EnumField
use libchromecast.Proto.EnumField.{EnumField}

-- has_f, clear_f, f, set_f three times, mutable_f with what the caller writes, release_f and
-- set_allocated_f, of a string or bytes field f of the class `M`.
pub record StringAccessors (M : Type 0) : Type 0 where
  pub has : M → Bool
  pub clear : M → M
  pub get : M → Bytes
  pub set : Bytes → M → M
  pub set_char : Bytes → M → M
  pub set_pointer : Bytes → ℕ → M → M
  pub mutable : M → M
  pub release : M → Option Bytes × M
  pub set_allocated : Option Bytes → M → M

-- has_f, clear_f, f and set_f of an enum field f.
pub record EnumAccessors (M E : Type 0) : Type 0 where
  pub has : M → Bool
  pub clear : M → M
  pub get : M → E
  pub set : E → M → M

-- `field` reads the field, and `put` replaces it.
module _ {M : Type 0} where
  unfoldable pub string_accessors : (M → StringField) → (StringField → M → M) → StringAccessors M
  unfolding StringField.clear StringField.set StringField.set_char StringField.set_pointer
      StringField.mutable StringField.release StringField.set_allocated
  string_accessors field put = record {
    has = λ m. (field m).has;
    clear = λ m. put (StringField.clear (field m)) m;
    get = λ m. StringField.get (field m);
    set = λ value m. put (StringField.set value (field m)) m;
    set_char = λ value m. put (StringField.set_char value (field m)) m;
    set_pointer = λ value size m. put (StringField.set_pointer value size (field m)) m;
    mutable = λ m. put (StringField.mutable (field m)) m;
    release = λ m. ((StringField.release (field m)).0, put (StringField.release (field m)).1 m);
    set_allocated = λ p m. put (StringField.set_allocated p (field m)) m;
  }

  unfoldable pub enum_accessors :
      {E : Type 0} → E → (M → EnumField E) → (EnumField E → M → M) → EnumAccessors M E
  unfolding EnumField.clear EnumField.set
  enum_accessors default field put = record {
    has = λ m. (field m).has;
    clear = λ m. put (EnumField.clear default (field m)) m;
    get = λ m. (field m).value;
    set = λ value m. put (EnumField.set value (field m)) m;
  }
