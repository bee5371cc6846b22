-- ===== src/Proto/StringField/Laws.antt =====
-- The invariant of a string field, and what its accessors promise.
use libchromecast.Prelude.{Bool, true, false, ◌≡◌, ◌≢◌, refl, [], Bytes, Option, none, some, arith}
use libchromecast.Proto.StringField.{StringField, pointee, get, set, mutable, clear, set_allocated}

-- A field that is set has a string of its own, which nothing else shares; one that is not set
-- reads as empty.
abbrev IsConsistent : Bool → Option Bytes → Type 0
IsConsistent true p = p ≢ none
IsConsistent false p = pointee p ≡ []

abbrev pub IsValid : StringField → Type 0
IsValid f = IsConsistent f.has f.pointer

pub set-IsValid : (v : Bytes) (f : StringField) → IsValid (set v f)
unfolding set
set-IsValid v f = λ e. cc

pub mutable-IsValid : (f : StringField) → IsValid (mutable f)
unfolding mutable
mutable-IsValid f = ground arith

pub clear-IsValid : (f : StringField) → IsValid (clear f)
unfolding clear
clear-IsValid f = ground arith

pub set_allocated-IsValid : (p : Option Bytes) (f : StringField) → IsValid (set_allocated p f)
unfolding set_allocated
set_allocated-IsValid none f = refl
set_allocated-IsValid (some s) f = λ e. cc

-- What a reader of the field sees.
pub record View : Type 0 where
  pub has : Bool
  pub value : Bytes

abbrev pub view : StringField → View
view f = record { has = f.has; value = get f }
