-- ===== src/Proto/MessageField.antt =====
-- google_cast_message.h, google_cast_message.cpp: a singular field whose value is a message, with
-- the accessors that are the same code for each such field; shown at `challenge`.
pub mod Laws
use libchromecast.Prelude.{ℕ, ◌+◌, Bool, true, false, [], Bytes, Option, none, some, if◌then◌else◌}
use libchromecast.Proto.Nested.{MessageFormat}

-- The field's bit of `_has_bits_`, and its pointer.
pub record MessageField (X : Type 0) : Type 0 where
  pub has : Bool
  pub pointer : Option X

-- `fresh` is a new object of the class, which the default instance shows as well.
module _ {X : Type 0} where
  -- SharedCtor: a null pointer, and no bit.
  abbrev pub unset : MessageField X
  unset = record { has = false; pointer = none }

  abbrev pub pointee : X → Option X → X
  pointee fresh none = fresh
  pointee fresh (some x) = x

  -- challenge()
  abbrev pub get : X → MessageField X → X
  get fresh f = pointee fresh f.pointer

  -- `if (challenge_ != NULL) challenge_->…`
  abbrev pub on_pointer : (X → X) → Option X → Option X
  on_pointer change none = none
  on_pointer change (some x) = some (change x)

  -- mutable_challenge(), whose caller then changes the object
  unfoldable pub mutable : X → (X → X) → MessageField X → MessageField X
  mutable fresh change f = record { has = true; pointer = some (change (get fresh f)) }

  -- clear_challenge()
  unfoldable pub clear : (X → X) → MessageField X → MessageField X
  clear clear_message f = record { has = false; pointer = on_pointer clear_message f.pointer }

  -- release_challenge(): the pointer, and the field after it
  unfoldable pub release : MessageField X → Option X × MessageField X
  release f = (f.pointer, unset)

  -- set_allocated_challenge(AuthChallenge*)
  unfoldable pub set_allocated : Option X → MessageField X → MessageField X
  set_allocated none f = unset
  set_allocated (some x) f = record { has = true; pointer = some x }

  -- Clear, for the field: `if (has_challenge()) { if (challenge_ != NULL) challenge_->Clear(); }`,
  -- and the bit with all others
  unfoldable pub clear_field : (X → X) → MessageField X → MessageField X
  unfolding clear
  clear_field clear_message f = if f.has then clear clear_message f else record f { has = false }

  -- MergeFrom, for the field: `if (from.has_challenge())
  -- mutable_challenge()->MergeFrom(from.challenge())`
  unfoldable pub merge_field : X → (X → X → X) → MessageField X → MessageField X → MessageField X
  unfolding mutable
  merge_field fresh merge from to =
      if from.has then mutable fresh (merge (get fresh from)) to else to

  module _ (format : MessageFormat) where
    -- SerializeWithCachedSizes, for the field; `cached_size` is GetCachedSize.
    unfoldable pub put_message : X → (X → ℕ) → (X → Bytes) → ℕ → MessageField X → Bytes
    put_message fresh cached_size serialize n f =
        if f.has
        then format.write_message n (cached_size (get fresh f)) (serialize (get fresh f))
        else []

    -- ByteSize, for the field, which leaves the size in the object.
    unfoldable pub size_field : X → (X → ℕ × X) → MessageField X → ℕ × MessageField X
    size_field fresh byte_size f =
        if f.has
        then (let (size, sized) = byte_size (get fresh f) in
            (
              1 + format.message_size size,
              record f { pointer = on_pointer (λ x. sized) f.pointer },
            ))
        else (0, f)
