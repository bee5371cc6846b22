-- ===== src/Proto/MessageField/Laws.antt =====
-- google_cast_message.cpp: ByteSize of a field whose value is a message leaves the size that
-- SerializeWithCachedSizes writes, and what the parser does to the field is what MergeFrom does.
use libchromecast.Prelude.{
  ℕ, ◌+◌, ◌*◌, ◌^◌, ◌<◌, ◌≡◌, ◌≢◌, refl, Bool, true, false, [], ◌++◌, Bytes, Option, none, some,
  if◌then◌else◌, arith, length, length-append,
}
use libchromecast.Proto.Runtime.{WireFormat, IsWireFormat}
use libchromecast.Proto.Nested.{MessageFormat, IsMessageFormat}
use libchromecast.Proto.MessageField.{
  MessageField, get, put_message, size_field, merge_field, mutable,
}

-- A field that is set has an object of its own.
abbrev pub IsOwn : {X : Type 0} → MessageField X → Type 0
IsOwn field = field.has ≡ true → field.pointer ≢ none

module _ (w : WireFormat) (format : IsWireFormat w) {X : Type 0} (fresh : X)
    (serialize : X → Bytes) where
  -- The bytes of a field whose object has its size cached.
  abbrev pub written : ℕ → MessageField X → Bytes
  written n field =
      if field.has
      then format.tag_bytes (8 * n + 2) ++ format.string_bytes (serialize (get fresh field))
      else []

  module _ (f : MessageFormat) (is_format : IsMessageFormat w format f) (cached_size : X → ℕ)
      (byte_size : X → ℕ × X) where
    -- ByteSize of the class gives the number of bytes that are written, where an `int` holds it, and
    -- caches it; what is written does not depend on what was cached.
    abbrev pub Sizes : Type 0
    Sizes =
        (x : X)
        → length (serialize x) < 2 ^ 31
        → ((byte_size x).0 ≡ length (serialize x))
          × (cached_size (byte_size x).1 ≡ length (serialize x))
          × (serialize (byte_size x).1 ≡ serialize x)

    size-put :
        Sizes
        → (n : ℕ) → n < 15
        → (has : Bool) (pointer : Option X)
        → (let field : MessageField X = record { has = has; pointer = pointer } in
            IsOwn field
            → length (serialize (get fresh field)) < 2 ^ 31
            → (put_message f fresh cached_size serialize n (size_field f fresh byte_size field).1
                ≡ written n field)
              × ((size_field f fresh byte_size field).0 ≡ length (written n field)))
    unfolding put_message size_field
    size-put sizes n small false pointer own short = (refl, refl)
    size-put sizes n small true none own short = absurd (own refl refl)
    size-put sizes n small true (some x) own short = (
      rw ((sizes x short).1, (sizes x short).2) (is_format.write_message-eq n (serialize x)),
      rw ((sizes x short).0, is_format.message_size-eq (serialize x))
          (omega (
            arith,
            length-append (format.tag_bytes (8 * n + 2)) (format.string_bytes (serialize x)),
            format.length-tag_bytes (8 * n + 2),
            format.length-string_bytes (serialize x),
          )),
    )

    -- What is written after ByteSize, and its size.
    pub put_message-size_field :
        Sizes
        → (n : ℕ) (field : MessageField X) → n < 15
        → IsOwn field
        → length (serialize (get fresh field)) < 2 ^ 31
        → (put_message f fresh cached_size serialize n (size_field f fresh byte_size field).1
            ≡ written n field)
          × ((size_field f fresh byte_size field).0 ≡ length (written n field))
    put_message-size_field sizes n field small own short =
        size-put sizes n small field.has field.pointer own short

if_lift :
    {A B : Type 0} (b : Bool) (x y : A) (k : A → B)
    → (if b then k x else k y) ≡ k (if b then x else y)
if_lift true x y k = refl
if_lift false x y k = refl

-- The object that was read is merged into the field.
pub lift_message :
    {M X : Type 0} (fresh : X) (merge : X → X → X) (from to : MessageField X)
    (put : MessageField X → M)
    → (if from.has
        then put (record { has = true; pointer = some (merge (get fresh from) (get fresh to)) })
        else put to)
      ≡ put (merge_field fresh merge from to)
unfolding merge_field mutable
lift_message fresh merge from to put =
    if_lift from.has (record { has = true; pointer = some (merge (get fresh from) (get fresh to)) })
      to put
