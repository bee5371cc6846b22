-- ===== src/Proto/Nested.antt =====
-- The calls of the protocol buffer runtime library for a message within a message, which are
-- templates over the class of the inner one, and their documented behaviour.
use libchromecast.Prelude.{
  suc, ℕ, ◌+◌, ◌*◌, ◌^◌, ◌≤◌, ◌<◌, ◌≡◌, [], ◌++◌, Bytes, Option, none, some, length,
}
use libchromecast.Proto.Runtime.{WireFormat, IsWireFormat}
use libchromecast.Proto.Parser.{Parse, success, failure, Next}

pub record MessageFormat : Type 0 where
  -- WriteMessage: the number of the field, GetCachedSize of the message, and what its
  -- SerializeWithCachedSizes adds
  pub write_message : ℕ → ℕ → Bytes → Bytes
  -- MessageSizeNoVirtual, at the result of the message's ByteSize
  pub message_size : ℕ → ℕ

-- A message is written as a string is, where its cached size is the number of its bytes.
pub record IsMessageFormat (w : WireFormat) (format : IsWireFormat w) (f : MessageFormat)
    : Type 0 where
  pub write_message-eq :
      (n : ℕ) (s : Bytes)
      → f.write_message n (length s) s ≡ format.tag_bytes (8 * n + 2) ++ format.string_bytes s
  pub message_size-eq : (s : Bytes) → f.message_size (length s) ≡ w.string_size s

-- ReadMessageNoVirtual(input, value), of a class of messages: the value after it, and the stream
-- behind the message; `none` where it returns false.
pub record MessageReader (X : Type 0) : Type 0 where
  pub read_message : X → Bytes → Option (X × Bytes)

-- It runs the class's MergePartialFromCodedStream on the bytes within the length, all of which must
-- be read; more fuel than there are bytes is enough for that.
pub record IsMessageReader {X : Type 0} (w : WireFormat) (format : IsWireFormat w)
    (parse : ℕ → X → Bytes → Parse X) (r : MessageReader X) : Type 0 where
  pub read_message-string_bytes :
      (x y : X) (s rest : Bytes)
      → length s < 2 ^ 31
      → parse (suc (length s)) x s ≡ success y []
      → r.read_message x (format.string_bytes s ++ rest) ≡ some (y, rest)
  pub read_message-shrinks :
      (x y : X) (s rest : Bytes) → r.read_message x s ≡ some (y, rest) → length rest ≤ length s

module _ {M X : Type 0} where
  abbrev pub after_message : (X → M → M) → Next M → M → Option (X × Bytes) → Parse M
  after_message store next m none = failure
  after_message store next m (some (value, rest)) = next (store value m) rest

  -- DO_(ReadMessageNoVirtual(input, mutable_challenge())) and what follows it: `current` is the
  -- object that mutable_challenge() returns.
  abbrev pub read_message_into : MessageReader X → (M → X) → (X → M → M) → Next M → Next M
  read_message_into r current store next m input =
      after_message store next m (r.read_message (current m) input)
