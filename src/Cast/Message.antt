-- ===== src/Cast/Message.antt =====
-- cast_message.h, cast_message.cpp: `struct CastMessage` and its text.
use libchromecast.Prelude.{ℕ, ◌+◌, ◌%◌, [], ◌∷◌, ◌++◌, Bytes, codes, ◌==◌, if◌then◌else◌}
use libchromecast.Cast.Address.{Address, address_to_string}

-- `enum class eProtocolVersion : int`, which a cast can give any other number.
pub data ProtocolVersion : Type 0 where
  version_2_1_0 : ProtocolVersion
  other_version : ℕ → ProtocolVersion

-- `enum class ePayloadType : int`, likewise.
pub data PayloadType : Type 0 where
  string binary : PayloadType
  other_payload : ℕ → PayloadType

pub record CastMessage : Type 0 where
  pub protocol_version : ProtocolVersion
  pub address : Address
  pub payload_type : PayloadType
  pub payload_utf8 : Bytes
  pub payload_binary : Bytes

abbrev newline : Bytes
newline = 10 ∷ []

-- The loop over `payload_binary`, with `count` bytes printed: a line ends after each tenth byte,
-- and a space stands after each fifth.
binary_lines : ℕ → Bytes → Bytes
binary_lines count [] = []
binary_lines count (b ∷ rest) =
    b
    ∷ ((if (count + 1) % 10 == 0 then newline else if (count + 1) % 5 == 0 then 32 ∷ [] else [])
        ++ binary_lines (count + 1) rest)

payload_to_string : PayloadType → CastMessage → Bytes
payload_to_string string m = m.payload_utf8 ++ newline
payload_to_string _ m = binary_lines 0 m.payload_binary ++ newline

-- CastMessage::ToString
unfoldable pub message_to_string : CastMessage → Bytes
unfolding payload_to_string binary_lines
message_to_string m =
    address_to_string m.address
    ++ (newline ++ (codes "Payload: " ++ (newline ++ payload_to_string m.payload_type m)))
