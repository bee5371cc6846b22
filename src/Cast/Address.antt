-- ===== src/Cast/Address.antt =====
-- cast_message.h, cast_message.cpp: `struct CastMessage::Address` and its operator<, the key and
-- the comparator of the map of channels.
pub mod Order
use libchromecast.Prelude.{
  zero, ℤ, pos, negsuc, compare_strings, Bool, true, false, not, ◌≡◌, List, ◌∷◌, [], ◌++◌, Bytes,
  codes, str_eq, str_compare, Ordering, if◌then◌else◌,
}

pub record Address : Type 0 where
  pub source : Bytes
  pub destination : Bytes
  pub namespace : Bytes

abbrev pub wildcard : Bytes
wildcard = codes "*"

-- std::string's operator<, by the order of its operands
abbrev pub is_negative : Ordering → Bool
is_negative Ordering.lt = true
is_negative _ = false

-- `result != 0`
abbrev pub is_nonzero : ℤ → Bool
is_nonzero (pos zero) = false
is_nonzero _ = true

-- `result == -1`
abbrev pub is_minus_one : ℤ → Bool
is_minus_one (negsuc zero) = true
is_minus_one _ = false

-- CastMessage::Address::operator<, over any library's std::string::compare
abbrev pub less_by : (Bytes → Bytes → ℤ) → Address → Address → Bool
less_by compare a b =
    let source_id_compare = compare a.source b.source in
    let namespace_id_compare = compare a.namespace b.namespace in
    if is_nonzero source_id_compare
    then is_minus_one source_id_compare
    else if is_nonzero namespace_id_compare
    then is_minus_one namespace_id_compare
    else if str_eq a.destination wildcard
    then not (str_eq b.destination wildcard)
    else is_negative (str_compare a.destination b.destination)

-- CastMessage::Address::operator< over Microsoft's library, for which the code is written: no other
-- library has the constructor of std::exception from a text that it calls throughout.
unfoldable pub less : Address → Address → Bool
less = less_by compare_strings

abbrev newline : Bytes
newline = 10 ∷ []

-- CastMessage::Address::ToString
unfoldable pub address_to_string : Address → Bytes
address_to_string a =
    codes "Source: "
    ++ (a.source
        ++ (newline
            ++ (codes "Destination: "
                ++ (a.destination
                    ++ (newline ++ (codes "Namespace: " ++ (a.namespace ++ newline)))))))

-- std::swap of the source and the destination, which turns a channel's own address into the one
-- that messages for it carry.
unfoldable pub swap_ends : Address → Address
swap_ends a = record a { source = a.destination; destination = a.source }
