-- ===== src/Proto/Parser.antt =====
-- google_cast_message.cpp: the parts that MergePartialFromCodedStream of each generated class is
-- made of. Each label of the function is a function of its own, and a `goto` a call of it; `break`
-- goes on with the loop.
pub mod Steps
pub mod Fuel
pub mod Jumps
use libchromecast.Prelude.{
  ℕ, zero, suc, Bool, true, false, ◌||◌, Bytes, Option, none, some, ◌==◌, if◌then◌else◌,
}
use libchromecast.Proto.Runtime.{WireFormat, wiretype_end_group}

-- How the loop ends: by `goto success`, with what it left of the input, or by `goto failure`,
-- whose half-read message no caller looks at. `out_of_fuel` is no result of the program.
pub data Parse (M : Type 0) : Type 0 where
  success : M → Bytes → Parse M
  failure out_of_fuel : Parse M

-- `break`: what the loop does next with a message and the rest of the input.
abbrev pub Next : Type 0 → Type 0
Next M = M → Bytes → Parse M

module _ (w : WireFormat) {M : Type 0} where
  -- `if (input->ExpectTag(t)) goto label;`, and what follows it
  abbrev pub expect : ℕ → Next M → Next M → Next M
  expect t label next m input =
      let (found, rest) = w.expect_tag t input in if found then label m rest else next m rest

  abbrev pub after_string : (Bytes → M → M) → Next M → M → Option (Bytes × Bytes) → Parse M
  after_string store next m none = failure
  after_string store next m (some (value, rest)) = next (store value m) rest

  -- DO_(ReadString(input, …)) and what follows it
  abbrev pub read_string_into : (Bytes → M → M) → Next M → Next M
  read_string_into store next m input = after_string store next m (w.read_string input)

  -- `if (input->ExpectAtEnd()) goto success; break;`
  abbrev pub expect_end : Next M → Next M
  expect_end next m input = if w.expect_at_end input then success m input else next m input

-- `add_unknown` adds to the unknown fields of a message.
module _ (w : WireFormat) {M : Type 0} (add_unknown : Bytes → M → M) where
  -- an enum's number: set if it is valid, and kept among the unknown fields if not
  abbrev pub store_enum : ℕ → (ℕ → Bool) → (ℕ → M → M) → ℕ → M → M
  store_enum tag is_valid store value m =
      if is_valid value
      then store value m
      else add_unknown (w.write_varint32 value) (add_unknown (w.write_varint32 tag) m)

  abbrev pub after_enum : ℕ → (ℕ → Bool) → (ℕ → M → M) → Next M → M → Option (ℕ × Bytes) → Parse M
  after_enum tag is_valid store next m none = failure
  after_enum tag is_valid store next m (some (value, rest)) =
      next (store_enum tag is_valid store value m) rest

  -- DO_(ReadPrimitive<int, TYPE_ENUM>(input, &value)) and what follows it
  abbrev pub read_enum_into : ℕ → (ℕ → Bool) → (ℕ → M → M) → Next M → Next M
  read_enum_into tag is_valid store next m input =
      after_enum tag is_valid store next m (w.read_enum input)

  abbrev pub after_skip : Next M → M → Option (Bytes × Bytes) → Parse M
  after_skip next m none = failure
  after_skip next m (some (unknown, rest)) = next (add_unknown unknown m) rest

  -- the label handle_unusual
  unfoldable pub handle_unusual : ℕ → Next M → Next M
  handle_unusual tag next m input =
      if tag == 0 || w.tag_wire_type tag == wiretype_end_group
      then success m input
      else after_skip next m (w.skip_field tag input)

  -- `case number: if (tag == expected) … else goto handle_unusual;`, or the cases below it
  unfoldable pub field_case : ℕ → Next M → ℕ → ℕ → Next M → Next M → Next M
  field_case tag next number expected label other =
      if w.tag_field_number tag == number
      then if tag == expected then label else handle_unusual tag next
      else other

  -- `parse_field` is the `switch`, at a tag within the cutoff.
  module _ (parse_field : ℕ → Next M → Next M) where
    -- one round of `for (;;)`
    unfoldable pub parse_round : Next M → Next M
    parse_round next m input =
        let (tag, within, rest) = w.read_tag_with_cutoff input in
        if within then parse_field tag next m rest else handle_unusual tag next m rest

    -- `for (;;)`
    unfoldable pub parse_loop : ℕ → Next M
    parse_loop zero m input = out_of_fuel
    parse_loop (suc fuel) m input = parse_round (parse_loop fuel) m input
