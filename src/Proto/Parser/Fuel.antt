-- ===== src/Proto/Parser/Fuel.antt =====
-- google_cast_message.cpp: the parsing loop ends, where each label does: a round takes a byte of
-- the input at least.
use libchromecast.Prelude.{
  ℕ, zero, suc, ◌≤◌, ◌<◌, ◌≢◌, Bool, true, false, ◌||◌, inl, inr, Bytes, if◌then◌else◌, arith,
  length, length-append, ap, ◌==◌, Bool-cases, Option-cases,
}
use libchromecast.Proto.Runtime.{WireFormat, IsWireFormat, wiretype_end_group}
use libchromecast.Proto.Parser.{
  out_of_fuel, Next, expect, read_string_into, read_enum_into, expect_end, handle_unusual,
  field_case, parse_round, parse_loop,
}

-- On inputs of fewer than `n` bytes `next` does not run out of fuel.
abbrev pub Ends : {M : Type 0} → ℕ → Next M → Type 0
Ends n next = (m : _) (input : Bytes) → length input < n → next m input ≢ out_of_fuel

module _ (w : WireFormat) (format : IsWireFormat w) {M : Type 0} (n : ℕ) (next : Next M)
    (ends : Ends n next) where
  -- `next` is what follows where the tag is not there.
  pub expect-Ends : (t : ℕ) (label : Next M) → Ends n label → Ends n (expect w t label next)
  expect-Ends t label label_ends m input h = elim (format.expect_tag-sound t input) [
    | inl missing ↦ rw missing (ends m input h)
    | inr (rest, found, e) ↦
        rw found
          (label_ends m rest (omega (arith, ap length e, length-append (format.tag_bytes t) rest)))
  ]

  -- The label is called on less than the input, where the tag is read.
  pub expect-shorter-Ends :
      (t : ℕ) (k : ℕ) (label : Next M)
      → t < 128
      → n ≤ suc k
      → Ends k label
      → Ends n (expect w t label next)
  expect-shorter-Ends t k label small less label_ends m input h =
      elim (format.expect_tag-sound t input) [
        | inl missing ↦ rw missing (ends m input h)
        | inr (rest, found, e) ↦ rw found (
            label_ends m rest (
              omega (
                arith,
                ap length e,
                length-append (format.tag_bytes t) rest,
                format.length-tag_bytes t small,
              )))
      ]

  pub read_string_into-Ends : (store : Bytes → M → M) → Ends n (read_string_into w store next)
  read_string_into-Ends store m input h = elim (Option-cases (w.read_string input)) [
    | inl e ↦ rw e (λ t. cc)
    | inr ((value, rest), e) ↦
        rw e (ends _ rest (omega (arith, format.read_string-shrinks input value rest e)))
  ]

  pub expect_end-Ends : Ends n (expect_end w next)
  expect_end-Ends m input h = elim (Bool-cases (w.expect_at_end input)) [
    | inl e ↦ rw e (λ t. cc)
    | inr e ↦ rw e (ends m input h)
  ]

  module _ (add_unknown : Bytes → M → M) where
    pub read_enum_into-Ends :
        (t : ℕ) (is_valid : ℕ → Bool) (store : ℕ → M → M)
        → Ends n (read_enum_into w add_unknown t is_valid store next)
    read_enum_into-Ends t is_valid store m input h = elim (Option-cases (w.read_enum input)) [
      | inl e ↦ rw e (λ t. cc)
      | inr ((value, rest), e) ↦
          rw e (ends _ rest (omega (arith, format.read_enum-shrinks input value rest e)))
    ]

    pub handle_unusual-Ends : (tag : ℕ) → Ends n (handle_unusual w add_unknown tag next)
    unfolding handle_unusual
    handle_unusual-Ends tag m input h =
        elim (Bool-cases (tag == 0 || w.tag_wire_type tag == wiretype_end_group)) [
          | inl e ↦ rw e (λ t. cc)
          | inr e ↦ rw e (elim (Option-cases (w.skip_field tag input)) [
            | inl none_left ↦ rw none_left (λ t. cc)
            | inr ((unknown, rest), skipped) ↦ rw skipped (
                ends _ rest
                  (omega (arith, format.skip_field-shrinks tag input unknown rest skipped)))
          ])
        ]

    pub field_case-Ends :
        (tag number expected : ℕ) (label other : Next M)
        → Ends n label
        → Ends n other
        → Ends n (field_case w add_unknown tag next number expected label other)
    unfolding field_case
    field_case-Ends tag number expected label other label_ends other_ends m input h =
        elim (Bool-cases (w.tag_field_number tag == number)) [
          | inr e ↦ rw e (other_ends m input h)
          | inl e ↦ rw e (elim (Bool-cases (tag == expected)) [
            | inl same ↦ rw same (label_ends m input h)
            | inr differs ↦ rw differs (handle_unusual-Ends tag m input h)
          ])
        ]

module _ (w : WireFormat) (format : IsWireFormat w) {M : Type 0} (add_unknown : Bytes → M → M)
    (parse_field : ℕ → Next M → Next M)
    -- At the tag 0 the `switch` ends the loop.
    (zero_ends : (next : Next M) (m : M) (input : Bytes) → parse_field 0 next m input ≢ out_of_fuel)
    -- The labels end, where the loop behind them does.
    (field_ends : (n : ℕ) (next : Next M)
      → Ends n next
      → (tag : ℕ) → Ends n (parse_field tag next)) where
  -- What a round does with a tag that it has read.
  after_tag-Ends :
      (n : ℕ) (next : Next M)
      → Ends n next
      → (tag : ℕ) (within : Bool) (rest : Bytes) (m : M) → (tag ≢ 0 → length rest < n)
      → (if within
          then parse_field tag next m rest
          else handle_unusual w add_unknown tag next m rest)
        ≢ out_of_fuel
  unfolding handle_unusual
  after_tag-Ends n next ends zero true rest m h = zero_ends next m rest
  after_tag-Ends n next ends zero false rest m h = λ t. cc
  after_tag-Ends n next ends (suc t) true rest m h =
      field_ends n next ends (suc t) m rest (h (omega arith))
  after_tag-Ends n next ends (suc t) false rest m h =
      handle_unusual-Ends w format n next ends add_unknown (suc t) m rest (h (omega arith))

  -- More fuel than the input has bytes is enough.
  pub parse_loop-Ends : (fuel : ℕ) → Ends fuel (parse_loop w add_unknown parse_field fuel)
  unfolding parse_loop parse_round
  parse_loop-Ends zero m input h = absurd (omega arith)
  parse_loop-Ends (suc fuel) m input h =
      after_tag-Ends fuel (parse_loop w add_unknown parse_field fuel) (parse_loop-Ends fuel)
        (w.read_tag_with_cutoff input).0 (w.read_tag_with_cutoff input).1
        (w.read_tag_with_cutoff input).2 m λ ne. omega (arith, format.read_tag-shrinks input ne)
