-- ===== src/Proto/Parser/Jumps.antt =====
-- google_cast_message.cpp: the jumps of ExpectTag and ExpectAtEnd save a round of the loop, and
-- nothing else: the parser does what the loop does that goes through its `switch` for every field.
use libchromecast.Prelude.{
  ℕ, zero, suc, ◌≤◌, ◌<◌, ◌≡◌, ◌≢◌, refl, sym, ap, ◌∙◌, subst, Bool, true, false, ◌||◌, inl, inr,
  [], ◌++◌, Bytes, if◌then◌else◌, arith, length, length-append, ◌==◌, Bool-cases, Option-cases,
}
use libchromecast.Proto.Runtime.{WireFormat, IsWireFormat, wiretype_end_group}
use libchromecast.Proto.Parser.{
  success, Next, expect, expect_end, read_string_into, read_enum_into, handle_unusual, field_case,
  parse_round, parse_loop,
}

-- On inputs of fewer than `n` bytes `f` and `g` do the same.
abbrev pub Agree : {M : Type 0} → ℕ → Next M → Next M → Type 0
Agree n f g = (m : _) (input : Bytes) → length input < n → f m input ≡ g m input

module _ (w : WireFormat) (format : IsWireFormat w) {M : Type 0} (n : ℕ) where
  pub read_string_into-Agree :
      (store : Bytes → M → M) (f g : Next M)
      → Agree n f g
      → Agree n (read_string_into w store f) (read_string_into w store g)
  read_string_into-Agree store f g same m input h = elim (Option-cases (w.read_string input)) [
    | inl e ↦ rw e
    | inr ((value, rest), e) ↦
        rw e (same _ rest (omega (arith, format.read_string-shrinks input value rest e)))
  ]

  module _ (add_unknown : Bytes → M → M) where
    pub read_enum_into-Agree :
        (t : ℕ) (is_valid : ℕ → Bool) (store : ℕ → M → M) (f g : Next M)
        → Agree n f g
        → Agree n
            (read_enum_into w add_unknown t is_valid store f)
            (read_enum_into w add_unknown t is_valid store g)
    read_enum_into-Agree t is_valid store f g same m input h =
        elim (Option-cases (w.read_enum input)) [
          | inl e ↦ rw e
          | inr ((value, rest), e) ↦
              rw e (same _ rest (omega (arith, format.read_enum-shrinks input value rest e)))
        ]

    pub handle_unusual-Agree :
        (tag : ℕ) (f g : Next M)
        → Agree n f g
        → Agree n (handle_unusual w add_unknown tag f) (handle_unusual w add_unknown tag g)
    unfolding handle_unusual
    handle_unusual-Agree tag f g same m input h =
        elim (Bool-cases (tag == 0 || w.tag_wire_type tag == wiretype_end_group)) [
          | inl e ↦ rw e
          | inr e ↦ rw e (elim (Option-cases (w.skip_field tag input)) [
            | inl none_left ↦ rw none_left
            | inr ((unknown, rest), skipped) ↦ rw skipped (
                same _ rest
                  (omega (arith, format.skip_field-shrinks tag input unknown rest skipped)))
          ])
        ]

    pub field_case-Agree :
        (tag number expected : ℕ) (f g label label' other other' : Next M)
        → Agree n f g
        → Agree n label label'
        → Agree n other other'
        → Agree n
            (field_case w add_unknown tag f number expected label other)
            (field_case w add_unknown tag g number expected label' other')
    unfolding field_case
    field_case-Agree tag number expected f g label label' other other' same labels others m input
          h =
        elim (Bool-cases (w.tag_field_number tag == number)) [
          | inr e ↦ rw e (others m input h)
          | inl e ↦ rw e (elim (Bool-cases (tag == expected)) [
            | inl is ↦ rw is (labels m input h)
            | inr differs ↦ rw differs (handle_unusual-Agree tag f g same m input h)
          ])
        ]

-- `plain` is a `switch` without a jump, and `next` goes on as a loop with it does.
module _ (w : WireFormat) (format : IsWireFormat w) {M : Type 0} (plain : ℕ → Next M → Next M) where
  pub record IsLoop (n : ℕ) (next : Next M) : Type 0 where
    pub at_tag :
        (t : ℕ) (m : M) (rest : Bytes)
        → 0 < t
        → t < 128
        → length (format.tag_bytes t ++ rest) < n
        → next m (format.tag_bytes t ++ rest) ≡ plain t next m rest
    pub at_end : (m : M) → 0 < n → next m [] ≡ success m []

  module _ (n : ℕ) (f next : Next M) (same : Agree n f next) (is_loop : IsLoop n next) where
    pub expect-Agree :
        (t : ℕ) (label : Next M)
        → 0 < t
        → t < 128
        → Agree n label (plain t next)
        → Agree n (expect w t label f) next
    expect-Agree t label pos small labels m input h = elim (format.expect_tag-sound t input) [
      | inl missing ↦ rw missing (same m input h)
      | inr (rest, found, e) ↦ rw found (
          labels m rest (omega (arith, h, ap length e, length-append (format.tag_bytes t) rest))
          ∙ (sym (is_loop.at_tag t m rest pos small (subst (λ s. length s < n) e h))
              ∙ ap (next m) (sym e)))
    ]

    pub expect_end-Agree : Agree n (expect_end w f) next
    expect_end-Agree m input h = elim (Bool-cases (w.expect_at_end input)) [
      | inr more ↦ rw more (same m input h)
      | inl done ↦
          let e = format.expect_at_end-sound input done in
          rw done (ap (success m) e ∙ (sym (is_loop.at_end m (omega arith)) ∙ ap (next m) (sym e)))
    ]

module _ (w : WireFormat) (format : IsWireFormat w) {M : Type 0} (add_unknown : Bytes → M → M)
    (plain : ℕ → Next M → Next M)
    (plain_zero : (next : Next M) (m : M) (input : Bytes) → plain 0 next m input ≡ success m input)
    (plain-Agree : (n : ℕ) (f g : Next M)
      → Agree n f g
      → (tag : ℕ) → Agree n (plain tag f) (plain tag g)) where
  abbrev plain_loop : ℕ → Next M
  plain_loop = parse_loop w add_unknown plain

  -- A round does the same, where the `switch` and what follows do.
  round-Agree :
      (n : ℕ) (f g : Next M) (field : ℕ → Next M → Next M)
      → ((m : M) (input : Bytes) → field 0 f m input ≡ success m input)
      → ((tag : ℕ) → Agree n (field tag f) (plain tag g))
      → Agree n f g
      → Agree (suc n) (parse_round w add_unknown field f) (parse_round w add_unknown plain g)
  unfolding parse_round handle_unusual
  round-Agree n f g field zero_ends fields same m input h =
      go (w.read_tag_with_cutoff input).0 (w.read_tag_with_cutoff input).1
        (w.read_tag_with_cutoff input).2 λ ne. omega (arith, format.read_tag-shrinks input ne)
    where
      go :
          (tag : ℕ) (within : Bool) (rest : Bytes)
          → (tag ≢ 0 → length rest < n)
          → (if within then field tag f m rest else handle_unusual w add_unknown tag f m rest)
            ≡ (if within then plain tag g m rest else handle_unusual w add_unknown tag g m rest)
      go zero true rest less = zero_ends m rest ∙ sym (plain_zero g m rest)
      go zero false rest less = refl
      go (suc t) true rest less = fields (suc t) m rest (less (omega arith))
      go (suc t) false rest less =
          handle_unusual-Agree w format n add_unknown (suc t) f g same m rest (less (omega arith))

  -- The plain loop's fuel does not show, where it is enough.
  plain_loop-fuel : (k j : ℕ) → k ≤ j → Agree k (plain_loop k) (plain_loop j)
  unfolding parse_loop
  plain_loop-fuel zero j less m input h = absurd (omega arith)
  plain_loop-fuel (suc k) zero less m input h = absurd (omega arith)
  plain_loop-fuel (suc k) (suc j) less m input h =
      round-Agree k (plain_loop k) (plain_loop j) plain (plain_zero (plain_loop k))
        (plain-Agree k (plain_loop k) (plain_loop j) (plain_loop-fuel k j (omega arith)))
        (plain_loop-fuel k j (omega arith)) m input h

  plain_loop-IsLoop : (k : ℕ) → IsLoop w format plain k (plain_loop k)
  unfolding parse_loop parse_round handle_unusual
  plain_loop-IsLoop zero = record {
    at_tag = λ t m rest pos small h. absurd (omega arith);
    at_end = λ m h. absurd (omega arith);
  }
  plain_loop-IsLoop (suc k) = record {
    at_tag = λ t m rest pos small h. rw (format.read-tag_bytes t rest pos small) (
        plain-Agree k (plain_loop k) (plain_loop (suc k)) (plain_loop-fuel k (suc k) (omega arith))
          t m rest
          (omega
            (arith, h, length-append (format.tag_bytes t) rest, format.length-tag_bytes t small)));
    at_end = λ m h. rw format.read_tag-end refl;
  }

  -- With labels that jump, and a tag 0 that ends the loop, the parser's loop does what the plain
  -- one does.
  pub parse_loop-plain :
      (parse_field : ℕ → Next M → Next M)
      → ((next : Next M) (m : M) (input : Bytes) → parse_field 0 next m input ≡ success m input)
      → ((n : ℕ) (f next : Next M)
          → Agree n f next
          → IsLoop w format plain n next
          → (tag : ℕ) → Agree n (parse_field tag f) (plain tag next))
      → (k : ℕ) → Agree k (parse_loop w add_unknown parse_field k) (plain_loop k)
  unfolding parse_loop
  parse_loop-plain parse_field zero_ends labels zero m input h = absurd (omega arith)
  parse_loop-plain parse_field zero_ends labels (suc k) m input h =
      let same = parse_loop-plain parse_field zero_ends labels k in
      round-Agree k (parse_loop w add_unknown parse_field k) (plain_loop k) parse_field
        (zero_ends (parse_loop w add_unknown parse_field k))
        (labels k (parse_loop w add_unknown parse_field k) (plain_loop k) same
          (plain_loop-IsLoop k))
        same m input h
