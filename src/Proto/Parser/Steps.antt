-- ===== src/Proto/Parser/Steps.antt =====
-- google_cast_message.cpp: what the parsing loop does at the bytes of one written field, and at
-- the end of the input.
use libchromecast.Prelude.{
  ℕ, zero, suc, ◌+◌, ◌*◌, ◌^◌, ◌<◌, ◌≡◌, sym, ap, ◌∙◌, Bool, true, false, inl, inr, [], ◌++◌, Bytes,
  if◌then◌else◌, arith, length, length-append, append_assoc, Bool-cases, subst,
}
use libchromecast.Proto.Runtime.{WireFormat, IsWireFormat}
use libchromecast.Proto.StringField
use libchromecast.Proto.StringField.{StringField}
use libchromecast.Proto.EnumField.{EnumField}
use libchromecast.Proto.Fields.{put_string, put_enum}
use libchromecast.Proto.Parser.{
  success, Next, expect, expect_end, read_string_into, read_enum_into, handle_unusual, parse_round,
  parse_loop,
}

module _ (w : WireFormat) (format : IsWireFormat w) {M : Type 0} (add_unknown : Bytes → M → M)
    (parse_field : ℕ → Next M → Next M) where
  abbrev loop : ℕ → Next M
  loop = parse_loop w add_unknown parse_field

  -- The loop reads `input` to its end, and does `finish` to the message.
  abbrev pub Parses : Bytes → (M → M) → Type 0
  Parses input finish =
      (fuel : ℕ) (m : M) → length input < fuel → loop fuel m input ≡ success (finish m) []

  -- At the end of the input the loop succeeds.
  pub Parses-nil : Parses [] (λ m. m)
  unfolding parse_loop parse_round handle_unusual
  Parses-nil zero m h = absurd (omega arith)
  Parses-nil (suc fuel) m h = rw format.read_tag-end

  -- A round at a tag that is next.
  round-tag_bytes :
      (t : ℕ) (next : Next M) (m : M) (rest : Bytes)
      → 0 < t
      → t < 128
      → parse_round w add_unknown parse_field next m (format.tag_bytes t ++ rest)
        ≡ parse_field t next m rest
  unfolding parse_round
  round-tag_bytes t next m rest h k = rw (format.read-tag_bytes t rest h k)

  module _ (tail : Bytes) (finish : M → M) (parses : Parses tail finish) where
    -- What follows a label reads `tail` as the loop does.
    abbrev pub Goes : (Next M → Next M) → Type 0
    Goes follow =
        (fuel : ℕ) (m : M) → length tail < fuel → follow (loop fuel) m tail ≡ success (finish m) []

    -- A jump to the label of a tag does what the loop would do at the tag.
    pub expect_at-Goes :
        (t : ℕ) (label follow : Next M → Next M)
        → 0 < t
        → t < 128
        → ((next : Next M) (m : M) (rest : Bytes)
            → length rest < length tail
            → parse_field t next m rest ≡ label next m rest)
        → Goes follow
        → Goes (λ next. expect w t (label next) (follow next))
    unfolding parse_loop
    expect_at-Goes t label follow pos small same goes fuel m h =
        elim (format.expect_tag-sound t tail) [
          | inl missing ↦ rw missing (goes fuel m h)
          | inr (rest, found, e) ↦
              let shorter : length rest < length tail = omega (
                arith,
                ap length e,
                length-append (format.tag_bytes t) rest,
                format.length-tag_bytes t small,
              ) in
              rw found (
                sym (same (loop fuel) m rest shorter)
                ∙ (sym (round-tag_bytes t (loop fuel) m rest pos small)
                    ∙ (ap (parse_round w add_unknown parse_field (loop fuel) m) (sym e)
                        ∙ parses (suc fuel) m (omega arith))))
        ]

    pub expect-Goes :
        (t : ℕ) (label follow : Next M → Next M)
        → 0 < t
        → t < 128
        → ((next : Next M) → parse_field t next ≡ label next)
        → Goes follow
        → Goes (λ next. expect w t (label next) (follow next))
    expect-Goes t label follow pos small same =
        expect_at-Goes t label follow pos small λ next m rest h. ap (λ g. g m rest) (same next)

    -- Where ExpectAtEnd says so, the input is at its end.
    pub expect_end-Goes : Goes (expect_end w)
    unfolding parse_loop parse_round handle_unusual
    expect_end-Goes fuel m h = elim (Bool-cases (w.expect_at_end tail)) [
      | inr more ↦ rw more (parses fuel m h)
      | inl done ↦
          let e = format.expect_at_end-sound tail done in
          rw done (ap (success m) e ∙ (sym (ends e fuel h) ∙ parses fuel m h))
    ]
      where
        ends : tail ≡ [] → (k : ℕ) → length tail < k → loop k m tail ≡ success m []
        ends e k less = rw e (Parses-nil k m (subst (λ s. length s < k) e less))

    -- A tag with its body, in front of `tail`, at a label that reads the body and goes on.
    pub field-step :
        (t : ℕ) (body : Bytes) (update : M → M) (follow : Next M → Next M)
        → 0 < t
        → t < 128
        → ((next : Next M) (m : M)
            → parse_field t next m (body ++ tail) ≡ follow next (update m) tail)
        → Goes follow
        → Parses ((format.tag_bytes t ++ body) ++ tail) (λ m. finish (update m))
    unfolding parse_loop
    field-step t body update follow pos small reads goes zero m h = absurd (omega arith)
    field-step t body update follow pos small reads goes (suc fuel) m h =
        let shorter : length tail < fuel = omega (
          arith,
          length-append (format.tag_bytes t ++ body) tail,
          length-append (format.tag_bytes t) body,
          format.length-tag_bytes t small,
        ) in
        ap (parse_round w add_unknown parse_field (loop fuel) m)
          (append_assoc (format.tag_bytes t) body tail)
        ∙ (round-tag_bytes t (loop fuel) m (body ++ tail) pos small
            ∙ (reads (loop fuel) m ∙ goes fuel (update m) shorter))

    pub string-step :
        (n : ℕ) (value : Bytes) (store : Bytes → M → M) (follow : Next M → Next M)
        → 0 < n
        → n < 15
        → length value < 2 ^ 31
        → ((next : Next M) (m : M)
            → parse_field (8 * n + 2) next m (format.string_bytes value ++ tail)
              ≡ read_string_into w store (follow next) m (format.string_bytes value ++ tail))
        → Goes follow
        → Parses (w.write_string n value ++ tail) (λ m. finish (store value m))
    string-step n value store follow pos small short same goes =
        rw (format.write_string-eq n value) (
          field-step (8 * n + 2) (format.string_bytes value) (store value) follow (omega arith)
            (omega arith)
            (λ next m. same next m ∙ rw (format.read_string-string_bytes value tail short)) goes)

    enum-step :
        (n value : ℕ) (is_valid : ℕ → Bool) (store : ℕ → M → M) (follow : Next M → Next M)
        → 0 < n
        → n < 15
        → value < 2 ^ 31
        → is_valid value ≡ true
        → ((next : Next M)
            → parse_field (8 * n) next
              ≡ read_enum_into w add_unknown (8 * n) is_valid store (follow next))
        → Goes follow
        → Parses (w.write_enum n value ++ tail) (λ m. finish (store value m))
    enum-step n value is_valid store follow pos small short valid same goes =
        rw (format.write_enum-eq n value) (
          field-step (8 * n) (format.enum_bytes value) (store value) follow (omega arith)
            (omega arith)
            (λ next m.
              ap (λ g. g m (format.enum_bytes value ++ tail)) (same next)
              ∙ rw (format.read_enum-enum_bytes value tail short, valid))
            goes)

    -- A field that is not set is not written, and merges nothing.
    pub optional_field :
        (has : Bool) (bytes : Bytes) (store update : M → M)
        → ((m : M) → (if has then store m else m) ≡ update m)
        → Parses (bytes ++ tail) (λ m. finish (store m))
        → Parses ((if has then bytes else []) ++ tail) (λ m. finish (update m))
    optional_field true bytes store update same h fuel m e = rw (← same m) (h fuel m e)
    optional_field false bytes store update same h fuel m e = rw (← same m) (parses fuel m e)

    -- A written string field, in front of `tail`.
    pub put_string-Parses :
        (n : ℕ) (f : StringField) (store : Bytes → M → M) (update : M → M)
        (follow : Next M → Next M)
        → 0 < n
        → n < 15
        → length (StringField.get f) < 2 ^ 31
        → ((m : M) → (if f.has then store (StringField.get f) m else m) ≡ update m)
        → ((next : Next M) → parse_field (8 * n + 2) next ≡ read_string_into w store (follow next))
        → Goes follow
        → Parses (put_string w n f ++ tail) (λ m. finish (update m))
    put_string-Parses n f store update follow pos small short merged same goes =
        optional_field f.has (w.write_string n (StringField.get f)) (store (StringField.get f))
          update merged
          (string-step n (StringField.get f) store follow pos small short
            (λ next m. ap (λ g. g m (format.string_bytes (StringField.get f) ++ tail)) (same next))
            goes)

    -- A written enum field, in front of `tail`.
    pub put_enum-Parses :
        {E : Type 0} (number : E → ℕ) (n : ℕ) (f : EnumField E) (is_valid : ℕ → Bool)
        (store : ℕ → M → M) (update : M → M) (follow : Next M → Next M)
        → 0 < n
        → n < 15
        → number f.value < 2 ^ 31
        → is_valid (number f.value) ≡ true
        → ((m : M) → (if f.has then store (number f.value) m else m) ≡ update m)
        → ((next : Next M)
            → parse_field (8 * n) next
              ≡ read_enum_into w add_unknown (8 * n) is_valid store (follow next))
        → Goes follow
        → Parses (put_enum w number n f ++ tail) (λ m. finish (update m))
    put_enum-Parses number n f is_valid store update follow pos small short valid merged same goes =
        optional_field f.has (w.write_enum n (number f.value)) (store (number f.value)) update
          merged
          (enum-step n (number f.value) is_valid store follow pos small short valid same goes)
