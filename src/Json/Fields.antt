-- ===== src/Json/Fields.antt =====
-- json_message.cpp: several assignments to members of one message.
use libchromecast.Prelude.{
  ◌≡◌, ap, ◌∙◌, ◌≢◌, true, false, inl, inr, Bool-cases, List, [], ◌∷◌, Bytes, str_eq, str_eq_sound,
  str_eq_refl, Option, none, some, if◌then◌else◌, arith,
}
use libchromecast.Utils.{ok}
use libchromecast.Json.Library.{Rapidjson, IsRapidjson}
use libchromecast.Json.{assign, const_index}
use libchromecast.Json.Laws.{const_index-assign, has_member-assign_fresh, has_member-assign_ne}

-- `message[name] = value` for each field, the last of the list first
abbrev pub assign_all : {V : Type 0} → Rapidjson V → List (Bytes × V) → V → V
assign_all json [] message = message
assign_all json ((t, v) ∷ fields) message = assign json t v (assign_all json fields message)

-- what was assigned last to a name
abbrev pub assigned : {V : Type 0} → Bytes → List (Bytes × V) → Option V
assigned u [] = none
assigned u ((t, v) ∷ fields) = if str_eq u t then some v else assigned u fields

some_inj : {A : Type 0} {a b : A} → some a ≡ some b → a ≡ b
some_inj h = ground (arith, h)

module _ {V : Type 0} (json : Rapidjson V) (law : IsRapidjson json) where
  -- A message that was assigned to is an object.
  pub is_object-assign : (t : Bytes) (v m : V) → json.is_object (assign json t v m) ≡ true
  is_object-assign t v m = (const_index-assign json law t v m).1

  -- A name that is not assigned to is read as before, where the message was an object.
  const_index-assign_ne :
      (t u : Bytes) (v m : V)
      → json.is_object m ≡ true
      → str_eq u t ≡ false
      → const_index json u (assign json t v m) ≡ const_index json u m
  const_index-assign_ne t u v m object other =
      (const_index-assign json law t v m).2 u object
        (λ e. let same : str_eq u t ≡ true = rw e (str_eq_refl t) in cc)

  pub is_object-assign_all_cons :
      (field : Bytes × V) (fields : List (Bytes × V)) (m : V)
      → json.is_object (assign_all json (field ∷ fields) m) ≡ true
  is_object-assign_all_cons (t, w) fields m = is_object-assign t w (assign_all json fields m)

  is_object-assign_all :
      (u : Bytes) (fields : List (Bytes × V)) (m v : V)
      → assigned u fields ≡ some v
      → json.is_object (assign_all json fields m) ≡ true
  is_object-assign_all u [] m v h = absurd (cc)
  is_object-assign_all u ((t, w) ∷ fields) m v h = is_object-assign t w (assign_all json fields m)

  -- What was assigned last to a name is read under it.
  pub const_index-assign_all :
      (u : Bytes) (fields : List (Bytes × V)) (m v : V)
      → assigned u fields ≡ some v
      → const_index json u (assign_all json fields m) ≡ ok v
  const_index-assign_all u [] m v h = absurd (cc)
  const_index-assign_all u ((t, w) ∷ fields) m v h = elim (Bool-cases (str_eq u t)) [
    | inl same ↦
        let value : w ≡ v = some_inj (rw same at h) in
        rw (str_eq_sound u t same)
          ((const_index-assign json law t w (assign_all json fields m)).0 ∙ ap ok value)
    | inr other ↦
        let later : assigned u fields ≡ some v = rw other at h in
        const_index-assign_ne t u w (assign_all json fields m)
          (is_object-assign_all u fields m v later) other
        ∙ const_index-assign_all u fields m v later
  ]

  ne_of_str_eq : (u t : Bytes) → str_eq u t ≡ false → u ≢ t
  ne_of_str_eq u t other = λ e. let same : str_eq u t ≡ true = rw e (str_eq_refl t) in cc

  -- What was no object before the assignments has no member under another name.
  pub has_member-assign_all-none :
      (u : Bytes) (field : Bytes × V) (fields : List (Bytes × V)) (m : V)
      → json.is_object m ≡ false
      → assigned u (field ∷ fields) ≡ none
      → json.has_member u (assign_all json (field ∷ fields) m) ≡ false
  has_member-assign_all-none u (t, w) [] m fresh h = elim (Bool-cases (str_eq u t)) [
    | inl same ↦ let wrong : some w ≡ none = rw same at h in absurd (cc)
    | inr other ↦ has_member-assign_fresh json law t u w m fresh (ne_of_str_eq u t other)
  ]
  has_member-assign_all-none u (t, w) (field ∷ fields) m fresh h = elim (Bool-cases (str_eq u t)) [
    | inl same ↦ let wrong : some w ≡ none = rw same at h in absurd (cc)
    | inr other ↦
        has_member-assign_ne json law t u w (assign_all json (field ∷ fields) m)
          (is_object-assign_all_cons field fields m) (ne_of_str_eq u t other)
        ∙ has_member-assign_all-none u field fields m fresh (rw other at h)
  ]
