-- ===== src/Json/Laws.antt =====
-- json_message.cpp: what is assigned to a member or an element is read back.
use libchromecast.Prelude.{
  ℕ, zero, suc, ◌+◌, ◌-◌, ◌<◌, ◌≡◌, ◌≢◌, refl, sym, ap, ◌∙◌, subst, true, false, inl, inr,
  Bool-cases, List, [], ◌∷◌, Bytes, c_str, some, length, get_elem?, arith,
}
use libchromecast.Utils.{Error, assertion, ok, thrown, throw_on_error}
use libchromecast.Json.Library.{Rapidjson, IsRapidjson}
use libchromecast.Json.{
  make_member, assign, index, const_index, strings_value, push_string, push_strings, get_uint64,
}

module _ {V : Type 0} (json : Rapidjson V) (law : IsRapidjson json) where
  -- operator[] leaves an object with the member.
  pub has_member-make_member :
      (t : Bytes) (m : V)
      → (json.is_object (make_member json t m) ≡ true)
        × (json.has_member t (make_member json t m) ≡ true)
  unfolding make_member
  has_member-make_member t m = elim (Bool-cases (json.is_object m)) [
    | inl object ↦ elim (Bool-cases (json.has_member t m)) [
      | inl there ↦ rw (object, there) (object, there)
      | inr missing ↦
          rw (object, missing)
            (law.is_object-add_member t _ m object, law.has_member-add_member t _ m object missing)
    ]
    | inr other ↦
        rw (other, law.has_member-set_object t)
          (
            law.is_object-add_member t _ _ law.is_object-set_object,
            law.has_member-add_member t _ _ law.is_object-set_object (law.has_member-set_object t),
          )
  ]

  -- It leaves every other member of an object as it was.
  get_member-make_member_ne :
      (t u : Bytes) (m : V)
      → json.is_object m ≡ true
      → u ≢ t
      → (json.get_member u (make_member json t m) ≡ json.get_member u m)
        × (json.has_member u (make_member json t m) ≡ json.has_member u m)
  unfolding make_member
  get_member-make_member_ne t u m object ne = elim (Bool-cases (json.has_member t m)) [
    | inl there ↦ rw (object, there) (refl, refl)
    | inr missing ↦
        rw (object, missing)
          (
            law.get_member-add_member_ne t u _ m object ne,
            law.has_member-add_member_ne t u _ m object ne,
          )
  ]

  -- A message that was no object has no member but the one that is assigned to.
  pub has_member-assign_fresh :
      (t u : Bytes) (v m : V)
      → json.is_object m ≡ false
      → u ≢ t
      → json.has_member u (assign json t v m) ≡ false
  unfolding assign make_member
  has_member-assign_fresh t u v m other ne =
      let fresh = law.has_member-set_object t in
      let added =
        law.has_member-add_member t (json.set_string []) json.set_object law.is_object-set_object
          fresh in
      rw (assign, make_member, other, fresh)
        (law.has_member-put_member t u v _ added
          ∙ (law.has_member-add_member_ne t u (json.set_string []) json.set_object
                law.is_object-set_object ne
              ∙ law.has_member-set_object u))

  pub has_member-assign_ne :
      (t u : Bytes) (v m : V)
      → json.is_object m ≡ true
      → u ≢ t
      → json.has_member u (assign json t v m) ≡ json.has_member u m
  unfolding assign
  has_member-assign_ne t u v m object ne =
      law.has_member-put_member t u v (make_member json t m) (has_member-make_member t m).1
      ∙ (get_member-make_member_ne t u m object ne).1

  -- A const part returns only what it has a member for.
  pub has_member-const_index :
      (t : Bytes) (m v : V) → const_index json t m ≡ ok v → json.has_member t m ≡ true
  unfolding const_index throw_on_error
  has_member-const_index t m v h = ground arith

  -- After `message[t] = v` the message is an object whose member t is v, whatever it was before;
  -- every other member of an object is as it was.
  pub const_index-assign :
      (t : Bytes) (v m : V)
      → (const_index json t (assign json t v m) ≡ ok v)
        × (json.is_object (assign json t v m) ≡ true)
        × ((u : Bytes)
            → json.is_object m ≡ true
            → u ≢ t
            → const_index json u (assign json t v m) ≡ const_index json u m)
  unfolding const_index assign throw_on_error
  const_index-assign t v m =
      let (object, there) = has_member-make_member t m in
      (
        rw
            (
              law.has_member-put_member t t v (make_member json t m) there,
              there,
              law.get_member-put_member t v (make_member json t m) there,
            )
            refl,
        law.is_object-put_member t v (make_member json t m) there ∙ object,
        λ u object' ne.
            rw
              (
                law.has_member-put_member t u v (make_member json t m) there,
                law.get_member-put_member_ne t u v (make_member json t m) there ne,
                (get_member-make_member_ne t u m object' ne).0,
                (get_member-make_member_ne t u m object' ne).1,
              )
              refl,
      )

  -- Reading a member that an object does not have, where the message is not const, gives the
  -- empty string that is added, so that GetUint64 of it is a failed assertion and no exception;
  -- where it is a const part, it throws.
  pub index-missing :
      (t : Bytes) (m : V)
      → json.is_object m ≡ true
      → json.has_member t m ≡ false
      → (index json t m ≡ json.set_string [])
        × (get_uint64 json (index json t m) ≡ thrown assertion)
        × ((e : Error) × (const_index json t m ≡ thrown e))
  unfolding index make_member get_uint64 const_index throw_on_error
  index-missing t m object missing =
      let here = law.get_member-add_member t (json.set_string []) m object missing in
      (
        rw (index, make_member, object, missing) here,
        rw (index, make_member, object, missing, here, law.get_uint64-set_string []) refl,
        rw missing (_, refl),
      )

  push_string-size :
      (item : Bytes) (a : V) (n : ℕ)
      → json.size a ≡ some n
      → (json.size (push_string json item a) ≡ some (suc n))
        × (json.get_element n (push_string json item a) ≡ json.set_string (c_str item))
        × ((i : ℕ) → i < n → json.get_element i (push_string json item a) ≡ json.get_element i a)
  unfolding push_string
  push_string-size item a n e =
      let pushed = law.size-push_back (json.set_string []) a n e in
      let last : suc n - 1 ≡ n = omega arith in
      rw (push_string, pushed, last)
        (
          law.size-put_element n _ _ (suc n) pushed (omega arith),
          law.get_element-put_element n _ _ (suc n) pushed (omega arith),
          λ i small.
              law.get_element-put_element_ne n i _ _ (suc n) pushed (omega arith) (omega arith)
              ∙ law.get_element-push_back_ne i _ a n e small,
        )

  element_at :
      (item : Bytes) (items : List Bytes) (b : V) (n : ℕ)
      → json.get_element n b ≡ json.set_string (c_str item)
      → ((i : ℕ) (x : Bytes)
          → get_elem? items i ≡ some x
          → json.get_element (suc n + i) b ≡ json.set_string (c_str x))
      → (i : ℕ) (x : Bytes) → get_elem? (item ∷ items) i ≡ some x
      → json.get_element (n + i) b ≡ json.set_string (c_str x)
  element_at item items b n here later zero x h =
      let same : item ≡ x = ground (arith, h) in
      let first : n + 0 ≡ n = omega arith in rw (first, sym same) here
  element_at item items b n here later (suc i) x h =
      let next : n + suc i ≡ suc n + i = omega arith in rw next (later i x h)

  push_strings-elements :
      (items : List Bytes) (a : V) (n : ℕ)
      → json.size a ≡ some n
      → (json.size (push_strings json items a) ≡ some (n + length items))
        × ((i : ℕ) → i < n → json.get_element i (push_strings json items a) ≡ json.get_element i a)
        × ((i : ℕ) (item : Bytes)
            → get_elem? items i ≡ some item
            → json.get_element (n + i) (push_strings json items a) ≡ json.set_string (c_str item))
  unfolding push_strings
  push_strings-elements [] a n e =
      let same : n + 0 ≡ n = omega arith in (rw same e, λ i small. refl, λ i item h. absurd (cc))
  push_strings-elements (item ∷ items) a n e =
      let (size_1, here, before) = push_string-size item a n e in
      let (size_2, keep, later) =
        push_strings-elements items (push_string json item a) (suc n) size_1 in
      let same : suc n + length items ≡ n + suc (length items) = omega arith in
      (
        size_2 ∙ ap some same,
        λ i small. keep i (omega arith) ∙ before i small,
        element_at item items _ n (keep n (omega arith) ∙ here) later,
      )

  -- An array that is assigned from a vector of strings has its length, and its elements are the
  -- strings up to their first zero bytes.
  pub strings_value-elements :
      (items : List Bytes)
      → (json.size (strings_value json items) ≡ some (length items))
        × ((i : ℕ) (item : Bytes)
            → get_elem? items i ≡ some item
            → json.get_element i (strings_value json items) ≡ json.set_string (c_str item))
  unfolding strings_value
  strings_value-elements items =
      let (size, _, elements) = push_strings-elements items json.set_array 0 law.size-set_array in
      let total : 0 + length items ≡ length items = omega arith in
      (
        size ∙ ap some total,
        λ i item h.
            let same : 0 + i ≡ i = omega arith in
            subst
              (λ k.
                json.get_element k (push_strings json items json.set_array)
                ≡ json.set_string (c_str item))
              same (elements i item h),
      )
