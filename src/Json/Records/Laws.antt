-- ===== src/Json/Records/Laws.antt =====
-- json_message.h: an array that is assigned from a vector has an element for each item.
use libchromecast.Prelude.{
  ℕ, zero, suc, ◌+◌, ◌-◌, ◌<◌, ◌≡◌, refl, sym, ap, ◌∙◌, List, [], ◌∷◌, some, length, get_elem?,
  arith,
}
use libchromecast.Utils.{Result, ok}
use libchromecast.Json.Library.{Rapidjson, IsRapidjson}
use libchromecast.Json.{empty_string}
use libchromecast.Json.Read.{read_array, read_each-elements}
use libchromecast.Json.Records.{push_record, push_records, records_value}

module _ {T V : Type 0} (json : Rapidjson V) (law : IsRapidjson json)
    (to_message : T → V → Result V) (part : T → V) where
  -- ToMessage of each item writes its part over the empty string.
  abbrev pub Writes : List T → Type 0
  Writes items =
      (i : ℕ) (item : T)
      → get_elem? items i ≡ some item
      → to_message item (empty_string json) ≡ ok (part item)

  push_record-size :
      (item : T) (a : V) (n : ℕ)
      → to_message item (empty_string json) ≡ ok (part item)
      → json.size a ≡ some n
      → (b : V) × (push_record json to_message item a ≡ ok b)
        × (json.size b ≡ some (suc n))
        × (json.get_element n b ≡ part item)
        × ((i : ℕ) → i < n → json.get_element i b ≡ json.get_element i a)
  unfolding push_record
  push_record-size item a n writes e =
      let pushed = law.size-push_back (empty_string json) a n e in
      let last : suc n - 1 ≡ n = omega arith in
      let array = json.push_back (empty_string json) a in
      (
        json.put_element n (part item) array,
        rw (pushed, last, law.get_element-push_back (empty_string json) a n e, writes) refl,
        law.size-put_element n _ _ (suc n) pushed (omega arith),
        law.get_element-put_element n _ _ (suc n) pushed (omega arith),
        λ i small.
            law.get_element-put_element_ne n i _ _ (suc n) pushed (omega arith) (omega arith)
            ∙ law.get_element-push_back_ne i _ a n e small,
      )

  element_at :
      (item : T) (items : List T) (b : V) (n : ℕ)
      → json.get_element n b ≡ part item
      → ((i : ℕ) (x : T) → get_elem? items i ≡ some x → json.get_element (suc n + i) b ≡ part x)
      → (i : ℕ) (x : T) → get_elem? (item ∷ items) i ≡ some x
      → json.get_element (n + i) b ≡ part x
  element_at item items b n here later zero x h =
      let same : item ≡ x = ground (arith, h) in
      let first : n + 0 ≡ n = omega arith in rw (first, sym same) here
  element_at item items b n here later (suc i) x h =
      let next : n + suc i ≡ suc n + i = omega arith in rw next (later i x h)

  push_records-elements :
      (items : List T) (a : V) (n : ℕ)
      → Writes items
      → json.size a ≡ some n
      → (b : V) × (push_records json to_message items a ≡ ok b)
        × (json.size b ≡ some (n + length items))
        × ((i : ℕ) → i < n → json.get_element i b ≡ json.get_element i a)
        × ((i : ℕ) (item : T)
            → get_elem? items i ≡ some item
            → json.get_element (n + i) b ≡ part item)
  unfolding push_records
  push_records-elements [] a n writes e =
      let same : n + 0 ≡ n = omega arith in
      (a, refl, rw same e, λ i small. refl, λ i item h. absurd (cc))
  push_records-elements (item ∷ items) a n writes e =
      let (b, e_b, size_b, here, before) = push_record-size item a n (writes 0 item refl) e in
      let (c, e_c, size_c, keep, later) =
        push_records-elements items b (suc n) (λ i x h. writes (suc i) x h) size_b in
      let same : suc n + length items ≡ n + suc (length items) = omega arith in
      (
        c,
        rw e_b e_c,
        size_c ∙ ap some same,
        λ i small. keep i (omega arith) ∙ before i small,
        element_at item items c n (keep n (omega arith) ∙ here) later,
      )

  -- The assignment succeeds, and reading each element gives back its item, if reading its part does.
  pub read_array-records_value :
      (read : V → Result T) (items : List T)
      → Writes items
      → ((i : ℕ) (item : T) → get_elem? items i ≡ some item → read (part item) ≡ ok item)
      → (value : V) × (records_value json to_message items ≡ ok value)
        × (read_array json read value ≡ ok items)
  unfolding records_value read_array
  read_array-records_value read items writes reads =
      let (value, e, size, _, elements) =
        push_records-elements items json.set_array 0 writes law.size-set_array in
      let total : 0 + length items ≡ length items = omega arith in
      let here : (i : ℕ) → 0 + i ≡ i = λ i. omega arith in
      (
        value,
        e,
        rw (size, total)
            (read_each-elements json read items 0 (length items) value (size ∙ ap some total) total
              (λ i item h. rw (elements i item h) (reads i item h))),
      )
