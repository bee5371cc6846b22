-- ===== src/Json/Read.antt =====
-- json_message.h: how the sources read a const part, by its members and by the loop
-- `for (size_t index = 0; index < part.Size(); ++index) items.push_back(T::FromMessage(part[index]))`.
use libchromecast.Prelude.{
  ℕ, zero, suc, ◌+◌, ◌<◌, ◌≡◌, refl, sym, ap, ◌∙◌, subst, Option, none, ◌∙◌, Bool, false, List, [],
  ◌∷◌, Bytes, Option, none, some, length, get_elem?, leb, arith,
}
use libchromecast.Utils.{Result, ok, throw_on_error, ◌>>=◌, ok_of_bind}
use libchromecast.Json.Library.{Rapidjson}
use libchromecast.Json.{or_assert, const_index, const_element, get_bool, get_uint32, get_string}

module _ {V : Type 0} (json : Rapidjson V) where
  abbrev pub text_member : Bytes → V → Result Bytes
  text_member t message = const_index json t message >>= get_string json

  abbrev pub uint32_member : Bytes → V → Result ℕ
  uint32_member t message = const_index json t message >>= get_uint32 json

  abbrev pub bool_member : Bytes → V → Result Bool
  bool_member t message = const_index json t message >>= get_bool json

module _ {V A : Type 0} (json : Rapidjson V) (read : V → Result A) where
  -- `count` elements are left, from `index` on.
  unfoldable pub read_each : ℕ → ℕ → V → Result (List A)
  read_each zero index value = ok []
  read_each (suc count) index value = do
    element ← const_element json index value
    item ← read element
    rest ← read_each count (suc index) value
    ok (item ∷ rest)

  unfoldable pub read_array : V → Result (List A)
  unfolding read_each
  read_array value = or_assert (json.size value) >>= λ size. read_each size 0 value

  const_element-small :
      (i size : ℕ) (value : V)
      → json.size value ≡ some size
      → i < size
      → const_element json i value ≡ ok (json.get_element i value)
  unfolding const_element throw_on_error
  const_element-small i size value e small =
      let within : leb size i ≡ false = ground arith in rw (e, within) refl

  -- An array whose elements can all be read is read whole.
  pub read_each-elements :
      (items : List A) (index size : ℕ) (value : V)
      → json.size value ≡ some size
      → index + length items ≡ size
      → ((i : ℕ) (item : A)
          → get_elem? items i ≡ some item
          → read (json.get_element (index + i) value) ≡ ok item)
      → read_each (length items) index value ≡ ok items
  unfolding read_each
  read_each-elements [] index size value e total each = refl
  read_each-elements (item ∷ items) index size value e total each =
      let first : index + 0 ≡ index = omega arith in
      rw
        (
          const_element-small index size value e (omega arith),
          rw first at (each 0 item refl),
          read_each-elements items (suc index) size value e (omega arith) (λ i x h.
              let next : index + suc i ≡ suc index + i = omega arith in
              rw next at (each (suc i) x h)),
        )
        refl

  abbrev pub IsReadAt : ℕ → V → A → Type 0
  IsReadAt i value item =
      (element : V) × (const_element json i value ≡ ok element) × (read element ≡ ok item)

  read_at :
      (index : ℕ) (value : V) (first : A) (rest : List A)
      → IsReadAt index value first
      → ((i : ℕ) (item : A) → get_elem? rest i ≡ some item → IsReadAt (suc index + i) value item)
      → (i : ℕ) (item : A) → get_elem? (first ∷ rest) i ≡ some item
      → IsReadAt (index + i) value item
  read_at index value first rest (element, e, e') each zero item h =
      let same : first ≡ item = ground (arith, h) in
      let here : index + 0 ≡ index = omega arith in rw here (element, e, rw (sym same) e')
  read_at index value first rest here each (suc i) item h =
      let later : index + suc i ≡ suc index + i = omega arith in rw later (each i item h)

  -- What is read are as many items as there are elements from the index on, each from its own.
  pub read_each-eq-ok :
      (count index : ℕ) (value : V) (items : List A)
      → read_each count index value ≡ ok items
      → (length items ≡ count)
        × ((i : ℕ) (item : A) → get_elem? items i ≡ some item → IsReadAt (index + i) value item)
  unfolding read_each
  read_each-eq-ok zero index value items h =
      let same : items ≡ [] = ground (arith, h) in rw same (refl, λ i item e. absurd (cc))
  read_each-eq-ok (suc count) index value items h =
      let (element, e_element, h_1) = ok_of_bind (const_element json index value) _ h in
      let (item, e_item, h_2) = ok_of_bind (read element) _ h_1 in
      let (rest, e_rest, h_3) = ok_of_bind (read_each count (suc index) value) _ h_2 in
      let (size, each) = read_each-eq-ok count (suc index) value rest e_rest in
      let same : items ≡ item ∷ rest = ground (arith, h_3) in
      rw same (ap suc size, read_at index value item rest (element, e_element, e_item) each)

  or_assert-eq-ok : {B : Type 0} (o : Option B) (b : B) → or_assert o ≡ ok b → o ≡ some b
  or_assert-eq-ok none b h = absurd (cc)
  or_assert-eq-ok (some c) b h = ground (arith, h)

  -- The same for the whole array.
  pub read_array-eq-ok :
      (value : V) (items : List A)
      → read_array value ≡ ok items
      → (json.size value ≡ some (length items))
        × ((i : ℕ) (item : A) → get_elem? items i ≡ some item → IsReadAt i value item)
  unfolding read_array
  read_array-eq-ok value items h =
      let (size, e_size, h_1) = ok_of_bind (or_assert (json.size value)) _ h in
      let (total, each) = read_each-eq-ok size 0 value items h_1 in
      (
        or_assert-eq-ok (json.size value) size e_size ∙ ap some (sym total),
        λ i item e.
            let here : 0 + i ≡ i = omega arith in
            subst (λ k. IsReadAt k value item) here (each i item e),
      )
