-- ===== src/Tests/ValueLaws.antt =====
-- The JSON values do what rapidjson documents.
use libchromecast.Prelude.{
  ℕ, zero, suc, ◌<◌, ◌≡◌, ◌≢◌, refl, ap, ◌∙◌, subst, true, false, inl, inr, Bool-cases, Bytes,
  str_eq, str_eq_refl, str_eq_sound, none, some, if◌then◌else◌, arith,
}
use libchromecast.Json.Library.{IsRapidjson}
use libchromecast.Tests.Values.{
  Value, Members, Elements, object, array, no_members, member, no_elements, element, json, has, get,
  put, count, at, put_at, push, is_object, has_member, get_member, put_member, add_member, size,
  get_element, put_element, push_back,
}

ne_false : (t u : Bytes) → u ≢ t → str_eq u t ≡ false
ne_false t u ne = elim (Bool-cases (str_eq u t)) [
  | inl e ↦ absurd (ne (str_eq_sound u t e))
  | inr e ↦ e
]

has-put : (t u : Bytes) (w : Value) (m : Members) → has u (put t w m) ≡ has u m
has-put t u w no_members = refl
has-put t u w (member x v m) = ground (arith, has-put t u w m)

get-put : (t : Bytes) (w : Value) (m : Members) → has t m ≡ true → get t (put t w m) ≡ w
get-put t w no_members h = absurd (cc)
get-put t w (member x v m) h = ground (arith, get-put t w m)

get-put_ne : (t u : Bytes) (w : Value) (m : Members) → u ≢ t → get u (put t w m) ≡ get u m
get-put_ne t u w no_members ne = refl
get-put_ne t u w (member x v m) ne = elim (Bool-cases (str_eq t x)) [
  | inl e ↦
      let other : str_eq u x ≡ false =
        subst (λ y. str_eq u y ≡ false) (str_eq_sound t x e) (ne_false t u ne) in
      rw (e, other) refl
  | inr e ↦ rw e (ap (λ y. if str_eq u x then v else y) (get-put_ne t u w m ne))
]

count-push : (v : Value) (a : Elements) → count (push v a) ≡ suc (count a)
count-push v no_elements = refl
count-push v (element w a) = ap suc (count-push v a)

count-put_at : (i : ℕ) (v : Value) (a : Elements) → count (put_at i v a) ≡ count a
count-put_at zero v no_elements = refl
count-put_at (suc i) v no_elements = refl
count-put_at zero v (element w a) = refl
count-put_at (suc i) v (element w a) = ap suc (count-put_at i v a)

at-push : (i : ℕ) (v : Value) (a : Elements) → i < count a → at i (push v a) ≡ at i a
at-push i v no_elements small = absurd (omega arith)
at-push zero v (element w a) small = refl
at-push (suc i) v (element w a) small = at-push i v a (omega arith)

at-put_at : (i : ℕ) (v : Value) (a : Elements) → i < count a → at i (put_at i v a) ≡ v
at-put_at i v no_elements small = absurd (omega arith)
at-put_at zero v (element w a) small = refl
at-put_at (suc i) v (element w a) small = at-put_at i v a (omega arith)

at-put_at_ne : (i j : ℕ) (v : Value) (a : Elements) → j ≢ i → at j (put_at i v a) ≡ at j a
at-put_at_ne zero zero v no_elements ne = refl
at-put_at_ne zero (suc j) v no_elements ne = refl
at-put_at_ne (suc i) zero v no_elements ne = refl
at-put_at_ne (suc i) (suc j) v no_elements ne = refl
at-put_at_ne zero zero v (element w a) ne = absurd (ne refl)
at-put_at_ne zero (suc j) v (element w a) ne = refl
at-put_at_ne (suc i) zero v (element w a) ne = refl
at-put_at_ne (suc i) (suc j) v (element w a) ne = at-put_at_ne i j v a (omega arith)

at-push_last : (v : Value) (a : Elements) → at (count a) (push v a) ≡ v
at-push_last v no_elements = refl
at-push_last v (element w a) = at-push_last v a

pushed_last : (v a : Value) (n : ℕ) → size a ≡ some n → get_element n (push_back v a) ≡ v
pushed_last v (array a) n e =
    let same : count a ≡ n = ground (arith, e) in
    subst (λ k. at k (push v a) ≡ v) same (at-push_last v a)
pushed_last v _ n e = absurd (cc)

no_size : (m : Value) → is_object m ≡ true → size m ≡ none
no_size (object m) o = refl
no_size _ o = absurd (cc)

added :
    (t : Bytes) (v m : Value)
    → is_object m ≡ true
    → (is_object (add_member t v m) ≡ true)
      × (has_member t (add_member t v m) ≡ true)
      × (get_member t (add_member t v m) ≡ v)
added t v (object m) o = rw (str_eq_refl t) (refl, refl, refl)
added t v _ o = absurd (cc)

added_ne :
    (t u : Bytes) (v m : Value)
    → is_object m ≡ true
    → u ≢ t
    → (has_member u (add_member t v m) ≡ has_member u m)
      × (get_member u (add_member t v m) ≡ get_member u m)
added_ne t u v (object m) o ne = rw (ne_false t u ne) (refl, refl)
added_ne t u v _ o ne = absurd (cc)

written :
    (t : Bytes) (v m : Value)
    → has_member t m ≡ true
    → (is_object (put_member t v m) ≡ is_object m) × (get_member t (put_member t v m) ≡ v)
written t v (object m) h = (refl, get-put t v m h)
written t v _ h = absurd (cc)

written_ne :
    (t u : Bytes) (v m : Value)
    → has_member t m ≡ true
    → (has_member u (put_member t v m) ≡ has_member u m)
      × (u ≢ t → get_member u (put_member t v m) ≡ get_member u m)
written_ne t u v (object m) h = (has-put t u v m, λ ne. get-put_ne t u v m ne)
written_ne t u v _ h = absurd (cc)

pushed :
    (v a : Value) (n : ℕ)
    → size a ≡ some n
    → (size (push_back v a) ≡ some (suc n))
      × ((i : ℕ) → i < n → get_element i (push_back v a) ≡ get_element i a)
pushed v (array a) n e =
    let same : count a ≡ n = ground (arith, e) in
    (ap some (count-push v a ∙ ap suc same), λ i small. at-push i v a (omega arith))
pushed v _ n e = absurd (cc)

replaced :
    (i : ℕ) (v a : Value) (n : ℕ)
    → size a ≡ some n
    → i < n
    → (size (put_element i v a) ≡ some n)
      × (get_element i (put_element i v a) ≡ v)
      × ((j : ℕ) → j ≢ i → get_element j (put_element i v a) ≡ get_element j a)
replaced i v (array a) n e small =
    let same : count a ≡ n = ground (arith, e) in
    (
      ap some (count-put_at i v a ∙ same),
      at-put_at i v a (omega arith),
      λ j ne. at-put_at_ne i j v a ne,
    )
replaced i v _ n e small = absurd (cc)

pub json-IsRapidjson : IsRapidjson json
json-IsRapidjson = record {
  is_object-set_object = refl;
  is_object-set_string = λ s. refl;
  has_member-set_object = λ t. refl;
  is_object-add_member = λ t v m o. (added t v m o).0;
  has_member-add_member = λ t v m o h. (added t v m o).1;
  get_member-add_member = λ t v m o h. (added t v m o).2;
  has_member-add_member_ne = λ t u v m o ne. (added_ne t u v m o ne).0;
  get_member-add_member_ne = λ t u v m o ne. (added_ne t u v m o ne).1;
  is_object-put_member = λ t v m h. (written t v m h).0;
  get_member-put_member = λ t v m h. (written t v m h).1;
  has_member-put_member = λ t u v m h. (written_ne t u v m h).0;
  get_member-put_member_ne = λ t u v m h ne. (written_ne t u v m h).1 ne;
  size-set_array = refl;
  size-push_back = λ v a n e. (pushed v a n e).0;
  size-put_element = λ i v a n e small. (replaced i v a n e small).0;
  get_element-push_back = pushed_last;
  get_element-push_back_ne = λ i v a n e small. (pushed v a n e).1 i small;
  get_element-put_element = λ i v a n e small. (replaced i v a n e small).1;
  get_element-put_element_ne = λ i j v a n e small ne. (replaced i v a n e small).2 j ne;
  size-object = no_size;
  size-set_string = λ s. refl;
  get_string-set_string = λ s. refl;
  get_uint-set_uint = λ n small. refl;
  get_uint64-set_uint64 = λ n small. refl;
  get_uint64-set_string = λ s. refl;
}
