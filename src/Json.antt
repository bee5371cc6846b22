-- ===== src/Json.antt =====
-- json_message.h, json_message.cpp: JsonMessage and its parts, over the values of rapidjson, a
-- library outside the repository. A write through a reference into a document is the document
-- with the part put back.
pub mod Library
pub mod Laws
pub mod Read
pub mod Fields
pub mod Records
use libchromecast.Prelude.{
  ℕ, ◌-◌, Bool, true, false, not, List, [], ◌∷◌, ◌++◌, Bytes, codes, c_str, to_string, Option, none,
  some, ltb, leb, ◌==◌, if◌then◌else◌,
}
use libchromecast.Utils.{Error, assertion, Result, ok, thrown, Site, throw_on_error, ◌>>=◌, ◌>>◌}
use Library.{Rapidjson}

abbrev site : Bytes → ℕ → Site
site function line = record {
  file = codes "json_message.cpp";
  function = codes "chromecast::" ++ function;
  line = line;
}

-- A getter of rapidjson asserts the type of the value.
abbrev pub or_assert : {A : Type 0} → Option A → Result A
or_assert none = thrown assertion
or_assert (some a) = ok a

module _ {V : Type 0} (json : Rapidjson V) where
  -- `_value.SetString("")`, the value of a member or an element that is added
  abbrev pub empty_string : V
  empty_string = json.set_string []

  -- JsonMessagePart::operator[] and JsonMessage::operator[] of a name, not const: the document
  -- after it, in which the reference that it returns stands.
  unfoldable pub make_member : Bytes → V → V
  make_member text value =
      let object = if json.is_object value then value else json.set_object in
      if json.has_member text object then object else json.add_member text empty_string object

  -- `message[text] = …`
  unfoldable pub assign : Bytes → V → V → V
  unfolding make_member
  assign text part value = json.put_member text part (make_member text value)

  -- `message[text]` for its value, where the message is not const
  unfoldable pub index : Bytes → V → V
  unfolding make_member
  index text value = json.get_member text (make_member text value)

  -- ConstJsonMessagePart::operator[] of a name
  unfoldable pub const_index : Bytes → V → Result V
  const_index text value = do
    throw_on_error (not (json.has_member text value))
        (site (codes "ConstJsonMessagePart::operator []") 63)
        (codes "message does not have member " ++ text)
    ok (json.get_member text value)

  -- JsonMessage::operator[] of a name, const: rapidjson asserts that the member is there.
  unfoldable pub message_const_index : Bytes → V → Result V
  message_const_index text value =
      if json.has_member text value then ok (json.get_member text value) else thrown assertion

  -- ConstJsonMessagePart::operator[] of an index
  unfoldable pub const_element : ℕ → V → Result V
  const_element i value = do
    size ← or_assert (json.size value)
    throw_on_error (leb size i) (site (codes "ConstJsonMessagePart::operator []") 69)
        (codes "array out of bounds")
    ok (json.get_element i value)

  -- JsonMessagePart::operator[] of an index, not const: the array after it
  unfoldable pub make_element : ℕ → V → Result V
  make_element i value = do
    size ← or_assert (json.size value)
    throw_on_error (ltb size i) (site (codes "JsonMessagePart::operator []") 139)
        (codes "out of bounds index " ++ to_string i)
    ok (if i == size then json.push_back empty_string value else value)

  -- JsonMessagePart::operator= of a std::string
  unfoldable pub string_value : Bytes → V
  string_value value = json.set_string (c_str value)

  -- the last element, by `_value[_value.Size() - 1] = item.c_str()`
  push_string : Bytes → V → V
  push_string item value =
      let pushed = json.push_back empty_string value in
      elim (json.size pushed) [
        | none ↦ pushed
        | some size ↦ json.put_element (size - 1) (json.set_string (c_str item)) pushed
      ]

  push_strings : List Bytes → V → V
  unfolding push_string
  push_strings [] value = value
  push_strings (item ∷ items) value = push_strings items (push_string item value)

  -- JsonMessagePart::operator= of a vector of strings
  unfoldable pub strings_value : List Bytes → V
  unfolding push_strings
  strings_value items = push_strings items json.set_array

  -- JsonMessagePart::operator= of a bool, a uint32_t, a uint64_t and a `const char*`
  unfoldable pub bool_value : Bool → V
  bool_value value = json.set_bool value

  unfoldable pub uint32_value : ℕ → V
  uint32_value value = json.set_uint value

  unfoldable pub uint64_value : ℕ → V
  uint64_value value = json.set_uint64 value

  unfoldable pub char_value : Bytes → V
  char_value text = json.set_string text

  -- JsonMessage::Parse and JsonMessage::ToString, through a C string each
  unfoldable pub parse : Bytes → V
  parse json_string = json.parse (c_str json_string)

  unfoldable pub message_text : V → Bytes
  message_text value = c_str (json.write value)

  -- GetBool, GetUint32, GetString, GetUint64
  unfoldable pub get_bool : V → Result Bool
  get_bool value = or_assert (json.get_bool value)

  unfoldable pub get_uint32 : V → Result ℕ
  get_uint32 value = or_assert (json.get_uint value)

  unfoldable pub get_string : V → Result Bytes
  get_string value = or_assert (json.get_string value) >>= λ s. ok (c_str s)

  unfoldable pub get_uint64 : V → Result ℕ
  get_uint64 value = or_assert (json.get_uint64 value)
