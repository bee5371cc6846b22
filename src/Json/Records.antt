-- ===== src/Json/Records.antt =====
-- json_message.h: JsonMessagePart::operator= of a vector of records and of a vector of plain values.
pub mod Laws
use libchromecast.Prelude.{ℕ, ◌-◌, List, [], ◌∷◌}
use libchromecast.Utils.{Result, ok, thrown, ◌>>=◌}
use libchromecast.Json.Library.{Rapidjson}
use libchromecast.Json.{or_assert, empty_string}

module _ {T V : Type 0} (json : Rapidjson V) where
  -- `item.ToMessage` of the last element, which is the empty string that is pushed
  push_record : (T → V → Result V) → T → V → Result V
  push_record to_message item value =
      let pushed = json.push_back (empty_string json) value in
      do
        size ← or_assert (json.size pushed)
        part ← to_message item (json.get_element (size - 1) pushed)
        ok (json.put_element (size - 1) part pushed)

  push_records : (T → V → Result V) → List T → V → Result V
  unfolding push_record
  push_records to_message [] value = ok value
  push_records to_message (item ∷ items) value =
      push_record to_message item value >>= push_records to_message items

  -- of a vector of records
  unfoldable pub records_value : (T → V → Result V) → List T → Result V
  unfolding push_records
  records_value to_message items = push_records to_message items json.set_array

  -- of a vector of plain values, each assigned by an operator= of its own
  unfoldable pub plain_values : (T → V) → List T → Result V
  unfolding records_value
  plain_values value_of items = records_value (λ item _. ok (value_of item)) items
