-- ===== src/Json/Library.antt =====
-- rapidjson, which is outside the repository: what json_message.cpp calls of it, and the
-- documented behaviour that the channels rely on.
use libchromecast.Prelude.{ℕ, suc, ◌^◌, ◌<◌, ◌≡◌, ◌≢◌, Bool, true, false, Bytes, Option, none, some}

-- `V` is the type of values. An operation on a member or an element that is not there, and a
-- getter of another type, is a failed assertion: `none`, where it can be asked for.
pub record Rapidjson (V : Type 0) : Type 0 where
  pub null : V
  pub is_object : V → Bool
  pub set_object : V
  pub has_member : Bytes → V → Bool
  pub get_member : Bytes → V → V
  pub put_member : Bytes → V → V → V
  pub add_member : Bytes → V → V → V
  pub set_array : V
  pub size : V → Option ℕ
  pub get_element : ℕ → V → V
  pub put_element : ℕ → V → V → V
  pub push_back : V → V → V
  pub set_string : Bytes → V
  pub get_string : V → Option Bytes
  pub set_uint : ℕ → V
  pub get_uint : V → Option ℕ
  pub set_uint64 : ℕ → V
  pub get_uint64 : V → Option ℕ
  pub set_bool : Bool → V
  pub get_bool : V → Option Bool
  pub parse : Bytes → V
  pub write : V → Bytes

pub record IsRapidjson {V : Type 0} (json : Rapidjson V) : Type 0 where
  pub is_object-set_object : json.is_object json.set_object ≡ true
  pub is_object-set_string : (s : Bytes) → json.is_object (json.set_string s) ≡ false
  pub has_member-set_object : (t : Bytes) → json.has_member t json.set_object ≡ false
  -- AddMember, of a name that is not there
  pub is_object-add_member :
      (t : Bytes) (v m : V)
      → json.is_object m ≡ true
      → json.is_object (json.add_member t v m) ≡ true
  pub has_member-add_member :
      (t : Bytes) (v m : V)
      → json.is_object m ≡ true
      → json.has_member t m ≡ false
      → json.has_member t (json.add_member t v m) ≡ true
  pub get_member-add_member :
      (t : Bytes) (v m : V)
      → json.is_object m ≡ true
      → json.has_member t m ≡ false
      → json.get_member t (json.add_member t v m) ≡ v
  pub has_member-add_member_ne :
      (t u : Bytes) (v m : V)
      → json.is_object m ≡ true
      → u ≢ t
      → json.has_member u (json.add_member t v m) ≡ json.has_member u m
  pub get_member-add_member_ne :
      (t u : Bytes) (v m : V)
      → json.is_object m ≡ true
      → u ≢ t
      → json.get_member u (json.add_member t v m) ≡ json.get_member u m
  -- a write to a member that is there
  pub is_object-put_member :
      (t : Bytes) (v m : V)
      → json.has_member t m ≡ true
      → json.is_object (json.put_member t v m) ≡ json.is_object m
  pub get_member-put_member :
      (t : Bytes) (v m : V)
      → json.has_member t m ≡ true
      → json.get_member t (json.put_member t v m) ≡ v
  pub has_member-put_member :
      (t u : Bytes) (v m : V)
      → json.has_member t m ≡ true
      → json.has_member u (json.put_member t v m) ≡ json.has_member u m
  pub get_member-put_member_ne :
      (t u : Bytes) (v m : V)
      → json.has_member t m ≡ true
      → u ≢ t
      → json.get_member u (json.put_member t v m) ≡ json.get_member u m
  -- arrays
  pub size-set_array : json.size json.set_array ≡ some 0
  pub size-push_back :
      (v a : V) (n : ℕ) → json.size a ≡ some n → json.size (json.push_back v a) ≡ some (suc n)
  pub size-put_element :
      (i : ℕ) (v a : V) (n : ℕ)
      → json.size a ≡ some n
      → i < n
      → json.size (json.put_element i v a) ≡ some n
  pub get_element-push_back :
      (v a : V) (n : ℕ) → json.size a ≡ some n → json.get_element n (json.push_back v a) ≡ v
  pub get_element-push_back_ne :
      (i : ℕ) (v a : V) (n : ℕ)
      → json.size a ≡ some n
      → i < n
      → json.get_element i (json.push_back v a) ≡ json.get_element i a
  pub get_element-put_element :
      (i : ℕ) (v a : V) (n : ℕ)
      → json.size a ≡ some n
      → i < n
      → json.get_element i (json.put_element i v a) ≡ v
  pub get_element-put_element_ne :
      (i j : ℕ) (v a : V) (n : ℕ)
      → json.size a ≡ some n
      → i < n
      → j ≢ i
      → json.get_element j (json.put_element i v a) ≡ json.get_element j a
  -- Size is asserted to be that of an array.
  pub size-object : (m : V) → json.is_object m ≡ true → json.size m ≡ none
  pub size-set_string : (s : Bytes) → json.size (json.set_string s) ≡ none
  -- the getters
  pub get_string-set_string : (s : Bytes) → json.get_string (json.set_string s) ≡ some s
  pub get_uint-set_uint : (n : ℕ) → n < 2 ^ 32 → json.get_uint (json.set_uint n) ≡ some n
  pub get_uint64-set_uint64 : (n : ℕ) → n < 2 ^ 64 → json.get_uint64 (json.set_uint64 n) ≡ some n
  pub get_uint64-set_string : (s : Bytes) → json.get_uint64 (json.set_string s) ≡ none
