-- ===== src/Tests/Values.antt =====
-- JSON values, as an instance of the calls of rapidjson. A text is read as an object whose member
-- "type" is the text.
use libchromecast.Prelude.{
  ℕ, zero, suc, Bool, true, false, [], Bytes, codes, str_eq, Option, none, some, if◌then◌else◌,
}
use libchromecast.Json.Library.{Rapidjson}

mutual
  pub data Value : Type 0 where
    null : Value
    text : Bytes → Value
    number : ℕ → Value
    flag : Bool → Value
    object : Members → Value
    array : Elements → Value

  pub data Members : Type 0 where
    no_members : Members
    member : Bytes → Value → Members → Members

  pub data Elements : Type 0 where
    no_elements : Elements
    element : Value → Elements → Elements

abbrev pub has : Bytes → Members → Bool
has t no_members = false
has t (member u v m) = if str_eq t u then true else has t m

abbrev pub get : Bytes → Members → Value
get t no_members = null
get t (member u v m) = if str_eq t u then v else get t m

abbrev pub put : Bytes → Value → Members → Members
put t w no_members = no_members
put t w (member u v m) = if str_eq t u then member u w m else member u v (put t w m)

abbrev pub count : Elements → ℕ
count no_elements = 0
count (element v a) = suc (count a)

abbrev pub at : ℕ → Elements → Value
at i no_elements = null
at zero (element v a) = v
at (suc i) (element v a) = at i a

abbrev pub put_at : ℕ → Value → Elements → Elements
put_at i w no_elements = no_elements
put_at zero w (element v a) = element w a
put_at (suc i) w (element v a) = element v (put_at i w a)

abbrev pub push : Value → Elements → Elements
push w no_elements = element w no_elements
push w (element v a) = element v (push w a)

abbrev pub is_object : Value → Bool
is_object (object m) = true
is_object _ = false

abbrev pub has_member : Bytes → Value → Bool
has_member t (object m) = has t m
has_member t _ = false

abbrev pub get_member : Bytes → Value → Value
get_member t (object m) = get t m
get_member t _ = null

abbrev pub put_member : Bytes → Value → Value → Value
put_member t w (object m) = object (put t w m)
put_member t w v = v

abbrev pub add_member : Bytes → Value → Value → Value
add_member t w (object m) = object (member t w m)
add_member t w v = v

abbrev pub size : Value → Option ℕ
size (array a) = some (count a)
size _ = none

abbrev pub get_element : ℕ → Value → Value
get_element i (array a) = at i a
get_element i _ = null

abbrev pub put_element : ℕ → Value → Value → Value
put_element i w (array a) = array (put_at i w a)
put_element i w v = v

abbrev pub push_back : Value → Value → Value
push_back w (array a) = array (push w a)
push_back w v = v

abbrev pub get_string : Value → Option Bytes
get_string (text s) = some s
get_string _ = none

abbrev pub get_uint64 : Value → Option ℕ
get_uint64 (number n) = some n
get_uint64 _ = none

abbrev pub get_bool : Value → Option Bool
get_bool (flag b) = some b
get_bool _ = none

abbrev pub json : Rapidjson Value
json = record {
  null = null;
  is_object = is_object;
  set_object = object no_members;
  has_member = has_member;
  get_member = get_member;
  put_member = put_member;
  add_member = add_member;
  set_array = array no_elements;
  size = size;
  get_element = get_element;
  put_element = put_element;
  push_back = push_back;
  set_string = text;
  get_string = get_string;
  set_uint = number;
  get_uint = get_uint64;
  set_uint64 = number;
  get_uint64 = get_uint64;
  set_bool = flag;
  get_bool = get_bool;
  parse = λ s. object (member (codes "type") (text s) no_members);
  write = λ v. [];
}
