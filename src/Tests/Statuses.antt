-- ===== src/Tests/Statuses.antt =====
-- Statuses of a receiver, and the examples of what is proved of them.
use libchromecast.Prelude.{
  ℕ, ◌≤◌, ◌≡◌, ◌⊎◌, refl, Bool, true, false, [], ◌∷◌, Bytes, codes, str_eq, c_str, Option, none,
  some, length, All,
}
use libchromecast.Utils.{ok, throw_on_error}
use libchromecast.Json.{const_index, const_element, get_string}
use libchromecast.Receiver.Messages.{
  ApplicationInfo, BasicReceiverStatus, ReceiverStatus, read_namespaces, read_applications,
  application_from_message,
}
use libchromecast.Receiver.Messages.Laws.{read_applications-eq-ok}
use libchromecast.Receiver.Channel.{
  initialize, call_back, given, ReceiverChannel, first_of, join_completed,
}
use libchromecast.Receiver.Channel.Laws.{on_statuses, length-on_statuses, join_completed-cases}
use libchromecast.Tests.Values.{
  Value, json, text, object, array, member, no_members, element, no_elements,
}

abbrev named : Bytes → Value
named name = object (member (codes "name") (text name) no_members)

abbrev two_names : Value
two_names = array (element (named (codes "a")) (element (named (codes "b")) no_elements))

two_names_lem : read_namespaces json 2 0 two_names ≡ ok (codes "a" ∷ codes "b" ∷ [])
unfolding read_namespaces const_element const_index get_string throw_on_error str_eq c_str
two_names_lem = refl

abbrev app : Bytes → Value
app id = object (
    member (codes "appId") (text id) (
      member (codes "displayName") (text (codes "Name")) (
        member (codes "sessionId") (text (codes "s")) (
          member (codes "statusText") (text (codes "t"))
            (member (codes "namespaces") two_names no_members)))))

abbrev pub info : Bytes → ApplicationInfo
info id = record {
  application_id = id;
  display_name = codes "Name";
  namespaces = codes "a" ∷ codes "b" ∷ [];
  session_id = codes "s";
  status_text = codes "t";
  transport_id = [];
}

abbrev two_apps : Value
two_apps = array (element (app (codes "X")) (element (app (codes "Y")) no_elements))

-- Both entries are those of the first application.
two_apps_lem : read_applications json 2 0 two_apps ≡ ok (info (codes "X") ∷ info (codes "X") ∷ [])
unfolding read_applications application_from_message read_namespaces const_element const_index
    get_string throw_on_error str_eq c_str
two_apps_lem = refl

read_applications-eq-ok_example :
    (length (info (codes "X") ∷ info (codes "X") ∷ []) ≡ 2)
    × All
        (λ app.
          (element : Value) × (const_element json 0 two_apps ≡ ok element)
          × (application_from_message json element ≡ ok app))
        (info (codes "X") ∷ info (codes "X") ∷ [])
read_applications-eq-ok_example =
    read_applications-eq-ok json 2 0 two_apps (info (codes "X") ∷ info (codes "X") ∷ [])
      two_apps_lem

abbrev basic : Option Bool → BasicReceiverStatus ℕ
basic active = record {
  is_active_input = active;
  is_standby = false;
  muted = false;
  volume_level = 5;
}

abbrev status : ReceiverStatus ℕ
status = record { basic = basic none; applications = info (codes "W") ∷ info (codes "X") ∷ [] }

-- Applications are their ids, and the callback is the number 9.
abbrev id : Bytes → Bytes
id a = a

abbrev idle : ReceiverChannel Bytes ℕ ℕ
idle = record {
  last_full_status = record { basic = basic none; applications = [] };
  launching_application = false;
  on_application_launched = none;
  application = none;
}

abbrev launching : ReceiverChannel Bytes ℕ ℕ
launching = record idle { launching_application = true; application = some (codes "X") }

length-on_statuses_example :
    (length (on_statuses id (status ∷ status ∷ []) launching).0 ≤ 1)
    × (true ≡ false → (on_statuses id (status ∷ status ∷ []) launching).0 ≡ [])
length-on_statuses_example = length-on_statuses id (status ∷ status ∷ []) launching

join_completed-cases_example :
    (((join_completed id (some (codes "X")) 9 status idle).0 ≡ call_back 9 false ∷ [])
      × ((join_completed id (some (codes "X")) 9 status idle).1.application ≡ none)
      × ((a : Bytes)
          → some (codes "X") ≡ some a
          → idle.application ≡ none
          → first_of (λ i. str_eq i.application_id a) status.applications ≡ none))
    ⊎ ((a : Bytes) × (i : ApplicationInfo) × (some (codes "X") ≡ some a)
        × (idle.application ≡ none)
        × (first_of (λ i. str_eq i.application_id a) status.applications ≡ some i)
        × ((join_completed id (some (codes "X")) 9 status idle).0 ≡ initialize a i (given 9) ∷ [])
        × ((join_completed id (some (codes "X")) 9 status idle).1.application ≡ some a))
join_completed-cases_example = join_completed-cases id (some (codes "X")) 9 status idle
