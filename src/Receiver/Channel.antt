-- ===== src/Receiver/Channel.antt =====
-- receiver_channel.h, receiver_channel.cpp: ReceiverChannel. `A` is the type of applications, a
-- null pointer `none`; `K` that of callbacks, an empty one `none`. The calls that it makes of them
-- are returned in order; the request that a function makes is its message, and the handler of its
-- response a function of its own. `_launching_application` has no value before the first Launch.
pub mod Laws
pub mod Messages
use libchromecast.Prelude.{
  ℕ, zero, suc, Bool, true, false, not, ◌&&◌, ◌||◌, List, [], ◌∷◌, ◌++◌, Bytes, codes, str_eq, ◌==◌,
  Option, none, some, if◌then◌else◌,
}
use libchromecast.Utils.{
  Error, runtime_error, Result, ok, thrown, Site, throw_on_error, ◌>>=◌, ◌>>◌,
}
use libchromecast.Json.Library.{Rapidjson}
use libchromecast.Json.{
  assign, index, string_value, strings_value, const_index, message_const_index, get_string,
}
use libchromecast.Receiver.Messages.{
  ApplicationInfo, BasicReceiverStatus, ReceiverStatus, assign_basic, status_from_message,
}

-- The callback that Initialize is given: Join's own, or one that calls whatever
-- `_on_application_launched` is by then.
pub data OnInitialized (K : Type 0) : Type 0 where
  given : K → OnInitialized K
  stored : OnInitialized K

pub data Call (A K : Type 0) : Type 0 where
  initialize : A → ApplicationInfo → OnInitialized K → Call A K
  on_stopped : A → Call A K
  call_back : K → Bool → Call A K

pub record ReceiverChannel (A K D : Type 0) : Type 0 where
  pub last_full_status : ReceiverStatus D
  pub launching_application : Bool
  pub on_application_launched : Option K
  pub application : Option A

-- `find(text) != npos`: whether the text starts at a position of the string.
abbrev starts_with : Bytes → Bytes → Bool
starts_with [] s = true
starts_with (t ∷ text) [] = false
starts_with (t ∷ text) (c ∷ s) = if t == c then starts_with text s else false

unfoldable pub contains : Bytes → Bytes → Bool
contains text [] = starts_with text []
contains text (c ∷ s) = if starts_with text (c ∷ s) then true else contains text s

abbrev launch_site : Site
launch_site = record {
  file = codes "receiver_channel.cpp";
  function = codes "chromecast::ReceiverChannel::Launch";
  line = 174;
}

-- ReceiverStatus's operator=, which is that of its parts
assign_status : {D : Type 0} → ReceiverStatus D → ReceiverStatus D → ReceiverStatus D
unfolding assign_basic
assign_status other this = record {
  basic = assign_basic other.basic this.basic;
  applications = other.applications;
}

-- The application that is looked for, by its id, or a name that contains the id
abbrev pub is_launched : Bytes → ApplicationInfo → Bool
is_launched app_id app_info =
    str_eq app_info.application_id app_id || contains app_id app_info.display_name

unfoldable pub first_of : (ApplicationInfo → Bool) → List ApplicationInfo → Option ApplicationInfo
first_of p [] = none
first_of p (app ∷ apps) = if p app then some app else first_of p apps

module _ {A K : Type 0} where
  abbrev stop : Option A → List (Call A K)
  stop none = []
  stop (some application) = on_stopped application ∷ []

  -- The handlers of Mute and of SetVolume, where `near` is whether the volume level of the status
  -- is within a hundredth of the one that was asked for
  abbrev answer : Option K → Bool → List (Call A K)
  answer none b = []
  answer (some callback) b = call_back callback b ∷ []

  unfoldable pub mute_completed : {D : Type 0} → Option K → ReceiverStatus D → List (Call A K)
  mute_completed callback status = answer callback status.basic.muted

  unfoldable pub set_volume_completed :
      {D : Type 0} → (D → Bool) → Option K → ReceiverStatus D → List (Call A K)
  set_volume_completed near callback status = answer callback (near status.basic.volume_level)

module _ {A K D : Type 0} where
  launched :
      A → Option ApplicationInfo → ReceiverChannel A K D → List (Call A K) × ReceiverChannel A K D
  launched application none r = ([], r)
  launched application (some app_info) r =
      (initialize application app_info stored ∷ [], record r { launching_application = false })

  -- ReceiverChannel::Launch, where `requested` is how its Request ends: what it returns, the calls
  -- that it makes, and the channel after it
  unfoldable pub launch :
      Option A
      → Option K
      → Result (Unit {0})
      → ReceiverChannel A K D
      → Result (Unit {0}) × List (Call A K) × ReceiverChannel A K D
  launch none callback requested r =
      (throw_on_error true launch_site (codes "invalid application"), [], r)
  launch (some application) callback requested r =
      let r' = record r { application = some application; on_application_launched = callback } in
      (
        requested,
        stop r.application,
        elim requested [ ok _ ↦ record r' { launching_application = true } | thrown e ↦ r' ],
      )

  -- What GetStatus does with a response, its own callback aside
  unfoldable pub on_status : ReceiverStatus D → ReceiverChannel A K D → ReceiverChannel A K D
  unfolding assign_status
  on_status status r = record r { last_full_status = assign_status status r.last_full_status }

  joined :
      A
      → K
      → Option ApplicationInfo
      → ReceiverChannel A K D
      → List (Call A K) × ReceiverChannel A K D
  joined application callback none r = (call_back callback false ∷ [], r)
  joined application callback (some app_info) r = (
    initialize application app_info (given callback) ∷ [],
    record r { application = some application },
  )

module _ {A K D : Type 0} (get_id : A → Bytes) where
  look_for :
      Option A
      → List ApplicationInfo
      → ReceiverChannel A K D
      → List (Call A K) × ReceiverChannel A K D
  unfolding launched first_of
  look_for none applications r = ([], r)
  look_for (some application) applications r =
      if r.launching_application
      then launched application (first_of (is_launched (get_id application)) applications) r
      else ([], r)

  -- ReceiverChannel::OnReceiverStatus
  unfoldable pub on_receiver_status :
      ReceiverStatus D → ReceiverChannel A K D → List (Call A K) × ReceiverChannel A K D
  unfolding look_for assign_status
  on_receiver_status status r =
      look_for r.application status.applications
        (record r { last_full_status = assign_status status r.last_full_status })

  -- The handler that Join gives to GetStatus, with what GetStatus does before it
  unfoldable pub join_completed :
      Option A
      → K
      → ReceiverStatus D
      → ReceiverChannel A K D
      → List (Call A K) × ReceiverChannel A K D
  unfolding joined on_status first_of
  join_completed application callback status r =
      let r' = on_status status r in
      elim application [
        | none ↦ (call_back callback false ∷ [], r')
        | some a ↦ elim r.application [
          | some other ↦ (call_back callback false ∷ [], r')
          | none ↦
              joined a callback
                (first_of (λ app_info. str_eq app_info.application_id (get_id a))
                  status.applications)
                r'
        ]
      ]
