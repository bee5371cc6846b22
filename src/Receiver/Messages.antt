-- ===== src/Receiver/Messages.antt =====
-- receiver_messages.h, receiver_messages.cpp: what is read of a status of the receiver. `D` is the
-- type of doubles, and `get_double` the getter of rapidjson.
pub mod Laws
use libchromecast.Prelude.{
  ℕ, zero, suc, Bool, true, false, not, List, [], ◌∷◌, ◌++◌, Bytes, codes, str_eq, Option, none,
  some, if◌then◌else◌,
}
use libchromecast.Utils.{Error, Result, ok, thrown, Site, throw_on_error, ◌>>=◌, ◌>>◌}
use libchromecast.Json.Library.{Rapidjson}
use libchromecast.Json.{or_assert, const_index, const_element, message_text}
use libchromecast.Json.Read.{text_member, bool_member, read_each}

pub record BasicReceiverStatus (D : Type 0) : Type 0 where
  pub is_active_input : Option Bool
  pub is_standby : Bool
  pub muted : Bool
  pub volume_level : D

pub record ApplicationInfo : Type 0 where
  pub application_id : Bytes
  pub display_name : Bytes
  pub namespaces : List Bytes
  pub session_id : Bytes
  pub status_text : Bytes
  pub transport_id : Bytes

pub record ReceiverStatus (D : Type 0) : Type 0 where
  pub basic : BasicReceiverStatus D
  pub applications : List ApplicationInfo

abbrev or_kept : Option Bool → Option Bool → Option Bool
or_kept none kept = kept
or_kept (some b) kept = some b

-- BasicReceiverStatus::operator=: what `this` is after it
unfoldable pub assign_basic :
    {D : Type 0} → BasicReceiverStatus D → BasicReceiverStatus D → BasicReceiverStatus D
assign_basic other this = record {
  is_active_input = or_kept other.is_active_input this.is_active_input;
  is_standby = other.is_standby;
  muted = other.muted;
  volume_level = other.volume_level;
}

abbrev status_site : Site
status_site = record {
  file = codes "receiver_messages.cpp";
  function = codes "chromecast::ReceiverStatus::FromMessage";
  line = 69;
}

module _ {V : Type 0} (json : Rapidjson V) where
  abbrev member : Bytes → V → Result V
  member = const_index json

  optional_bool : Bytes → V → Result (Option Bool)
  optional_bool t message =
      if json.has_member t message
      then (bool_member json t message >>= λ b. ok (some b))
      else ok none

  optional_text : Bytes → V → Result Bytes
  optional_text t message = if json.has_member t message then text_member json t message else ok []

  -- The loop over the namespaces: `count` of them are left, from `index` on.
  unfoldable pub read_namespaces : ℕ → ℕ → V → Result (List Bytes)
  unfolding read_each
  read_namespaces = read_each json (text_member json (codes "name"))

  -- ApplicationInfo::FromMessage
  unfoldable pub application_from_message : V → Result ApplicationInfo
  unfolding read_namespaces optional_text
  application_from_message message = do
    application_id ← text_member json (codes "appId") message
    display_name ← text_member json (codes "displayName") message
    session_id ← text_member json (codes "sessionId") message
    status_text ← text_member json (codes "statusText") message
    transport_id ← optional_text (codes "transportId") message
    namespaces_value ← member (codes "namespaces") message
    size ← or_assert (json.size namespaces_value)
    namespaces ← read_namespaces size 0 namespaces_value
    ok (record {
      application_id = application_id;
      display_name = display_name;
      namespaces = namespaces;
      session_id = session_id;
      status_text = status_text;
      transport_id = transport_id;
    })

  -- The loop over the applications, `count` of which are left; `index` is never changed.
  unfoldable pub read_applications : ℕ → ℕ → V → Result (List ApplicationInfo)
  unfolding application_from_message
  read_applications zero index applications_value = ok []
  read_applications (suc count) index applications_value = do
    element ← const_element json index applications_value
    app ← application_from_message element
    rest ← read_applications count index applications_value
    ok (app ∷ rest)

  optional_applications : V → Result (List ApplicationInfo)
  unfolding read_applications
  optional_applications status_message =
      if json.has_member (codes "applications") status_message
      then (do
        applications_value ← member (codes "applications") status_message
        size ← or_assert (json.size applications_value)
        read_applications size 0 applications_value)
      else ok []

module _ {V D : Type 0} (json : Rapidjson V) (get_double : V → Option D) where
  -- BasicReceiverStatus::FromMessage
  unfoldable pub basic_from_message : V → Result (BasicReceiverStatus D)
  unfolding optional_bool
  basic_from_message message = do
    volume ← member json (codes "volume") message
    muted ← bool_member json (codes "muted") volume
    level ← member json (codes "level") volume
    volume_level ← or_assert (get_double level)
    is_standby ← bool_member json (codes "isStandBy") message
    is_active_input ← optional_bool json (codes "isActiveInput") message
    ok (record {
      is_active_input = is_active_input;
      is_standby = is_standby;
      muted = muted;
      volume_level = volume_level;
    })

  -- ReceiverStatus::FromMessage
  unfoldable pub status_from_message : V → Result (ReceiverStatus D)
  unfolding basic_from_message optional_applications
  status_from_message message = do
    type ← text_member json (codes "type") message
    throw_on_error (not (str_eq type (codes "RECEIVER_STATUS"))) status_site (
        codes
          "invalid message type, expected a receiver status message instead of the following message: "
        ++ message_text json message)
    status_message ← member json (codes "status") message
    basic ← basic_from_message status_message
    applications ← optional_applications json status_message
    ok (record { basic = basic; applications = applications })
