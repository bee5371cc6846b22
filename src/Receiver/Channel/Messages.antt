-- ===== src/Receiver/Channel/Messages.antt =====
-- receiver_channel.cpp: the messages that ReceiverChannel sends, and what it reads of the answers.
use libchromecast.Prelude.{
  ℕ, Bool, true, false, not, List, [], ◌∷◌, Bytes, codes, str_eq, ◌==◌, Option, none, some,
  if◌then◌else◌,
}
use libchromecast.Utils.{runtime_error, Result, ok, thrown, Site, throw_on_error, ◌>>=◌, ◌>>◌}
use libchromecast.Json.Library.{Rapidjson}
use libchromecast.Json.{
  assign, index, string_value, strings_value, const_index, message_const_index, get_string,
}
use libchromecast.Receiver.Messages.{ReceiverStatus, status_from_message}

module _ {V : Type 0} (json : Rapidjson V) where
  -- The messages of GetStatus, Launch, GetAppAvailabillity and Mute
  unfoldable pub typed : Bytes → V
  unfolding assign
  typed type = assign json (codes "type") (json.set_string type) json.null

  unfoldable pub get_status_message : V
  unfolding typed
  get_status_message = typed (codes "GET_STATUS")

  unfoldable pub launch_message : Bytes → V
  unfolding typed assign string_value
  launch_message app_id =
      assign json (codes "appId") (string_value json app_id) (typed (codes "LAUNCH"))

  -- `message["volume"][name] = …`
  volume_message : Bytes → V → V
  unfolding typed assign index
  volume_message name part =
      let message = typed (codes "SET_VOLUME") in
      assign json (codes "volume") (assign json name part (index json (codes "volume") message))
        message

  unfoldable pub mute_message : Bool → V
  unfolding volume_message
  mute_message mute = volume_message (codes "muted") (json.set_bool mute)

  -- of a value that SetDouble made
  unfoldable pub set_volume_message : V → V
  unfolding volume_message
  set_volume_message volume_level = volume_message (codes "level") volume_level

  -- Join, up to the request of GetStatus
  unfoldable pub join_message : {K : Type 0} → Option K → Result V
  unfolding get_status_message
  join_message none =
      thrown (runtime_error (codes "The join function requires a valid callback to be provided."))
  join_message (some callback) = ok get_status_message

  empty_site : Site
  empty_site = record {
    file = codes "receiver_channel.cpp";
    function = codes "chromecast::ReceiverChannel::GetAppAvailabillity";
    line = 119;
  }

  -- GetAppAvailabillity, up to its Request
  unfoldable pub app_availability_message : List Bytes → Result V
  unfolding typed assign strings_value empty_site
  app_availability_message app_ids = do
    throw_on_error (elim app_ids [ [] ↦ true | id ∷ ids ↦ false ]) empty_site
        (codes "empty application id array")
    ok (
        assign json (codes "appId") (strings_value json app_ids)
          (typed (codes "GET_APP_AVAILABILITY")))

  read_availability : List Bytes → V → Result (List (Bytes × Bool))
  read_availability [] availability = ok []
  read_availability (app_id ∷ app_ids) availability = do
    value ← const_index json app_id availability
    text ← get_string json value
    rest ← read_availability app_ids availability
    ok ((app_id, str_eq text (codes "APP_AVAILABLE")) ∷ rest)

  -- The handler of its response: what its callback is given
  unfoldable pub app_availability : List Bytes → V → Result (List (Bytes × Bool))
  unfolding read_availability
  app_availability app_ids message = do
    availability ← message_const_index json (codes "availability") message
    read_availability app_ids availability

  -- ReceiverChannel::OnResponse: the status of a message with the id 0, which OnReceiverStatus is
  -- called with; `none` where RequestChannel::OnResponse is called.
  unfoldable pub broadcast_status :
      {D : Type 0} → (V → Option D) → ℕ → V → Result (Option (ReceiverStatus D))
  unfolding status_from_message
  broadcast_status get_double request_id message =
      if not (request_id == 0)
      then ok none
      else (status_from_message json get_double message >>= λ status. ok (some status))
