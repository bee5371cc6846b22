-- ===== src/Media/Status.antt =====
-- media_messages.cpp: MediaStatus::FromMessage and MediaResponse.
pub mod Laws
use libchromecast.Prelude.{
  ℕ, Bool, true, false, not, List, [], ◌∷◌, ◌++◌, Bytes, codes, str_eq, Option, none, some,
  if◌then◌else◌,
}
use libchromecast.Utils.{
  Error, runtime_error, assertion, Result, ok, thrown, Site, throw_on_error, ◌>>=◌, ◌>>◌,
}
use libchromecast.Json.{or_assert, const_index}
use libchromecast.Json.Read.{text_member, uint32_member, bool_member, read_array}
use libchromecast.Media.{
  Media, MediaItem, MediaStatus, MediaResponse, PlayerState, idle, buffering, playing, paused,
  missing, RepeatMode, off, missing_mode, new_media, Libraries,
}
use libchromecast.Media.Style.{double_member}
use libchromecast.Media.Content
use libchromecast.Media.Content.{item_from_message}

abbrev status_site : ℕ → Site
status_site line = record {
  file = codes "media_messages.cpp";
  function = codes "chromecast::MediaStatus::FromMessage";
  line = line;
}

-- player_json_state_to_state and player_json_repeat_mode_to_repeat_mode, and how they are searched
abbrev player_states : List (Bytes × PlayerState)
player_states =
    (codes "PLAYING", playing)
    ∷ (codes "BUFFERING", buffering)
    ∷ (codes "PAUSED", paused)
    ∷ (codes "IDLE", idle)
    ∷ []

abbrev repeat_modes : List (Bytes × RepeatMode)
repeat_modes = (codes "REPEAT_OFF", off) ∷ []

unfoldable pub find_text : {A : Type 0} → Bytes → List (Bytes × A) → Option A
find_text t [] = none
find_text t ((u, a) ∷ entries) = if str_eq t u then some a else find_text t entries

-- What is found, or an exception; the iterator end() is not read.
found : {A : Type 0} → ℕ → Bytes → Option A → Result A
found line text none = throw_on_error true (status_site line) text >> thrown assertion
found line text (some a) = ok a

module _ {V D : Type 0} (libraries : Libraries V D) where
  open libraries use {json, zero_double, garbage}

  -- `MediaStatus status;`
  unfoldable pub new_status : MediaStatus D
  unfolding new_media
  new_status = record {
    valid = false;
    muted = false;
    volume_level = zero_double;
    current_time = zero_double;
    session_id = 0;
    playback_rate = 0;
    current_item_id = 0;
    player_state = missing;
    supported_media_commands = 0;
    repeat_mode = missing_mode;
    media = new_media garbage;
    items = [];
  }

  read_player_state : V → Result PlayerState
  unfolding find_text found
  read_player_state json_status = do
    text ← text_member json (codes "playerState") json_status
    found 229 (codes "unrecognized play state " ++ text) (find_text text player_states)

  optional_repeat_mode : V → Result RepeatMode
  unfolding find_text found
  optional_repeat_mode json_status =
      if json.has_member (codes "repeatMode") json_status
      then (do
        text ← text_member json (codes "repeatMode") json_status
        found 236 (codes "unrecognized repeat mode " ++ text) (find_text text repeat_modes))
      else ok missing_mode

  optional_media : V → Result (Media D)
  unfolding Content.from_message new_media
  optional_media json_status =
      if json.has_member (codes "media") json_status
      then (const_index json (codes "media") json_status >>= Content.from_message libraries)
      else ok (new_media garbage)

  optional_items : V → Result (List (MediaItem D))
  unfolding item_from_message read_array
  optional_items json_status =
      if json.has_member (codes "items") json_status
      then (const_index json (codes "items") json_status
          >>= read_array json (item_from_message libraries))
      else ok []

  -- one round of the loop over the statuses
  unfoldable pub read_status : V → Result (MediaStatus D)
  unfolding read_player_state optional_repeat_mode optional_media optional_items
  read_status json_status = do
    session_id ← uint32_member json (codes "mediaSessionId") json_status
    playback_rate ← uint32_member json (codes "playbackRate") json_status
    current_time ← double_member libraries (codes "currentTime") json_status
    commands ← uint32_member json (codes "supportedMediaCommands") json_status
    volume ← const_index json (codes "volume") json_status
    muted ← bool_member json (codes "muted") volume
    volume_level ← double_member libraries (codes "level") volume
    current_item_id ← uint32_member json (codes "currentItemId") json_status
    player_state ← read_player_state json_status
    repeat_mode ← optional_repeat_mode json_status
    media ← optional_media json_status
    items ← optional_items json_status
    ok (record {
      valid = true;
      muted = muted;
      volume_level = volume_level;
      current_time = current_time;
      session_id = session_id;
      playback_rate = playback_rate;
      current_item_id = current_item_id;
      player_state = player_state;
      supported_media_commands = commands;
      repeat_mode = repeat_mode;
      media = media;
      items = items;
    })

  -- `if (!statuses.empty()) status = statuses.front();`
  unfoldable pub front_status : List (MediaStatus D) → MediaStatus D
  unfolding new_status
  front_status [] = new_status
  front_status (status ∷ statuses) = status

  -- MediaStatus::FromMessage
  unfoldable pub status_from_message : V → Result (MediaStatus D)
  unfolding read_status front_status read_array
  status_from_message message = do
    type ← text_member json (codes "type") message
    throw_on_error (not (str_eq type (codes "MEDIA_STATUS"))) (status_site 208)
        (codes "invalid message type, expected a receiver status message")
    json_statuses ← const_index json (codes "status") message
    statuses ← read_array json read_status json_statuses
    ok (front_status statuses)

  -- MediaResponse::FromMessage
  unfoldable pub response_from_message : V → Result (MediaResponse D)
  unfolding status_from_message new_status
  response_from_message message =
      if json.has_member (codes "status") message
      then (status_from_message message >>= λ status. ok (record { reason = []; status = status }))
      else (text_member json (codes "reason") message >>= λ reason.
          ok (record { reason = reason; status = new_status }))

abbrev is_empty : Bytes → Bool
is_empty [] = true
is_empty (c ∷ s) = false

module _ {D : Type 0} (response : MediaResponse D) where
  -- MediaResponse::Succeeded, Failed, ThrowOnFailure and ToString
  unfoldable pub succeeded : Bool
  succeeded = is_empty response.reason

  unfoldable pub has_failed : Bool
  unfolding succeeded
  has_failed = not succeeded

  unfoldable pub throw_on_failure : Result (Unit {0})
  unfolding has_failed
  throw_on_failure = if has_failed then thrown (runtime_error response.reason) else ok tt

  unfoldable pub response_text : Bytes
  response_text =
      if is_empty response.reason then codes "success" else codes "failure, " ++ response.reason
