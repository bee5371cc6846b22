-- ===== src/Media/Channel.antt =====
-- media_channel.h, media_channel.cpp: MediaChannel over the requests of RequestChannel, whose
-- constructor it passes its ids to. `K` is the type of callbacks, an empty one `none`; the calls of
-- callbacks, which are the last thing that a function does, are returned in order.
pub mod Laws
pub mod Reading
pub mod Responses
use libchromecast.Prelude.{
  ℕ, Bool, true, false, List, [], ◌∷◌, Bytes, codes, str_eq, Option, none, some, ◌==◌,
  if◌then◌else◌,
}
use libchromecast.Utils.{Result, ok, thrown, ◌>>=◌ as bind}
use libchromecast.Action.{Action, pure, lift, gets, modify, ◌>>=◌, ◌>>◌}
use libchromecast.Json.{assign, uint32_value, strings_value, message_const_index, get_string}
use libchromecast.Requests.{Requests, Response, request, on_response as complete_request}
use libchromecast.Receiver.Channel.Messages.{typed}
use libchromecast.Media.{Media, MediaStatus, MediaResponse, Libraries}
use libchromecast.Media.Content
use libchromecast.Media.Status.{status_from_message, response_from_message, succeeded}

-- The functions that MediaChannel hands to Request, each with the callback that it has captured:
-- that of Load, that of SessionRequest, and, for GetStatus, that of Request<MediaResponse>.
pub data Handler (K : Type 0) : Type 0 where
  load_handler session_handler status_handler : Option K → Handler K

pub record MediaChannel (K V D S : Type 0) : Type 0 where
  pub requests : Requests (Handler K) V S
  pub last_status : MediaStatus D

-- `if (callback) callback(result);`
abbrev answer : {K D : Type 0} → Option K → MediaResponse D → List (K × MediaResponse D)
answer none response = []
answer (some callback) response = (callback, response) ∷ []

module _ {K V D S : Type 0} where
  -- The handler of Load, after FromMessage of the message
  loaded : Option K → MediaResponse D → Action (MediaChannel K V D S) (List (K × MediaResponse D))
  unfolding succeeded
  loaded callback response r = (
    ok (answer callback response),
    if succeeded response then record r { last_status = response.status } else r,
  )

  abbrev after_request :
      MediaChannel K V D S
      → Result (Unit {0}) × Requests (Handler K) V S
      → Result (Unit {0}) × MediaChannel K V D S
  after_request r (result, requests) = (result, record r { requests = requests })

-- `_last_status`, if the message is a status
unfoldable pub next_status :
    {V D : Type 0} → Libraries V D → V → MediaStatus D → Result (MediaStatus D)
unfolding message_const_index get_string status_from_message
next_status libraries message last_status =
    let type =
      bind (message_const_index libraries.json (codes "type") message)
        (get_string libraries.json) in
    bind type λ text.
      if str_eq text (codes "MEDIA_STATUS")
      then status_from_message libraries message
      else ok last_status

module _ {K V D S : Type 0} (libraries : Libraries V D) where
  abbrev read_response : V → Action (MediaChannel K V D S) (MediaResponse D)
  read_response message = lift (response_from_message libraries message)

  -- A response, handed to the function that Request was given. With an empty callback GetStatus
  -- does not read it.
  unfoldable pub handle : Handler K → V → Action (MediaChannel K V D S) (List (K × MediaResponse D))
  unfolding loaded response_from_message
  handle (load_handler callback) message = read_response message >>= loaded callback
  handle (session_handler callback) message =
      read_response message >>= λ response. pure (answer callback response)
  handle (status_handler none) message = pure []
  handle (status_handler (some callback)) message =
      read_response message >>= λ response. pure ((callback, response) ∷ [])

  run_call : Option (Handler K × V) → Action (MediaChannel K V D S) (List (K × MediaResponse D))
  unfolding handle
  run_call none = pure []
  run_call (some (handler, message)) = handle handler message

  -- RequestChannel::OnResponse, with the call that it makes
  completed : ℕ → V → Action (MediaChannel K V D S) (Bool × List (K × MediaResponse D))
  unfolding run_call complete_request
  completed request_id message r =
      let (response, requests) = complete_request request_id message r.requests in
      (run_call response.call >>= λ calls. pure (response.handled, calls))
        (record r { requests = requests })

  -- MediaChannel::OnResponse: whether the message was handled, and the calls
  unfoldable pub on_response :
      ℕ → V → Action (MediaChannel K V D S) (Bool × List (K × MediaResponse D))
  unfolding next_status completed
  on_response request_id message = gets (λ r. r.last_status) >>= λ last_status.
      lift (next_status libraries message last_status) >>= λ status.
      modify (λ r. record r { last_status = status })
      >> (if request_id == 0 then pure (true, []) else completed request_id message)

module _ {K V D S : Type 0} (libraries : Libraries V D)
    (send : Bytes → S → Result (Unit {0}) × S) where
  open libraries use {json}

  -- SessionRequest
  unfoldable pub session_request :
      V → Option K → MediaChannel K V D S → Result (Unit {0}) × MediaChannel K V D S
  unfolding assign uint32_value request
  session_request message callback r =
      let session =
        assign json (codes "mediaSessionId") (uint32_value json r.last_status.session_id) message in
      after_request r (request json send session (some (session_handler callback)) r.requests)

  -- Play, Pause and Stop
  unfoldable pub play : Option K → MediaChannel K V D S → Result (Unit {0}) × MediaChannel K V D S
  unfolding session_request typed
  play = session_request (typed json (codes "PLAY"))

  unfoldable pub pause : Option K → MediaChannel K V D S → Result (Unit {0}) × MediaChannel K V D S
  unfolding session_request typed
  pause = session_request (typed json (codes "PAUSE"))

  unfoldable pub stop : Option K → MediaChannel K V D S → Result (Unit {0}) × MediaChannel K V D S
  unfolding session_request typed
  stop = session_request (typed json (codes "STOP"))

  -- Seek
  unfoldable pub seek :
      ℕ → Option K → MediaChannel K V D S → Result (Unit {0}) × MediaChannel K V D S
  unfolding session_request typed assign uint32_value
  seek minute_offset = session_request (
      assign json (codes "currentTime") (uint32_value json minute_offset)
        (typed json (codes "SEEK")))

  -- SetTrackInfo
  unfoldable pub set_track_info :
      List Bytes → Option K → MediaChannel K V D S → Result (Unit {0}) × MediaChannel K V D S
  unfolding session_request typed assign strings_value
  set_track_info track_ids = session_request (
      assign json (codes "activeTrackIds") (strings_value json track_ids)
        (typed json (codes "EDIT_TRACKS_INFO")))

  -- GetStatus
  unfoldable pub get_status :
      Option K → MediaChannel K V D S → Result (Unit {0}) × MediaChannel K V D S
  unfolding request typed
  get_status callback r = after_request r (
      request json send (typed json (codes "GET_STATUS")) (some (status_handler callback))
        r.requests)

  requested : Option K → Result V → MediaChannel K V D S → Result (Unit {0}) × MediaChannel K V D S
  unfolding request
  requested callback (thrown e) r = (thrown e, r)
  requested callback (ok message) r =
      after_request r (request json send message (some (load_handler callback)) r.requests)

  -- Load, whose `autoplay` nothing reads
  unfoldable pub load :
      Media D → Bool → Option K → MediaChannel K V D S → Result (Unit {0}) × MediaChannel K V D S
  unfolding requested typed Content.to_message
  load media autoplay callback r =
      requested callback (Content.to_message libraries media (typed json (codes "LOAD"))) r
