-- ===== src/Requests.antt =====
-- receiver_channel.h, receiver_channel.cpp: RequestChannel, its requests by id, their retries and
-- the responses to them. A callback is a value of `C`; the call of one, which is the last thing
-- that a response does, is returned with its argument.
pub mod Laws
pub mod Retry
use libchromecast.Prelude.{
  ℕ, suc, ◌+◌, ◌%◌, ◌^◌, Bool, true, false, List, [], ◌∷◌, ◌++◌, Bytes, codes, str_eq, Option, none,
  some, ltb, if◌then◌else◌,
}
use libchromecast.Utils.{
  Error, runtime_error, Result, ok, thrown, Site, ErrorCode, failed, throw_on_error, ◌>>=◌, ◌>>◌,
}
use libchromecast.OrderedMap.{find, insert, erase}
use libchromecast.Json.Library.{Rapidjson}
use libchromecast.Json.{make_member, assign, index, parse, message_text, get_string, get_uint64}

-- ChannelRequest: whether its retry timer is waited for, the message that the timer's handler
-- holds, and the callback, which may be empty.
pub record ChannelRequest (C V : Type 0) : Type 0 where
  pub armed : Bool
  pub message : V
  pub callback : Option C

-- What a call on a RequestChannel acts on: `_request_id`, the static uint64_t that all the channels
-- share, this channel's `_request_id_to_request`, and `rest`, the state of the rest of the program,
-- on which Send acts. Between two calls the other channels may have advanced the counter.
pub record Requests (C V S : Type 0) : Type 0 where
  pub request_id : ℕ
  pub requests : List (ℕ × ChannelRequest C V)
  pub rest : S

-- What OnResponse returns, and the callback that it calls with the message.
pub record Response (C V : Type 0) : Type 0 where
  pub handled : Bool
  pub call : Option (C × V)

abbrev invalid_site : Site
invalid_site = record {
  file = codes "receiver_channel.cpp";
  function = codes "chromecast::RequestChannel::OnMessage";
  line = 57;
}

module _ {V : Type 0} (json : Rapidjson V) where
  -- JsonMessage's copy constructor
  copy : V → V
  unfolding message_text parse
  copy message = parse json (message_text json message)

  -- The `try` block: the id, the type, and the message in which operator[] made the members.
  unfoldable pub read_header : V → Result (ℕ × Bytes × V)
  unfolding make_member index get_uint64 get_string
  read_header message = do
    let message_1 = make_member json (codes "requestId") message
    id ← get_uint64 json (json.get_member (codes "requestId") message_1)
    let message_2 = make_member json (codes "type") message_1
    type ← get_string json (json.get_member (codes "type") message_2)
    ok (id, type, message_2)

  -- What stands behind it: the text of the error is made whether there is one or not.
  checked : ℕ → Bytes → V → Result (ℕ × V)
  unfolding make_member get_string
  checked id type message = do
    let message_3 = make_member json (codes "reason") message
    reason ← get_string json (json.get_member (codes "reason") message_3)
    throw_on_error (str_eq type (codes "INVALID_REQUEST")) invalid_site
        (codes "invalid request, " ++ reason)
    ok (id, message_3)

  -- `catch (std::runtime_error&)`
  after_header : Result (ℕ × Bytes × V) → Result (Option (ℕ × V))
  unfolding checked
  after_header (thrown (runtime_error text)) = ok none
  after_header (thrown e) = thrown e
  after_header (ok (id, type, message)) = do
    checked_message ← checked id type message
    ok (some checked_message)

  -- RequestChannel::OnMessage up to the call of OnResponse: its arguments, or none where it
  -- returns false.
  unfoldable pub response_of : Bytes → Result (Option (ℕ × V))
  unfolding after_header read_header parse
  response_of message = after_header (read_header (parse json message))

-- `if (_callback) _callback(message)`
abbrev pub called : {C V : Type 0} → V → Option C → Option (C × V)
called message none = none
called message (some callback) = some (callback, message)

module _ {C V S : Type 0} where
  -- The timer of the request with this id is no longer waited for.
  disarm : ℕ → ChannelRequest C V → Requests C V S → Requests C V S
  disarm id entry r = record r {
    requests = insert ltb id (record entry { armed = false }) r.requests;
  }

  completed : ℕ → V → Option (ChannelRequest C V) → Requests C V S → Response C V × Requests C V S
  completed id message none r = (record { handled = false; call = none }, r)
  completed id message (some entry) r = (
    record { handled = true; call = called message entry.callback },
    record r { requests = erase ltb id r.requests },
  )

  -- RequestChannel::OnResponse, with ChannelRequest::OnRequestCompleted: the entry goes, and its
  -- timer with it.
  unfoldable pub on_response : ℕ → V → Requests C V S → Response C V × Requests C V S
  unfolding completed
  on_response id message r = completed id message (find ltb id r.requests) r

module _ {C V S : Type 0} (json : Rapidjson V) (send : Bytes → S → Result (Unit {0}) × S) where
  -- RequestChannel::Request
  unfoldable pub request : V → Option C → Requests C V S → Result (Unit {0}) × Requests C V S
  unfolding copy assign
  request message callback r =
      let id = (r.request_id + 1) % 2 ^ 64 in
      let numbered = assign json (codes "requestId") (json.set_uint64 id) message in
      let (result, rest) = send (message_text json numbered) r.rest in
      (
        result,
        record {
          request_id = id;
          requests =
              insert ltb id
                (record { armed = true; message = copy json numbered; callback = callback })
                r.requests;
          rest = rest;
        },
      )

  -- The handler of the retry timer of a request with this id
  unfoldable pub on_retry :
      ErrorCode → ℕ → ChannelRequest C V → Requests C V S → Result (Unit {0}) × Requests C V S
  unfolding copy disarm
  on_retry error id entry r =
      if failed error
      then (ok tt, r)
      else request (copy json entry.message) entry.callback (disarm id entry r)
