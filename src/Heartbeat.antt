-- ===== src/Heartbeat.antt =====
-- heartbeat_channel.h, heartbeat_channel.cpp: HeartbeatChannel, its two timers over a clock in
-- seconds, and its messages.
pub mod Timeout
pub mod Pings
use libchromecast.Prelude.{
  ℕ, suc, ◌+◌, Bool, true, false, Bytes, codes, str_eq, Option, none, some, if◌then◌else◌,
}
use libchromecast.Utils.{Result, ok, thrown, Site, ErrorCode, failed, throw_on_error_code}
use libchromecast.Action.{Action, pure, lift, modify, ◌>>=◌, ◌>>◌}
use libchromecast.Json.Library.{Rapidjson}
use libchromecast.Json.{assign, index, parse, message_text, get_string}

abbrev pub send_interval_in_seconds : ℕ
send_interval_in_seconds = 5

abbrev pub receive_timeout_in_seconds : ℕ
receive_timeout_in_seconds = 30

-- The channel and what it acts on. A timer that is waited for is the time at which it expires;
-- `aborted_sends` counts the waits for the send timer that were cancelled and whose handlers are
-- still to be called; `closed` is whether Close of the connection was called.
pub record Heartbeat (S : Type 0) : Type 0 where
  pub now : ℕ
  pub send_timer : Option ℕ
  pub aborted_sends : ℕ
  pub receive_timer : Option ℕ
  pub closed : Bool
  pub rest : S

abbrev send_site : Site
send_site = record {
  file = codes "heartbeat_channel.cpp";
  function = codes "chromecast::HeartbeatChannel::StartSendTimer::<lambda>";
  line = 17;
}

abbrev aborted_with : Option ℕ → ℕ → ℕ
aborted_with none n = n
aborted_with (some t) n = suc n

module _ {S : Type 0} where
  -- StartSendTimer: `expires_from_now` cancels the wait that is pending.
  unfoldable pub start_send_timer : Action (Heartbeat S) (Unit {0})
  start_send_timer = modify λ h. record h {
    send_timer = some (h.now + send_interval_in_seconds);
    aborted_sends = aborted_with h.send_timer h.aborted_sends;
  }

  -- StartReceiveTimer: the handler of a cancelled wait does nothing.
  unfoldable pub start_receive_timer : Action (Heartbeat S) (Unit {0})
  start_receive_timer =
      modify λ h. record h { receive_timer = some (h.now + receive_timeout_in_seconds) }

  -- HeartbeatChannel::Start
  unfoldable pub start : Action (Heartbeat S) (Unit {0})
  unfolding start_send_timer start_receive_timer
  start = start_send_timer >> start_receive_timer

  -- The handler in StartReceiveTimer
  unfoldable pub on_receive_timer : ErrorCode → Action (Heartbeat S) (Unit {0})
  on_receive_timer error = modify λ h. if failed error then h else record h { closed = true }

module _ {S V : Type 0} (json : Rapidjson V) (send : Bytes → Action S (Unit {0})) where
  -- Send, on the channel's own state
  send_text : Bytes → Action (Heartbeat S) (Unit {0})
  send_text text h = let (result, rest) = send text h.rest in (result, record h { rest = rest })

  -- `message["type"] = …`, sent
  typed_message : Bytes → Bytes
  unfolding assign message_text
  typed_message type =
      message_text json (assign json (codes "type") (json.set_string type) json.null)

  -- The handler in StartSendTimer
  unfoldable pub on_send_timer : ErrorCode → Action (Heartbeat S) (Unit {0})
  unfolding send_text typed_message start
  on_send_timer error =
      lift (throw_on_error_code error send_site (codes ""))
      >> (send_text (typed_message (codes "PING")) >> start)

  -- HeartbeatChannel::OnMessage, by the type of the message
  reply : Bytes → Action (Heartbeat S) Bool
  unfolding send_text typed_message start_receive_timer
  reply type =
      if str_eq type (codes "PONG")
      then pure true
      else if str_eq type (codes "PING")
      then (send_text (typed_message (codes "PONG")) >> start_receive_timer >>= λ _. pure true)
      else pure false

  -- HeartbeatChannel::OnMessage
  unfoldable pub on_message : Bytes → Action (Heartbeat S) Bool
  unfolding index parse get_string reply
  on_message message = do
    type ← lift (get_string json (index json (codes "type") (parse json message)))
    reply type
