-- ===== src/Heartbeat/Timeout.antt =====
-- heartbeat_channel.cpp: the two timers in any order of events that they and the peer allow.
use libchromecast.Prelude.{
  ℕ, suc, ◌+◌, ◌≤◌, ◌<◌, ◌≡◌, refl, ◌∙◌, subst, ap, ◌⊎◌, Bool, false, Bytes, codes, Option, none,
  some, arith, inl, inr,
}
use libchromecast.Utils.{Result, ok, ErrorCode, throw_on_error_code}
use libchromecast.Action.{Action}
use libchromecast.Json.Library.{Rapidjson}
use libchromecast.Heartbeat.{
  Heartbeat, start, start_send_timer, start_receive_timer, on_send_timer, on_receive_timer,
  on_message, reply, send_text,
}

-- A timer that has not expired.
abbrev pub IsLater : ℕ → Option ℕ → Type 0
IsLater now none = Unit {0}
IsLater now (some t) = now < t

abbrev pub no_error : ErrorCode
no_error = record { value = 0; message = codes "" }

module _ {S V : Type 0} (json : Rapidjson V) (send : Bytes → Action S (Unit {0})) where
  -- What can happen: a second goes by if no timer has expired; the handler of a timer that has
  -- expired is called, its wait being over; the peer sends a message. The handler of the send timer
  -- and OnMessage return or throw.
  pub data Step : Heartbeat S → Heartbeat S → Type 0 where
    second :
        (h : Heartbeat S)
        → IsLater h.now h.send_timer
        → IsLater h.now h.receive_timer
        → Step h (record h { now = suc h.now })
    send_expires :
        (h h' : Heartbeat S) (t : ℕ) (result : Result (Unit {0}))
        → h.send_timer ≡ some t
        → t ≤ h.now
        → on_send_timer json send no_error (record h { send_timer = none }) ≡ (result, h')
        → Step h h'
    receive_expires :
        (h h' : Heartbeat S) (t : ℕ)
        → h.receive_timer ≡ some t
        → t ≤ h.now
        → on_receive_timer no_error (record h { receive_timer = none }) ≡ (ok tt, h')
        → Step h h'
    receives :
        (h h' : Heartbeat S) (message : Bytes) (result : Result Bool)
        → on_message json send message h ≡ (result, h')
        → Step h h'

  pub data Steps : Heartbeat S → Heartbeat S → Type 0 where
    done : (h : Heartbeat S) → Steps h h
    next : {h h' h'' : Heartbeat S} → Steps h h' → Step h' h'' → Steps h h''

  -- The handler of the send timer, where it is called, returns: its Send of PING does not throw.
  unfoldable pub SendReturns : {h h' : Heartbeat S} → Step h h' → Type 0
  SendReturns (second h a b) = Unit {0}
  SendReturns (send_expires h h' t result e expired e') = result ≡ ok tt
  SendReturns (receive_expires h h' t e expired e') = Unit {0}
  SendReturns (receives h h' message result e) = Unit {0}

  -- So it does each time in a history.
  unfoldable pub SendsReturn : {h h' : Heartbeat S} → Steps h h' → Type 0
  unfolding SendReturns
  SendsReturn (done h) = Unit {0}
  SendsReturn (next before last) = SendsReturn before × SendReturns last

  -- The send timer expires within its interval, and before the receive timer.
  pub record SendsFirst (h : Heartbeat S) : Type 0 where
    pub sends_at : ℕ
    pub receives_at : ℕ
    pub send_timer : h.send_timer ≡ some sends_at
    pub receive_timer : h.receive_timer ≡ some receives_at
    pub now_send : h.now ≤ sends_at
    pub send_now : sends_at ≤ h.now + 5
    pub send_receive : sends_at < receives_at
    pub not_closed : h.closed ≡ false
    pub no_abort : h.aborted_sends ≡ 0

  pub start-SendsFirst :
      (h : Heartbeat S)
      → h.send_timer ≡ none
      → h.aborted_sends ≡ 0
      → h.closed ≡ false
      → SendsFirst (start h).1
  unfolding start start_send_timer start_receive_timer
  start-SendsFirst h idle none_aborted opened = record {
    sends_at = h.now + 5;
    receives_at = h.now + 30;
    send_timer = refl;
    receive_timer = refl;
    now_send = omega arith;
    send_now = omega arith;
    send_receive = omega arith;
    not_closed = opened;
    no_abort = rw idle none_aborted;
  }

  -- What the handler of the send timer leaves, if it returns.
  pub on_send_timer-eq-ok :
      (h h' : Heartbeat S)
      → on_send_timer json send no_error (record h { send_timer = none }) ≡ (ok tt, h')
      → (h'.now ≡ h.now)
        × (h'.send_timer ≡ some (h.now + 5))
        × (h'.receive_timer ≡ some (h.now + 30))
        × (h'.aborted_sends ≡ h.aborted_sends)
        × (h'.closed ≡ h.closed)
  unfolding on_send_timer send_text throw_on_error_code start start_send_timer start_receive_timer
  on_send_timer-eq-ok h h' e = ground arith

  -- What OnMessage leaves, whether it returns or throws.
  pub timers-on_message :
      (h h' : Heartbeat S) (message : Bytes) (result : Result Bool)
      → on_message json send message h ≡ (result, h')
      → (h'.now ≡ h.now)
        × (h'.send_timer ≡ h.send_timer)
        × ((h'.receive_timer ≡ h.receive_timer) ⊎ (h'.receive_timer ≡ some (h.now + 30)))
        × (h'.aborted_sends ≡ h.aborted_sends)
        × (h'.closed ≡ h.closed)
  unfolding on_message reply send_text start_receive_timer
  timers-on_message h h' message result e = ground arith

  Step-SendsFirst :
      {h h' : Heartbeat S} → SendsFirst h → (last : Step h h') → SendReturns last → SendsFirst h'
  unfolding on_receive_timer SendReturns
  Step-SendsFirst i (second h send_later receive_later) returned =
      let now_later : h.now < i.sends_at = subst (IsLater h.now) i.send_timer send_later in
      record {
        sends_at = i.sends_at;
        receives_at = i.receives_at;
        send_timer = i.send_timer;
        receive_timer = i.receive_timer;
        now_send = omega arith;
        send_now = omega (arith, i.send_now);
        send_receive = i.send_receive;
        not_closed = i.not_closed;
        no_abort = i.no_abort;
      }
  Step-SendsFirst i (send_expires h h' t result e expired e') returned =
      let (now, timer, receive_timer, aborted, closed) =
        on_send_timer-eq-ok h h' (e' ∙ ap (λ r. (r, h')) returned) in
      record {
        sends_at = h.now + 5;
        receives_at = h.now + 30;
        send_timer = timer;
        receive_timer = receive_timer;
        now_send = omega (arith, now);
        send_now = omega (arith, now);
        send_receive = omega arith;
        not_closed = closed ∙ i.not_closed;
        no_abort = aborted ∙ i.no_abort;
      }
  Step-SendsFirst i (receive_expires h h' t e expired e') returned =
      let same : t ≡ i.receives_at = ground (arith, i.receive_timer, e) in
      absurd (omega (arith, i.now_send, i.send_receive))
  Step-SendsFirst i (receives h h' message result e) returned =
      let (now, timer, receive_timer, aborted, closed) = timers-on_message h h' message result e in
      let build : (at : ℕ) → i.sends_at < at → h'.receive_timer ≡ some at → SendsFirst h' =
        λ at later receives_timer. record {
          sends_at = i.sends_at;
          receives_at = at;
          send_timer = timer ∙ i.send_timer;
          receive_timer = receives_timer;
          now_send = omega (arith, now, i.now_send);
          send_now = omega (arith, now, i.send_now);
          send_receive = later;
          not_closed = closed ∙ i.not_closed;
          no_abort = aborted ∙ i.no_abort;
        } in
      elim receive_timer [
        | inl kept ↦ build i.receives_at i.send_receive (kept ∙ i.receive_timer)
        | inr restarted ↦ build (h.now + 30) (omega (arith, i.send_now)) restarted
      ]

  pub Steps-SendsFirst :
      {h h' : Heartbeat S}
      → SendsFirst h
      → (history : Steps h h') → SendsReturn history
      → SendsFirst h'
  unfolding SendsReturn
  Steps-SendsFirst i (done h) returned = i
  Steps-SendsFirst i (next before last) returned =
      Step-SendsFirst (Steps-SendsFirst i before returned.0) last returned.1

  -- From Start of a channel with no pending wait on, in every history in which the handler of the
  -- send timer returns each time that it is called, so that no Send of a PING throws, and whatever
  -- the peer sends or leaves unsent, OnMessage returning or throwing: the send timer, where it is
  -- waited for, is to expire within five seconds, the receive timer has not expired, the connection
  -- is not closed, and no wait for the send timer was aborted.
  pub Steps-start :
      (h h' : Heartbeat S)
      → h.send_timer ≡ none
      → h.aborted_sends ≡ 0
      → h.closed ≡ false
      → (history : Steps (start h).1 h') → SendsReturn history
      → (h'.closed ≡ false)
        × (h'.aborted_sends ≡ 0)
        × ((t : ℕ) → h'.receive_timer ≡ some t → h'.now < t)
        × ((t : ℕ) → h'.send_timer ≡ some t → t ≤ h'.now + 5)
  Steps-start h h' idle none_aborted opened history returned =
      let i = Steps-SendsFirst (start-SendsFirst h idle none_aborted opened) history returned in
      (
        i.not_closed,
        i.no_abort,
        λ t e.
            let same : t ≡ i.receives_at = ground (arith, i.receive_timer, e) in
            omega (arith, i.now_send, i.send_receive),
        λ t e.
            let same : t ≡ i.sends_at = ground (arith, i.send_timer, e) in
            omega (arith, i.send_now),
      )
