-- ===== src/Heartbeat/Pings.antt =====
-- heartbeat_channel.cpp: how often the handler of the send timer, which sends PING, is called.
use libchromecast.Prelude.{
  ℕ, suc, ◌+◌, ◌*◌, ◌≤◌, ◌≡◌, refl, sym, ap, ◌∙◌, false, Bytes, none, some, arith,
}
use libchromecast.Action.{Action}
use libchromecast.Json.Library.{Rapidjson}
use libchromecast.Utils.{ok}
use libchromecast.Heartbeat.{Heartbeat, start, start_send_timer, start_receive_timer}
use libchromecast.Heartbeat.Timeout.{
  SendReturns, SendsReturn, Steps, done, next, second, send_expires, receive_expires, receives,
  SendsFirst, start-SendsFirst, Steps-SendsFirst, on_send_timer-eq-ok, timers-on_message,
}

module _ {S V : Type 0} (json : Rapidjson V) (send : Bytes → Action S (Unit {0})) where
  -- The number of calls of the handler of the send timer.
  unfoldable pub pings : {h h' : Heartbeat S} → Steps json send h h' → ℕ
  pings (done h) = 0
  pings (next before (second h a b)) = pings before
  pings (next before (send_expires h h' t result e expired e')) = suc (pings before)
  pings (next before (receive_expires h h' t e expired e')) = pings before
  pings (next before (receives h h' message result e)) = pings before

  -- Each call sets the timer five seconds after the last.
  send_timer-pings :
      {h h' : Heartbeat S} (at : ℕ)
      → SendsFirst json send h
      → h.send_timer ≡ some at
      → (history : Steps json send h h') → SendsReturn json send history
      → h'.send_timer ≡ some (at + 5 * pings history)
  unfolding pings SendsReturn SendReturns
  send_timer-pings at i e (done h) returned = e ∙ ap some (omega arith)
  send_timer-pings at i e (next before (second h a b)) returned =
      send_timer-pings at i e before returned.0
  send_timer-pings at i e (next before (send_expires h h' t result e' expired called)) returned =
      let j = Steps-SendsFirst json send i before returned.0 in
      let timer = send_timer-pings at i e before returned.0 in
      let now_is : h.now ≡ at + 5 * pings before =
        ground (arith, timer, e', expired, j.send_timer, j.now_send) in
      (on_send_timer-eq-ok json send h h' (called ∙ ap (λ r. (r, h')) returned.1)).1
      ∙ ap some (omega (arith, now_is))
  send_timer-pings at i e (next before (receive_expires h h' t e' expired called)) returned =
      let j = Steps-SendsFirst json send i before returned.0 in
      let same : t ≡ j.receives_at = ground (arith, j.receive_timer, e') in
      absurd (omega (arith, j.now_send, j.send_receive))
  send_timer-pings at i e (next before (receives h h' message result called)) returned =
      (timers-on_message json send h h' message result called).1
      ∙ send_timer-pings at i e before returned.0

  -- From Start of a channel with no pending wait on, in every history in which the handler of the
  -- send timer returns each time that it is called, so that no Send of a PING throws, and whatever
  -- the peer sends or leaves unsent, OnMessage returning or throwing: that handler, which sends
  -- PING, is called every five seconds. After a time it was called once for each five seconds that
  -- went by in full, or, where its turn has just come, once less.
  pub start-pings :
      (h h' : Heartbeat S)
      → h.send_timer ≡ none
      → h.aborted_sends ≡ 0
      → h.closed ≡ false
      → (history : Steps json send (start h).1 h') → SendsReturn json send history
      → (h.now + 5 * pings history ≤ h'.now) × (h'.now ≤ h.now + 5 * suc (pings history))
  unfolding start start_send_timer start_receive_timer
  start-pings h h' idle none_aborted opened history returned =
      let i = start-SendsFirst json send h idle none_aborted opened in
      let j = Steps-SendsFirst json send i history returned in
      let timer : some j.sends_at ≡ some (h.now + 5 + 5 * pings history) =
        sym j.send_timer ∙ send_timer-pings (h.now + 5) i refl history returned in
      let sends_at : j.sends_at ≡ h.now + 5 + 5 * pings history = ground (arith, timer) in
      (omega (arith, sends_at, j.send_now), omega (arith, sends_at, j.now_send))

  -- Every Send returns.
  abbrev pub Returns : Type 0
  Returns = (text : Bytes) (s : S) → (s' : S) × (send text s ≡ (ok tt, s'))
