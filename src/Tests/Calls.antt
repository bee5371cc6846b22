-- ===== src/Tests/Calls.antt =====
-- Channels over the JSON values, and the examples of what is proved of them.
use libchromecast.Prelude.{
  suc, ◌*◌, ℕ, ◌+◌, ◌≤◌, ◌<◌, ◌≡◌, ◌≢◌, refl, arith, true, false, List, [], ◌∷◌, Bytes, codes, none,
  some,
}
use libchromecast.Utils.{Result, ok}
use libchromecast.Cast.Address.{wildcard}
use libchromecast.Cast.Message.{CastMessage}
use libchromecast.Heartbeat.{Heartbeat, start}
use libchromecast.Heartbeat.Timeout
use libchromecast.Heartbeat.Timeout.{Steps-start}
use libchromecast.Heartbeat.Pings.{pings, start-pings}
use libchromecast.OrderedMap.{find}
use libchromecast.Requests.{
  ChannelRequest, Requests, called, request, on_retry, on_response, response_of,
}
use libchromecast.Requests.Laws.{
  pending, IsValid, request-IsValid, on_response-pending, response_of-ne-none,
}
use libchromecast.Requests.Retry.{
  no_error, done, next, requests, on_response-once, on_retry-calls_twice,
}
use libchromecast.Tests.Messages.{text_message}
use libchromecast.Tests.Values.{Value, json, text, number, null, object, member, no_members}

abbrev to_all : CastMessage
to_all = record text_message {
  address = record { source = codes "r"; destination = wildcard; namespace = codes "tp" };
}

abbrev state : ℕ
state = 4

abbrev two_members : Value
two_members =
    object (member (codes "type") (text (codes "PING")) (member (codes "n") (number 3) no_members))

-- Send that keeps the texts.
abbrev keep : Bytes → List Bytes → Result (Unit {0}) × List Bytes
keep t s = (ok tt, t ∷ s)

abbrev quiet : Heartbeat (List Bytes)
quiet = record {
  now = 100;
  send_timer = none;
  aborted_sends = 0;
  receive_timer = none;
  closed = false;
  rest = [];
}

-- Two seconds without a message.
abbrev later : ℕ → Heartbeat (List Bytes)
later n = record {
  now = n;
  send_timer = some 105;
  aborted_sends = 0;
  receive_timer = some 130;
  closed = false;
  rest = [];
}

two_seconds : Timeout.Steps json keep (start quiet).1 (later 102)
unfolding start
two_seconds =
    Timeout.next
      (Timeout.next (Timeout.done (later 100))
        (Timeout.second (later 100) (omega arith) (omega arith)))
      (Timeout.second (later 101) (omega arith) (omega arith))

two_seconds-SendsReturn : Timeout.SendsReturn json keep two_seconds
unfolding two_seconds Timeout.SendsReturn Timeout.SendReturns
two_seconds-SendsReturn = ((tt, tt), tt)

Steps-start_example :
    ((later 102).closed ≡ false)
    × ((later 102).aborted_sends ≡ 0)
    × ((t : ℕ) → (later 102).receive_timer ≡ some t → 102 < t)
    × ((t : ℕ) → (later 102).send_timer ≡ some t → t ≤ 102 + 5)
Steps-start_example =
    Steps-start json keep quiet (later 102) refl refl refl two_seconds two_seconds-SendsReturn

start-pings_example :
    (100 + 5 * pings json keep two_seconds ≤ 102)
    × (102 ≤ 100 + 5 * suc (pings json keep two_seconds))
start-pings_example =
    start-pings json keep quiet (later 102) refl refl refl two_seconds two_seconds-SendsReturn

-- A channel with one request, of the id 7, whose callback is 40.
abbrev one_request : ChannelRequest ℕ Value
one_request = record { armed = true; message = two_members; callback = some 40 }

abbrev one_pending : Requests ℕ Value (List Bytes)
one_pending = record { request_id = 7; requests = (7, one_request) ∷ []; rest = [] }

one_pending-IsValid : IsValid one_pending
unfolding find
one_pending-IsValid = record { sorted = (tt, tt, tt); fresh = λ id above. ground arith }

request-IsValid_example :
    let r' = (request json keep two_members (some 41) one_pending).1 in
    IsValid r'
    × (pending 8 one_pending ≡ none)
    × ((entry : ChannelRequest ℕ Value) × (pending 8 r' ≡ some entry)
        × (entry.callback ≡ some 41)
        × (entry.armed ≡ true))
    × ((id : ℕ) → id ≢ 8 → pending id r' ≡ pending id one_pending)
request-IsValid_example =
    request-IsValid json keep two_members (some 41) one_pending one_pending-IsValid (omega arith)

on_response-pending_example :
    IsValid (on_response 7 null one_pending).1
    × (pending 7 (on_response 7 null one_pending).1 ≡ none)
    × ((j : ℕ) → j ≢ 7 → pending j (on_response 7 null one_pending).1 ≡ pending j one_pending)
    × ((entry : ChannelRequest ℕ Value)
        → pending 7 one_pending ≡ some entry
        → (on_response 7 null one_pending).0
          ≡ record { handled = true; call = called null entry.callback })
    × (pending 7 one_pending ≡ none
        → on_response 7 null one_pending ≡ (record { handled = false; call = none }, one_pending))
on_response-pending_example = on_response-pending 7 null one_pending one_pending-IsValid

-- The state after the response, and a further request.
abbrev after_next : Requests ℕ Value (List Bytes)
after_next = (request json keep null none (on_response 7 null one_pending).1).1

on_response-once_example :
    on_response 7 two_members after_next ≡ (record { handled = false; call = none }, after_next)
unfolding find on_response
on_response-once_example =
    on_response-once json keep 7 one_request null two_members one_pending after_next
      one_pending-IsValid refl
      (next (done (on_response 7 null one_pending).1)
        (requests null none (on_response 7 null one_pending).1 (omega arith)))

on_retry-calls_twice_example :
    let r' = (on_retry json keep no_error 7 one_request one_pending).1 in
    ((on_response 7 null r').0.call ≡ some (40, null))
    × ((on_response 8 two_members (on_response 7 null r').1).0.call ≡ some (40, two_members))
unfolding find
on_retry-calls_twice_example =
    on_retry-calls_twice json keep 7 one_request 40 null two_members one_pending one_pending-IsValid
      refl refl (omega arith)

response_of-ne-none_example : response_of json (codes "PONG") ≢ ok none
response_of-ne-none_example = response_of-ne-none json (codes "PONG")
