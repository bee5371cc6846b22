-- ===== src/Requests/Retry.antt =====
-- receiver_channel.cpp: requests, retries and responses in any order.
use libchromecast.Prelude.{
  ℕ, ◌+◌, ◌%◌, ◌^◌, ◌≤◌, ◌<◌, ◌≡◌, sym, ap, ◌∙◌, true, false, Bytes, codes, Option, none, some,
  arith, Bool-cases, inl, inr, ◌==◌, ==_iff,
}
use libchromecast.Utils.{Result, ErrorCode}
use libchromecast.OrderedMap.{find-insert_self, find-insert_ne}
use libchromecast.Json.Library.{Rapidjson}
use libchromecast.Requests.{
  ChannelRequest, Requests, called, copy, request, disarm, on_retry, completed, on_response,
}
use libchromecast.Requests.Laws.{
  ltb-StrictOrder, pending, IsValid, insert-IsValid, request-IsValid, on_response-pending,
}

abbrev pub no_error : ErrorCode
no_error = record { value = 0; message = codes "" }

module _ {C V S : Type 0} (json : Rapidjson V) (send : Bytes → S → Result (Unit {0}) × S) where
  -- A request is made, the retry timer of one expires, a response comes, or the other channels make
  -- `n` requests, which advances the counter that all of them share and leaves this channel's
  -- requests alone. The ids do not run out.
  pub data Step : Requests C V S → Requests C V S → Type 0 where
    requests :
        (message : V) (callback : Option C) (r : Requests C V S)
        → r.request_id + 1 < 2 ^ 64
        → Step r (request json send message callback r).1
    retries :
        (id : ℕ) (entry : ChannelRequest C V) (r : Requests C V S)
        → pending id r ≡ some entry
        → entry.armed ≡ true
        → r.request_id + 1 < 2 ^ 64
        → Step r (on_retry json send no_error id entry r).1
    responds : (id : ℕ) (message : V) (r : Requests C V S) → Step r (on_response id message r).1
    other_channels :
        (n : ℕ) (rest : S) (r : Requests C V S)
        → r.request_id + n < 2 ^ 64
        → Step r (record r { request_id = r.request_id + n; rest = rest })

  pub data Steps : Requests C V S → Requests C V S → Type 0 where
    done : (r : Requests C V S) → Steps r r
    next : {r r' r'' : Requests C V S} → Steps r r' → Step r' r'' → Steps r r''

  pending_small :
      (id : ℕ) (entry : ChannelRequest C V) (r : Requests C V S)
      → IsValid r
      → pending id r ≡ some entry
      → id ≤ r.request_id
  pending_small id entry r valid there = ground (arith, valid.fresh id)

  -- A valid state without a request of an id that was given out.
  abbrev IsOver : ℕ → Requests C V S → Type 0
  IsOver id r = IsValid r × (id ≤ r.request_id) × (pending id r ≡ none)

  request-IsOver :
      (id : ℕ) (message : V) (callback : Option C) (r : Requests C V S)
      → IsOver id r
      → r.request_id + 1 < 2 ^ 64
      → IsOver id (request json send message callback r).1
  unfolding request
  request-IsOver id message callback r (valid, small, over) room =
      let (valid', _, _, others) = request-IsValid json send message callback r valid room in
      let same : (r.request_id + 1) % 2 ^ 64 ≡ r.request_id + 1 = omega (arith, room) in
      (valid', rw same (omega arith), others id (omega arith) ∙ over)

  disarm-IsOver :
      (id j : ℕ) (entry : ChannelRequest C V) (r : Requests C V S)
      → IsOver id r
      → pending j r ≡ some entry
      → IsOver id (disarm j entry r)
  unfolding disarm
  disarm-IsOver id j entry r (valid, small, over) there = (
    insert-IsValid j r.request_id _ r.rest r valid (omega arith)
        (pending_small j entry r valid there),
    small,
    find-insert_ne ltb-StrictOrder j id _ r.requests tt tt valid.sorted
          (λ e. let absent : pending j r ≡ none = ap (λ k. pending k r) (sym e) ∙ over in cc)
        ∙ over,
  )

  request_id-on_response :
      (j : ℕ) (message : V) (r : Requests C V S)
      → (on_response j message r).1.request_id ≡ r.request_id
  unfolding on_response completed
  request_id-on_response j message r = ground arith

  on_response-IsOver :
      (id j : ℕ) (message : V) (r : Requests C V S)
      → IsOver id r
      → IsOver id (on_response j message r).1
  on_response-IsOver id j message r (valid, small, over) =
      let (valid', gone, others, _, _) = on_response-pending j message r valid in
      (
        valid',
        rw (request_id-on_response j message r) small,
        elim (Bool-cases (id == j)) [
          | inl same ↦ rw ((==_iff id j).0 same) gone
          | inr other ↦ others id (ground arith) ∙ over
        ],
      )

  others-IsOver :
      (id n : ℕ) (rest : S) (r : Requests C V S)
      → IsOver id r
      → IsOver id (record r { request_id = r.request_id + n; rest = rest })
  others-IsOver id n rest r (valid, small, over) = (
    record { sorted = valid.sorted; fresh = λ j above. valid.fresh j (omega arith) },
    omega arith,
    over,
  )

  Step-IsOver : (id : ℕ) {r r' : Requests C V S} → IsOver id r → Step r r' → IsOver id r'
  unfolding on_retry disarm
  Step-IsOver id over (requests message callback r room) =
      request-IsOver id message callback r over room
  Step-IsOver id over (retries j entry r there armed room) =
      request-IsOver id (copy json entry.message) entry.callback (disarm j entry r)
        (disarm-IsOver id j entry r over there) room
  Step-IsOver id over (responds j message r) = on_response-IsOver id j message r over
  Step-IsOver id over (other_channels n rest r room) = others-IsOver id n rest r over

  Steps-IsOver : (id : ℕ) {r r' : Requests C V S} → IsOver id r → Steps r r' → IsOver id r'
  Steps-IsOver id over (done r) = over
  Steps-IsOver id over (next before last) = Step-IsOver id (Steps-IsOver id over before) last

  -- In a valid state, once a response to a pending request came, no other response to its id is
  -- handled, whatever requests, retries and responses come in between and whatever ids the other
  -- channels, which share the counter, take from it, as long as the ids do not run out.
  pub on_response-once :
      (id : ℕ) (entry : ChannelRequest C V) (first second : V) (r r' : Requests C V S)
      → IsValid r
      → pending id r ≡ some entry
      → Steps (on_response id first r).1 r'
      → on_response id second r' ≡ (record { handled = false; call = none }, r')
  on_response-once id entry first second r r' valid there history =
      let (valid', gone, _, _, _) = on_response-pending id first r valid in
      let (valid'', _, over) =
        Steps-IsOver id
          (
            valid',
            rw (request_id-on_response id first r) (pending_small id entry r valid there),
            gone,
          )
          history in
      (on_response-pending id second r' valid'').4 over

  on_response-call :
      (id : ℕ) (entry : ChannelRequest C V) (callback : C) (message : V) (r : Requests C V S)
      → IsValid r
      → pending id r ≡ some entry
      → entry.callback ≡ some callback
      → (on_response id message r).0.call ≡ some (callback, message)
  on_response-call id entry callback message r valid there calls =
      ap (λ x. x.call) ((on_response-pending id message r valid).3 entry there)
      ∙ ap (called message) calls

  disarm-IsValid :
      (id : ℕ) (entry : ChannelRequest C V) (r : Requests C V S)
      → IsValid r
      → pending id r ≡ some entry
      → IsValid (disarm id entry r)
        × (pending id (disarm id entry r) ≡ some (record entry { armed = false }))
  unfolding disarm
  disarm-IsValid id entry r valid there = (
    insert-IsValid id r.request_id _ r.rest r valid (omega arith)
        (pending_small id entry r valid there),
    find-insert_self ltb-StrictOrder id _ r.requests tt valid.sorted,
  )

  -- In a valid state whose ids have not run out, a retry of a pending request that has a callback
  -- leaves the old id pending beside the new one: a response to the old and then one to the new
  -- each call the callback.
  pub on_retry-calls_twice :
      (id : ℕ) (entry : ChannelRequest C V) (callback : C) (first second : V) (r : Requests C V S)
      → IsValid r
      → pending id r ≡ some entry
      → entry.callback ≡ some callback
      → r.request_id + 1 < 2 ^ 64
      → let r' = (on_retry json send no_error id entry r).1 in
        ((on_response id first r').0.call ≡ some (callback, first))
        × ((on_response (r.request_id + 1) second (on_response id first r').1).0.call
            ≡ some (callback, second))
  unfolding on_retry disarm
  on_retry-calls_twice id entry callback first second r valid there calls room =
      let old = disarm id entry r in
      let (old_valid, old_there) = disarm-IsValid id entry r valid there in
      let (valid', _, (entry', there', calls', _), others) =
        request-IsValid json send (copy json entry.message) entry.callback old old_valid room in
      let r' = (request json send (copy json entry.message) entry.callback old).1 in
      let small = pending_small id entry r valid there in
      let (valid'', _, others'', _, _) = on_response-pending id first r' valid' in
      (
        on_response-call id _ callback first r' valid' (others id (omega arith) ∙ old_there) calls,
        on_response-call (r.request_id + 1) entry' callback second _ valid''
            (others'' (r.request_id + 1) (omega arith) ∙ there') (calls' ∙ calls),
      )
