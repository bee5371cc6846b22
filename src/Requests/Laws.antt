-- ===== src/Requests/Laws.antt =====
-- receiver_channel.cpp: no id is used twice, and a response reaches its request once.
use libchromecast.Prelude.{
  ℕ, ◌+◌, ◌%◌, ◌^◌, ◌≤◌, ◌<◌, ◌≡◌, ◌≢◌, refl, ◌∙◌, true, false, Bytes, Option, none, some, ltb,
  ltb→lt, lt→ltb, arith, Option-cases, inl, inr, Bool-cases, ◌==◌, ==_iff,
}
use libchromecast.Utils.{runtime_error, exception, assertion, throw_on_error, Result, ok, thrown}
use libchromecast.OrderedMap.{
  find, insert, StrictOrder, IsSorted, find-insert_self, find-insert_ne, insert-IsSorted,
  erase-IsSorted, find-erase_self, find-erase_ne,
}
use libchromecast.Json.Library.{Rapidjson}
use libchromecast.Json.{get_uint64, get_string, parse}
use libchromecast.Requests.{
  ChannelRequest, Requests, request, completed, called, on_response, read_header, checked,
  after_header, response_of,
}

-- Every number can be an id.
abbrev pub IsId : ℕ → Type 0
IsId n = Unit {0}

pub ltb-StrictOrder : StrictOrder IsId ltb
ltb-StrictOrder = record {
  irreflexive = λ a ga h. omega (arith, ltb→lt a a h);
  transitive = λ a b c ga gb gc h k. lt→ltb a c (omega (arith, ltb→lt a b h, ltb→lt b c k));
  connected = λ a b ga gb h k. ground arith;
}

abbrev pub pending : {C V S : Type 0} → ℕ → Requests C V S → Option (ChannelRequest C V)
pending id r = find ltb id r.requests

-- The map is in order, and no id above the last one is in it.
pub record IsValid {C V S : Type 0} (r : Requests C V S) : Type 0 where
  pub sorted : IsSorted IsId ltb r.requests
  pub fresh : (id : ℕ) → r.request_id < id → pending id r ≡ none

module _ {C V S : Type 0} where
  pub insert-IsValid :
      (id last : ℕ) (entry : ChannelRequest C V) (rest : S) (r : Requests C V S)
      → IsValid r
      → r.request_id ≤ last
      → id ≤ last
      → IsValid
          (record { request_id = last; requests = insert ltb id entry r.requests; rest = rest })
  insert-IsValid id last entry rest r valid later small = record {
    sorted = insert-IsSorted ltb-StrictOrder id entry r.requests tt valid.sorted;
    fresh = λ j above.
        find-insert_ne ltb-StrictOrder id j entry r.requests tt tt valid.sorted (omega arith)
        ∙ valid.fresh j (omega arith);
  }

module _ {C V S : Type 0} (json : Rapidjson V) (send : Bytes → S → Result (Unit {0}) × S) where
  -- In a valid state whose ids have not run out, a request takes the next id, which no pending
  -- request had, whether or not Send throws: it is pending under that id with its callback, its
  -- timer waited for, every other id is as it was, and the state stays valid.
  pub request-IsValid :
      (message : V) (callback : Option C) (r : Requests C V S)
      → IsValid r
      → r.request_id + 1 < 2 ^ 64
      → let r' = (request json send message callback r).1 in
        IsValid r'
        × (pending (r.request_id + 1) r ≡ none)
        × ((entry : ChannelRequest C V) × (pending (r.request_id + 1) r' ≡ some entry)
            × (entry.callback ≡ callback)
            × (entry.armed ≡ true))
        × ((id : ℕ) → id ≢ r.request_id + 1 → pending id r' ≡ pending id r)
  unfolding request
  request-IsValid message callback r valid small =
      let same : (r.request_id + 1) % 2 ^ 64 ≡ r.request_id + 1 = omega (arith, small) in
      rw same (
        insert-IsValid _ _ _ _ r valid (omega arith) (omega arith),
        valid.fresh (r.request_id + 1) (omega arith),
        (_, find-insert_self ltb-StrictOrder _ _ r.requests tt valid.sorted, refl, refl),
        λ id ne. find-insert_ne ltb-StrictOrder _ id _ r.requests tt tt valid.sorted ne,
      )

module _ {C V S : Type 0} where
  -- In a valid state, a response to a pending request is handled: its callback, if it has one, is
  -- called with the message. The request is no longer pending then, every other one is as it was,
  -- and the state stays valid. A response to an id that is not pending is not handled and changes
  -- nothing.
  pub on_response-pending :
      (id : ℕ) (message : V) (r : Requests C V S)
      → IsValid r
      → IsValid (on_response id message r).1
        × (pending id (on_response id message r).1 ≡ none)
        × ((j : ℕ) → j ≢ id → pending j (on_response id message r).1 ≡ pending j r)
        × ((entry : ChannelRequest C V)
            → pending id r ≡ some entry
            → (on_response id message r).0
              ≡ record { handled = true; call = called message entry.callback })
        × (pending id r ≡ none
            → on_response id message r ≡ (record { handled = false; call = none }, r))
  unfolding on_response completed
  on_response-pending id message r valid = elim (Option-cases (pending id r)) [
    | inl missing ↦
        rw (on_response, missing)
          (valid, missing, λ j ne. refl, λ entry there. absurd (cc), λ _. refl)
    | inr (entry, there) ↦
        rw (on_response, there)
          (
            record {
              sorted = erase-IsSorted ltb-StrictOrder id r.requests valid.sorted;
              fresh = λ j above. elim (Bool-cases (j == id)) [
                | inl same ↦
                    rw ((==_iff j id).0 same)
                      (find-erase_self ltb-StrictOrder id r.requests tt valid.sorted)
                | inr other ↦
                    find-erase_ne ltb-StrictOrder id j r.requests tt tt valid.sorted (ground arith)
                    ∙ valid.fresh j above
              ];
            },
            find-erase_self ltb-StrictOrder id r.requests tt valid.sorted,
            λ j ne. find-erase_ne ltb-StrictOrder id j r.requests tt tt valid.sorted ne,
            λ entry' there'. ground arith,
            λ missing. absurd (cc),
          )
  ]

module _ {V : Type 0} (json : Rapidjson V) where
  no_catch :
      (header : Result (ℕ × Bytes × V))
      → ((text : Bytes) → header ≢ thrown (runtime_error text))
      → after_header json header ≢ ok none
  unfolding after_header checked get_string throw_on_error
  no_catch (ok (id, type, message)) h e = ground arith
  no_catch (thrown (runtime_error text)) h e = absurd (h text refl)
  no_catch (thrown (exception text)) h e = absurd (cc)
  no_catch (thrown assertion) h e = absurd (cc)

  read_header-ne-runtime_error :
      (message : V) (text : Bytes) → read_header json message ≢ thrown (runtime_error text)
  unfolding read_header get_uint64 get_string
  read_header-ne-runtime_error message text e = ground arith

  -- OnMessage never takes the branch that catches a runtime_error: the members that it reads are
  -- made if they are missing, and a getter that finds another type asserts.
  pub response_of-ne-none : (message : Bytes) → response_of json message ≢ ok none
  unfolding response_of
  response_of-ne-none message =
      no_catch (read_header json (parse json message))
        (read_header-ne-runtime_error (parse json message))
