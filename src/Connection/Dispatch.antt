-- ===== src/Connection/Dispatch.antt =====
-- connection.cpp: ChromecastConnection::OnMessage and OnUnrecognizedAddress, over whatever the
-- channels do with a message.
pub mod Broadcast
pub mod Unicast
use libchromecast.Prelude.{
  ℕ, zero, suc, Bool, true, false, not, ◌||◌, List, [], ◌∷◌, ◌++◌, Bytes, codes, str_eq, Option,
  none, some, if◌then◌else◌,
}
use libchromecast.Utils.{Error, assertion, Result, ok, thrown, Site, throw_on_error}
use libchromecast.Action.{Action}
use libchromecast.OrderedMap.{find}
use libchromecast.Cast.Address.{Address, less, wildcard}
use libchromecast.Cast.Message.{CastMessage, message_to_string}
use libchromecast.Connection.Registry.{ChannelMap}

-- What the connection calls, on a program state `S` that holds its map of channels: the virtual
-- OnMessage of the channel at a pointer, and its own virtual OnUnrecognizedAddress.
pub record Handlers (S : Type 0) : Type 0 where
  pub channels : S → ChannelMap
  pub on_message : ℕ → CastMessage → Action S (Unit {0})
  pub on_unrecognized_address : CastMessage → Action S (Unit {0})

abbrev unrecognized_site : Site
unrecognized_site = record {
  file = codes "connection.cpp";
  function = codes "chromecast::ChromecastConnection::OnUnrecognizedAddress";
  line = 175;
}

-- ChromecastConnection::OnUnrecognizedAddress, where no subclass replaces it.
unfoldable pub on_unrecognized_address : {S : Type 0} → CastMessage → Action S (Unit {0})
on_unrecognized_address message s = (
  throw_on_error true unrecognized_site
      (codes "received message without a clear destination:\n" ++ message_to_string message),
  s,
)

-- `++it` on the map as it is after the call: the first entry behind `k`.
unfoldable pub advance : Address → ChannelMap → Option (Address × Option ℕ)
advance k [] = none
advance k ((j, p) ∷ m) = if less k j then some (j, p) else advance k m

abbrev pub begin : ChannelMap → Option (Address × Option ℕ)
begin [] = none
begin (e ∷ m) = some e

-- The test by which the loop skips an entry.
abbrev pub skips : Address → CastMessage → Bool
skips k message =
    not (str_eq k.namespace message.address.namespace)
    || not (str_eq k.source message.address.source)

module _ {S : Type 0} (h : Handlers S) where
  -- What follows a call of a channel in the loop: an exception leaves it.
  abbrev pub after_call :
      (S → Option (Result (Unit {0}) × S)) → Result (Unit {0}) × S → Option (Result (Unit {0}) × S)
  after_call rest (ok _, s) = rest s
  after_call rest (thrown e, s) = some (thrown e, s)

  -- The loop over the map, at an iterator; `none` as a result means that the fuel ran out. A null
  -- pointer is dereferenced with no test.
  unfoldable pub broadcast :
      ℕ → Option (Address × Option ℕ) → CastMessage → S → Option (Result (Unit {0}) × S)
  broadcast fuel none message s = some (ok tt, s)
  broadcast zero (some (k, p)) message s = none
  broadcast (suc fuel) (some (k, p)) message s = elim (skips k message) [
    | true ↦ broadcast fuel (advance k (h.channels s)) message s
    | false ↦ elim p [
      | none ↦ some (thrown assertion, s)
      | some c ↦
          after_call (λ s'. broadcast fuel (advance k (h.channels s')) message s')
            (h.on_message c message s)
    ]
  ]

  -- The branch for one destination.
  unfoldable pub deliver : Option (Option ℕ) → CastMessage → Action S (Unit {0})
  deliver (some (some c)) message s = h.on_message c message s
  deliver _ message s = h.on_unrecognized_address message s

  -- ChromecastConnection::OnMessage
  unfoldable pub on_message : ℕ → CastMessage → S → Option (Result (Unit {0}) × S)
  unfolding deliver
  on_message fuel message s =
      if not (str_eq message.address.destination wildcard)
      then some (deliver (find less message.address (h.channels s)) message s)
      else broadcast fuel (begin (h.channels s)) message s
