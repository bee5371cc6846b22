-- ===== src/Connection/Registry/Laws.antt =====
-- The map of channels as a partial function from addresses to channels: what RegisterChannel and
-- UnregisterChannel of connection.cpp do to it.
use libchromecast.Prelude.{
  ℕ, ◌≡◌, ◌≢◌, refl, ◌↔◌, inl, inr, Option, none, some, arith, Option-cases,
}
use libchromecast.Utils.{ok, thrown, Error, throw_on_error}
use libchromecast.OrderedMap.{
  find, insert, erase, IsSorted, find-insert_self, find-insert_ne, insert-IsSorted, erase-IsSorted,
  find-erase_self, find-erase_ne, erase-insert,
}
use libchromecast.Cast.Address.{Address, less, swap_ends}
use libchromecast.Cast.Address.Order.{IsPlain, less-StrictOrder}
use libchromecast.Connection.Registry.{Channel, ChannelMap, register_channel, unregister_channel}

-- The map is sorted by operator<, and no key's destination sorts before the wildcard.
abbrev pub IsRegistry : ChannelMap → Type 0
IsRegistry m = IsSorted IsPlain less m

abbrev pub lookup : Address → ChannelMap → Option (Option ℕ)
lookup = find less

-- `m'` is `m` but at `k`, where it holds `v`.
pub record Updates (m m' : ChannelMap) (k : Address) (v : Option (Option ℕ)) : Type 0 where
  pub valid : IsRegistry m'
  pub here : lookup k m' ≡ v
  pub elsewhere : (j : Address) → IsPlain j → j ≢ k → lookup j m' ≡ lookup j m

-- In a valid map, registering a channel whose swapped address is free, and does not sort before
-- the wildcard, returns a valid map that holds the channel there and is the same at every other
-- such address.
pub register_channel-Updates :
    (c : Channel) (m : ChannelMap)
    → IsPlain (swap_ends c.address)
    → IsRegistry m
    → lookup (swap_ends c.address) m ≡ none
    → (m' : ChannelMap) × (register_channel c m ≡ ok m')
      × Updates m m' (swap_ends c.address) (some (some c.pointer))
unfolding register_channel throw_on_error
register_channel-Updates c m plain valid free = (
  insert less (swap_ends c.address) (some c.pointer) m,
  rw free,
  record {
    valid = insert-IsSorted less-StrictOrder _ _ m plain valid;
    here = find-insert_self less-StrictOrder _ _ m plain valid;
    elsewhere = λ j pj ne. find-insert_ne less-StrictOrder _ j _ m plain pj valid ne;
  },
)

-- Registering throws exactly when the swapped address is taken.
pub register_channel-throws_iff :
    (c : Channel) (m : ChannelMap)
    → ((e : Error) × (register_channel c m ≡ thrown e)) ↔ (lookup (swap_ends c.address) m ≢ none)
unfolding register_channel throw_on_error
register_channel-throws_iff c m = elim (Option-cases (lookup (swap_ends c.address) m)) [
  | inl free ↦ rw free (λ (e, h). absurd (cc), λ ne. absurd (ne refl))
  | inr (p, taken) ↦ rw taken ((λ _ t. cc), λ _. (_, refl))
]

-- In a valid map, unregistering a channel whose swapped address is registered, and does not sort
-- before the wildcard, returns a valid map that holds nothing there and is the same at every other
-- such address.
pub unregister_channel-Updates :
    (c : Channel) (m : ChannelMap) (p : Option ℕ)
    → IsPlain (swap_ends c.address)
    → IsRegistry m
    → lookup (swap_ends c.address) m ≡ some p
    → (m' : ChannelMap) × (unregister_channel c m ≡ ok m') × Updates m m' (swap_ends c.address) none
unfolding unregister_channel throw_on_error
unregister_channel-Updates c m p plain valid found = (
  erase less (swap_ends c.address) m,
  rw found,
  record {
    valid = erase-IsSorted less-StrictOrder _ m valid;
    here = find-erase_self less-StrictOrder _ m plain valid;
    elsewhere = λ j pj ne. find-erase_ne less-StrictOrder _ j m plain pj valid ne;
  },
)

-- The destructor undoes the constructor: after a successful registration in a valid map, under a
-- swapped address that does not sort before the wildcard, the channel can be unregistered, which
-- gives the map before it.
pub unregister-register_channel :
    (c : Channel) (m m' : ChannelMap)
    → IsPlain (swap_ends c.address)
    → IsRegistry m
    → register_channel c m ≡ ok m'
    → unregister_channel c m' ≡ ok m
unfolding register_channel unregister_channel throw_on_error
unregister-register_channel c m m' plain valid done =
    elim (Option-cases (lookup (swap_ends c.address) m)) [
      | inl free ↦ ground (
        arith,
        find-insert_self less-StrictOrder (swap_ends c.address) (some c.pointer) m plain valid,
        erase-insert less-StrictOrder (swap_ends c.address) (some c.pointer) m plain valid free,
      )
      | inr (p, taken) ↦ ground arith
    ]
