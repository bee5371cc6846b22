-- ===== src/Connection/Registry.antt =====
-- connection.h, connection.cpp: `_channel_address_to_channel`, RegisterChannel and
-- UnregisterChannel; channel.cpp: the constructor and the destructor of ChromecastChannel, which
-- call them.
pub mod Laws
use libchromecast.Prelude.{
  ℕ, Bool, true, false, List, [], ◌++◌, Bytes, codes, Option, none, some, if◌then◌else◌,
}
use libchromecast.Utils.{Result, ok, Site, throw_on_error, ◌>>=◌, ◌>>◌}
use libchromecast.OrderedMap.{find, insert, erase}
use libchromecast.Cast.Address.{Address, less, swap_ends, address_to_string}

-- A ChromecastChannel as the connection knows it: where it stands, and its `_address`.
pub record Channel : Type 0 where
  pub pointer : ℕ
  pub address : Address

-- `none` is a null pointer.
abbrev pub ChannelMap : Type 0
ChannelMap = List (Address × Option ℕ)

abbrev is_some : Option (Option ℕ) → Bool
is_some none = false
is_some (some _) = true

abbrev register_site : Site
register_site = record {
  file = codes "connection.cpp";
  function = codes "chromecast::ChromecastConnection::RegisterChannel";
  line = 216;
}

abbrev unregister_site : Site
unregister_site = record {
  file = codes "connection.cpp";
  function = codes "chromecast::ChromecastConnection::UnregisterChannel";
  line = 225;
}

-- ChromecastConnection::RegisterChannel
unfoldable pub register_channel : Channel → ChannelMap → Result ChannelMap
register_channel channel m = do
  let address = swap_ends channel.address
  throw_on_error (is_some (find less address m)) register_site
      (codes "address: " ++ (address_to_string address ++ codes " already registered"))
  ok (insert less address (some channel.pointer) m)

-- ChromecastConnection::UnregisterChannel
unfoldable pub unregister_channel : Channel → ChannelMap → Result ChannelMap
unregister_channel channel m = do
  let address = swap_ends channel.address
  throw_on_error (if is_some (find less address m) then false else true) unregister_site
      (codes "address " ++ (address_to_string address ++ codes " not registered"))
  ok (erase less address m)
