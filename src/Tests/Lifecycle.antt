-- ===== src/Tests/Lifecycle.antt =====
-- A connection attempt and an application's life, and the examples of what is proved of them.
use libchromecast.Prelude.{
  ℕ, ◌≡◌, refl, List, [], ◌∷◌, ◌++◌, Bytes, codes, to_string, Option, none, some, str_compare,
  str_eq,
}
use libchromecast.Utils.{ok, ErrorCode}
use libchromecast.Action.{Action}
use libchromecast.OrderedMap.{find}
use libchromecast.Cast.Address.{swap_ends, less}
use libchromecast.Connection.Registry.{Channel}
use libchromecast.Connection.Registry.Laws.{lookup}
use libchromecast.Connection.Tls.{TlsConnection}
use libchromecast.Application.{State, connection_channel, initialize, on_stopped}
use libchromecast.Application.Laws.{on_stopped-initialize}
use libchromecast.Tests.Values.{json}
use libchromecast.Tests.Channels.{one_channel, one_channel-IsRegistry}
use libchromecast.Tests.Statuses.{info}

abbrev no_error : ErrorCode
no_error = record { value = 0; message = [] }

abbrev no_callback : TlsConnection (Option ℕ)
no_callback = record { connection_callback = none }

-- Send that keeps the texts.
abbrev keep : Channel → Bytes → Action (List Bytes) (Unit {0})
keep c t s = (ok tt, t ∷ s)

abbrev idle : State (List Bytes)
idle = record {
  application = record { app_id = codes "X"; session_id = []; connection = none };
  channels = one_channel;
  rest = [];
}

abbrev channel : Channel
channel = connection_channel 3 (codes "sender_" ++ to_string 12) []

on_stopped-initialize_example :
    let (result, s') = initialize json keep 12 3 (info (codes "X")) idle in
    let (result', s'') = on_stopped json keep s' in
    (result ≡ ok tt)
    × (s'.application.connection ≡ some channel)
    × (lookup (swap_ends channel.address) s'.channels ≡ some (some 3))
    × (s'.application.session_id ≡ codes "s")
    × (result' ≡ ok tt)
    × (s''.application.connection ≡ none)
    × (s''.channels ≡ one_channel)
unfolding connection_channel swap_ends find less str_compare str_eq
on_stopped-initialize_example =
    on_stopped-initialize json keep 12 3 (info (codes "X")) idle refl (λ e. cc)
      one_channel-IsRegistry refl (λ c t x. refl)
