-- ===== src/Tests/MediaChannels.antt =====
-- A media channel and a media player, and the examples of what is proved of them.
use libchromecast.Prelude.{
  ℕ, ◌≡◌, refl, true, List, [], ◌∷◌, ◌++◌, Bytes, codes, to_string, none, some, str_eq, str_compare,
  c_str,
}
use libchromecast.Utils.{Error, runtime_error, Result, ok, thrown, throw_on_error}
use libchromecast.Action.{Action}
use libchromecast.OrderedMap.{find}
use libchromecast.Cast.Address.{swap_ends, less}
use libchromecast.Connection.Registry.{Channel, ChannelMap}
use libchromecast.Connection.Registry.Laws.{lookup, IsRegistry}
use libchromecast.Json.{const_index, const_element, message_text, uint32_value, get_string}
use libchromecast.Requests.{ChannelRequest}
use libchromecast.Application.{connection_channel}
use libchromecast.Media.{MediaResponse}
use libchromecast.Media.Status.{new_status}
use libchromecast.Media.Channel.{MediaChannel, Handler, load_handler, on_response}
use libchromecast.Media.Channel.Laws.{do_seek, run, Sends, run-Sends}
use libchromecast.Media.Channel.Responses.{run-on_response, on_response-styled}
use libchromecast.Media.Player.{MediaPlayer, media_channel, on_stopped, initialize}
use libchromecast.Media.Player.Laws.{
  do_seek as player_seek, run as run_player, run-on_stopped, initialize-on_stopped,
}
use libchromecast.Tests.Values.{
  Value, json, null, text, object, array, member, no_members, element, no_elements,
}
use libchromecast.Tests.ValueLaws.{json-IsRapidjson}
use libchromecast.Tests.Libraries.{libraries, cast_byte-IsLexicalCast}
use libchromecast.Tests.MediaMessages.{status_message, session_status, session_status_lem}
use libchromecast.Tests.Statuses.{info}

abbrev keep : Bytes → List Bytes → Result (Unit {0}) × List Bytes
keep t s = (ok tt, t ∷ s)

-- A request of Load, of the id 7, whose callback is 40
abbrev loading : ChannelRequest (Handler ℕ) Value
loading = record { armed = true; message = null; callback = some (load_handler (some 40)) }

abbrev pub media : MediaChannel ℕ Value ℕ (List Bytes)
media = record {
  requests = record { request_id = 7; requests = (7, loading) ∷ []; rest = [] };
  last_status = new_status libraries;
}

run-Sends_example :
    Sends libraries keep (do_seek 90) media (run libraries keep (do_seek 90) none media)
run-Sends_example = run-Sends libraries keep json-IsRapidjson (do_seek 90) none media

run-on_response_example :
    (on_response libraries 0 status_message media
      ≡ (ok (true, []), record media { last_status = session_status }))
    × (let r' = (on_response libraries 0 status_message media).1 in
        let (result, r'') = run libraries keep (do_seek 90) (some 41) r' in
        (sent : Value) × ((result, r''.requests.rest) ≡ keep (message_text json sent) [])
        × (const_index json (codes "mediaSessionId") sent ≡ ok (uint32_value json 5))
        × (r''.last_status ≡ session_status))
run-on_response_example =
    run-on_response libraries json-IsRapidjson status_message media session_status keep (do_seek 90)
      (some 41) session_status_lem

-- A status whose media has a text track style
abbrev styled_media : Value
styled_media = object (member (codes "textTrackStyle") null no_members)

abbrev styled_status : Value
styled_status = object (member (codes "media") styled_media no_members)

abbrev styled_message : Value
styled_message = object (
    member (codes "type") (text (codes "MEDIA_STATUS"))
      (member (codes "status") (array (element styled_status no_elements)) no_members))

on_response-styled_example :
    (e : Error) × (on_response libraries 7 styled_message media ≡ (thrown e, media))
unfolding const_index const_element get_string throw_on_error str_eq c_str
on_response-styled_example =
    on_response-styled libraries json-IsRapidjson 7 0 styled_message
      (array (element styled_status no_elements)) styled_status styled_media media
      cast_byte-IsLexicalCast refl refl refl refl refl

abbrev session_response : MediaResponse ℕ
session_response = record { reason = []; status = session_status }

-- A player with both of its channels registered, the media channel first
abbrev own_media : Channel
own_media = media_channel 4 (codes "sender_" ++ to_string 12) []

abbrev own_connection : Channel
own_connection = connection_channel 3 (codes "sender_" ++ to_string 12) []

abbrev channels : ChannelMap
channels = (swap_ends own_media.address, some 4) ∷ (swap_ends own_connection.address, some 3) ∷ []

abbrev player : MediaPlayer ℕ Value ℕ (List Bytes)
player = record {
  sender_id = codes "sender_12";
  base = record {
    application = record {
      app_id = codes "CC1AD845";
      session_id = [];
      connection = some own_connection;
    };
    channels = channels;
    rest = [];
  };
  media_channel = some (own_media, media);
}

abbrev keep_for : Channel → Bytes → Action (List Bytes) (Unit {0})
keep_for channel = keep

run-on_stopped_example :
    run_player libraries keep_for (player_seek 90 none) (on_stopped player).1
    ≡ (thrown (runtime_error (codes "missing media channel")), (on_stopped player).1)
run-on_stopped_example = run-on_stopped libraries keep_for (player_seek 90 none) player

channels-IsRegistry : IsRegistry channels
unfolding swap_ends less str_compare str_eq media_channel connection_channel to_string
channels-IsRegistry = (λ e. cc, (refl, tt), (λ e. cc, tt, tt))

initialize-on_stopped_example :
    let (result, p') = on_stopped player in
    (result ≡ ok tt)
    × (lookup (swap_ends own_media.address) p'.base.channels ≡ none)
    × (lookup (swap_ends own_connection.address) p'.base.channels ≡ some (some 3))
    × (p'.base.application ≡ player.base.application)
    × (p'.base.rest ≡ [])
    × (e : Error) × ((initialize libraries keep_for 12 3 6 7 (info (codes "CC1AD845")) 42 p').0
        ≡ thrown e)
unfolding swap_ends find less str_compare str_eq media_channel connection_channel to_string
initialize-on_stopped_example =
    initialize-on_stopped libraries keep_for 12 3 6 7 4 (codes "sender_" ++ to_string 12) []
      (info (codes "CC1AD845")) 42 media player (some 3) (some 4) refl channels-IsRegistry (λ e. cc)
      refl (λ e. cc) refl
