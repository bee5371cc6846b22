-- ===== src/Media/Channel/Responses.antt =====
-- media_channel.cpp: what OnResponse does with a status, and with a response to a request.
use libchromecast.Prelude.{
  ℕ, ◌≡◌, refl, ◌∙◌, true, List, [], ◌∷◌, Bytes, codes, str_eq, Option, none, some, if◌then◌else◌,
}
use libchromecast.Utils.{Error, Result, ok, thrown}
use libchromecast.Json.Library.{IsRapidjson}
use libchromecast.Json.{const_index, const_element, message_text, uint32_value}
use libchromecast.Json.Read.{text_member}
use libchromecast.Requests.{on_response as complete_request}
use libchromecast.Media.{MediaStatus, MediaResponse, Libraries}
use libchromecast.Media.Style.Laws.{IsLexicalCast}
use libchromecast.Media.Status.{status_from_message, succeeded}
use libchromecast.Media.Status.Laws.{status_from_message-eq-ok}
use libchromecast.Media.Channel.{
  MediaChannel, Handler, load_handler, session_handler, status_handler, next_status, on_response,
}
use libchromecast.Media.Channel.Reading.{next_status-typed, status_from_message-styled}
use libchromecast.Media.Channel.Laws.{Command, run, run-Sends}

-- The callback that a handler has captured
abbrev pub callback_of : {K : Type 0} → Handler K → Option K
callback_of (load_handler callback) = callback
callback_of (session_handler callback) = callback
callback_of (status_handler callback) = callback

-- The calls of a response, and the last status after it
abbrev pub answers : {K D : Type 0} → Option K → MediaResponse D → List (K × MediaResponse D)
answers none response = []
answers (some callback) response = (callback, response) ∷ []

abbrev pub status_after :
    {K D : Type 0} → Handler K → MediaResponse D → MediaStatus D → MediaStatus D
status_after (load_handler callback) response last =
    if succeeded response then response.status else last
status_after handler response last = last

module _ {K V D S : Type 0} (libraries : Libraries V D) (law : IsRapidjson libraries.json) where
  open libraries use {json}

  -- OnResponse of a status that can be read, with the id 0: it is handled, nothing is called, and
  -- the status is the last one; each command then goes to its session, whatever Send is.
  pub run-on_response :
      (message : V) (r : MediaChannel K V D S) (status : MediaStatus D)
      (send : Bytes → S → Result (Unit {0}) × S) (command : Command) (callback : Option K)
      → status_from_message libraries message ≡ ok status
      → (on_response libraries 0 message r ≡ (ok (true, []), record r { last_status = status }))
        × (let r' = (on_response libraries 0 message r).1 in
            let (result, r'') = run libraries send command callback r' in
            (sent : V) × ((result, r''.requests.rest)
              ≡ send (message_text json sent) r.requests.rest)
            × (const_index json (codes "mediaSessionId") sent
                ≡ ok (uint32_value json status.session_id))
            × (r''.last_status ≡ status))
  unfolding on_response str_eq
  run-on_response message r status send command callback read =
      let typed = (status_from_message-eq-ok libraries message status read).0 in
      let next : next_status libraries message r.last_status ≡ ok status =
        next_status-typed libraries law message r.last_status typed ∙ read in
      let after : on_response libraries 0 message r
          ≡ (ok (true, []), record r { last_status = status }) =
        rw next refl in
      let (sent, written, members, _, same) =
        run-Sends libraries send law command callback (record r { last_status = status }) in
      (after, rw after (sent, written, members (codes "mediaSessionId") _ refl, same))

  -- Where a status of the message has a media with a text track style, OnResponse throws and leaves
  -- the channel as it is, so that a request with the id stays pending and its callback is not
  -- called.
  pub on_response-styled :
      (id i : ℕ) (message statuses element media : V) (r : MediaChannel K V D S)
      → IsLexicalCast libraries.lexical_cast_byte
      → text_member json (codes "type") message ≡ ok (codes "MEDIA_STATUS")
      → const_index json (codes "status") message ≡ ok statuses
      → const_element json i statuses ≡ ok element
      → const_index json (codes "media") element ≡ ok media
      → json.has_member (codes "textTrackStyle") media ≡ true
      → (e : Error) × (on_response libraries id message r ≡ (thrown e, r))
  unfolding on_response
  on_response-styled id i message statuses element media r cast typed e_statuses e_element e_media
        styled =
      let (e, throws) =
        status_from_message-styled libraries law cast i message statuses element media e_statuses
          e_element e_media styled in
      (e, rw (next_status-typed libraries law message r.last_status typed ∙ throws) refl)
