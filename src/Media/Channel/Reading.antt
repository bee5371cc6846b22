-- ===== src/Media/Channel/Reading.antt =====
-- media_channel.cpp: which statuses OnResponse can read.
use libchromecast.Prelude.{
  ℕ, zero, suc, ◌<◌, ◌≡◌, ◌≢◌, refl, subst, true, List, [], ◌∷◌, Bytes, codes, length, get_elem?,
  str_eq, some, arith,
}
use libchromecast.Utils.{Result, ok, thrown, Throws, ok_of_bind, throw_on_error}
use libchromecast.Json.Library.{IsRapidjson}
use libchromecast.Json.{const_index, const_element, message_const_index}
use libchromecast.Json.Laws.{has_member-const_index}
use libchromecast.Json.Read.{text_member}
use libchromecast.Media.{MediaStatus, Libraries}
use libchromecast.Media.Style.Laws.{IsLexicalCast}
use libchromecast.Media.Content.Laws.{from_message-styled}
use libchromecast.Media.Status.{status_from_message, read_status}
use libchromecast.Media.Status.Laws.{status_from_message-eq-ok}
use libchromecast.Media.Channel.{next_status}

module _ {V D : Type 0} (libraries : Libraries V D) where
  open libraries use {json}

  -- What operator[] of a const part returns is what that of a const message returns.
  message_const_index-const_index :
      (law : IsRapidjson json) (t : Bytes) (m v : V)
      → const_index json t m ≡ ok v
      → message_const_index json t m ≡ ok v
  unfolding const_index message_const_index throw_on_error
  message_const_index-const_index law t m v h =
      let there = has_member-const_index json law t m v h in ground arith

  -- OnResponse takes a message for a status where MediaStatus::FromMessage does.
  pub next_status-typed :
      (law : IsRapidjson json) (message : V) (last : MediaStatus D)
      → text_member json (codes "type") message ≡ ok (codes "MEDIA_STATUS")
      → next_status libraries message last ≡ status_from_message libraries message
  unfolding next_status str_eq
  next_status-typed law message last typed =
      let (value, there, text) = ok_of_bind (const_index json (codes "type") message) _ typed in
      rw (message_const_index-const_index law (codes "type") message value there, text) refl

  -- A status with a media with a text track style is never read.
  read_status-styled :
      (element media : V) (status : MediaStatus D)
      → IsLexicalCast libraries.lexical_cast_byte
      → const_index json (codes "media") element ≡ ok media
      → json.has_member (codes "textTrackStyle") media ≡ true
      → json.has_member (codes "media") element ≡ true
      → read_status libraries element ≢ ok status
  unfolding read_status
  read_status-styled element media status law here styled there h =
      let (e, throws) = from_message-styled libraries media law styled in ground arith

  -- An element that is there is within the size of the array.
  const_element-within :
      (i : ℕ) (value element : V) (size : ℕ)
      → json.size value ≡ some size
      → const_element json i value ≡ ok element
      → i < size
  unfolding const_element throw_on_error
  const_element-within i value element size e h = ground arith

  within-get_elem? :
      {A : Type 0} (items : List A) (i : ℕ)
      → i < length items
      → (a : A) × (get_elem? items i ≡ some a)
  within-get_elem? [] i h = absurd (omega arith)
  within-get_elem? (a ∷ items) zero h = (a, refl)
  within-get_elem? (a ∷ items) (suc i) h = within-get_elem? items i (omega arith)

  Throws-of_ne_ok : {A : Type 0} (r : Result A) → ((a : A) → r ≢ ok a) → Throws r
  Throws-of_ne_ok (ok a) h = absurd (h a refl)
  Throws-of_ne_ok (thrown e) h = (e, refl)

  -- So is none that has such a status anywhere.
  pub status_from_message-styled :
      (law : IsRapidjson json) (cast : IsLexicalCast libraries.lexical_cast_byte) (i : ℕ)
      (message statuses element media : V)
      → const_index json (codes "status") message ≡ ok statuses
      → const_element json i statuses ≡ ok element
      → const_index json (codes "media") element ≡ ok media
      → json.has_member (codes "textTrackStyle") media ≡ true
      → Throws (status_from_message libraries message)
  status_from_message-styled law cast i message statuses element media e_statuses e_element e_media
        styled =
      Throws-of_ne_ok (status_from_message libraries message) λ status h.
        let (_, value, e_value, items, size, each, _, _) =
          status_from_message-eq-ok libraries message status h in
        let same : value ≡ statuses = ground (arith, e_value, e_statuses) in
        let at_i : const_element json i value ≡ ok element = rw same e_element in
        let (item, there) =
          within-get_elem? items i
            (const_element-within i value element (length items) size at_i) in
        let (element', e_element', read) = each i item there in
        let same' : element' ≡ element = ground (arith, at_i, e_element') in
        read_status-styled element media item cast e_media styled
          (has_member-const_index json law (codes "media") element media e_media)
          (subst (λ x. read_status libraries x ≡ ok item) same' read)
