-- ===== src/Media/Status/Laws.antt =====
-- media_messages.cpp: what MediaStatus::FromMessage and MediaResponse::FromMessage return.
use libchromecast.Prelude.{
  ℕ, ◌≡◌, ◌≢◌, refl, sym, ap, ◌∙◌, ◌↔◌, Bool, true, false, not, List, [], ◌∷◌, codes, str_eq,
  str_eq_sound, some, length, get_elem?, arith,
}
use libchromecast.Utils.{ok, ok_of_bind, throw_on_error, throw_on_error-eq-ok}
use libchromecast.Json.{const_index, const_element}
use libchromecast.Json.Read.{text_member, read_array, read_array-eq-ok, IsReadAt}
use libchromecast.Media.{MediaStatus, Libraries}
use libchromecast.Media.Status.{
  read_status, front_status, new_status, status_from_message, status_site,
}

not-false : (b : Bool) → not b ≡ false → b ≡ true
not-false b h = ground arith

ok_inj : {A : Type 0} {a b : A} → ok a ≡ ok b → a ≡ b
ok_inj h = ground (arith, h)

module _ {V D : Type 0} (libraries : Libraries V D) where
  open libraries use {json}

  -- A status that is read is valid.
  read_status-valid :
      (value : V) (status : MediaStatus D)
      → read_status libraries value ≡ ok status
      → status.valid ≡ true
  unfolding read_status
  read_status-valid value status h = ground arith

  front_valid :
      (statuses : List (MediaStatus D)) (value : V)
      → ((i : ℕ) (item : MediaStatus D)
          → get_elem? statuses i ≡ some item
          → IsReadAt json (read_status libraries) i value item)
      → ((front_status libraries statuses).valid ≡ true) ↔ (statuses ≢ [])
  unfolding front_status new_status
  front_valid [] value each = (λ e. absurd (cc), λ ne. absurd (ne refl))
  front_valid (status ∷ statuses) value each =
      let (element, _, read) = each 0 status refl in
      (λ e e'. cc, λ ne. read_status-valid element status read)

  pub status_from_message-eq-ok :
      (message : V) (status : MediaStatus D)
      → status_from_message libraries message ≡ ok status
      → (text_member json (codes "type") message ≡ ok (codes "MEDIA_STATUS"))
        × (value : V) × (const_index json (codes "status") message ≡ ok value)
        × (statuses : List (MediaStatus D)) × (json.size value ≡ some (length statuses))
        × ((i : ℕ) (item : MediaStatus D)
            → get_elem? statuses i ≡ some item
            → (element : V) × (const_element json i value ≡ ok element)
              × (read_status libraries element ≡ ok item))
        × (status ≡ front_status libraries statuses)
        × ((status.valid ≡ true) ↔ (statuses ≢ []))
  unfolding status_from_message read_array
  status_from_message-eq-ok message status h =
      let (type, e_type, h_1) = ok_of_bind (text_member json (codes "type") message) _ h in
      let (_, checked, h_2) =
        ok_of_bind
          (throw_on_error (not (str_eq type (codes "MEDIA_STATUS"))) (status_site 208)
            (codes "invalid message type, expected a receiver status message"))
          _ h_1 in
      let (value, e_value, h_3) = ok_of_bind (const_index json (codes "status") message) _ h_2 in
      let (statuses, e_statuses, h_4) =
        ok_of_bind (read_array json (read_status libraries) value) _ h_3 in
      let (size, each) = read_array-eq-ok json (read_status libraries) value statuses e_statuses in
      let media_status : str_eq type (codes "MEDIA_STATUS") ≡ true =
        not-false _ (throw_on_error-eq-ok _ _ _ checked) in
      let same : status ≡ front_status libraries statuses = ok_inj (sym h_4) in
      (
        e_type ∙ ap ok (str_eq_sound type (codes "MEDIA_STATUS") media_status),
        value,
        e_value,
        statuses,
        size,
        each,
        same,
        rw same (front_valid statuses value each),
      )
