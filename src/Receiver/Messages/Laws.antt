-- ===== src/Receiver/Messages/Laws.antt =====
-- receiver_messages.cpp: what the loops over namespaces and applications read.
use libchromecast.Prelude.{
  ℕ, zero, suc, ◌+◌, ◌≡◌, ◌≢◌, refl, ap, Bool, List, [], ◌∷◌, Bytes, codes, Option, none, some,
  length, get_elem?, All, arith, ◌↔◌, ◌⊎◌, inl, inr,
}
use libchromecast.Utils.{ok, ◌>>=◌, ok_of_bind}
use libchromecast.Json.Library.{Rapidjson}
use libchromecast.Json.{const_index, const_element, get_string}
use libchromecast.Json.Read.{text_member, read_each-eq-ok}
use libchromecast.Receiver.Messages.{
  ApplicationInfo, BasicReceiverStatus, assign_basic, or_kept, read_namespaces, read_applications,
  application_from_message,
}

module _ {V : Type 0} (json : Rapidjson V) where
  -- The namespaces that are read are as many as the elements from the index on, and each is the
  -- name of its own element.
  pub read_namespaces-eq-ok :
      (count index : ℕ) (value : V) (names : List Bytes)
      → read_namespaces json count index value ≡ ok names
      → (length names ≡ count)
        × ((i : ℕ) (name : Bytes)
            → get_elem? names i ≡ some name
            → (element : V) × (const_element json (index + i) value ≡ ok element)
              × ((const_index json (codes "name") element >>= get_string json) ≡ ok name))
  unfolding read_namespaces
  read_namespaces-eq-ok = read_each-eq-ok json (text_member json (codes "name"))

  -- The applications that are read are as many as is asked for, and each is read from the same
  -- element, that of the index.
  pub read_applications-eq-ok :
      (count index : ℕ) (value : V) (apps : List ApplicationInfo)
      → read_applications json count index value ≡ ok apps
      → (length apps ≡ count)
        × All
            (λ app.
              (element : V) × (const_element json index value ≡ ok element)
              × (application_from_message json element ≡ ok app))
            apps
  unfolding read_applications
  read_applications-eq-ok zero index value apps h =
      let same : apps ≡ [] = ground (arith, h) in rw same (refl, tt)
  read_applications-eq-ok (suc count) index value apps h =
      let (element, e_element, h_1) = ok_of_bind (const_element json index value) _ h in
      let (app, e_app, h_2) = ok_of_bind (application_from_message json element) _ h_1 in
      let (rest, e_rest, h_3) = ok_of_bind (read_applications json count index value) _ h_2 in
      let (size, each) = read_applications-eq-ok count index value rest e_rest in
      let same : apps ≡ app ∷ rest = ground (arith, h_3) in
      rw same (ap suc size, ((element, e_element, e_app), each))

or_kept_iff : (o t : Option Bool) → (or_kept o t ≡ o) ↔ ((o ≢ none) ⊎ (t ≡ none))
or_kept_iff none t = (λ e. inr e, λ c. ground (arith, c))
or_kept_iff (some b) t = (λ e. inl (λ e'. cc), λ c. refl)

-- After the assignment a status is the other one exactly if that knows of an active input, or
-- this one did not.
pub assign_basic-cases :
    {D : Type 0} (other this : BasicReceiverStatus D)
    → ((assign_basic other this ≡ other)
        ↔ ((other.is_active_input ≢ none) ⊎ (this.is_active_input ≡ none)))
unfolding assign_basic
assign_basic-cases other this =
    let kept = or_kept_iff other.is_active_input this.is_active_input in
    (
      λ e. kept.0 (ap (λ s. s.is_active_input) e),
      λ c i. record {
        is_active_input = kept.1 c i;
        is_standby = other.is_standby;
        muted = other.muted;
        volume_level = other.volume_level;
      },
    )
