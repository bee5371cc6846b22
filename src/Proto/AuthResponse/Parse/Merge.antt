-- ===== src/Proto/AuthResponse/Parse/Merge.antt =====
-- google_cast_message.cpp: what the parser does to a message, field by field, is what
-- AuthResponse::MergeFrom does to it.
use libchromecast.Prelude.{
  ◌^◌, ◌<◌, ◌≡◌, sym, ap, ◌∙◌, List, [], ◌∷◌, ◌++◌, Bytes, arith, length, append_assoc, append-nil,
  All,
}
use libchromecast.Proto.StringField
use libchromecast.Proto.StringField.{StringField}
use libchromecast.Proto.Fields.{merge_string, merge_enum}
use libchromecast.Proto.AuthResponse.{AuthResponse, has_any, merge_from}
use libchromecast.Proto.AuthResponse.Parse.{store_intermediate_certificate}

-- The strings of the message are within the limit of the wire format.
pub record IsShort (m : AuthResponse) : Type 0 where
  pub signature : length (StringField.get m.signature) < 2 ^ 31
  pub client_auth_certificate : length (StringField.get m.client_auth_certificate) < 2 ^ 31
  pub intermediate_certificate : All (λ s. length s < 2 ^ 31) m.intermediate_certificate

-- What MergeFrom does for each field, and for it and those behind it.
module _ (from : AuthResponse) where
  abbrev pub update_4 : AuthResponse → AuthResponse
  update_4 m = record m {
    signature_algorithm = merge_enum from.signature_algorithm m.signature_algorithm;
  }

  abbrev pub update_2 : AuthResponse → AuthResponse
  update_2 m = record m {
    client_auth_certificate = merge_string from.client_auth_certificate m.client_auth_certificate;
  }

  abbrev pub update_1 : AuthResponse → AuthResponse
  update_1 m = record m { signature = merge_string from.signature m.signature }

  -- The parser adds one certificate after the other.
  abbrev pub updates_3 : List Bytes → AuthResponse → AuthResponse
  updates_3 [] m = update_4 m
  updates_3 (s ∷ rest) m = updates_3 rest (store_intermediate_certificate s m)

pub updates_3-certificates :
    (from : AuthResponse) (ss : List Bytes) (m : AuthResponse)
    → updates_3 from ss m
      ≡ update_4 from (record m { intermediate_certificate = m.intermediate_certificate ++ ss })
unfolding store_intermediate_certificate
updates_3-certificates from [] m =
    ap (λ ss. update_4 from (record m { intermediate_certificate = ss }))
      (sym (append-nil m.intermediate_certificate))
updates_3-certificates from (s ∷ rest) m =
    updates_3-certificates from rest (store_intermediate_certificate s m)
    ∙ ap (λ ss. update_4 from (record m { intermediate_certificate = ss }))
        (append_assoc m.intermediate_certificate (s ∷ []) rest)

pub updates-merge_from :
    (from m : AuthResponse)
    → from.unknown_fields ≡ []
    → update_4 from (record (update_2 from (update_1 from m)) {
      intermediate_certificate = m.intermediate_certificate ++ from.intermediate_certificate;
    })
      ≡ merge_from from m
unfolding merge_from merge_string merge_enum has_any
updates-merge_from from m e =
    let same : m.unknown_fields ++ from.unknown_fields ≡ m.unknown_fields =
      ap (λ u. m.unknown_fields ++ u) e ∙ append-nil m.unknown_fields in
    ground (arith, same)
