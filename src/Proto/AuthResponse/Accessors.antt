-- ===== src/Proto/AuthResponse/Accessors.antt =====
-- google_cast_message.h: the inline accessors of AuthResponse, field by field.
pub mod Laws
use libchromecast.Prelude.{
  ℕ, zero, suc, List, [], ◌∷◌, ◌++◌, Bytes, Option, none, some, length, get_elem?, take, c_str,
}
use mathlib.Core.Option
use libchromecast.Proto.Accessors.{StringAccessors, string_accessors, EnumAccessors, enum_accessors}
use libchromecast.Proto.AuthEnums.{SignatureAlgorithm, rsassa_pkcs1v15}
use libchromecast.Proto.AuthResponse.{AuthResponse}

-- has_signature … set_allocated_signature
unfoldable pub signature_accessors : StringAccessors AuthResponse
unfolding string_accessors
signature_accessors = string_accessors (λ m. m.signature) λ f m. record m { signature = f }

-- has_client_auth_certificate … set_allocated_client_auth_certificate
unfoldable pub client_auth_certificate_accessors : StringAccessors AuthResponse
unfolding string_accessors
client_auth_certificate_accessors =
    string_accessors (λ m. m.client_auth_certificate)
      λ f m. record m { client_auth_certificate = f }

-- has_signature_algorithm … set_signature_algorithm
unfoldable pub response_algorithm_accessors : EnumAccessors AuthResponse SignatureAlgorithm
unfolding enum_accessors
response_algorithm_accessors =
    enum_accessors rsassa_pkcs1v15 (λ m. m.signature_algorithm)
      λ f m. record m { signature_algorithm = f }

-- RepeatedPtrField's Mutable(index), and what the caller writes there: `none` out of range, which
-- the runtime library leaves undefined.
unfoldable pub assign_at : ℕ → Bytes → List Bytes → Option (List Bytes)
assign_at i value [] = none
assign_at zero value (s ∷ rest) = some (value ∷ rest)
assign_at (suc i) value (s ∷ rest) = Option.map (λ ss. s ∷ ss) (assign_at i value rest)

-- f_size, clear_f, f(index), set_f three times, add_f three times, and mutable_f with what the
-- caller does to the list, of the repeated field f. What is out of range is `none`.
pub record RepeatedAccessors : Type 0 where
  pub size : AuthResponse → ℕ
  pub clear : AuthResponse → AuthResponse
  pub get : ℕ → AuthResponse → Option Bytes
  pub set : ℕ → Bytes → AuthResponse → Option AuthResponse
  pub set_char : ℕ → Bytes → AuthResponse → Option AuthResponse
  pub set_pointer : ℕ → Bytes → ℕ → AuthResponse → Option AuthResponse
  pub add : Bytes → AuthResponse → AuthResponse
  pub add_char : Bytes → AuthResponse → AuthResponse
  pub add_pointer : Bytes → ℕ → AuthResponse → AuthResponse
  pub mutable_list : (List Bytes → List Bytes) → AuthResponse → AuthResponse

abbrev pub put_certificates : AuthResponse → List Bytes → AuthResponse
put_certificates m ss = record m { intermediate_certificate = ss }

abbrev pub set_certificate : ℕ → Bytes → AuthResponse → Option AuthResponse
set_certificate i value m =
    Option.map (put_certificates m) (assign_at i value m.intermediate_certificate)

abbrev pub add_certificate : Bytes → AuthResponse → AuthResponse
add_certificate value m = put_certificates m (m.intermediate_certificate ++ value ∷ [])

-- intermediate_certificate_size … mutable_intermediate_certificate
unfoldable pub certificates_accessors : RepeatedAccessors
certificates_accessors = record {
  size = λ m. length m.intermediate_certificate;
  clear = λ m. put_certificates m [];
  get = λ i m. get_elem? m.intermediate_certificate i;
  set = set_certificate;
  set_char = λ i value m. set_certificate i (c_str value) m;
  set_pointer = λ i value size m. set_certificate i (take size value) m;
  add = add_certificate;
  add_char = λ value m. add_certificate (c_str value) m;
  add_pointer = λ value size m. add_certificate (take size value) m;
  mutable_list = λ change m. put_certificates m (change m.intermediate_certificate);
}
