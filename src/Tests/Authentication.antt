-- ===== src/Tests/Authentication.antt =====
-- Authentication messages, and the examples of what is proved of them.
use libchromecast.Prelude.{◌≡◌, ◌≢◌, refl, arith, true, false, [], ◌∷◌, Bytes, codes, some}
use libchromecast.Proto.Parser.{success, out_of_fuel}
use libchromecast.Proto.StringField.{StringField, unset}
use libchromecast.Proto.EnumMessage.{EnumMessage}
use libchromecast.Proto.AuthEnums.{ErrorType, no_tls, internal_error, rsassa_pkcs1v15, rsassa_pss}
use libchromecast.Proto.AuthResponse.{AuthResponse, merge_from, serialize_with_cached_sizes}
use libchromecast.Proto.AuthResponse.Laws.{IsConsistent}
use libchromecast.Proto.AuthResponse.Parse.{merge_partial_from_coded_stream}
use libchromecast.Proto.AuthResponse.Parse.Fuel.{auth_response-ne-out_of_fuel}
use libchromecast.Proto.AuthResponse.Parse.RoundTrip.{auth_response-parse}
use libchromecast.Tests.Codec.{codec, codec-IsWireFormat}

abbrev pub error_message : EnumMessage ErrorType
error_message = record {
  field = record { has = true; value = no_tls };
  unknown_fields = [];
  cached_size = 0;
}

abbrev old_error : EnumMessage ErrorType
old_error = record {
  field = record { has = true; value = internal_error };
  unknown_fields = 64 ∷ 5 ∷ [];
  cached_size = 4;
}

abbrev set_field : Bytes → StringField
set_field s = record { has = true; pointer = some s }

-- A response with two certificates, and one without a field.
abbrev pub response_message : AuthResponse
response_message = record {
  signature = set_field (1 ∷ 2 ∷ []);
  client_auth_certificate = set_field (codes "cert");
  intermediate_certificate = codes "one" ∷ codes "two" ∷ [];
  signature_algorithm = record { has = true; value = rsassa_pss };
  unknown_fields = [];
  cached_size = 0;
}

abbrev old_response : AuthResponse
old_response = record {
  signature = unset;
  client_auth_certificate = unset;
  intermediate_certificate = codes "zero" ∷ [];
  signature_algorithm = record { has = false; value = rsassa_pkcs1v15 };
  unknown_fields = 64 ∷ 5 ∷ [];
  cached_size = 0;
}

auth_response-parse_example :
    merge_partial_from_coded_stream codec 30 old_response
      (serialize_with_cached_sizes codec response_message)
    ≡ success (merge_from response_message old_response) []
unfolding serialize_with_cached_sizes
auth_response-parse_example =
    auth_response-parse codec codec-IsWireFormat response_message old_response 30 refl
      (record {
        signature = omega arith;
        client_auth_certificate = omega arith;
        intermediate_certificate = (omega arith, (omega arith, tt));
      })
      (omega arith)

auth_response-ne-out_of_fuel_example :
    merge_partial_from_coded_stream codec 7 old_response (26 ∷ 1 ∷ 5 ∷ 26 ∷ 0 ∷ 12 ∷ [])
    ≢ out_of_fuel
auth_response-ne-out_of_fuel_example =
    auth_response-ne-out_of_fuel codec codec-IsWireFormat 7 old_response
      (26 ∷ 1 ∷ 5 ∷ 26 ∷ 0 ∷ 12 ∷ []) (omega arith)

response_message-IsConsistent : IsConsistent response_message
response_message-IsConsistent = record {
  signature = λ e. cc;
  client_auth_certificate = λ e. cc;
  signature_algorithm = λ e. cc;
}

old_response-IsConsistent : IsConsistent old_response
old_response-IsConsistent = record {
  signature = refl;
  client_auth_certificate = refl;
  signature_algorithm = λ e. refl;
}
