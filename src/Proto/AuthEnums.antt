-- ===== src/Proto/AuthEnums.antt =====
-- google_cast_message.h, google_cast_message.cpp: enum SignatureAlgorithm and
-- AuthError_ErrorType, the enums of the
-- authentication messages, with the defaults of their fields.
use libchromecast.Prelude.{ℕ, ◌<◌, ◌^◌, ◌≡◌, refl, arith, Bool, true, ◌||◌, ◌==◌, if◌then◌else◌}
use libchromecast.Proto.EnumMessage.{EnumCode}
use libchromecast.Proto.EnumMessage.Laws.{IsEnumCode}

-- enum SignatureAlgorithm
pub data SignatureAlgorithm : Type 0 where
  unspecified rsassa_pkcs1v15 rsassa_pss : SignatureAlgorithm

abbrev pub signature_algorithm_number : SignatureAlgorithm → ℕ
signature_algorithm_number unspecified = 0
signature_algorithm_number rsassa_pkcs1v15 = 1
signature_algorithm_number rsassa_pss = 2

-- SignatureAlgorithm_IsValid
abbrev pub signature_algorithm_is_valid : ℕ → Bool
signature_algorithm_is_valid value = value == 0 || value == 1 || value == 2

-- `static_cast` to the enum, of a number that is valid
abbrev pub to_signature_algorithm : ℕ → SignatureAlgorithm
to_signature_algorithm value =
    if value == 0 then unspecified else if value == 1 then rsassa_pkcs1v15 else rsassa_pss

-- The field signature_algorithm, with its default in the messages.
abbrev pub signature_algorithm_code : EnumCode SignatureAlgorithm
signature_algorithm_code = record {
  default = rsassa_pkcs1v15;
  number = signature_algorithm_number;
  is_valid = signature_algorithm_is_valid;
  cast = to_signature_algorithm;
}

-- enum AuthError_ErrorType
pub data ErrorType : Type 0 where
  internal_error no_tls signature_algorithm_unavailable : ErrorType

abbrev pub error_type_number : ErrorType → ℕ
error_type_number internal_error = 0
error_type_number no_tls = 1
error_type_number signature_algorithm_unavailable = 2

-- AuthError_ErrorType_IsValid
abbrev pub error_type_is_valid : ℕ → Bool
error_type_is_valid value = value == 0 || value == 1 || value == 2

abbrev pub to_error_type : ℕ → ErrorType
to_error_type value =
    if value == 0
    then internal_error
    else if value == 1
    then no_tls
    else signature_algorithm_unavailable

-- The field error_type, with its default.
abbrev pub error_type_code : EnumCode ErrorType
error_type_code = record {
  default = internal_error;
  number = error_type_number;
  is_valid = error_type_is_valid;
  cast = to_error_type;
}

-- `code` is right at the enumerator `v`.
abbrev CodesAt : {E : Type 0} → EnumCode E → E → Type 0
CodesAt code v =
    (code.number v < 2 ^ 31)
    × (code.is_valid (code.number v) ≡ true)
    × (code.cast (code.number v) ≡ v)

to_IsEnumCode : {E : Type 0} (code : EnumCode E) → ((v : E) → CodesAt code v) → IsEnumCode code
to_IsEnumCode code codes_at = record {
  number-small = λ v. (codes_at v).0;
  is_valid-number = λ v. (codes_at v).1;
  cast-number = λ v. (codes_at v).2;
}

pub signature_algorithm_code-IsEnumCode : IsEnumCode signature_algorithm_code
signature_algorithm_code-IsEnumCode = to_IsEnumCode signature_algorithm_code at_each
  where
    at_each : (v : SignatureAlgorithm) → CodesAt signature_algorithm_code v
    at_each unspecified = (omega arith, refl, refl)
    at_each rsassa_pkcs1v15 = (omega arith, refl, refl)
    at_each rsassa_pss = (omega arith, refl, refl)

pub error_type_code-IsEnumCode : IsEnumCode error_type_code
error_type_code-IsEnumCode = to_IsEnumCode error_type_code at_each
  where
    at_each : (v : ErrorType) → CodesAt error_type_code v
    at_each internal_error = (omega arith, refl, refl)
    at_each no_tls = (omega arith, refl, refl)
    at_each signature_algorithm_unavailable = (omega arith, refl, refl)
