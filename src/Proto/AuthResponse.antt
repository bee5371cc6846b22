-- ===== src/Proto/AuthResponse.antt =====
-- google_cast_message.h, google_cast_message.cpp: the generated class AuthResponse.
pub mod Accessors
pub mod Parse
pub mod Laws
use libchromecast.Prelude.{
  ℕ, ◌+◌, ◌*◌, ◌%◌, ◌^◌, Bool, true, false, ◌&&◌, ◌||◌, List, [], ◌∷◌, ◌++◌, Bytes, length,
  if◌then◌else◌,
}
use libchromecast.Proto.Runtime.{WireFormat}
use libchromecast.Proto.StringField
use libchromecast.Proto.StringField.{StringField}
use libchromecast.Proto.EnumField
use libchromecast.Proto.EnumField.{EnumField}
use libchromecast.Proto.Fields.{
  clear_string, drop_bit, merge_string, merge_enum, put_string, put_enum, string_total, enum_total,
}
use libchromecast.Proto.AuthEnums.{SignatureAlgorithm, rsassa_pkcs1v15, signature_algorithm_number}

-- The repeated field is the list of its strings; it has no bit.
pub record AuthResponse : Type 0 where
  pub signature : StringField
  pub client_auth_certificate : StringField
  pub intermediate_certificate : List Bytes
  pub signature_algorithm : EnumField SignatureAlgorithm
  pub unknown_fields : Bytes
  pub cached_size : ℕ

-- AuthResponse::AuthResponse(), by SharedCtor
unfoldable pub new_message : AuthResponse
new_message = record {
  signature = StringField.unset;
  client_auth_certificate = StringField.unset;
  intermediate_certificate = [];
  signature_algorithm = EnumField.unset rsassa_pkcs1v15;
  unknown_fields = [];
  cached_size = 0;
}

module _ (m : AuthResponse) where
  open m use {signature, client_auth_certificate, intermediate_certificate, signature_algorithm}

  -- `_has_bits_[0] & 11` and `_has_bits_[0] & 0xff`: no other bit is ever set.
  unfoldable pub has_any : Bool
  has_any = signature.has || client_auth_certificate.has || signature_algorithm.has

  -- AuthResponse::Clear
  unfoldable pub clear : AuthResponse
  unfolding has_any EnumField.clear clear_string drop_bit
  clear =
      let fields =
        if has_any
        then record m {
          signature = clear_string signature;
          client_auth_certificate = clear_string client_auth_certificate;
          signature_algorithm = EnumField.clear rsassa_pkcs1v15 signature_algorithm;
        }
        else record m {
          signature = drop_bit signature;
          client_auth_certificate = drop_bit client_auth_certificate;
          signature_algorithm = record signature_algorithm { has = false };
        } in
      record fields { intermediate_certificate = []; unknown_fields = [] }

  -- AuthResponse::IsInitialized: `(_has_bits_[0] & 3) == 3`
  unfoldable pub is_initialized : Bool
  is_initialized = signature.has && client_auth_certificate.has

-- AuthResponse::MergeFrom, of another object
unfoldable pub merge_from : AuthResponse → AuthResponse → AuthResponse
unfolding has_any merge_string merge_enum
merge_from from m =
    let with_certificates = record m {
      intermediate_certificate = m.intermediate_certificate ++ from.intermediate_certificate;
    } in
    let fields =
      if has_any from
      then record with_certificates {
        signature = merge_string from.signature m.signature;
        client_auth_certificate =
            merge_string from.client_auth_certificate m.client_auth_certificate;
        signature_algorithm = merge_enum from.signature_algorithm m.signature_algorithm;
      }
      else with_certificates in
    record fields { unknown_fields = fields.unknown_fields ++ from.unknown_fields }

-- AuthResponse::CopyFrom, of another object
unfoldable pub copy_from : AuthResponse → AuthResponse → AuthResponse
unfolding merge_from clear
copy_from from m = merge_from from (clear m)

-- AuthResponse::AuthResponse(const AuthResponse&)
unfoldable pub copy_constructor : AuthResponse → AuthResponse
unfolding merge_from new_message
copy_constructor from = merge_from from new_message

-- AuthResponse::Swap, of two objects: member by member, the bits with their fields
unfoldable pub swap : AuthResponse × AuthResponse → AuthResponse × AuthResponse
swap (m, other) = (
  record {
    signature = other.signature;
    client_auth_certificate = other.client_auth_certificate;
    intermediate_certificate = other.intermediate_certificate;
    signature_algorithm = other.signature_algorithm;
    unknown_fields = other.unknown_fields;
    cached_size = other.cached_size;
  },
  record {
    signature = m.signature;
    client_auth_certificate = m.client_auth_certificate;
    intermediate_certificate = m.intermediate_certificate;
    signature_algorithm = m.signature_algorithm;
    unknown_fields = m.unknown_fields;
    cached_size = m.cached_size;
  },
)

module _ (w : WireFormat) where
  -- `for (int i = 0; i < this->intermediate_certificate_size(); i++) WriteBytes(3, …)`
  unfoldable pub put_repeated : ℕ → List Bytes → Bytes
  put_repeated n [] = []
  put_repeated n (s ∷ rest) = w.write_string n s ++ put_repeated n rest

  -- AuthResponse::SerializeWithCachedSizes: the bytes that are added to the output
  unfoldable pub serialize_with_cached_sizes : AuthResponse → Bytes
  unfolding put_repeated
  serialize_with_cached_sizes m =
      put_string w 1 m.signature
      ++ (put_string w 2 m.client_auth_certificate
          ++ (put_repeated 3 m.intermediate_certificate
              ++ (put_enum w signature_algorithm_number 4 m.signature_algorithm
                  ++ m.unknown_fields)))

  -- the sum of BytesSize over the certificates
  unfoldable pub sizes : List Bytes → ℕ
  sizes [] = 0
  sizes (s ∷ rest) = w.string_size s + sizes rest

  -- AuthResponse::ByteSize: the sum, which is kept in `_cached_size_`. It is an `int`, here its bit
  -- pattern: what is added wraps around at 2^32.
  unfoldable pub byte_size : AuthResponse → ℕ × AuthResponse
  unfolding has_any sizes
  byte_size m =
      let fields =
        if has_any m
        then string_total w m.signature
          + string_total w m.client_auth_certificate
          + enum_total w signature_algorithm_number m.signature_algorithm
        else 0 in
      let repeated = 1 * length m.intermediate_certificate + sizes m.intermediate_certificate in
      let total_size = (fields + repeated + length m.unknown_fields) % 2 ^ 32 in
      (total_size, record m { cached_size = total_size })
