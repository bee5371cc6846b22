-- ===== src/Proto/DeviceAuthMessage/Parse/Merge.antt =====
-- google_cast_message.cpp: what the parser does to a message, field by field, is what
-- DeviceAuthMessage::MergeFrom does to it.
use libchromecast.Prelude.{◌^◌, ◌<◌, ◌≡◌, ap, ◌∙◌, [], ◌++◌, arith, length, append-nil}
use libchromecast.Proto.Runtime.{WireFormat}
use libchromecast.Proto.MessageField.{merge_field}
use libchromecast.Proto.AuthChallenge
use libchromecast.Proto.AuthChallenge.{AuthChallenge}
use libchromecast.Proto.AuthResponse
use libchromecast.Proto.AuthResponse.{AuthResponse}
use libchromecast.Proto.AuthResponse.Parse.Merge.{IsShort}
use libchromecast.Proto.AuthError
use libchromecast.Proto.AuthError.{AuthError}
use libchromecast.Proto.DeviceAuthMessage.{DeviceAuthMessage, has_any, merge_from}
use libchromecast.Proto.DeviceAuthMessage.Parse.{current_challenge, current_response, current_error}

-- The message and those in it hold no unknown fields, and are within the limit of the wire format.
pub record IsPlain (w : WireFormat) (m : DeviceAuthMessage) : Type 0 where
  pub unknown : m.unknown_fields ≡ []
  pub challenge_unknown : (current_challenge m).unknown_fields ≡ []
  pub response_unknown : (current_response m).unknown_fields ≡ []
  pub error_unknown : (current_error m).unknown_fields ≡ []
  pub response_strings : IsShort (current_response m)
  pub challenge_size :
      length (AuthChallenge.serialize_with_cached_sizes w (current_challenge m)) < 2 ^ 31
  pub response_size :
      length (AuthResponse.serialize_with_cached_sizes w (current_response m)) < 2 ^ 31
  pub error_size : length (AuthError.serialize_with_cached_sizes w (current_error m)) < 2 ^ 31

-- What MergeFrom does for each field.
module _ (from : DeviceAuthMessage) where
  abbrev pub update_1 : DeviceAuthMessage → DeviceAuthMessage
  update_1 m = record m {
    challenge =
        merge_field AuthChallenge.new_message AuthChallenge.merge_from from.challenge m.challenge;
  }

  abbrev pub update_2 : DeviceAuthMessage → DeviceAuthMessage
  update_2 m = record m {
    response =
        merge_field AuthResponse.new_message AuthResponse.merge_from from.response m.response;
  }

  abbrev pub update_3 : DeviceAuthMessage → DeviceAuthMessage
  update_3 m = record m {
    error = merge_field AuthError.new_message AuthError.merge_from from.error m.error;
  }

pub updates-merge_from :
    (from m : DeviceAuthMessage)
    → from.unknown_fields ≡ []
    → update_3 from (update_2 from (update_1 from m)) ≡ merge_from from m
unfolding merge_from merge_field has_any
updates-merge_from from m e =
    let same : m.unknown_fields ++ from.unknown_fields ≡ m.unknown_fields =
      ap (λ u. m.unknown_fields ++ u) e ∙ append-nil m.unknown_fields in
    ground (arith, same)
