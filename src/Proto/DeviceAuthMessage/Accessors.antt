-- ===== src/Proto/DeviceAuthMessage/Accessors.antt =====
-- google_cast_message.h: the inline accessors of DeviceAuthMessage, field by field.
use libchromecast.Prelude.{Bool, Option}
use libchromecast.Proto.MessageField
use libchromecast.Proto.MessageField.{MessageField}
use libchromecast.Proto.AuthChallenge
use libchromecast.Proto.AuthChallenge.{AuthChallenge}
use libchromecast.Proto.AuthResponse
use libchromecast.Proto.AuthResponse.{AuthResponse}
use libchromecast.Proto.AuthError
use libchromecast.Proto.AuthError.{AuthError}
use libchromecast.Proto.DeviceAuthMessage.{DeviceAuthMessage}

-- has_f, clear_f, f, mutable_f with what the caller does to the object, release_f and
-- set_allocated_f, of a field f whose value is a message.
pub record MessageAccessors (X : Type 0) : Type 0 where
  pub has : DeviceAuthMessage → Bool
  pub clear : DeviceAuthMessage → DeviceAuthMessage
  pub get : DeviceAuthMessage → X
  pub mutable : (X → X) → DeviceAuthMessage → DeviceAuthMessage
  pub release : DeviceAuthMessage → Option X × DeviceAuthMessage
  pub set_allocated : Option X → DeviceAuthMessage → DeviceAuthMessage

-- `field` reads the field, `put` replaces it, and `clear_message` is Clear of its class.
unfoldable pub message_accessors :
    {X : Type 0}
    → X
    → (X → X)
    → (DeviceAuthMessage → MessageField X)
    → (MessageField X → DeviceAuthMessage → DeviceAuthMessage)
    → MessageAccessors X
unfolding MessageField.clear MessageField.mutable MessageField.release MessageField.set_allocated
message_accessors fresh clear_message field put = record {
  has = λ m. (field m).has;
  clear = λ m. put (MessageField.clear clear_message (field m)) m;
  get = λ m. MessageField.get fresh (field m);
  mutable = λ change m. put (MessageField.mutable fresh change (field m)) m;
  release = λ m. ((MessageField.release (field m)).0, put (MessageField.release (field m)).1 m);
  set_allocated = λ p m. put (MessageField.set_allocated p (field m)) m;
}

-- has_challenge … set_allocated_challenge
unfoldable pub challenge_accessors : MessageAccessors AuthChallenge
unfolding message_accessors
challenge_accessors =
    message_accessors AuthChallenge.new_message AuthChallenge.clear (λ m. m.challenge)
      λ f m. record m { challenge = f }

-- has_response … set_allocated_response
unfoldable pub response_accessors : MessageAccessors AuthResponse
unfolding message_accessors
response_accessors =
    message_accessors AuthResponse.new_message AuthResponse.clear (λ m. m.response)
      λ f m. record m { response = f }

-- has_error … set_allocated_error
unfoldable pub error_accessors : MessageAccessors AuthError
unfolding message_accessors
error_accessors =
    message_accessors AuthError.new_message AuthError.clear (λ m. m.error)
      λ f m. record m { error = f }
