-- ===== src/Channel.antt =====
-- channel.h, channel.cpp: ChromecastChannel, over the virtual functions of a subclass and a
-- program state `S`.
pub mod Laws
pub mod Delivery
use libchromecast.Prelude.{Bool, true, false, not, ◌++◌, Bytes, codes, str_eq, if◌then◌else◌}
use libchromecast.Utils.{Error, Result, ok, thrown, Site, throw_on_error}
use libchromecast.Action.{Action, pure, lift, when, ◌>>=◌, ◌>>◌}
use libchromecast.Cast.Address.{Address, wildcard}
use libchromecast.Cast.Message
use libchromecast.Cast.Message.{CastMessage, PayloadType, message_to_string}
use libchromecast.Connection.Framing.{new_cast_message}

-- The virtual functions: OnSending, OnMessage of a text and of bytes, OnUnhandledMessage.
pub record Virtuals (S : Type 0) : Type 0 where
  pub on_sending : CastMessage → Action S (Unit {0})
  pub on_text : Bytes → Action S Bool
  pub on_binary : Bytes → Action S Bool
  pub on_unhandled_message : CastMessage → Action S (Unit {0})

abbrev unhandled_site : Site
unhandled_site = record {
  file = codes "channel.cpp";
  function = codes "chromecast::ChromecastChannel::OnUnhandledMessage";
  line = 42;
}

abbrev payload_site : Site
payload_site = record {
  file = codes "channel.cpp";
  function = codes "chromecast::ChromecastChannel::OnMessage";
  line = 22;
}

-- ChromecastChannel::OnUnhandledMessage
unfoldable pub on_unhandled_message : {S : Type 0} → CastMessage → Action S (Unit {0})
on_unhandled_message message = lift (
    if not (str_eq message.address.destination wildcard)
    then throw_on_error true unhandled_site
        (codes "unhandled message: " ++ message_to_string message)
    else ok tt)

-- The functions as ChromecastChannel has them, which a subclass replaces.
unfoldable pub base : {S : Type 0} → Virtuals S
unfolding on_unhandled_message
base = record {
  on_sending = λ message. pure tt;
  on_text = λ message. pure false;
  on_binary = λ message. pure false;
  on_unhandled_message = on_unhandled_message;
}

module _ {S : Type 0} (v : Virtuals S) where
  -- `handled`, by the type of the payload
  unfoldable pub handle : PayloadType → CastMessage → Action S Bool
  handle Message.binary message = v.on_binary message.payload_binary
  handle Message.string message = v.on_text message.payload_utf8
  handle (Message.other_payload n) message =
      lift (
        throw_on_error true payload_site
          (codes "unrecognized message payload type, message: " ++ message_to_string message))
      >>= λ _. pure false

  -- ChromecastChannel::OnMessage
  unfoldable pub on_message : CastMessage → Action S (Unit {0})
  unfolding handle
  on_message message = handle message.payload_type message >>= λ handled.
      when (not handled) (v.on_unhandled_message message)

  -- ChromecastChannel::Send of a message, over the connection's AsyncWrite
  unfoldable pub send :
      (CastMessage → Action S (Unit {0})) → Address → CastMessage → Action S (Unit {0})
  send async_write address message =
      let addressed = record message { address = address } in
      v.on_sending addressed >> async_write addressed

  -- ChromecastChannel::Send of a text
  unfoldable pub send_text :
      (CastMessage → Action S (Unit {0})) → Address → PayloadType → Bytes → Action S (Unit {0})
  unfolding send
  send_text async_write address garbage json_message =
      send async_write address (record (new_cast_message garbage) {
        payload_type = Message.string;
        payload_utf8 = json_message;
      })

  -- ChromecastChannel::Send of bytes
  unfoldable pub send_binary :
      (CastMessage → Action S (Unit {0})) → Address → PayloadType → Bytes → Action S (Unit {0})
  unfolding send
  send_binary async_write address garbage binary_message =
      send async_write address (record (new_cast_message garbage) {
        payload_type = Message.binary;
        payload_binary = binary_message;
      })
