-- ===== src/Connection/Tls.antt =====
-- connection.h, connection.cpp: TLSConnection from AsyncConnect to the end of the handshake;
-- client.h: AsyncConnect of ChromecastClient, which starts its channels then. What a call starts
-- or calls is returned in order.
pub mod Laws
use libchromecast.Prelude.{
  Bool, true, false, not, List, [], ◌∷◌, ◌++◌, Option, none, some, if◌then◌else◌,
}
use libchromecast.Utils.{ErrorCode, failed}

-- The asynchronous operations that are started, OnConnectionReady, and `_connection_callback`
-- called with an error.
pub data Call (C : Type 0) : Type 0 where
  async_connect async_handshake on_connection_ready : Call C
  call_back : C → ErrorCode → Call C

-- `_connection_callback`; `none` is an empty function.
pub record TlsConnection (C : Type 0) : Type 0 where
  pub connection_callback : Option C

module _ {C : Type 0} where
  abbrev answer : Option C → ErrorCode → List (Call C)
  answer none error = []
  answer (some callback) error = call_back callback error ∷ []

  -- TLSConnection::AsyncConnect to an end point
  unfoldable pub connect_end_point : Option C → TlsConnection C → List (Call C) × TlsConnection C
  connect_end_point callback t = (async_connect ∷ [], record t { connection_callback = callback })

  -- TLSConnection::AsyncConnect to an address, where `valid` is whether from_string can read it
  unfoldable pub connect :
      Bool → Option C → TlsConnection C → Bool × List (Call C) × TlsConnection C
  unfolding connect_end_point
  connect valid callback t =
      if not valid
      then (false, [], t)
      else let (calls, t') = connect_end_point callback t in (true, calls, t')

  -- TLSConnection::OnConnectCompleted
  unfoldable pub on_connect_completed : ErrorCode → TlsConnection C → List (Call C)
  on_connect_completed error t =
      if failed error then answer t.connection_callback error else async_handshake ∷ []

  -- TLSConnection::OnHandshake
  unfoldable pub on_handshake : ErrorCode → TlsConnection C → List (Call C)
  on_handshake error t =
      (if failed error then [] else on_connection_ready ∷ []) ++ answer t.connection_callback error

-- What the client does: Connect of its connection channel, Start of its heartbeat, and the
-- callback of AsyncConnect.
pub data ClientCall (K : Type 0) : Type 0 where
  connect_channel start_heartbeat : ClientCall K
  connected : K → Bool → ClientCall K

abbrev client_answer : {K : Type 0} → Option K → Bool → List (ClientCall K)
client_answer none success = []
client_answer (some callback) success = connected callback success ∷ []

-- The function that ChromecastClient::AsyncConnect gives to the connection
unfoldable pub on_connected : {K : Type 0} → Option K → ErrorCode → List (ClientCall K)
on_connected callback error =
    (if failed error then [] else connect_channel ∷ start_heartbeat ∷ [])
    ++ client_answer callback (not (failed error))
