-- ===== src/Connection/Tls/Laws.antt =====
-- connection.cpp, client.h: a connection attempt from the first call to the last.
use libchromecast.Prelude.{Bool, true, false, List, [], ◌∷◌, ◌++◌, Option, some, if◌then◌else◌}
use libchromecast.Utils.{ErrorCode, failed}
use libchromecast.Connection.Tls.{
  Call, call_back, TlsConnection, connect, on_connect_completed, on_handshake, ClientCall,
  on_connected,
}

-- What an attempt has come to: calls of the connection and, through its callback, of the client.
pub record Attempt (K : Type 0) : Type 0 where
  pub tls : List (Call (Option K))
  pub client : List (ClientCall K)

module _ {K : Type 0} where
  -- The client's calls among those of the connection: its function is called back.
  unfoldable pub of_client : List (Call (Option K)) → List (ClientCall K)
  of_client [] = []
  of_client (call_back callback error ∷ calls) = on_connected callback error ++ of_client calls
  of_client (_ ∷ calls) = of_client calls

  attempt : List (Call (Option K)) → Attempt K
  unfolding of_client
  attempt calls = record { tls = calls; client = of_client calls }

  after_connect : Bool → ErrorCode → ErrorCode → TlsConnection (Option K) → List (Call (Option K))
  after_connect false error handshake_error t = []
  after_connect true error handshake_error t =
      on_connect_completed error t ++ (if failed error then [] else on_handshake handshake_error t)

  -- AsyncConnect of the client to a valid or an invalid address, then the completions of the
  -- connect and the handshake that are started, with these errors
  unfoldable pub async_connect_client :
      Bool → Option K → ErrorCode → ErrorCode → TlsConnection (Option K) → Attempt K
  unfolding attempt after_connect
  async_connect_client valid callback error handshake_error t =
      let (started, calls, t') = connect valid (some callback) t in
      attempt (calls ++ after_connect started error handshake_error t')
