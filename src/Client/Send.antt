-- ===== src/Client/Send.antt =====
-- handleSend of client.go: the frames that it writes to a connection.
use gcp.Base.{Bytes, List, [], ◌∷◌}
use gcp.Base.Result.{ok, err}
use gcp.Message.Types.{Msg, Codec}
use gcp.Message.Header.{write_message}
use gcp.Client.Auth.{Conn}

module _ (conn : Conn) (c : Codec) where
  -- With the messages that it is handed until the context ends, those that it has not taken when it
  -- returns. The message of a write that fails is lost.
  unfoldable pub handle_send : List (Msg × Bytes) → conn.State → List (Msg × Bytes) × conn.State
  handle_send [] s = ([], s)
  handle_send ((m, payload) ∷ ms) s =
      let (r, s') = conn.write s (write_message c m payload) in
      elim r [ ok done ↦ handle_send ms s' | err e ↦ (ms, s') ]
