-- ===== src/Client/Auth/Login.antt =====
-- The authentication of client.go against the server of serve.go, frames included.
use gcp.Base.{
  ℕ, pos, suc, ◌<◌, ◌≡◌, refl, sym, ◌∙◌, false, Bytes, Str, List, [], ◌∷◌, ◌++◌, some, is_empty,
  length, drop, arith, append-nil,
}
use gcp.Base.Result.{Res, ok, err}
use gcp.Message.Types.{Msg, AuthReq, auth_req, auth_res, Codec}
use gcp.Message.Header.{write_message, encode_msg, magic_a}
use gcp.Message.Reader.{buffer, on_traffic, IsBuffered, buffer_peek, none_action}
use gcp.Message.Reader.Traffic.{IsSendable, on_traffic_frames}
use gcp.Message.Header
use gcp.Client.Response.{read_resp, read_resp-write_message}
use gcp.Client.Auth.{
  Signer, Conn, first_request, second_request, reconnect_request, exchange, token_auth,
}
use gcp.Server.Users.{
  Ssh, Accounts, verify_ssh_signature, find_user_by_pub_key, derive_encryption_key,
}
use gcp.Server.Auth.{SessionInfo, AuthServer, handle_auth, challenged, granted, authenticated}
use gcp.Server.Auth.Handshake.{handshake, after_key, after_signature, token_request}
use gcp.Server.Files.{Host}
use gcp.Server.Dispatch.{Server, Reaction, answered, silent, crashed, process}

module _ (ssh : Ssh) (accounts : Accounts) (h : Host) (codec : Codec) where
  -- The server at the other end of a connection: the bytes that it has not yet taken, those that it
  -- has sent, and what rand gives it for the messages to come.
  pub record Peer : Type 0 where
    pub server : Server ssh accounts h
    pub unread : Bytes
    pub sent : Bytes
    pub rands : List (Res Bytes × Str)

  abbrev reply : Reaction → Bytes → Bytes
  reply (answered m p closes) sent = sent ++ write_message codec m p
  reply silent sent = sent
  reply crashed sent = sent

  abbrev next_rand : List (Res Bytes × Str) → (Res Bytes × Str) × List (Res Bytes × Str)
  next_rand [] = ((err [], []), [])
  next_rand (r ∷ rs) = (r, rs)

  unfoldable pub handle_one : ℕ → Msg → Bytes → Peer → Peer
  handle_one conn m p s =
      let ((challenge, token), rands) = next_rand s.rands in
      let (r, server) = process ssh accounts h challenge token s.server conn m p in
      record s { server = server; sent = reply r s.sent; rands = rands }

  unfoldable pub handle_all : ℕ → List (Msg × Bytes) → Peer → Peer
  unfolding handle_one
  handle_all conn [] s = s
  handle_all conn ((m, p) ∷ ms) s = handle_all conn ms (handle_one conn m p s)

  -- The server's network loop, when bytes have arrived on a connection.
  unfoldable pub arrive : ℕ → Bytes → Peer → Peer
  unfolding handle_all
  arrive conn bytes s =
      let (ms, o, left) =
        on_traffic buffer codec (suc (length (s.unread ++ bytes))) (s.unread ++ bytes) in
      handle_all conn ms (record s { unread = left })

  -- A client's connection to the server.
  abbrev pub link : ℕ → Conn
  link conn = record {
    State = Peer;
    write = λ s bytes. (ok tt, arrive conn bytes s);
    incoming = λ s. s.sent;
    leave = λ s rest. record s { sent = rest };
  }

  buffer_view : IsBuffered buffer
  unfolding buffer_peek
  buffer_view = record {
    view = λ v. v;
    peek_short = λ v n h. ground arith;
    peek_full = λ v n h. ground arith;
    view-discard = λ v n. refl;
  }

  long_enough : (m : Msg) (p : Bytes) → 1 < suc (length (write_message codec m p))
  unfolding write_message encode_msg
  long_enough m p = omega arith

  -- A frame that arrives whole is one message.
  one_frame :
      (fuel : ℕ) (m : Msg) (p : Bytes)
      → IsSendable codec (m, p)
      → 1 < fuel
      → on_traffic buffer codec fuel (write_message codec m p) ≡ ((m, p) ∷ [], none_action, [])
  unfolding write_message encode_msg buffer_view
  one_frame fuel m p good enough =
      let w : Bytes = write_message codec m p in
      let (ms, o, left) =
        on_traffic_frames buffer buffer_view codec ((m, p) ∷ []) fuel w m p [] (drop 1 w) magic_a
          (good, tt) good (sym (append-nil (w ++ []) ∙ append-nil w)) refl enough in
      λ i. (ms i, o i, left i)

  -- A request that reaches an idle server is handled, and answered in a frame.
  arrive_one :
      (conn : ℕ) (req : AuthReq) (server : Server ssh accounts h) (sent : Bytes)
      (challenge : Res Bytes) (token : Str) (rands : List (Res Bytes × Str))
      → IsSendable codec (auth_req req, [])
      → let (auth', a) = handle_auth ssh accounts challenge token server.auth conn req in
        arrive conn
          (write_message codec (auth_req req) [])
          (record { server = server; unread = []; sent = sent; rands = (challenge, token) ∷ rands })
        ≡ record {
          server = record server { auth = auth' };
          unread = [];
          sent = sent ++ write_message codec (auth_res a.res) [];
          rands = rands;
        }
  unfolding arrive process
  arrive_one conn req server sent challenge token rands good =
      rw
        (one_frame (suc (length (write_message codec (auth_req req) []))) (auth_req req) [] good
          (long_enough (auth_req req) []))
        refl

  recv_one :
      (m : Msg)
      → IsSendable codec (m, [])
      → read_resp codec (write_message codec m []) ≡ Header.ok (m, [])
  recv_one m (good, fits, fits_payload) =
      rw (← append-nil (write_message codec m []))
        (read_resp-write_message codec m [] [] good fits fits_payload)

  abbrev pub idle : Server ssh accounts h → List (Res Bytes × Str) → Peer
  idle server rands = record { server = server; unread = []; sent = []; rands = rands }

  exchange_steps :
      (conn : ℕ) (signer : Signer ssh) (hint : Str) (server : Server ssh accounts h)
      (challenge signature : Bytes) (token user : Str) (rands : List (Res Bytes × Str))
      (auth1 auth2 : AuthServer)
      → IsSendable codec (auth_req (first_request (ssh.marshal signer.public_key) hint), [])
      → IsSendable codec (auth_res (challenged (pos 1) challenge).res, [])
      → IsSendable codec
          (auth_req (second_request (ssh.marshal signer.public_key) hint signature), [])
      → IsSendable codec (auth_res (granted (pos 2) token user).res, [])
      → signer.sign challenge ≡ ok signature
      → handle_auth ssh accounts
          (ok challenge)
          []
          server.auth
          conn
          (first_request (ssh.marshal signer.public_key) hint)
        ≡ (auth1, challenged (pos 1) challenge)
      → handle_auth ssh accounts
          (ok [])
          token
          auth1
          conn
          (second_request (ssh.marshal signer.public_key) hint signature)
        ≡ (auth2, granted (pos 2) token user)
      → exchange
          (link conn)
          codec
          ssh
          signer
          hint
          (idle server ((ok challenge, []) ∷ (ok [], token) ∷ rands))
        ≡ (
          ok (record {
            auth_token = token;
            auth_user = user;
            encryption_key = some (derive_encryption_key ssh signer.public_key);
          }),
          idle (record server { auth = auth2 }) rands,
        )
  unfolding exchange
  exchange_steps conn signer hint server challenge signature token user rands auth1 auth2 g1 g2 g3
        g4 s e1 e2 =
      rw
        (
          arrive_one conn (first_request (ssh.marshal signer.public_key) hint) server []
              (ok challenge) [] ((ok [], token) ∷ rands) g1,
          e1,
          recv_one (auth_res (challenged (pos 1) challenge).res) g2,
          s,
          arrive_one conn (second_request (ssh.marshal signer.public_key) hint signature)
              (record server { auth = auth1 }) [] (ok []) token rands g3,
          e2,
          recv_one (auth_res (granted (pos 2) token user).res) g4,
        )
        refl

  token_steps :
      (conn : ℕ) (server : Server ssh accounts h) (token user : Str)
      (rands : List (Res Bytes × Str)) (auth' : AuthServer)
      → IsSendable codec (auth_req (reconnect_request token), [])
      → IsSendable codec (auth_res (granted (pos 0) [] user).res, [])
      → handle_auth ssh accounts (ok []) [] server.auth conn (reconnect_request token)
        ≡ (auth', granted (pos 0) [] user)
      → token_auth (link conn) codec token (idle server ((ok [], []) ∷ rands))
        ≡ (ok tt, idle (record server { auth = auth' }) rands)
  unfolding token_auth
  token_steps conn server token user rands auth' g1 g2 e =
      rw
        (
          arrive_one conn (reconnect_request token) server [] (ok []) [] rands g1,
          e,
          recv_one (auth_res (granted (pos 0) [] user).res) g2,
        )
        refl

  -- A client whose key an account accepts, and whose signer signs well, gets a token from the
  -- server over frames that CBOR reads back: dialAndAuth returns it with the account's user and
  -- the encryption key that the server has for the connection, and with it tokenAuth succeeds on
  -- another connection, which the server then has as the same user with the same key; its files
  -- are not touched.
  pub token_auth-exchange :
      (conn other : ℕ) (signer : Signer ssh) (hint : Str) (server : Server ssh accounts h)
      (challenge signature : Bytes) (token user home : Str)
      → IsSendable codec (auth_req (first_request (ssh.marshal signer.public_key) hint), [])
      → IsSendable codec (auth_res (challenged (pos 1) challenge).res, [])
      → IsSendable codec
          (auth_req (second_request (ssh.marshal signer.public_key) hint signature), [])
      → IsSendable codec (auth_res (granted (pos 2) token user).res, [])
      → IsSendable codec (auth_req (reconnect_request token), [])
      → IsSendable codec (auth_res (granted (pos 0) [] user).res, [])
      → is_empty (ssh.marshal signer.public_key) ≡ false
      → is_empty signature ≡ false
      → is_empty token ≡ false
      → signer.sign challenge ≡ ok signature
      → verify_ssh_signature ssh (ssh.marshal signer.public_key) challenge signature
        ≡ ok signer.public_key
      → find_user_by_pub_key ssh accounts signer.public_key hint ≡ ok (user, home)
      → let key = derive_encryption_key ssh signer.public_key in
        let info : SessionInfo = record { user = user; home = home; encryption_key = some key } in
        let start = idle server ((ok challenge, []) ∷ (ok [], token) ∷ (ok [], []) ∷ []) in
        let (r, peer) = exchange (link conn) codec ssh signer hint start in
        let (r', peer') = token_auth (link other) codec token peer in
        (r ≡ ok (record { auth_token = token; auth_user = user; encryption_key = some key }))
        × (peer.server.auth.conns conn ≡ some (authenticated info))
        × (r' ≡ ok tt)
        × (peer'.server.auth.conns other ≡ some (authenticated info))
        × (peer'.server.disk ≡ server.disk)
  token_auth-exchange conn other signer hint server challenge signature token user home g1 g2 g3 g4
        g5 g6 kp sp tp s v f =
      let pub_key = ssh.marshal signer.public_key in
      let (first, second, at_conn, third, at_other) =
        handshake ssh accounts server.auth conn other challenge pub_key signature token hint user
          home signer.public_key kp sp tp v f in
      let auth1 = (after_key ssh accounts challenge server.auth conn pub_key hint).0 in
      let auth2 =
        (after_signature ssh accounts challenge token server.auth conn pub_key hint signature).0 in
      let auth3 = (handle_auth ssh accounts (ok []) [] auth2 other (token_request token)).0 in
      rw
        (
          exchange_steps conn signer hint server challenge signature token user ((ok [], []) ∷ [])
              auth1 auth2 g1 g2 g3 g4 s (λ i. (auth1, first i)) (λ i. (auth2, second i)),
          token_steps other (record server { auth = auth2 }) token user [] auth3 g5 g6
              (λ i. (auth3, third i)),
        )
        (refl, at_conn, refl, at_other, refl)
