-- ===== src/Server/Auth/Handshake.antt =====
-- handleAuth of serve.go: the requests of a client that authenticates, and its session.
use gcp.Base.{
  ℕ, ℤ, ◌≡◌, refl, inl, inr, false, Bytes, Str, List, [], ◌∷◌, Option, none, some, is_empty, arith,
  Option-cases, equal, equal_refl, All,
}
use gcp.Base.Result.{Res, ok, err, Res-cases}
use gcp.Base.Dict.{lookup, lookup-insert}
use gcp.Message.Types.{AuthReq}
use gcp.Server.Users.{
  Ssh, Accounts, verify_ssh_signature, find_user_by_pub_key, derive_encryption_key,
}
use gcp.Server.Auth.{
  SessionInfo, SessionStore, get_session, put_session, auth_pending, ConnAuth, AuthServer,
  get_conn_auth, set_conn_auth, Answer, authenticated, pending, token_auth, issue_challenge,
  check_signature, open_session, signature_auth, handle_auth, AuthEvent, run_auth, challenged,
  granted,
}

abbrev pub key_request : Bytes → Str → AuthReq
key_request pub_key user = record {
  id = ℤ.pos 1;
  user = user;
  pub_key = pub_key;
  signature = [];
  token = [];
}

abbrev pub signature_request : Bytes → Str → Bytes → AuthReq
signature_request pub_key user signature = record {
  id = ℤ.pos 2;
  user = user;
  pub_key = pub_key;
  signature = signature;
  token = [];
}

abbrev pub token_request : Str → AuthReq
token_request token = record {
  id = ℤ.pos 0;
  user = [];
  pub_key = [];
  signature = [];
  token = token;
}

module _ (ssh : Ssh) (accounts : Accounts) where
  -- The client's two requests on one connection, and its token on another.
  abbrev pub after_key : Bytes → AuthServer → ℕ → Bytes → Str → AuthServer × Answer
  after_key challenge s conn pub_key user =
      handle_auth ssh accounts (ok challenge) [] s conn (key_request pub_key user)

  abbrev pub after_signature :
      Bytes → Str → AuthServer → ℕ → Bytes → Str → Bytes → AuthServer × Answer
  after_signature challenge token s conn pub_key user signature =
      handle_auth ssh accounts (ok []) token (after_key challenge s conn pub_key user).0 conn
        (signature_request pub_key user signature)

  abbrev waiting : Bytes → Bytes → ConnAuth
  waiting challenge pub_key = record {
    state = auth_pending;
    challenge = some challenge;
    pub_key = pub_key;
    user = [];
    home = [];
    encryption_key = none;
  }

  conns-set_conn_auth :
      (s : AuthServer) (conn : ℕ) (ca : ConnAuth) → (set_conn_auth conn ca s).conns conn ≡ some ca
  unfolding set_conn_auth
  conns-set_conn_auth s conn ca = ground arith

  key_step :
      (s : AuthServer) (conn : ℕ) (challenge pub_key : Bytes) (hint : Str)
      → is_empty pub_key ≡ false
      → after_key challenge s conn pub_key hint
        ≡ (set_conn_auth conn (waiting challenge pub_key) s, challenged (ℤ.pos 1) challenge)
  unfolding handle_auth issue_challenge
  key_step s conn challenge pub_key hint kp = rw (kp, issue_challenge) refl

  signature_step :
      (s : AuthServer) (conn : ℕ) (challenge pub_key signature : Bytes) (token hint user home : Str)
      (key : ssh.PublicKey)
      → is_empty signature ≡ false
      → s.conns conn ≡ some (waiting challenge pub_key)
      → verify_ssh_signature ssh pub_key challenge signature ≡ ok key
      → find_user_by_pub_key ssh accounts key hint ≡ ok (user, home)
      → let info : SessionInfo = record {
        user = user;
        home = home;
        encryption_key = some (derive_encryption_key ssh key);
      } in
        handle_auth ssh accounts (ok []) token s conn (signature_request pub_key hint signature) ≡ (
          set_conn_auth conn
              (authenticated info)
              (record s { sessions = put_session token info s.sessions }),
          granted (ℤ.pos 2) token user,
        )
  unfolding handle_auth get_conn_auth pending signature_auth open_session check_signature
  signature_step s conn challenge pub_key signature token hint user home key sp e v f =
      rw (sp, e, pending, signature_auth, v, f, open_session) refl

  token_step :
      (s : AuthServer) (conn : ℕ) (token : Str) (info : SessionInfo)
      → is_empty token ≡ false
      → get_session token s.sessions ≡ some info
      → handle_auth ssh accounts (ok []) [] s conn (token_request token)
        ≡ (set_conn_auth conn (authenticated info) s, granted (ℤ.pos 0) [] info.user)
  unfolding handle_auth token_auth
  token_step s conn token info tp e = rw (tp, e, token_auth) refl

  get_session-put_session :
      (token : Str) (info : SessionInfo) (st : SessionStore)
      → get_session token (put_session token info st) ≡ some info
  unfolding get_session put_session
  get_session-put_session token info st =
      rw (lookup-insert token token info st, equal_refl token) refl

  -- A client that answers the challenge with a good signature of a key that its account accepts is
  -- granted the server's token, and that token authenticates any other connection as the same
  -- user, with the same home and encryption key.
  pub handshake :
      (s : AuthServer) (conn other : ℕ) (challenge pub_key signature : Bytes)
      (token hint user home : Str) (key : ssh.PublicKey)
      → is_empty pub_key ≡ false
      → is_empty signature ≡ false
      → is_empty token ≡ false
      → verify_ssh_signature ssh pub_key challenge signature ≡ ok key
      → find_user_by_pub_key ssh accounts key hint ≡ ok (user, home)
      → let info : SessionInfo = record {
        user = user;
        home = home;
        encryption_key = some (derive_encryption_key ssh key);
      } in
        let first = after_key challenge s conn pub_key hint in
        let second = after_signature challenge token s conn pub_key hint signature in
        let third = handle_auth ssh accounts (ok []) [] second.0 other (token_request token) in
        (first.1 ≡ challenged (ℤ.pos 1) challenge)
        × (second.1 ≡ granted (ℤ.pos 2) token user)
        × (second.0.conns conn ≡ some (authenticated info))
        × (third.1 ≡ granted (ℤ.pos 0) [] user)
        × (third.0.conns other ≡ some (authenticated info))
  unfolding set_conn_auth
  handshake s conn other challenge pub_key signature token hint user home key kp sp tp v f =
      let info : SessionInfo = record {
        user = user;
        home = home;
        encryption_key = some (derive_encryption_key ssh key);
      } in
      let s1 : AuthServer = set_conn_auth conn (waiting challenge pub_key) s in
      let s2 : AuthServer =
        set_conn_auth conn (authenticated info)
          (record s1 { sessions = put_session token info s1.sessions }) in
      rw
        (
          key_step s conn challenge pub_key hint kp,
          signature_step s1 conn challenge pub_key signature token hint user home key sp
              (conns-set_conn_auth s conn (waiting challenge pub_key)) v f,
          token_step s2 other token info tp (get_session-put_session token info s.sessions),
        )
        (
          refl,
          refl,
          conns-set_conn_auth (record s1 { sessions = put_session token info s1.sessions }) conn
              (authenticated info),
          refl,
          conns-set_conn_auth s2 other (authenticated info),
        )

  sessions-token_auth :
      (s : AuthServer) (conn : ℕ) (req : AuthReq) → (token_auth s conn req).0.sessions ≡ s.sessions
  unfolding token_auth set_conn_auth
  sessions-token_auth s conn req = elim (Option-cases (get_session req.token s.sessions)) [
    | inl e ↦ rw (e, token_auth) refl
    | inr (info, e) ↦ rw (e, token_auth) refl
  ]

  sessions-issue_challenge :
      (rand_challenge : Res Bytes) (s : AuthServer) (conn : ℕ) (req : AuthReq)
      → (issue_challenge rand_challenge s conn req).0.sessions ≡ s.sessions
  unfolding issue_challenge set_conn_auth
  sessions-issue_challenge (ok challenge) s conn req = ground arith
  sessions-issue_challenge (err e) s conn req = ground arith

  signature_auth_keeps :
      (token rand_token : Str) (info : SessionInfo) (s : AuthServer) (conn : ℕ) (req : AuthReq)
      (challenge : Option Bytes)
      → equal rand_token token ≡ false
      → get_session token s.sessions ≡ some info
      → get_session token (signature_auth ssh accounts rand_token s conn req challenge).0.sessions
        ≡ some info
  unfolding signature_auth open_session get_session put_session lookup set_conn_auth
  signature_auth_keeps token rand_token info s conn req none fresh h = h
  signature_auth_keeps token rand_token info s conn req (some challenge) fresh h =
      elim (Res-cases (check_signature ssh accounts req challenge)) [
        | inr (text, e) ↦ rw (e, open_session) h
        | inl ((key, user, home), e) ↦
            rw (e, open_session, lookup-insert rand_token token _ s.sessions, fresh) h
      ]

  keeps_session :
      (token : Str) (info : SessionInfo) (e : AuthEvent) (s : AuthServer)
      → equal e.rand_token token ≡ false
      → get_session token s.sessions ≡ some info
      → get_session token
          (handle_auth ssh accounts e.rand_challenge e.rand_token s e.conn e.req).0.sessions
        ≡ some info
  unfolding handle_auth
  keeps_session token info e s fresh h = ground (
    arith,
    sessions-token_auth s e.conn e.req,
    sessions-issue_challenge e.rand_challenge s e.conn e.req,
    signature_auth_keeps token e.rand_token info s e.conn e.req (pending (get_conn_auth s e.conn))
        fresh h,
  )

-- A session never ends: as long as rand does not produce its token again, the token is found with
-- the same user, home and key after any further requests, however many there are.
pub get_session-run_auth :
    (ssh : Ssh) (token : Str) (info : SessionInfo) (s : AuthServer) (es : List AuthEvent)
    → All (λ e. equal e.rand_token token ≡ false) es
    → get_session token s.sessions ≡ some info
    → get_session token (run_auth ssh s es).sessions ≡ some info
unfolding run_auth
get_session-run_auth ssh token info s [] fresh h = h
get_session-run_auth ssh token info s (e ∷ es) fresh h =
    get_session-run_auth ssh token info
      (handle_auth ssh e.accounts e.rand_challenge e.rand_token s e.conn e.req).0 es fresh.1
      (keeps_session ssh e.accounts token info e s fresh.0 h)
