-- ===== src/Server/Auth.antt =====
-- serve.go: the authentication state of the connections, and handleAuth; auth.go: the sessions.
-- A connection is a number. What rand produces, the challenge and the token, is an argument.
pub mod Safety
pub mod Handshake
use gcp.Base.{
  ℕ, ℤ, ◌≡◌, Bool, true, false, not, ◌&&◌, ◌||◌, Bytes, Str, str, List, [], ◌∷◌, ◌++◌, Option, none,
  some, ◌==◌, if◌then◌else◌, is_empty,
}
use gcp.Base.Result.{Res, ok, err, ◌>>=◌}
use gcp.Base.Dict.{lookup, insert, remove}
use gcp.Message.Types.{AuthReq, AuthRes}
use gcp.Server.Users.{
  Ssh, Accounts, verify_ssh_signature, find_user_by_pub_key, derive_encryption_key,
}

pub record SessionInfo : Type 0 where
  pub user : Str
  pub home : Str
  pub encryption_key : Option Bytes

abbrev pub SessionStore : Type 0
SessionStore = List (Str × SessionInfo)

abbrev pub new_session_store : SessionStore
new_session_store = []

-- Put, Get and Delete of sessionStore; Put is given the random token.
unfoldable pub put_session : Str → SessionInfo → SessionStore → SessionStore
put_session = insert

unfoldable pub get_session : Str → SessionStore → Option SessionInfo
get_session = lookup

unfoldable pub delete_session : Str → SessionStore → SessionStore
delete_session = remove

pub data AuthState : Type 0 where
  auth_new auth_pending auth_ok : AuthState

pub record ConnAuth : Type 0 where
  pub state : AuthState
  pub challenge : Option Bytes
  pub pub_key : Bytes
  pub user : Str
  pub home : Str
  pub encryption_key : Option Bytes

-- The sessions, and the context of each connection.
pub record AuthServer : Type 0 where
  pub sessions : SessionStore
  pub conns : ℕ → Option ConnAuth

unfoldable pub get_conn_auth : AuthServer → ℕ → Option ConnAuth
get_conn_auth s conn = s.conns conn

unfoldable pub set_conn_auth : ℕ → ConnAuth → AuthServer → AuthServer
set_conn_auth conn ca s = record s { conns = λ c. if c == conn then some ca else s.conns c }

-- What a handler does besides changing the state: its answer, and whether it closes the connection.
pub record Answer : Type 0 where
  pub res : AuthRes
  pub closes : Bool

abbrev pub denied : ℤ → Str → Answer
denied id error = record {
  res = record { id = id; success = false; challenge = []; token = []; user = []; error = error };
  closes = true;
}

abbrev pub granted : ℤ → Str → Str → Answer
granted id token user = record {
  res = record { id = id; success = true; challenge = []; token = token; user = user; error = [] };
  closes = false;
}

abbrev pub challenged : ℤ → Bytes → Answer
challenged id challenge = record {
  res = record {
    id = id;
    success = false;
    challenge = challenge;
    token = [];
    user = [];
    error = [];
  };
  closes = false;
}

abbrev pub authenticated : SessionInfo → ConnAuth
authenticated info = record {
  state = auth_ok;
  challenge = none;
  pub_key = [];
  user = info.user;
  home = info.home;
  encryption_key = info.encryption_key;
}

-- The challenge that a connection still has to answer.
unfoldable pub pending : Option ConnAuth → Option Bytes
pending none = none
pending (some ca) = elim ca.state [ auth_pending ↦ ca.challenge | _ ↦ none ]

abbrev prefix_err {ℓ} : {A : Type ℓ} → Str → Res A → Res A
prefix_err text (ok a) = ok a
prefix_err text (err e) = err (text ++ e)

unfoldable pub token_auth : AuthServer → ℕ → AuthReq → AuthServer × Answer
token_auth s conn req = elim (get_session req.token s.sessions) [
  | none ↦ (s, denied req.id (str "invalid or expired session token"))
  | some info ↦ (set_conn_auth conn (authenticated info) s, granted req.id [] info.user)
]

unfoldable pub issue_challenge : Res Bytes → AuthServer → ℕ → AuthReq → AuthServer × Answer
issue_challenge rand_challenge s conn req =
    if is_empty req.pub_key
    then (s, denied req.id (str "missing public key"))
    else elim rand_challenge [
      | err e ↦ (s, denied req.id (str "internal error"))
      | ok challenge ↦ (
        set_conn_auth conn
            (record {
              state = auth_pending;
              challenge = some challenge;
              pub_key = req.pub_key;
              user = [];
              home = [];
              encryption_key = none;
            })
            s,
        challenged req.id challenge,
      )
    ]

module _ (ssh : Ssh) (accounts : Accounts) where
  -- The signature against the challenge, and the account that has the key.
  unfoldable pub check_signature : AuthReq → Bytes → Res (ssh.PublicKey × Str × Str)
  check_signature req challenge = do
    key ←
        prefix_err (str "signature verification failed: ")
          (verify_ssh_signature ssh req.pub_key challenge req.signature)
    (user, home) ← find_user_by_pub_key ssh accounts key req.user
    ok (key, user, home)

  -- The session of a client whose signature is good.
  unfoldable pub open_session :
      Str → AuthServer → ℕ → AuthReq → Res (ssh.PublicKey × Str × Str) → AuthServer × Answer
  open_session rand_token s conn req (err e) = (s, denied req.id e)
  open_session rand_token s conn req (ok (key, user, home)) =
      let info : SessionInfo = record {
        user = user;
        home = home;
        encryption_key = some (derive_encryption_key ssh key);
      } in
      (
        set_conn_auth conn (authenticated info)
            (record s { sessions = put_session rand_token info s.sessions }),
        granted req.id rand_token user,
      )

  unfoldable pub signature_auth :
      Str → AuthServer → ℕ → AuthReq → Option Bytes → AuthServer × Answer
  signature_auth rand_token s conn req none = (s, denied req.id (str "no pending challenge"))
  signature_auth rand_token s conn req (some challenge) =
      open_session rand_token s conn req (check_signature req challenge)

  unfoldable pub handle_auth : Res Bytes → Str → AuthServer → ℕ → AuthReq → AuthServer × Answer
  unfolding token_auth issue_challenge signature_auth
  handle_auth rand_challenge rand_token s conn req =
      if not (is_empty req.signature) || not (is_empty req.token)
      then (if not (is_empty req.token)
          then token_auth s conn req
          else signature_auth rand_token s conn req (pending (get_conn_auth s conn)))
      else issue_challenge rand_challenge s conn req

-- A request that a worker handles, with what rand gives it and what the files of the accounts hold
-- then.
pub record AuthEvent : Type 0 where
  pub accounts : Accounts
  pub rand_challenge : Res Bytes
  pub rand_token : Str
  pub conn : ℕ
  pub req : AuthReq

-- The server after requests of any clients, in the order in which they are handled.
unfoldable pub run_auth : Ssh → AuthServer → List AuthEvent → AuthServer
run_auth ssh s [] = s
run_auth ssh s (e ∷ es) =
    run_auth ssh (handle_auth ssh e.accounts e.rand_challenge e.rand_token s e.conn e.req).0 es

abbrev pub new_auth_server : AuthServer
new_auth_server = record { sessions = new_session_store; conns = λ c. none }
