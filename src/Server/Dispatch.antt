-- ===== src/Server/Dispatch.antt =====
-- The workers of serve.go: the loop body of process and rejectUnauthenticated. One message is
-- handled in one step; the state is shared by all workers.
pub mod Answers
pub mod Lifetime
use gcp.Base.{
  ℕ, ◌+◌, ◌/◌, ◌%◌, ltb, ◌≡◌, Bool, true, false, Bytes, Str, str, List, [], ◌∷◌, ◌++◌, Option, none,
  some, if◌then◌else◌,
}
use gcp.Base.Result.{Res}
use gcp.Message.Types.{
  MessageType, Msg, AuthRes, create_req, create_res, write_req, write_res, read_req, read_res,
  stat_req, stat_res, read_dir_req, read_dir_res, hash_req, hash_res, auth_req, auth_res, get_id,
  type_of,
}
use gcp.Message.Header.{byte_of}
use gcp.Server.Users.{Ssh, Accounts}
use gcp.Server.Auth.{
  AuthState, auth_new, auth_pending, auth_ok, ConnAuth, AuthServer, get_conn_auth, Answer,
  handle_auth,
}
use gcp.Server.Cache.{Disk}
use gcp.Server.Files.{Host, Reply, replied, panicked, create, write, read, read_dir, stat, hash}

-- What a client sees of a message handled: an answer, with whether the connection is closed behind
-- it, nothing, or the end of the server by a panic.
pub data Reaction : Type 0 where
  answered : Msg → Bytes → Bool → Reaction
  silent crashed : Reaction

-- A number below 100 in decimal.
abbrev two_digits : ℕ → Str
two_digits n = if ltb n 10 then (48 + n) ∷ [] else (48 + n / 10) ∷ (48 + n % 10) ∷ []

-- The answer of rejectUnauthenticated.
abbrev pub auth_required : Msg → AuthRes
auth_required msg = record {
  id = get_id msg;
  success = false;
  challenge = [];
  token = [];
  user = [];
  error = str "authentication required before type " ++ two_digits (byte_of (type_of msg));
}

abbrev pub reaction : Reply → Reaction
reaction (replied msg payload) = answered msg payload false
reaction panicked = crashed

-- The connection's state, if it may send requests.
unfoldable pub allowed : Option ConnAuth → Option ConnAuth
allowed none = none
allowed (some ca) = elim ca.state [ auth_ok ↦ some ca | _ ↦ none ]

module _ (ssh : Ssh) (accounts : Accounts) (h : Host) where
  pub record Server : Type 0 where
    pub auth : AuthServer
    pub disk : Disk h.os

  abbrev pub on_disk : (Disk h.os → Reply × Disk h.os) → Server → Reaction × Server
  on_disk f s = let (r, d) = f s.disk in (reaction r, record s { disk = d })

  -- The switch over the type of a message on an authenticated connection.
  unfoldable pub serve_request : Msg → Bytes → ConnAuth → Server → Reaction × Server
  serve_request (create_req req) payload ca = on_disk (create h req ca)
  serve_request (write_req req) payload ca = on_disk (write h req payload ca)
  serve_request (read_req req) payload ca = on_disk (read h req ca)
  serve_request (stat_req req) payload ca = on_disk (stat h req ca)
  serve_request (read_dir_req req) payload ca = on_disk (read_dir h req ca)
  serve_request (hash_req req) payload ca = on_disk (hash h req ca)
  serve_request _ payload ca = λ s. (silent, s)

  unfoldable pub serve_other : Msg → Bytes → Option ConnAuth → Server → Reaction × Server
  serve_other msg payload none s = (answered (auth_res (auth_required msg)) [] true, s)
  serve_other msg payload (some ca) s = serve_request msg payload ca s

  unfoldable pub process : Res Bytes → Str → Server → ℕ → Msg → Bytes → Reaction × Server
  unfolding serve_other allowed
  process rand_challenge rand_token s conn (auth_req req) payload =
      let (auth', a) = handle_auth ssh accounts rand_challenge rand_token s.auth conn req in
      (answered (auth_res a.res) [] a.closes, record s { auth = auth' })
  process rand_challenge rand_token s conn msg payload =
      serve_other msg payload (allowed (get_conn_auth s.auth conn)) s
