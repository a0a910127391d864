-- ===== src/Client/Auth.antt =====
-- client.go and auth.go: how a client authenticates. A connection is the parameter Conn, the SSH
-- agent and the private keys are the parameter Keys.
pub mod Login
pub mod Uploads
use gcp.Base.{
  ℕ, ℤ, pos, Bool, true, false, not, Bytes, Str, str, List, [], ◌∷◌, ◌++◌, Option, none, some,
  if◌then◌else◌, is_empty, length,
}
use gcp.Base.Result.{Res, ok, err}
use gcp.Base.Exec.{Exec, pure, lift, ◌>>=◌, ◌>>◌}
use gcp.Base.FilePath.{join}
use gcp.Message.Types.{Msg, AuthReq, auth_req, auth_res, Codec}
use gcp.Message.Header
use gcp.Message.Header.{write_message}
use gcp.Client.Response.{read_resp}
use gcp.Client.Rpc.{Client}
use gcp.Server.Users.{Ssh, derive_encryption_key}

-- ssh.Signer: its public key, and Sign with ssh.Marshal of the signature.
pub record Signer (ssh : Ssh) : Type 0 where
  pub public_key : ssh.PublicKey
  pub sign : Bytes → Res Bytes

-- What the signers of a user come from: SSH_AUTH_SOCK, the agent behind a socket and its signers,
-- the home directory, files, and ssh.ParsePrivateKey.
pub record Keys (ssh : Ssh) : Type 0 where
  pub auth_sock : Str
  pub dial_agent : Str → Res (Res (List (Signer ssh)))
  pub user_home_dir : Res Str
  pub read_file : Str → Res Bytes
  pub parse_private_key : Bytes → Res (Signer ssh)

module _ (ssh : Ssh) (keys : Keys ssh) where
  open keys use {auth_sock, dial_agent, user_home_dir, read_file, parse_private_key}

  unfoldable pub first_signer : Res (List (Signer ssh)) → Res (Signer ssh)
  first_signer (ok (s ∷ signers)) = ok s
  first_signer _ = err (str "no keys in ssh-agent")

  unfoldable pub ssh_agent_signer : Res (Signer ssh)
  unfolding first_signer
  ssh_agent_signer =
      if is_empty auth_sock
      then err (str "SSH_AUTH_SOCK not set")
      else elim (dial_agent auth_sock) [
        | err e ↦ err (str "ssh-agent dial: " ++ e)
        | ok signers ↦ first_signer signers
      ]

  -- The loop over the candidates: what cannot be read or parsed is skipped.
  unfoldable pub try_candidates : Str → List Str → Res (Signer ssh)
  try_candidates home [] = err (str "no private key found in " ++ (home ++ str "/.ssh"))
  try_candidates home (p ∷ ps) = elim (read_file p) [
    | err e ↦ try_candidates home ps
    | ok key_bytes ↦ elim (parse_private_key key_bytes) [
      | err e ↦ try_candidates home ps
      | ok signer ↦ ok signer
    ]
  ]

  abbrev pub candidates : Str → List Str
  candidates home =
      join (join home (str ".ssh")) (str "id_ed25519")
      ∷ join (join home (str ".ssh")) (str "id_rsa")
      ∷ join (join home (str ".ssh")) (str "id_ecdsa")
      ∷ []

  unfoldable pub private_key_signer : Res (Signer ssh)
  unfolding try_candidates
  private_key_signer = elim user_home_dir [
    | err e ↦ err e
    | ok home ↦ try_candidates home (candidates home)
  ]

  unfoldable pub private_key_file_signer : Str → Res (Signer ssh)
  private_key_file_signer path = elim (read_file path) [
    | err e ↦ err (str "read identity file: " ++ e)
    | ok key_bytes ↦ elim (parse_private_key key_bytes) [
      | err e ↦ err (str "parse identity file: " ++ e)
      | ok signer ↦ ok signer
    ]
  ]

  unfoldable pub client_signer : Str → Res (Signer ssh)
  unfolding ssh_agent_signer private_key_signer private_key_file_signer
  client_signer identity_file =
      if not (is_empty identity_file)
      then private_key_file_signer identity_file
      else elim ssh_agent_signer [
        | ok signer ↦ ok signer
        | err e ↦ elim private_key_signer [
          | ok signer ↦ ok signer
          | err e' ↦ err (str "no SSH key available")
        ]
      ]

-- A net.Conn: Write, and the bytes that it will deliver before it ends, of which a reader leaves a
-- rest.
pub record Conn : Type 1 where
  pub State : Type 0
  pub write : State → Bytes → Res (Unit {0}) × State
  pub incoming : State → Bytes
  pub leave : State → Bytes → State

abbrev pub first_request : Bytes → Str → AuthReq
first_request pub_key user = record {
  id = pos 1;
  user = user;
  pub_key = pub_key;
  signature = [];
  token = [];
}

abbrev pub second_request : Bytes → Str → Bytes → AuthReq
second_request pub_key user signature = record {
  id = pos 2;
  user = user;
  pub_key = pub_key;
  signature = signature;
  token = [];
}

abbrev pub reconnect_request : Str → AuthReq
reconnect_request token = record {
  id = pos 0;
  user = [];
  pub_key = [];
  signature = [];
  token = token;
}

-- What the client takes from the first answer: the challenge.
unfoldable pub challenge_of : Msg → Res Bytes
challenge_of (auth_res r) =
    if r.success then err (str "unexpected auth response") else ok r.challenge
challenge_of _ = err (str "unexpected auth response")

-- From the second: the token and the user.
unfoldable pub granted_of : Msg → Res (Str × Str)
granted_of (auth_res r) =
    if r.success
    then ok (r.token, r.user)
    else err (str "auth: " ++ (if is_empty r.error then str "auth denied" else r.error))
granted_of _ = err (str "auth: auth denied")

unfoldable pub accepted_of : Msg → Res (Unit {0})
accepted_of (auth_res r) = if r.success then ok tt else err (str "token auth rejected")
accepted_of _ = err (str "token auth rejected")

-- What authenticating sets in the client.
pub record Credentials : Type 0 where
  pub auth_token : Str
  pub auth_user : Str
  pub encryption_key : Option Bytes

module _ (conn : Conn) (codec : Codec) where
  open conn use {State, write, incoming, leave}

  abbrev pub send : AuthReq → Exec State (Unit {0})
  send req s = write s (write_message codec (auth_req req) [])

  abbrev received : Header.Result (Msg × Bytes) → Exec State Msg
  received (Header.ok (m, rest)) s = (ok m, leave s rest)
  received (Header.err e) s = (err (str "recv"), s)

  -- readResp on the connection.
  abbrev pub recv : Exec State Msg
  recv s = received (read_resp codec (incoming s)) s

  -- dialAndAuth on its connection.
  unfoldable pub exchange : (ssh : Ssh) → Signer ssh → Str → Exec State Credentials
  unfolding challenge_of granted_of
  exchange ssh signer auth_user = do
    send (first_request (ssh.marshal signer.public_key) auth_user)
    first ← recv
    challenge ← lift (challenge_of first)
    signature ← lift (signer.sign challenge)
    send (second_request (ssh.marshal signer.public_key) auth_user signature)
    second ← recv
    (token, user) ← lift (granted_of second)
    pure (record {
      auth_token = token;
      auth_user = user;
      encryption_key = some (derive_encryption_key ssh signer.public_key);
    })

  -- dialAndAuth, with what clientSigner and net.Dial return.
  unfoldable pub dial_and_auth : (ssh : Ssh) → Res (Signer ssh) → Res State → Str → Res Credentials
  unfolding exchange
  dial_and_auth ssh (err e) dial auth_user = err (str "auth: " ++ e)
  dial_and_auth ssh (ok signer) (err e) auth_user = err (str "dial: " ++ e)
  dial_and_auth ssh (ok signer) (ok s) auth_user = (exchange ssh signer auth_user s).0

  unfoldable pub token_auth : Str → Exec State (Unit {0})
  unfolding accepted_of
  token_auth token = do send (reconnect_request token); answer ← recv; lift (accepted_of answer)

-- newClient, once dialAndAuth has returned.
unfoldable pub new_client : Bool → Bool → Res Credentials → Res Client
new_client use_checksum use_encryption (err e) = err e
new_client use_checksum use_encryption (ok l) = ok (record {
  id = 0;
  use_checksum = use_checksum;
  use_encryption = use_encryption;
  encryption_key = l.encryption_key;
})
