-- ===== src/Client/LoginTests.antt =====
-- The claim on authentication at the account ann.
use gcp.Base.{
  pos, ◌≡◌, refl, Bytes, Str, str, [], ◌∷◌, ◌++◌, Option, none, some, length, take, drop, to_ℕ,
  ◌==◌, equal, has_prefix, if◌then◌else◌, arith,
}
use gcp.Base.Result.{ok}
use gcp.Message.Types.{MessageType, auth_req_t, auth_res_t, Msg, auth_req, auth_res, Codec, type_of}
use gcp.Client.Auth.{Signer, exchange, token_auth}
use gcp.Client.Auth.Login.{link, idle, token_auth-exchange}
use gcp.Server.Users.{
  scan_passwd, find_in_entries, passwd_entries, holds_key, line_key, find_user_by_pub_key,
  verify_ssh_signature, derive_encryption_key,
}
use gcp.Server.Auth.{SessionInfo, authenticated, new_auth_server}
use gcp.Server.Dispatch.{Server}
use gcp.Server.Fixtures.{ssh, accounts, host, key}

-- A codec for the messages of authentication: each field behind its length.
abbrev field : Bytes → Bytes → Bytes
field f rest = length f ∷ (f ++ rest)

abbrev read_field : Bytes → Bytes × Bytes
read_field [] = ([], [])
read_field (n ∷ rest) = (take n rest, drop n rest)

abbrev encode_auth : Msg → Bytes
encode_auth (auth_req m) =
    to_ℕ m.id ∷ field m.user (field m.pub_key (field m.signature (field m.token [])))
encode_auth (auth_res m) =
    to_ℕ m.id
    ∷ (if m.success then 1 else 0)
    ∷ field m.challenge (field m.token (field m.user (field m.error [])))
encode_auth _ = []

abbrev decode_auth : MessageType → Bytes → Option Msg
decode_auth auth_req_t (id ∷ b) =
    let (user, b1) = read_field b in
    let (pub_key, b2) = read_field b1 in
    let (signature, b3) = read_field b2 in
    let (token, b4) = read_field b3 in
    some (
      auth_req (record {
        id = pos id;
        user = user;
        pub_key = pub_key;
        signature = signature;
        token = token;
      }))
decode_auth auth_res_t (id ∷ (s ∷ b)) =
    let (challenge, b1) = read_field b in
    let (token, b2) = read_field b1 in
    let (user, b3) = read_field b2 in
    let (text, b4) = read_field b3 in
    some (
      auth_res (record {
        id = pos id;
        success = s == 1;
        challenge = challenge;
        token = token;
        user = user;
        error = text;
      }))
decode_auth _ _ = none

abbrev pub codec : Codec
codec = record { encode = encode_auth; decode = decode_auth }

abbrev pub signer : Signer ssh
signer = record { public_key = key; sign = λ challenge. ok (key ++ challenge) }

abbrev new_server : Server ssh accounts host
new_server = record { auth = new_auth_server; disk = record { files = []; world = 0 } }

abbrev pub challenge : Bytes
challenge = str "xyz"

abbrev pub signature : Bytes
signature = key ++ challenge

abbrev pub token : Str
token = str "t0"

pub found_ann : find_user_by_pub_key ssh accounts key [] ≡ ok (str "ann", str "/a")
unfolding find_user_by_pub_key scan_passwd find_in_entries passwd_entries equal holds_key line_key
    has_prefix
found_ann = refl

pub signed : verify_ssh_signature ssh key challenge signature ≡ ok key
unfolding verify_ssh_signature equal
signed = refl

token_auth-exchange_example :
    let ann_key = derive_encryption_key ssh key in
    let info : SessionInfo = record {
      user = str "ann";
      home = str "/a";
      encryption_key = some ann_key;
    } in
    let start =
      idle ssh accounts host codec new_server
        ((ok challenge, []) ∷ (ok [], token) ∷ (ok [], []) ∷ []) in
    let (r, peer) = exchange (link ssh accounts host codec 1) codec ssh signer [] start in
    let (r', peer') = token_auth (link ssh accounts host codec 2) codec token peer in
    (r ≡ ok (record { auth_token = token; auth_user = str "ann"; encryption_key = some ann_key }))
    × (peer.server.auth.conns 1 ≡ some (authenticated info))
    × (r' ≡ ok tt)
    × (peer'.server.auth.conns 2 ≡ some (authenticated info))
    × (peer'.server.disk ≡ new_server.disk)
unfolding type_of
token_auth-exchange_example =
    token_auth-exchange ssh accounts host codec 1 2 signer [] new_server challenge signature token
      (str "ann") (str "/a") (refl, ground arith, ground arith) (refl, ground arith, ground arith)
      (refl, ground arith, ground arith) (refl, ground arith, ground arith)
      (refl, ground arith, ground arith) (refl, ground arith, ground arith) refl refl refl refl
      signed found_ann
