-- ===== src/Client/UploadsTests.antt =====
-- The claim on a new client's upload at the account ann and a file of seven bytes.
use gcp.Base.{
  ℕ, ◌<◌, ◌≡◌, refl, subst, ap, sym, ◌∙◌, inl, inr, Option, ◌==◌, if◌then◌else◌, Bool-cases, true,
  false, Str, str, [], ◌∷◌, some, arith,
}
use mathlib.Core.Path.{fun_ext}
use gcp.Base.Result.{Res, ok}
use gcp.Base.Dict.{lookup}
use gcp.Message.Types.{type_of}
use gcp.Transfer.Upload.{Source}
use gcp.Transfer.Upload.Sends.{Right}
use gcp.Transfer.Fixtures.{host, files, bytes}
use gcp.Client.Remote.{Caller, served}
use gcp.Client.Auth.{Credentials, new_client}
use gcp.Client.Auth.Login.{Peer, token_auth-exchange}
use gcp.Client.Auth.Uploads.{uploaded, worker, dialled, joined, new_client-Uploads}
use gcp.Client.LoginTests.{codec, signer, challenge, signature, token, found_ann, signed}
use gcp.Server.Users.{derive_encryption_key}
use gcp.Server.Auth.{SessionInfo, ConnAuth, AuthServer, authenticated, new_auth_server}
use gcp.Server.Cache.Content.{Named}
use gcp.Server.Dispatch.{Server}
use gcp.Server.Fixtures.{ssh, accounts, key, gzip_Inverts, box_Opens, nonce}

abbrev new_server : Server ssh accounts host
new_server = record { auth = new_auth_server; disk = record { files = []; world = λ q i. 0 } }

abbrev source : Source
source = record { bytes = bytes; mode = 420; sha256 = ok bytes; target = str "f" }

abbrev ann_worker : Caller (served ssh accounts host 2)
ann_worker =
    worker ssh accounts host files gzip_Inverts box_Opens (λ off k. ok nonce)
      (λ off k. (nonce, refl, refl)) codec signer [] new_server challenge token 1 2 true true

abbrev ann_dialled : Res Credentials × Peer ssh accounts host codec
ann_dialled =
    dialled ssh accounts host files gzip_Inverts box_Opens (λ off k. ok nonce)
      (λ off k. (nonce, refl, refl)) codec signer [] new_server challenge token 1 2

abbrev ann_joined : Res (Unit {0}) × Peer ssh accounts host codec
ann_joined =
    joined ssh accounts host files gzip_Inverts box_Opens (λ off k. ok nonce)
      (λ off k. (nonce, refl, refl)) codec signer [] new_server challenge token 1 2

-- The server when both connections have authenticated.
abbrev info : SessionInfo
info = record {
  user = str "ann";
  home = str "/a";
  encryption_key = some (derive_encryption_key ssh key);
}

abbrev with_conn : AuthServer → Option ConnAuth → AuthServer
with_conn a o = record a { conns = λ c. if c == 2 then o else a.conns c }

conns_apart : (a : AuthServer) (c : ℕ) → a.conns c ≡ (with_conn a (a.conns 2)).conns c
conns_apart a c = elim (Bool-cases (c == 2)) [
  | inl k ↦ let same : c ≡ 2 = ground (arith, k) in rw k (ap a.conns same)
  | inr k ↦ rw k refl
]

split_conn : (a : AuthServer) (o : Option ConnAuth) → a.conns 2 ≡ o → a ≡ with_conn a o
split_conn a o k = (λ i. record a { conns = fun_ext (conns_apart a) i }) ∙ ap (with_conn a) k

abbrev state_of : AuthServer → Server ssh accounts host
state_of a = record { auth = a; disk = new_server.disk }

abbrev sent_from : Server ssh accounts host → Res (Unit {0}) × Caller (served ssh accounts host 2)
sent_from s =
    uploaded ssh accounts host files gzip_Inverts box_Opens (λ off k. ok nonce)
      (λ off k. (nonce, refl, refl)) 2 source 3 8 2 false 0 (λ xs. xs)
      (record { client = ann_worker.client; state = s })

from_known :
    (a : AuthServer) → (sent_from (state_of (with_conn a (some (authenticated info))))).0 ≡ ok tt
unfolding gcp.Transfer.Upload.upload_file gcp.Transfer.Upload.prepare gcp.Client.Remote.call_create
    gcp.Server.Dispatch.process gcp.Client.Rpc.create_request gcp.Server.Auth.get_conn_auth
    gcp.Server.Dispatch.serve_request gcp.Server.Files.create gcp.Transfer.Upload.run_plan
    gcp.Transfer.Schedule.process_chunks gcp.Transfer.Schedule.rounds
    gcp.Transfer.Upload.upload_chunks gcp.Transfer.Upload.remaining gcp.Transfer.Resume.is_completed
    gcp.Transfer.Upload.upload_file_chunk gcp.Transfer.Upload.read_exactly
    gcp.Transfer.Upload.attempt_write gcp.Transfer.Upload.write_rounds gcp.Client.Remote.call_write
    gcp.Client.Rpc.write_request gcp.Client.Rpc.seal_chunk gcp.Client.Rpc.gen_msg_id
    gcp.Server.Files.write gcp.Server.Files.write_chunk gcp.Server.Files.unpack
    gcp.Server.Files.write_file gcp.Server.Cache.get gcp.Transfer.Chunk.compress_chunk
    gcp.Transfer.Chunk.decompress_chunk gcp.Transfer.Chunk.encrypt_chunk
    gcp.Transfer.Chunk.decrypt_chunk gcp.Base.equal lookup gcp.Base.Dict.insert
    gcp.Server.Files.sandbox_path gcp.Base.has_prefix gcp.Base.FilePath.is_abs
    gcp.Base.FilePath.join gcp.Base.Crc32.checksum_ieee derive_encryption_key
from_known a = refl

known_state :
    (s : Server ssh accounts host)
    → s.auth.conns 2 ≡ some (authenticated info)
    → s.disk ≡ new_server.disk
    → state_of (with_conn s.auth (some (authenticated info))) ≡ s
known_state s k d =
    λ i. record { auth = sym (split_conn s.auth (some (authenticated info)) k) i; disk = sym d i }

no_files : Named host.os files new_server.disk
unfolding lookup
no_files q e k = absurd (cc k)

sent_ok : (sent_from ann_worker.state).0 ≡ ok tt
unfolding type_of
sent_ok =
    let (creds, at_conn, accepted, at_other, disk) =
      token_auth-exchange ssh accounts host codec 1 2 signer [] new_server challenge signature token
        (str "ann") (str "/a") (refl, ground arith, ground arith) (refl, ground arith, ground arith)
        (refl, ground arith, ground arith) (refl, ground arith, ground arith)
        (refl, ground arith, ground arith) (refl, ground arith, ground arith) refl refl refl refl
        signed found_ann in
    subst (λ s. (sent_from s).0 ≡ ok tt) (known_state ann_worker.state at_other disk)
      (from_known ann_worker.state.auth)

new_client-Uploads_example :
    (new_client true true (ann_dialled).0 ≡ ok (ann_worker.client))
    × (ann_joined.0 ≡ ok tt)
    × ((i : ℕ)
        → i < 7
        → Right ssh accounts host files 2
            (authenticated info)
            source
            (sent_from ann_worker.state).1
            i)
unfolding type_of
new_client-Uploads_example =
    new_client-Uploads ssh accounts host files gzip_Inverts box_Opens (λ off k. ok nonce)
      (λ off k. (nonce, refl, refl)) codec 1 2 signer [] new_server challenge signature token
      (str "ann") (str "/a") true true source 3 8 2 false 0 (λ xs. xs)
      (refl, ground arith, ground arith) (refl, ground arith, ground arith)
      (refl, ground arith, ground arith) (refl, ground arith, ground arith)
      (refl, ground arith, ground arith) (refl, ground arith, ground arith) refl refl refl refl
      signed found_ann no_files (λ x xs there. there) (omega arith) (omega arith) sent_ok
