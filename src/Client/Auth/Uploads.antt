-- ===== src/Client/Auth/Uploads.antt =====
-- A new client of client.go that authenticates, and then sends a file with uploadFile of
-- cp_to_host.go, against the server of serve.go.
use gcp.Base.{
  ℕ, pos, ◌+◌, ◌<◌, ◌≡◌, refl, sym, subst, ap, ◌∙◌, inl, inr, Bool, false, Bytes, Str, List, [],
  ◌∷◌, none, some, is_empty, length, arith,
}
use gcp.Base.Result.{Res, ok}
use gcp.Message.Types.{auth_req, auth_res, Codec}
use gcp.Message.Reader.Traffic.{IsSendable}
use gcp.Transfer.Chunk.{Inverts, Opens, nonce_size}
use gcp.Transfer.Resume.{is_completed}
use gcp.Transfer.Schedule.{Chunk}
use gcp.Transfer.Schedule.Tiles.{Tiles, process_chunks-Tiles}
use gcp.Transfer.Schedule.Upload.{In}
use gcp.Transfer.Upload.{Source, upload_file}
use gcp.Transfer.Upload.Parts.{Ready}
use gcp.Transfer.Upload.Sends.{Right}
use gcp.Transfer.Upload.Whole.{upload_file_complete}
use gcp.Client.Rpc.{Client}
use gcp.Client.Remote.{Caller, served}
use gcp.Client.Auth.{
  Signer, Credentials, first_request, second_request, reconnect_request, exchange, token_auth,
  new_client,
}
use gcp.Client.Auth.Login.{Peer, link, idle, token_auth-exchange}
use gcp.Server.Users.{
  Ssh, Accounts, verify_ssh_signature, find_user_by_pub_key, derive_encryption_key,
}
use gcp.Server.Auth.{SessionInfo, ConnAuth, challenged, granted, authenticated}
use gcp.Server.Cache.Content.{IsFileSystem, Named}
use gcp.Server.Files.{Host}
use gcp.Server.Dispatch.{Server}

-- Without a resume state no chunk is skipped.
fresh :
    (chunk_size offset last : ℕ) (cs : List Chunk) (x : Chunk)
    → Tiles (is_completed none) chunk_size offset last cs
    → In x cs
    → x.skipped ≡ false
unfolding is_completed
fresh chunk_size offset last [] x end there = absurd there
fresh chunk_size offset last (c ∷ cs) x (at, some_byte, size, skip, rest) (inl same) =
    ap (λ (y : Chunk). y.skipped) (sym same) ∙ skip
fresh chunk_size offset last (c ∷ cs) x (at, some_byte, size, skip, rest) (inr there) =
    fresh chunk_size (offset + c.size) last cs x rest there

module _ (ssh : Ssh) (accounts : Accounts) (h : Host) (fs : IsFileSystem h.os)
    (inv : Inverts h.gzip) (opens : Opens h.box) (nonces : ℕ → ℕ → Res Bytes)
    (rand_works : (off k : ℕ) → (n : Bytes) × (nonces off k ≡ ok n) × (length n ≡ nonce_size)) where
  -- uploadFile without a resume state.
  abbrev pub uploaded :
      (conn : ℕ)
      → Source
      → ℕ
      → ℕ
      → ℕ
      → Bool
      → ℕ
      → (List Chunk → List Chunk)
      → Caller (served ssh accounts h conn)
      → Res (Unit {0}) × Caller (served ssh accounts h conn)
  uploaded conn src chunk_size fuel retries use_sha256 algo order c =
      upload_file (served ssh accounts h conn) h.gzip h.box nonces none src chunk_size fuel
        (pos retries) use_sha256 algo order c

  fresh_complete :
      (conn : ℕ) (ca : ConnAuth) (src : Source) (chunk_size fuel retries : ℕ) (use_sha256 : Bool)
      (algo : ℕ) (order : List Chunk → List Chunk) (c : Caller (served ssh accounts h conn))
      → ((x : Chunk) (xs : List Chunk) → In x xs → In x (order xs))
      → 0 < chunk_size
      → length src.bytes < fuel
      → Ready ssh accounts h fs conn ca c
      → (uploaded conn src chunk_size fuel retries use_sha256 algo order c).0 ≡ ok tt
      → (i : ℕ) → i < length src.bytes
      → Right ssh accounts h fs conn ca src
          (uploaded conn src chunk_size fuel retries use_sha256 algo order c).1
          i
  fresh_complete conn ca src chunk_size fuel retries use_sha256 algo order c all some_byte enough
        ready done i high =
      let (plan, planned, tiles) =
        process_chunks-Tiles (is_completed none) chunk_size fuel (length src.bytes) 0 some_byte
          (omega arith) enough in
      upload_file_complete ssh accounts h fs conn ca inv opens nonces rand_works none src chunk_size
        fuel retries algo use_sha256 order plan c planned all some_byte enough ready
        (λ x j there k w. absurd (cc (fresh chunk_size 0 (length src.bytes) plan x tiles there, k)))
        done i high

  module _ (codec : Codec) (signer : Signer ssh) (hint : Str) (server : Server ssh accounts h)
      (challenge : Bytes) (token : Str) (conn other : ℕ) where
    -- dialAndAuth on the first connection, and tokenAuth on the second.
    abbrev pub dialled : Res Credentials × Peer ssh accounts h codec
    dialled =
        exchange (link ssh accounts h codec conn) codec ssh signer hint (
          idle ssh accounts h codec server ((ok challenge, []) ∷ (ok [], token) ∷ (ok [], []) ∷ []))

    abbrev pub joined : Res (Unit {0}) × Peer ssh accounts h codec
    joined = token_auth (link ssh accounts h codec other) codec token dialled.1

  -- The client that newClient makes, with its key.
  abbrev pub fresh_client : Bool → Bool → Signer ssh → Client
  fresh_client use_checksum use_encryption signer = record {
    id = 0;
    use_checksum = use_checksum;
    use_encryption = use_encryption;
    encryption_key = some (derive_encryption_key ssh signer.public_key);
  }

  -- The client on its second connection.
  abbrev pub worker :
      (codec : Codec)
      → Signer ssh
      → Str
      → Server ssh accounts h
      → Bytes
      → Str
      → ℕ
      → (other : ℕ) → Bool
      → Bool
      → Caller (served ssh accounts h other)
  worker codec signer hint server challenge token conn other use_checksum use_encryption = record {
    client = fresh_client use_checksum use_encryption signer;
    state = (joined codec signer hint server challenge token conn other).1.server;
  }

  -- A client whose key an account accepts, and whose signer signs well, gets from newClient the
  -- client's state with the key that the server has, and its second connection is authenticated;
  -- if uploadFile then succeeds there without a resume state, with a chunk size and a number of
  -- retries in range, every byte of the source is at its place in the file that sandboxPath makes
  -- of the target for the account, whatever failed on the way and in whatever order the chunks were
  -- sent.
  pub new_client-Uploads :
      (codec : Codec) (conn other : ℕ) (signer : Signer ssh) (hint : Str)
      (server : Server ssh accounts h) (challenge signature : Bytes) (token user home : Str)
      (use_checksum use_encryption : Bool) (src : Source) (chunk_size fuel retries : ℕ)
      (use_sha256 : Bool) (algo : ℕ) (order : List Chunk → List Chunk)
      → IsSendable codec (auth_req (first_request (ssh.marshal signer.public_key) hint), [])
      → IsSendable codec (auth_res (challenged (pos 1) challenge).res, [])
      → IsSendable codec
          (auth_req (second_request (ssh.marshal signer.public_key) hint signature), [])
      → IsSendable codec (auth_res (granted (pos 2) token user).res, [])
      → IsSendable codec (auth_req (reconnect_request token), [])
      → IsSendable codec (auth_res (granted (pos 0) [] user).res, [])
      → is_empty (ssh.marshal signer.public_key) ≡ false
      → is_empty signature ≡ false
      → is_empty token ≡ false
      → signer.sign challenge ≡ ok signature
      → verify_ssh_signature ssh (ssh.marshal signer.public_key) challenge signature
        ≡ ok signer.public_key
      → find_user_by_pub_key ssh accounts signer.public_key hint ≡ ok (user, home)
      → Named h.os fs server.disk
      → ((x : Chunk) (xs : List Chunk) → In x xs → In x (order xs))
      → 0 < chunk_size
      → length src.bytes < fuel
      → (uploaded other src chunk_size fuel retries use_sha256 algo order (
          worker codec signer hint server challenge token conn other use_checksum use_encryption)).0
        ≡ ok tt
      → let key = derive_encryption_key ssh signer.public_key in
        let info : SessionInfo = record { user = user; home = home; encryption_key = some key } in
        let c =
          worker codec signer hint server challenge token conn other use_checksum use_encryption in
        (new_client use_checksum use_encryption
            (dialled codec signer hint server challenge token conn other).0
          ≡ ok (fresh_client use_checksum use_encryption signer))
        × ((joined codec signer hint server challenge token conn other).0 ≡ ok tt)
        × ((i : ℕ)
            → i < length src.bytes
            → Right ssh accounts h fs other
                (authenticated info)
                src
                (uploaded other src chunk_size fuel retries use_sha256 algo order c).1
                i)
  unfolding new_client
  new_client-Uploads codec conn other signer hint server challenge signature token user home
        use_checksum use_encryption src chunk_size fuel retries use_sha256 algo order g1 g2 g3 g4 g5
        g6 kp sp tp s v f named all some_byte enough done =
      let (creds, at_conn, accepted, at_other, same_disk) =
        token_auth-exchange ssh accounts h codec conn other signer hint server challenge signature
          token user home g1 g2 g3 g4 g5 g6 kp sp tp s v f in
      let key = derive_encryption_key ssh signer.public_key in
      let info : SessionInfo = record { user = user; home = home; encryption_key = some key } in
      let c =
        worker codec signer hint server challenge token conn other use_checksum use_encryption in
      let ready : Ready ssh accounts h fs other (authenticated info) c = record {
        known = at_other;
        is_ok = refl;
        same_key = refl;
        names = subst (Named h.os fs) (sym same_disk) named;
      } in
      (
        ap (new_client use_checksum use_encryption) creds,
        accepted,
        λ i high.
            fresh_complete other (authenticated info) src chunk_size fuel retries use_sha256 algo
              order c all some_byte enough ready done i high,
      )
