-- ===== src/Client/Rpc.antt =====
-- client.go: the requests that the methods of copierClient send, what uploads and downloads do with
-- the bytes of a chunk, and processMsg, which routes the responses.
pub mod Chunks
pub mod Routing
use gcp.Base.{
  ℕ, ℤ, pos, negsuc, ◌+◌, ◌%◌, ◌^◌, ◌≡◌, Bool, true, false, not, ◌&&◌, Bytes, Str, str, List, [],
  ◌∷◌, ◌++◌, Option, none, some, length, ◌==◌, ltb, if◌then◌else◌, is_empty, int_eq,
}
use gcp.Base.Result.{Res, ok, err}
use gcp.Base.Crc32.{checksum_ieee}
use gcp.Message.Types.{
  Msg, CreateReq, WriteReq, ReadReq, ReadRes, StatReq, ReadDirReq, HashReq, create_req, write_req,
  read_req, stat_req, read_dir_req, hash_req, get_id, encryption_none, encryption_secret_box,
}
use gcp.Transfer.Chunk.{
  Gzip, SecretBox, compress_chunk, decompress_chunk, encrypt_chunk, decrypt_chunk,
}

-- The settings and the counter of a copierClient.
pub record Client : Type 0 where
  pub id : ℕ
  pub use_checksum : Bool
  pub use_encryption : Bool
  pub encryption_key : Option Bytes

-- genMsgID
unfoldable pub gen_msg_id : Client → ℤ × Client
gen_msg_id cc = (pos (cc.id + 1), record cc { id = cc.id + 1 })

-- What Create sends.
unfoldable pub create_request : Client → Str → ℤ → ℕ → Msg × Client
unfolding gen_msg_id
create_request cc target size mode =
    let (id, cc') = gen_msg_id cc in
    (create_req (record { id = id; size = size; mode = mode; path = target; is_dir = false }), cc')

module _ (z : Gzip) (b : SecretBox) (nonce : Res Bytes) where
  -- The bytes that Write sends for a chunk, with the two algorithms that they are under.
  unfoldable pub seal_chunk : Client → Bytes → ℕ → Res (Bytes × ℕ × ℕ)
  seal_chunk cc payload algo = elim (compress_chunk z payload algo) [
    | err e ↦ err e
    | ok (compressed, used) ↦
        (if cc.use_encryption
          then (elim (encrypt_chunk b nonce compressed cc.encryption_key) [
            | ok sent ↦ ok (sent, used, encryption_secret_box)
            | err e ↦ err e
          ])
          else ok (compressed, used, encryption_none))
  ]

  -- What Write sends.
  unfoldable pub write_request : Client → Str → ℤ → Bytes → ℕ → Res (WriteReq × Bytes × Client)
  unfolding seal_chunk gen_msg_id
  write_request cc target off payload algo = elim (seal_chunk cc payload algo) [
    | err e ↦ err e
    | ok (sent, used, enc) ↦
        (let (id, cc') = gen_msg_id cc in
          ok (
            record {
              id = id;
              path = target;
              offset = off;
              checksum = (if cc.use_checksum && not (is_empty sent) then checksum_ieee sent else 0);
              compression = used;
              encryption = enc;
            },
            sent,
            cc',
          ))
  ]

module _ (z : Gzip) (b : SecretBox) where
  -- What a download makes of a response that it has accepted: decrypted, then decompressed.
  unfoldable pub open_chunk : Client → ReadRes → Bytes → Res Bytes
  open_chunk cc res payload =
      elim (if res.encryption == encryption_secret_box
        then decrypt_chunk b payload cc.encryption_key
        else ok payload) [
          | err e ↦ err (str "decryption failed: " ++ e)
          | ok chunk ↦ (elim (decompress_chunk z chunk res.compression) [
            | err e ↦ err (str "decompression failed: " ++ e)
            | ok bytes ↦ ok bytes
          ])
        ]

-- The test of a response by a download: an error of the server, or a checksum that is given, is
-- looked for, and does not fit.
unfoldable pub accept_chunk : Client → ReadRes → Bytes → Res (Unit {0})
accept_chunk cc res payload =
    if not res.success
    then err (str "read failed: " ++ res.error)
    else if cc.use_checksum
        && (not (res.checksum == 0) && not (checksum_ieee payload == res.checksum))
    then err (str "checksum mismatch")
    else ok tt

-- What Read sends.
unfoldable pub read_request : Client → Str → ℤ → ℤ → ℕ → ReadReq × Client
unfolding gen_msg_id
read_request cc target off size algo =
    let (id, cc') = gen_msg_id cc in
    (
      record {
        id = id;
        path = target;
        offset = off;
        size = size;
        compression = algo;
        encryption = (if cc.use_encryption then encryption_secret_box else encryption_none);
      },
      cc',
    )

-- What ReadDir, Stat and Hash send.
unfoldable pub read_dir_request : Client → Str → Msg × Client
unfolding gen_msg_id
read_dir_request cc target =
    let (id, cc') = gen_msg_id cc in (read_dir_req (record { id = id; path = target }), cc')

unfoldable pub stat_request : Client → Str → Msg × Client
unfolding gen_msg_id
stat_request cc target =
    let (id, cc') = gen_msg_id cc in (stat_req (record { id = id; path = target }), cc')

unfoldable pub hash_request : Client → Str → Msg × Client
unfolding gen_msg_id
hash_request cc target =
    let (id, cc') = gen_msg_id cc in (hash_req (record { id = id; path = target }), cc')

-- resCache of processMsg: the channel, a number, on which a caller waits for an id.
abbrev pub ResCache : Type 0
ResCache = List (ℤ × ℕ)

unfoldable pub waiter : ℤ → ResCache → Option ℕ
waiter id [] = none
waiter id ((i, ch) ∷ rest) = if int_eq i id then some ch else waiter id rest

unfoldable pub forget : ℤ → ResCache → ResCache
forget id [] = []
forget id ((i, ch) ∷ rest) =
    let rest' = forget id rest in if int_eq i id then rest' else (i, ch) ∷ rest'

-- What processMsg receives: a request of a caller, or a response from a connection.
pub data Traffic : Type 0 where
  outgoing : Msg → ℕ → Traffic
  incoming : Msg → Bytes → Traffic

-- A round of processMsg: the cache, and the delivery to a channel that it makes.
unfoldable pub route : ResCache → Traffic → ResCache × Option (ℕ × Msg × Bytes)
unfolding waiter forget
route cache (outgoing msg ch) = ((get_id msg, ch) ∷ forget (get_id msg) cache, none)
route cache (incoming msg payload) = elim (waiter (get_id msg) cache) [
  | none ↦ (cache, none)
  | some ch ↦ (forget (get_id msg) cache, some (ch, msg, payload))
]

unfoldable pub route_all : ResCache → List Traffic → ResCache × List (ℕ × Msg × Bytes)
route_all cache [] = (cache, [])
route_all cache (t ∷ ts) =
    let (cache', o) = route cache t in
    let (cache'', ds) = route_all cache' ts in (cache'', (elim o [ none ↦ ds | some d ↦ d ∷ ds ]))
