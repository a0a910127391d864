-- ===== src/Client/Remote.antt =====
-- The calls of client.go, as the transfers make them: a request goes out under a new id, and the
-- caller waits for the response. What carries them is the parameter Remote; the server of serve.go
-- on an authenticated connection is one (served). A response of another type than the request's, on
-- which the code panics, is an error here.
use gcp.Base.{ℕ, ℤ, Bytes, Str, str, []}
use gcp.Base.Result.{Res, ok, err}
use gcp.Message.Types.{
  Msg, WriteReq, WriteRes, ReadRes, StatRes, CreateRes, HashRes, ReadDirRes, write_req, write_res,
  read_req, read_res, stat_res, create_res, hash_res, read_dir_res,
}
use gcp.Transfer.Chunk.{Gzip, SecretBox}
use gcp.Client.Rpc.{
  Client, create_request, write_request, read_request, read_dir_request, stat_request, hash_request,
}
use gcp.Server.Users.{Ssh, Accounts}
use gcp.Server.Files.{Host}
use gcp.Server.Dispatch.{Server, Reaction, answered, silent, crashed, process}

pub record Remote : Type 1 where
  pub State : Type 0
  pub call : Msg → Bytes → State → Res (Msg × Bytes) × State

unfoldable pub write_res_of : Msg → Res WriteRes
write_res_of (write_res m) = ok m
write_res_of _ = err (str "panic")

unfoldable pub read_res_of : Msg → Res ReadRes
read_res_of (read_res m) = ok m
read_res_of _ = err (str "panic")

unfoldable pub stat_res_of : Msg → Res StatRes
stat_res_of (stat_res m) = ok m
stat_res_of _ = err (str "panic")

unfoldable pub create_res_of : Msg → Res CreateRes
create_res_of (create_res m) = ok m
create_res_of _ = err (str "panic")

unfoldable pub hash_res_of : Msg → Res HashRes
hash_res_of (hash_res m) = ok m
hash_res_of _ = err (str "panic")

unfoldable pub read_dir_res_of : Msg → Res ReadDirRes
read_dir_res_of (read_dir_res m) = ok m
read_dir_res_of _ = err (str "panic")

abbrev pub narrow {ℓ} : {A : Type ℓ} → (Msg → Res A) → Res (Msg × Bytes) → Res (A × Bytes)
narrow f (err e) = err e
narrow f (ok (m, payload)) = elim (f m) [ ok a ↦ ok (a, payload) | err e ↦ err e ]

module _ (r : Remote) where
  open r use {State, call}

  -- A client with what it is connected to.
  pub record Caller : Type 0 where
    pub client : Client
    pub state : State

  abbrev finish {ℓ} :
      {A : Type ℓ} → (Msg → Res A) → Client → Res (Msg × Bytes) × State → Res (A × Bytes) × Caller
  finish f cc (answer, s) = (narrow f answer, record { client = cc; state = s })

  unfoldable pub call_create : Str → ℤ → ℕ → Caller → Res (CreateRes × Bytes) × Caller
  unfolding create_res_of
  call_create target size mode c =
      let (req, cc) = create_request c.client target size mode in
      finish create_res_of cc (call req [] c.state)

  abbrev send_write : Caller → Res (WriteReq × Bytes × Client) → Res (WriteRes × Bytes) × Caller
  send_write c (err e) = (err e, c)
  send_write c (ok (req, sent, cc)) = finish write_res_of cc (call (write_req req) sent c.state)

  unfoldable pub call_write :
      Gzip → SecretBox → Res Bytes → Str → ℤ → Bytes → ℕ → Caller → Res (WriteRes × Bytes) × Caller
  unfolding write_res_of
  call_write z b nonce target off payload algo c =
      send_write c (write_request z b nonce c.client target off payload algo)

  unfoldable pub call_read : Str → ℤ → ℤ → ℕ → Caller → Res (ReadRes × Bytes) × Caller
  unfolding read_res_of
  call_read target off size algo c =
      let (req, cc) = read_request c.client target off size algo in
      finish read_res_of cc (call (read_req req) [] c.state)

  unfoldable pub call_stat : Str → Caller → Res (StatRes × Bytes) × Caller
  unfolding stat_res_of
  call_stat target c =
      let (req, cc) = stat_request c.client target in finish stat_res_of cc (call req [] c.state)

  unfoldable pub call_read_dir : Str → Caller → Res (ReadDirRes × Bytes) × Caller
  unfolding read_dir_res_of
  call_read_dir target c =
      let (req, cc) = read_dir_request c.client target in
      finish read_dir_res_of cc (call req [] c.state)

  unfoldable pub call_hash : Str → Caller → Res (HashRes × Bytes) × Caller
  unfolding hash_res_of
  call_hash target c =
      let (req, cc) = hash_request c.client target in finish hash_res_of cc (call req [] c.state)

-- The workers of serve.go behind a connection.
abbrev pub answer_of : Reaction → Res (Msg × Bytes)
answer_of (answered m payload closes) = ok (m, payload)
answer_of silent = err (str "no answer")
answer_of crashed = err (str "connection closed")

abbrev pub served : (ssh : Ssh) (accounts : Accounts) (h : Host) → ℕ → Remote
served ssh accounts h conn = record {
  State = Server ssh accounts h;
  call = λ m payload s.
      let (reaction, s') = process ssh accounts h (err []) [] s conn m payload in
      (answer_of reaction, s');
}
