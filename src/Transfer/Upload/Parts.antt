-- ===== src/Transfer/Upload/Parts.antt =====
-- A client of cp_to_host.go that the server of serve.go knows, and a write between the two.
use gcp.Base.{ℕ, ℤ, ◌≡◌, refl, ◌∙◌, inl, inr, Bytes, Str, [], some, arith, Bool-cases}
use gcp.Base.Result.{Res, ok, err, Res-cases}
use gcp.Message.Types.{WriteReq, write_req, write_res}
use gcp.Transfer.Chunk.{Gzip, SecretBox}
use gcp.Transfer.Upload.{judge_write}
use gcp.Client.Rpc.{Client, seal_chunk, write_request, gen_msg_id}
use gcp.Client.Remote.{Caller, served, answer_of, narrow, write_res_of}
use gcp.Server.Users.{Ssh, Accounts}
use gcp.Server.Auth.{ConnAuth, auth_ok, get_conn_auth}
use gcp.Server.Cache.Content.{IsFileSystem, Named}
use gcp.Server.Files.{Host, Reply, replied, panicked, write}
use gcp.Server.Files.Content.{Touches, Success}
use gcp.Server.Dispatch.Answers.{allowed_ok}
use gcp.Server.Dispatch.{Server, process, allowed, serve_other, serve_request, on_disk, reaction}

pub write_request_fields :
    (z : Gzip) (b : SecretBox) (nonce : Res Bytes) (cc cc' : Client) (target sent payload : Bytes)
    (off : ℤ) (algo : ℕ) (req : WriteReq)
    → write_request z b nonce cc target off payload algo ≡ ok (req, sent, cc')
    → (req.path ≡ target) × (req.offset ≡ off) × (cc'.encryption_key ≡ cc.encryption_key)
unfolding write_request gen_msg_id
write_request_fields z b nonce cc cc' target sent payload off algo req e =
    elim (Res-cases (seal_chunk z b nonce cc payload algo)) [
      | inl ((s, u, k), q) ↦ ground arith
      | inr (text, q) ↦ absurd (ground arith)
    ]

module _ (ssh : Ssh) (accounts : Accounts) (h : Host) (fs : IsFileSystem h.os) (conn : ℕ)
    (ca : ConnAuth) where
  -- The client is authenticated on its connection, and has the key of the server.
  pub record Ready (c : Caller (served ssh accounts h conn)) : Type 0 where
    pub known : c.state.auth.conns conn ≡ some ca
    pub is_ok : ca.state ≡ auth_ok
    pub same_key : ca.encryption_key ≡ c.client.encryption_key
    pub names : Named h.os fs c.state.disk

  pub process-write :
      (s : Server ssh accounts h) (req : WriteReq) (sent : Bytes)
      → s.auth.conns conn ≡ some ca
      → ca.state ≡ auth_ok
      → process ssh accounts h (err []) [] s conn (write_req req) sent
        ≡ on_disk ssh accounts h (write h req sent ca) s
  unfolding process serve_other get_conn_auth allowed serve_request
  process-write s req sent e k = rw (allowed_ok (s.auth.conns conn) ca e k, serve_other) refl

  -- The writes of `buf` at an offset of a file are all that happens to the files between two
  -- points, and the client stays ready.
  pub record Writes (path : Str) (off : ℕ) (buf : Bytes)
      (c c' : Caller (served ssh accounts h conn)) : Type 0 where
    pub ready : Ready c'
    pub touches : Touches h fs path off buf c.state.disk c'.state.disk

  pub Writes-refl :
      (path : Str) (off : ℕ) (buf : Bytes) (c : Caller (served ssh accounts h conn))
      → Ready c
      → Writes path off buf c c
  Writes-refl path off buf c ready = record {
    ready = ready;
    touches = record { names = ready.names; outside = λ q i k. refl };
  }

  pub Writes-trans :
      (path : Str) (off : ℕ) (buf : Bytes) (a b c : Caller (served ssh accounts h conn))
      → Writes path off buf a b
      → Writes path off buf b c
      → Writes path off buf a c
  Writes-trans path off buf a b c x y = record {
    ready = y.ready;
    touches = record {
      names = y.touches.names;
      outside = λ q i k. y.touches.outside q i k ∙ x.touches.outside q i k;
    };
  }

  pub judge_write-Success :
      (r : Reply)
      → judge_write (narrow write_res_of (answer_of (reaction r))) ≡ ok tt
      → Success h fs r
  unfolding judge_write write_res_of
  judge_write-Success (replied (write_res m) p) e = elim (Bool-cases m.success) [
    | inl k ↦ k
    | inr k ↦ absurd (ground (arith, e, k))
  ]
  judge_write-Success (replied _ p) e = cc
  judge_write-Success panicked e = cc
