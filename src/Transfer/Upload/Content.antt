-- ===== src/Transfer/Upload/Content.antt =====
-- uploadFileChunk of cp_to_host.go against the server of serve.go: what it makes of the files.
use gcp.Base.{ℕ, ℤ, zero, suc, pos, ◌≡◌, refl, sym, subst, ◌∙◌, inl, inr, Bytes, Str, length}
use gcp.Base.Result.{Res, ok, err, Res-cases}
use gcp.Message.Types.{WriteReq}
use gcp.Transfer.Chunk.{Gzip, SecretBox, Inverts, Opens, nonce_size}
use gcp.Transfer.Upload.{
  attempts, read_exactly, judge_write, attempt_write, write_rounds, upload_file_chunk,
}
use gcp.Client.Rpc.{Client, write_request}
use gcp.Client.Rpc.Chunks.{unpack-write_request}
use gcp.Client.Remote.{Remote, Caller, served, answer_of, narrow, write_res_of, call_write}
use gcp.Server.Users.{Ssh, Accounts}
use gcp.Server.Auth.{ConnAuth}
use gcp.Server.Cache.Content.{IsFileSystem}
use gcp.Server.Files.{Host, sandbox_path, unpack, write}
use gcp.Server.Files.Content.{Touches, Stored, write-Touches, write_stores}
use gcp.Server.Dispatch.{reaction}
use gcp.Transfer.Upload.Parts.{
  write_request_fields, Ready, Writes, process-write, Writes-refl, Writes-trans,
  judge_write-Success,
}

upload_file_chunk_rounds :
    (r : Remote) (z : Gzip) (b : SecretBox) (nonce : ℕ → Res Bytes) (src buf : Bytes) (target : Str)
    (off size : ℕ) (retries : ℤ) (algo : ℕ) (c : Caller r)
    → read_exactly src off size ≡ ok buf
    → upload_file_chunk r z b nonce src target off size retries algo c
      ≡ write_rounds r z b nonce (attempts retries) 0 (ok tt) target off buf algo c
unfolding upload_file_chunk
upload_file_chunk_rounds r z b nonce src buf target off size retries algo c e =
    rw (e, upload_file_chunk) refl

module _ (ssh : Ssh) (accounts : Accounts) (h : Host) (fs : IsFileSystem h.os) (conn : ℕ)
    (ca : ConnAuth) (inv : Inverts h.gzip) (opens : Opens h.box) (nonce : ℕ → Res Bytes)
    (rand_works : (k : ℕ) → (n : Bytes) × (nonce k ≡ ok n) × (length n ≡ nonce_size)) where
  -- The server's part in an attempt.
  abbrev after :
      Caller (served ssh accounts h conn)
      → WriteReq
      → Bytes
      → Client
      → Caller (served ssh accounts h conn)
  after c req sent cc' = record {
    client = cc';
    state = record c.state { disk = (write h req sent ca c.state.disk).1 };
  }

  sent_Writes :
      (k : ℕ) (target : Str) (off : ℕ) (buf : Bytes) (algo : ℕ)
      (c : Caller (served ssh accounts h conn)) (req : WriteReq) (sent : Bytes) (cc' : Client)
      → Ready ssh accounts h fs conn ca c
      → write_request h.gzip h.box (nonce k) c.client target (pos off) buf algo
        ≡ ok (req, sent, cc')
      → Writes ssh accounts h fs conn ca (sandbox_path ca target) off buf c (after c req sent cc')
        × (judge_write
                (narrow write_res_of (answer_of (reaction (write h req sent ca c.state.disk).0)))
              ≡ ok tt
            → Stored h fs (sandbox_path ca target) off buf (after c req sent cc').state.disk)
  sent_Writes k target off buf algo c req sent cc' ready e =
      let (path_is, offset_is, key_is) =
        write_request_fields h.gzip h.box (nonce k) c.client cc' target sent buf (pos off) algo req
          e in
      let (n, works, len) = rand_works k in
      let unpacked : unpack h req sent ca ≡ ok buf =
        unpack-write_request h inv opens c.client cc' ca n buf sent target (pos off) algo req len
          ready.same_key
          (subst
            (λ x.
              write_request h.gzip h.box x c.client target (pos off) buf algo ≡ ok (req, sent, cc'))
            works e) in
      let d' = (write h req sent ca c.state.disk).1 in
      let t : Touches h fs (sandbox_path ca target) off buf c.state.disk d' =
        subst (λ p. Touches h fs (sandbox_path ca p) off buf c.state.disk d') path_is
          (write-Touches h fs req sent buf ca off c.state.disk offset_is unpacked ready.names) in
      (
        record {
          ready = record {
            known = ready.known;
            is_ok = ready.is_ok;
            same_key = ready.same_key ∙ sym key_is;
            names = t.names;
          };
          touches = t;
        },
        λ good.
            subst (λ p. Stored h fs (sandbox_path ca p) off buf d') path_is
              (write_stores h fs req sent buf ca off c.state.disk offset_is unpacked ready.names (
                judge_write-Success ssh accounts h fs conn ca (write h req sent ca c.state.disk).0
                  good)),
      )

  attempt_write-Writes :
      (k : ℕ) (target : Str) (off : ℕ) (buf : Bytes) (algo : ℕ)
      (c : Caller (served ssh accounts h conn))
      → Ready ssh accounts h fs conn ca c
      → let (res, c') =
          attempt_write (served ssh accounts h conn) h.gzip h.box nonce k target off buf algo c in
        Writes ssh accounts h fs conn ca (sandbox_path ca target) off buf c c'
        × (res ≡ ok tt → Stored h fs (sandbox_path ca target) off buf c'.state.disk)
  unfolding attempt_write call_write
  attempt_write-Writes k target off buf algo c ready =
      elim (Res-cases (write_request h.gzip h.box (nonce k) c.client target (pos off) buf algo)) [
        | inr (text, e) ↦ rw e (
          Writes-refl ssh accounts h fs conn ca (sandbox_path ca target) off buf c ready,
          λ q. cc,
        )
        | inl ((req, sent, cc'), e) ↦
            rw (e, process-write ssh accounts h fs conn ca c.state req sent ready.known ready.is_ok)
              (sent_Writes k target off buf algo c req sent cc' ready e)
      ]

  -- What an upload of `buf` comes to: no other byte changes, and success means that it is stored.
  abbrev pub Uploads :
      Str
      → ℕ
      → Bytes
      → Caller (served ssh accounts h conn)
      → Res (Unit {0}) × Caller (served ssh accounts h conn)
      → Type 0
  Uploads target off buf c r =
      Writes ssh accounts h fs conn ca (sandbox_path ca target) off buf c r.1
      × (r.0 ≡ ok tt → Stored h fs (sandbox_path ca target) off buf r.1.state.disk)

  Uploads-after :
      (target : Str) (off : ℕ) (buf : Bytes) (a b : Caller (served ssh accounts h conn))
      (r : Res (Unit {0}) × Caller (served ssh accounts h conn))
      → Writes ssh accounts h fs conn ca (sandbox_path ca target) off buf a b
      → Uploads target off buf b r
      → Uploads target off buf a r
  Uploads-after target off buf a b r w (w', s) =
      (Writes-trans ssh accounts h fs conn ca (sandbox_path ca target) off buf a b r.1 w w', s)

  -- One more round before others.
  round-Uploads :
      (n k : ℕ) (last : Res (Unit {0})) (target : Str) (off : ℕ) (buf : Bytes) (algo : ℕ)
      (c : Caller (served ssh accounts h conn))
      → Ready ssh accounts h fs conn ca c
      → ((text : Str) (b : Caller (served ssh accounts h conn))
          → Ready ssh accounts h fs conn ca b
          → Uploads target off buf b (
              write_rounds
                (served ssh accounts h conn)
                h.gzip
                h.box
                nonce
                n
                (suc k)
                (err text)
                target
                off
                buf
                algo
                b))
      → Uploads target off buf c (
          write_rounds
            (served ssh accounts h conn)
            h.gzip
            h.box
            nonce
            (suc n)
            k
            last
            target
            off
            buf
            algo
            c)
  unfolding write_rounds
  round-Uploads n k last target off buf algo c ready rest =
      let (w, stored) = attempt_write-Writes k target off buf algo c ready in
      let c' =
        (attempt_write (served ssh accounts h conn) h.gzip h.box nonce k target off buf algo c).1 in
      elim (Res-cases
        (attempt_write (served ssh accounts h conn) h.gzip h.box nonce k target off buf algo c).0) [
          | inl (done, e) ↦ rw (e, write_rounds) (w, λ q. stored e)
          | inr (text, e) ↦
              rw (e, write_rounds) (Uploads-after target off buf c c' _ w (rest text c' w.ready))
        ]

  rounds-Uploads :
      (n k : ℕ) (text target : Str) (off : ℕ) (buf : Bytes) (algo : ℕ)
      (c : Caller (served ssh accounts h conn))
      → Ready ssh accounts h fs conn ca c
      → Uploads target off buf c (
          write_rounds
            (served ssh accounts h conn)
            h.gzip
            h.box
            nonce
            n
            k
            (err text)
            target
            off
            buf
            algo
            c)
  unfolding write_rounds
  rounds-Uploads zero k text target off buf algo c ready =
      (Writes-refl ssh accounts h fs conn ca (sandbox_path ca target) off buf c ready, λ q. cc)
  rounds-Uploads (suc n) k text target off buf algo c ready =
      round-Uploads n k (err text) target off buf algo c ready
        (λ t b ready'. rounds-Uploads n (suc k) t target off buf algo b ready')

  -- An upload of a chunk by an authenticated client, to the server that it is authenticated to,
  -- changes no byte of any file but those of the chunk, whatever fails and however often it
  -- tries again; and if it succeeds, with a number of retries that is not negative, the file has
  -- the bytes of the source there. The client stays authenticated.
  pub upload_file_chunk-Uploads :
      (src buf : Bytes) (target : Str) (off size retries algo : ℕ)
      (c : Caller (served ssh accounts h conn))
      → Ready ssh accounts h fs conn ca c
      → read_exactly src off size ≡ ok buf
      → Uploads target off buf c (
          upload_file_chunk
            (served ssh accounts h conn)
            h.gzip
            h.box
            nonce
            src
            target
            off
            size
            (pos retries)
            algo
            c)
  upload_file_chunk-Uploads src buf target off size retries algo c ready e =
      subst (Uploads target off buf c)
        (sym (
          upload_file_chunk_rounds (served ssh accounts h conn) h.gzip h.box nonce src buf target
            off size (pos retries) algo c e))
        (round-Uploads retries 0 (ok tt) target off buf algo c ready
          (λ t b ready'. rounds-Uploads retries 1 t target off buf algo b ready'))
