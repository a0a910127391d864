-- ===== src/Transfer/Download/Fetch.antt =====
-- What comes of the read requests of downloadFile in cp_from_host.go, against the server of serve.go.
use gcp.Base.{
  ℕ, zero, suc, pos, ◌+◌, ◌<◌, ◌≤◌, ◌≡◌, refl, sym, subst, ap, ◌∙◌, inl, inr, true, Bytes, Str, [],
  some, length, get_or, arith, Bool-cases,
}
use gcp.Base.Result.{Res, ok, err, Res-cases}
use gcp.Base.Exec.{Exec}
use gcp.Message.Types.{ReadReq, ReadRes, read_req, read_res}
use gcp.Transfer.Chunk.{Inverts, Opens, nonce_size}
use gcp.Transfer.Download.{retry, judge_read, attempt_read}
use gcp.Client.Rpc.{Client, accept_chunk, open_chunk, read_request, gen_msg_id}
use gcp.Client.Rpc.Chunks.{open_chunk-pack}
use gcp.Client.Remote.{Caller, served, answer_of, narrow, read_res_of, call_read}
use gcp.Server.Users.{Ssh, Accounts}
use gcp.Server.Auth.{ConnAuth, auth_ok, get_conn_auth}
use gcp.Server.Cache.Content.{IsFileSystem, Unchanged}
use gcp.Server.Files.{Host, Reply, replied, panicked, sandbox_path, read}
use gcp.Server.Files.Reading.{
  Reads, Full, Answered, Packed, SameSizes, read-Unchanged, read-SameSizes, read-Named, read-Packed,
}
use gcp.Server.Dispatch.Answers.{allowed_ok}
use gcp.Server.Dispatch.{Server, process, allowed, serve_other, serve_request, on_disk, reaction}
use gcp.Transfer.Upload.Parts.{Ready}

accept_chunk_success :
    (client : Client) (res : ReadRes) (sent : Bytes)
    → accept_chunk client res sent ≡ ok tt
    → res.success ≡ true
unfolding accept_chunk
accept_chunk_success client res sent e = elim (Bool-cases res.success) [
  | inl k ↦ k
  | inr k ↦ absurd (ground (arith, e, k))
]

judge_read_ok :
    (client : Client) (r : Res (ReadRes × Bytes)) (res : ReadRes) (sent : Bytes)
    → judge_read client r ≡ ok (res, sent)
    → (r ≡ ok (res, sent)) × (res.success ≡ true)
unfolding judge_read
judge_read_ok client (err e) res sent k = absurd (cc k)
judge_read_ok client (ok (m, p)) res sent k = elim (Res-cases (accept_chunk client m p)) [
  | inr (text, e) ↦ absurd (cc (rw (e, judge_read) at k))
  | inl (done, e) ↦
      let same : ok (m, p) ≡ ok (res, sent) = rw (e, judge_read) at k in
      let is_res : m ≡ res = cc same in
      (same, ap (λ (x : ReadRes). x.success) (sym is_res) ∙ accept_chunk_success client m p e)
]

module _ (ssh : Ssh) (accounts : Accounts) (h : Host) (fs : IsFileSystem h.os) (reads : Reads h fs)
    (inv : Inverts h.gzip) (opens : Opens h.box) (conn : ℕ) (ca : ConnAuth) where
  abbrev pub Copier : Type 0
  Copier = Caller (served ssh accounts h conn)

  process-read :
      (s : Server ssh accounts h) (req : ReadReq)
      → s.auth.conns conn ≡ some ca
      → ca.state ≡ auth_ok
      → process ssh accounts h (err []) [] s conn (read_req req) []
        ≡ on_disk ssh accounts h (read h req ca) s
  unfolding process serve_other get_conn_auth allowed serve_request
  process-read s req e k = rw (allowed_ok (s.auth.conns conn) ca e k, serve_other) refl

  narrow-Answered :
      (r : Reply) (res : ReadRes) (sent : Bytes)
      → narrow read_res_of (answer_of (reaction r)) ≡ ok (res, sent)
      → res.success ≡ true
      → Answered h fs reads r res sent
  unfolding read_res_of
  narrow-Answered (replied (read_res m) p) res sent e good = (cc e, cc e, good)
  narrow-Answered (replied _ p) res sent e good = cc
  narrow-Answered panicked res sent e good = cc

  -- The bytes are bytes of the server's file, from an offset on; all those asked for, if they are
  -- within the file and reads are full.
  pub record IsPart (src : Str) (off size : ℕ) (c : Copier) (data' : Bytes) : Type 0 where
    pub short : length data' ≤ size
    pub some_byte : 0 < size → 0 < length data'
    pub whole :
        (l : Full h fs)
        → off + size ≤ l.size c.state.disk.world (sandbox_path ca src)
        → length data' ≡ size
    pub bytes :
        (i : ℕ)
        → i < length data'
        → get_or data' i 0 ≡ fs.byte_at c.state.disk.world (sandbox_path ca src) (off + i)

  -- What comes of reading between two points: no file of the server changes, and a response that
  -- is accepted opens to bytes of the file.
  pub record Fetches (src : Str) (off size : ℕ) (c c' : Copier) (r : Res (ReadRes × Bytes))
      : Type 0 where
    pub ready : Ready ssh accounts h fs conn ca c'
    pub same : Unchanged h.os fs c.state.disk c'.state.disk
    pub sizes : SameSizes h fs reads c.state.disk c'.state.disk
    pub opened :
        (res : ReadRes) (sent : Bytes)
        → r ≡ ok (res, sent)
        → (data' : Bytes) × (open_chunk h.gzip h.box c'.client res sent ≡ ok data')
          × IsPart src off size c data'

  module _ (nonce : Bytes) (rand_works : h.nonce ≡ ok nonce)
      (long : length nonce ≡ nonce_size) where
    attempt_read-Fetches :
        (src : Str) (off size algo : ℕ) (c : Copier)
        → Ready ssh accounts h fs conn ca c
        → let (r, c') = attempt_read (served ssh accounts h conn) src off size algo c in
          Fetches src off size c c' r
    unfolding attempt_read call_read read_request gen_msg_id
    attempt_read-Fetches src off size algo c ready =
        let (req, client) = read_request c.client src (pos off) (pos size) algo in
        rw (process-read c.state req ready.known ready.is_ok) (record {
          ready = record {
            known = ready.known;
            is_ok = ready.is_ok;
            same_key = ready.same_key;
            names = read-Named h fs reads req ca c.state.disk ready.names;
          };
          same = read-Unchanged h fs reads req ca c.state.disk;
          sizes = read-SameSizes h fs reads req ca c.state.disk;
          opened = λ res sent k.
              let (got, good) = judge_read_ok client _ res sent k in
              let p : Packed h fs reads req ca (sandbox_path ca src) off size c.state.disk.world res
                  sent =
                read-Packed h fs reads req ca c.state.disk off size res sent refl refl ready.names
                  (narrow-Answered _ res sent got good) in
              (
                p.bytes,
                open_chunk-pack h inv opens client ca nonce p.bytes sent req res res.compression
                    res.encryption rand_works long ready.same_key p.packed refl refl,
                record {
                  short = p.short;
                  some_byte = p.some_byte;
                  whole = p.whole;
                  bytes = p.same;
                },
              );
        })

    abbrev pub reading : Str → ℕ → ℕ → ℕ → Exec Copier (ReadRes × Bytes)
    reading src off size algo = attempt_read (served ssh accounts h conn) src off size algo

    Fetches-later :
        (src : Str) (off size : ℕ) (a b c : Copier) (r : Res (ReadRes × Bytes))
        → Unchanged h.os fs a.state.disk b.state.disk
        → SameSizes h fs reads a.state.disk b.state.disk
        → Fetches src off size b c r
        → Fetches src off size a c r
    Fetches-later src off size a b c r same sizes f = record {
      ready = f.ready;
      same = λ q i. f.same q i ∙ same q i;
      sizes = λ l q. f.sizes l q ∙ sizes l q;
      opened = λ res sent k.
          let path = sandbox_path ca src in
          let (data', opened, part) = f.opened res sent k in
          (
            data',
            opened,
            record {
              short = part.short;
              some_byte = part.some_byte;
              whole = λ l inside.
                  part.whole l (subst (λ n. off + size ≤ n) (sym (sizes l path)) inside);
              bytes = λ i m. part.bytes i m ∙ same path (off + i);
            },
          );
    }

    pub retry-Fetches :
        (n : ℕ) (last : Res (ReadRes × Bytes)) (src : Str) (off size algo : ℕ) (c : Copier)
        → Ready ssh accounts h fs conn ca c
        → ((res : ReadRes) (sent : Bytes) → last ≡ ok (res, sent) → ⊥)
        → let (r, c') = retry (reading src off size algo) n last c in Fetches src off size c c' r
    unfolding retry
    retry-Fetches zero last src off size algo c ready bad = record {
      ready = ready;
      same = λ q i. refl;
      sizes = λ l q. refl;
      opened = λ res sent k. absurd (bad res sent k);
    }
    retry-Fetches (suc n) last src off size algo c ready bad =
        let f = attempt_read-Fetches src off size algo c ready in
        let c' = (reading src off size algo c).1 in
        elim (Res-cases (reading src off size algo c).0) [
          | inl (a, e) ↦
              rw (e, retry)
                (record {
                  ready = f.ready;
                  same = f.same;
                  sizes = f.sizes;
                  opened = λ res sent k. f.opened res sent (e ∙ k);
                })
          | inr (text, e) ↦
              rw (e, retry)
                (Fetches-later src off size c c' _ _ f.same f.sizes (
                  retry-Fetches n (err text) src off size algo c' f.ready
                    (λ res sent k. absurd (cc k))))
        ]
