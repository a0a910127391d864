-- ===== src/Transfer/Upload/Sends.antt =====
-- The chunks that uploadFile of cp_to_host.go sends, and its other requests, against the server of serve.go.
use gcp.Base.{
  ℕ, pos, ◌+◌, ◌≤◌, ◌≡◌, refl, sym, subst, ap, ◌∙◌, inl, inr, false, Bytes, List, [], ◌∷◌, Option,
  none, some, length, take, drop, ltb, if◌then◌else◌, arith, Bool-cases, get_or,
}
use gcp.Base.Result.{Res, ok, err, Res-cases}
use gcp.Base.Dict.{lookup}
use gcp.Message.Types.{CreateReq, HashReq, create_req, hash_req}
use gcp.Transfer.Chunk.{Inverts, Opens, nonce_size}
use gcp.Transfer.Resume.{ResumeState}
use gcp.Transfer.Schedule.{Chunk}
use gcp.Transfer.Schedule.Upload.{In, Within, length-chunk, byte-chunk}
use gcp.Transfer.Upload.{
  Source, read_exactly, upload_file_chunk, upload_chunks, remaining, prepare, verify_file_hash,
}
use gcp.Transfer.Upload.Content.{upload_file_chunk-Uploads}
use gcp.Transfer.Upload.Parts.{Ready}
use gcp.Client.Rpc.{create_request, hash_request, gen_msg_id}
use gcp.Client.Remote.{Caller, served, call_create, call_hash}
use gcp.Server.Users.{Ssh, Accounts}
use gcp.Server.Auth.{ConnAuth, auth_ok, get_conn_auth}
use gcp.Server.Cache.Content.{IsFileSystem, within}
use gcp.Server.Files.{Host, sandbox_path, create, hash}
use gcp.Server.Files.Content.{Stored, files-create, hash-Unchanged}
use gcp.Server.Dispatch.Answers.{allowed_ok}
use gcp.Server.Dispatch.{Server, process, allowed, serve_other, serve_request, on_disk}

pub read_exactly_ok :
    (src buf : Bytes) (off size : ℕ)
    → read_exactly src off size ≡ ok buf
    → (off + size ≤ length src) × (buf ≡ take size (drop off src))
unfolding read_exactly
read_exactly_ok src buf off size e = elim (Bool-cases (ltb (length src) (off + size))) [
  | inl k ↦ absurd (ground (arith, e, k))
  | inr k ↦ (ground (arith, k), ground (arith, e, k))
]

pub In-remaining : (x : Chunk) (xs : List Chunk) → In x xs → x.skipped ≡ false → In x (remaining xs)
unfolding remaining
In-remaining x [] there fresh = absurd there
In-remaining x (y ∷ xs) (inl same) fresh =
    let k : y.skipped ≡ false = ap (λ (c : Chunk). c.skipped) same ∙ fresh in
    subst (λ b. In x (if b then remaining xs else y ∷ remaining xs)) (sym k) (inl same)
In-remaining x (y ∷ xs) (inr there) fresh = elim (Bool-cases y.skipped) [
  | inl k ↦
      subst (λ b. In x (if b then remaining xs else y ∷ remaining xs)) (sym k)
        (In-remaining x xs there fresh)
  | inr k ↦
      subst (λ b. In x (if b then remaining xs else y ∷ remaining xs)) (sym k)
        (inr (In-remaining x xs there fresh))
]

module _ (ssh : Ssh) (accounts : Accounts) (h : Host) (fs : IsFileSystem h.os) (conn : ℕ)
    (ca : ConnAuth) where
  abbrev pub Copier : Type 0
  Copier = Caller (served ssh accounts h conn)

  -- The target of the upload has the byte `i` of the source.
  abbrev pub Right : Source → Copier → ℕ → Type 0
  Right src c i =
      fs.byte_at c.state.disk.world (sandbox_path ca src.target) i ≡ get_or src.bytes i 0

  process-create :
      (s : Server ssh accounts h) (req : CreateReq)
      → s.auth.conns conn ≡ some ca
      → ca.state ≡ auth_ok
      → process ssh accounts h (err []) [] s conn (create_req req) []
        ≡ on_disk ssh accounts h (create h req ca) s
  unfolding process serve_other get_conn_auth allowed serve_request
  process-create s req e k = rw (allowed_ok (s.auth.conns conn) ca e k, serve_other) refl

  process-hash :
      (s : Server ssh accounts h) (req : HashReq)
      → s.auth.conns conn ≡ some ca
      → ca.state ≡ auth_ok
      → process ssh accounts h (err []) [] s conn (hash_req req) []
        ≡ on_disk ssh accounts h (hash h req ca) s
  unfolding process serve_other get_conn_auth allowed serve_request
  process-hash s req e k = rw (allowed_ok (s.auth.conns conn) ca e k, serve_other) refl

  pub prepare-Ready :
      (state : Option ResumeState) (src : Source) (c : Copier)
      → Ready ssh accounts h fs conn ca c
      → Ready ssh accounts h fs conn ca (prepare (served ssh accounts h conn) state src c).1
  unfolding prepare call_create create_request gen_msg_id
  prepare-Ready (some state) src c ready = ready
  prepare-Ready none src c ready = rw (process-create c.state _ ready.known ready.is_ok) (record {
    known = ready.known;
    is_ok = ready.is_ok;
    same_key = ready.same_key;
    names =
        λ q e k. ready.names q e (ap (lookup q) (sym (files-create h fs _ ca c.state.disk)) ∙ k);
  })

  pub verify-Right :
      (src : Source) (c : Copier) (i : ℕ)
      → Ready ssh accounts h fs conn ca c
      → Right src c i
      → Right src (verify_file_hash (served ssh accounts h conn) src.target src.sha256 c).1 i
  unfolding verify_file_hash call_hash hash_request gen_msg_id
  verify-Right src c i ready right =
      rw (process-hash c.state _ ready.known ready.is_ok)
        (hash-Unchanged h fs _ ca c.state.disk (sandbox_path ca src.target) i ∙ right)

  module _ (inv : Inverts h.gzip) (opens : Opens h.box) (nonces : ℕ → ℕ → Res Bytes)
      (rand_works : (off k : ℕ)
        → (n : Bytes) × (nonces off k ≡ ok n) × (length n ≡ nonce_size)) where
    abbrev pub chunks_sent : Source → ℕ → ℕ → List Chunk → Copier → Res (Unit {0}) × Copier
    chunks_sent src retries algo xs c =
        upload_chunks (served ssh accounts h conn) h.gzip h.box nonces src (pos retries) algo xs c

    abbrev pub chunk_sent : Source → ℕ → ℕ → Chunk → Copier → Res (Unit {0}) × Copier
    chunk_sent src retries algo x c =
        upload_file_chunk (served ssh accounts h conn) h.gzip h.box (nonces x.offset) src.bytes
          src.target x.offset x.size (pos retries) algo c

    -- A chunk is sent between two points: what was right stays so, and it is right.
    pub record SendsOne (src : Source) (x : Chunk) (c c' : Copier) : Type 0 where
      pub ready : Ready ssh accounts h fs conn ca c'
      pub keeps : (i : ℕ) → Right src c i → Right src c' i
      pub writes : (i : ℕ) → Within i x → Right src c' i

    -- Chunks are sent between two points: the same for each of them.
    pub record Sends (src : Source) (xs : List Chunk) (c c' : Copier) : Type 0 where
      pub ready : Ready ssh accounts h fs conn ca c'
      pub keeps : (i : ℕ) → Right src c i → Right src c' i
      pub writes : (x : Chunk) (i : ℕ) → In x xs → Within i x → Right src c' i

    byte_sent :
        (src : Source) (x : Chunk) (c c' : Copier) (i : ℕ)
        → x.offset + x.size ≤ length src.bytes
        → Stored h fs
            (sandbox_path ca src.target)
            x.offset
            (take x.size (drop x.offset src.bytes))
            c'.state.disk
        → Within i x
        → Right src c' i
    byte_sent src x c c' i inside stored w =
        stored i (rw (length-chunk src.bytes x inside) (ground (arith, w)))
        ∙ byte-chunk src.bytes x i w

    chunk_read :
        (src : Source) (retries algo : ℕ) (x : Chunk) (c : Copier)
        → (chunk_sent src retries algo x c).0 ≡ ok tt
        → (buf : Bytes) × (read_exactly src.bytes x.offset x.size ≡ ok buf)
    unfolding upload_file_chunk
    chunk_read src retries algo x c done =
        elim (Res-cases (read_exactly src.bytes x.offset x.size)) [
          | inr (text, e) ↦ absurd (cc (rw (e, upload_file_chunk) at done))
          | inl (buf, e) ↦ (buf, e)
        ]

    pub chunk-SendsOne :
        (src : Source) (retries algo : ℕ) (x : Chunk) (c : Copier)
        → Ready ssh accounts h fs conn ca c
        → (chunk_sent src retries algo x c).0 ≡ ok tt
        → SendsOne src x c (chunk_sent src retries algo x c).1
    chunk-SendsOne src retries algo x c ready done =
        let path = sandbox_path ca src.target in
        let (buf, e) = chunk_read src retries algo x c done in
        let (inside, same) = read_exactly_ok src.bytes buf x.offset x.size e in
        let (w, stored) =
          upload_file_chunk-Uploads ssh accounts h fs conn ca inv opens (nonces x.offset)
            (rand_works x.offset) src.bytes buf src.target x.offset x.size retries algo c ready e in
        let c' = (chunk_sent src retries algo x c).1 in
        let len : length buf ≡ x.size = ap length same ∙ length-chunk src.bytes x inside in
        let right_in : (i : ℕ) → Within i x → Right src c' i = λ i.
          byte_sent src x c c' i inside
            (subst (λ b. Stored h fs path x.offset b c'.state.disk) same (stored done)) in
        record {
          ready = w.ready;
          keeps = λ i right. elim (Bool-cases (within x.offset (length buf) i)) [
            | inl k ↦ right_in i (ground (arith, k, len), ground (arith, k, len))
            | inr k ↦ w.touches.outside path i (ground (arith, k)) ∙ right
          ];
          writes = right_in;
        }

    Sends-cons :
        (src : Source) (x : Chunk) (xs : List Chunk) (a b c : Copier)
        → SendsOne src x a b
        → Sends src xs b c
        → Sends src (x ∷ xs) a c
    Sends-cons src x xs a b c s t = record {
      ready = t.ready;
      keeps = λ i right. t.keeps i (s.keeps i right);
      writes = λ y i there w. elim there [
        | inl same ↦ t.keeps i (s.writes i (subst (Within i) (sym same) w))
        | inr later ↦ t.writes y i later w
      ];
    }

    pub upload_chunks-Sends :
        (src : Source) (retries algo : ℕ) (xs : List Chunk) (c : Copier)
        → Ready ssh accounts h fs conn ca c
        → (chunks_sent src retries algo xs c).0 ≡ ok tt
        → Sends src xs c (chunks_sent src retries algo xs c).1
    unfolding upload_chunks
    upload_chunks-Sends src retries algo [] c ready done = record {
      ready = ready;
      keeps = λ i right. right;
      writes = λ y i there w. absurd there;
    }
    upload_chunks-Sends src retries algo (x ∷ xs) c ready done =
        elim (Res-cases (chunk_sent src retries algo x c).0) [
          | inr (text, e) ↦ absurd (cc (rw (e, upload_chunks) at done))
          | inl (sent, e) ↦
              let c' = (chunk_sent src retries algo x c).1 in
              let s = chunk-SendsOne src retries algo x c ready e in
              rw (e, upload_chunks)
                (Sends-cons src x xs c c' _ s (
                  upload_chunks-Sends src retries algo xs c' s.ready
                    (rw (e, upload_chunks) at done)))
        ]
