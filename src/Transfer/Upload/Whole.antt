-- ===== src/Transfer/Upload/Whole.antt =====
-- uploadFile of cp_to_host.go against the server of serve.go.
use gcp.Base.{
  ℕ, pos, ◌<◌, ◌≡◌, sym, subst, ap, ◌∙◌, inl, inr, Bool, true, false, Bytes, List, Option, some,
  length, if◌then◌else◌, arith, Bool-cases,
}
use gcp.Base.Result.{Res, ok}
use gcp.Base.Exec.{Exec, pure, ◌>>◌, success_then}
use gcp.Transfer.Chunk.{Inverts, Opens, nonce_size}
use gcp.Transfer.Resume.{ResumeState, is_completed}
use gcp.Transfer.Schedule.{Chunk, process_chunks}
use gcp.Transfer.Schedule.Tiles.{Tiles, process_chunks-Tiles}
use gcp.Transfer.Schedule.Upload.{In, Within, covered}
use gcp.Transfer.Upload.{Source, remaining, run_plan, prepare, verify_file_hash, upload_file}
use gcp.Transfer.Upload.Parts.{Ready}
use gcp.Client.Remote.{served}
use gcp.Server.Users.{Ssh, Accounts}
use gcp.Server.Auth.{ConnAuth}
use gcp.Server.Cache.Content.{IsFileSystem}
use gcp.Server.Files.{Host}
use gcp.Transfer.Upload.Sends.{
  Copier, Right, In-remaining, prepare-Ready, verify-Right, upload_chunks-Sends,
}

module _ (ssh : Ssh) (accounts : Accounts) (h : Host) (fs : IsFileSystem h.os) (conn : ℕ)
    (ca : ConnAuth) (inv : Inverts h.gzip) (opens : Opens h.box) (nonces : ℕ → ℕ → Res Bytes)
    (rand_works : (off k : ℕ) → (n : Bytes) × (nonces off k ≡ ok n) × (length n ≡ nonce_size)) where
  module _ (state : Option ResumeState) (src : Source) (chunk_size fuel retries algo : ℕ)
      (order : List Chunk → List Chunk) (plan : List Chunk)
      (planned : process_chunks (is_completed state) chunk_size fuel (length src.bytes) 0
        ≡ some plan)
      (all : (x : Chunk) (xs : List Chunk) → In x xs → In x (order xs)) where
    -- The transfer proper.
    abbrev send_all :
        (Copier ssh accounts h fs conn ca) → Res (Unit {0}) × (Copier ssh accounts h fs conn ca)
    send_all c =
        run_plan (served ssh accounts h conn) h.gzip h.box nonces src (pos retries) algo order
          (process_chunks (is_completed state) chunk_size fuel (length src.bytes) 0) c

    -- Every byte is right if those of the skipped chunks were.
    run-Right :
        (c : (Copier ssh accounts h fs conn ca)) (i : ℕ)
        → 0 < chunk_size
        → length src.bytes < fuel
        → Ready ssh accounts h fs conn ca c
        → ((x : Chunk) (j : ℕ)
            → In x plan
            → x.skipped ≡ true
            → Within j x
            → Right ssh accounts h fs conn ca src c j)
        → (send_all c).0 ≡ ok tt
        → i < length src.bytes
        → Ready ssh accounts h fs conn ca (send_all c).1
          × Right ssh accounts h fs conn ca src (send_all c).1 i
    unfolding run_plan
    run-Right c i some_byte enough ready old done high =
        let (cs, made, tiles) =
          process_chunks-Tiles (is_completed state) chunk_size fuel (length src.bytes) 0 some_byte
            (omega arith) enough in
        let same : cs ≡ plan = ground (arith, made, planned) in
        let (x, there, inside) =
          covered (is_completed state) chunk_size 0 (length src.bytes) plan i
            (subst (λ p. Tiles (is_completed state) chunk_size 0 (length src.bytes) p) same tiles)
            (omega arith) high in
        let s =
          upload_chunks-Sends ssh accounts h fs conn ca inv opens nonces rand_works src retries algo
            (order (remaining plan)) c ready (rw (planned, run_plan) at done) in
        rw (planned, run_plan)
          (
            s.ready,
            elim (Bool-cases x.skipped) [
              | inl k ↦ s.keeps i (old x i there k inside)
              | inr k ↦ s.writes x i (all x (remaining plan) (In-remaining x plan there k)) inside
            ],
          )

    finish-Right :
        (use_sha256 : Bool) (c : (Copier ssh accounts h fs conn ca)) (i : ℕ)
        → Ready ssh accounts h fs conn ca c
        → Right ssh accounts h fs conn ca src c i
        → Right ssh accounts h fs conn ca src
            ((if use_sha256
                then verify_file_hash (served ssh accounts h conn) src.target src.sha256
                else pure tt)
              c).1
            i
    finish-Right true c i ready right = verify-Right ssh accounts h fs conn ca src c i ready right
    finish-Right false c i ready right = right

  -- An upload that succeeds, by an authenticated client to the server that it is authenticated
  -- to, with a chunk size and a number of retries in range, whatever failed on the way and in
  -- whatever order its chunks were sent, leaves every byte of the source at its place in the
  -- target, if those of the chunks that the resume state skips were there when it began to send.
  pub upload_file_complete :
      (state : Option ResumeState) (src : Source) (chunk_size fuel retries algo : ℕ)
      (use_sha256 : Bool) (order : List Chunk → List Chunk) (plan : List Chunk)
      (c : (Copier ssh accounts h fs conn ca))
      → process_chunks (is_completed state) chunk_size fuel (length src.bytes) 0 ≡ some plan
      → ((x : Chunk) (xs : List Chunk) → In x xs → In x (order xs))
      → 0 < chunk_size
      → length src.bytes < fuel
      → Ready ssh accounts h fs conn ca c
      → ((x : Chunk) (j : ℕ)
          → In x plan
          → x.skipped ≡ true
          → Within j x
          → Right ssh accounts h fs conn ca src
              (prepare (served ssh accounts h conn) state src c).1
              j)
      → (upload_file
          (served ssh accounts h conn)
          h.gzip
          h.box
          nonces
          state
          src
          chunk_size
          fuel
          (pos retries)
          use_sha256
          algo
          order
          c).0
        ≡ ok tt
      → (i : ℕ) → i < length src.bytes
      → Right ssh accounts h fs conn ca src
          (upload_file
            (served ssh accounts h conn)
            h.gzip
            h.box
            nonces
            state
            src
            chunk_size
            fuel
            (pos retries)
            use_sha256
            algo
            order
            c).1
          i
  unfolding upload_file
  upload_file_complete state src chunk_size fuel retries algo use_sha256 order plan c planned all
        some_byte enough ready old done i high =
      let remote = served ssh accounts h conn in
      let last : Exec (Copier ssh accounts h fs conn ca) (Unit {0}) =
        if use_sha256 then verify_file_hash remote src.target src.sha256 else pure tt in
      let (a, ok_a, is_a) =
        success_then (prepare remote state src)
          (send_all state src chunk_size fuel retries algo order plan planned all >> last) c tt
          done in
      let c1 = (prepare remote state src c).1 in
      let (b, ok_b, is_b) =
        success_then (send_all state src chunk_size fuel retries algo order plan planned all) last
          c1 tt
          (ap (λ (r : Res (Unit {0}) × (Copier ssh accounts h fs conn ca)). r.0) (sym is_a)
            ∙ done) in
      let (ready', right) =
        run-Right state src chunk_size fuel retries algo order plan planned all c1 i some_byte
          enough (prepare-Ready ssh accounts h fs conn ca state src c ready) old ok_b high in
      subst
        (λ (r : Res (Unit {0}) × (Copier ssh accounts h fs conn ca)).
          Right ssh accounts h fs conn ca src r.1 i)
        (sym (is_a ∙ is_b))
        (finish-Right state src chunk_size fuel retries algo order plan planned all use_sha256 _ i
          ready' right)
