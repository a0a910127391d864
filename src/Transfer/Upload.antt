-- ===== src/Transfer/Upload.antt =====
-- cp_to_host.go: uploadFileChunk with its retries, and uploadFile. The context is never cancelled,
-- and the waits between two attempts are left out.
pub mod Parts
pub mod Content
pub mod Sends
pub mod Whole
use gcp.Base.{
  ℕ, ℤ, zero, suc, pos, negsuc, ◌+◌, ◌-◌, Bool, true, false, not, Bytes, Str, str, List, [], ◌∷◌,
  ◌++◌, Option, none, some, length, take, drop, ltb, ◌==◌, equal, if◌then◌else◌,
}
use gcp.Base.Result.{Res, ok, err}
use gcp.Base.Exec.{pure, ◌>>=◌, ◌>>◌}
use gcp.Message.Types.{WriteRes, HashRes, CreateRes}
use gcp.Transfer.Schedule.{Chunk, process_chunks}
use gcp.Transfer.Resume.{ResumeState, is_completed}
use gcp.Transfer.Chunk.{Gzip, SecretBox}
use gcp.Client.Remote.{Remote, Caller, call_write, call_hash, call_create}

-- The attempts that `for attempt := 0; attempt <= maxRetries` makes.
abbrev pub attempts : ℤ → ℕ
attempts (pos n) = suc n
attempts (negsuc n) = 0

-- ReadAt of a whole buffer: anything less is an error.
unfoldable pub read_exactly : Bytes → ℕ → ℕ → Res Bytes
read_exactly src off size =
    if ltb (length src) (off + size) then err (str "EOF") else ok (take size (drop off src))

-- The error of an attempt, from what Write returns.
unfoldable pub judge_write : Res (WriteRes × Bytes) → Res (Unit {0})
judge_write (err e) = err e
judge_write (ok (res, payload)) =
    if res.success then ok tt else err (str "remote write failed: " ++ res.error)

-- An attempt takes the nonce of its number.
module _ (r : Remote) (z : Gzip) (b : SecretBox) (nonce : ℕ → Res Bytes) where
  unfoldable pub attempt_write : ℕ → Str → ℕ → Bytes → ℕ → Caller r → Res (Unit {0}) × Caller r
  unfolding judge_write
  attempt_write k target off buf algo c =
      let (res, c') = call_write r z b (nonce k) target (pos off) buf algo c in
      (judge_write res, c')

  -- The loop, with the rounds left, the number of the attempt, and writeErr.
  unfoldable pub write_rounds :
      ℕ → ℕ → Res (Unit {0}) → Str → ℕ → Bytes → ℕ → Caller r → Res (Unit {0}) × Caller r
  write_rounds zero k write_err target off buf algo c = (write_err, c)
  write_rounds (suc n) k write_err target off buf algo c =
      let (res, c') = attempt_write k target off buf algo c in
      elim res [
        | ok done ↦ (ok tt, c')
        | err e ↦ write_rounds n (suc k) (err e) target off buf algo c'
      ]

  unfoldable pub upload_file_chunk :
      Bytes → Str → ℕ → ℕ → ℤ → ℕ → Caller r → Res (Unit {0}) × Caller r
  unfolding write_rounds
  upload_file_chunk src target off size max_retries algo c = elim (read_exactly src off size) [
    | err e ↦ (err e, c)
    | ok buf ↦ write_rounds (attempts max_retries) 0 (ok tt) target off buf algo c
  ]

-- The comparison of the two hashes; the error of the local one is that of its file.
unfoldable pub compare_hashes : Res Bytes → Bytes → Res (Unit {0})
compare_hashes (err e) remote_hash = err (str "cannot read local file for hash: " ++ e)
compare_hashes (ok local_hash) remote_hash =
    if not (length remote_hash == length local_hash)
    then err (str "hash length mismatch")
    else if equal remote_hash local_hash
    then ok tt
    else err (str "SHA-256 mismatch: file may be corrupted")

unfoldable pub judge_hash : Res Bytes → Res (HashRes × Bytes) → Res (Unit {0})
unfolding compare_hashes
judge_hash local_hash (err e) = err (str "hash request failed: " ++ e)
judge_hash local_hash (ok (res, payload)) =
    if not res.success
    then err (str "hash failed: " ++ res.error)
    else compare_hashes local_hash res.hash

unfoldable pub judge_create : Res (CreateRes × Bytes) → Res (Unit {0})
judge_create (err e) = err e
judge_create (ok (res, payload)) =
    if res.success then ok tt else err (str "remote create failed: " ++ res.error)

-- A file to upload: its bytes, permissions and hash, and where it goes.
pub record Source : Type 0 where
  pub bytes : Bytes
  pub mode : ℕ
  pub sha256 : Res Bytes
  pub target : Str

module _ (r : Remote) where
  unfoldable pub verify_file_hash : Str → Res Bytes → Caller r → Res (Unit {0}) × Caller r
  unfolding judge_hash
  verify_file_hash remote_path local_hash c =
      let (res, c') = call_hash r remote_path c in (judge_hash local_hash res, c')

  -- A fresh transfer creates the file.
  unfoldable pub prepare : Option ResumeState → Source → Caller r → Res (Unit {0}) × Caller r
  unfolding judge_create
  prepare (some state) src c = (ok tt, c)
  prepare none src c =
      let (res, c') = call_create r src.target (pos (length src.bytes)) src.mode c in
      (judge_create res, c')

-- The chunks that processChunks hands to goroutines.
unfoldable pub remaining : List Chunk → List Chunk
remaining [] = []
remaining (x ∷ xs) = let rest = remaining xs in if x.skipped then rest else x ∷ rest

module _ (r : Remote) (z : Gzip) (b : SecretBox) (nonces : ℕ → ℕ → Res Bytes) where
  -- The goroutines one after another; the first error ends the transfer. A chunk takes the nonces
  -- of its offset.
  unfoldable pub upload_chunks : Source → ℤ → ℕ → List Chunk → Caller r → Res (Unit {0}) × Caller r
  upload_chunks src retries algo [] c = (ok tt, c)
  upload_chunks src retries algo (x ∷ xs) c =
      let (res, c') =
        upload_file_chunk r z b (nonces x.offset) src.bytes src.target x.offset x.size retries algo
          c in
      elim res [ ok done ↦ upload_chunks src retries algo xs c' | err e ↦ (err e, c') ]

  -- processChunks has gone through the file by the plan; `order` is that in which the goroutines
  -- get to run.
  unfoldable pub run_plan :
      Source
      → ℤ
      → ℕ
      → (List Chunk → List Chunk)
      → Option (List Chunk)
      → Caller r
      → Res (Unit {0}) × Caller r
  run_plan src retries algo order none c = (err (str "no end"), c)
  run_plan src retries algo order (some plan) c =
      upload_chunks src retries algo (order (remaining plan)) c

  -- uploadFile, with the state that loadResumeState returned; its updates are those of
  -- Transfer/Resume.
  unfoldable pub upload_file :
      Option ResumeState
      → Source
      → ℕ
      → ℕ
      → ℤ
      → Bool
      → ℕ
      → (List Chunk → List Chunk)
      → Caller r
      → Res (Unit {0}) × Caller r
  upload_file state src chunk_size fuel retries use_sha256 algo order c =
      (do
        prepare r state src
        run_plan src retries algo order
            (process_chunks (is_completed state) chunk_size fuel (length src.bytes) 0)
        if use_sha256 then verify_file_hash r src.target src.sha256 else pure tt)
        c
