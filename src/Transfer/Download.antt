-- ===== src/Transfer/Download.antt =====
-- cp_from_host.go: downloadFile. The context is never cancelled, the goroutines run one after
-- another, and the waits between two attempts are left out.
pub mod Fetch
pub mod Stats
pub mod Content
pub mod Pieces
pub mod Whole
use gcp.Base.{
  ℕ, ℤ, zero, suc, pos, negsuc, ◌-◌, ◌%◌, Bool, true, false, not, Bytes, Str, str, List, [], ◌∷◌,
  ◌++◌, Option, none, some, if◌then◌else◌,
}
use gcp.Base.Result.{Res, ok, err}
use gcp.Base.Exec.{Exec, pure, ◌>>=◌, ◌>>◌}
use gcp.Message.Types.{StatRes, ReadRes}
use gcp.Transfer.Chunk.{Gzip, SecretBox}
use gcp.Transfer.Schedule.{Chunk, process_chunks}
use gcp.Transfer.Resume.{ResumeState, is_completed}
use gcp.Transfer.Upload.{attempts, remaining, verify_file_hash}
use gcp.Client.Rpc.{Client, accept_chunk, open_chunk}
use gcp.Client.Remote.{Remote, Caller, call_stat, call_read}

-- `for attempt := 0; attempt <= maxRetries; attempt++` with its break, from the rounds left and the
-- error so far. Without a round the code goes on to use a nil result.
unfoldable pub retry {ℓ} : {A S : Type ℓ} → Exec S A → ℕ → Res A → Exec S A
retry attempt zero last s = (last, s)
retry attempt (suc n) last s =
    let (r, s') = attempt s in elim r [ ok a ↦ (ok a, s') | err e ↦ retry attempt n (err e) s' ]

abbrev pub no_round {ℓ} : {A : Type ℓ} → Res A
no_round = err (str "panic")

unfoldable pub judge_stat : Res (StatRes × Bytes) → Res StatRes
judge_stat (err e) = err e
judge_stat (ok (res, payload)) =
    if not res.success
    then err (str "stat failed: " ++ res.error)
    else if res.is_dir
    then err (str "path is a directory")
    else ok res

unfoldable pub judge_read : Client → Res (ReadRes × Bytes) → Res (ReadRes × Bytes)
judge_read cc (err e) = err e
judge_read cc (ok (res, payload)) = elim (accept_chunk cc res payload) [
  | ok done ↦ ok (res, payload)
  | err e ↦ err e
]

module _ (r : Remote) where
  unfoldable pub attempt_stat : Str → Exec (Caller r) StatRes
  unfolding judge_stat
  attempt_stat src c = let (res, c') = call_stat r src c in (judge_stat res, c')

  unfoldable pub attempt_read : Str → ℕ → ℕ → ℕ → Exec (Caller r) (ReadRes × Bytes)
  unfolding judge_read
  attempt_read src off size algo c =
      let (res, c') = call_read r src (pos off) (pos size) algo c in (judge_read c'.client res, c')

-- The local file of a download: OpenFile, fresh with the mode given or as it is, WriteAt, Chmod, and
-- the hash of its bytes.
pub record Local : Type 1 where
  pub State : Type 0
  pub open_fresh : ℕ → Exec State (Unit {0})
  pub open_again : Exec State (Unit {0})
  pub write_at : ℕ → Bytes → Exec State (Unit {0})
  pub chmod : ℕ → Exec State (Unit {0})
  pub sha256 : State → Res Bytes

-- Perm of a file mode: its low nine bits.
abbrev pub perm : ℕ → ℕ
perm mode = mode % 512

module _ (r : Remote) (z : Gzip) (b : SecretBox) (f : Local) where
  -- The client with the server behind it, and the local file.
  pub record Session : Type 0 where
    pub caller : Caller r
    pub local : f.State

  abbrev pub remotely : {A : Type 0} → Exec (Caller r) A → Exec Session A
  remotely m s = let (res, c) = m s.caller in (res, record s { caller = c })

  abbrev pub locally : {A : Type 0} → Exec f.State A → Exec Session A
  locally m s = let (res, l) = m s.local in (res, record s { local = l })

  -- Behind the retry loop: the payload is opened and written.
  unfoldable pub store_chunk : ℕ → Res (ReadRes × Bytes) → Exec Session (Unit {0})
  store_chunk off (err e) s = (err e, s)
  store_chunk off (ok (res, payload)) s = elim (open_chunk z b s.caller.client res payload) [
    | err e ↦ (err e, s)
    | ok data' ↦ locally (f.write_at off data') s
  ]

  -- The function that downloadFile gives to processChunks.
  unfoldable pub download_chunk : Str → ℕ → ℕ → ℤ → ℕ → Exec Session (Unit {0})
  unfolding store_chunk
  download_chunk src off size max_retries algo s =
      let (res, c) =
        retry (attempt_read r src off size algo) (attempts max_retries) no_round s.caller in
      store_chunk off res (record s { caller = c })

  unfoldable pub download_chunks : Str → ℤ → ℕ → List Chunk → Exec Session (Unit {0})
  unfolding download_chunk
  download_chunks src retries algo [] = pure tt
  download_chunks src retries algo (x ∷ xs) = do
    download_chunk src x.offset x.size retries algo
    download_chunks src retries algo xs

  unfoldable pub open_target : Option ResumeState → ℕ → Exec f.State (Unit {0})
  open_target none mode = f.open_fresh mode
  open_target (some state) mode = f.open_again

  unfoldable pub run_plan :
      Str → ℤ → ℕ → (List Chunk → List Chunk) → Option (List Chunk) → Exec Session (Unit {0})
  unfolding download_chunks
  run_plan src retries algo order none s = (err (str "no end"), s)
  run_plan src retries algo order (some plan) s =
      download_chunks src retries algo (order (remaining plan)) s

  abbrev pub size_of : ℤ → ℕ
  size_of (pos n) = n
  size_of (negsuc n) = 0

  unfoldable pub check_hash : Str → Exec Session (Unit {0})
  check_hash src s = remotely (verify_file_hash r src (f.sha256 s.local)) s

  -- downloadFile, with what loadResumeState says of a file of the size; a size that is negative has
  -- no round in processChunks, as 0.
  unfoldable pub download_file :
      (ℤ → Option ResumeState)
      → Str
      → ℕ
      → ℕ
      → ℤ
      → Bool
      → ℕ
      → (List Chunk → List Chunk)
      → Exec Session (Unit {0})
  unfolding run_plan check_hash open_target
  download_file load src chunk_size fuel retries use_sha256 algo order = do
    st ← remotely (retry (attempt_stat r src) (attempts retries) no_round)
    locally (open_target (load st.size) (perm st.mode))
    run_plan src retries algo order
        (process_chunks (is_completed (load st.size)) chunk_size fuel (size_of st.size) 0)
    locally (f.chmod (perm st.mode))
    if use_sha256 then check_hash src else pure tt
