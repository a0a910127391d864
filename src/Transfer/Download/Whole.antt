-- ===== src/Transfer/Download/Whole.antt =====
-- downloadFile of cp_from_host.go from the server of serve.go.
use gcp.Base.{
  ℕ, ℤ, pos, ◌<◌, ◌≡◌, refl, sym, subst, suc, ap, ◌∙◌, inl, inr, Bool, true, false, Bytes, Str,
  List, Option, some, length, if◌then◌else◌, arith, Bool-cases,
}
use gcp.Base.Result.{Res, ok}
use gcp.Base.Exec.{Exec, pure, ◌>>◌, success_then, success_bind, bind_ok}
use gcp.Message.Types.{StatRes}
use gcp.Transfer.Chunk.{Inverts, Opens, nonce_size}
use gcp.Transfer.Resume.{ResumeState, is_completed}
use gcp.Transfer.Schedule.{Chunk, process_chunks}
use gcp.Transfer.Schedule.Tiles.{Tiles, process_chunks-Tiles}
use gcp.Transfer.Schedule.Upload.{In, Within, covered, In-le-last}
use gcp.Transfer.Upload.{remaining}
use gcp.Transfer.Upload.Parts.{Ready}
use gcp.Transfer.Upload.Sends.{In-remaining}
use gcp.Transfer.Download.{
  Local, Session, retry, no_round, attempt_stat, perm, open_target, run_plan, check_hash,
  download_file, remotely, locally, size_of,
}
use gcp.Transfer.Download.Stats.{retry-States}
use gcp.Transfer.Download.Pieces.{IsLocal, AsIn, download_chunks-Gets}
use gcp.Client.Remote.{served}
use gcp.Server.Users.{Ssh, Accounts}
use gcp.Server.Auth.{ConnAuth}
use gcp.Server.Cache.Content.{IsFileSystem}
use gcp.Server.Files.{Host, sandbox_path}
use gcp.Server.Files.Reading.{Reads, Full}

module _ (ssh : Ssh) (accounts : Accounts) (h : Host) (fs : IsFileSystem h.os) (reads : Reads h fs)
    (inv : Inverts h.gzip) (opens : Opens h.box) (conn : ℕ) (ca : ConnAuth) (nonce : Bytes)
    (rand_works : h.nonce ≡ ok nonce) (long : length nonce ≡ nonce_size) (f : Local)
    (local_file : IsLocal f) (l : Full h fs) where
  abbrev Session' : Type 0
  Session' = Session (served ssh accounts h conn) h.gzip h.box f

  abbrev Right' : h.os.World → Str → Session' → ℕ → Type 0
  Right' w src s i = local_file.byte_at s.local i ≡ fs.byte_at w (sandbox_path ca src) i

  abbrev AsIn' : h.os.World → Session' → Type 0
  AsIn' w s =
      AsIn ssh accounts h fs reads inv opens conn ca nonce rand_works long f local_file l w s

  module _ (load : ℤ → Option ResumeState) (src : Str) (chunk_size fuel retries algo : ℕ)
      (order : List Chunk → List Chunk) (plan : List Chunk) (w : h.os.World)
      (planned : process_chunks
          (is_completed (load (pos (l.size w (sandbox_path ca src)))))
          chunk_size
          fuel
          (l.size w (sandbox_path ca src))
          0
        ≡ some plan)
      (all : (x : Chunk) (xs : List Chunk) → In x xs → In x (order xs)) where
    abbrev size : ℕ
    size = l.size w (sandbox_path ca src)

    -- The transfer proper.
    abbrev fetch_all : Exec Session' (Unit {0})
    fetch_all s =
        run_plan (served ssh accounts h conn) h.gzip h.box f src (pos retries) algo order
          (process_chunks (is_completed (load (pos size))) chunk_size fuel size 0) s

    -- Every byte is right if those of the skipped chunks were.
    fetch_all-Right :
        (s : Session') (i : ℕ)
        → 0 < chunk_size
        → size < fuel
        → AsIn' w s
        → ((x : Chunk) (j : ℕ) → In x plan → x.skipped ≡ true → Within j x → Right' w src s j)
        → (fetch_all s).0 ≡ ok tt
        → i < size
        → Right' w src (fetch_all s).1 i
    unfolding run_plan
    fetch_all-Right s i some_byte enough as_in old done high =
        let (cs, made, tiles) =
          process_chunks-Tiles (is_completed (load (pos size))) chunk_size fuel size 0 some_byte
            (omega arith) enough in
        let same : cs ≡ plan = ground (arith, made, planned) in
        let tiled =
          subst (λ p. Tiles (is_completed (load (pos size))) chunk_size 0 size p) same tiles in
        let (x, there, inside) =
          covered (is_completed (load (pos size))) chunk_size 0 size plan i tiled (omega arith)
            high in
        let g =
          download_chunks-Gets ssh accounts h fs reads inv opens conn ca nonce rand_works long f
            local_file l w src retries algo (order (remaining plan)) s as_in
            (rw (planned, run_plan) at done) in
        rw (planned, run_plan)
          (elim (Bool-cases x.skipped) [
            | inl k ↦ g.keeps i (old x i there k inside)
            | inr k ↦
                g.stores x i (all x (remaining plan) (In-remaining x plan there k))
                  (In-le-last (is_completed (load (pos size))) chunk_size 0 size plan x tiled there)
                  inside
          ])

    -- The end of the transfer: the mode, and the hash if it is asked for.
    abbrev finish : Bool → ℕ → Exec Session' (Unit {0})
    finish use_sha256 mode =
        locally (served ssh accounts h conn) h.gzip h.box f (f.chmod mode)
        >> (if use_sha256
            then check_hash (served ssh accounts h conn) h.gzip h.box f src
            else pure tt)

    abbrev last_step : Bool → Exec Session' (Unit {0})
    last_step use_sha256 =
        if use_sha256 then check_hash (served ssh accounts h conn) h.gzip h.box f src else pure tt

    last_step_keeps :
        (use_sha256 : Bool) (s : Session') → (last_step use_sha256 s).1.local ≡ s.local
    unfolding check_hash
    last_step_keeps true s = refl
    last_step_keeps false s = refl

    finish-Right :
        (use_sha256 : Bool) (mode : ℕ) (s : Session') (i : ℕ)
        → Right' w src s i
        → (finish use_sha256 mode s).0 ≡ ok tt
        → Right' w src (finish use_sha256 mode s).1 i
    finish-Right use_sha256 mode s i right done =
        let chmod = locally (served ssh accounts h conn) h.gzip h.box f (f.chmod mode) in
        let (a, ok_a, is_a) = success_then chmod (last_step use_sha256) s tt done in
        ap (λ (r : Res (Unit {0}) × Session'). local_file.byte_at r.1.local i) is_a
        ∙ ap (λ k. local_file.byte_at k i) (last_step_keeps use_sha256 (chmod s).1)
        ∙ local_file.chmod_keeps mode s.local i
        ∙ right

    -- The transfer behind Stat.
    abbrev rest : Bool → ℤ → ℕ → Exec Session' (Unit {0})
    rest use_sha256 file_size mode =
        locally (served ssh accounts h conn) h.gzip h.box f
          (open_target (served ssh accounts h conn) h.gzip h.box f (load file_size) mode)
        >> (run_plan (served ssh accounts h conn) h.gzip h.box f src (pos retries) algo order (
              process_chunks (is_completed (load file_size)) chunk_size fuel
                (size_of (served ssh accounts h conn) h.gzip h.box f file_size) 0)
            >> finish use_sha256 mode)

    rest-Right :
        (use_sha256 : Bool) (mode : ℕ) (s : Session') (i : ℕ)
        → 0 < chunk_size
        → size < fuel
        → AsIn' w s
        → ((x : Chunk) (j : ℕ)
            → In x plan
            → x.skipped ≡ true
            → Within j x
            → Right' w src
                (record s {
                  local =
                      (open_target
                        (served ssh accounts h conn)
                        h.gzip
                        h.box
                        f
                        (load (pos size))
                        mode
                        s.local).1;
                })
                j)
        → (rest use_sha256 (pos size) mode s).0 ≡ ok tt
        → i < size
        → Right' w src (rest use_sha256 (pos size) mode s).1 i
    rest-Right use_sha256 mode s i some_byte enough as_in old done high =
        let start : Exec Session' (Unit {0}) =
          locally (served ssh accounts h conn) h.gzip h.box f
            (open_target (served ssh accounts h conn) h.gzip h.box f (load (pos size)) mode) in
        let (a, ok_a, is_a) = success_then start (fetch_all >> finish use_sha256 mode) s tt done in
        let s1 = (start s).1 in
        let as_in1 : AsIn' w s1 = record {
          ready = as_in.ready;
          same = as_in.same;
          sizes = as_in.sizes;
        } in
        let (b, ok_b, is_b) =
          success_then fetch_all (finish use_sha256 mode) s1 tt
            (ap (λ (r : Res (Unit {0}) × Session'). r.0) (sym is_a) ∙ done) in
        let right = fetch_all-Right s1 i some_byte enough as_in1 old ok_b high in
        subst (λ (r : Res (Unit {0}) × Session'). Right' w src r.1 i) (sym (is_a ∙ is_b))
          (finish-Right use_sha256 mode (fetch_all s1).1 i right
            (ap (λ (r : Res (Unit {0}) × Session'). r.0) (sym (is_a ∙ is_b)) ∙ done))

  -- The length and the bytes of the file on the server.
  abbrev pub source_size : Str → Session' → ℕ
  source_size src s = l.size s.caller.state.disk.world (sandbox_path ca src)

  abbrev pub source_byte : Str → Session' → ℕ → ℕ
  source_byte src s i = fs.byte_at s.caller.state.disk.world (sandbox_path ca src) i

  abbrev pub downloaded :
      (ℤ → Option ResumeState)
      → Str
      → ℕ
      → ℕ
      → ℕ
      → Bool
      → ℕ
      → (List Chunk → List Chunk)
      → Exec Session' (Unit {0})
  downloaded load src chunk_size fuel retries use_sha256 algo order s =
      download_file (served ssh accounts h conn) h.gzip h.box f load src chunk_size fuel
        (pos retries) use_sha256 algo order s

  -- A download that succeeds, by an authenticated client from the server that it is authenticated
  -- to, with a chunk size and a number of retries in range, where no other program changes the
  -- server's files and reads within a file are full, whatever failed on the way and in whatever
  -- order its chunks came, leaves every byte of the server's file at its place in the local file,
  -- if those of the chunks that the resume state skips are there when the local file is opened.
  pub download_file_complete :
      (load : ℤ → Option ResumeState) (src : Str) (chunk_size fuel retries : ℕ) (use_sha256 : Bool)
      (algo : ℕ) (order : List Chunk → List Chunk) (plan : List Chunk) (s : Session')
      → process_chunks
          (is_completed (load (pos (source_size src s))))
          chunk_size
          fuel
          (source_size src s)
          0
        ≡ some plan
      → ((x : Chunk) (xs : List Chunk) → In x xs → In x (order xs))
      → 0 < chunk_size
      → source_size src s < fuel
      → Ready ssh accounts h fs conn ca s.caller
      → ((mode : ℕ) (x : Chunk) (j : ℕ)
          → In x plan
          → x.skipped ≡ true
          → Within j x
          → let (r, opened) =
              open_target
                (served ssh accounts h conn)
                h.gzip
                h.box
                f
                (load (pos (source_size src s)))
                mode
                s.local in
            local_file.byte_at opened j ≡ source_byte src s j)
      → (downloaded load src chunk_size fuel retries use_sha256 algo order s).0 ≡ ok tt
      → (i : ℕ) → i < source_size src s
      → local_file.byte_at
          (downloaded load src chunk_size fuel retries use_sha256 algo order s).1.local
          i
        ≡ source_byte src s i
  unfolding download_file
  download_file_complete load src chunk_size fuel retries use_sha256 algo order plan s planned all
        some_byte enough ready old done i high =
      let w = s.caller.state.disk.world in
      let remote = served ssh accounts h conn in
      let ask : Exec Session' StatRes =
        remotely remote h.gzip h.box f (retry (attempt_stat remote src) (suc retries) no_round) in
      let behind : StatRes → Exec Session' (Unit {0}) = λ st.
        rest load src chunk_size fuel retries algo order plan w planned all use_sha256 st.size
          (perm st.mode) in
      let (st, answered, ended) = success_bind ask behind s tt done in
      let states =
        retry-States ssh accounts h fs l conn ca (suc retries) no_round src s.caller ready
          (λ x e. absurd (cc e)) in
      let size_is : st.size ≡ pos (l.size w (sandbox_path ca src)) = states.size st answered in
      let s1 = (ask s).1 in
      let as_in : AsIn' w s1 = record {
        ready = states.ready;
        same = λ q j. ap (λ d. fs.byte_at d.world q j) states.disk;
        sizes = λ q. ap (λ d. l.size d.world q) states.disk;
      } in
      subst (λ (r : Res (Unit {0}) × Session'). Right' w src r.1 i)
        (sym (bind_ok ask behind s st answered))
        (subst
          (λ z.
            (rest load src chunk_size fuel retries algo order plan w planned all use_sha256 z
                (perm st.mode) s1).0
              ≡ ok tt
            → Right' w src
                (rest load src chunk_size fuel retries algo order plan w planned all use_sha256 z
                  (perm st.mode) s1).1
                i)
          (sym size_is)
          (λ fine.
            rest-Right load src chunk_size fuel retries algo order plan w planned all use_sha256
              (perm st.mode) s1 i some_byte enough as_in (old (perm st.mode)) fine high)
          ended)
