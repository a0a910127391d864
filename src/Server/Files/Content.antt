-- ===== src/Server/Files/Content.antt =====
-- write of serve.go over a file system: what a request to write makes of the files.
use gcp.Base.{
  ℕ, pos, ◌-◌, ◌≡◌, refl, ap, ◌∙◌, inl, inr, true, false, ◌&&◌, Bytes, Str, length, get_or,
  Bool-cases, equal,
}
use gcp.Base.Result.{Res, ok, err, Res-cases}
use gcp.Message.Types.{WriteReq, CreateReq, HashReq, write_res}
use gcp.Base.FilePath.{dir}
use gcp.Server.Os.{Stat, found, not_exist, stat_failed}
use gcp.Server.Auth.{ConnAuth}
use gcp.Server.Cache.{Disk, get}
use gcp.Server.Cache.Content.{
  IsFileSystem, within, Named, Unchanged, path_of-get, get-Unchanged, get-Named, evict-Unchanged,
  evict-Named,
}
use gcp.Server.Files.{
  Host, Reply, replied, sandbox_path, unpack, write_file, write_chunk, write_answer, write,
  create_missing, create_path, create, hash_file, hash,
}

module _ (h : Host) (fs : IsFileSystem h.os) where
  open fs use {byte_at, path_of, byte_at-write_at, byte_at-write_at_outside}

  -- What a write of `bytes` at an offset of a file may do: the cache stays in order, and no other
  -- byte changes.
  pub record Touches (path : Str) (offset : ℕ) (bytes : Bytes) (d d' : Disk h.os) : Type 0 where
    pub names : Named h.os fs d'
    pub outside :
        (q : Str) (i : ℕ)
        → (equal path q && within offset (length bytes) i) ≡ false
        → byte_at d'.world q i ≡ byte_at d.world q i

  -- The bytes are in the file.
  abbrev pub Stored : Str → ℕ → Bytes → Disk h.os → Type 0
  Stored path offset bytes d =
      (i : ℕ)
      → within offset (length bytes) i ≡ true
      → byte_at d.world path i ≡ get_or bytes (i - offset) 0

  write_file-Touches :
      (path : Str) (f : h.os.File) (bytes : Bytes) (offset : ℕ) (d : Disk h.os)
      → path_of f ≡ path
      → Named h.os fs d
      → Touches path offset bytes d (write_file h path f bytes (pos offset) d).1
  unfolding write_file
  write_file-Touches path f bytes offset d at named =
      elim (Res-cases (h.os.write_at f bytes (pos offset) d.world).0) [
        | inl (n, e) ↦
            rw (e, write_file)
              (record {
                names = named;
                outside = λ q i k. byte_at-write_at_outside f bytes offset i q d.world (rw at k);
              })
        | inr (text, e) ↦
            let d' : Disk h.os = record d {
              world = (h.os.write_at f bytes (pos offset) d.world).1;
            } in
            rw (e, write_file)
              (record {
                names = evict-Named h.os fs path d' named;
                outside = λ q i k.
                    evict-Unchanged h.os fs path d' q i
                    ∙ byte_at-write_at_outside f bytes offset i q d.world (rw at k);
              })
      ]

  write_file_stores :
      (path : Str) (f : h.os.File) (bytes : Bytes) (offset n : ℕ) (d : Disk h.os)
      → path_of f ≡ path
      → (write_file h path f bytes (pos offset) d).0 ≡ ok n
      → Stored path offset bytes (write_file h path f bytes (pos offset) d).1
  unfolding write_file
  write_file_stores path f bytes offset n d at done i k =
      elim (Res-cases (h.os.write_at f bytes (pos offset) d.world).0) [
        | inl (n', e) ↦
            rw (e, write_file) (rw (← at) (byte_at-write_at f bytes offset n' i d.world e k))
        | inr (text, e) ↦ cc (rw (e, write_file) at done)
      ]

  -- write_chunk, once its bytes are unpacked.
  abbrev store_bytes : WriteReq → Bytes → ConnAuth → Res h.os.File × Disk h.os → Res ℕ × Disk h.os
  store_bytes req bytes ca (ok fd, d) =
      write_file h (sandbox_path ca req.path) fd bytes req.offset d
  store_bytes req bytes ca (err e, d) = (err e, d)

  write_chunk_unpacked :
      (req : WriteReq) (sent bytes : Bytes) (ca : ConnAuth) (d : Disk h.os)
      → unpack h req sent ca ≡ ok bytes
      → write_chunk h req sent ca d
        ≡ store_bytes req bytes ca (get h.os h.now (sandbox_path ca req.path) true d)
  unfolding write_chunk
  write_chunk_unpacked req sent bytes ca d e =
      elim (Res-cases (get h.os h.now (sandbox_path ca req.path) true d).0) [
        | inl (f, g) ↦ rw (e, g) refl
        | inr (text, g) ↦ rw (e, g) refl
      ]

  store_bytes-Touches :
      (req : WriteReq) (bytes : Bytes) (ca : ConnAuth) (offset : ℕ) (d : Disk h.os)
      (r : Res h.os.File × Disk h.os)
      → req.offset ≡ pos offset
      → ((f : h.os.File) → r.0 ≡ ok f → path_of f ≡ sandbox_path ca req.path)
      → Named h.os fs r.1
      → Unchanged h.os fs d r.1
      → Touches (sandbox_path ca req.path) offset bytes d (store_bytes req bytes ca r).1
  store_bytes-Touches req bytes ca offset d (ok f, d') o at named same = rw o (
      let t = write_file-Touches (sandbox_path ca req.path) f bytes offset d' (at f refl) named in
      record { names = t.names; outside = λ q i k. t.outside q i k ∙ same q i })
  store_bytes-Touches req bytes ca offset d (err e, d') o at named same = record {
    names = named;
    outside = λ q i k. same q i;
  }

  store_bytes_stores :
      (req : WriteReq) (bytes : Bytes) (ca : ConnAuth) (offset n : ℕ)
      (r : Res h.os.File × Disk h.os)
      → req.offset ≡ pos offset
      → ((f : h.os.File) → r.0 ≡ ok f → path_of f ≡ sandbox_path ca req.path)
      → (store_bytes req bytes ca r).0 ≡ ok n
      → Stored (sandbox_path ca req.path) offset bytes (store_bytes req bytes ca r).1
  store_bytes_stores req bytes ca offset n (ok f, d) o at done =
      rw o
        (write_file_stores (sandbox_path ca req.path) f bytes offset n d (at f refl) (rw o at done))
  store_bytes_stores req bytes ca offset n (err e, d) o at done = cc

  -- The request to write `bytes` does this to the files, whether or not it succeeds.
  pub write-Touches :
      (req : WriteReq) (sent bytes : Bytes) (ca : ConnAuth) (offset : ℕ) (d : Disk h.os)
      → req.offset ≡ pos offset
      → unpack h req sent ca ≡ ok bytes
      → Named h.os fs d
      → Touches (sandbox_path ca req.path) offset bytes d (write h req sent ca d).1
  unfolding write
  write-Touches req sent bytes ca offset d o e named =
      let path = sandbox_path ca req.path in
      rw (write_chunk_unpacked req sent bytes ca d e) (
        store_bytes-Touches req bytes ca offset d (get h.os h.now path true d) o
          (λ f r. path_of-get h.os fs h.now path true d f named r)
          (get-Named h.os fs h.now path true d named) (get-Unchanged h.os fs h.now path true d))

  -- The answer to a request that succeeds.
  abbrev pub Success : Reply → Type 0
  Success (replied (write_res m) p) = m.success ≡ true
  Success _ = ⊥

  answer_ok : (req : WriteReq) (r : Res ℕ) → Success (write_answer h req r) → (n : ℕ) × (r ≡ ok n)
  answer_ok req (ok n) s = (n, refl)
  answer_ok req (err e) s = cc

  pub write_stores :
      (req : WriteReq) (sent bytes : Bytes) (ca : ConnAuth) (offset : ℕ) (d : Disk h.os)
      → req.offset ≡ pos offset
      → unpack h req sent ca ≡ ok bytes
      → Named h.os fs d
      → Success (write h req sent ca d).0
      → Stored (sandbox_path ca req.path) offset bytes (write h req sent ca d).1
  unfolding write
  write_stores req sent bytes ca offset d o e named success =
      let path = sandbox_path ca req.path in
      let (n, done) = answer_ok req (write_chunk h req sent ca d).0 success in
      rw (write_chunk_unpacked req sent bytes ca d e) (
        store_bytes_stores req bytes ca offset n (get h.os h.now path true d) o
          (λ f r. path_of-get h.os fs h.now path true d f named r)
          (rw (write_chunk_unpacked req sent bytes ca d e) at done))

  -- The steps of hash behind the cache, from what get returns.
  abbrev read_hash : Res h.os.File × Disk h.os → Res Bytes × Disk h.os
  read_hash (err e, d) = (err e, d)
  read_hash (ok fd, d) =
      let (r, w) = h.os.seek_start fd d.world in
      elim r [
        | err e ↦ (err e, record d { world = w })
        | ok done ↦
            (let (r', w') = h.os.read_all fd w in
              elim r' [
                | err e ↦ (err e, record d { world = w' })
                | ok bytes ↦ (ok (h.sha256 bytes), record d { world = w' })
              ])
      ]

  hash_file_steps :
      (req : HashReq) (ca : ConnAuth) (d : Disk h.os)
      → hash_file h req ca d ≡ read_hash (get h.os h.now (sandbox_path ca req.path) false d)
  unfolding hash_file
  hash_file_steps req ca d =
      let path = sandbox_path ca req.path in
      elim (Res-cases (get h.os h.now path false d).0) [
        | inr (text, g) ↦ rw g refl
        | inl (f, g) ↦
            let w = (get h.os h.now path false d).1.world in
            elim (Res-cases (h.os.seek_start f w).0) [
              | inr (text, s) ↦ rw (g, s, read_hash) refl
              | inl (done, s) ↦ elim (Res-cases (h.os.read_all f (h.os.seek_start f w).1).0) [
                | inr (text, r) ↦ rw (g, s, r, read_hash) refl
                | inl (bytes, r) ↦ rw (g, s, r, read_hash) refl
              ]
            ]
      ]

  read_hash-Unchanged : (r : Res h.os.File × Disk h.os) → Unchanged h.os fs r.1 (read_hash r).1
  read_hash-Unchanged (err e, d) q i = refl
  read_hash-Unchanged (ok f, d) q i = elim (Res-cases (h.os.seek_start f d.world).0) [
    | inr (text, s) ↦ rw (s, read_hash) (fs.byte_at-seek_start f q d.world i)
    | inl (done, s) ↦
        let w = (h.os.seek_start f d.world).1 in
        elim (Res-cases (h.os.read_all f w).0) [
          | inr (text, r) ↦
              rw (s, r, read_hash)
                (fs.byte_at-read_all f q w i ∙ fs.byte_at-seek_start f q d.world i)
          | inl (bytes, r) ↦
              rw (s, r, read_hash)
                (fs.byte_at-read_all f q w i ∙ fs.byte_at-seek_start f q d.world i)
        ]
  ]

  -- A request for a hash changes no file.
  pub hash-Unchanged :
      (req : HashReq) (ca : ConnAuth) (d : Disk h.os) → Unchanged h.os fs d (hash h req ca d).1
  unfolding hash
  hash-Unchanged req ca d q i =
      let path = sandbox_path ca req.path in
      evict-Unchanged h.os fs path (hash_file h req ca d).1 q i
      ∙ ap (λ (r : Res Bytes × Disk h.os). byte_at r.1.world q i) (hash_file_steps req ca d)
      ∙ read_hash-Unchanged (get h.os h.now path false d) q i
      ∙ get-Unchanged h.os fs h.now path false d q i

  created_files :
      (req : CreateReq) (path : Str) (st : Stat) (d : Disk h.os)
      → (create_missing h req path st d).1.files ≡ d.files
  unfolding create_missing
  created_files req path (found info) d = elim (Bool-cases info.is_dir) [
    | inl k ↦ rw k refl
    | inr k ↦ rw k refl
  ]
  created_files req path (stat_failed e) d = refl
  created_files req path (not_exist e) d =
      elim (Res-cases (h.os.create_file path req.mode d.world).0) [
        | inl (f, k) ↦ rw (k, create_missing) refl
        | inr (text, k) ↦ rw (k, create_missing) refl
      ]

  -- A request to create leaves the cache as it is.
  pub files-create :
      (req : CreateReq) (ca : ConnAuth) (d : Disk h.os) → (create h req ca d).1.files ≡ d.files
  unfolding create create_path
  files-create req ca d =
      let path = sandbox_path ca req.path in
      elim (Bool-cases req.is_dir) [
        | inl k ↦ rw (k, create_path) refl
        | inr k ↦ elim (Res-cases (h.os.mkdir_all (dir path) 493 d.world).0) [
          | inr (text, m) ↦ rw (k, m) refl
          | inl (done, m) ↦
              let d' : Disk h.os = record d { world = (h.os.mkdir_all (dir path) 493 d.world).1 } in
              rw (k, m) (created_files req path (h.os.stat path d'.world) d')
        ]
      ]
