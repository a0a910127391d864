-- ===== src/Server/Workers/Steps.antt =====
-- Each step of a worker of serve.go over a file system.
use gcp.Base.{ℕ, ◌≡◌, refl, inl, inr, true, false, Bytes, Str}
use gcp.Base.Result.{Res, ok, err, Res-cases}
use gcp.Message.Types.{WriteReq, ReadReq}
use gcp.Server.Os.{FileInfo}
use gcp.Server.Auth.{ConnAuth}
use gcp.Server.Cache.{Disk, get}
use gcp.Server.Cache.Content.{
  IsFileSystem, Named, Unchanged, get-Unchanged, get-Named, evict-Unchanged, evict-Named,
}
use gcp.Server.Files.{Host, sandbox_path, unpack}
use gcp.Server.Cache.Handles.{Apart}
use gcp.Server.Cache.Entries.{get-Apart, evict-Apart}
use gcp.Server.Workers.{
  Task, writes, writes_at, drops, wrote, reads, stats, reads_at, has_read, hashes, seeks, copies,
  hash_drops, hashed, start_write, got_write, got_read, got_hash, behind_stat, behind_seek,
  behind_copy, advance,
}
use gcp.Server.Workers.Content.{
  RefusesNegative, Succeeded, From, covers, value, Moves, quiet, start_write-Moves, write_at-Moves,
}

module _ (h : Host) (fs : IsFileSystem h.os) where
  got_read-Moves :
      (t0 t : Task h) (d : Disk h.os) (q : Str) (k : ℕ) (req : ReadReq) (ca : ConnAuth)
      (r : Res h.os.File × Disk h.os)
      → Named h.os fs r.1
      → Unchanged h.os fs d r.1
      → let (t', d') = got_read h req ca r in Moves h fs t0 t d q k t' d'
  unfolding got_read
  got_read-Moves t0 t d q k req ca (ok fd, d') named same =
      quiet h fs t0 t d q k _ d' named same tt (λ s. s)
  got_read-Moves t0 t d q k req ca (err e, d') named same =
      quiet h fs t0 t d q k _ d' named same tt (λ s. s)

  got_hash-Moves :
      (t0 t : Task h) (d : Disk h.os) (q : Str) (k : ℕ) (path : Str) (r : Res h.os.File × Disk h.os)
      → Named h.os fs r.1
      → Unchanged h.os fs d r.1
      → let (t', d') = got_hash h path r in Moves h fs t0 t d q k t' d'
  unfolding got_hash
  got_hash-Moves t0 t d q k path (ok fd, d') named same =
      quiet h fs t0 t d q k _ d' named same tt (λ s. s)
  got_hash-Moves t0 t d q k path (err e, d') named same =
      quiet h fs t0 t d q k _ d' named same tt (λ s. s)

  behind_stat-Moves :
      (t0 t : Task h) (d : Disk h.os) (q : Str) (k : ℕ) (req : ReadReq) (ca : ConnAuth)
      (fd : h.os.File) (r : Res FileInfo)
      → Named h.os fs d
      → Moves h fs t0 t d q k (behind_stat h req ca fd r) d
  unfolding behind_stat
  behind_stat-Moves t0 t d q k req ca fd (ok info) named =
      quiet h fs t0 t d q k _ d named (λ p i. refl) tt (λ s. s)
  behind_stat-Moves t0 t d q k req ca fd (err e) named =
      quiet h fs t0 t d q k _ d named (λ p i. refl) tt (λ s. s)

  behind_seek-Moves :
      (t0 t : Task h) (d d' : Disk h.os) (q : Str) (k : ℕ) (path : Str) (fd : h.os.File)
      (r : Res (Unit {0}))
      → Named h.os fs d'
      → Unchanged h.os fs d d'
      → Moves h fs t0 t d q k (behind_seek h path fd r) d'
  unfolding behind_seek
  behind_seek-Moves t0 t d d' q k path fd (ok done) named same =
      quiet h fs t0 t d q k _ d' named same tt (λ s. s)
  behind_seek-Moves t0 t d d' q k path fd (err e) named same =
      quiet h fs t0 t d q k _ d' named same tt (λ s. s)

  behind_copy-Moves :
      (t0 t : Task h) (d d' : Disk h.os) (q : Str) (k : ℕ) (path : Str) (r : Res Bytes)
      → Named h.os fs d'
      → Unchanged h.os fs d d'
      → Moves h fs t0 t d q k (behind_copy h path r) d'
  unfolding behind_copy
  behind_copy-Moves t0 t d d' q k path (ok bytes) named same =
      quiet h fs t0 t d q k _ d' named same tt (λ s. s)
  behind_copy-Moves t0 t d d' q k path (err e) named same =
      quiet h fs t0 t d q k _ d' named same tt (λ s. s)

  -- Every step of a task.
  pub advance-Moves :
      (negative : RefusesNegative h fs) (t0 t : Task h) (now : ℕ) (d : Disk h.os) (q : Str) (k : ℕ)
      → From h fs t0 t
      → Named h.os fs d
      → (Succeeded h fs t → covers h fs t0 q k ≡ true → fs.byte_at d.world q k ≡ value h fs t0 k)
      → let (t', d') = advance h now t d in Moves h fs t0 t d q k t' d'
  unfolding advance
  advance-Moves negative t0 (writes req payload ca) now d q k from named old =
      start_write-Moves h fs t0 now req payload ca (unpack h req payload ca) d q k from refl named
  advance-Moves negative t0 (writes_at path fd bytes offset) now d q k from named old =
      write_at-Moves h fs negative t0 path fd bytes offset now d q k from named
  advance-Moves negative t0 (drops path e) now d q k from named old =
      quiet h fs t0 _ d q k _ _ (evict-Named h.os fs path d named) (evict-Unchanged h.os fs path d)
        tt (λ s. s)
  advance-Moves negative t0 (wrote r) now d q k from named old = record {
    names = named;
    from = tt;
    outside = λ c. refl;
    done = old;
  }
  advance-Moves negative t0 (reads req ca) now d q k from named old =
      let path = sandbox_path ca req.path in
      got_read-Moves t0 _ d q k req ca (get h.os now path false d)
        (get-Named h.os fs now path false d named) (get-Unchanged h.os fs now path false d)
  advance-Moves negative t0 (stats req ca fd) now d q k from named old =
      behind_stat-Moves t0 _ d q k req ca fd (h.os.file_stat fd d.world) named
  advance-Moves negative t0 (reads_at req ca fd) now d q k from named old =
      quiet h fs t0 _ d q k _ d named (λ p i. refl) tt (λ s. s)
  advance-Moves negative t0 (has_read r) now d q k from named old =
      quiet h fs t0 _ d q k _ d named (λ p i. refl) tt (λ s. s)
  advance-Moves negative t0 (hashes req ca) now d q k from named old =
      let path = sandbox_path ca req.path in
      got_hash-Moves t0 _ d q k path (get h.os now path false d)
        (get-Named h.os fs now path false d named) (get-Unchanged h.os fs now path false d)
  advance-Moves negative t0 (seeks path fd) now d q k from named old =
      behind_seek-Moves t0 _ d _ q k path fd (h.os.seek_start fd d.world).0 named
        (λ p i. fs.byte_at-seek_start fd p d.world i)
  advance-Moves negative t0 (copies path fd) now d q k from named old =
      behind_copy-Moves t0 _ d _ q k path (h.os.read_all fd d.world).0 named
        (λ p i. fs.byte_at-read_all fd p d.world i)
  advance-Moves negative t0 (hash_drops path r) now d q k from named old =
      quiet h fs t0 _ d q k _ _ (evict-Named h.os fs path d named) (evict-Unchanged h.os fs path d)
        tt (λ s. s)
  advance-Moves negative t0 (hashed r) now d q k from named old =
      quiet h fs t0 _ d q k _ d named (λ p i. refl) tt (λ s. s)

module _ (h : Host) where
  start_write-Apart :
      (now : ℕ) (req : WriteReq) (ca : ConnAuth) (r : Res Bytes) (d : Disk h.os)
      → Apart d.files
      → Apart (start_write h now req ca r d).1.files
  unfolding start_write got_write
  start_write-Apart now req ca (err text) d a = a
  start_write-Apart now req ca (ok bytes) d a =
      let path = sandbox_path ca req.path in
      let a' = get-Apart h.os now path true d a in
      elim (Res-cases (get h.os now path true d).0) [
        | inr (text, g) ↦ rw (g, start_write) a'
        | inl (fd, g) ↦ rw (g, start_write) a'
      ]

  got_read-Apart :
      (req : ReadReq) (ca : ConnAuth) (r : Res h.os.File × Disk h.os)
      → Apart r.1.files
      → Apart (got_read h req ca r).1.files
  unfolding got_read
  got_read-Apart req ca (ok fd, d) a = a
  got_read-Apart req ca (err e, d) a = a

  got_hash-Apart :
      (path : Str) (r : Res h.os.File × Disk h.os)
      → Apart r.1.files
      → Apart (got_hash h path r).1.files
  unfolding got_hash
  got_hash-Apart path (ok fd, d) a = a
  got_hash-Apart path (err e, d) a = a

  -- No step gives a path a second entry.
  pub advance-Apart :
      (now : ℕ) (t : Task h) (d : Disk h.os) → Apart d.files → Apart (advance h now t d).1.files
  unfolding advance
  advance-Apart now (writes req payload ca) d a =
      start_write-Apart now req ca (unpack h req payload ca) d a
  advance-Apart now (drops path e) d a = evict-Apart h.os path d a
  advance-Apart now (reads req ca) d a =
      got_read-Apart req ca _ (get-Apart h.os now (sandbox_path ca req.path) false d a)
  advance-Apart now (hashes req ca) d a =
      got_hash-Apart _ _ (get-Apart h.os now (sandbox_path ca req.path) false d a)
  advance-Apart now (hash_drops path r) d a = evict-Apart h.os path d a
  advance-Apart now _ d a = a
