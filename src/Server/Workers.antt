-- ===== src/Server/Workers.antt =====
-- The workers of serve.go at work together: write, read and hash in the steps that they make on what
-- they share, the cache, whose methods hold its mutex, and the files. Each message that a worker
-- handles is a task; any task may make the next step, so every number of workers, and every way of
-- giving them messages, is among the schedules. io.Copy is one step.
pub mod Alone
pub mod Content
pub mod Steps
pub mod Turns
pub mod Races
use gcp.Base.{ℕ, ℤ, zero, suc, true, false, Bytes, Str, List, [], ◌∷◌, ◌==◌, if◌then◌else◌}
use gcp.Base.Result.{Res, ok, err}
use gcp.Message.Types.{WriteReq, ReadReq, HashReq}
use gcp.Server.Os.{FileInfo}
use gcp.Server.Auth.{ConnAuth}
use gcp.Server.Cache.{Disk, get, evict, sweep}
use gcp.Server.Files.{Host, Reply, sandbox_path, unpack, read_failed, read_open}

module _ (h : Host) where
  open h use {os, sha256}

  -- What is left to do of a message: all of it, what is behind a step, or nothing.
  pub data Task : Type 0 where
    writes : WriteReq → Bytes → ConnAuth → Task
    writes_at : Str → os.File → Bytes → ℤ → Task
    drops : Str → Str → Task
    wrote : Res ℕ → Task
    reads : ReadReq → ConnAuth → Task
    stats reads_at : ReadReq → ConnAuth → os.File → Task
    has_read : Reply → Task
    hashes : HashReq → ConnAuth → Task
    seeks copies : Str → os.File → Task
    hash_drops : Str → Res Bytes → Task
    hashed : Res Bytes → Task

  abbrev pub State : Type 0
  State = Disk os

  unfoldable pub got_write : Str → Bytes → ℤ → Res os.File × State → Task × State
  got_write path bytes offset (ok fd, d) = (writes_at path fd bytes offset, d)
  got_write path bytes offset (err e, d) = (wrote (err e), d)

  unfoldable pub start_write : ℕ → WriteReq → ConnAuth → Res Bytes → State → Task × State
  unfolding got_write
  start_write now req ca (ok bytes) d =
      got_write (sandbox_path ca req.path) bytes req.offset
        (get os now (sandbox_path ca req.path) true d)
  start_write now req ca (err e) d = (wrote (err e), d)

  unfoldable pub got_read : ReadReq → ConnAuth → Res os.File × State → Task × State
  got_read req ca (ok fd, d) = (stats req ca fd, d)
  got_read req ca (err e, d) = (has_read (read_failed h req e), d)

  unfoldable pub got_hash : Str → Res os.File × State → Task × State
  got_hash path (ok fd, d) = (seeks path fd, d)
  got_hash path (err e, d) = (hash_drops path (err e), d)

  unfoldable pub behind_write_at : Str → Res ℕ → Task
  behind_write_at path (ok n) = wrote (ok n)
  behind_write_at path (err e) = drops path e

  unfoldable pub behind_stat : ReadReq → ConnAuth → os.File → Res FileInfo → Task
  behind_stat req ca fd (ok info) = reads_at req ca fd
  behind_stat req ca fd (err e) = has_read (read_failed h req e)

  unfoldable pub behind_seek : Str → os.File → Res (Unit {0}) → Task
  behind_seek path fd (ok done) = copies path fd
  behind_seek path fd (err e) = hash_drops path (err e)

  unfoldable pub behind_copy : Str → Res Bytes → Task
  behind_copy path (ok bytes) = hash_drops path (ok (sha256 bytes))
  behind_copy path (err e) = hash_drops path (err e)

  abbrev on_world : {A : Type 0} → (os.World → A × os.World) → (A → Task) → State → Task × State
  on_world f next d = let (a, w) = f d.world in (next a, record d { world = w })

  -- The next step of a task, at a time.
  unfoldable pub advance : ℕ → Task → State → Task × State
  unfolding start_write got_read got_hash behind_write_at behind_stat behind_seek behind_copy
  advance now (writes req payload ca) d = start_write now req ca (unpack h req payload ca) d
  advance now (writes_at path fd bytes offset) d =
      on_world (os.write_at fd bytes offset) (behind_write_at path) d
  advance now (drops path e) d = (wrote (err e), evict os path d)
  advance now (reads req ca) d = got_read req ca (get os now (sandbox_path ca req.path) false d)
  advance now (stats req ca fd) d = (behind_stat req ca fd (os.file_stat fd d.world), d)
  advance now (reads_at req ca fd) d = (has_read (read_open h req ca fd d.world req.size), d)
  advance now (hashes req ca) d =
      got_hash (sandbox_path ca req.path) (get os now (sandbox_path ca req.path) false d)
  advance now (seeks path fd) d = on_world (os.seek_start fd) (behind_seek path fd) d
  advance now (copies path fd) d = on_world (os.read_all fd) (behind_copy path) d
  advance now (hash_drops path r) d = (hashed r, evict os path d)
  advance now t d = (t, d)

  -- Steps of one task alone.
  unfoldable pub advances : ℕ → ℕ → Task × State → Task × State
  unfolding advance
  advances zero now s = s
  advances (suc n) now s = advances n now (advance now s.0 s.1)

  -- All tasks, with what they share.
  pub record Pool : Type 0 where
    pub tasks : ℕ → Task
    pub disk : State

  -- A step of a task, or a tick of sweepLoop.
  pub data Turn : Type 0 where
    step tick : ℕ → ℕ → Turn

  abbrev pub put_task : ℕ → Task → (ℕ → Task) → ℕ → Task
  put_task i t tasks j = if j == i then t else tasks j

  unfoldable pub take_turn : Turn → Pool → Pool
  unfolding advance
  take_turn (step i now) p =
      let (t, d) = advance now (p.tasks i) p.disk in
      record { tasks = put_task i t p.tasks; disk = d }
  take_turn (tick now idle_timeout) p = record p { disk = sweep os now idle_timeout p.disk }

  unfoldable pub take_turns : List Turn → Pool → Pool
  unfolding take_turn
  take_turns [] p = p
  take_turns (t ∷ ts) p = take_turns ts (take_turn t p)
