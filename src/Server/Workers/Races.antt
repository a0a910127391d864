-- ===== src/Server/Workers/Races.antt =====
-- Two workers of serve.go that hash one file at a time: they have one descriptor, with one offset.
use gcp.Base.{ℕ, ◌≡◌, refl, ◌∙◌, false, Bytes, Str, List, [], ◌∷◌, some, equal_refl}
use gcp.Base.Result.{ok}
use gcp.Base.Dict.{lookup, insert, lookup-insert}
use gcp.Message.Types.{HashReq}
use gcp.Server.Auth.{ConnAuth}
use gcp.Server.Cache.{FdEntry, Disk, get}
use gcp.Server.Cache.Laws.{entry}
use gcp.Server.Files.{Host, sandbox_path}
use gcp.Server.Workers.{
  hashes, hashed, got_hash, behind_seek, behind_copy, advance, advances, Pool, Turn, step,
  take_turns,
}

-- What the server relies on in the offset of an open file: Seek goes to the start, from where
-- io.Copy reads the content of the file; and behind an io.Copy there is nothing to read.
pub record HasOffset (h : Host) (f : h.os.File) : Type 0 where
  pub content : h.os.World → Bytes
  pub seeks_ok : (w : h.os.World) → (h.os.seek_start f w).0 ≡ ok tt
  pub reads_content :
      (w : h.os.World) → (h.os.read_all f (h.os.seek_start f w).1).0 ≡ ok (content w)
  pub reads_none :
      (w : h.os.World) (bytes : Bytes)
      → (h.os.read_all f w).0 ≡ ok bytes
      → (h.os.read_all f (h.os.read_all f w).1).0 ≡ ok []

module _ (h : Host) where
  get_cached :
      (now : ℕ) (path : Str) (d : Disk h.os) (e : FdEntry h.os)
      → entry h.os path d ≡ some e
      → get h.os now path false d
        ≡ (ok e.file, record d { files = insert path (record e { last_access = now }) d.files })
  unfolding get
  get_cached now path d e at = rw (at, get) refl

  entry_again :
      (now : ℕ) (path : Str) (d : Disk h.os) (e : FdEntry h.os)
      → lookup path (insert path (record e { last_access = now }) d.files)
        ≡ some (record e { last_access = now })
  entry_again now path d e =
      lookup-insert path path (record e { last_access = now }) d.files ∙ rw (equal_refl path) refl

  -- The first task and the second take each step one behind the other.
  abbrev pub in_step : ℕ → List (Turn h)
  in_step now =
      step 0 now ∷ step 1 now ∷ step 0 now ∷ step 1 now ∷ step 0 now ∷ step 1 now ∷ step 1 now ∷ []

  abbrev pub all_hash : HashReq → ConnAuth → Disk h.os → Pool h
  all_hash req ca d = record { tasks = λ j. hashes req ca; disk = d }

  alone :
      (now : ℕ) (req : HashReq) (ca : ConnAuth) (d : Disk h.os) (e : FdEntry h.os)
      (o : HasOffset h e.file)
      → entry h.os (sandbox_path ca req.path) d ≡ some e
      → (advances h 4 now (hashes req ca, d)).0 ≡ hashed (ok (h.sha256 (o.content d.world)))
  unfolding advances advance got_hash behind_seek behind_copy
  alone now req ca d e o at =
      rw
        (
          get_cached now (sandbox_path ca req.path) d e at,
          o.seeks_ok d.world,
          o.reads_content d.world,
          advances,
        )
        refl

  raced :
      (now : ℕ) (req : HashReq) (ca : ConnAuth) (d : Disk h.os) (e : FdEntry h.os)
      (o : HasOffset h e.file)
      → entry h.os (sandbox_path ca req.path) d ≡ some e
      → (take_turns h (in_step now) (all_hash req ca d)).tasks 1 ≡ hashed (ok (h.sha256 []))
  unfolding take_turns advance got_hash behind_seek behind_copy
  raced now req ca d e o at =
      let path = sandbox_path ca req.path in
      let d1 : Disk h.os = record d {
        files = insert path (record e { last_access = now }) d.files;
      } in
      let w1 = (h.os.seek_start e.file d.world).1 in
      let w2 = (h.os.seek_start e.file w1).1 in
      let first = o.reads_content w1 in
      rw
        (
          get_cached now path d e at,
          get_cached now path d1 (record e { last_access = now }) (entry_again now path d e),
          o.seeks_ok d.world,
          o.seeks_ok w1,
          o.reads_none w2 (o.content w1) first,
          take_turns,
        )
        refl

  -- A request for the hash of a file that is open in the cache gets the hash of its bytes if it is
  -- handled alone; but if two are handled at a time, one step of the one and one of the other,
  -- the second gets the hash of no bytes, whatever is in the file.
  pub take_turns-hashes :
      (now : ℕ) (req : HashReq) (ca : ConnAuth) (d : Disk h.os) (e : FdEntry h.os)
      (o : HasOffset h e.file)
      → entry h.os (sandbox_path ca req.path) d ≡ some e
      → ((advances h 4 now (hashes req ca, d)).0 ≡ hashed (ok (h.sha256 (o.content d.world))))
        × ((take_turns h (in_step now) (all_hash req ca d)).tasks 1 ≡ hashed (ok (h.sha256 [])))
  take_turns-hashes now req ca d e o at = (alone now req ca d e o at, raced now req ca d e o at)
