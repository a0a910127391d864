-- ===== src/Transfer/WorkerTests.antt =====
-- The claims on workers at work together, at a write and hashes of one file.
use gcp.Base.{
  ℕ, pos, ◌≡◌, refl, true, false, Bytes, Str, str, List, [], ◌∷◌, some, none, drop, arith, ◌==◌,
  if◌then◌else◌, equal, ltb,
}
use gcp.Base.Result.{ok}
use gcp.Base.Dict.{lookup}
use gcp.Message.Types.{WriteReq, ReadReq, HashReq}
use gcp.Server.Os.{Os}
use gcp.Server.Cache.{FdEntry, Disk}
use gcp.Server.Cache.Content.{Named}
use gcp.Server.Files.{Host, write, write_chunk, read, hash, hash_file}
use gcp.Server.Workers.{writes, hashes, hashed, advances, Pool, Turn, step, tick, take_turns}
use gcp.Server.Workers.Turns.{take_turns-writes, Starts}
use gcp.Server.Workers.Content.{covers, value, Succeeded}
use gcp.Server.Workers.Races.{HasOffset, in_step, all_hash, take_turns-hashes}
use gcp.Server.Fixtures.{os, gzip, box, nonce, ann}
use gcp.Transfer.Fixtures.{host, files, host_refuses}

abbrev write_f : WriteReq
write_f = record {
  id = pos 3;
  path = str "f";
  offset = pos 1;
  checksum = 0;
  compression = 0;
  encryption = 0;
}

abbrev read_f : ReadReq
read_f = record {
  id = pos 4;
  path = str "f";
  offset = pos 0;
  size = pos 2;
  compression = 0;
  encryption = 0;
}

abbrev hash_f : HashReq
hash_f = record { id = pos 5; path = str "f" }

abbrev disk : Disk host.os
disk = record { world = λ q i. 0; files = [] }

-- One write, and hashes that evict its descriptor.
abbrev pool : Pool host
pool = record {
  tasks = λ j. if j == 0 then writes write_f (7 ∷ 8 ∷ []) ann else hashes hash_f ann;
  disk = disk;
}

abbrev schedule : List (Turn host)
schedule =
    step 0 1 ∷ step 1 2 ∷ step 1 2 ∷ step 2 3 ∷ tick 50 30 ∷ step 0 51 ∷ step 1 52 ∷ step 1 53 ∷ []

starts : (j : ℕ) → Starts host files (pool.tasks j)
starts j =
    elim (j == 0)
      as (λ b.
        Starts host files (if b then writes write_f (7 ∷ 8 ∷ []) ann else hashes hash_f ann)) [
          | true ↦ tt
          | false ↦ tt
        ]

lone : (j : ℕ) → (j == 0) ≡ false → covers host files (pool.tasks j) (str "/a/f") 2 ≡ false
unfolding covers
lone j e = rw (e, covers) refl

succeeds : Succeeded host files ((take_turns host schedule pool).tasks 0)
unfolding take_turns gcp.Server.Files.unpack gcp.Transfer.Chunk.decompress_chunk
    gcp.Server.Cache.get lookup
succeeds = tt

no_files : Named host.os files disk
unfolding lookup
no_files q e k = absurd (cc k)

take_turns-writes_example :
    files.byte_at (take_turns host schedule pool).disk.world (str "/a/f") 2 ≡ (
      if covers host files (pool.tasks 0) (str "/a/f") 2
      then value host files (pool.tasks 0) 2
      else files.byte_at disk.world (str "/a/f") 2)
take_turns-writes_example =
    take_turns-writes host files host_refuses 0 (str "/a/f") 2 pool schedule tt no_files starts lone
      (λ c. succeeds)

-- A file of two bytes, behind one descriptor with its offset.
abbrev offset_os : Os
offset_os = record os {
  seek_start = λ f w. (ok tt, 0);
  read_all = λ f w. (ok (drop w (7 ∷ 8 ∷ [])), 2);
}

abbrev offset_host : Host
offset_host = record {
  os = offset_os;
  gzip = gzip;
  box = box;
  sha256 = λ b. b;
  nonce = ok nonce;
  now = 100;
  has_room = λ n. ltb n 65536;
}

abbrev open_f : FdEntry offset_os
open_f = record { file = str "/a/f"; writable = false; last_access = 5 }

abbrev open_disk : Disk offset_os
open_disk = record { world = 2; files = (str "/a/f", open_f) ∷ [] }

has_offset : HasOffset offset_host open_f.file
has_offset = record {
  content = λ w. 7 ∷ 8 ∷ [];
  seeks_ok = λ w. refl;
  reads_content = λ w. refl;
  reads_none = λ w bytes e. refl;
}

take_turns-hashes_example :
    ((advances offset_host 4 9 (hashes hash_f ann, open_disk)).0 ≡ hashed (ok (7 ∷ 8 ∷ [])))
    × ((take_turns offset_host
            (in_step offset_host 9)
            (all_hash offset_host hash_f ann open_disk)).tasks
          1
        ≡ hashed (ok []))
unfolding has_offset lookup equal gcp.Server.Files.sandbox_path gcp.Base.has_prefix
    gcp.Base.FilePath.is_abs gcp.Base.FilePath.join
take_turns-hashes_example =
    take_turns-hashes offset_host 9 hash_f ann open_disk open_f has_offset refl
