-- ===== src/Server/Files.antt =====
-- The file handlers of serve.go: create, write, read, readDir, stat and hash. Each is an action on
-- the disk that may fail, and the answer made of its outcome; the log lines are left out.
pub mod Content
pub mod Reading
pub mod Balance
use gcp.Base.{
  ℕ, ℤ, pos, negsuc, to_ℕ, int32, is_neg, Bool, true, false, not, ◌&&◌, Bytes, Str, str, List, [],
  ◌∷◌, ◌++◌, Option, none, some, length, ◌==◌, ltb, if◌then◌else◌, has_prefix, map, drop,
}
use gcp.Base.Result.{Res, ok, err}
use gcp.Base.FilePath.{join, clean, dir, is_abs}
use gcp.Base.Crc32.{checksum_ieee}
use gcp.Message.Types.{
  CreateReq, WriteReq, ReadReq, StatReq, ReadDirReq, DirEntry, HashReq, Msg, create_res, write_res,
  read_res, stat_res, read_dir_res, hash_res, encryption_none, encryption_secret_box,
}
use gcp.Transfer.Chunk.{
  Gzip, SecretBox, compress_chunk, decompress_chunk, encrypt_chunk, decrypt_chunk,
}
use gcp.Server.Os.{Os, FileInfo, Stat, found, not_exist, stat_failed, OsEntry}
use gcp.Server.Auth.{ConnAuth}
use gcp.Base.Exec.{Exec, pure, lift, ◌>>=◌, ◌>>◌}
use gcp.Server.Cache.{Disk, get, evict}

-- sandboxPath, for a connection that has authenticated.
unfoldable pub sandbox_path : ConnAuth → Str → Str
sandbox_path ca req_path =
    if has_prefix req_path (str "~/")
    then join ca.home (drop 2 req_path)
    else if is_abs req_path
    then clean req_path
    else join ca.home req_path

-- The libraries and the time that the handlers use.
pub record Host : Type 1 where
  pub os : Os
  pub gzip : Gzip
  pub box : SecretBox
  pub sha256 : Bytes → Bytes
  pub nonce : Res Bytes
  pub now : ℕ
  -- Whether make has room for so many bytes: otherwise it panics.
  pub has_room : ℕ → Bool

-- What a handler comes to: its answer with the payload, or a run-time panic.
pub data Reply : Type 0 where
  replied : Msg → Bytes → Reply
  panicked : Reply

module _ (h : Host) where
  open h use {os, gzip, box, sha256, nonce, now, has_room}

  abbrev pub State : Type 0
  State = Disk os

  -- A call of the operating system.
  abbrev on_world {ℓ} : {A : Type ℓ} → (os.World → A × os.World) → State → A × State
  on_world f d = let (a, w) = f d.world in (a, record d { world = w })

  abbrev get_file : Str → Bool → Exec State os.File
  get_file path writable = get os now path writable

  -- The last part of create: what Stat says of the path decides.
  unfoldable pub create_missing : CreateReq → Str → Stat → Exec State (Unit {0})
  create_missing req spath (found info) d =
      if info.is_dir then (err (str "path is a directory"), d) else (ok tt, d)
  create_missing req spath (stat_failed e) d = (err e, d)
  create_missing req spath (not_exist e) d =
      let (r, w) = os.create_file spath req.mode d.world in
      elim r [
        | err e' ↦ (err e', record d { world = w })
        | ok fd ↦
            (let (t, w') =
                (if not (is_neg req.size) && ltb 0 (to_ℕ req.size)
                  then os.truncate fd req.size w
                  else (ok tt, w)) in
              (t, record d { world = os.close_file fd w' }))
      ]

  unfoldable pub create_path : CreateReq → ConnAuth → Exec State (Unit {0})
  unfolding create_missing
  create_path req ca =
      let spath = sandbox_path ca req.path in
      if req.is_dir
      then on_world (os.mkdir_all spath req.mode)
      else (on_world (os.mkdir_all (dir spath) 493) >> λ d.
          create_missing req spath (os.stat spath d.world) d)

  abbrev pub create_answer : CreateReq → Res (Unit {0}) → Reply
  create_answer req (ok done) =
      replied (create_res (record { id = req.id; success = true; error = [] })) []
  create_answer req (err e) =
      replied (create_res (record { id = req.id; success = false; error = e })) []

  unfoldable pub create : CreateReq → ConnAuth → State → Reply × State
  unfolding create_path
  create req ca d = let (r, d') = create_path req ca d in (create_answer req r, d')

  -- write, up to the bytes to store: the checksum of what came, then decrypted, then decompressed.
  unfoldable pub unpack : WriteReq → Bytes → ConnAuth → Res Bytes
  unpack req payload ca =
      if not (req.checksum == 0) && not (checksum_ieee payload == req.checksum)
      then err (str "checksum mismatch")
      else elim (if req.encryption == encryption_secret_box
          then decrypt_chunk box payload ca.encryption_key
          else ok payload) [
            | ok chunk ↦ decompress_chunk gzip chunk req.compression
            | err e ↦ err (str "decrypt: " ++ e)
          ]

  -- A WriteAt that fails evicts the path.
  unfoldable pub write_file : Str → os.File → Bytes → ℤ → Exec State ℕ
  write_file spath fd bytes offset d =
      let (r, w) = os.write_at fd bytes offset d.world in
      elim r [
        | ok n ↦ (ok n, record d { world = w })
        | err e ↦ (err e, evict os spath (record d { world = w }))
      ]

  unfoldable pub write_chunk : WriteReq → Bytes → ConnAuth → Exec State ℕ
  unfolding unpack write_file
  write_chunk req payload ca = do
    bytes ← lift (unpack req payload ca)
    fd ← get_file (sandbox_path ca req.path) true
    write_file (sandbox_path ca req.path) fd bytes req.offset

  abbrev pub write_answer : WriteReq → Res ℕ → Reply
  write_answer req (ok n) =
      replied (write_res (record { id = req.id; success = true; n = int32 n; error = [] })) []
  write_answer req (err e) =
      replied (write_res (record { id = req.id; success = false; n = pos 0; error = e })) []

  unfoldable pub write : WriteReq → Bytes → ConnAuth → State → Reply × State
  unfolding write_chunk
  write req payload ca d = let (r, d') = write_chunk req payload ca d in (write_answer req r, d')

  -- read, from the bytes read on: compressed, then encrypted. The two algorithms come back.
  unfoldable pub pack : ReadReq → ConnAuth → Bytes → Res (Bytes × ℕ × ℕ)
  pack req ca bytes = elim (compress_chunk gzip bytes req.compression) [
    | err e ↦ err e
    | ok (compressed, algo) ↦
        (if req.encryption == encryption_secret_box
          then (elim (encrypt_chunk box nonce compressed ca.encryption_key) [
            | ok sent ↦ ok (sent, algo, encryption_secret_box)
            | err e ↦ err (str "encrypt: " ++ e)
          ])
          else ok (compressed, algo, encryption_none))
  ]

  abbrev pub read_failed : ReadReq → Str → Reply
  read_failed req e =
      replied
        (read_res (record {
          id = req.id;
          success = false;
          n = pos 0;
          checksum = 0;
          compression = 0;
          encryption = 0;
          error = e;
        }))
        []

  abbrev pub read_answer : ReadReq → Res (Bytes × ℕ × ℕ) → Reply
  read_answer req (err e) = read_failed req e
  read_answer req (ok (sent, algo, enc)) =
      replied
        (read_res (record {
          id = req.id;
          success = true;
          n = pos (length sent);
          checksum = checksum_ieee sent;
          compression = algo;
          encryption = enc;
          error = [];
        }))
        sent

  -- ReadAt's error counts only where nothing was read.
  unfoldable pub read_result : Bytes × Option Str → Res Bytes
  read_result (bytes, none) = ok bytes
  read_result ([], some e) = err e
  read_result (b ∷ bytes, some e) = ok (b ∷ bytes)

  -- make([]byte, req.Size) panics on a negative size, and on one that there is no room for.
  unfoldable pub read_open : ReadReq → ConnAuth → os.File → os.World → ℤ → Reply
  unfolding pack read_result
  read_open req ca fd w (negsuc n) = panicked
  read_open req ca fd w (pos size) =
      if has_room size
      then (elim (read_result (os.read_at fd size req.offset w)) [
        | ok bytes ↦ read_answer req (pack req ca bytes)
        | err e ↦ read_failed req e
      ])
      else panicked

  unfoldable pub read_stat : ReadReq → ConnAuth → os.File → os.World → Res FileInfo → Reply
  read_stat req ca fd w (err e) = read_failed req e
  read_stat req ca fd w (ok info) = read_open req ca fd w req.size

  unfoldable pub read_got : ReadReq → ConnAuth → Res os.File × State → Reply × State
  unfolding read_open read_stat
  read_got req ca (ok fd, d) = (read_stat req ca fd d.world (os.file_stat fd d.world), d)
  read_got req ca (err e, d) = (read_failed req e, d)

  unfoldable pub read : ReadReq → ConnAuth → State → Reply × State
  unfolding read_got
  read req ca d = read_got req ca (get_file (sandbox_path ca req.path) false d)

  unfoldable pub dir_entry : OsEntry → DirEntry
  dir_entry e = elim e.info [
    | ok info ↦ record {
      is_dir = e.is_dir;
      mode = info.mode;
      name = e.name;
      size = info.size;
      mod_time = info.mod_time;
    }
    | err text ↦ record {
      is_dir = e.is_dir;
      mode = 0;
      name = e.name;
      size = pos 0;
      mod_time = pos 0;
    }
  ]

  abbrev pub read_dir_answer : ReadDirReq → Res (List OsEntry) → Reply
  read_dir_answer req (ok entries) =
      replied
        (read_dir_res
          (record { id = req.id; success = true; entries = map dir_entry entries; error = [] }))
        []
  read_dir_answer req (err e) =
      replied (read_dir_res (record { id = req.id; success = false; entries = []; error = e })) []

  unfoldable pub read_dir : ReadDirReq → ConnAuth → State → Reply × State
  unfolding dir_entry
  read_dir req ca d = (read_dir_answer req (os.read_dir (sandbox_path ca req.path) d.world), d)

  abbrev pub stat_failure : StatReq → Str → Reply
  stat_failure req e =
      replied
        (stat_res (record {
          id = req.id;
          success = false;
          size = pos 0;
          mode = 0;
          is_dir = false;
          error = e;
        }))
        []

  abbrev pub stat_answer : StatReq → Stat → Reply
  stat_answer req (found info) =
      replied
        (stat_res (record {
          id = req.id;
          success = true;
          size = info.size;
          mode = info.mode;
          is_dir = info.is_dir;
          error = [];
        }))
        []
  stat_answer req (not_exist e) = stat_failure req e
  stat_answer req (stat_failed e) = stat_failure req e

  unfoldable pub stat : StatReq → ConnAuth → State → Reply × State
  stat req ca d = (stat_answer req (os.stat (sandbox_path ca req.path) d.world), d)

  unfoldable pub hash_file : HashReq → ConnAuth → Exec State Bytes
  hash_file req ca = do
    fd ← get_file (sandbox_path ca req.path) false
    on_world (os.seek_start fd)
    bytes ← on_world (os.read_all fd)
    pure (sha256 bytes)

  abbrev pub hash_answer : HashReq → Res Bytes → Reply
  hash_answer req (ok digest) =
      replied (hash_res (record { id = req.id; success = true; hash = digest; error = [] })) []
  hash_answer req (err e) =
      replied (hash_res (record { id = req.id; success = false; hash = []; error = e })) []

  -- The path is evicted behind the answer, whatever that is.
  unfoldable pub hash : HashReq → ConnAuth → State → Reply × State
  unfolding hash_file
  hash req ca d =
      let (r, d') = hash_file req ca d in
      (hash_answer req r, evict os (sandbox_path ca req.path) d')
