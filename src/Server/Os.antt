-- ===== src/Server/Os.antt =====
-- The operating system, as the server's handlers use it: the package os and its files. What the
-- operations do to the disk is left open, so what is shown of the handlers holds for every system.
use gcp.Base.{ℕ, ℤ, Bool, Bytes, Str, List, Option}
use gcp.Base.Result.{Res}

pub record FileInfo : Type 0 where
  pub size : ℤ
  pub mode : ℕ
  pub is_dir : Bool
  pub mod_time : ℤ

-- What os.Stat answers; the error of a missing path is told apart.
pub data Stat : Type 0 where
  found : FileInfo → Stat
  not_exist : Str → Stat
  stat_failed : Str → Stat

-- An entry of os.ReadDir, with what its method Info answers.
pub record OsEntry : Type 0 where
  pub name : Str
  pub is_dir : Bool
  pub info : Res FileInfo

pub record Os : Type 1 where
  pub World : Type 0
  pub File : Type 0
  pub mkdir_all : Str → ℕ → World → Res (Unit {0}) × World
  pub stat : Str → World → Stat
  -- OpenFile with O_CREATE|O_RDWR, and with O_RDWR or O_RDONLY.
  pub create_file : Str → ℕ → World → Res File × World
  pub open_file : Str → Bool → World → Res File × World
  pub close_file : File → World → World
  pub truncate : File → ℤ → World → Res (Unit {0}) × World
  pub write_at : File → Bytes → ℤ → World → Res ℕ × World
  -- The bytes that ReadAt read into a buffer of the size given, and its error.
  pub read_at : File → ℕ → ℤ → World → Bytes × Option Str
  pub file_stat : File → World → Res FileInfo
  -- Seek to the start, and io.Copy to the hash.
  pub seek_start : File → World → Res (Unit {0}) × World
  pub read_all : File → World → Res Bytes × World
  pub read_dir : Str → World → Res (List OsEntry)
