-- ===== src/Server/Cache.antt =====
-- fdCache of serve.go. Each method holds the mutex, so it is one step; the time is an argument.
pub mod Laws
pub mod Content
pub mod Handles
pub mod Descriptors
pub mod Sweeps
pub mod Entries
use gcp.Base.{
  ℕ, ◌-◌, ◌≡◌, refl, Bool, true, false, not, ◌&&◌, Str, List, [], ◌∷◌, Option, none, some, ltb,
  if◌then◌else◌,
}
use gcp.Base.Result.{Res, ok, err}
use gcp.Base.Dict.{lookup, insert, remove}
use gcp.Server.Os.{Os}

module _ (os : Os) where
  open os use {World, File, open_file, close_file}

  pub record FdEntry : Type 0 where
    pub file : File
    pub writable : Bool
    pub last_access : ℕ

  -- The map of the cache, with the world that its files are open in.
  pub record Disk : Type 0 where
    pub world : World
    pub files : List (Str × FdEntry)

  unfoldable pub new_fd_cache : World → Disk
  new_fd_cache w = record { world = w; files = [] }

  -- Behind OpenFile in the branch that upgrades an entry.
  unfoldable pub upgraded : ℕ → Str → Res File × World → Disk → Res File × Disk
  upgraded now path (ok f, w) d = (
    ok f,
    record {
      world = w;
      files = insert path (record { file = f; writable = true; last_access = now }) d.files;
    },
  )
  upgraded now path (err e, w) d = (err e, record { world = w; files = remove path d.files })

  -- Behind OpenFile for a path that has no entry.
  unfoldable pub opened : ℕ → Str → Bool → Res File × World → Disk → Res File × Disk
  opened now path writable (ok f, w) d = (
    ok f,
    record {
      world = w;
      files = insert path (record { file = f; writable = writable; last_access = now }) d.files;
    },
  )
  opened now path writable (err e, w) d = (err e, record d { world = w })

  unfoldable pub get : ℕ → Str → Bool → Disk → Res File × Disk
  unfolding upgraded opened
  get now path writable d = elim (lookup path d.files) [
    | none ↦ opened now path writable (open_file path writable d.world) d
    | some e ↦
        (if writable && not e.writable
          then upgraded now path (open_file path true (close_file e.file d.world)) d
          else (
            ok e.file,
            record d { files = insert path (record e { last_access = now }) d.files },
          ))
  ]

  unfoldable pub evict : Str → Disk → Disk
  evict path d = elim (lookup path d.files) [
    | none ↦ d
    | some e ↦ record { world = close_file e.file d.world; files = remove path d.files }
  ]

  unfoldable pub close_files : List (Str × FdEntry) → World → World
  close_files [] w = w
  close_files ((path, e) ∷ rest) w = close_files rest (close_file e.file w)

  -- close, once the sweep has stopped.
  unfoldable pub close : Disk → Disk
  unfolding close_files
  close d = record { world = close_files d.files d.world; files = [] }

  -- A tick of sweepLoop over the entries left: what stays, and the world after the closings.
  unfoldable pub sweep_entries : ℕ → ℕ → List (Str × FdEntry) → World → List (Str × FdEntry) × World
  sweep_entries now idle_timeout [] w = ([], w)
  sweep_entries now idle_timeout ((path, e) ∷ rest) w =
      elim (ltb idle_timeout (now - e.last_access)) [
        | true ↦ sweep_entries now idle_timeout rest (close_file e.file w)
        | false ↦ (let (kept, w') = sweep_entries now idle_timeout rest w in ((path, e) ∷ kept, w'))
      ]

  unfoldable pub sweep : ℕ → ℕ → Disk → Disk
  unfolding sweep_entries
  sweep now idle_timeout d =
      let (kept, w) = sweep_entries now idle_timeout d.files d.world in
      record { world = w; files = kept }
