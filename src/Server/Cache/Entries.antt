-- ===== src/Server/Cache/Entries.antt =====
-- The keys of fdCache in serve.go.
use gcp.Base.{ℕ, inl, inr, Bool, not, ◌&&◌, Str, Bool-cases, Option-cases}
use gcp.Base.Result.{Res, ok, err}
use gcp.Base.Dict.{lookup}
use gcp.Server.Os.{Os}
use gcp.Server.Cache.{Disk, get, opened, upgraded, evict}
use gcp.Server.Cache.Handles.{Apart, insert-Apart, remove-Apart}

module _ (os : Os) where
  opened-Apart :
      (now : ℕ) (path : Str) (writable : Bool) (r : Res os.File × os.World) (d : Disk os)
      → Apart d.files
      → Apart (opened os now path writable r d).1.files
  unfolding opened
  opened-Apart now path writable (ok f, w) d a = insert-Apart path _ d.files a
  opened-Apart now path writable (err e, w) d a = a

  upgraded-Apart :
      (now : ℕ) (path : Str) (r : Res os.File × os.World) (d : Disk os)
      → Apart d.files
      → Apart (upgraded os now path r d).1.files
  unfolding upgraded
  upgraded-Apart now path (ok f, w) d a = insert-Apart path _ d.files a
  upgraded-Apart now path (err e, w) d a = remove-Apart path d.files a

  pub get-Apart :
      (now : ℕ) (path : Str) (writable : Bool) (d : Disk os)
      → Apart d.files
      → Apart (get os now path writable d).1.files
  unfolding get
  get-Apart now path writable d a = elim (Option-cases (lookup path d.files)) [
    | inl e ↦ rw (e, get) (opened-Apart now path writable _ d a)
    | inr (x, e) ↦
        rw (e, get)
          (elim (Bool-cases (writable && not x.writable)) [
            | inl k ↦ rw k (upgraded-Apart now path _ d a)
            | inr k ↦ rw k (insert-Apart path _ d.files a)
          ])
  ]

  pub evict-Apart : (path : Str) (d : Disk os) → Apart d.files → Apart (evict os path d).files
  unfolding evict
  evict-Apart path d a = elim (Option-cases (lookup path d.files)) [
    | inl e ↦ rw (e, evict) a
    | inr (x, e) ↦ rw (e, evict) (remove-Apart path d.files a)
  ]
