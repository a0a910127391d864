-- ===== src/Server/Cache/Laws.antt =====
-- fdCache of serve.go: its entries after get and evict.
use gcp.Base.{
  ℕ, ◌≡◌, refl, inl, inr, Bool, true, false, not, ◌&&◌, Str, Option, none, some, if◌then◌else◌,
  arith, Option-cases, Bool-cases, equal, equal_refl, equal_iff,
}
use gcp.Base.Result.{Res, ok, err}
use gcp.Base.Dict.{lookup, insert, lookup-insert, lookup-remove}
use gcp.Server.Os.{Os}
use gcp.Server.Cache.{FdEntry, Disk, get, opened, upgraded, evict}

module _ (os : Os) where
  abbrev pub entry : Str → Disk os → Option (FdEntry os)
  entry path d = lookup path d.files

  -- The cache holds `f` for the path since now, and the other entries of `d`.
  pub record Holds (now : ℕ) (path : Str) (writable : Bool) (d d' : Disk os) (f : os.File)
      : Type 0 where
    pub held : FdEntry os
    pub at_path : entry path d' ≡ some held
    pub file_is : held.file ≡ f
    pub access_is : held.last_access ≡ now
    pub writable_is : (writable && not held.writable) ≡ false
    pub elsewhere : (other : Str) → equal path other ≡ false → entry other d' ≡ entry other d

  insert-Holds :
      (now : ℕ) (path : Str) (writable : Bool) (d : Disk os) (w : os.World) (e : FdEntry os)
      → e.last_access ≡ now
      → (writable && not e.writable) ≡ false
      → Holds now path writable d (record { world = w; files = insert path e d.files }) e.file
  insert-Holds now path writable d w e a b = record {
    held = e;
    at_path = rw (lookup-insert path path e d.files, equal_refl path) refl;
    file_is = refl;
    access_is = a;
    writable_is = b;
    elsewhere = λ other ne. rw (lookup-insert path other e d.files, ne) refl;
  }

  opened-Holds :
      (now : ℕ) (path : Str) (writable : Bool) (d : Disk os) (r : Res os.File × os.World)
      (f : os.File)
      → (opened os now path writable r d).0 ≡ ok f
      → Holds now path writable d (opened os now path writable r d).1 f
  unfolding opened
  opened-Holds now path writable d (ok g, w) f h =
      let same : g ≡ f = ground arith in
      rw (← same) (insert-Holds now path writable d w _ refl (ground arith))
  opened-Holds now path writable d (err e, w) f h = cc

  upgraded-Holds :
      (now : ℕ) (path : Str) (d : Disk os) (r : Res os.File × os.World) (f : os.File)
      → (upgraded os now path r d).0 ≡ ok f
      → Holds now path true d (upgraded os now path r d).1 f
  unfolding upgraded
  upgraded-Holds now path d (ok g, w) f h =
      let same : g ≡ f = ground arith in rw (← same) (insert-Holds now path true d w _ refl refl)
  upgraded-Holds now path d (err e, w) f h = cc

  cached_Holds :
      (now : ℕ) (path : Str) (writable : Bool) (d : Disk os) (e : FdEntry os)
      → (b : Bool) → (writable && not e.writable) ≡ b
      → (f : os.File)
      → (if b
          then upgraded os now path (os.open_file path true (os.close_file e.file d.world)) d
          else (
            ok e.file,
            record d { files = insert path (record e { last_access = now }) d.files },
          )).0
        ≡ ok f
      → Holds now path writable d
          (if b
            then upgraded os now path (os.open_file path true (os.close_file e.file d.world)) d
            else (
              ok e.file,
              record d { files = insert path (record e { last_access = now }) d.files },
            )).1
          f
  cached_Holds now path true d e true k f h = upgraded-Holds now path d _ f h
  cached_Holds now path false d e true k f h = cc
  cached_Holds now path writable d e false k f h =
      let same : e.file ≡ f = ground arith in
      rw (← same) (insert-Holds now path writable d d.world (record e { last_access = now }) refl k)

  -- After a get that succeeds, the entry of the path holds the file answered, with the time of the
  -- call, and is writable if the caller asked for that; the entries of other paths are as before.
  pub get-Holds :
      (now : ℕ) (path : Str) (writable : Bool) (d : Disk os) (f : os.File)
      → (get os now path writable d).0 ≡ ok f
      → Holds now path writable d (get os now path writable d).1 f
  unfolding get
  get-Holds now path writable d f h = elim (Option-cases (lookup path d.files)) [
    | inl e ↦ rw (e, get) (opened-Holds now path writable d _ f (rw (e, get) at h))
    | inr (x, e) ↦ rw (e, get) (cached_Holds now path writable d x _ refl f (rw (e, get) at h))
  ]

  opened_fails :
      (now : ℕ) (path other text : Str) (writable : Bool) (d : Disk os) (r : Res os.File × os.World)
      → entry path d ≡ none
      → (opened os now path writable r d).0 ≡ err text
      → entry other (opened os now path writable r d).1
        ≡ (if equal path other then none else entry other d)
  unfolding opened
  opened_fails now path other text writable d (ok f, w) e k = cc
  opened_fails now path other text writable d (err x, w) e k =
      elim (Bool-cases (equal path other)) [
        | inl t ↦ rw (t, ← (equal_iff path other).0 t) e
        | inr f ↦ rw f refl
      ]

  cached_fails :
      (now : ℕ) (path other text : Str) (d : Disk os) (x : FdEntry os) (b : Bool)
      (r : Res os.File × os.World)
      → (if b then upgraded os now path r d else (
        ok x.file,
        record d { files = insert path (record x { last_access = now }) d.files },
      )).0
        ≡ err text
      → entry other
          (if b then upgraded os now path r d else (
            ok x.file,
            record d { files = insert path (record x { last_access = now }) d.files },
          )).1
        ≡ (if equal path other then none else entry other d)
  unfolding upgraded
  cached_fails now path other text d x true (ok f, w) k = cc
  cached_fails now path other text d x true (err e, w) k = lookup-remove path other d.files
  cached_fails now path other text d x false r k = cc

  -- A get that fails leaves no entry for its path, so that the next one opens the file anew, and
  -- keeps the entries of other paths.
  pub get_fails :
      (now : ℕ) (path other text : Str) (writable : Bool) (d : Disk os)
      → (get os now path writable d).0 ≡ err text
      → entry other (get os now path writable d).1
        ≡ (if equal path other then none else entry other d)
  unfolding get
  get_fails now path other text writable d h = elim (Option-cases (lookup path d.files)) [
    | inl e ↦ rw (e, get) (opened_fails now path other text writable d _ e (rw (e, get) at h))
    | inr (x, e) ↦
        rw (e, get)
          (cached_fails now path other text d x (writable && not x.writable)
            (os.open_file path true (os.close_file x.file d.world)) (rw (e, get) at h))
  ]

  -- After evict the path has no entry, and the others are as before.
  pub entry-evict :
      (path other : Str) (d : Disk os)
      → entry other (evict os path d) ≡ (if equal path other then none else entry other d)
  unfolding evict
  entry-evict path other d = elim (Option-cases (lookup path d.files)) [
    | inl e ↦
        rw (e, evict)
          (elim (Bool-cases (equal path other)) [
            | inl t ↦ rw (t, ← (equal_iff path other).0 t) e
            | inr f ↦ rw f refl
          ])
    | inr (x, e) ↦ rw (e, evict) (lookup-remove path other d.files)
  ]
