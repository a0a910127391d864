-- ===== src/Server/Cache/Content.antt =====
-- fdCache of serve.go over a file system: what the files hold, and which file an entry has.
use gcp.Base.{
  ℕ, pos, ◌+◌, ◌-◌, ◌≡◌, refl, sym, subst, ap, ◌∙◌, inl, inr, Bool, true, false, not, ◌&&◌, Bytes,
  Str, some, length, ltb, leb, get_or, if◌then◌else◌, arith, Option-cases, Bool-cases, equal,
  equal_iff,
}
use gcp.Base.Result.{Res, ok, err, Res-cases}
use gcp.Base.Dict.{lookup, insert}
use gcp.Server.Os.{Os}
use gcp.Server.Cache.{FdEntry, Disk, get, opened, upgraded, evict}
use gcp.Server.Cache.Laws.{entry, get-Holds, get_fails, entry-evict}

-- The byte `i` is one of the `n` from `offset` on.
abbrev pub within : ℕ → ℕ → ℕ → Bool
within offset n i = leb offset i && ltb i (offset + n)

-- What the server relies on in files that no other program changes: an open file is that of its
-- path, a write that succeeds puts its bytes at its offset, and nothing else changes a byte.
pub record IsFileSystem (os : Os) : Type 0 where
  pub byte_at : os.World → Str → ℕ → ℕ
  pub path_of : os.File → Str
  pub path_of-open_file :
      (path : Str) (writable : Bool) (w : os.World) (f : os.File)
      → (os.open_file path writable w).0 ≡ ok f
      → path_of f ≡ path
  pub byte_at-open_file :
      (path q : Str) (writable : Bool) (w : os.World) (i : ℕ)
      → byte_at (os.open_file path writable w).1 q i ≡ byte_at w q i
  pub byte_at-close_file :
      (f : os.File) (q : Str) (w : os.World) (i : ℕ)
      → byte_at (os.close_file f w) q i ≡ byte_at w q i
  pub byte_at-write_at :
      (f : os.File) (bs : Bytes) (offset n i : ℕ) (w : os.World)
      → (os.write_at f bs (pos offset) w).0 ≡ ok n
      → within offset (length bs) i ≡ true
      → byte_at (os.write_at f bs (pos offset) w).1 (path_of f) i ≡ get_or bs (i - offset) 0
  pub byte_at-write_at_outside :
      (f : os.File) (bs : Bytes) (offset i : ℕ) (q : Str) (w : os.World)
      → (equal (path_of f) q && within offset (length bs) i) ≡ false
      → byte_at (os.write_at f bs (pos offset) w).1 q i ≡ byte_at w q i
  pub byte_at-seek_start :
      (f : os.File) (q : Str) (w : os.World) (i : ℕ)
      → byte_at (os.seek_start f w).1 q i ≡ byte_at w q i
  pub byte_at-read_all :
      (f : os.File) (q : Str) (w : os.World) (i : ℕ)
      → byte_at (os.read_all f w).1 q i ≡ byte_at w q i

module _ (os : Os) (fs : IsFileSystem os) where
  open fs use {byte_at, path_of, path_of-open_file, byte_at-open_file, byte_at-close_file}

  -- Each entry has the file of its path.
  abbrev pub Named : Disk os → Type 0
  Named d = (q : Str) (e : FdEntry os) → entry os q d ≡ some e → path_of e.file ≡ q

  -- The bytes of all files are as before.
  abbrev pub Unchanged : Disk os → Disk os → Type 0
  Unchanged d d' = (q : Str) (i : ℕ) → byte_at d'.world q i ≡ byte_at d.world q i

  opened_path :
      (now : ℕ) (path : Str) (writable : Bool) (r : Res os.File × os.World) (d : Disk os)
      (f : os.File)
      → ((g : os.File) → r.0 ≡ ok g → path_of g ≡ path)
      → (opened os now path writable r d).0 ≡ ok f
      → path_of f ≡ path
  unfolding opened
  opened_path now path writable (ok g, w) d f at h = at f h
  opened_path now path writable (err e, w) d f at h = cc

  cached_path :
      (now : ℕ) (path : Str) (r : Res os.File × os.World) (d : Disk os) (x : FdEntry os) (b : Bool)
      (f : os.File)
      → ((g : os.File) → r.0 ≡ ok g → path_of g ≡ path)
      → path_of x.file ≡ path
      → (if b then upgraded os now path r d else (
        ok x.file,
        record d { files = insert path (record x { last_access = now }) d.files },
      )).0
        ≡ ok f
      → path_of f ≡ path
  unfolding upgraded
  cached_path now path (ok g, w) d x true f at named h = at f h
  cached_path now path (err e, w) d x true f at named h = cc
  cached_path now path r d x false f at named h =
      let same : x.file ≡ f = ground arith in rw (← same) named

  -- The file that get answers with is that of the path.
  pub path_of-get :
      (now : ℕ) (path : Str) (writable : Bool) (d : Disk os) (f : os.File)
      → Named d
      → (get os now path writable d).0 ≡ ok f
      → path_of f ≡ path
  unfolding get
  path_of-get now path writable d f named h = elim (Option-cases (lookup path d.files)) [
    | inl e ↦
        opened_path now path writable (os.open_file path writable d.world) d f
          (path_of-open_file path writable d.world) (rw (e, get) at h)
    | inr (x, e) ↦
        cached_path now path (os.open_file path true (os.close_file x.file d.world)) d x
          (writable && not x.writable) f
          (path_of-open_file path true (os.close_file x.file d.world)) (named path x e)
          (rw (e, get) at h)
  ]

  opened_world :
      (now : ℕ) (path : Str) (writable : Bool) (r : Res os.File × os.World) (d : Disk os)
      → (opened os now path writable r d).1.world ≡ r.1
  unfolding opened
  opened_world now path writable (ok f, w) d = refl
  opened_world now path writable (err e, w) d = refl

  upgraded_world :
      (now : ℕ) (path : Str) (r : Res os.File × os.World) (d : Disk os)
      → (upgraded os now path r d).1.world ≡ r.1
  unfolding upgraded
  upgraded_world now path (ok f, w) d = refl
  upgraded_world now path (err e, w) d = refl

  -- What neither opening nor closing a file changes, get does not change.
  pub get_keeps :
      {A : Type 0} (view : os.World → A)
      → ((path : Str) (writable : Bool) (w : os.World)
          → view (os.open_file path writable w).1 ≡ view w)
      → ((f : os.File) (w : os.World) → view (os.close_file f w) ≡ view w)
      → (now : ℕ) (path : Str) (writable : Bool) (d : Disk os)
      → view (get os now path writable d).1.world ≡ view d.world
  unfolding get
  get_keeps view opens closes now path writable d = elim (Option-cases (lookup path d.files)) [
    | inl e ↦
        rw (e, get)
          (rw (opened_world now path writable (os.open_file path writable d.world) d)
            (opens path writable d.world))
    | inr (x, e) ↦
        rw (e, get)
          (elim (Bool-cases (writable && not x.writable)) [
            | inr k ↦ rw k refl
            | inl k ↦ rw k (
                rw
                  (upgraded_world now path (os.open_file path true (os.close_file x.file d.world))
                    d)
                  (opens path true (os.close_file x.file d.world) ∙ closes x.file d.world))
          ])
  ]

  pub get-Unchanged :
      (now : ℕ) (path : Str) (writable : Bool) (d : Disk os)
      → Unchanged d (get os now path writable d).1
  get-Unchanged now path writable d q i =
      get_keeps (λ w. byte_at w q i) (λ p k w. byte_at-open_file p q k w i)
        (λ f w. byte_at-close_file f q w i) now path writable d

  pub get-Named :
      (now : ℕ) (path : Str) (writable : Bool) (d : Disk os)
      → Named d
      → Named (get os now path writable d).1
  get-Named now path writable d named q e at = elim (Res-cases (get os now path writable d).0) [
    | inr (text, r) ↦
        let kept = get_fails os now path q text writable d r in
        elim (Bool-cases (equal path q)) [
          | inl k ↦ absurd (ground (arith, kept, at))
          | inr k ↦ named q e (ground (arith, kept, at))
        ]
    | inl (f, r) ↦
        let holds = get-Holds os now path writable d f r in
        elim (Bool-cases (equal path q)) [
          | inr k ↦ named q e (sym (holds.elsewhere q k) ∙ at)
          | inl k ↦
              let same : path ≡ q = (equal_iff path q).0 k in
              let d' : Disk os = (get os now path writable d).1 in
              let at' : entry os path d' ≡ some e =
                subst (λ p. entry os p d' ≡ some e) (sym same) at in
              let held_is : holds.held ≡ e = ground (arith, holds.at_path, at') in
              ap (λ x. path_of x.file) (sym held_is)
              ∙ ap path_of holds.file_is
              ∙ path_of-get now path writable d f named r
              ∙ same
        ]
  ]

  pub evict-Unchanged : (path : Str) (d : Disk os) → Unchanged d (evict os path d)
  unfolding evict
  evict-Unchanged path d q i = elim (Option-cases (lookup path d.files)) [
    | inl e ↦ rw (e, evict) refl
    | inr (x, e) ↦ rw (e, evict) (byte_at-close_file x.file q d.world i)
  ]

  pub evict-Named : (path : Str) (d : Disk os) → Named d → Named (evict os path d)
  evict-Named path d named q e at = elim (Bool-cases (equal path q)) [
    | inl k ↦ absurd (ground (arith, entry-evict os path q d, at))
    | inr k ↦ named q e (ground (arith, entry-evict os path q d, at))
  ]
