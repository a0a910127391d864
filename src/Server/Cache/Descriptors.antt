-- ===== src/Server/Cache/Descriptors.antt =====
-- fdCache of serve.go and the descriptors that the server has open.
use gcp.Base.{
  ℕ, ℤ, ◌≡◌, refl, inl, inr, Bool, true, not, ◌&&◌, Bytes, Str, List, ◌∷◌, none, some, Bool-cases,
  Option-cases,
}
use mathlib.Core.List.{Perm}
use mathlib.Core.List.Perm
use gcp.Base.Result.{Res, ok, err}
use gcp.Base.Dict.{lookup, remove}
use gcp.Server.Os.{Os}
use gcp.Server.Cache.{FdEntry, Disk, get, opened, upgraded, evict}
use gcp.Server.Cache.Handles.{
  handles, Apart, handles-insert_new, handles-insert_over, handles-remove, insert-Apart,
  remove-Apart,
}

-- What the server relies on in its descriptors: OpenFile that succeeds adds the one it returns, Close
-- takes an open one away, and no other operation opens or closes one.
pub record Descriptors (os : Os) : Type 0 where
  pub open_set : os.World → List os.File
  pub opens :
      (path : Str) (writable : Bool) (w : os.World) (f : os.File)
      → (os.open_file path writable w).0 ≡ ok f
      → Perm (open_set (os.open_file path writable w).1) (f ∷ open_set w)
  pub open_fails :
      (path e : Str) (writable : Bool) (w : os.World)
      → (os.open_file path writable w).0 ≡ err e
      → Perm (open_set (os.open_file path writable w).1) (open_set w)
  pub closes :
      (f : os.File) (w : os.World) (rest : List os.File)
      → Perm (open_set w) (f ∷ rest)
      → Perm (open_set (os.close_file f w)) rest
  pub creates :
      (path : Str) (mode : ℕ) (w : os.World) (f : os.File)
      → (os.create_file path mode w).0 ≡ ok f
      → Perm (open_set (os.create_file path mode w).1) (f ∷ open_set w)
  pub create_fails :
      (path e : Str) (mode : ℕ) (w : os.World)
      → (os.create_file path mode w).0 ≡ err e
      → Perm (open_set (os.create_file path mode w).1) (open_set w)
  pub open_set-mkdir_all :
      (path : Str) (mode : ℕ) (w : os.World) → open_set (os.mkdir_all path mode w).1 ≡ open_set w
  pub open_set-truncate :
      (f : os.File) (size : ℤ) (w : os.World) → open_set (os.truncate f size w).1 ≡ open_set w
  pub open_set-write_at :
      (f : os.File) (bs : Bytes) (offset : ℤ) (w : os.World)
      → open_set (os.write_at f bs offset w).1 ≡ open_set w
  pub open_set-seek_start :
      (f : os.File) (w : os.World) → open_set (os.seek_start f w).1 ≡ open_set w
  pub open_set-read_all : (f : os.File) (w : os.World) → open_set (os.read_all f w).1 ≡ open_set w

module _ (os : Os) (ds : Descriptors os) where
  open ds use {open_set}

  abbrev entry_files : List (Str × FdEntry os) → List os.File
  entry_files = handles (λ (e : FdEntry os). e.file)

  -- The server has open just the files of its entries, each once.
  pub record Balanced (d : Disk os) : Type 0 where
    pub apart : Apart d.files
    pub balance : Perm (open_set d.world) (entry_files d.files)

  -- An entry that is new, or that has the file of the one before.
  opened-Balanced :
      (now : ℕ) (path : Str) (writable : Bool) (r : Res os.File × os.World) (d : Disk os)
      → lookup path d.files ≡ none
      → Balanced d
      → ((f : os.File) → r.0 ≡ ok f → Perm (open_set r.1) (f ∷ open_set d.world))
      → ((e : Str) → r.0 ≡ err e → Perm (open_set r.1) (open_set d.world))
      → Balanced (opened os now path writable r d).1
  unfolding opened
  opened-Balanced now path writable (ok f, w) d fresh b good bad = record {
    apart = insert-Apart path _ d.files b.apart;
    balance = Perm.trans (good f refl) (
        Perm.trans (Perm.cons f b.balance)
          (Perm.symm (handles-insert_new (λ (e : FdEntry os). e.file) path _ d.files fresh)));
  }
  opened-Balanced now path writable (err e, w) d fresh b good bad = record {
    apart = b.apart;
    balance = Perm.trans (bad e refl) b.balance;
  }

  upgraded-Balanced :
      (now : ℕ) (path : Str) (x : FdEntry os) (w0 : os.World) (r : Res os.File × os.World)
      (d : Disk os)
      → lookup path d.files ≡ some x
      → Apart d.files
      → Perm (open_set w0) (entry_files (remove path d.files))
      → ((f : os.File) → r.0 ≡ ok f → Perm (open_set r.1) (f ∷ open_set w0))
      → ((e : Str) → r.0 ≡ err e → Perm (open_set r.1) (open_set w0))
      → Balanced (upgraded os now path r d).1
  unfolding upgraded
  upgraded-Balanced now path x w0 (err e, w) d at apart b good bad = record {
    apart = remove-Apart path d.files apart;
    balance = Perm.trans (bad e refl) b;
  }
  upgraded-Balanced now path x w0 (ok f, w) d at apart b good bad = record {
    apart = insert-Apart path _ d.files apart;
    balance =
        let file = λ (e : FdEntry os). e.file in
        let new : FdEntry os = record { file = f; writable = true; last_access = now } in
        let rest = entry_files (remove path d.files) in
        Perm.trans (good f refl) (
          Perm.trans (Perm.cons f b) (
            Perm.symm (
              Perm.cons_inv (
                Perm.trans (handles-insert_over file path new x d.files at) (
                  Perm.trans (Perm.cons f (handles-remove file path x d.files apart at))
                    (Perm.swap x.file f rest))))));
  }

  -- What Close of the file of an entry leaves.
  closed_entry :
      (path : Str) (x : FdEntry os) (d : Disk os)
      → lookup path d.files ≡ some x
      → Balanced d
      → Perm (open_set (os.close_file x.file d.world)) (entry_files (remove path d.files))
  closed_entry path x d at b =
      ds.closes x.file d.world _ (
        Perm.trans b.balance
          (handles-remove (λ (e : FdEntry os). e.file) path x d.files b.apart at))

  pub get-Balanced :
      (now : ℕ) (path : Str) (writable : Bool) (d : Disk os)
      → Balanced d
      → Balanced (get os now path writable d).1
  unfolding get
  get-Balanced now path writable d b = elim (Option-cases (lookup path d.files)) [
    | inl e ↦
        rw (e, get)
          (opened-Balanced now path writable (os.open_file path writable d.world) d e b
            (ds.opens path writable d.world) (λ text. ds.open_fails path text writable d.world))
    | inr (x, e) ↦
        rw (e, get)
          (elim (Bool-cases (writable && not x.writable)) [
            | inl k ↦ rw k (
                let w0 = os.close_file x.file d.world in
                upgraded-Balanced now path x w0 (os.open_file path true w0) d e b.apart
                  (closed_entry path x d e b) (ds.opens path true w0)
                  (λ text. ds.open_fails path text true w0))
            | inr k ↦ rw k (record {
              apart = insert-Apart path _ d.files b.apart;
              balance = Perm.trans b.balance (
                  Perm.symm (
                    Perm.cons_inv (
                      handles-insert_over (λ (y : FdEntry os). y.file) path
                        (record x { last_access = now }) x d.files e)));
            })
          ])
  ]

  pub evict-Balanced : (path : Str) (d : Disk os) → Balanced d → Balanced (evict os path d)
  unfolding evict
  evict-Balanced path d b = elim (Option-cases (lookup path d.files)) [
    | inl e ↦ rw (e, evict) b
    | inr (x, e) ↦
        rw (e, evict)
          (record {
            apart = remove-Apart path d.files b.apart;
            balance = closed_entry path x d e b;
          })
  ]
