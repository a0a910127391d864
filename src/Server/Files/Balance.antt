-- ===== src/Server/Files/Balance.antt =====
-- The file handlers of serve.go and the descriptors that the server has open.
use gcp.Base.{
  ℕ, ℤ, ◌≡◌, refl, sym, subst, inl, inr, true, false, not, ◌&&◌, Bytes, Str, List, ltb, to_ℕ,
  is_neg, if◌then◌else◌, Bool-cases,
}
use mathlib.Core.List.{Perm}
use mathlib.Core.List.Perm
use gcp.Base.Result.{Res, ok, err, Res-cases}
use gcp.Base.FilePath.{dir}
use gcp.Message.Types.{CreateReq, WriteReq, ReadReq, HashReq}
use gcp.Server.Os.{Stat, found, not_exist, stat_failed}
use gcp.Server.Auth.{ConnAuth}
use gcp.Server.Cache.{Disk, get}
use gcp.Server.Cache.Descriptors.{Descriptors, Balanced, get-Balanced, evict-Balanced}
use gcp.Server.Files.{
  Host, sandbox_path, create_missing, create_path, create, unpack, write_file, write_chunk, write,
  read_got, read, hash_file, hash,
}

same_perm {ℓ} : {A : Type ℓ} {xs ys zs : List A} → xs ≡ ys → Perm ys zs → Perm xs zs
same_perm {zs} e p = subst (λ l. Perm l zs) (sym e) p

module _ (h : Host) (ds : Descriptors h.os) where
  open ds use {open_set}

  abbrev State : Type 0
  State = Disk h.os

  abbrev Fine : State → Type 0
  Fine d = Balanced h.os ds d

  -- What opens and closes nothing keeps the balance.
  same_set :
      (d : State) (w : h.os.World)
      → open_set w ≡ open_set d.world
      → Fine d
      → Fine (record d { world = w })
  same_set d w same b = record { apart = b.apart; balance = same_perm same b.balance }

  -- What comes behind the Create of a file: its size, and Close.
  truncated :
      (fd : h.os.File) (size : ℤ) (w : h.os.World)
      → open_set
          (if not (is_neg size) && ltb 0 (to_ℕ size) then h.os.truncate fd size w else (ok tt, w)).1
        ≡ open_set w
  truncated fd size w = elim (Bool-cases (not (is_neg size) && ltb 0 (to_ℕ size))) [
    | inl k ↦ rw k (ds.open_set-truncate fd size w)
    | inr k ↦ rw k refl
  ]

  create_missing-Balanced :
      (req : CreateReq) (spath : Str) (st : Stat) (d : State)
      → Fine d
      → Fine (create_missing h req spath st d).1
  unfolding create_missing
  create_missing-Balanced req spath (found info) d b = elim (Bool-cases info.is_dir) [
    | inl k ↦ rw k b
    | inr k ↦ rw k b
  ]
  create_missing-Balanced req spath (stat_failed e) d b = b
  create_missing-Balanced req spath (not_exist e) d b =
      elim (Res-cases (h.os.create_file spath req.mode d.world).0) [
        | inr (text, k) ↦
            rw (k, create_missing)
              (record {
                apart = b.apart;
                balance = Perm.trans (ds.create_fails spath text req.mode d.world k) b.balance;
              })
        | inl (fd, k) ↦
            let w = (h.os.create_file spath req.mode d.world).1 in
            rw (k, create_missing)
              (record {
                apart = b.apart;
                balance = ds.closes fd _ _ (
                    same_perm (truncated fd req.size w) (
                      Perm.trans (ds.creates spath req.mode d.world fd k)
                        (Perm.cons fd b.balance)));
              })
      ]

  create_path-Balanced :
      (req : CreateReq) (ca : ConnAuth) (d : State) → Fine d → Fine (create_path h req ca d).1
  unfolding create_path
  create_path-Balanced req ca d b =
      let spath = sandbox_path ca req.path in
      let made : (path : Str) (mode : ℕ)
          → Fine (record d { world = (h.os.mkdir_all path mode d.world).1 }) =
        λ path mode. same_set d _ (ds.open_set-mkdir_all path mode d.world) b in
      elim (Bool-cases req.is_dir) [
        | inl k ↦ rw (k, create_path) (made spath req.mode)
        | inr k ↦
            rw (k, create_path)
              (elim (Res-cases (h.os.mkdir_all (dir spath) 493 d.world).0) [
                | inr (text, e) ↦ rw e (made (dir spath) 493)
                | inl (done, e) ↦
                    rw e (create_missing-Balanced req spath _ _ (made (dir spath) 493))
              ])
      ]

  pub create-Balanced :
      (req : CreateReq) (ca : ConnAuth) (d : State) → Fine d → Fine (create h req ca d).1
  unfolding create
  create-Balanced req ca d b = create_path-Balanced req ca d b

  write_file-Balanced :
      (spath : Str) (fd : h.os.File) (bytes : Bytes) (offset : ℤ) (d : State)
      → Fine d
      → Fine (write_file h spath fd bytes offset d).1
  unfolding write_file
  write_file-Balanced spath fd bytes offset d b =
      let b' = same_set d _ (ds.open_set-write_at fd bytes offset d.world) b in
      elim (Res-cases (h.os.write_at fd bytes offset d.world).0) [
        | inl (n, k) ↦ rw (k, write_file) b'
        | inr (text, k) ↦ rw (k, write_file) (evict-Balanced h.os ds spath _ b')
      ]

  pub write-Balanced :
      (req : WriteReq) (payload : Bytes) (ca : ConnAuth) (d : State)
      → Fine d
      → Fine (write h req payload ca d).1
  unfolding write write_chunk
  write-Balanced req payload ca d b =
      let spath = sandbox_path ca req.path in
      let b' = get-Balanced h.os ds h.now spath true d b in
      elim (Res-cases (unpack h req payload ca)) [
        | inr (text, k) ↦ rw k b
        | inl (bytes, k) ↦ rw k (elim (Res-cases (get h.os h.now spath true d).0) [
          | inr (text, e) ↦ rw e b'
          | inl (fd, e) ↦ rw e (write_file-Balanced spath fd bytes req.offset _ b')
        ])
      ]

  read_state :
      (req : ReadReq) (ca : ConnAuth) (r : Res h.os.File × State) → (read_got h req ca r).1 ≡ r.1
  unfolding read_got
  read_state req ca (ok f, d) = refl
  read_state req ca (err e, d) = refl

  pub read-Balanced :
      (req : ReadReq) (ca : ConnAuth) (d : State) → Fine d → Fine (read h req ca d).1
  unfolding read
  read-Balanced req ca d b =
      let spath = sandbox_path ca req.path in
      subst Fine (sym (read_state req ca (get h.os h.now spath false d)))
        (get-Balanced h.os ds h.now spath false d b)

  hash_file-Balanced :
      (req : HashReq) (ca : ConnAuth) (d : State) → Fine d → Fine (hash_file h req ca d).1
  unfolding hash_file
  hash_file-Balanced req ca d b =
      let spath = sandbox_path ca req.path in
      let d1 = (get h.os h.now spath false d).1 in
      let b1 = get-Balanced h.os ds h.now spath false d b in
      elim (Res-cases (get h.os h.now spath false d).0) [
        | inr (text, e) ↦ rw e b1
        | inl (fd, e) ↦
            let w2 = (h.os.seek_start fd d1.world).1 in
            let b2 = same_set d1 w2 (ds.open_set-seek_start fd d1.world) b1 in
            rw e (elim (Res-cases (h.os.seek_start fd d1.world).0) [
              | inr (text, k) ↦ rw k b2
              | inl (done, k) ↦ rw k (
                  let b3 = same_set (record d1 { world = w2 }) _ (ds.open_set-read_all fd w2) b2 in
                  elim (Res-cases (h.os.read_all fd w2).0) [
                    | inr (text, j) ↦ rw j b3
                    | inl (bytes, j) ↦ rw j b3
                  ])
            ])
      ]

  pub hash-Balanced :
      (req : HashReq) (ca : ConnAuth) (d : State) → Fine d → Fine (hash h req ca d).1
  unfolding hash
  hash-Balanced req ca d b =
      evict-Balanced h.os ds (sandbox_path ca req.path) _ (hash_file-Balanced req ca d b)
