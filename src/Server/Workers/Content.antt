-- ===== src/Server/Workers/Content.antt =====
-- The workers of serve.go over a file system: what their writes, interleaved in any way with reads,
-- hashes and sweeps, make of the files.
use gcp.Base.{
  ℕ, ℤ, pos, negsuc, ◌-◌, ◌≡◌, refl, sym, ap, ◌∙◌, inl, inr, Bool, true, false, ◌&&◌, Bytes, Str,
  length, get_or, arith, equal, equal_iff,
}
use gcp.Base.Result.{Res, ok, err, Res-cases}
use gcp.Message.Types.{WriteReq}
use gcp.Server.Auth.{ConnAuth}
use gcp.Server.Cache.{Disk, get}
use gcp.Server.Cache.Content.{
  IsFileSystem, within, Named, Unchanged, path_of-get, get-Unchanged, get-Named,
}
use gcp.Server.Files.{Host, sandbox_path, unpack}
use gcp.Server.Workers.{
  Task, writes, writes_at, wrote, start_write, got_write, behind_write_at, advance,
}

module _ (h : Host) (fs : IsFileSystem h.os) where
  open fs use {byte_at, path_of}

  -- The bytes that a request is to write are at an offset of a file.
  abbrev pub range : Str → Res Bytes → ℤ → Str → ℕ → Bool
  range path (ok bytes) (pos offset) q i = equal path q && within offset (length bytes) i
  range path (ok bytes) (negsuc n) q i = false
  range path (err e) offset q i = false

  abbrev pub data_at : Res Bytes → ℤ → ℕ → ℕ
  data_at (ok bytes) (pos offset) i = get_or bytes (i - offset) 0
  data_at (ok bytes) (negsuc n) i = 0
  data_at (err e) offset i = 0

  -- Whether a task is to write the byte `i` of the file `q`, and what.
  unfoldable pub covers : Task h → Str → ℕ → Bool
  covers (writes req payload ca) =
      range (sandbox_path ca req.path) (unpack h req payload ca) req.offset
  covers _ = λ q i. false

  unfoldable pub value : Task h → ℕ → ℕ
  value (writes req payload ca) = data_at (unpack h req payload ca) req.offset
  value _ = λ i. 0

  -- A task that has come from `t0`: a file that it is to write to is the one of its path, and the
  -- bytes are those of the request.
  abbrev pub From : Task h → Task h → Type 0
  From t0 (writes req payload ca) = t0 ≡ writes req payload ca
  From t0 (writes_at path fd bytes offset) =
      (path_of fd ≡ path)
      × ((q : Str) (i : ℕ) → covers t0 q i ≡ range path (ok bytes) offset q i)
      × ((i : ℕ) → value t0 i ≡ data_at (ok bytes) offset i)
  From t0 _ = Unit

  -- What WriteAt does at a negative offset: nothing.
  abbrev pub RefusesNegative : Type 0
  RefusesNegative =
      (f : h.os.File) (bs : Bytes) (n i : ℕ) (q : Str) (w : h.os.World)
      → byte_at (h.os.write_at f bs (negsuc n) w).1 q i ≡ byte_at w q i

  -- The task has written all its bytes.
  abbrev pub Succeeded : Task h → Type 0
  Succeeded (wrote (ok n)) = Unit
  Succeeded _ = ⊥

  -- A step of a task between two states: the cache stays in order, no byte changes but those that
  -- the task is to write, and if it is to write the byte `k` of `q` and has succeeded, that is there.
  pub record Moves (t0 t : Task h) (d : Disk h.os) (q : Str) (k : ℕ) (t' : Task h) (d' : Disk h.os)
      : Type 0 where
    pub names : Named h.os fs d'
    pub from : From t0 t'
    pub outside : covers t0 q k ≡ false → byte_at d'.world q k ≡ byte_at d.world q k
    pub done : Succeeded t' → covers t0 q k ≡ true → byte_at d'.world q k ≡ value t0 k

  -- A step that writes nothing and does not succeed in a write.
  pub quiet :
      (t0 t : Task h) (d : Disk h.os) (q : Str) (k : ℕ) (t' : Task h) (d' : Disk h.os)
      → Named h.os fs d'
      → Unchanged h.os fs d d'
      → From t0 t'
      → (Succeeded t' → ⊥)
      → Moves t0 t d q k t' d'
  quiet t0 t d q k t' d' named same from open_end = record {
    names = named;
    from = from;
    outside = λ c. same q k;
    done = λ s. absurd (open_end s);
  }

  pub start_write-Moves :
      (t0 : Task h) (now : ℕ) (req : WriteReq) (payload : Bytes) (ca : ConnAuth) (r : Res Bytes)
      (d : Disk h.os) (q : Str) (k : ℕ)
      → t0 ≡ writes req payload ca
      → unpack h req payload ca ≡ r
      → Named h.os fs d
      → let (t', d') = start_write h now req ca r d in Moves t0 (writes req payload ca) d q k t' d'
  unfolding start_write got_write covers value
  start_write-Moves t0 now req payload ca (err text) d q k o e named =
      quiet t0 _ d q k _ d named (λ p i. refl) tt (λ s. s)
  start_write-Moves t0 now req payload ca (ok bytes) d q k o e named =
      let path = sandbox_path ca req.path in
      let named' = get-Named h.os fs now path true d named in
      let same = get-Unchanged h.os fs now path true d in
      elim (Res-cases (get h.os now path true d).0) [
        | inr (text, g) ↦ rw (g, start_write) (quiet t0 _ d q k _ _ named' same tt (λ s. s))
        | inl (fd, g) ↦
            rw (g, start_write)
              (quiet t0 _ d q k _ _ named' same
                (
                  path_of-get h.os fs now path true d fd named g,
                  (λ p i. ap (λ t. covers t p i) o ∙ ap (λ x. range path x req.offset p i) e),
                  λ i. ap (λ t. value t i) o ∙ ap (λ x. data_at x req.offset i) e,
                )
                (λ s. s))
      ]

  write_at_outside :
      (negative : RefusesNegative) (path : Str) (fd : h.os.File) (bytes : Bytes) (offset : ℤ)
      (w : h.os.World) (q : Str) (k : ℕ)
      → path_of fd ≡ path
      → range path (ok bytes) offset q k ≡ false
      → byte_at (h.os.write_at fd bytes offset w).1 q k ≡ byte_at w q k
  write_at_outside negative path fd bytes (pos offset) w q k at out =
      fs.byte_at-write_at_outside fd bytes offset k q w
        (ap (λ p. equal p q && within offset (length bytes) k) at ∙ out)
  write_at_outside negative path fd bytes (negsuc n) w q k at out = negative fd bytes n k q w

  write_at_stored :
      (path : Str) (fd : h.os.File) (bytes : Bytes) (offset : ℤ) (w : h.os.World) (q : Str)
      (n k : ℕ)
      → path_of fd ≡ path
      → (h.os.write_at fd bytes offset w).0 ≡ ok n
      → range path (ok bytes) offset q k ≡ true
      → byte_at (h.os.write_at fd bytes offset w).1 q k ≡ data_at (ok bytes) offset k
  write_at_stored path fd bytes (pos offset) w q n k at e inside =
      let file : path_of fd ≡ q = at ∙ (equal_iff path q).0 (ground (arith, inside)) in
      ap (λ p. byte_at (h.os.write_at fd bytes (pos offset) w).1 p k) (sym file)
      ∙ fs.byte_at-write_at fd bytes offset n k w e (ground (arith, inside))
  write_at_stored path fd bytes (negsuc m) w q n k at e inside = absurd (cc inside)

  pub write_at-Moves :
      (negative : RefusesNegative) (t0 : Task h) (path : Str) (fd : h.os.File) (bytes : Bytes)
      (offset : ℤ) (now : ℕ) (d : Disk h.os) (q : Str) (k : ℕ)
      → From t0 (writes_at path fd bytes offset)
      → Named h.os fs d
      → let (t', d') = advance h now (writes_at path fd bytes offset) d in
        Moves t0 (writes_at path fd bytes offset) d q k t' d'
  unfolding advance behind_write_at
  write_at-Moves negative t0 path fd bytes offset now d q k (at, covered, wanted) named =
      let out : covers t0 q k ≡ false
          → byte_at (h.os.write_at fd bytes offset d.world).1 q k ≡ byte_at d.world q k =
        λ c.
          write_at_outside negative path fd bytes offset d.world q k at (sym (covered q k) ∙ c) in
      elim (Res-cases (h.os.write_at fd bytes offset d.world).0) [
        | inr (text, e) ↦
            rw (e, advance)
              (record { names = named; from = tt; outside = out; done = λ s. absurd s })
        | inl (n, e) ↦
            rw (e, advance)
              (record {
                names = named;
                from = tt;
                outside = out;
                done = λ s c.
                    write_at_stored path fd bytes offset d.world q n k at e (sym (covered q k) ∙ c)
                    ∙ sym (wanted k);
              })
      ]
