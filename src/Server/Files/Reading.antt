-- ===== src/Server/Files/Reading.antt =====
-- read of serve.go over a file system: the bytes behind an answer.
use gcp.Base.{
  ℕ, pos, ◌+◌, ◌<◌, ◌≤◌, ◌≡◌, refl, sym, subst, ap, ◌∙◌, ◌⊎◌, inl, inr, Bool, true, false, Bytes,
  Str, [], ◌∷◌, Option, none, some, length, get_or, arith, Bool-cases,
}
use gcp.Base.Result.{Res, ok, err, Res-cases}
use gcp.Message.Types.{ReadReq, ReadRes, read_res}
use gcp.Server.Os.{FileInfo, found}
use gcp.Server.Auth.{ConnAuth}
use gcp.Server.Cache.{Disk, get}
use gcp.Server.Cache.Content.{
  IsFileSystem, Named, Unchanged, path_of-get, get_keeps, get-Unchanged, get-Named,
}
use gcp.Server.Files.{
  Host, Reply, replied, sandbox_path, pack, read_answer, read_failed, read_result, read_open,
  panicked, read_stat, read_got, read,
}

-- What ReadAt does: it reads bytes of the file from the offset on, no more than asked for, and fewer
-- only with an error.
abbrev pub Reads : (h : Host) → IsFileSystem h.os → Type 0
Reads h fs =
    (f : h.os.File) (n off : ℕ) (w : h.os.World)
    → let (bytes, e) = h.os.read_at f n (pos off) w in
      (length bytes ≤ n)
      × (e ≡ none → length bytes ≡ n)
      × ((i : ℕ) → i < length bytes → get_or bytes i 0 ≡ fs.byte_at w (fs.path_of f) (off + i))

-- What the server relies on in files that no other program changes, and whose reads are full: Stat
-- answers with the length of a file, and ReadAt of bytes within the file reads them all.
pub record Full (h : Host) (fs : IsFileSystem h.os) : Type 0 where
  pub size : h.os.World → Str → ℕ
  pub size-open_file :
      (path q : Str) (writable : Bool) (w : h.os.World)
      → size (h.os.open_file path writable w).1 q ≡ size w q
  pub size-close_file :
      (f : h.os.File) (q : Str) (w : h.os.World) → size (h.os.close_file f w) q ≡ size w q
  pub size-stat :
      (path : Str) (w : h.os.World) (info : FileInfo)
      → h.os.stat path w ≡ found info
      → info.is_dir ≡ false
      → info.size ≡ pos (size w path)
  pub length-read_at :
      (f : h.os.File) (n off : ℕ) (w : h.os.World)
      → off + n ≤ size w (fs.path_of f)
      → length (h.os.read_at f n (pos off) w).0 ≡ n

module _ (h : Host) (fs : IsFileSystem h.os) (reads : Reads h fs) where
  -- The answer with a response and its payload, which says that it succeeded.
  abbrev pub Answered : Reply → ReadRes → Bytes → Type 0
  Answered (replied (read_res m) p) res sent = (m ≡ res) × (p ≡ sent) × (res.success ≡ true)
  Answered _ res sent = ⊥

  -- No file has another length than before.
  abbrev pub SameSizes : Disk h.os → Disk h.os → Type 0
  SameSizes d d' = (l : Full h fs) (q : Str) → l.size d'.world q ≡ l.size d.world q

  get-SameSizes :
      (path : Str) (writable : Bool) (d : Disk h.os)
      → SameSizes d (get h.os h.now path writable d).1
  get-SameSizes path writable d l q =
      get_keeps h.os fs (λ w. l.size w q) (λ p k w. l.size-open_file p q k w)
        (λ f w. l.size-close_file f q w) h.now path writable d

  -- The bytes are those of the file from the offset on, packed in the response; those asked for, if
  -- they are within the file and reads are full.
  pub record Packed (req : ReadReq) (ca : ConnAuth) (path : Str) (off size : ℕ) (w : h.os.World)
      (res : ReadRes) (sent : Bytes) : Type 0 where
    pub bytes : Bytes
    pub packed : pack h req ca bytes ≡ ok (sent, res.compression, res.encryption)
    pub short : length bytes ≤ size
    pub some_byte : 0 < size → 0 < length bytes
    pub whole : (l : Full h fs) → off + size ≤ l.size w path → length bytes ≡ size
    pub same : (i : ℕ) → i < length bytes → get_or bytes i 0 ≡ fs.byte_at w path (off + i)

  failed_answer :
      (req : ReadReq) (e : Str) (res : ReadRes) (sent : Bytes)
      → Answered (read_failed h req e) res sent
      → ⊥
  failed_answer req e res sent (m, p, good) =
      absurd (ground (arith, ap (λ (r : ReadRes). r.success) m, good))

  answer_packs :
      (req : ReadReq) (r : Res (Bytes × ℕ × ℕ)) (res : ReadRes) (sent : Bytes)
      → Answered (read_answer h req r) res sent
      → r ≡ ok (sent, res.compression, res.encryption)
  answer_packs req (err e) res sent a = absurd (failed_answer req e res sent a)
  answer_packs req (ok (bytes, used, enc)) res sent (m, p, good) =
      λ i. ok (p i, ap (λ (r : ReadRes). r.compression) m i, ap (λ (r : ReadRes). r.encryption) m i)

  read_result_ok :
      (r : Bytes × Option Str) (bytes : Bytes)
      → read_result h r ≡ ok bytes
      → (r.0 ≡ bytes) × ((r.1 ≡ none) ⊎ (0 < length bytes))
  unfolding read_result
  read_result_ok (bs, none) bytes e = (cc e, inl refl)
  read_result_ok ([], some t) bytes e = absurd (cc e)
  read_result_ok (b ∷ bs, some t) bytes e =
      let same : b ∷ bs ≡ bytes = cc e in (same, inr (subst (λ x. 0 < length x) same (omega arith)))

  read_some :
      (r : Bytes × Option Str) (bytes : Bytes) (size : ℕ)
      → (r.1 ≡ none → length r.0 ≡ size)
      → read_result h r ≡ ok bytes
      → 0 < size
      → 0 < length bytes
  read_some r bytes size full e k =
      let (same, why) = read_result_ok r bytes e in
      elim why [
        | inr positive ↦ positive
        | inl fine ↦
            let n : length bytes ≡ size = ap length (sym same) ∙ full fine in omega (arith, n, k)
      ]

  read_open-Packed :
      (req : ReadReq) (ca : ConnAuth) (f : h.os.File) (w : h.os.World) (path : Str) (off size : ℕ)
      (res : ReadRes) (sent : Bytes)
      → req.offset ≡ pos off
      → fs.path_of f ≡ path
      → Answered (read_open h req ca f w (pos size)) res sent
      → Packed req ca path off size w res sent
  unfolding read_open
  read_open-Packed req ca f w path off size res sent o at a = elim (Bool-cases (h.has_room size)) [
    | inr f' ↦ absurd (let none : Answered panicked res sent = rw (f', read_open) at a in none)
    | inl t ↦ elim (Res-cases (read_result h (h.os.read_at f size req.offset w))) [
      | inr (text, e) ↦ absurd (failed_answer req text res sent (rw (t, e, read_open) at a))
      | inl (bytes, e) ↦
          let (same, why) = read_result_ok (h.os.read_at f size req.offset w) bytes e in
          let (short, full, read) = reads f size off w in
          let is : (h.os.read_at f size (pos off) w).0 ≡ bytes =
            ap (λ k. (h.os.read_at f size k w).0) (sym o) ∙ same in
          record {
            bytes = bytes;
            packed = answer_packs req (pack h req ca bytes) res sent (rw (t, e, read_open) at a);
            short = subst (λ b. length b ≤ size) is short;
            some_byte =
                read_some (h.os.read_at f size (pos off) w) bytes size full
                  (ap (λ k. read_result h (h.os.read_at f size k w)) (sym o) ∙ e);
            whole = λ l inside.
                ap length (sym is)
                ∙ l.length-read_at f size off w
                    (subst (λ p. off + size ≤ l.size w p) (sym at) inside);
            same = λ i k.
                ap (λ b. get_or b i 0) (sym is)
                ∙ read i (subst (λ b. i < length b) (sym is) k)
                ∙ ap (λ p. fs.byte_at w p (off + i)) at;
          }
    ]
  ]

  read_stat-Packed :
      (req : ReadReq) (ca : ConnAuth) (f : h.os.File) (w : h.os.World) (info : Res FileInfo)
      (path : Str) (off size : ℕ) (res : ReadRes) (sent : Bytes)
      → req.offset ≡ pos off
      → req.size ≡ pos size
      → fs.path_of f ≡ path
      → Answered (read_stat h req ca f w info) res sent
      → Packed req ca path off size w res sent
  unfolding read_stat
  read_stat-Packed req ca f w (err e) path off size res sent o s at a =
      absurd (failed_answer req e res sent a)
  read_stat-Packed req ca f w (ok info) path off size res sent o s at a =
      read_open-Packed req ca f w path off size res sent o at
        (subst (λ n. Answered (read_open h req ca f w n) res sent) s a)

  -- The state behind read is that which get leaves.
  read_state :
      (req : ReadReq) (ca : ConnAuth) (r : Res h.os.File × Disk h.os)
      → (read_got h req ca r).1 ≡ r.1
  unfolding read_got
  read_state req ca (ok f, d) = refl
  read_state req ca (err e, d) = refl

  pub read-Unchanged :
      (req : ReadReq) (ca : ConnAuth) (d : Disk h.os) → Unchanged h.os fs d (read h req ca d).1
  unfolding read
  read-Unchanged req ca d q i =
      let path = sandbox_path ca req.path in
      ap (λ (x : Disk h.os). fs.byte_at x.world q i)
        (read_state req ca (get h.os h.now path false d))
      ∙ get-Unchanged h.os fs h.now path false d q i

  pub read-Named :
      (req : ReadReq) (ca : ConnAuth) (d : Disk h.os)
      → Named h.os fs d
      → Named h.os fs (read h req ca d).1
  unfolding read
  read-Named req ca d named =
      let path = sandbox_path ca req.path in
      subst (Named h.os fs) (sym (read_state req ca (get h.os h.now path false d)))
        (get-Named h.os fs h.now path false d named)

  pub read-SameSizes :
      (req : ReadReq) (ca : ConnAuth) (d : Disk h.os) → SameSizes d (read h req ca d).1
  unfolding read
  read-SameSizes req ca d l q =
      let path = sandbox_path ca req.path in
      ap (λ (x : Disk h.os). l.size x.world q) (read_state req ca (get h.os h.now path false d))
      ∙ get-SameSizes path false d l q

  got-Packed :
      (req : ReadReq) (ca : ConnAuth) (r : Res h.os.File × Disk h.os) (d : Disk h.os) (off size : ℕ)
      (res : ReadRes) (sent : Bytes)
      → req.offset ≡ pos off
      → req.size ≡ pos size
      → ((f : h.os.File) → r.0 ≡ ok f → fs.path_of f ≡ sandbox_path ca req.path)
      → Unchanged h.os fs d r.1
      → SameSizes d r.1
      → Answered (read_got h req ca r).0 res sent
      → Packed req ca (sandbox_path ca req.path) off size d.world res sent
  unfolding read_got
  got-Packed req ca (err e, d') d off size res sent o s at same sizes a =
      absurd (failed_answer req e res sent a)
  got-Packed req ca (ok f, d') d off size res sent o s at same sizes a =
      let path = sandbox_path ca req.path in
      let p : Packed req ca path off size d'.world res sent =
        read_stat-Packed req ca f d'.world (h.os.file_stat f d'.world) path off size res sent o s
          (at f refl) a in
      record {
        bytes = p.bytes;
        packed = p.packed;
        short = p.short;
        some_byte = p.some_byte;
        whole = λ l inside. p.whole l (subst (λ n. off + size ≤ n) (sym (sizes l path)) inside);
        same = λ i k. p.same i k ∙ same path (off + i);
      }

  -- An answer of read that says that it succeeded carries bytes of the file, from the offset on.
  pub read-Packed :
      (req : ReadReq) (ca : ConnAuth) (d : Disk h.os) (off size : ℕ) (res : ReadRes) (sent : Bytes)
      → req.offset ≡ pos off
      → req.size ≡ pos size
      → Named h.os fs d
      → Answered (read h req ca d).0 res sent
      → Packed req ca (sandbox_path ca req.path) off size d.world res sent
  unfolding read
  read-Packed req ca d off size res sent o s named a =
      let path = sandbox_path ca req.path in
      got-Packed req ca (get h.os h.now path false d) d off size res sent o s
        (λ f k. path_of-get h.os fs h.now path false d f named k)
        (get-Unchanged h.os fs h.now path false d) (get-SameSizes path false d) a
