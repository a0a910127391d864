-- ===== src/Transfer/Download/Pieces.antt =====
-- The chunks that downloadFile of cp_from_host.go asks for, from the server of serve.go.
use gcp.Base.{
  ℕ, pos, ◌+◌, ◌-◌, ◌≤◌, ◌≡◌, sym, subst, ◌∙◌, inl, inr, true, false, Bytes, Str, List, [], ◌∷◌,
  length, get_or, arith, Bool-cases,
}
use gcp.Base.Result.{Res, ok, Res-cases}
use gcp.Transfer.Chunk.{Inverts, Opens, nonce_size}
use gcp.Transfer.Schedule.{Chunk}
use gcp.Transfer.Schedule.Upload.{In, Within}
use gcp.Transfer.Download.{Local, Session, download_chunk, download_chunks}
use gcp.Transfer.Download.Content.{download_chunk-Downloads}
use gcp.Transfer.Upload.Parts.{Ready}
use gcp.Client.Remote.{served}
use gcp.Server.Users.{Ssh, Accounts}
use gcp.Server.Auth.{ConnAuth}
use gcp.Server.Cache.Content.{IsFileSystem, within}
use gcp.Server.Files.{Host, sandbox_path}
use gcp.Server.Files.Reading.{Reads, Full}

-- What WriteAt and Chmod do to the local file: the bytes written are read back at their offsets, the
-- others stay.
pub record IsLocal (f : Local) : Type 0 where
  pub byte_at : f.State → ℕ → ℕ
  pub write_stores :
      (off : ℕ) (bs : Bytes) (s : f.State) (i : ℕ)
      → (f.write_at off bs s).0 ≡ ok tt
      → within off (length bs) i ≡ true
      → byte_at (f.write_at off bs s).1 i ≡ get_or bs (i - off) 0
  pub write_keeps :
      (off : ℕ) (bs : Bytes) (s : f.State) (i : ℕ)
      → within off (length bs) i ≡ false
      → byte_at (f.write_at off bs s).1 i ≡ byte_at s i
  pub chmod_keeps : (mode : ℕ) (s : f.State) (i : ℕ) → byte_at (f.chmod mode s).1 i ≡ byte_at s i

module _ (ssh : Ssh) (accounts : Accounts) (h : Host) (fs : IsFileSystem h.os) (reads : Reads h fs)
    (inv : Inverts h.gzip) (opens : Opens h.box) (conn : ℕ) (ca : ConnAuth) (nonce : Bytes)
    (rand_works : h.nonce ≡ ok nonce) (long : length nonce ≡ nonce_size) (f : Local)
    (local_file : IsLocal f) (l : Full h fs) where
  open local_file use {byte_at}

  abbrev pub Here : Type 0
  Here = Session (served ssh accounts h conn) h.gzip h.box f

  -- The local file has the byte `i` of the server's file in the world `w`.
  abbrev pub Right : h.os.World → Str → Here → ℕ → Type 0
  Right w src s i = byte_at s.local i ≡ fs.byte_at w (sandbox_path ca src) i

  -- The client is authenticated, and the server's files are as in the world `w`.
  pub record AsIn (w : h.os.World) (s : Here) : Type 0 where
    pub ready : Ready ssh accounts h fs conn ca s.caller
    pub same : (q : Str) (i : ℕ) → fs.byte_at s.caller.state.disk.world q i ≡ fs.byte_at w q i
    pub sizes : (q : Str) → l.size s.caller.state.disk.world q ≡ l.size w q

  abbrev InFile : h.os.World → Str → Chunk → Type 0
  InFile w src x = x.offset + x.size ≤ l.size w (sandbox_path ca src)

  abbrev chunk_fetched : Str → ℕ → ℕ → Chunk → Here → Res (Unit {0}) × Here
  chunk_fetched src retries algo x s =
      download_chunk (served ssh accounts h conn) h.gzip h.box f src x.offset x.size (pos retries)
        algo s

  -- A chunk comes between two points: what was right stays so, and it is right.
  record GetsOne (w : h.os.World) (src : Str) (x : Chunk) (s s' : Here) : Type 0 where
    as_in : AsIn w s'
    keeps : (i : ℕ) → Right w src s i → Right w src s' i
    stores : (i : ℕ) → InFile w src x → Within i x → Right w src s' i

  -- Chunks come between two points: the same for each of them.
  pub record Gets (w : h.os.World) (src : Str) (xs : List Chunk) (s s' : Here) : Type 0 where
    pub as_in : AsIn w s'
    pub keeps : (i : ℕ) → Right w src s i → Right w src s' i
    pub stores : (x : Chunk) (i : ℕ) → In x xs → InFile w src x → Within i x → Right w src s' i

  chunk-GetsOne :
      (w : h.os.World) (src : Str) (retries algo : ℕ) (x : Chunk) (s : Here)
      → AsIn w s
      → (chunk_fetched src retries algo x s).0 ≡ ok tt
      → GetsOne w src x s (chunk_fetched src retries algo x s).1
  chunk-GetsOne w src retries algo x s as_in done =
      let path = sandbox_path ca src in
      let s' = (chunk_fetched src retries algo x s).1 in
      let d =
        download_chunk-Downloads ssh accounts h fs reads inv opens conn ca nonce rand_works long f
          byte_at local_file.write_stores local_file.write_keeps src x.offset x.size retries algo s
          as_in.ready in
      let c = d.copied done in
      let got : (i : ℕ) → within x.offset c.count i ≡ true → Right w src s' i =
        λ i k. c.bytes i k ∙ as_in.same path i in
      record {
        as_in = record {
          ready = d.ready;
          same = λ q i. d.same q i ∙ as_in.same q i;
          sizes = λ q. d.sizes l q ∙ as_in.sizes q;
        };
        keeps = λ i right. elim (Bool-cases (within x.offset c.count i)) [
          | inl k ↦ got i k
          | inr k ↦ c.behind i k ∙ right
        ];
        stores = λ i inside at.
            let all : c.count ≡ x.size =
              c.whole l (subst (λ n. x.offset + x.size ≤ n) (sym (as_in.sizes path)) inside) in
            got i (ground (arith, all, at));
      }

  Gets-cons :
      (w : h.os.World) (src : Str) (x : Chunk) (xs : List Chunk) (a b c : Here)
      → GetsOne w src x a b
      → Gets w src xs b c
      → Gets w src (x ∷ xs) a c
  Gets-cons w src x xs a b c g t = record {
    as_in = t.as_in;
    keeps = λ i right. t.keeps i (g.keeps i right);
    stores = λ y i there inside at. elim there [
      | inl same ↦
          t.keeps i
            (g.stores i (subst (InFile w src) (sym same) inside) (subst (Within i) (sym same) at))
      | inr later ↦ t.stores y i later inside at
    ];
  }

  abbrev pub chunks_fetched : Str → ℕ → ℕ → List Chunk → Here → Res (Unit {0}) × Here
  chunks_fetched src retries algo xs s =
      download_chunks (served ssh accounts h conn) h.gzip h.box f src (pos retries) algo xs s

  pub download_chunks-Gets :
      (w : h.os.World) (src : Str) (retries algo : ℕ) (xs : List Chunk) (s : Here)
      → AsIn w s
      → (chunks_fetched src retries algo xs s).0 ≡ ok tt
      → Gets w src xs s (chunks_fetched src retries algo xs s).1
  unfolding download_chunks
  download_chunks-Gets w src retries algo [] s as_in done = record {
    as_in = as_in;
    keeps = λ i right. right;
    stores = λ y i there inside at. absurd there;
  }
  download_chunks-Gets w src retries algo (x ∷ xs) s as_in done =
      elim (Res-cases (chunk_fetched src retries algo x s).0) [
        | inr (text, e) ↦ absurd (cc (rw (e, download_chunks) at done))
        | inl (sent, e) ↦
            let s' = (chunk_fetched src retries algo x s).1 in
            let g = chunk-GetsOne w src retries algo x s as_in e in
            rw (e, download_chunks)
              (Gets-cons w src x xs s s' _ g (
                download_chunks-Gets w src retries algo xs s' g.as_in
                  (rw (e, download_chunks) at done)))
      ]
