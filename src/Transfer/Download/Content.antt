-- ===== src/Transfer/Download/Content.antt =====
-- The download of a chunk, by downloadFile of cp_from_host.go, from the server of serve.go.
use gcp.Base.{
  ℕ, suc, pos, ◌+◌, ◌-◌, ◌<◌, ◌≤◌, ◌≡◌, refl, ap, ◌∙◌, true, false, Bytes, Str, length, get_or,
  arith,
}
use gcp.Base.Result.{Res, ok, err}
use gcp.Message.Types.{ReadRes}
use gcp.Transfer.Chunk.{Inverts, Opens, nonce_size}
use gcp.Transfer.Download.{Local, Session, no_round, store_chunk, download_chunk}
use gcp.Client.Remote.{Caller, served}
use gcp.Server.Users.{Ssh, Accounts}
use gcp.Server.Auth.{ConnAuth}
use gcp.Server.Cache.Content.{IsFileSystem, within, Unchanged}
use gcp.Server.Files.{Host, sandbox_path}
use gcp.Server.Files.Reading.{Reads, Full, SameSizes}
use gcp.Transfer.Upload.Parts.{Ready}
use gcp.Transfer.Download.Fetch.{Fetches, retry-Fetches}

module _ (ssh : Ssh) (accounts : Accounts) (h : Host) (fs : IsFileSystem h.os) (reads : Reads h fs)
    (inv : Inverts h.gzip) (opens : Opens h.box) (conn : ℕ) (ca : ConnAuth) (nonce : Bytes)
    (rand_works : h.nonce ≡ ok nonce) (long : length nonce ≡ nonce_size) where
  abbrev Copier : Type 0
  Copier = Caller (served ssh accounts h conn)

  module _ (f : Local) (byte_at : f.State → ℕ → ℕ)
      (write_stores : (off : ℕ) (bs : Bytes) (s : f.State) (i : ℕ)
        → (f.write_at off bs s).0 ≡ ok tt
        → within off (length bs) i ≡ true
        → byte_at (f.write_at off bs s).1 i ≡ get_or bs (i - off) 0)
      (write_keeps : (off : ℕ) (bs : Bytes) (s : f.State) (i : ℕ)
        → within off (length bs) i ≡ false
        → byte_at (f.write_at off bs s).1 i ≡ byte_at s i) where
    abbrev pub Here : Type 0
    Here = Session (served ssh accounts h conn) h.gzip h.box f

    -- The local file has a first part of the chunk as on the server, not empty where the chunk is
    -- not, and the whole chunk if that is within the file and reads are full; behind that part
    -- nothing of it changes.
    pub record Copies (src : Str) (off size : ℕ) (s s' : Here) : Type 0 where
      pub count : ℕ
      pub short : count ≤ size
      pub some_byte : 0 < size → 0 < count
      pub whole :
          (l : Full h fs)
          → off + size ≤ l.size s.caller.state.disk.world (sandbox_path ca src)
          → count ≡ size
      pub bytes :
          (i : ℕ)
          → within off count i ≡ true
          → byte_at s'.local i ≡ fs.byte_at s.caller.state.disk.world (sandbox_path ca src) i
      pub behind : (i : ℕ) → within off count i ≡ false → byte_at s'.local i ≡ byte_at s.local i

    -- What a download of a chunk comes to: the client stays ready and no file of the server
    -- changes, nor does the local one but in the chunk; and if it succeeds the local file has bytes
    -- of the server's at their places.
    pub record Downloads (src : Str) (off size : ℕ) (s s' : Here) (r : Res (Unit {0}))
        : Type 0 where
      pub ready : Ready ssh accounts h fs conn ca s'.caller
      pub same : Unchanged h.os fs s.caller.state.disk s'.caller.state.disk
      pub sizes : SameSizes h fs reads s.caller.state.disk s'.caller.state.disk
      pub outside : (i : ℕ) → within off size i ≡ false → byte_at s'.local i ≡ byte_at s.local i
      pub copied : r ≡ ok tt → Copies src off size s s'

    store_chunk-Downloads :
        (src : Str) (off size : ℕ) (s : Here) (c' : Copier) (r : Res (ReadRes × Bytes))
        → Fetches ssh accounts h fs reads inv opens conn ca src off size s.caller c' r
        → let (r', s') =
            store_chunk
              (served ssh accounts h conn)
              h.gzip
              h.box
              f
              off
              r
              (record s { caller = c' }) in
          Downloads src off size s s' r'
    unfolding store_chunk
    store_chunk-Downloads src off size s c' (err e) g = record {
      ready = g.ready;
      same = g.same;
      sizes = g.sizes;
      outside = λ i k. refl;
      copied = λ k. absurd (cc k);
    }
    store_chunk-Downloads src off size s c' (ok (res, sent)) g =
        let (data', opened, part) = g.opened res sent refl in
        let keeps : (i : ℕ)
            → within off (length data') i ≡ false
            → byte_at (f.write_at off data' s.local).1 i ≡ byte_at s.local i =
          λ i k. write_keeps off data' s.local i k in
        rw (opened, store_chunk)
          (record {
            ready = g.ready;
            same = g.same;
            sizes = g.sizes;
            outside = λ i k. keeps i (ground (arith, k, part.short));
            copied = λ k. record {
              count = length data';
              short = part.short;
              some_byte = part.some_byte;
              whole = part.whole;
              bytes = λ i w.
                  let back : off + (i - off) ≡ i = ground (arith, w) in
                  write_stores off data' s.local i k w
                  ∙ part.bytes (i - off) (ground (arith, w))
                  ∙ ap (λ j. fs.byte_at s.caller.state.disk.world (sandbox_path ca src) j) back;
              behind = keeps;
            };
          })

    -- A download of a chunk by an authenticated client, from the server that it is authenticated
    -- to, with a number of retries that is not negative, does this, whatever compression is asked
    -- for and however often it tries: the client stays authenticated; no byte of the server's
    -- files changes, and none of the local file outside the chunk; if it succeeds, a first
    -- part of the chunk, not empty where the chunk is not, is in the local file as on the server,
    -- and all of it if the chunk is within the server's file and reads within a file are full.
    pub download_chunk-Downloads :
        (src : Str) (off size retries algo : ℕ) (s : Here)
        → Ready ssh accounts h fs conn ca s.caller
        → let (r, s') =
            download_chunk
              (served ssh accounts h conn)
              h.gzip
              h.box
              f
              src
              off
              size
              (pos retries)
              algo
              s in
          Downloads src off size s s' r
    unfolding download_chunk
    download_chunk-Downloads src off size retries algo s ready =
        store_chunk-Downloads src off size s _ _ (
          retry-Fetches ssh accounts h fs reads inv opens conn ca nonce rand_works long
            (suc retries) no_round src off size algo s.caller ready (λ res sent k. absurd (cc k)))
