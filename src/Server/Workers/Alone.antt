-- ===== src/Server/Workers/Alone.antt =====
-- A task of a worker of serve.go that runs alone, against the handler.
use gcp.Base.{ℕ, ◌≡◌, refl, sym, ap, ◌∙◌, inl, inr, true, false, Bytes, Str, ℤ}
use gcp.Base.Result.{Res, ok, err, Res-cases}
use gcp.Message.Types.{WriteReq, ReadReq, HashReq}
use gcp.Server.Auth.{ConnAuth}
use gcp.Server.Cache.{Disk, get, evict}
use gcp.Server.Files.{
  Host, sandbox_path, unpack, write_file, write_chunk, write, read_got, read_stat, read, hash_file,
  hash,
}
use gcp.Server.Workers.{
  Task, writes, writes_at, wrote, reads, has_read, hashes, hashed, start_write, got_write, got_read,
  got_hash, behind_write_at, behind_stat, behind_seek, behind_copy, advance, advances,
}

module _ (h : Host) where
  -- What a handler comes to, as a task that has ended.
  abbrev ended : {A : Type 0} → (A → Task h) → A × Disk h.os → Task h × Disk h.os
  ended f (a, d) = (f a, d)

  write_at_alone :
      (path : Str) (fd : h.os.File) (bytes : Bytes) (offset : ℤ) (d : Disk h.os)
      → advances h 2 h.now (writes_at path fd bytes offset, d)
        ≡ ended wrote (write_file h path fd bytes offset d)
  unfolding advances advance write_file behind_write_at
  write_at_alone path fd bytes offset d =
      elim (Res-cases (h.os.write_at fd bytes offset d.world).0) [
        | inr (text, k) ↦ rw (k, advances, write_file) refl
        | inl (n, k) ↦ rw (k, advances, write_file) refl
      ]

  -- write_chunk, from what get returns.
  abbrev store_bytes : Str → Bytes → ℤ → Res h.os.File × Disk h.os → Res ℕ × Disk h.os
  store_bytes path bytes offset (ok fd, d) = write_file h path fd bytes offset d
  store_bytes path bytes offset (err e, d) = (err e, d)

  write_chunk_unpacked :
      (req : WriteReq) (payload bytes : Bytes) (ca : ConnAuth) (d : Disk h.os)
      → unpack h req payload ca ≡ ok bytes
      → let path = sandbox_path ca req.path in
        write_chunk h req payload ca d
        ≡ store_bytes path bytes req.offset (get h.os h.now path true d)
  unfolding write_chunk
  write_chunk_unpacked req payload bytes ca d e =
      elim (Res-cases (get h.os h.now (sandbox_path ca req.path) true d).0) [
        | inl (f, g) ↦ rw (e, g) refl
        | inr (text, g) ↦ rw (e, g) refl
      ]

  write_chunk_bad :
      (req : WriteReq) (payload : Bytes) (text : Str) (ca : ConnAuth) (d : Disk h.os)
      → unpack h req payload ca ≡ err text
      → write_chunk h req payload ca d ≡ (err text, d)
  unfolding write_chunk
  write_chunk_bad req payload text ca d e = rw e refl

  got_write_alone :
      (path : Str) (bytes : Bytes) (offset : ℤ) (r : Res h.os.File × Disk h.os)
      → advances h 2 h.now (got_write h path bytes offset r)
        ≡ ended wrote (store_bytes path bytes offset r)
  unfolding advances advance got_write
  got_write_alone path bytes offset (ok fd, d) = write_at_alone path fd bytes offset d
  got_write_alone path bytes offset (err e, d) = refl

  start_write_alone :
      (req : WriteReq) (payload : Bytes) (ca : ConnAuth) (d : Disk h.os) (r : Res Bytes)
      → unpack h req payload ca ≡ r
      → advances h 2 h.now (start_write h h.now req ca r d)
        ≡ ended wrote (write_chunk h req payload ca d)
  unfolding start_write advances
  start_write_alone req payload ca d (err text) e =
      sym (ap (ended wrote) (write_chunk_bad req payload text ca d e))
  start_write_alone req payload ca d (ok bytes) e =
      let path = sandbox_path ca req.path in
      got_write_alone path bytes req.offset (get h.os h.now path true d)
      ∙ sym (ap (ended wrote) (write_chunk_unpacked req payload bytes ca d e))

  write_alone :
      (req : WriteReq) (payload : Bytes) (ca : ConnAuth) (d : Disk h.os)
      → advances h 3 h.now (writes req payload ca, d) ≡ ended wrote (write_chunk h req payload ca d)
  unfolding advances
  write_alone req payload ca d = start_write_alone req payload ca d (unpack h req payload ca) refl

  got_read_alone :
      (req : ReadReq) (ca : ConnAuth) (r : Res h.os.File × Disk h.os)
      → advances h 2 h.now (got_read h req ca r) ≡ ended has_read (read_got h req ca r)
  unfolding advances advance got_read read_got read_stat behind_stat
  got_read_alone req ca (err e, d) = refl
  got_read_alone req ca (ok fd, d) = elim (Res-cases (h.os.file_stat fd d.world)) [
    | inr (text, k) ↦ rw (k, advances) refl
    | inl (info, k) ↦ rw (k, advances) refl
  ]

  read_alone :
      (req : ReadReq) (ca : ConnAuth) (d : Disk h.os)
      → advances h 3 h.now (reads req ca, d) ≡ ended has_read (read h req ca d)
  unfolding advances advance read
  read_alone req ca d = got_read_alone req ca (get h.os h.now (sandbox_path ca req.path) false d)

  -- The end of hash, from what its steps so far came to.
  abbrev hash_ended : Str → Res Bytes × Disk h.os → Task h × Disk h.os
  hash_ended path (r, d) = (hashed r, evict h.os path d)

  hash_alone :
      (req : HashReq) (ca : ConnAuth) (d : Disk h.os)
      → advances h 4 h.now (hashes req ca, d)
        ≡ hash_ended (sandbox_path ca req.path) (hash_file h req ca d)
  unfolding advances advance got_hash hash_file behind_seek behind_copy
  hash_alone req ca d =
      let path = sandbox_path ca req.path in
      elim (Res-cases (get h.os h.now path false d).0) [
        | inr (text, g) ↦ rw (g, advances) refl
        | inl (fd, g) ↦
            let w = (get h.os h.now path false d).1.world in
            elim (Res-cases (h.os.seek_start fd w).0) [
              | inr (text, s) ↦ rw (g, s, advances) refl
              | inl (done, s) ↦ elim (Res-cases (h.os.read_all fd (h.os.seek_start fd w).1).0) [
                | inr (text, r) ↦ rw (g, s, r, advances) refl
                | inl (bytes, r) ↦ rw (g, s, r, advances) refl
              ]
            ]
      ]

  -- A task that runs alone does what the handler does: three steps of a write or a read and four of
  -- a hash come to its result, and leave the cache and the files as it does.
  pub advances-handlers :
      (wr : WriteReq) (payload : Bytes) (rr : ReadReq) (hr : HashReq) (ca : ConnAuth)
      (d : Disk h.os)
      → (advances h 3 h.now (writes wr payload ca, d)
          ≡ (wrote (write_chunk h wr payload ca d).0, (write h wr payload ca d).1))
        × (advances h 3 h.now (reads rr ca, d) ≡ (has_read (read h rr ca d).0, (read h rr ca d).1))
        × (advances h 4 h.now (hashes hr ca, d)
            ≡ (hashed (hash_file h hr ca d).0, (hash h hr ca d).1))
  unfolding write hash
  advances-handlers wr payload rr hr ca d =
      (write_alone wr payload ca d, read_alone rr ca d, hash_alone hr ca d)
