-- ===== src/Client/Rpc/Chunks.antt =====
-- The chunks of Write and Read of client.go, packed at one end and unpacked at the other.
use gcp.Base.{ℕ, ℤ, ◌≡◌, inl, inr, Bytes, length, arith, ◌==◌, if◌then◌else◌}
use gcp.Base.Result.{ok, Res-cases}
use gcp.Message.Types.{WriteReq, ReadReq, ReadRes, encryption_secret_box}
use gcp.Transfer.Chunk.{
  Inverts, Opens, nonce_size, compress_chunk, decompress_chunk, encrypt_chunk, decrypt_chunk,
  decompress_chunk-compress_chunk, decrypt_chunk-encrypt_chunk,
}
use gcp.Server.Auth.{ConnAuth}
use gcp.Server.Files.{Host, unpack, pack}
use gcp.Client.Rpc.{Client, seal_chunk, write_request, open_chunk}

module _ (h : Host) (inv : Inverts h.gzip) (opens : Opens h.box) where
  seal_chunk_opens :
      (cc : Client) (n payload sent : Bytes) (algo used enc : ℕ)
      → length n ≡ nonce_size
      → seal_chunk h.gzip h.box (ok n) cc payload algo ≡ ok (sent, used, enc)
      → (chunk : Bytes) × ((if enc == encryption_secret_box
            then decrypt_chunk h.box sent cc.encryption_key
            else ok sent)
          ≡ ok chunk)
        × (decompress_chunk h.gzip chunk used ≡ ok payload)
  unfolding seal_chunk
  seal_chunk_opens cc n payload sent algo used enc len e =
      elim (Res-cases (compress_chunk h.gzip payload algo)) [
        | inr (text, c) ↦ absurd (ground arith)
        | inl ((chunk, u), c) ↦
            let (inflated, shorter) =
              decompress_chunk-compress_chunk h.gzip payload chunk algo u inv c in
            elim (Res-cases (encrypt_chunk h.box (ok n) chunk cc.encryption_key)) [
              | inl (box, x) ↦
                  let opened =
                    decrypt_chunk-encrypt_chunk h.box n chunk box cc.encryption_key opens len x in
                  (chunk, ground arith, ground arith)
              | inr (text, x) ↦ (chunk, ground arith, ground arith)
            ]
      ]

  -- The server takes from what Write sends just the chunk, whatever compression is asked for and
  -- whether or not checksums and encryption are on, if both ends have the same key.
  pub unpack-write_request :
      (cc cc' : Client) (ca : ConnAuth) (n payload sent target : Bytes) (off : ℤ) (algo : ℕ)
      (req : WriteReq)
      → length n ≡ nonce_size
      → ca.encryption_key ≡ cc.encryption_key
      → write_request h.gzip h.box (ok n) cc target off payload algo ≡ ok (req, sent, cc')
      → unpack h req sent ca ≡ ok payload
  unfolding write_request unpack
  unpack-write_request cc cc' ca n payload sent target off algo req len key e =
      elim (Res-cases (seal_chunk h.gzip h.box (ok n) cc payload algo)) [
        | inr (text, s) ↦ absurd (ground arith)
        | inl ((sent', used, enc), s) ↦
            let (chunk, opened, inflated) =
              seal_chunk_opens cc n payload sent' algo used enc len s in
            ground (arith, opened, inflated)
      ]

  -- The client takes from what the server sends for bytes that it has read just those bytes.
  pub open_chunk-pack :
      (cc : Client) (ca : ConnAuth) (n bytes sent : Bytes) (req : ReadReq) (res : ReadRes)
      (used enc : ℕ)
      → h.nonce ≡ ok n
      → length n ≡ nonce_size
      → ca.encryption_key ≡ cc.encryption_key
      → pack h req ca bytes ≡ ok (sent, used, enc)
      → res.compression ≡ used
      → res.encryption ≡ enc
      → open_chunk h.gzip h.box cc res sent ≡ ok bytes
  unfolding pack open_chunk
  open_chunk-pack cc ca n bytes sent req res used enc ne len key e c k =
      elim (Res-cases (compress_chunk h.gzip bytes req.compression)) [
        | inr (text, s) ↦ absurd (ground arith)
        | inl ((chunk, u), s) ↦
            let (inflated, shorter) =
              decompress_chunk-compress_chunk h.gzip bytes chunk req.compression u inv s in
            elim (Res-cases (encrypt_chunk h.box (ok n) chunk ca.encryption_key)) [
              | inl (box, x) ↦
                  let opened =
                    decrypt_chunk-encrypt_chunk h.box n chunk box ca.encryption_key opens len x in
                  ground arith
              | inr (text, x) ↦ ground arith
            ]
      ]
