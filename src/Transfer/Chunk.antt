-- ===== src/Transfer/Chunk.antt =====
-- compressChunk, decompressChunk, encryptChunk and decryptChunk of transfer.go. The compressor and
-- the cipher are libraries: the records Gzip and SecretBox.
use gcp.Base.{
  ℕ, ◌≤◌, ◌≡◌, refl, inl, inr, false, ◌||◌, Bytes, [], ◌∷◌, ◌++◌, Option, none, some, length, take,
  drop, ltb, leb, ◌==◌, if◌then◌else◌, is_empty, arith, length-append, take-append, drop-append,
  Bool-cases, ltb-false, str,
}
use gcp.Base.Result.{Res, ok, err, or_err}
use gcp.Message.Types.{compression_none, compression_gzip}

-- gzip.NewWriterLevel, Write and Close; gzip.NewReader and io.ReadAll.
pub record Gzip : Type 0 where
  pub deflate : Bytes → Res Bytes
  pub inflate : Bytes → Res Bytes

-- What compressing produces is not empty, and decompressing takes it back.
abbrev pub Inverts : Gzip → Type 0
Inverts z = (d e : Bytes) → z.deflate d ≡ ok e → (z.inflate e ≡ ok d) × (is_empty e ≡ false)

-- secretbox.Seal without its prefix, and secretbox.Open.
pub record SecretBox : Type 0 where
  pub seal : Bytes → Bytes → Bytes → Bytes
  pub open_box : Bytes → Bytes → Bytes → Option Bytes

-- A box opens under its nonce and key.
abbrev pub Opens : SecretBox → Type 0
Opens b = (d nonce key : Bytes) → b.open_box (b.seal d nonce key) nonce key ≡ some d

abbrev pub nonce_size : ℕ
nonce_size = 24

-- The data to send and the algorithm that it is under: compressed only where that is shorter.
abbrev smaller : Bytes → ℕ → Bytes → Bytes × ℕ
smaller data' algo compressed =
    if leb (length data') (length compressed) then (data', compression_none) else (compressed, algo)

unfoldable pub compress_chunk : Gzip → Bytes → ℕ → Res (Bytes × ℕ)
compress_chunk z data' algo =
    if algo == compression_none || is_empty data'
    then ok (data', compression_none)
    else if algo == compression_gzip
    then elim (z.deflate data') [
      | ok compressed ↦ ok (smaller data' algo compressed)
      | err e ↦ err e
    ]
    else ok (data', compression_none)

unfoldable pub decompress_chunk : Gzip → Bytes → ℕ → Res Bytes
decompress_chunk z data' algo =
    if algo == compression_none || is_empty data'
    then ok data'
    else if algo == compression_gzip
    then z.inflate data'
    else ok data'

-- The nonce comes from rand.Reader, which may fail.
unfoldable pub encrypt_chunk : SecretBox → Res Bytes → Bytes → Option Bytes → Res Bytes
encrypt_chunk b nonce data' none = ok data'
encrypt_chunk b nonce data' (some key) = if is_empty data' then ok data' else elim nonce [
  | ok n ↦ ok (n ++ b.seal data' n key)
  | err e ↦ err (str "encrypt nonce: " ++ e)
]

unfoldable pub decrypt_chunk : SecretBox → Bytes → Option Bytes → Res Bytes
decrypt_chunk b data' none = ok data'
decrypt_chunk b data' (some key) =
    if is_empty data'
    then ok data'
    else if ltb (length data') nonce_size
    then err (str "decrypt: data too short")
    else or_err (b.open_box (drop nonce_size data') (take nonce_size data') key)
        (str "decrypt: secretbox open failed")

-- Whatever algorithm is asked for, known or not, what compressChunk returns is decompressed to the
-- data under the algorithm that it returns, and is no longer than the data.
pub decompress_chunk-compress_chunk :
    (z : Gzip) (data' sent : Bytes) (algo used : ℕ)
    → Inverts z
    → compress_chunk z data' algo ≡ ok (sent, used)
    → (decompress_chunk z sent used ≡ ok data') × (length sent ≤ length data')
unfolding compress_chunk decompress_chunk
decompress_chunk-compress_chunk z data' sent algo used inv e =
    (ground (arith, inv data' sent), ground arith)

is_empty-append : (n xs : Bytes) → length n ≡ nonce_size → is_empty (n ++ xs) ≡ false
is_empty-append [] xs h = absurd (omega arith)
is_empty-append (x ∷ n) xs h = refl

-- What encryptChunk returns under a key, or under none, decryptChunk returns to the data under the
-- same.
pub decrypt_chunk-encrypt_chunk :
    (b : SecretBox) (n data' sent : Bytes) (key : Option Bytes)
    → Opens b
    → length n ≡ nonce_size
    → encrypt_chunk b (ok n) data' key ≡ ok sent
    → decrypt_chunk b sent key ≡ ok data'
unfolding encrypt_chunk decrypt_chunk
decrypt_chunk-encrypt_chunk b n data' sent none o h e = cc
decrypt_chunk-encrypt_chunk b n data' sent (some key) o h e = elim (Bool-cases (is_empty data')) [
  | inl k ↦ ground arith
  | inr k ↦
      let sent_is : n ++ b.seal data' n key ≡ sent = ground arith in
      rw
        (
          ← sent_is,
          is_empty-append n (b.seal data' n key) h,
          ltb-false (length (n ++ b.seal data' n key)) nonce_size
              (omega (arith, length-append n (b.seal data' n key))),
          drop-append nonce_size n (b.seal data' n key) h,
          take-append nonce_size n (b.seal data' n key) h,
          o data' n key,
        )
        refl
]
