-- ===== src/Client/Response.antt =====
-- readResp of client.go: one frame read from a connection, for the exchanges before the pool runs.
-- The connection is the list of bytes that it will deliver before it ends.
use gcp.Base.{
  ℕ, ◌≤◌, ◌≡◌, refl, ap, ◌∙◌, Bytes, [], ◌++◌, Option, none, some, length, take, drop, ltb,
  if◌then◌else◌, arith, ltb-false, length-append, take-append, drop-append, append_assoc,
  append-nil,
}
use gcp.Message.Types.{Msg, Codec, RoundTrips, type_of}
use gcp.Message.Header.{
  Result, ok, err, bad_protocol, decode_failed, io_error, head_size, max_msg_size, max_payload_size,
  magic_number_check, byte_at, decode_pre, encode_msg, write_message,
}
use gcp.Message.Header.Laws.{length-encode_msg, decode_pre-encode_msg}

infixl 5 ◌>>=◌
abbrev ◌>>=◌ {ℓ κ} : {A : Type ℓ} {B : Type κ} → Result A → (A → Result B) → Result B
ok a >>= f = f a
err e >>= f = err e

abbrev or_fail : Option Msg → Result Msg
or_fail none = err decode_failed
or_fail (some m) = ok m

-- io.ReadFull, and io.CopyN to io.Discard: `n` bytes and the rest, or an error.
unfoldable pub read_full : ℕ → Bytes → Result (Bytes × Bytes)
read_full n input = if ltb (length input) n then err io_error else ok (take n input, drop n input)

abbrev check_magic : Bytes → Result Bytes
check_magic head =
    if magic_number_check (byte_at head 0) (byte_at head 1) then ok head else err bad_protocol

unfoldable pub read_resp : Codec → Bytes → Result (Msg × Bytes)
unfolding read_full
read_resp c input = do
  (head, input) ← read_full head_size input
  head ← check_magic head
  (t, msg_size, payload_size) ← decode_pre head
  (body, input) ← read_full msg_size input
  msg ← or_fail (c.decode t body)
  (discarded, input) ← read_full payload_size input
  ok (msg, input)

read_full-append : (n : ℕ) (xs ys : Bytes) → length xs ≡ n → read_full n (xs ++ ys) ≡ ok (xs, ys)
unfolding read_full
read_full-append n xs ys h = rw (
  ltb-false (length (xs ++ ys)) n (omega (arith, length-append xs ys)),
  take-append n xs ys h,
  drop-append n xs ys h,
)

pub decode_pre_head :
    (c : Codec) (m : Msg) (n : ℕ)
    → length (c.encode m) ≤ max_msg_size
    → n ≤ max_payload_size
    → decode_pre (encode_msg c m n).0 ≡ ok (type_of m, length (c.encode m), n)
decode_pre_head c m n h k =
    rw (← append-nil (encode_msg c m n).0) (decode_pre-encode_msg c m n [] h k)

check_magic-encode_msg :
    (c : Codec) (m : Msg) (n : ℕ) → check_magic (encode_msg c m n).0 ≡ ok (encode_msg c m n).0
unfolding encode_msg magic_number_check
check_magic-encode_msg c m n = refl

pub frame_parts :
    (c : Codec) (m : Msg) (p rest : Bytes)
    → write_message c m p ++ rest ≡ (encode_msg c m (length p)).0 ++ (c.encode m ++ (p ++ rest))
unfolding write_message encode_msg
frame_parts c m p rest =
    append_assoc (encode_msg c m (length p)).0 (c.encode m ++ p) rest
    ∙ ap (◌++◌ (encode_msg c m (length p)).0) (append_assoc (c.encode m) p rest)

-- From a connection that delivers a sent frame, readResp returns its message, and leaves the
-- connection just behind the frame, its payload skipped.
pub read_resp-write_message :
    (c : Codec) (m : Msg) (p rest : Bytes)
    → RoundTrips c m
    → length (c.encode m) ≤ max_msg_size
    → length p ≤ max_payload_size
    → read_resp c (write_message c m p ++ rest) ≡ ok (m, rest)
unfolding read_resp
read_resp-write_message c m p rest good fits fits_payload =
    rw
      (
        frame,
        read_full-append head_size head (body ++ (p ++ rest)) (length-encode_msg c m (length p)),
        ◌>>=◌,
        check_magic-encode_msg c m (length p),
        decode_pre_head c m (length p) fits fits_payload,
        ◌>>=◌,
        read_full-append (length body) body (p ++ rest) refl,
        good,
        read_full-append (length p) p rest refl,
      )
      refl
  where
    head : Bytes
    head = (encode_msg c m (length p)).0

    body : Bytes
    body = c.encode m

    frame : write_message c m p ++ rest ≡ head ++ (body ++ (p ++ rest))
    frame = frame_parts c m p rest
