-- ===== src/Message/Header/Laws.antt =====
-- EncodeMsg and DecodePre of message/message.go: the fields of the header.
use gcp.Base.{ℕ, ◌^◌, ◌≤◌, ◌<◌, ◌≡◌, refl, Bytes, ◌++◌, some, length, arith}
use gcp.Message.Types.{MessageType, create_req_t, Msg, type_of, Codec}
use gcp.Message.Header.{
  byte_of, type_of_byte, put_uint32, get_uint32, encode_msg, decode_pre, ok, max_msg_size,
  max_payload_size, head_size, sizes,
}

pub type_of_byte-byte_of : (t : MessageType) → type_of_byte (byte_of t) ≡ some t
unfolding type_of_byte
type_of_byte-byte_of create_req_t = refl
type_of_byte-byte_of _ = refl

pub get_uint32-put_uint32 :
    (v : ℕ) (rest : Bytes) → v < 2 ^ 32 → get_uint32 (put_uint32 v ++ rest) ≡ v
unfolding get_uint32 put_uint32
get_uint32-put_uint32 v rest h = omega arith

pub length-encode_msg : (c : Codec) (m : Msg) (n : ℕ) → length (encode_msg c m n).0 ≡ head_size
unfolding encode_msg
length-encode_msg c m n = refl

-- DecodePre reads from the header that EncodeMsg makes, whatever follows it, the type and the two
-- sizes, if they are within the limits.
pub decode_pre-encode_msg :
    (c : Codec) (m : Msg) (n : ℕ) (rest : Bytes)
    → length (c.encode m) ≤ max_msg_size
    → n ≤ max_payload_size
    → decode_pre ((encode_msg c m n).0 ++ rest) ≡ ok (type_of m, length (c.encode m), n)
unfolding encode_msg decode_pre get_uint32
decode_pre-encode_msg c m n rest hm hn = rw type_of_byte-byte_of (ground arith)

pub decode_pre_bounds :
    (head : Bytes) (t : MessageType) (m p : ℕ)
    → decode_pre head ≡ ok (t, m, p)
    → (m ≤ max_msg_size) × (p ≤ max_payload_size)
unfolding decode_pre
decode_pre_bounds head t m p e = ground arith

pub sizes-encode_msg :
    (c : Codec) (m : Msg) (n : ℕ)
    → length (c.encode m) ≤ max_msg_size
    → n ≤ max_payload_size
    → sizes (encode_msg c m n).0 ≡ (length (c.encode m), n)
unfolding encode_msg get_uint32
sizes-encode_msg c m n hm hn = ground arith
