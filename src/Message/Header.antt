-- ===== src/Message/Header.antt =====
-- The frame header of message/message.go: EncodeMsg, DecodePre and their constants.
pub mod Laws
use gcp.Base.{
  ℕ, ◌+◌, ◌*◌, ◌/◌, ◌%◌, ◌^◌, Bool, ◌&&◌, ◌||◌, Bytes, List, [], ◌∷◌, ◌++◌, Option, none, some,
  length, drop, ltb, ◌==◌, if◌then◌else◌, uint32,
}
use gcp.Message.Types.{
  MessageType, create_req_t, create_res_t, write_req_t, write_res_t, read_req_t, read_res_t,
  stat_req_t, stat_res_t, read_dir_req_t, read_dir_res_t, hash_req_t, hash_res_t, auth_req_t,
  auth_res_t, Msg, type_of, Codec,
}

abbrev pub magic_a : ℕ
magic_a = 0xA8

abbrev pub magic_b : ℕ
magic_b = 0xD5

abbrev pub head_size : ℕ
head_size = 11

abbrev pub max_msg_size : ℕ
max_msg_size = 2 ^ 16

abbrev pub max_payload_size : ℕ
max_payload_size = 2 ^ 24

pub data Error : Type 0 where
  incomplete_packet bad_protocol msg_type short_head decode_failed io_error : Error

pub data Result {ℓ} (A : Type ℓ) : Type ℓ where
  ok : A → Result A
  err : Error → Result A

-- The constants of MessageType, by iota.
unfoldable pub byte_of : MessageType → ℕ
byte_of create_req_t = 0
byte_of create_res_t = 1
byte_of write_req_t = 2
byte_of write_res_t = 3
byte_of read_req_t = 4
byte_of read_res_t = 5
byte_of stat_req_t = 6
byte_of stat_res_t = 7
byte_of read_dir_req_t = 8
byte_of read_dir_res_t = 9
byte_of hash_req_t = 10
byte_of hash_res_t = 11
byte_of auth_req_t = 12
byte_of auth_res_t = 13

-- The switch of DecodePre over the type byte.
unfoldable pub type_of_byte : ℕ → Option MessageType
unfolding byte_of
type_of_byte b =
    if b == byte_of create_req_t
    then some create_req_t
    else if b == byte_of create_res_t
    then some create_res_t
    else if b == byte_of write_req_t
    then some write_req_t
    else if b == byte_of write_res_t
    then some write_res_t
    else if b == byte_of read_req_t
    then some read_req_t
    else if b == byte_of read_res_t
    then some read_res_t
    else if b == byte_of stat_req_t
    then some stat_req_t
    else if b == byte_of stat_res_t
    then some stat_res_t
    else if b == byte_of read_dir_req_t
    then some read_dir_req_t
    else if b == byte_of read_dir_res_t
    then some read_dir_res_t
    else if b == byte_of hash_req_t
    then some hash_req_t
    else if b == byte_of hash_res_t
    then some hash_res_t
    else if b == byte_of auth_req_t
    then some auth_req_t
    else if b == byte_of auth_res_t
    then some auth_res_t
    else none

-- binary.BigEndian.PutUint32 and Uint32; a slice shorter than four bytes is not met.
unfoldable pub put_uint32 : ℕ → Bytes
put_uint32 v = (v / 2 ^ 24 % 256) ∷ (v / 2 ^ 16 % 256) ∷ (v / 2 ^ 8 % 256) ∷ (v % 256) ∷ []

unfoldable pub get_uint32 : Bytes → ℕ
get_uint32 (a ∷ b ∷ c ∷ d ∷ rest) = ((a * 256 + b) * 256 + c) * 256 + d
get_uint32 bs = 0

unfoldable pub magic_number_check : ℕ → ℕ → Bool
magic_number_check ma mb = ma == magic_a && mb == magic_b

-- EncodeMsg: the header and the encoded message.
unfoldable pub encode_msg : Codec → Msg → ℕ → Bytes × Bytes
unfolding put_uint32
encode_msg codec msg payload_size =
    let msgbuf = codec.encode msg in
    (
      magic_a
          ∷ magic_b
          ∷ byte_of (type_of msg)
          ∷ (put_uint32 (uint32 (length msgbuf)) ++ put_uint32 (uint32 payload_size)),
      msgbuf,
    )

-- What WriteMessage puts on the wire.
unfoldable pub write_message : Codec → Msg → Bytes → Bytes
write_message codec msg payload =
    let (head, msgbuf) = encode_msg codec msg (length payload) in head ++ (msgbuf ++ payload)

-- The two length fields, at bytes 3 and 7.
abbrev pub sizes : Bytes → ℕ × ℕ
sizes head = (get_uint32 (drop 3 head), get_uint32 (drop 7 head))

abbrev pub oversized : ℕ → ℕ → Bool
oversized msg_size payload_size = ltb max_msg_size msg_size || ltb max_payload_size payload_size

-- The part of DecodePre behind its length test, on the type byte.
unfoldable pub decode_type : Option MessageType → ℕ × ℕ → Result (MessageType × ℕ × ℕ)
decode_type none (msg_size, payload_size) = err msg_type
decode_type (some t) (msg_size, payload_size) =
    if oversized msg_size payload_size then err bad_protocol else ok (t, msg_size, payload_size)

abbrev pub byte_at : Bytes → ℕ → ℕ
byte_at bs i = elim (drop i bs) [ [] ↦ 0 | b ∷ rest ↦ b ]

-- DecodePre; the fresh message that it returns is given by its type.
unfoldable pub decode_pre : Bytes → Result (MessageType × ℕ × ℕ)
unfolding decode_type
decode_pre head =
    if ltb (length head) head_size
    then err short_head
    else decode_type (type_of_byte (byte_at head 2)) (sizes head)
