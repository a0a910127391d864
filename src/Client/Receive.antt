-- ===== src/Client/Receive.antt =====
-- handleReceive of client.go: the state machine that puts frames together from what Read returns.
-- A round of the loop is a call of `round`. The network is the list of the pieces that arrive: a
-- Read takes from the first piece as much as it has room for. Cancelling the context, which ends
-- the loop between two rounds, is left out.
pub mod Progress
pub mod Rounds
pub mod Steps
pub mod Silent
pub mod Delivery
pub mod Defects
use gcp.Base.{
  ℕ, zero, suc, ◌+◌, ◌-◌, ◌≤◌, ◌<◌, ◌≡◌, Bool, true, false, not, ◌&&◌, ◌||◌, Bytes, List, [], ◌∷◌,
  ◌++◌, Option, none, some, length, take, drop, replicate, ltb, if◌then◌else◌, is_empty,
}
use gcp.Message.Types.{MessageType, Msg, Codec}
use gcp.Message.Header.{
  Result, ok, err, head_size, max_msg_size, max_payload_size, magic_number_check, byte_at,
  decode_pre, sizes, oversized,
}

-- The variables of the loop.
pub record Machine : Type 0 where
  pub buf_head : Bytes
  pub read_size : ℕ
  pub buf_msg : Bytes
  pub payload : Bytes
  pub magic_num_checked : Bool

abbrev pub init : Machine
init = record {
  buf_head = replicate head_size 0;
  read_size = 0;
  buf_msg = [];
  payload = [];
  magic_num_checked = false;
}

-- The five branches of the loop, by their guards in order.
pub data Phase : Type 0 where
  reading_head allocating reading_msg reading_payload decoding : Phase

unfoldable pub phase : Machine → Phase
phase s =
    if ltb s.read_size head_size
    then reading_head
    else if is_empty s.buf_msg
    then allocating
    else if ltb s.read_size (head_size + length s.buf_msg)
    then reading_msg
    else if ltb s.read_size (head_size + length s.buf_msg + length s.payload)
    then reading_payload
    else decoding

-- A Read into buf[k:] that returned `piece`.
abbrev pub splice : ℕ → Bytes → Bytes → Bytes
splice k piece buf = take k buf ++ (piece ++ drop (k + length piece) buf)

-- The room in the slice that a reading branch hands to Read.
unfoldable pub room : Machine → Phase → ℕ
room s reading_head = length s.buf_head - s.read_size
room s reading_msg = length s.buf_msg - (s.read_size - head_size)
room s reading_payload = length s.payload - (s.read_size - head_size - length s.buf_msg)
room s _ = 0

-- The check of the magic bytes behind a read into the header; `none` is the return.
unfoldable pub check_magic : Machine → Option Machine
check_magic s =
    if ltb 1 s.read_size && not s.magic_num_checked
    then (if magic_number_check (byte_at s.buf_head 0) (byte_at s.buf_head 1)
        then some (record s { magic_num_checked = true })
        else none)
    else some s

-- A reading branch, once Read has returned `piece`.
unfoldable pub store : Machine → Phase → Bytes → Option Machine
unfolding check_magic
store s reading_head piece = check_magic (record s {
  buf_head = splice s.read_size piece s.buf_head;
  read_size = s.read_size + length piece;
})
store s reading_msg piece = some (record s {
  buf_msg = splice (s.read_size - head_size) piece s.buf_msg;
  read_size = s.read_size + length piece;
})
store s reading_payload piece = some (record s {
  payload = splice (s.read_size - head_size - length s.buf_msg) piece s.payload;
  read_size = s.read_size + length piece;
})
store s _ piece = some s

-- The second branch: the sizes are checked and the buffers made.
unfoldable pub allocate : Machine → Option Machine
allocate s =
    let (msg_size, payload_size) = sizes s.buf_head in
    if oversized msg_size payload_size
    then none
    else some (record s { buf_msg = replicate msg_size 0; payload = replicate payload_size 0 })

abbrev type_of_head : Result (MessageType × ℕ × ℕ) → Option MessageType
type_of_head (ok (t, m, n)) = some t
type_of_head (err e) = none

-- The last branch: the message and its payload, and the machine for the next frame.
unfoldable pub decode : Codec → Machine → Option (Msg × Bytes × Machine)
decode c s = elim (type_of_head (decode_pre s.buf_head)) [
  | none ↦ none
  | some t ↦ elim (c.decode t s.buf_msg) [
    | none ↦ none
    | some msg ↦ some (msg, s.payload, record s { read_size = 0; buf_msg = []; payload = [] })
  ]
]

-- How the rounds end: with a Read that waits, by a return, or with the fuel used up.
pub data End : Type 0 where
  waiting returned out_of_fuel : End

abbrev push : Bytes → List Bytes → List Bytes
push [] pieces = pieces
push (b ∷ bs) pieces = (b ∷ bs) ∷ pieces

-- The rounds of the loop; the messages are those sent to receiveHandle, in order.
unfoldable pub receive : Codec → ℕ → Machine → List Bytes → List (Msg × Bytes) × End × Machine
receive c zero s pieces = ([], out_of_fuel, s)
receive c (suc fuel) s pieces = elim (phase s) [
  | allocating ↦ elim (allocate s) [ none ↦ ([], returned, s) | some s' ↦ receive c fuel s' pieces ]
  | decoding ↦ elim (decode c s) [
    | none ↦ ([], returned, s)
    | some (msg, payload, s') ↦
        let (ms, e, s'') = receive c fuel s' pieces in ((msg, payload) ∷ ms, e, s'')
  ]
  | p ↦ elim pieces [
    | [] ↦ ([], waiting, s)
    | piece ∷ rest ↦ elim (store s p (take (room s p) piece)) [
      | none ↦ ([], returned, s)
      | some s' ↦ receive c fuel s' (push (drop (room s p) piece) rest)
    ]
  ]
]
