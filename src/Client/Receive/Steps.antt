-- ===== src/Client/Receive/Steps.antt =====
-- What each branch of handleReceive does to a machine that stands in a frame that a peer has sent.
use gcp.Base.{
  ℕ, zero, suc, ◌+◌, ◌-◌, ◌≤◌, ◌<◌, ◌≡◌, refl, sym, ap, ◌∙◌, inl, inr, Bool, true, Bytes, List, [],
  ◌∷◌, ◌++◌, some, length, take, replicate, ltb, arith, length-replicate, Bool-cases,
}
use gcp.Message.Types.{Msg, Codec}
use gcp.Message.Header.{head_size, magic_number_check, byte_at, encode_msg, write_message}
use gcp.Message.Header.Laws.{length-encode_msg, sizes-encode_msg}
use gcp.Message.Reader.Traffic.{IsSendable, wire}
use gcp.Client.Response.{frame_parts, decode_pre_head}
use gcp.Client.Receive.{
  Machine, reading_head, reading_msg, reading_payload, splice, room, check_magic, store, allocate,
  decode,
}
use gcp.Client.Receive.Progress.{length-splice}
use gcp.Client.Receive.Rounds.{InHead, InMsg, InPayload, more, full}

check_magic_kept :
    (s : Machine)
    → (1 < s.read_size → magic_number_check (byte_at s.buf_head 0) (byte_at s.buf_head 1) ≡ true)
    → (b : Bool) × (check_magic s ≡ some (record s { magic_num_checked = b }))
unfolding check_magic
check_magic_kept s h = elim (Bool-cases (ltb 1 s.read_size)) [
  | inr e ↦ (s.magic_num_checked, ground arith)
  | inl e ↦ elim (Bool-cases s.magic_num_checked) [
    | inl k ↦ (s.magic_num_checked, ground arith)
    | inr k ↦ (true, ground (arith, h (ground arith)))
  ]
]

first_two :
    (k : ℕ) (buf stream tail : Bytes) (a b : ℕ)
    → 2 ≤ k
    → 2 ≤ length buf
    → take k buf ++ stream ≡ a ∷ b ∷ tail
    → (byte_at buf 0 ≡ a) × (byte_at buf 1 ≡ b)
first_two (suc (suc k)) (x ∷ y ∷ buf) stream tail a b h l e = (cc, cc)
first_two (suc (suc k)) (x ∷ []) stream tail a b h l e = absurd (omega arith)
first_two (suc (suc k)) [] stream tail a b h l e = absurd (omega arith)
first_two (suc zero) buf stream tail a b h l e = absurd (omega arith)
first_two zero buf stream tail a b h l e = absurd (omega arith)

module _ (c : Codec) (m : Msg) (p : Bytes) (ms : List (Msg × Bytes)) where
  frame_magic :
      (k : ℕ) (buf stream : Bytes)
      → 2 ≤ k
      → 2 ≤ length buf
      → take k buf ++ stream ≡ write_message c m p ++ wire c ms
      → magic_number_check (byte_at buf 0) (byte_at buf 1) ≡ true
  unfolding write_message encode_msg magic_number_check
  frame_magic k buf stream h l e = let (a, b) = first_two k buf stream _ _ _ h l e in rw (a, b) refl

  pub step_head :
      (s : Machine) (piece stream stream' : Bytes)
      → InHead c m p ms s stream
      → stream ≡ piece ++ stream'
      → length piece ≤ room s reading_head
      → (s' : Machine) × (store s reading_head piece ≡ some s') × InHead c m p ms s' stream'
  unfolding store room
  step_head s piece stream stream' i e le =
      let fits : s.read_size + length piece ≤ length s.buf_head =
        omega (arith, i.room_left, i.length_head) in
      let buf : Bytes = splice s.read_size piece s.buf_head in
      let size : ℕ = s.read_size + length piece in
      let long : length buf ≡ head_size =
        length-splice s.read_size piece s.buf_head fits ∙ i.length_head in
      let after : take size buf ++ stream' ≡ write_message c m p ++ wire c ms =
        more s.read_size s.buf_head piece stream stream' _ fits e i.follows in
      let (b, kept) =
        check_magic_kept (record s { buf_head = buf; read_size = size })
          (λ h. frame_magic size buf stream' h (omega arith) after) in
      (
        record s { buf_head = buf; read_size = size; magic_num_checked = b },
        kept,
        record {
          length_head = long;
          room_left = omega (arith, i.length_head);
          no_msg = i.no_msg;
          follows = after;
        },
      )

  pub step_allocate :
      (s : Machine) (stream : Bytes)
      → IsSendable c (m, p)
      → InHead c m p ms s stream
      → s.read_size ≡ head_size
      → (s' : Machine) × (allocate s ≡ some s') × InMsg c m p ms s' 0 stream
  unfolding allocate
  step_allocate s stream (good, fits, fits_payload) i h =
      let (head_is, rest_is) =
        full s.read_size s.buf_head stream (encode_msg c m (length p)).0
          (c.encode m ++ (p ++ wire c ms)) (omega (arith, i.length_head))
          (i.length_head ∙ sym (length-encode_msg c m (length p)))
          (i.follows ∙ frame_parts c m p (wire c ms)) in
      let read_back = sizes-encode_msg c m (length p) fits fits_payload in
      (
        record s { buf_msg = replicate (length (c.encode m)) 0; payload = replicate (length p) 0 },
        rw (head_is, ap (λ (x : ℕ × ℕ). x.0) read_back, ap (λ (x : ℕ × ℕ). x.1) read_back)
            (ground arith),
        record {
          head_is = head_is;
          read_size_is = omega arith;
          msg_left = omega arith;
          length_msg = length-replicate {A = ℕ} (length (c.encode m)) 0;
          length_payload = length-replicate {A = ℕ} (length p) 0;
          follows = rest_is;
        },
      )

  pub step_msg :
      (s : Machine) (k : ℕ) (piece stream stream' : Bytes)
      → InMsg c m p ms s k stream
      → stream ≡ piece ++ stream'
      → length piece ≤ room s reading_msg
      → (s' : Machine) × (store s reading_msg piece ≡ some s')
        × InMsg c m p ms s' (k + length piece) stream'
  unfolding store room
  step_msg s k piece stream stream' i e le =
      let at : s.read_size - head_size ≡ k = omega (arith, i.read_size_is) in
      let fits : k + length piece ≤ length s.buf_msg = omega (arith, i.msg_left, i.length_msg) in
      (
        record s {
          buf_msg = splice (s.read_size - head_size) piece s.buf_msg;
          read_size = s.read_size + length piece;
        },
        refl,
        record {
          head_is = i.head_is;
          read_size_is = omega (arith, i.read_size_is);
          msg_left = omega (arith, i.length_msg);
          length_msg = rw at (length-splice k piece s.buf_msg fits ∙ i.length_msg);
          length_payload = i.length_payload;
          follows = rw at (more k s.buf_msg piece stream stream' _ fits e i.follows);
        },
      )

  pub msg_done :
      (s : Machine) (k : ℕ) (stream : Bytes)
      → InMsg c m p ms s k stream
      → k ≡ length (c.encode m)
      → InPayload c m p ms s 0 stream
  msg_done s k stream i h =
      let (msg_is, rest_is) =
        full k s.buf_msg stream (c.encode m) (p ++ wire c ms) (omega (arith, i.length_msg))
          i.length_msg i.follows in
      record {
        head_is = i.head_is;
        msg_is = msg_is;
        read_size_is = omega (arith, i.read_size_is);
        payload_left = omega arith;
        length_payload = i.length_payload;
        follows = rest_is;
      }

  pub step_payload :
      (s : Machine) (k : ℕ) (piece stream stream' : Bytes)
      → InPayload c m p ms s k stream
      → stream ≡ piece ++ stream'
      → length piece ≤ room s reading_payload
      → (s' : Machine) × (store s reading_payload piece ≡ some s')
        × InPayload c m p ms s' (k + length piece) stream'
  unfolding store room
  step_payload s k piece stream stream' i e le =
      let at : s.read_size - head_size - length s.buf_msg ≡ k =
        omega (arith, i.read_size_is, ap length i.msg_is) in
      let fits : k + length piece ≤ length s.payload =
        omega (arith, i.payload_left, i.length_payload) in
      (
        record s {
          payload = splice (s.read_size - head_size - length s.buf_msg) piece s.payload;
          read_size = s.read_size + length piece;
        },
        refl,
        record {
          head_is = i.head_is;
          msg_is = i.msg_is;
          read_size_is = omega (arith, i.read_size_is);
          payload_left = omega (arith, i.length_payload);
          length_payload = rw at (length-splice k piece s.payload fits ∙ i.length_payload);
          follows = rw at (more k s.payload piece stream stream' _ fits e i.follows);
        },
      )

  pub step_decode :
      (s : Machine) (k : ℕ) (stream : Bytes)
      → IsSendable c (m, p)
      → InPayload c m p ms s k stream
      → k ≡ length p
      → (decode c s ≡ some (m, p, record s { read_size = 0; buf_msg = []; payload = [] }))
        × (stream ≡ wire c ms)
  unfolding decode
  step_decode s k stream (good, fits, fits_payload) i h =
      let (payload_is, rest_is) =
        full k s.payload stream p (wire c ms) (omega (arith, i.length_payload)) i.length_payload
          i.follows in
      (
        ground (
          arith,
          i.head_is,
          i.msg_is,
          payload_is,
          good,
          decode_pre_head c m (length p) fits fits_payload,
        ),
        rest_is,
      )
