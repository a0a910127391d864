-- ===== src/Client/Receive/Silent.antt =====
-- handleReceive of client.go: the rounds between two deliveries.
use gcp.Base.{
  ℕ, suc, ◌+◌, ◌*◌, ◌≤◌, ◌<◌, ◌≡◌, refl, ap, ◌≢◌, false, Bytes, List, [], ◌∷◌, ◌++◌, some, length,
  take, drop, is_empty, arith, length-append, length-take,
}
use gcp.Message.Types.{Msg, Codec}
use gcp.Message.Header.{head_size, encode_msg}
use gcp.Message.Header.Laws.{length-encode_msg}
use gcp.Client.Response.{frame_parts}
use gcp.Message.Reader.Traffic.{IsSendable, wire}
use gcp.Client.Receive.{
  Machine, Phase, reading_head, allocating, reading_msg, reading_payload, decoding, phase, room,
  store, push, receive,
}
use gcp.Client.Receive.Progress.{flatten, NonEmpty, reads}
use gcp.Client.Receive.Rounds.{IsReading, InHead, InMsg, InPayload, receive_read, receive-allocate}
use gcp.Client.Receive.Steps.{step_head, step_allocate, step_msg, step_payload}

-- A message that a peer sends in practice: its encoding is not empty.
abbrev pub IsSent : Codec → Msg × Bytes → Type 0
IsSent c (m, p) = IsSendable c (m, p) × (0 < length (c.encode m))

-- The rounds still needed, beyond four for each byte to come.
unfoldable pub weight : Phase → ℕ
weight reading_head = 0
weight allocating = 3
weight reading_msg = 2
weight reading_payload = 2
weight decoding = 1

weight-le : (ph : Phase) → weight ph ≤ 3
unfolding weight
weight-le reading_head = omega arith
weight-le _ = omega arith

abbrev pub measure : Machine → Bytes → ℕ
measure s stream = 4 * length stream + weight (phase s)

-- Between two frames, or at a point of the first frame of `ms`.
pub data At (c : Codec) (ms : List (Msg × Bytes)) (s : Machine) (stream : Bytes) : Type 0 where
  idle : ms ≡ [] → stream ≡ [] → s.read_size ≡ 0 → At c ms s stream
  in_head :
      (m : Msg) (p : Bytes) (rest : List (Msg × Bytes))
      → ms ≡ (m, p) ∷ rest
      → InHead c m p rest s stream
      → At c ms s stream
  in_msg :
      (m : Msg) (p : Bytes) (rest : List (Msg × Bytes)) (k : ℕ)
      → ms ≡ (m, p) ∷ rest
      → InMsg c m p rest s k stream
      → At c ms s stream
  in_payload :
      (m : Msg) (p : Bytes) (rest : List (Msg × Bytes)) (k : ℕ)
      → ms ≡ (m, p) ∷ rest
      → InPayload c m p rest s k stream
      → At c ms s stream

-- A round that delivers nothing.
pub record Silent (c : Codec) (ms : List (Msg × Bytes)) (s : Machine) (pieces : List Bytes)
    : Type 0 where
  pub s' : Machine
  pub pieces' : List Bytes
  pub same : (fuel : ℕ) → receive c (suc fuel) s pieces ≡ receive c fuel s' pieces'
  pub at : At c ms s' (flatten pieces')
  pub non_empty : NonEmpty pieces'
  pub less : measure s' (flatten pieces') < measure s (flatten pieces)

Silent-read :
    (c : Codec) (ms : List (Msg × Bytes)) (s : Machine) (ph : Phase) (pieces : List Bytes)
    → IsReading ph
    → phase s ≡ ph
    → 0 < room s ph
    → flatten pieces ≢ []
    → NonEmpty pieces
    → ((piece stream' : Bytes)
        → flatten pieces ≡ piece ++ stream'
        → length piece ≤ room s ph
        → (s' : Machine) × (store s ph piece ≡ some s') × At c ms s' stream')
    → Silent c ms s pieces
Silent-read c ms s ph [] r e h ne n step = absurd (ne refl)
Silent-read c ms s ph (b ∷ bs) r e h ne n step =
    let rd = reads (room s ph) b bs h n in
    let (s', stored, at) =
      step (take (room s ph) b) (flatten (push (drop (room s ph) b) bs)) rd.stream rd.within in
    record {
      s' = s';
      pieces' = push (drop (room s ph) b) bs;
      same = λ fuel. receive_read c fuel s s' ph b bs r e stored;
      at = at;
      non_empty = rd.non_empty;
      less = omega (
        arith,
        ap length rd.stream,
        length-append (take (room s ph) b) (flatten (push (drop (room s ph) b) bs)),
        rd.some_bytes,
        weight-le (phase s'),
      );
    }

nonempty_stream :
    (done stream target : Bytes)
    → done ++ stream ≡ target
    → length done < length target
    → stream ≢ []
nonempty_stream done stream target e h k =
    absurd (omega (arith, ap length e, length-append done stream, ap length k))

pub phase_head : (s : Machine) → s.read_size < head_size → phase s ≡ reading_head
unfolding phase
phase_head s h = ground arith

phase_allocating : (s : Machine) → head_size ≤ s.read_size → s.buf_msg ≡ [] → phase s ≡ allocating
unfolding phase
phase_allocating s h e = ground arith

length-cons : (b : Bytes) → 0 < length b → is_empty b ≡ false
length-cons [] h = absurd (omega arith)
length-cons (x ∷ b) h = refl

phase_msg :
    (s : Machine) (k : ℕ)
    → s.read_size ≡ head_size + k
    → k < length s.buf_msg
    → phase s ≡ reading_msg
unfolding phase
phase_msg s k e h = ground (arith, length-cons s.buf_msg (omega arith))

phase_payload :
    (s : Machine) (k : ℕ)
    → 0 < length s.buf_msg
    → s.read_size ≡ head_size + length s.buf_msg + k
    → k < length s.payload
    → phase s ≡ reading_payload
unfolding phase
phase_payload s k pos e h = ground (arith, length-cons s.buf_msg pos)

pub phase_decoding :
    (s : Machine)
    → 0 < length s.buf_msg
    → s.read_size ≡ head_size + length s.buf_msg + length s.payload
    → phase s ≡ decoding
unfolding phase
phase_decoding s pos e = ground (arith, length-cons s.buf_msg pos)

module _ (c : Codec) (m : Msg) (p : Bytes) (rest : List (Msg × Bytes)) where
  abbrev all : List (Msg × Bytes)
  all = (m, p) ∷ rest

  pub read_head_round :
      (s : Machine) (pieces : List Bytes)
      → InHead c m p rest s (flatten pieces)
      → s.read_size < head_size
      → NonEmpty pieces
      → Silent c all s pieces
  read_head_round s pieces i h ne =
      Silent-read c all s reading_head pieces tt (phase_head s h)
        (unfold room in omega (arith, i.length_head))
        (nonempty_stream (take s.read_size s.buf_head) (flatten pieces) _ i.follows (
          omega (
            arith,
            length-take s.read_size s.buf_head,
            ap length (frame_parts c m p (wire c rest)),
            length-append (encode_msg c m (length p)).0 (c.encode m ++ (p ++ wire c rest)),
            length-encode_msg c m (length p),
          )))
        ne
        (λ piece stream' e le.
          let (s', stored, i') = step_head c m p rest s piece (flatten pieces) stream' i e le in
          (s', stored, in_head m p rest refl i'))

  pub allocate_round :
      (s : Machine) (pieces : List Bytes)
      → IsSent c (m, p)
      → InHead c m p rest s (flatten pieces)
      → s.read_size ≡ head_size
      → NonEmpty pieces
      → Silent c all s pieces
  unfolding weight
  allocate_round s pieces (g, pos) i h ne =
      let (s', made, i') = step_allocate c m p rest s (flatten pieces) g i h in
      let now : phase s ≡ allocating = phase_allocating s (omega arith) i.no_msg in
      let next : phase s' ≡ reading_msg =
        phase_msg s' 0 i'.read_size_is (omega (arith, i'.length_msg)) in
      record {
        s' = s';
        pieces' = pieces;
        same = λ fuel. receive-allocate c fuel s s' pieces now made;
        at = in_msg m p rest 0 refl i';
        non_empty = ne;
        less = rw (now, next) (omega arith);
      }

  pub msg_round :
      (s : Machine) (k : ℕ) (pieces : List Bytes)
      → InMsg c m p rest s k (flatten pieces)
      → k < length (c.encode m)
      → NonEmpty pieces
      → Silent c all s pieces
  msg_round s k pieces i h ne =
      Silent-read c all s reading_msg pieces tt
        (phase_msg s k i.read_size_is (omega (arith, i.length_msg)))
        (unfold room in omega (arith, i.read_size_is, i.length_msg))
        (nonempty_stream (take k s.buf_msg) (flatten pieces) _ i.follows (
          omega (
            arith,
            length-take k s.buf_msg,
            length-append (c.encode m) (p ++ wire c rest),
            i.length_msg,
          )))
        ne
        (λ piece stream' e le.
          let (s', stored, i') = step_msg c m p rest s k piece (flatten pieces) stream' i e le in
          (s', stored, in_msg m p rest (k + length piece) refl i'))

  pub payload_round :
      (s : Machine) (k : ℕ) (pieces : List Bytes)
      → 0 < length (c.encode m)
      → InPayload c m p rest s k (flatten pieces)
      → k < length p
      → NonEmpty pieces
      → Silent c all s pieces
  payload_round s k pieces pos i h ne =
      Silent-read c all s reading_payload pieces tt
        (phase_payload s k (rw i.msg_is pos) (rw i.msg_is i.read_size_is)
          (omega (arith, i.length_payload)))
        (unfold room in omega (arith, i.read_size_is, ap length i.msg_is, i.length_payload))
        (nonempty_stream (take k s.payload) (flatten pieces) _ i.follows
          (omega (arith, length-take k s.payload, length-append p (wire c rest), i.length_payload)))
        ne
        (λ piece stream' e le.
          let (s', stored, i') =
            step_payload c m p rest s k piece (flatten pieces) stream' i e le in
          (s', stored, in_payload m p rest (k + length piece) refl i'))

pub NonEmpty-flatten : (pieces : List Bytes) → flatten pieces ≡ [] → NonEmpty pieces → pieces ≡ []
NonEmpty-flatten [] e n = refl
NonEmpty-flatten ([] ∷ bs) e n = absurd (n.0 refl)
NonEmpty-flatten ((x ∷ b) ∷ bs) e n = cc
