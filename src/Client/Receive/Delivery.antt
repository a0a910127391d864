-- ===== src/Client/Receive/Delivery.antt =====
-- handleReceive of client.go on a stream of frames, cut into pieces.
use gcp.Base.{
  ℕ, zero, suc, ◌+◌, ◌*◌, ◌<◌, ◌≡◌, refl, ap, ◌∙◌, Bytes, List, [], ◌∷◌, length, arith, All,
}
use native.Mathlib.Decide.{dec_lt}
use gcp.Message.Types.{Msg, Codec}
use gcp.Message.Header.{head_size}
use gcp.Message.Header.Laws.{length-encode_msg}
use gcp.Message.Reader.Traffic.{wire}
use gcp.Client.Receive.{Machine, init, reading_head, decoding, phase, End, waiting, receive}
use gcp.Client.Receive.Progress.{flatten, NonEmpty}
use gcp.Client.Receive.Rounds.{InPayload, receive_decode, receive_wait}
use gcp.Client.Receive.Steps.{msg_done, step_decode}
use gcp.Client.Receive.Silent.{
  IsSent, weight, measure, At, idle, in_head, in_msg, in_payload, Silent, phase_head,
  phase_decoding, read_head_round, allocate_round, msg_round, payload_round, NonEmpty-flatten,
}

-- The machine that a delivery leaves, at the next frame or between two.
abbrev cleared : Machine → Machine
cleared s = record s { read_size = 0; buf_msg = []; payload = [] }

next_At :
    (c : Codec) (ms : List (Msg × Bytes)) (s : Machine) (stream : Bytes)
    → length s.buf_head ≡ head_size
    → stream ≡ wire c ms
    → At c ms (cleared s) stream
next_At c [] s stream h e = idle refl e refl
next_At c ((m, p) ∷ ms) s stream h e =
    in_head m p ms refl
      (record { length_head = h; room_left = omega arith; no_msg = refl; follows = e })

-- What the rounds come to.
abbrev Delivers : Codec → List (Msg × Bytes) → List (Msg × Bytes) × End × Machine → Type 0
Delivers c ms r = (r.0 ≡ ms) × (r.1 ≡ waiting) × (r.2.read_size ≡ 0)

Silent-Delivers :
    (c : Codec) (ms : List (Msg × Bytes)) (s : Machine) (pieces : List Bytes) (fuel : ℕ)
    → measure s (flatten pieces) < suc fuel
    → (w : Silent c ms s pieces)
    → ((s' : Machine) (pieces' : List Bytes)
        → At c ms s' (flatten pieces')
        → NonEmpty pieces'
        → measure s' (flatten pieces') < fuel
        → Delivers c ms (receive c fuel s' pieces'))
    → Delivers c ms (receive c (suc fuel) s pieces)
Silent-Delivers c ms s pieces fuel h w ih =
    rw (w.same fuel) (ih w.s' w.pieces' w.at w.non_empty (omega (arith, w.less)))

decode_Delivers :
    (c : Codec) (m : Msg) (p : Bytes) (rest : List (Msg × Bytes)) (s : Machine) (k : ℕ)
    (pieces : List Bytes) (fuel : ℕ)
    → IsSent c (m, p)
    → InPayload c m p rest s k (flatten pieces)
    → k ≡ length p
    → measure s (flatten pieces) < suc fuel
    → (At c rest (cleared s) (flatten pieces)
        → measure (cleared s) (flatten pieces) < fuel
        → Delivers c rest (receive c fuel (cleared s) pieces))
    → Delivers c ((m, p) ∷ rest) (receive c (suc fuel) s pieces)
unfolding weight
decode_Delivers c m p rest s k pieces fuel (g, pos) i e h ih =
    let (decoded, stream_is) = step_decode c m p rest s k (flatten pieces) g i e in
    let now : phase s ≡ decoding =
      phase_decoding s (rw i.msg_is pos)
        (omega (arith, i.read_size_is, ap length i.msg_is, i.length_payload)) in
    let next : phase (cleared s) ≡ reading_head = phase_head (cleared s) (omega arith) in
    let (ih0, ih1, ih2) =
      ih
        (next_At c rest s (flatten pieces) (ap length i.head_is ∙ length-encode_msg c m (length p))
          stream_is)
        (let before : 4 * length (flatten pieces) + weight decoding < suc fuel = rw now at h in
          rw next (omega arith)) in
    rw (receive_decode c fuel s (cleared s) m p pieces now decoded)
      (ap (λ (t : List (Msg × Bytes)). (m, p) ∷ t) ih0, ih1, ih2)

-- The claim for fewer rounds.
abbrev Hypothesis : Codec → ℕ → List (Msg × Bytes) → Type 0
Hypothesis c fuel ms =
    (s : Machine) (pieces : List Bytes)
    → At c ms s (flatten pieces)
    → NonEmpty pieces
    → measure s (flatten pieces) < fuel
    → Delivers c ms (receive c fuel s pieces)

payload_Delivers :
    (c : Codec) (m : Msg) (p : Bytes) (rest : List (Msg × Bytes)) (s : Machine) (k : ℕ)
    (pieces : List Bytes) (fuel : ℕ)
    → IsSent c (m, p)
    → InPayload c m p rest s k (flatten pieces)
    → NonEmpty pieces
    → measure s (flatten pieces) < suc fuel
    → Hypothesis c fuel ((m, p) ∷ rest)
    → Hypothesis c fuel rest
    → Delivers c ((m, p) ∷ rest) (receive c (suc fuel) s pieces)
payload_Delivers c m p rest s k pieces fuel g i ne h ih ih' = elim (dec_lt k (length p)) [
  | yes l ↦ Silent-Delivers c _ s pieces fuel h (payload_round c m p rest s k pieces g.1 i l ne) ih
  | no l ↦
      decode_Delivers c m p rest s k pieces fuel g i (omega (arith, i.payload_left)) h
        (λ a l'. ih' (cleared s) pieces a ne l')
]

receive_Delivers :
    (c : Codec) (fuel : ℕ) (ms : List (Msg × Bytes)) → All (IsSent c) ms → Hypothesis c fuel ms
receive_Delivers c zero ms g s pieces at ne h = absurd (omega arith)
receive_Delivers c (suc fuel) ms g s pieces (idle a b d) ne h =
    rw (a, NonEmpty-flatten pieces b ne, receive_wait c fuel s (phase_head s (omega arith)))
      (refl, refl, d)
receive_Delivers c (suc fuel) ms g s pieces (in_head m p rest e i) ne h =
    let g' = rw e at g in
    let ih = receive_Delivers c fuel ((m, p) ∷ rest) g' in
    rw e (elim (dec_lt s.read_size head_size) [
      | yes l ↦ Silent-Delivers c _ s pieces fuel h (read_head_round c m p rest s pieces i l ne) ih
      | no l ↦
          Silent-Delivers c _ s pieces fuel h
            (allocate_round c m p rest s pieces g'.0 i (omega (arith, i.room_left)) ne) ih
    ])
receive_Delivers c (suc fuel) ms g s pieces (in_msg m p rest k e i) ne h =
    let g' = rw e at g in
    let ih = receive_Delivers c fuel ((m, p) ∷ rest) g' in
    rw e (elim (dec_lt k (length (c.encode m))) [
      | yes l ↦ Silent-Delivers c _ s pieces fuel h (msg_round c m p rest s k pieces i l ne) ih
      | no l ↦
          payload_Delivers c m p rest s 0 pieces fuel g'.0
            (msg_done c m p rest s k (flatten pieces) i (omega (arith, i.msg_left))) ne h ih
            (receive_Delivers c fuel rest g'.1)
    ])
receive_Delivers c (suc fuel) ms g s pieces (in_payload m p rest k e i) ne h =
    let g' = rw e at g in
    rw e (
      payload_Delivers c m p rest s k pieces fuel g'.0 i ne h
        (receive_Delivers c fuel ((m, p) ∷ rest) g') (receive_Delivers c fuel rest g'.1))

init-At : (c : Codec) (ms : List (Msg × Bytes)) → At c ms init (wire c ms)
init-At c [] = idle refl refl refl
init-At c ((m, p) ∷ ms) =
    in_head m p ms refl
      (record { length_head = refl; room_left = omega arith; no_msg = refl; follows = refl })

-- Whatever pieces the network cuts a stream of sent frames into, the loop of handleReceive delivers
-- just the messages sent, each with its payload, in order, and then waits at the start of a
-- frame; four rounds for each byte and one more are enough.
pub receive-wire :
    (c : Codec) (ms : List (Msg × Bytes)) (pieces : List Bytes) (fuel : ℕ)
    → All (IsSent c) ms
    → NonEmpty pieces
    → flatten pieces ≡ wire c ms
    → 4 * length (wire c ms) < fuel
    → ((receive c fuel init pieces).0 ≡ ms)
      × ((receive c fuel init pieces).1 ≡ waiting)
      × ((receive c fuel init pieces).2.read_size ≡ 0)
unfolding weight
receive-wire c ms pieces fuel g ne e h =
    receive_Delivers c fuel ms g init pieces (rw e (init-At c ms)) ne
      (rw (e, phase_head init (omega arith)) (omega arith))
