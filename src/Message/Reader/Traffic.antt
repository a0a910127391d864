-- ===== src/Message/Reader/Traffic.antt =====
-- The loop of OnTraffic of serve.go: what it takes and hands to the workers.
use gcp.Base.{
  ℕ, zero, suc, ◌+◌, ◌-◌, ◌≤◌, ◌<◌, ◌≡◌, refl, sym, ap, ◌∙◌, ◌≢◌, ◌⊎◌, inl, inr, Bytes, List, [],
  ◌∷◌, ◌++◌, length, take, drop, replicate, arith, All, drop-append, length-append, length-drop,
  append_assoc, append-nil, length-take, length-replicate,
}
use gcp.Message.Types.{MessageType, Msg, Codec, RoundTrips}
use gcp.Message.Header.{
  Error, incomplete_packet, Result, ok, err, head_size, decode_pre, write_message, max_msg_size,
  max_payload_size,
}
use gcp.Message.Header.Laws.{decode_pre_bounds}
use gcp.Message.Reader.{
  PacketReader, IsBuffered, Peeked, got, buffer, buffer_peek, read_body, read_sized, read_head,
  read_magic, read_message, copy_fresh, on_traffic, none_action, out_of_fuel, action_of,
}
use gcp.Message.Reader.Frames.{read_message-buffer, read_message_arrived}

length-copy_fresh : (n : ℕ) (src : Bytes) → length (copy_fresh n src) ≡ n
length-copy_fresh n src =
    rw
      (
        length-append (take n src) (replicate (n - length src) 0),
        length-take n src,
        length-replicate {A = ℕ} (n - length src) 0,
      )
      (omega arith)

-- What a successful ReadMessage takes: a whole header at least, the limits at most, and no more
-- than has arrived; the payload is within its limit.
pub record Taken (v rest p : Bytes) : Type 0 where
  pub size : ℕ
  pub rest_is : rest ≡ drop size v
  pub arrived : size ≤ length v
  pub least : head_size ≤ size
  pub most : size ≤ head_size + (max_msg_size + max_payload_size)
  pub payload_fits : length p ≤ max_payload_size

read_body-Taken :
    (c : Codec) (v : Bytes) (t : MessageType) (k n : ℕ) (m : Msg) (p rest : Bytes)
    → k ≤ max_msg_size
    → n ≤ max_payload_size
    → read_body buffer c v t k n (buffer_peek v (head_size + (k + n))) ≡ (ok (m, p), rest)
    → Taken v rest p
unfolding read_body buffer_peek
read_body-Taken c v t k n m p rest hk hn e = record {
  size = head_size + (k + n);
  rest_is = ground (arith, length-take (head_size + (k + n)) v);
  arrived = ground arith;
  least = omega arith;
  most = omega arith;
  payload_fits =
      ground (arith, length-copy_fresh n (drop (head_size + k) (take (head_size + (k + n)) v)));
}

module _ (c : Codec) (v : Bytes) (m : Msg) (p rest : Bytes) where
  read_sized-Taken :
      (head : Bytes) (d : Result (MessageType × ℕ × ℕ))
      → decode_pre head ≡ d
      → read_sized buffer c v d ≡ (ok (m, p), rest)
      → Taken v rest p
  unfolding read_sized
  read_sized-Taken head (ok (t, k, n)) d e =
      let (hk, hn) = decode_pre_bounds head t k n d in read_body-Taken c v t k n m p rest hk hn e
  read_sized-Taken head (err x) d e = cc

  read_head-Taken : (q : Peeked) → read_head buffer c v q ≡ (ok (m, p), rest) → Taken v rest p
  unfolding read_head
  read_head-Taken (got head) e = read_sized-Taken head (decode_pre head) refl e
  read_head-Taken _ e = cc

  read_magic-Taken : (q : Peeked) → read_magic buffer c v q ≡ (ok (m, p), rest) → Taken v rest p
  unfolding read_magic
  read_magic-Taken (got b) e = read_head-Taken (buffer_peek v head_size) (ground arith)
  read_magic-Taken _ e = cc

  pub read_message-Taken : read_message buffer c v ≡ (ok (m, p), rest) → Taken v rest p
  unfolding read_message
  read_message-Taken e = read_magic-Taken (buffer_peek v 2) e

-- On any connection a successful ReadMessage takes a whole header at least, at most the
-- two limits behind it, and nothing that has not arrived.
pub read_message_bounds :
    (r : PacketReader) (b : IsBuffered r) (c : Codec) (s : r.State) (m : Msg) (p : Bytes)
    → (read_message r c s).0 ≡ ok (m, p)
    → Taken (b.view s) (b.view (read_message r c s).1) p
read_message_bounds r b c s m p e =
    let (same, left) = read_message-buffer r b c s in
    read_message-Taken c (b.view s) m p (b.view (read_message r c s).1) (ground arith)

action_of-ne-out_of_fuel : (e : Error) → action_of e ≢ out_of_fuel
unfolding action_of
action_of-ne-out_of_fuel incomplete_packet h = cc
action_of-ne-out_of_fuel _ h = cc

Result-cases :
    (x : Result (Msg × Bytes))
    → ((m : Msg) × (p : Bytes) × (x ≡ ok (m, p))) ⊎ ((e : Error) × (x ≡ err e))
Result-cases (ok (m, p)) = inl (m, p, refl)
Result-cases (err e) = inr (e, refl)

-- A message and its payload that a peer can send: CBOR reads the message back, and both sizes are
-- within the limits.
abbrev pub IsSendable : Codec → Msg × Bytes → Type 0
IsSendable c (m, p) =
    RoundTrips c m × (length (c.encode m) ≤ max_msg_size) × (length p ≤ max_payload_size)

-- The frames of several messages, one behind the other.
abbrev pub wire : Codec → List (Msg × Bytes) → Bytes
wire c [] = []
wire c ((m, p) ∷ ms) = write_message c m p ++ wire c ms

module _ (r : PacketReader) (b : IsBuffered r) (c : Codec) where
  open b use {view}

  on_traffic_err :
      (fuel : ℕ) (s : r.State) (e : Error)
      → (read_message r c s).0 ≡ err e
      → on_traffic r c (suc fuel) s ≡ ([], action_of e, (read_message r c s).1)
  unfolding on_traffic
  on_traffic_err fuel s e h = rw (h, on_traffic) refl

  on_traffic_ok :
      (fuel : ℕ) (s : r.State) (m : Msg) (p : Bytes)
      → (read_message r c s).0 ≡ ok (m, p)
      → let (ms, o, s') = on_traffic r c fuel (read_message r c s).1 in
        on_traffic r c (suc fuel) s ≡ ((m, p) ∷ ms, o, s')
  unfolding on_traffic
  on_traffic_ok fuel s m p h = rw (h, on_traffic) refl

  -- The loop of OnTraffic ends on every input: a round for each byte that has arrived, and one
  -- more, are enough.
  pub on_traffic-ne-out_of_fuel :
      (fuel : ℕ) (s : r.State) → length (view s) < fuel → (on_traffic r c fuel s).1 ≢ out_of_fuel
  on_traffic-ne-out_of_fuel zero s h = absurd (omega arith)
  on_traffic-ne-out_of_fuel (suc fuel) s h = elim (Result-cases (read_message r c s).0) [
    | inl (m, p, e) ↦
        let t = read_message_bounds r b c s m p e in
        let shorter : length (view (read_message r c s).1) < fuel =
          rw (t.rest_is, length-drop t.size (view s)) (omega (arith, t.least, t.arrived)) in
        rw (on_traffic_ok fuel s m p e)
          (on_traffic-ne-out_of_fuel fuel (read_message r c s).1 shorter)
    | inr (x, e) ↦ rw (on_traffic_err fuel s x e) (action_of-ne-out_of_fuel x)
  ]

  next_frame :
      (s : r.State) (m : Msg) (p rest : Bytes)
      → IsSendable c (m, p)
      → view s ≡ write_message c m p ++ rest
      → ((read_message r c s).0 ≡ ok (m, p)) × (view (read_message r c s).1 ≡ rest)
  next_frame s m p rest (good, fits, fits_payload) e =
      let (same, left) = read_message-buffer r b c s in
      let step =
        read_message_arrived c m p (view s) [] rest (append-nil (view s) ∙ e) fits fits_payload
          good in
      ground (
        arith,
        step,
        ap length e,
        length-append (write_message c m p) rest,
        drop-append (length (write_message c m p)) (write_message c m p) rest refl,
      )

  cut_frame :
      (s : r.State) (m : Msg) (p later : Bytes) (x : ℕ)
      → IsSendable c (m, p)
      → view s ++ (x ∷ later) ≡ write_message c m p
      → ((read_message r c s).0 ≡ err incomplete_packet) × (view (read_message r c s).1 ≡ view s)
  cut_frame s m p later x (good, fits, fits_payload) e =
      let (same, left) = read_message-buffer r b c s in
      let step =
        read_message_arrived c m p (view s) (x ∷ later) [] (e ∙ sym (append-nil _)) fits
          fits_payload good in
      ground (arith, step, ap length e, length-append (view s) (x ∷ later))

  -- Whatever messages a peer has sent, and wherever the bytes that have arrived break off within
  -- the next frame, one call of OnTraffic hands over just the complete messages in their order,
  -- waits for more, and keeps the bytes of the incomplete frame.
  pub on_traffic_frames :
      (ms : List (Msg × Bytes)) (fuel : ℕ) (s : r.State) (m : Msg) (p cut later : Bytes) (x : ℕ)
      → All (IsSendable c) ms
      → IsSendable c (m, p)
      → view s ≡ wire c ms ++ cut
      → cut ++ (x ∷ later) ≡ write_message c m p
      → length ms < fuel
      → ((on_traffic r c fuel s).0 ≡ ms)
        × ((on_traffic r c fuel s).1 ≡ none_action)
        × (view (on_traffic r c fuel s).2 ≡ cut)
  unfolding action_of
  on_traffic_frames ms zero s m p cut later x gs g e k h = absurd (omega arith)
  on_traffic_frames [] (suc fuel) s m p cut later x gs g e k h =
      let (a, left) = cut_frame s m p later x g (ap (λ (t : Bytes). t ++ (x ∷ later)) e ∙ k) in
      rw (on_traffic_err fuel s incomplete_packet a) (refl, refl, left ∙ e)
  on_traffic_frames ((n, q) ∷ ms) (suc fuel) s m p cut later x (g', gs) g e k h =
      let (a, left) =
        next_frame s n q (wire c ms ++ cut) g'
          (e ∙ append_assoc (write_message c n q) (wire c ms) cut) in
      let (ih0, ih1, ih2) =
        on_traffic_frames ms fuel (read_message r c s).1 m p cut later x gs g left k
          (omega arith) in
      rw (on_traffic_ok fuel s n q a) (ap (λ (t : List (Msg × Bytes)). (n, q) ∷ t) ih0, ih1, ih2)
