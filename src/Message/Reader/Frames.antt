-- ===== src/Message/Reader/Frames.antt =====
-- ReadMessage of message/message.go on the bytes that a connection has buffered.
use gcp.Base.{
  ℕ, zero, suc, ◌+◌, ◌-◌, ◌≤◌, ◌<◌, ◌≡◌, refl, sym, ap, ◌∙◌, inl, inr, Bytes, List, [], ◌∷◌, ◌++◌,
  length, take, drop, ltb, if◌then◌else◌, arith, Bool-cases, Option-cases, lt→ltb, take-append,
  drop-append, drop-drop, length-append, take_all, append-nil, ltb-false,
}
use gcp.Message.Types.{MessageType, Msg, Codec, RoundTrips, type_of}
use gcp.Message.Header.{
  incomplete_packet, Result, ok, err, head_size, magic_number_check, decode_pre, byte_at,
  write_message, encode_msg, max_msg_size, max_payload_size,
}
use gcp.Message.Header.Laws.{decode_pre-encode_msg}
use gcp.Message.Reader.{
  PacketReader, IsBuffered, Peeked, got, short_buffer, buffer, buffer_peek, read_body, read_sized,
  read_head, read_magic, read_message, copy_fresh,
}

module _ (r : PacketReader) (b : IsBuffered r) (c : Codec) where
  open b use {view, peek_short, peek_full, view-discard}

  -- The two answer alike, and leave states with the same bytes.
  abbrev pub Alike : Result (Msg × Bytes) × r.State → Result (Msg × Bytes) × Bytes → Type 0
  Alike x y = (x.0 ≡ y.0) × (view x.1 ≡ y.1)

  peek_view : (s : r.State) (n : ℕ) → r.peek s n ≡ buffer_peek (view s) n
  unfolding buffer_peek
  peek_view s n = ground (arith, peek_short s n, peek_full s n)

  read_body-Alike :
      (s : r.State) (t : MessageType) (m n : ℕ) (p : Peeked)
      → Alike (read_body r c s t m n p) (read_body buffer c (view s) t m n p)
  unfolding read_body
  read_body-Alike s t m n (got buf) =
      elim (Option-cases (c.decode t (take m (drop head_size buf)))) [
        | inl e ↦ rw (e, read_body) (refl, refl)
        | inr (msg, e) ↦ rw (e, read_body) (refl, view-discard s (length buf))
      ]
  read_body-Alike s t m n _ = (refl, refl)

  read_sized-Alike :
      (s : r.State) (d : Result (MessageType × ℕ × ℕ))
      → Alike (read_sized r c s d) (read_sized buffer c (view s) d)
  unfolding read_sized
  read_sized-Alike s (ok (t, m, n)) =
      rw (peek_view s (head_size + (m + n))) (read_body-Alike s t m n _)
  read_sized-Alike s (err e) = (refl, refl)

  read_head-Alike :
      (s : r.State) (p : Peeked) → Alike (read_head r c s p) (read_head buffer c (view s) p)
  unfolding read_head
  read_head-Alike s (got buf) = read_sized-Alike s (decode_pre buf)
  read_head-Alike s _ = (refl, refl)

  read_magic-Alike :
      (s : r.State) (p : Peeked) → Alike (read_magic r c s p) (read_magic buffer c (view s) p)
  unfolding read_magic
  read_magic-Alike s (got buf) =
      elim (Bool-cases (magic_number_check (byte_at buf 0) (byte_at buf 1))) [
        | inl e ↦ rw (e, read_magic, peek_view s head_size) (read_head-Alike s _)
        | inr e ↦ rw (e, read_magic) (refl, refl)
      ]
  read_magic-Alike s _ = (refl, refl)

  -- On every connection whose Peek and Discard act on the bytes that have arrived, ReadMessage
  -- answers what it answers on those bytes alone, and leaves the same bytes unread.
  pub read_message-buffer :
      (s : r.State)
      → ((read_message r c s).0 ≡ (read_message buffer c (view s)).0)
        × (view (read_message r c s).1 ≡ (read_message buffer c (view s)).1)
  unfolding read_message
  read_message-buffer s = rw (peek_view s 2) (read_magic-Alike s _)

take-append_le {ℓ} :
    {A : Type ℓ} (n : ℕ) (xs ys : List A) → n ≤ length xs → take n (xs ++ ys) ≡ take n xs
take-append_le zero xs ys h = refl
take-append_le (suc n) [] ys h = absurd (omega arith)
take-append_le (suc n) (x ∷ xs) ys h = ap (λ t. x ∷ t) (take-append_le n xs ys (omega arith))

peek_enough : (v : Bytes) (n : ℕ) → n ≤ length v → buffer_peek v n ≡ got (take n v)
unfolding buffer_peek
peek_enough v n h = rw (ltb-false (length v) n h)

peek_little : (v : Bytes) (n : ℕ) → length v < n → buffer_peek v n ≡ short_buffer
unfolding buffer_peek
peek_little v n h = rw (lt→ltb (length v) n h)

copy_fresh_exact : (p : Bytes) → copy_fresh (length p) p ≡ p
copy_fresh_exact p =
    rw (take_all (length p) p (omega arith), (let e : length p - length p ≡ 0 = omega arith in e))
      (append-nil p)

module _ (c : Codec) (m : Msg) (p : Bytes) where
  length-write_message : length (write_message c m p) ≡ head_size + (length (c.encode m) + length p)
  unfolding write_message encode_msg
  length-write_message = omega (arith, length-append (c.encode m) p)

  take_head : take head_size (write_message c m p) ≡ (encode_msg c m (length p)).0
  unfolding write_message encode_msg
  take_head = refl

  decode_pre_head :
      length (c.encode m) ≤ max_msg_size
      → length p ≤ max_payload_size
      → decode_pre (encode_msg c m (length p)).0 ≡ ok (type_of m, length (c.encode m), length p)
  decode_pre_head h k =
      rw (← append-nil (encode_msg c m (length p)).0) (decode_pre-encode_msg c m (length p) [] h k)

  drop_head : drop head_size (write_message c m p) ≡ c.encode m ++ p
  unfolding write_message encode_msg
  drop_head = refl

  drop_body : drop (head_size + length (c.encode m)) (write_message c m p) ≡ p
  drop_body =
      sym (drop-drop (length (c.encode m)) head_size (write_message c m p))
      ∙ ap (drop (length (c.encode m))) drop_head
      ∙ drop-append (length (c.encode m)) (c.encode m) p refl

  read_body_frame :
      RoundTrips c m
      → (v : Bytes)
      → read_body buffer c v
          (type_of m)
          (length (c.encode m))
          (length p)
          (got (write_message c m p))
        ≡ (ok (m, p), drop (length (write_message c m p)) v)
  unfolding read_body
  read_body_frame good v =
      rw
        (
          drop_head,
          take-append (length (c.encode m)) (c.encode m) p refl,
          good,
          drop_body,
          copy_fresh_exact p,
          read_body,
        )
        refl

  short_magic : (v : Bytes) → read_magic buffer c v short_buffer ≡ (err incomplete_packet, v)
  unfolding read_magic
  short_magic v = refl

  short_head : (v : Bytes) → read_head buffer c v short_buffer ≡ (err incomplete_packet, v)
  unfolding read_head
  short_head v = refl

  short_body :
      (v : Bytes) (t : MessageType) (k n : ℕ)
      → read_body buffer c v t k n short_buffer ≡ (err incomplete_packet, v)
  unfolding read_body
  short_body v t k n = refl

  -- The bytes `v` that have arrived of a stream that begins with the frame.
  module _ (v later rest : Bytes) (arrived : v ++ later ≡ write_message c m p ++ rest)
      (fits : length (c.encode m) ≤ max_msg_size) (fits_payload : length p ≤ max_payload_size) where
    front :
        (n : ℕ)
        → n ≤ length v
        → n ≤ length (write_message c m p)
        → take n v ≡ take n (write_message c m p)
    front n h k =
        sym (take-append_le n v later h)
        ∙ ap (take n) arrived
        ∙ take-append_le n (write_message c m p) rest k

    magic_passes :
        2 ≤ length v
        → read_magic buffer c v (got (take 2 v)) ≡ read_head buffer c v (buffer_peek v head_size)
    unfolding read_magic
    magic_passes h =
        rw (front 2 h (omega (arith, length-write_message)))
          (unfold magic_number_check write_message encode_msg in refl)

    head_passes :
        head_size ≤ length v
        → read_head buffer c v (got (take head_size v))
          ≡ read_body buffer c v
              (type_of m)
              (length (c.encode m))
              (length p)
              (buffer_peek v (head_size + (length (c.encode m) + length p)))
    unfolding read_head read_sized
    head_passes h =
        rw
          (
            front head_size h (omega (arith, length-write_message)),
            take_head,
            decode_pre_head fits fits_payload,
          )
          refl

    body_passes :
        RoundTrips c m
        → length (write_message c m p) ≤ length v
        → read_body buffer c v
            (type_of m)
            (length (c.encode m))
            (length p)
            (got (take (head_size + (length (c.encode m) + length p)) v))
          ≡ (ok (m, p), drop (length (write_message c m p)) v)
    body_passes good h =
        rw
          (
            ← length-write_message,
            front (length (write_message c m p)) h (omega arith),
            take_all (length (write_message c m p)) (write_message c m p) (omega arith),
          )
          (read_body_frame good v)

    -- Of a stream that begins with a frame, ReadMessage asks for more as long as the frame is
    -- incomplete, and leaves what has come; afterwards it returns the message and its payload, and
    -- takes just the frame's bytes.
    pub read_message_arrived :
        RoundTrips c m
        → read_message buffer c v ≡ (
            if ltb (length v) (length (write_message c m p))
            then (err incomplete_packet, v)
            else (ok (m, p), drop (length (write_message c m p)) v))
    unfolding read_message
    read_message_arrived good = ground (
      arith,
      length-write_message,
      peek_little v 2,
      peek_enough v 2,
      magic_passes,
      peek_little v head_size,
      peek_enough v head_size,
      head_passes,
      peek_little v (head_size + (length (c.encode m) + length p)),
      peek_enough v (head_size + (length (c.encode m) + length p)),
      body_passes good,
      short_body v (type_of m) (length (c.encode m)) (length p),
      short_head v,
      short_magic v,
    )
