-- ===== src/Message/Reader.antt =====
-- ReadMessage of message/message.go over a PacketReader, which is a connection of the network
-- library, and the loop of OnTraffic in serve.go around it.
pub mod Frames
pub mod Traffic
use gcp.Base.{
  ℕ, zero, suc, ◌+◌, ◌-◌, ◌≤◌, ◌<◌, ◌≡◌, Bool, true, false, Bytes, List, [], ◌∷◌, ◌++◌, Option,
  none, some, length, take, drop, replicate, ltb, if◌then◌else◌,
}
use gcp.Message.Types.{MessageType, Msg, Codec}
use gcp.Message.Header.{
  Error, incomplete_packet, bad_protocol, decode_failed, io_error, Result, ok, err, head_size,
  magic_number_check, decode_pre, byte_at,
}

-- What Peek answers.
pub data Peeked : Type 0 where
  got : Bytes → Peeked
  short_buffer peek_failed : Peeked

-- The interface PacketReader, over the state of what implements it.
pub record PacketReader : Type 1 where
  pub State : Type 0
  pub peek : State → ℕ → Peeked
  pub discard : State → ℕ → State

-- The documented behaviour of the connection's Peek and Discard: they act on the bytes that have
-- arrived and are not yet discarded.
pub record IsBuffered (r : PacketReader) : Type 0 where
  pub view : r.State → Bytes
  pub peek_short : (s : r.State) (n : ℕ) → length (view s) < n → r.peek s n ≡ short_buffer
  pub peek_full : (s : r.State) (n : ℕ) → n ≤ length (view s) → r.peek s n ≡ got (take n (view s))
  pub view-discard : (s : r.State) (n : ℕ) → view (r.discard s n) ≡ drop n (view s)

-- A reader that is its buffer.
unfoldable pub buffer_peek : Bytes → ℕ → Peeked
buffer_peek v n = if ltb (length v) n then short_buffer else got (take n v)

abbrev pub buffer : PacketReader
buffer = record { State = Bytes; peek = buffer_peek; discard = λ v n. drop n v }

-- payload := make([]byte, n); copy(payload, src)
abbrev pub copy_fresh : ℕ → Bytes → Bytes
copy_fresh n src = take n src ++ replicate (n - length src) 0

-- switchError, on the ways in which Peek fails.
abbrev pub switch_error : Peeked → Error
switch_error short_buffer = incomplete_packet
switch_error _ = io_error

-- How a call of OnTraffic ends: it waits for more, closes the connection, or used up the fuel.
pub data Outcome : Type 0 where
  none_action close_action out_of_fuel : Outcome

-- What OnTraffic does with an error of ReadMessage.
unfoldable pub action_of : Error → Outcome
action_of incomplete_packet = none_action
action_of _ = close_action

module _ (r : PacketReader) (c : Codec) where
  open r use {State, peek, discard}

  -- Behind the third Peek, which gave the whole frame `buf`.
  unfoldable pub read_body : State → MessageType → ℕ → ℕ → Peeked → Result (Msg × Bytes) × State
  read_body s t msg_size payload_size (got buf) =
      elim (c.decode t (take msg_size (drop head_size buf))) [
        | none ↦ (err decode_failed, s)
        | some msg ↦ (
          ok (msg, copy_fresh payload_size (drop (head_size + msg_size) buf)),
          discard s (length buf),
        )
      ]
  read_body s t msg_size payload_size other = (err (switch_error other), s)

  -- Behind DecodePre.
  unfoldable pub read_sized : State → Result (MessageType × ℕ × ℕ) → Result (Msg × Bytes) × State
  read_sized s (ok (t, msg_size, payload_size)) =
      read_body s t msg_size payload_size (peek s (head_size + (msg_size + payload_size)))
  read_sized s (err e) = (err e, s)

  -- Behind the second Peek, which gave the header.
  unfoldable pub read_head : State → Peeked → Result (Msg × Bytes) × State
  read_head s (got buf) = read_sized s (decode_pre buf)
  read_head s other = (err (switch_error other), s)

  -- Behind the first Peek, which gave the magic bytes.
  unfoldable pub read_magic : State → Peeked → Result (Msg × Bytes) × State
  read_magic s (got buf) =
      if magic_number_check (byte_at buf 0) (byte_at buf 1)
      then read_head s (peek s head_size)
      else (err bad_protocol, s)
  read_magic s other = (err (switch_error other), s)

  unfoldable pub read_message : State → Result (Msg × Bytes) × State
  unfolding read_body read_sized read_head read_magic
  read_message s = read_magic s (peek s 2)

  -- The loop of OnTraffic. Fuel bounds its rounds; the messages are those that it handed to the
  -- workers, in order.
  unfoldable pub on_traffic : ℕ → State → List (Msg × Bytes) × Outcome × State
  unfolding action_of
  on_traffic zero s = ([], out_of_fuel, s)
  on_traffic (suc fuel) s =
      let (res, s') = read_message s in
      elim res [
        | ok m ↦ let (ms, o, s'') = on_traffic fuel s' in (m ∷ ms, o, s'')
        | err e ↦ ([], action_of e, s')
      ]
