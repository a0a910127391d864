-- ===== src/Client/Receive/Rounds.antt =====
-- One round of handleReceive, from each point of a frame that a peer has sent.
use gcp.Base.{
  ℕ, suc, ◌+◌, ◌≤◌, ◌≡◌, refl, sym, ap, ◌∙◌, Bytes, List, [], ◌∷◌, ◌++◌, some, length, take, drop,
  arith, take_all, append_assoc,
}
use gcp.Message.Types.{Msg, Codec}
use gcp.Message.Header.{head_size, encode_msg, write_message}
use gcp.Message.Reader.Traffic.{wire}
use gcp.Client.Receive.{
  Machine, Phase, reading_head, allocating, reading_msg, reading_payload, decoding, phase, splice,
  room, store, allocate, decode, waiting, push, receive,
}
use gcp.Client.Receive.Progress.{append_inj, filled}

abbrev pub IsReading : Phase → Type 0
IsReading allocating = ⊥
IsReading decoding = ⊥
IsReading _ = Unit {0}

pub receive_read :
    (c : Codec) (fuel : ℕ) (s s' : Machine) (ph : Phase) (b : Bytes) (bs : List Bytes)
    → IsReading ph
    → phase s ≡ ph
    → store s ph (take (room s ph) b) ≡ some s'
    → receive c (suc fuel) s (b ∷ bs) ≡ receive c fuel s' (push (drop (room s ph) b) bs)
unfolding receive
receive_read c fuel s s' reading_head b bs h e k = rw (e, receive, k) refl
receive_read c fuel s s' reading_msg b bs h e k = rw (e, receive, k) refl
receive_read c fuel s s' reading_payload b bs h e k = rw (e, receive, k) refl
receive_read c fuel s s' allocating b bs h e k = absurd h
receive_read c fuel s s' decoding b bs h e k = absurd h

pub receive-allocate :
    (c : Codec) (fuel : ℕ) (s s' : Machine) (bs : List Bytes)
    → phase s ≡ allocating
    → allocate s ≡ some s'
    → receive c (suc fuel) s bs ≡ receive c fuel s' bs
unfolding receive
receive-allocate c fuel s s' bs e k = rw (e, receive, k) refl

pub receive_decode :
    (c : Codec) (fuel : ℕ) (s s' : Machine) (m : Msg) (p : Bytes) (bs : List Bytes)
    → phase s ≡ decoding
    → decode c s ≡ some (m, p, s')
    → receive c (suc fuel) s bs
      ≡ ((m, p) ∷ (receive c fuel s' bs).0, (receive c fuel s' bs).1, (receive c fuel s' bs).2)
unfolding receive
receive_decode c fuel s s' m p bs e k = rw (e, receive, k) refl

pub receive_wait :
    (c : Codec) (fuel : ℕ) (s : Machine)
    → phase s ≡ reading_head
    → receive c (suc fuel) s [] ≡ ([], waiting, s)
unfolding receive
receive_wait c fuel s e = rw (e, receive) refl

-- Where the machine stands in the frame of `(m, p)`, with `stream` still to come and the frames of
-- `ms` behind it.
module _ (c : Codec) (m : Msg) (p : Bytes) (ms : List (Msg × Bytes)) where
  pub record InHead (s : Machine) (stream : Bytes) : Type 0 where
    pub length_head : length s.buf_head ≡ head_size
    pub room_left : s.read_size ≤ head_size
    pub no_msg : s.buf_msg ≡ []
    pub follows : take s.read_size s.buf_head ++ stream ≡ write_message c m p ++ wire c ms

  pub record InMsg (s : Machine) (k : ℕ) (stream : Bytes) : Type 0 where
    pub head_is : s.buf_head ≡ (encode_msg c m (length p)).0
    pub read_size_is : s.read_size ≡ head_size + k
    pub msg_left : k ≤ length (c.encode m)
    pub length_msg : length s.buf_msg ≡ length (c.encode m)
    pub length_payload : length s.payload ≡ length p
    pub follows : take k s.buf_msg ++ stream ≡ c.encode m ++ (p ++ wire c ms)

  pub record InPayload (s : Machine) (k : ℕ) (stream : Bytes) : Type 0 where
    pub head_is : s.buf_head ≡ (encode_msg c m (length p)).0
    pub msg_is : s.buf_msg ≡ c.encode m
    pub read_size_is : s.read_size ≡ head_size + length (c.encode m) + k
    pub payload_left : k ≤ length p
    pub length_payload : length s.payload ≡ length p
    pub follows : take k s.payload ++ stream ≡ p ++ wire c ms

-- A buffer whose first `k` of `n` bytes are filled, after a Read of `piece`.
pub more :
    (k : ℕ) (buf piece stream stream' target : Bytes)
    → k + length piece ≤ length buf
    → stream ≡ piece ++ stream'
    → take k buf ++ stream ≡ target
    → take (k + length piece) (splice k piece buf) ++ stream' ≡ target
more k buf piece stream stream' target le e f =
    ap (λ t. t ++ stream') (filled k (length buf) piece buf refl le)
    ∙ append_assoc (take k buf) piece stream'
    ∙ ap (◌++◌ (take k buf)) (sym e)
    ∙ f

-- A buffer that is full holds just what was sent into it.
pub full :
    (k : ℕ) (buf stream sent rest : Bytes)
    → k ≡ length buf
    → length buf ≡ length sent
    → take k buf ++ stream ≡ sent ++ rest
    → (buf ≡ sent) × (stream ≡ rest)
full k buf stream sent rest e h f =
    append_inj buf sent stream rest h
      (ap (λ t. t ++ stream) (sym (take_all k buf (omega arith))) ∙ f)
