-- ===== src/Client/Receive/Defects.antt =====
-- handleReceive of client.go on headers that are out of the ordinary.
use gcp.Base.{
  ℕ, zero, suc, ◌+◌, ◌≤◌, ◌≡◌, refl, ap, true, Bytes, List, [], some, length, arith, replicate,
}
use gcp.Message.Types.{Msg, Codec}
use gcp.Message.Header.{head_size, max_payload_size, sizes}
use gcp.Client.Receive.{
  Machine, reading_head, allocating, phase, check_magic, store, allocate, decode, splice,
  out_of_fuel, receive,
}
use gcp.Client.Receive.Rounds.{receive-allocate}

phase_stalled : (s : Machine) → s.read_size ≡ head_size → s.buf_msg ≡ [] → phase s ≡ allocating
unfolding phase
phase_stalled s h e = ground arith

allocate_stalled :
    (s : Machine) (n : ℕ)
    → sizes s.buf_head ≡ (0, n)
    → n ≤ max_payload_size
    → allocate s ≡ some (record s { buf_msg = []; payload = replicate n 0 })
unfolding allocate
allocate_stalled s n e h = rw (ap (λ (x : ℕ × ℕ). x.0) e, ap (λ (x : ℕ × ℕ). x.1) e) (ground arith)

-- A frame whose header gives the message no bytes, and a payload within its limit, stalls the
-- loop: from there it delivers nothing and neither waits nor returns, in any number of rounds and
-- whatever arrives.
pub receive_stalls :
    (c : Codec) (fuel : ℕ) (s : Machine) (n : ℕ) (pieces : List Bytes)
    → s.read_size ≡ head_size
    → s.buf_msg ≡ []
    → sizes s.buf_head ≡ (0, n)
    → n ≤ max_payload_size
    → ((receive c fuel s pieces).0 ≡ []) × ((receive c fuel s pieces).1 ≡ out_of_fuel)
receive_stalls c zero s n pieces h b e le = unfold receive in (refl, refl)
receive_stalls c (suc fuel) s n pieces h b e le =
    rw (receive-allocate c fuel s _ pieces (phase_stalled s h b) (allocate_stalled s n e le)) (
      receive_stalls c fuel (record s { buf_msg = []; payload = replicate n 0 }) n pieces h refl e
        le)

-- Once the magic bytes of one frame are checked, those of later frames are not: whatever machine
-- the delivery of a frame leaves, it takes any bytes as the start of a header.
pub store-decode_any_magic :
    (c : Codec) (s s' : Machine) (m : Msg) (p piece : Bytes)
    → s.magic_num_checked ≡ true
    → decode c s ≡ some (m, p, s')
    → (s'' : Machine) × (store s' reading_head piece ≡ some s'') × (s''.magic_num_checked ≡ true)
unfolding store check_magic decode
store-decode_any_magic c s s' m p piece h e = (
  record s' {
    buf_head = splice s'.read_size piece s'.buf_head;
    read_size = s'.read_size + length piece;
  },
  ground arith,
  ground arith,
)
