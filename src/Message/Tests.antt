-- ===== src/Message/Tests.antt =====
-- The claims on the frames at concrete messages.
use gcp.Base.{
  ℕ, ◌+◌, ◌≡◌, refl, ◌≢◌, Bytes, [], ◌∷◌, ◌++◌, length, take, drop, arith, ltb, if◌then◌else◌,
}
use gcp.Message.Types.{type_of}
use gcp.Message.Header.{
  incomplete_packet, ok, err, decode_pre, encode_msg, write_message, byte_of, type_of_byte,
  magic_number_check, get_uint32,
}
use gcp.Message.Reader.{
  PacketReader, IsBuffered, buffer, buffer_peek, read_message, on_traffic, none_action, out_of_fuel,
}
use gcp.Message.Reader.Frames.{read_message_arrived}
use gcp.Message.Reader.Traffic.{
  Taken, IsSendable, read_message_bounds, on_traffic-ne-out_of_fuel, on_traffic_frames,
}
use gcp.Message.Fixtures.{stat_codec, stat_a, stat_b, payload_a}

buffer_IsBuffered : IsBuffered buffer
unfolding buffer_peek
buffer_IsBuffered = record {
  view = λ v. v;
  peek_short = λ v n h. ground arith;
  peek_full = λ v n h. ground arith;
  view-discard = λ v n. refl;
}

abbrev frame_a : Bytes
frame_a = write_message stat_codec stat_a payload_a

abbrev frame_b : Bytes
frame_b = write_message stat_codec stat_b []

a_IsSendable : IsSendable stat_codec (stat_a, payload_a)
unfolding type_of
a_IsSendable = (refl, ground arith, ground arith)

b_IsSendable : IsSendable stat_codec (stat_b, [])
unfolding type_of
b_IsSendable = (refl, ground arith, ground arith)

read_message_arrived_example : read_message buffer stat_codec (take 15 frame_a) ≡ (
    if ltb (length (take 15 frame_a)) (length frame_a)
    then (err incomplete_packet, take 15 frame_a)
    else (ok (stat_a, payload_a), drop (length frame_a) (take 15 frame_a)))
unfolding write_message type_of encode_msg
read_message_arrived_example =
    read_message_arrived stat_codec stat_a payload_a (take 15 frame_a) (drop 15 frame_a) [] refl
      (ground arith) (ground arith) refl

-- A connection that counts the calls of Discard.
abbrev counted : PacketReader
counted = record {
  State = ℕ × Bytes;
  peek = λ s n. buffer_peek s.1 n;
  discard = λ s n. (s.0 + 1, drop n s.1);
}

counted_IsBuffered : IsBuffered counted
unfolding buffer_peek
counted_IsBuffered = record {
  view = λ s. s.1;
  peek_short = λ s n h. ground arith;
  peek_full = λ s n h. ground arith;
  view-discard = λ s n. refl;
}

read_message_bounds_example : Taken frame_a [] payload_a
unfolding read_message type_of write_message encode_msg buffer_IsBuffered decode_pre type_of_byte
    byte_of magic_number_check get_uint32
read_message_bounds_example =
    read_message_bounds buffer buffer_IsBuffered stat_codec frame_a stat_a payload_a refl

on_traffic-ne-out_of_fuel_example : (on_traffic buffer stat_codec 18 frame_a).1 ≢ out_of_fuel
unfolding write_message encode_msg buffer_IsBuffered
on_traffic-ne-out_of_fuel_example =
    on_traffic-ne-out_of_fuel buffer buffer_IsBuffered stat_codec 18 frame_a (ground arith)

on_traffic_frames_example :
    ((on_traffic buffer stat_codec 2 (frame_a ++ take 5 frame_b)).0 ≡ (stat_a, payload_a) ∷ [])
    × ((on_traffic buffer stat_codec 2 (frame_a ++ take 5 frame_b)).1 ≡ none_action)
    × ((on_traffic buffer stat_codec 2 (frame_a ++ take 5 frame_b)).2 ≡ take 5 frame_b)
unfolding write_message encode_msg buffer_IsBuffered
on_traffic_frames_example =
    on_traffic_frames buffer buffer_IsBuffered stat_codec ((stat_a, payload_a) ∷ []) 2
      (frame_a ++ take 5 frame_b) stat_b [] (take 5 frame_b) (drop 6 frame_b) 0 (a_IsSendable, tt)
      b_IsSendable refl refl (ground arith)
