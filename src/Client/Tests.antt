-- ===== src/Client/Tests.antt =====
-- The claims on the client at concrete frames, chunks and requests.
use gcp.Base.{
  pos, ◌≡◌, refl, Bytes, str, List, [], ◌∷◌, ◌++◌, none, some, take, drop, arith, true, equal,
}
use gcp.Base.Crc32.{checksum_ieee}
use gcp.Base.Result.{ok}
use gcp.Message.Types.{ReadReq, ReadRes, WriteReq, type_of, get_id}
use gcp.Message.Header.{write_message, encode_msg, get_uint32}
use gcp.Message.Reader.Traffic.{wire}
use gcp.Message.Fixtures.{stat_codec, stat_a, stat_b, payload_a, frames}
use gcp.Transfer.Chunk.{compress_chunk, encrypt_chunk}
use gcp.Client.Receive.{Machine, init, receive, waiting, out_of_fuel}
use gcp.Client.Receive.Delivery.{receive-wire}
use gcp.Client.Receive.Defects.{receive_stalls}
use gcp.Client.Rpc.{
  Client, gen_msg_id, seal_chunk, write_request, open_chunk, outgoing, incoming, route, route_all,
}
use gcp.Client.Rpc.Chunks.{unpack-write_request, open_chunk-pack}
use gcp.Client.Rpc.Routing.{route_delivers}
use gcp.Server.Files.{unpack, pack}
use gcp.Server.Fixtures.{gzip, gzip_Inverts, box, box_Opens, ones, host, nonce, ann, key}

-- The frames cut within the first header and within the second frame.
abbrev pieces : List Bytes
pieces =
    take 4 (wire stat_codec frames)
    ∷ take 20 (drop 4 (wire stat_codec frames))
    ∷ drop 24 (wire stat_codec frames)
    ∷ []

receive-wire_example :
    ((receive stat_codec 200 init pieces).0 ≡ frames)
    × ((receive stat_codec 200 init pieces).1 ≡ waiting)
    × ((receive stat_codec 200 init pieces).2.read_size ≡ 0)
unfolding write_message encode_msg type_of
receive-wire_example =
    receive-wire stat_codec frames pieces 200
      (
        ((refl, ground arith, ground arith), ground arith),
        (((refl, ground arith, ground arith), ground arith), tt),
      )
      ((λ e. cc), ((λ e. cc), ((λ e. cc), tt))) refl (ground arith)

-- A machine with the header of a frame without a message.
abbrev stalled : Machine
stalled = record init {
  buf_head = 0xA8 ∷ 0xD5 ∷ 7 ∷ 0 ∷ 0 ∷ 0 ∷ 0 ∷ 0 ∷ 0 ∷ 0 ∷ 5 ∷ [];
  read_size = 11;
  magic_num_checked = true;
}

receive_stalls_example :
    ((receive stat_codec 50 stalled (payload_a ∷ [])).0 ≡ [])
    × ((receive stat_codec 50 stalled (payload_a ∷ [])).1 ≡ out_of_fuel)
unfolding get_uint32
receive_stalls_example =
    receive_stalls stat_codec 50 stalled 5 (payload_a ∷ []) refl refl refl (ground arith)

-- A machine that has read a whole frame, and the one that decoding it leaves.
abbrev full : Machine
full = record {
  buf_head = 0xA8 ∷ 0xD5 ∷ 6 ∷ 0 ∷ 0 ∷ 0 ∷ 2 ∷ 0 ∷ 0 ∷ 0 ∷ 0 ∷ [];
  read_size = 13;
  buf_msg = 8 ∷ 99 ∷ [];
  payload = [];
  magic_num_checked = true;
}

abbrev emptied : Machine
emptied = record full { read_size = 0; buf_msg = [] }

abbrev client : Client
client = record {
  id = 4;
  use_checksum = true;
  use_encryption = true;
  encryption_key = some (0 ∷ key);
}

-- What the client and the server send for the bytes 1 1 1 1.
abbrev sealed : Bytes
sealed = nonce ++ (0 ∷ key ++ (9 ∷ []))

abbrev write_ones : WriteReq
write_ones = record {
  id = pos 5;
  path = str "f";
  offset = pos 0;
  checksum = checksum_ieee sealed;
  compression = 1;
  encryption = 1;
}

unpack-write_request_example : unpack host write_ones sealed ann ≡ ok ones
unfolding write_request seal_chunk compress_chunk encrypt_chunk equal gen_msg_id
unpack-write_request_example =
    unpack-write_request host gzip_Inverts box_Opens client (record client { id = 5 }) ann nonce
      ones sealed (str "f") (pos 0) 1 write_ones refl refl refl

abbrev read_ones : ReadReq
read_ones = record {
  id = pos 6;
  path = str "f";
  offset = pos 0;
  size = pos 4;
  compression = 1;
  encryption = 1;
}

abbrev ones_read : ReadRes
ones_read = record {
  id = pos 6;
  success = true;
  n = pos 28;
  checksum = checksum_ieee sealed;
  compression = 1;
  encryption = 1;
  error = [];
}

open_chunk-pack_example : open_chunk gzip box client ones_read sealed ≡ ok ones
unfolding pack compress_chunk encrypt_chunk equal
open_chunk-pack_example =
    open_chunk-pack host gzip_Inverts box_Opens client ann nonce ones sealed read_ones ones_read 1 1
      refl refl refl refl refl refl

-- Requests 7 and 8 of two callers, with the answers in the other order.
route_delivers_example :
    let c1 =
      (route_all
        (route [] (outgoing stat_a 70)).0
        (outgoing stat_b 80 ∷ incoming stat_b [] ∷ [])).0 in
    let c2 = (route_all (route c1 (incoming stat_a payload_a)).0 []).0 in
    ((route c1 (incoming stat_a payload_a)).1 ≡ some (70, stat_a, payload_a))
    × ((route c2 (incoming stat_a [])).1 ≡ none)
unfolding get_id
route_delivers_example =
    route_delivers [] stat_a stat_a stat_a 70 payload_a []
      (outgoing stat_b 80 ∷ incoming stat_b [] ∷ []) [] refl refl (refl, (refl, tt)) tt
