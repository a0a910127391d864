-- ===== src/Message/Fixtures.antt =====
-- Data for the tests: a codec for one kind of message, and two messages in frames.
use gcp.Base.{pos, Bytes, [], ◌∷◌, List, Option, none, some, to_ℕ}
use gcp.Message.Types.{MessageType, stat_req_t, Msg, stat_req, Codec}

abbrev encode_stat : Msg → Bytes
encode_stat (stat_req m) = to_ℕ m.id ∷ m.path
encode_stat _ = []

abbrev decode_stat : MessageType → Bytes → Option Msg
decode_stat stat_req_t (b ∷ path) = some (stat_req (record { id = pos b; path = path }))
decode_stat _ _ = none

abbrev pub stat_codec : Codec
stat_codec = record { encode = encode_stat; decode = decode_stat }

abbrev pub stat_a : Msg
stat_a = stat_req (record { id = pos 7; path = 97 ∷ 98 ∷ [] })

abbrev pub stat_b : Msg
stat_b = stat_req (record { id = pos 8; path = 99 ∷ [] })

abbrev pub payload_a : Bytes
payload_a = 1 ∷ 2 ∷ 3 ∷ []

abbrev pub frames : List (Msg × Bytes)
frames = (stat_a, payload_a) ∷ (stat_b, []) ∷ []
