-- ===== src/Message/Types.antt =====
-- The protocol's messages: the types of message/message.go and the methods of message/implement.go.
-- CBOR is a library, so `Encode` and `Decode` are the fields of a `Codec`.
use gcp.Base.{ℕ, ℤ, Bytes, Str, Bool, List, Option, ◌≡◌, some}

pub data MessageType : Type 0 where
  create_req_t create_res_t write_req_t write_res_t read_req_t read_res_t : MessageType
  stat_req_t stat_res_t read_dir_req_t read_dir_res_t : MessageType
  hash_req_t hash_res_t auth_req_t auth_res_t : MessageType

pub record CreateReq : Type 0 where
  pub id : ℤ
  pub size : ℤ
  pub mode : ℕ
  pub path : Str
  pub is_dir : Bool

pub record CreateRes : Type 0 where
  pub id : ℤ
  pub success : Bool
  pub error : Str

abbrev pub compression_none : ℕ
compression_none = 0

abbrev pub compression_gzip : ℕ
compression_gzip = 1

abbrev pub encryption_none : ℕ
encryption_none = 0

abbrev pub encryption_secret_box : ℕ
encryption_secret_box = 1

pub record WriteReq : Type 0 where
  pub id : ℤ
  pub path : Str
  pub offset : ℤ
  pub checksum : ℕ
  pub compression : ℕ
  pub encryption : ℕ

pub record WriteRes : Type 0 where
  pub id : ℤ
  pub success : Bool
  pub n : ℤ
  pub error : Str

pub record ReadReq : Type 0 where
  pub id : ℤ
  pub path : Str
  pub offset : ℤ
  pub size : ℤ
  pub compression : ℕ
  pub encryption : ℕ

pub record ReadRes : Type 0 where
  pub id : ℤ
  pub success : Bool
  pub n : ℤ
  pub checksum : ℕ
  pub compression : ℕ
  pub encryption : ℕ
  pub error : Str

pub record StatReq : Type 0 where
  pub id : ℤ
  pub path : Str

pub record StatRes : Type 0 where
  pub id : ℤ
  pub success : Bool
  pub size : ℤ
  pub mode : ℕ
  pub is_dir : Bool
  pub error : Str

pub record DirEntry : Type 0 where
  pub is_dir : Bool
  pub mode : ℕ
  pub name : Str
  pub size : ℤ
  pub mod_time : ℤ

pub record ReadDirReq : Type 0 where
  pub id : ℤ
  pub path : Str

pub record ReadDirRes : Type 0 where
  pub id : ℤ
  pub success : Bool
  pub entries : List DirEntry
  pub error : Str

pub record HashReq : Type 0 where
  pub id : ℤ
  pub path : Str

pub record HashRes : Type 0 where
  pub id : ℤ
  pub success : Bool
  pub hash : Bytes
  pub error : Str

pub record AuthReq : Type 0 where
  pub id : ℤ
  pub user : Str
  pub pub_key : Bytes
  pub signature : Bytes
  pub token : Str

pub record AuthRes : Type 0 where
  pub id : ℤ
  pub success : Bool
  pub challenge : Bytes
  pub token : Str
  pub user : Str
  pub error : Str

-- A value of the interface MSG.
pub data Msg : Type 0 where
  create_req : CreateReq → Msg
  create_res : CreateRes → Msg
  write_req : WriteReq → Msg
  write_res : WriteRes → Msg
  read_req : ReadReq → Msg
  read_res : ReadRes → Msg
  stat_req : StatReq → Msg
  stat_res : StatRes → Msg
  read_dir_req : ReadDirReq → Msg
  read_dir_res : ReadDirRes → Msg
  hash_req : HashReq → Msg
  hash_res : HashRes → Msg
  auth_req : AuthReq → Msg
  auth_res : AuthRes → Msg

-- The method Type of each message.
unfoldable pub type_of : Msg → MessageType
type_of (create_req m) = create_req_t
type_of (create_res m) = create_res_t
type_of (write_req m) = write_req_t
type_of (write_res m) = write_res_t
type_of (read_req m) = read_req_t
type_of (read_res m) = read_res_t
type_of (stat_req m) = stat_req_t
type_of (stat_res m) = stat_res_t
type_of (read_dir_req m) = read_dir_req_t
type_of (read_dir_res m) = read_dir_res_t
type_of (hash_req m) = hash_req_t
type_of (hash_res m) = hash_res_t
type_of (auth_req m) = auth_req_t
type_of (auth_res m) = auth_res_t

-- The method GetID of each message.
unfoldable pub get_id : Msg → ℤ
get_id (create_req m) = m.id
get_id (create_res m) = m.id
get_id (write_req m) = m.id
get_id (write_res m) = m.id
get_id (read_req m) = m.id
get_id (read_res m) = m.id
get_id (stat_req m) = m.id
get_id (stat_res m) = m.id
get_id (read_dir_req m) = m.id
get_id (read_dir_res m) = m.id
get_id (hash_req m) = m.id
get_id (hash_res m) = m.id
get_id (auth_req m) = m.id
get_id (auth_res m) = m.id

-- The methods Encode and Decode. `decode t bs` fills a fresh message of type `t`; `none` is an error.
pub record Codec : Type 0 where
  pub encode : Msg → Bytes
  pub decode : MessageType → Bytes → Option Msg

-- What the protocol relies on: a message decodes from its own encoding.
abbrev pub RoundTrips : Codec → Msg → Type 0
RoundTrips c m = c.decode (type_of m) (c.encode m) ≡ some m
