-- ===== src/Server/Fixtures.antt =====
-- Data for the tests: small libraries, one account, and an operating system with one file.
use gcp.Base.{
  ℕ, pos, ◌+◌, refl, inl, inr, Bytes, Str, str, [], ◌∷◌, ◌++◌, none, some, length, take, drop, ◌==◌,
  if◌then◌else◌, equal, equal_iff, equal_refl, false, replicate, Bool-cases, take-append, ltb,
  drop-append, arith,
}
use gcp.Base.Result.{Res, ok, err}
use gcp.Transfer.Chunk.{Gzip, SecretBox, Inverts, Opens}
use gcp.Server.Users.{Ssh, Accounts}
use gcp.Server.Auth.{ConnAuth, auth_ok}
use gcp.Server.Os.{Os, FileInfo, found}
use gcp.Server.Files.{Host}

-- A compressor that knows one chunk.
abbrev pub ones : Bytes
ones = 1 ∷ 1 ∷ 1 ∷ 1 ∷ []

abbrev deflate : Bytes → Res Bytes
deflate d = if equal d ones then ok (9 ∷ []) else ok (0 ∷ d)

abbrev inflate : Bytes → Res Bytes
inflate [] = err (str "unexpected EOF")
inflate (b ∷ d) = if b == 0 then ok d else ok ones

abbrev pub gzip : Gzip
gzip = record { deflate = deflate; inflate = inflate }

pub gzip_Inverts : Inverts gzip
gzip_Inverts d e h = elim (Bool-cases (equal d ones)) [
  | inl k ↦ (ground (arith, (equal_iff d ones).0 k), ground arith)
  | inr k ↦ (ground arith, ground arith)
]

-- A box that shows its key.
abbrev pub box : SecretBox
box = record {
  seal = λ d n k. k ++ d;
  open_box = λ e n k. if equal (take (length k) e) k then some (drop (length k) e) else none;
}

pub box_Opens : Opens box
box_Opens d n k =
    rw (take-append (length k) k d refl, equal_refl k, drop-append (length k) k d refl) refl

-- A key is its bytes, and its signature of a challenge is the two in a row.
abbrev pub ssh : Ssh
ssh = record {
  PublicKey = Bytes;
  Signature = Bytes;
  parse_public_key = λ b. ok b;
  unmarshal = λ b. ok b;
  verify = λ k challenge sig. if equal sig (k ++ challenge) then ok tt else err (str "bad");
  marshal = λ k. k;
  parse_authorized_key = λ line. some line;
  marshal_authorized_key = λ k. k;
  sha256 = λ b. 0 ∷ b;
}

abbrev pub accounts : Accounts
accounts = record {
  passwd = ok (str "root" ∷ str "ann:x:1:1:A:/a:/bin/sh" ∷ []);
  authorized_keys =
      λ home. if equal home (str "/a") then some (str "# ann" ∷ str " kk" ∷ []) else none;
  lookup_user = λ user. err (str "unknown user");
}

abbrev pub key : Bytes
key = str "kk"

abbrev pub info_f : FileInfo
info_f = record { size = pos 4; mode = 420; is_dir = false; mod_time = pos 0 }

-- A world is the number of files opened; a file is its path.
abbrev pub os : Os
os = record {
  World = ℕ;
  File = Str;
  mkdir_all = λ path mode w. (ok tt, w);
  stat = λ path w. found info_f;
  create_file = λ path mode w. (ok path, w + 1);
  open_file = λ path writable w.
      if equal path (str "/a/f") then (ok path, w + 1) else (err (str "no such file"), w);
  close_file = λ f w. w;
  truncate = λ f size w. (ok tt, w);
  write_at = λ f bytes off w. (ok (length bytes), w);
  read_at = λ f n off w. (take n ones, none);
  file_stat = λ f w. ok info_f;
  seek_start = λ f w. (ok tt, w);
  read_all = λ f w. (ok ones, w);
  read_dir = λ path w. ok [];
}

abbrev pub nonce : Bytes
nonce = replicate 24 5

abbrev pub host : Host
host = record {
  os = os;
  gzip = gzip;
  box = box;
  sha256 = λ b. b;
  nonce = ok nonce;
  now = 100;
  has_room = λ n. ltb n 65536;
}

abbrev pub ann : ConnAuth
ann = record {
  state = auth_ok;
  challenge = none;
  pub_key = [];
  user = str "ann";
  home = str "/a";
  encryption_key = some (0 ∷ key);
}
