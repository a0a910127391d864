-- ===== src/Transfer/Fixtures.antt =====
-- Data for the tests: a server whose files are functions, and a client of it.
use gcp.Base.{
  ℕ, ℤ, pos, negsuc, ◌+◌, zero, suc, Option, ap, ◌∙◌, ◌-◌, ◌<◌, ◌≡◌, refl, sym, ap, true, false,
  Bytes, Str, str, [], ◌∷◌, none, some, length, get_or, ◌&&◌, equal, equal_refl, if◌then◌else◌, ltb,
  arith,
}
use gcp.Base.Result.{Res, ok, err}
use gcp.Base.Dict.{lookup}
use gcp.Transfer.Upload.Parts.{Ready}
use gcp.Client.Remote.{Caller, served}
use gcp.Server.Os.{Os, FileInfo, found}
use gcp.Server.Cache.Content.{IsFileSystem, within}
use gcp.Server.Files.{Host}
use gcp.Server.Fixtures.{ssh, accounts, gzip, box, nonce, ann, key, info_f}
use gcp.Server.Files.Reading.{Reads, Full}

abbrev pub World : Type 0
World = Str → ℕ → ℕ

abbrev pub put_bytes : Str → Bytes → ℤ → World → Res ℕ × World
put_bytes f bytes (negsuc n) w = (err (str "negative offset"), w)
put_bytes f bytes (pos off) w = (
  ok (length bytes),
  λ q i. if equal f q && within off (length bytes) i then get_or bytes (i - off) 0 else w q i,
)

-- The `n` bytes of a file from an offset on.
abbrev table : (ℕ → ℕ) → ℕ → ℕ → Bytes
table g zero off = []
table g (suc n) off = g off ∷ table g n (suc off)

abbrev read_from : Str → ℕ → ℤ → World → Bytes × Option Str
read_from f n (pos off) w = (table (w f) n off, none)
read_from f n (negsuc k) w = ([], some (str "negative offset"))

abbrev pub os : Os
os = record {
  World = World;
  File = Str;
  mkdir_all = λ path mode w. (ok tt, w);
  stat = λ path w. found info_f;
  create_file = λ path mode w. (ok path, w);
  open_file = λ path writable w. (ok path, w);
  close_file = λ f w. w;
  truncate = λ f size w. (ok tt, w);
  write_at = put_bytes;
  read_at = read_from;
  file_stat = λ f w. ok info_f;
  seek_start = λ f w. (ok tt, w);
  read_all = λ f w. (ok (w f 0 ∷ w f 1 ∷ w f 2 ∷ w f 3 ∷ w f 4 ∷ w f 5 ∷ w f 6 ∷ []), w);
  read_dir = λ path w. ok [];
}

pub files : IsFileSystem os
files = record {
  byte_at = λ w q i. w q i;
  path_of = λ f. f;
  path_of-open_file = λ path writable w f h. sym (cc h);
  byte_at-open_file = λ path q writable w i. refl;
  byte_at-close_file = λ f q w i. refl;
  byte_at-write_at = λ f bs offset n i w h k. rw (equal_refl f, k) refl;
  byte_at-write_at_outside = λ f bs offset i q w k. rw k refl;
  byte_at-seek_start = λ f q w i. refl;
  byte_at-read_all = λ f q w i. refl;
}

abbrev pub host : Host
host = record {
  os = os;
  gzip = gzip;
  box = box;
  sha256 = λ b. b;
  nonce = ok nonce;
  now = 100;
  has_room = λ n. ltb n 65536;
}

-- The client of ann on connection 1, with empty files.
abbrev pub caller : Caller (served ssh accounts host 1)
caller = record {
  client = record {
    id = 3;
    use_checksum = false;
    use_encryption = true;
    encryption_key = some (0 ∷ key);
  };
  state = record {
    auth = record { conns = λ c. some ann; sessions = [] };
    disk = record { world = λ q i. 0; files = [] };
  };
}

pub caller_Ready : Ready ssh accounts host files 1 ann caller
unfolding lookup
caller_Ready = record {
  known = refl;
  is_ok = refl;
  same_key = refl;
  names = λ q e k. absurd (cc k);
}

abbrev pub bytes : Bytes
bytes = 10 ∷ 11 ∷ 12 ∷ 13 ∷ 14 ∷ 15 ∷ 16 ∷ []

pub length-table : (g : ℕ → ℕ) (n off : ℕ) → length (table g n off) ≡ n
length-table g zero off = refl
length-table g (suc n) off = ap suc (length-table g n (suc off))

get_or-table :
    (g : ℕ → ℕ) (n off i : ℕ)
    → i < length (table g n off)
    → get_or (table g n off) i 0 ≡ g (off + i)
get_or-table g zero off i k = absurd (omega (arith, k))
get_or-table g (suc n) off zero k = ap g (omega arith)
get_or-table g (suc n) off (suc i) k =
    get_or-table g n (suc off) i (omega (arith, k)) ∙ ap g (omega arith)

pub host_Reads : Reads host files
unfolding files
host_Reads f n off w = (
  omega (arith, length-table (w f) n off),
  (λ e. length-table (w f) n off),
  λ i k. get_or-table (w f) n off i k,
)

unfoldable pub host_Full : Full host files
unfolding files
host_Full = record {
  size = λ w q. 4;
  size-open_file = λ path q writable w. refl;
  size-close_file = λ f q w. refl;
  size-stat =
      λ path w info e file. let is : info_f ≡ info = cc e in ap (λ (x : FileInfo). x.size) (sym is);
  length-read_at = λ f n off w inside. length-table (w f) n off;
}

pub host_refuses :
    (f : Str) (bs : Bytes) (n i : ℕ) (q : Str) (w : World)
    → files.byte_at (put_bytes f bs (negsuc n) w).1 q i ≡ files.byte_at w q i
host_refuses f bs n i q w = refl
