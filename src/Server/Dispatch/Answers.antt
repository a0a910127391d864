-- ===== src/Server/Dispatch/Answers.antt =====
-- process of serve.go: who is served, and the answers to requests.
use gcp.Base.{
  ℕ, ℤ, pos, negsuc, ◌+◌, ◌≡◌, refl, sym, subst, inl, inr, ◌≢◌, Bool, true, false, Bool-cases,
  Bytes, Str, List, [], Option, none, some, arith,
}
use gcp.Base.Result.{Res, ok, err, Res-cases}
use gcp.Message.Types.{
  auth_req_t, Msg, CreateReq, WriteReq, ReadReq, StatReq, ReadDirReq, HashReq, create_req,
  write_req, read_req, stat_req, read_dir_req, hash_req, auth_req, auth_res, get_id, type_of,
}
use gcp.Message.Header.{byte_of}
use gcp.Server.Users.{Ssh, Accounts}
use gcp.Server.Auth.{ConnAuth, get_conn_auth, auth_ok}
use gcp.Server.Os.{Stat, found, OsEntry}
use gcp.Server.Cache.{Disk}
use gcp.Server.Files.{
  Host, Reply, create, write, read, read_dir, stat, hash, read_got, read_stat, read_open,
  read_result, pack, create_path, write_chunk, hash_file, stat_answer, read_dir_answer, read_answer,
}
use gcp.Server.Dispatch.{
  reaction, on_disk, Reaction, answered, silent, crashed, auth_required, allowed, Server,
  serve_request, serve_other, process,
}

-- A message that a client sends, but for authentication.
abbrev pub IsRequest : Msg → Type 0
IsRequest (create_req m) = Unit {0}
IsRequest (write_req m) = Unit {0}
IsRequest (read_req m) = Unit {0}
IsRequest (stat_req m) = Unit {0}
IsRequest (read_dir_req m) = Unit {0}
IsRequest (hash_req m) = Unit {0}
IsRequest _ = ⊥

-- A number of bytes that make does not allocate.
abbrev pub IsTooMany : (ℕ → Bool) → ℤ → Type 0
IsTooMany has_room (pos n) = has_room n ≡ false
IsTooMany has_room (negsuc n) = Unit {0}

-- A request to read so many bytes.
abbrev pub ReadsTooMany : (ℕ → Bool) → Msg → Type 0
ReadsTooMany has_room (read_req m) = IsTooMany has_room m.size
ReadsTooMany has_room _ = ⊥

-- The answer to a request: the response of its kind, whose type is the next one, under its id.
abbrev pub Answers : (ℕ → Bool) → Msg → Reaction → Type 0
Answers has_room m (answered r payload closes) =
    (get_id r ≡ get_id m) × (byte_of (type_of r) ≡ byte_of (type_of m) + 1) × (closes ≡ false)
Answers has_room m silent = ⊥
Answers has_room m crashed = ReadsTooMany has_room m

allowed-none :
    (o : Option ConnAuth) → ((ca : ConnAuth) → o ≡ some ca → ca.state ≢ auth_ok) → allowed o ≡ none
unfolding allowed
allowed-none none shut = refl
allowed-none (some ca) shut = ground (arith, shut ca refl)

pub allowed_ok :
    (o : Option ConnAuth) (ca : ConnAuth) → o ≡ some ca → ca.state ≡ auth_ok → allowed o ≡ some ca
unfolding allowed
allowed_ok o ca e k = rw e (ground arith)

module _ (ssh : Ssh) (accounts : Accounts) (h : Host) where
  -- On a connection that is not authenticated every message but an AuthReq is answered with a
  -- failed AuthRes under its id, the connection is closed, and nothing else happens: the disk, the
  -- sessions and the connections are as before.
  pub process_unauthenticated :
      (rand_challenge : Res Bytes) (rand_token : Str) (s : Server ssh accounts h) (conn : ℕ)
      (msg : Msg) (payload : Bytes)
      → type_of msg ≢ auth_req_t
      → ((ca : ConnAuth) → s.auth.conns conn ≡ some ca → ca.state ≢ auth_ok)
      → process ssh accounts h rand_challenge rand_token s conn msg payload
        ≡ (answered (auth_res (auth_required msg)) [] true, s)
  unfolding process serve_other type_of get_conn_auth
  process_unauthenticated rand_challenge rand_token s conn (auth_req m) payload ne shut =
      absurd (ne refl)
  process_unauthenticated rand_challenge rand_token s conn _ payload ne shut =
      rw (allowed-none (s.auth.conns conn) shut, serve_other) refl

  pair-Answers :
      (m : Msg) (f : Disk h.os → Reply × Disk h.os) (s : Server ssh accounts h)
      → Answers h.has_room m (reaction (f s.disk).0)
      → Answers h.has_room m (on_disk ssh accounts h f s).0
        × ((on_disk ssh accounts h f s).1.auth ≡ s.auth)
  pair-Answers m f s a = (a, refl)

  create-Answers :
      (req : CreateReq) (ca : ConnAuth) (d : Disk h.os)
      → Answers h.has_room (create_req req) (reaction (create h req ca d).0)
  unfolding create get_id type_of byte_of
  create-Answers req ca d = elim (Res-cases (create_path h req ca d).0) [
    | inl (done, e) ↦ rw e (refl, refl, refl)
    | inr (text, e) ↦ rw e (refl, refl, refl)
  ]

  write-Answers :
      (req : WriteReq) (payload : Bytes) (ca : ConnAuth) (d : Disk h.os)
      → Answers h.has_room (write_req req) (reaction (write h req payload ca d).0)
  unfolding write get_id type_of byte_of
  write-Answers req payload ca d = elim (Res-cases (write_chunk h req payload ca d).0) [
    | inl (n, e) ↦ rw e (refl, refl, refl)
    | inr (text, e) ↦ rw e (refl, refl, refl)
  ]

  hash-Answers :
      (req : HashReq) (ca : ConnAuth) (d : Disk h.os)
      → Answers h.has_room (hash_req req) (reaction (hash h req ca d).0)
  unfolding hash get_id type_of byte_of
  hash-Answers req ca d = elim (Res-cases (hash_file h req ca d).0) [
    | inl (digest, e) ↦ rw e (refl, refl, refl)
    | inr (text, e) ↦ rw e (refl, refl, refl)
  ]

  stat-Answers :
      (req : StatReq) (s : Stat)
      → Answers h.has_room (stat_req req) (reaction (stat_answer h req s))
  unfolding get_id type_of byte_of
  stat-Answers req (found info) = (refl, refl, refl)
  stat-Answers req _ = (refl, refl, refl)

  read_dir-Answers :
      (req : ReadDirReq) (r : Res (List OsEntry))
      → Answers h.has_room (read_dir_req req) (reaction (read_dir_answer h req r))
  unfolding get_id type_of byte_of
  read_dir-Answers req (ok entries) = (refl, refl, refl)
  read_dir-Answers req (err e) = (refl, refl, refl)

  read_answer-Answers :
      (req : ReadReq) (r : Res (Bytes × ℕ × ℕ))
      → Answers h.has_room (read_req req) (reaction (read_answer h req r))
  unfolding get_id type_of byte_of
  read_answer-Answers req (ok (sent, algo, enc)) = (refl, refl, refl)
  read_answer-Answers req (err e) = (refl, refl, refl)

  read_open-Answers :
      (req : ReadReq) (ca : ConnAuth) (fd : h.os.File) (w : h.os.World) (size : ℤ)
      → req.size ≡ size
      → Answers h.has_room (read_req req) (reaction (read_open h req ca fd w size))
  unfolding read_open
  read_open-Answers req ca fd w (negsuc n) e = subst (IsTooMany h.has_room) (sym e) tt
  read_open-Answers req ca fd w (pos n) e = elim (Bool-cases (h.has_room n)) [
    | inr f ↦ rw (f, read_open) (subst (IsTooMany h.has_room) (sym e) f)
    | inl t ↦ elim (Res-cases (read_result h (h.os.read_at fd n req.offset w))) [
      | inl (bytes, k) ↦ rw (t, k, read_open) (read_answer-Answers req (pack h req ca bytes))
      | inr (text, k) ↦ rw (t, k, read_open) (read_answer-Answers req (err text))
    ]
  ]

  read_got-Answers :
      (req : ReadReq) (ca : ConnAuth) (r : Res h.os.File × Disk h.os)
      → Answers h.has_room (read_req req) (reaction (read_got h req ca r).0)
  unfolding read_got read_stat
  read_got-Answers req ca (err e, d) = read_answer-Answers req (err e)
  read_got-Answers req ca (ok fd, d) = elim (Res-cases (h.os.file_stat fd d.world)) [
    | inl (info, k) ↦ rw k (read_open-Answers req ca fd d.world req.size refl)
    | inr (text, k) ↦ rw k (read_answer-Answers req (err text))
  ]

  serve_request-Answers :
      (msg : Msg) (payload : Bytes) (ca : ConnAuth) (s : Server ssh accounts h)
      → IsRequest msg
      → Answers h.has_room msg (serve_request ssh accounts h msg payload ca s).0
        × ((serve_request ssh accounts h msg payload ca s).1.auth ≡ s.auth)
  unfolding serve_request stat read_dir read
  serve_request-Answers (create_req m) payload ca s i = (create-Answers m ca s.disk, refl)
  serve_request-Answers (write_req m) payload ca s i = (write-Answers m payload ca s.disk, refl)
  serve_request-Answers (read_req m) payload ca s i = (read_got-Answers m ca _, refl)
  serve_request-Answers (stat_req m) payload ca s i = (stat-Answers m _, refl)
  serve_request-Answers (read_dir_req m) payload ca s i = (read_dir-Answers m _, refl)
  serve_request-Answers (hash_req m) payload ca s i = (hash-Answers m ca s.disk, refl)
  serve_request-Answers _ payload ca s i = absurd i

  -- On an authenticated connection every request is answered once, with the response of its kind
  -- under its own id, success or not, unless it asks to read a negative number of bytes or more
  -- than make has room for; the authentication of the connections stays as it is.
  pub process-Answers :
      (rand_challenge : Res Bytes) (rand_token : Str) (s : Server ssh accounts h) (conn : ℕ)
      (msg : Msg) (payload : Bytes) (ca : ConnAuth)
      → IsRequest msg
      → s.auth.conns conn ≡ some ca
      → ca.state ≡ auth_ok
      → Answers h.has_room msg
          (process ssh accounts h rand_challenge rand_token s conn msg payload).0
        × ((process ssh accounts h rand_challenge rand_token s conn msg payload).1.auth ≡ s.auth)
  unfolding process serve_other get_conn_auth
  process-Answers rand_challenge rand_token s conn (auth_req m) payload ca i e k = absurd i
  process-Answers rand_challenge rand_token s conn msg payload ca i e k =
      rw (allowed_ok (s.auth.conns conn) ca e k, serve_other)
        (serve_request-Answers msg payload ca s i)
