-- ===== src/Server/Dispatch/Lifetime.antt =====
-- The life of the server of serve.go: the messages that its workers handle, one after another, with
-- the ticks of sweepLoop between them, and fdCache.close at the end.
use gcp.Base.{ℕ, ◌≡◌, sym, subst, Bytes, Str, List, [], ◌∷◌, Option, none, some}
use mathlib.Core.List.{Perm}
use mathlib.Core.List.Perm
use gcp.Base.Result.{Res}
use gcp.Message.Types.{Msg, create_req, write_req, read_req, hash_req, auth_req}
use gcp.Server.Users.{Ssh, Accounts}
use gcp.Server.Auth.{ConnAuth, get_conn_auth, new_auth_server}
use gcp.Server.Cache.{FdEntry, new_fd_cache, sweep, close}
use gcp.Server.Cache.Handles.{handles}
use gcp.Server.Cache.Descriptors.{Descriptors, Balanced}
use gcp.Server.Cache.Sweeps.{sweep-Balanced, close_all}
use gcp.Server.Files.{Host, read_dir, stat}
use gcp.Server.Files.Balance.{create-Balanced, write-Balanced, read-Balanced, hash-Balanced}
use gcp.Server.Dispatch.{Server, process, serve_request, serve_other, allowed}

module _ (ssh : Ssh) (accounts : Accounts) (h : Host) where
  -- A message that a worker takes, with the time and what rand gives for it; or a tick.
  pub data ServerEvent : Type 0 where
    arrival : ℕ → Res Bytes → Res Bytes → Str → ℕ → Msg → Bytes → ServerEvent
    tick : ℕ → ℕ → ServerEvent

  -- The host when a message is handled.
  abbrev at : ℕ → Res Bytes → Host
  at now nonce = record h { now = now; nonce = nonce }

  unfoldable pub serve_event : ServerEvent → Server ssh accounts h → Server ssh accounts h
  serve_event (arrival now nonce challenge token conn msg payload) s =
      let before : Server ssh accounts (at now nonce) = record { auth = s.auth; disk = s.disk } in
      let (r, s') = process ssh accounts (at now nonce) challenge token before conn msg payload in
      record { auth = s'.auth; disk = s'.disk }
  serve_event (tick now idle_timeout) s = record s { disk = sweep h.os now idle_timeout s.disk }

  unfoldable pub serve_events : List ServerEvent → Server ssh accounts h → Server ssh accounts h
  unfolding serve_event
  serve_events [] s = s
  serve_events (e ∷ es) s = serve_events es (serve_event e s)

  unfoldable pub new_server : h.os.World → Server ssh accounts h
  new_server w = record { auth = new_auth_server; disk = new_fd_cache h.os w }

module _ (ssh : Ssh) (accounts : Accounts) (h : Host) (ds : Descriptors h.os) where
  serve_request-Balanced :
      (msg : Msg) (payload : Bytes) (ca : ConnAuth) (s : Server ssh accounts h)
      → Balanced h.os ds s.disk
      → Balanced h.os ds (serve_request ssh accounts h msg payload ca s).1.disk
  unfolding serve_request read_dir stat
  serve_request-Balanced (create_req req) payload ca s b = create-Balanced h ds req ca s.disk b
  serve_request-Balanced (write_req req) payload ca s b =
      write-Balanced h ds req payload ca s.disk b
  serve_request-Balanced (read_req req) payload ca s b = read-Balanced h ds req ca s.disk b
  serve_request-Balanced (hash_req req) payload ca s b = hash-Balanced h ds req ca s.disk b
  serve_request-Balanced _ payload ca s b = b

  serve_other-Balanced :
      (msg : Msg) (payload : Bytes) (o : Option ConnAuth) (s : Server ssh accounts h)
      → Balanced h.os ds s.disk
      → Balanced h.os ds (serve_other ssh accounts h msg payload o s).1.disk
  unfolding serve_other
  serve_other-Balanced msg payload none s b = b
  serve_other-Balanced msg payload (some ca) s b = serve_request-Balanced msg payload ca s b

  process-Balanced :
      (challenge : Res Bytes) (token : Str) (s : Server ssh accounts h) (conn : ℕ) (msg : Msg)
      (payload : Bytes)
      → Balanced h.os ds s.disk
      → Balanced h.os ds (process ssh accounts h challenge token s conn msg payload).1.disk
  unfolding process
  process-Balanced challenge token s conn (auth_req req) payload b = b
  process-Balanced challenge token s conn msg payload b =
      serve_other-Balanced msg payload (allowed (get_conn_auth s.auth conn)) s b

module _ (ssh : Ssh) (accounts : Accounts) (h : Host) (ds : Descriptors h.os) where
  serve_event-Balanced :
      (e : ServerEvent ssh accounts h) (s : Server ssh accounts h)
      → Balanced h.os ds s.disk
      → Balanced h.os ds (serve_event ssh accounts h e s).disk
  unfolding serve_event
  serve_event-Balanced (arrival now nonce challenge token conn msg payload) s b =
      process-Balanced ssh accounts (record h { now = now; nonce = nonce }) ds challenge token
        (record { auth = s.auth; disk = s.disk }) conn msg payload b
  serve_event-Balanced (tick now idle_timeout) s b =
      sweep-Balanced h.os ds now idle_timeout s.disk b

  serve_events-Balanced :
      (es : List (ServerEvent ssh accounts h)) (s : Server ssh accounts h)
      → Balanced h.os ds s.disk
      → Balanced h.os ds (serve_events ssh accounts h es s).disk
  unfolding serve_events
  serve_events-Balanced [] s b = b
  serve_events-Balanced (e ∷ es) s b =
      serve_events-Balanced es (serve_event ssh accounts h e s) (serve_event-Balanced e s b)

  -- A server that starts with no descriptor open has at every time, whatever messages came, from
  -- whom, and whatever of their handling failed, just the descriptors of its cache's entries open,
  -- each once; and when close has run, none is open.
  pub close-serve_events :
      (es : List (ServerEvent ssh accounts h)) (w : h.os.World)
      → ds.open_set w ≡ []
      → let d = (serve_events ssh accounts h es (new_server ssh accounts h w)).disk in
        Perm (ds.open_set d.world) (handles (λ (e : FdEntry h.os). e.file) d.files)
        × (ds.open_set (close h.os d).world ≡ [])
  unfolding new_server new_fd_cache
  close-serve_events es w closed =
      let start : Balanced h.os ds (new_fd_cache h.os w) = record {
        apart = tt;
        balance = subst (λ xs. Perm xs []) (sym closed) Perm.rfl;
      } in
      let b = serve_events-Balanced es (new_server ssh accounts h w) start in
      (b.balance, close_all h.os ds _ b)
