-- ===== src/Server/LifetimeTests.antt =====
-- The claims on the server's descriptors at a system whose world is the list of the open ones.
use gcp.Base.{ℕ, pos, ◌≡◌, refl, subst, true, false, str, List, [], ◌∷◌, none, length, equal, ltb}
use mathlib.Core.Logic.{if_pos}
use native.Mathlib.Decide.{ℕ_discrete}
use mathlib.Core.List.{Perm, erase}
use mathlib.Core.List.Perm
use gcp.Base.Result.{ok, err}
use gcp.Base.Dict.{lookup}
use gcp.Message.Types.{auth_req, write_req}
use gcp.Server.Os.{Os, found}
use gcp.Server.Auth.Handshake.{key_request, signature_request}
use gcp.Server.Cache.{FdEntry, Disk, sweep, close}
use gcp.Server.Cache.Laws.{entry}
use gcp.Server.Cache.Handles.{handles}
use gcp.Server.Cache.Descriptors.{Descriptors, Balanced}
use gcp.Server.Cache.Sweeps.{kept, sweep-kept}
use gcp.Server.Files.{Host}
use gcp.Server.Dispatch.Lifetime.{
  ServerEvent, arrival, tick, new_server, serve_events, close-serve_events,
}
use gcp.Server.Fixtures.{ssh, accounts, key, gzip, box, nonce, info_f}

-- A descriptor is a number.
abbrev os : Os
os = record {
  World = List ℕ;
  File = ℕ;
  mkdir_all = λ path mode w. (ok tt, w);
  stat = λ path w. found info_f;
  create_file = λ path mode w. (ok (length w), length w ∷ w);
  open_file = λ path writable w. (ok (length w), length w ∷ w);
  close_file = λ f w. erase ℕ_discrete w f;
  truncate = λ f size w. (ok tt, w);
  write_at = λ f bytes off w. (ok (length bytes), w);
  read_at = λ f n off w. ([], none);
  file_stat = λ f w. ok info_f;
  seek_start = λ f w. (ok tt, w);
  read_all = λ f w. (err (str "i/o error"), w);
  read_dir = λ path w. ok [];
}

abbrev host : Host
host = record {
  os = os;
  gzip = gzip;
  box = box;
  sha256 = λ b. b;
  nonce = ok nonce;
  now = 0;
  has_room = λ n. ltb n 65536;
}

same_head : (f g : ℕ) (w : List ℕ) → ok g ≡ ok f → Perm (g ∷ w) (f ∷ w)
same_head f g w e = let same : g ≡ f = cc e in subst (λ x. Perm (g ∷ w) (x ∷ w)) same Perm.rfl

descriptors : Descriptors os
descriptors = record {
  open_set = λ w. w;
  opens = λ path writable w f e. same_head f (length w) w e;
  open_fails = λ path e writable w k. absurd (cc k);
  closes = λ f w rest p.
      subst (Perm (erase ℕ_discrete w f)) (if_pos (ℕ_discrete f f) refl rest _)
        (Perm.erase ℕ_discrete f p);
  creates = λ path mode w f e. same_head f (length w) w e;
  create_fails = λ path e mode w k. absurd (cc k);
  open_set-mkdir_all = λ path mode w. refl;
  open_set-truncate = λ f size w. refl;
  open_set-write_at = λ f bs offset w. refl;
  open_set-seek_start = λ f w. refl;
  open_set-read_all = λ f w. refl;
}

-- The client of ann authenticates and writes, and later there is a tick.
abbrev events : List (ServerEvent ssh accounts host)
events =
    arrival 1 (ok nonce) (ok (str "xyz")) [] 1 (auth_req (key_request key [])) []
    ∷ arrival 2 (ok nonce) (ok []) (str "t0") 1 (auth_req (signature_request key [] (str "kkxyz")))
        []
    ∷ arrival 3 (ok nonce) (ok []) [] 1
        (write_req (record {
          id = pos 3;
          path = str "f";
          offset = pos 0;
          checksum = 0;
          compression = 0;
          encryption = 0;
        }))
        (7 ∷ 8 ∷ [])
    ∷ tick 40 30
    ∷ []

close-serve_events_example :
    let d = (serve_events ssh accounts host events (new_server ssh accounts host [])).disk in
    Perm d.world (handles (λ (e : FdEntry os). e.file) d.files) × ((close os d).world ≡ [])
unfolding descriptors
close-serve_events_example = close-serve_events ssh accounts host descriptors events [] refl

-- Two entries, of which one is old.
abbrev disk : Disk os
disk = record {
  world = 4 ∷ 5 ∷ [];
  files =
      (str "a", record { file = 4; writable = true; last_access = 2 })
      ∷ (str "b", record { file = 5; writable = false; last_access = 33 })
      ∷ [];
}

disk_Balanced : Balanced os descriptors disk
unfolding lookup descriptors equal
disk_Balanced = record { apart = (refl, (refl, tt)); balance = Perm.rfl }

sweep-kept_example :
    (entry os (str "a") (sweep os 40 30 disk) ≡ kept os 40 30 (entry os (str "a") disk))
    × Perm
        (sweep os 40 30 disk).world
        (handles (λ (e : FdEntry os). e.file) (sweep os 40 30 disk).files)
unfolding descriptors
sweep-kept_example = sweep-kept os descriptors 40 30 (str "a") disk disk_Balanced
