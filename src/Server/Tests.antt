-- ===== src/Server/Tests.antt =====
-- The claims on the server at concrete connections and requests.
use gcp.Base.{
  has_prefix, ℤ, pos, ◌≡◌, refl, ◌⊎◌, Bytes, Str, str, List, [], ◌∷◌, none, some, equal,
  if◌then◌else◌, ◌==◌, true, false,
}
use gcp.Base.Result.{ok}
use gcp.Base.Dict.{lookup, insert}
use gcp.Message.Types.{Msg, ReadReq, type_of, stat_req, read_req, auth_res}
use gcp.Server.Users.{
  find_user_by_pub_key, scan_passwd, find_in_entries, passwd_entries, holds_key, line_key,
  find_user_by_pub_key_sound, verify_ssh_signature, derive_encryption_key, Accepts,
}
use gcp.Server.Auth.{
  SessionInfo, get_session, put_session, AuthServer, AuthEvent, run_auth, pending, get_conn_auth,
  set_conn_auth, open_session, check_signature, issue_challenge, signature_auth, token_auth,
  handle_auth, new_auth_server,
}
use gcp.Server.Auth.Safety.{Earned, history, info_of, run_auth-Earned}
use gcp.Server.Auth.Handshake.{token_request, key_request, signature_request}
use gcp.Server.Cache.{Disk, upgraded, get}
use gcp.Server.Cache.Laws.{Holds, get-Holds}
use gcp.Server.Dispatch.{Server, process, answered, auth_required}
use gcp.Server.Dispatch.Answers.{Answers, process_unauthenticated, process-Answers}
use gcp.Server.Fixtures.{ssh, accounts, key, os, host, ann}

abbrev signature : Bytes
signature = str "kkxyz"

abbrev token : Str
token = str "t0"

-- The three requests of a client, on the connections 1 and 2.
abbrev events : List AuthEvent
events =
    record {
      accounts = accounts;
      rand_challenge = ok (str "xyz");
      rand_token = [];
      conn = 1;
      req = key_request key [];
    }
    ∷ record {
      accounts = accounts;
      rand_challenge = ok [];
      rand_token = token;
      conn = 1;
      req = signature_request key [] signature;
    }
    ∷ record {
      accounts = accounts;
      rand_challenge = ok [];
      rand_token = [];
      conn = 2;
      req = token_request token;
    }
    ∷ []

abbrev ann_session : SessionInfo
ann_session = record { user = str "ann"; home = str "/a"; encryption_key = some (0 ∷ key) }

abbrev no_hint : Str
no_hint = []

found_ann : find_user_by_pub_key ssh accounts key [] ≡ ok (str "ann", str "/a")
unfolding find_user_by_pub_key scan_passwd find_in_entries passwd_entries equal holds_key line_key
    has_prefix
found_ann = refl

find_user_by_pub_key_sound_example :
    Accepts ssh accounts key (str "/a") × ((no_hint ≡ []) ⊎ (str "ann" ≡ no_hint))
find_user_by_pub_key_sound_example =
    find_user_by_pub_key_sound ssh accounts key no_hint (str "ann") (str "/a") found_ann

connected : (run_auth ssh new_auth_server events).conns 2 ≡ some ann
unfolding run_auth handle_auth get_session lookup pending get_conn_auth set_conn_auth open_session
    check_signature verify_ssh_signature equal find_user_by_pub_key scan_passwd find_in_entries
    passwd_entries holds_key line_key has_prefix insert issue_challenge put_session signature_auth
    token_auth derive_encryption_key
connected = refl

run_auth-Earned_example : Earned ssh (info_of ann) (history [] events)
run_auth-Earned_example = run_auth-Earned ssh events 2 ann connected refl

signed : verify_ssh_signature ssh key (str "xyz") signature ≡ ok key
unfolding verify_ssh_signature equal
signed = refl

abbrev with_session : AuthServer
with_session = record new_auth_server { sessions = (token, ann_session) ∷ [] }

-- A wrong token, and the first request of a client.
abbrev other_events : List AuthEvent
other_events =
    record {
      accounts = accounts;
      rand_challenge = ok [];
      rand_token = [];
      conn = 4;
      req = token_request (str "t1");
    }
    ∷ record {
      accounts = accounts;
      rand_challenge = ok (str "xyz");
      rand_token = [];
      conn = 5;
      req = key_request key [];
    }
    ∷ []

abbrev empty_disk : Disk os
empty_disk = record { world = 0; files = [] }

abbrev after_open : Disk os
after_open = record {
  world = 1;
  files = (str "/a/f", record { file = str "/a/f"; writable = false; last_access = 100 }) ∷ [];
}

abbrev server : Server ssh accounts host
server = record {
  auth = record { sessions = []; conns = λ c. if c == 1 then some ann else none };
  disk = empty_disk;
}

abbrev stat_f : Msg
stat_f = stat_req (record { id = pos 3; path = str "f" })

abbrev read_f : ℤ → ReadReq
read_f size = record {
  id = pos 4;
  path = str "f";
  offset = pos 0;
  size = size;
  compression = 1;
  encryption = 1;
}

process_unauthenticated_example :
    process ssh accounts host (ok []) [] server 9 stat_f []
    ≡ (answered (auth_res (auth_required stat_f)) [] true, server)
unfolding type_of
process_unauthenticated_example =
    process_unauthenticated ssh accounts host (ok []) [] server 9 stat_f [] (λ e. cc) (λ ca e. cc)

process-Answers_example :
    Answers host.has_room
      (read_req (read_f (pos 4)))
      (process ssh accounts host (ok []) [] server 1 (read_req (read_f (pos 4))) []).0
    × ((process ssh accounts host (ok []) [] server 1 (read_req (read_f (pos 4))) []).1.auth
        ≡ server.auth)
process-Answers_example =
    process-Answers ssh accounts host (ok []) [] server 1 (read_req (read_f (pos 4))) [] ann tt refl
      refl

-- The file is open for reading, and asked for to write.
get-Holds_example :
    Holds os 200
      (str "/a/f")
      true
      after_open
      (get os 200 (str "/a/f") true after_open).1
      (str "/a/f")
unfolding get lookup upgraded equal
get-Holds_example = get-Holds os 200 (str "/a/f") true after_open (str "/a/f") refl
