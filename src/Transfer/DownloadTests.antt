-- ===== src/Transfer/DownloadTests.antt =====
-- The claim on downloads at a file of the server.
use gcp.Base.{
  ℕ, pos, ◌+◌, ◌-◌, ◌≡◌, refl, sym, ap, inl, inr, false, str, List, [], ◌∷◌, none, some, length,
  get_or, if◌then◌else◌, arith,
}
use gcp.Base.Dict.{lookup}
use gcp.Transfer.Schedule.{Chunk, process_chunks}
use gcp.Transfer.Schedule.Upload.{In}
use gcp.Transfer.Resume.{is_completed}
use gcp.Transfer.Upload.Parts.{Ready}
use gcp.Transfer.Download.Pieces.{IsLocal}
use gcp.Transfer.Download.Whole.{download_file_complete}
use gcp.Client.Remote.{Caller}
use gcp.Base.Result.{Res, ok}
use gcp.Transfer.Download.{Local, Session, download_chunk, download_file}
use gcp.Transfer.Download.Content.{Downloads, download_chunk-Downloads}
use gcp.Client.Remote.{served}
use gcp.Server.Cache.Content.{within}
use gcp.Transfer.Fixtures.{host, files, host_Reads, host_Full, caller, caller_Ready}
use gcp.Server.Fixtures.{ssh, accounts, gzip, gzip_Inverts, box, box_Opens, nonce, ann}

-- A local file that is the function of its bytes.
abbrev local : Local
local = record {
  State = ℕ → ℕ;
  open_fresh = λ mode s. (ok tt, λ i. 0);
  open_again = λ s. (ok tt, s);
  write_at =
      λ off bs s. (ok tt, λ i. if within off (length bs) i then get_or bs (i - off) 0 else s i);
  chmod = λ mode s. (ok tt, s);
  sha256 = λ s. ok [];
}

abbrev session : Session (served ssh accounts host 1) gzip box local
session = record { caller = caller; local = λ i. 7 }

abbrev downloaded : Res (Unit {0}) × Session (served ssh accounts host 1) gzip box local
downloaded =
    download_chunk (served ssh accounts host 1) gzip box local (str "f") 2 3 (pos 1) 0 session

download_chunk-Downloads_example :
    Downloads ssh accounts host files host_Reads gzip_Inverts box_Opens 1 ann nonce refl refl local
      (λ s i. s i)
      (λ off bs s i done w. rw w refl)
      (λ off bs s i w. rw w refl)
      (str "f")
      2
      3
      session
      downloaded.1
      downloaded.0
download_chunk-Downloads_example =
    download_chunk-Downloads ssh accounts host files host_Reads gzip_Inverts box_Opens 1 ann nonce
      refl refl local (λ s i. s i) (λ off bs s i done w. rw w refl) (λ off bs s i w. rw w refl)
      (str "f") 2 3 1 0 session caller_Ready

abbrev local_file : IsLocal local
local_file = record {
  byte_at = λ s i. s i;
  write_stores = λ off bs s i done w. rw w refl;
  write_keeps = λ off bs s i w. rw w refl;
  chmod_keeps = λ mode s i. refl;
}

-- A server whose file has four bytes that are not the local ones.
abbrev served_file : Session (served ssh accounts host 1) gzip box local
served_file = record {
  caller = record caller {
    state = record caller.state { disk = record caller.state.disk { world = λ q i. i + 40 } };
  };
  local = λ i. 7;
}

abbrev plan : List Chunk
plan =
    record { offset = 0; size = 3; skipped = false }
    ∷ record { offset = 3; size = 1; skipped = false }
    ∷ []

planned : process_chunks (is_completed none) 3 5 4 0 ≡ some plan
unfolding process_chunks gcp.Transfer.Schedule.rounds is_completed
planned = refl

plan_fresh : (x : Chunk) → In x plan → x.skipped ≡ false
plan_fresh x (inl e) = ap (λ (c : Chunk). c.skipped) (sym e)
plan_fresh x (inr (inl e)) = ap (λ (c : Chunk). c.skipped) (sym e)
plan_fresh x (inr (inr never)) = absurd never

abbrev fetched : Res (Unit {0}) × Session (served ssh accounts host 1) gzip box local
fetched =
    download_file (served ssh accounts host 1) gzip box local (λ size. none) (str "f") 3 5 (pos 1)
      false 0 (λ xs. xs) served_file

fetched_ok : fetched.0 ≡ ok tt
unfolding download_file gcp.Transfer.Download.retry gcp.Transfer.Download.attempt_stat
    gcp.Client.Remote.call_stat gcp.Server.Dispatch.process gcp.Client.Rpc.stat_request
    gcp.Server.Auth.get_conn_auth gcp.Server.Dispatch.serve_request gcp.Server.Files.stat
    process_chunks gcp.Transfer.Schedule.rounds gcp.Transfer.Upload.remaining is_completed
    gcp.Transfer.Download.attempt_read gcp.Client.Remote.call_read gcp.Server.Files.read
    gcp.Server.Cache.get gcp.Client.Rpc.gen_msg_id gcp.Client.Rpc.read_request
    gcp.Client.Rpc.accept_chunk gcp.Client.Rpc.open_chunk gcp.Transfer.Download.download_chunk
    lookup gcp.Transfer.Chunk.compress_chunk gcp.Transfer.Chunk.encrypt_chunk
    gcp.Transfer.Chunk.decrypt_chunk gcp.Base.equal gcp.Transfer.Chunk.decompress_chunk
    gcp.Base.Dict.insert gcp.Server.Files.sandbox_path gcp.Base.has_prefix gcp.Base.FilePath.is_abs
    gcp.Base.FilePath.join
fetched_ok = refl

served_Ready : Ready ssh accounts host files 1 ann served_file.caller
unfolding lookup
served_Ready = record {
  known = refl;
  is_ok = refl;
  same_key = refl;
  names = λ q e k. absurd (cc k);
}

download_file_complete_example : fetched.1.local 2 ≡ 42
unfolding host_Full
download_file_complete_example =
    download_file_complete ssh accounts host files host_Reads gzip_Inverts box_Opens 1 ann nonce
      refl refl local local_file host_Full (λ size. none) (str "f") 3 5 1 false 0 (λ xs. xs) plan
      served_file planned (λ x xs there. there) (omega arith) (omega arith) served_Ready
      (λ mode x j there k w. absurd (cc (plan_fresh x there, k))) fetched_ok 2 (omega arith)
