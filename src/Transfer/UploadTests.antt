-- ===== src/Transfer/UploadTests.antt =====
-- The claims on uploads at a file of seven bytes.
use gcp.Base.{
  ℕ, ℤ, pos, negsuc, ◌+◌, ◌-◌, ◌<◌, ◌≡◌, refl, sym, ap, ◌∙◌, inl, inr, Bool, true, false, Bytes,
  Str, str, List, [], ◌∷◌, none, some, length, take, drop, get_or, ◌&&◌, equal, equal_refl,
  if◌then◌else◌, arith,
}
use gcp.Base.Result.{Res, ok}
use gcp.Base.Dict.{lookup}
use gcp.Transfer.Schedule.{Chunk, process_chunks, rounds}
use gcp.Transfer.Schedule.Upload.{In}
use gcp.Transfer.Resume.{is_completed}
use gcp.Transfer.Upload.{Source, read_exactly, upload_file_chunk, upload_file, prepare}
use gcp.Transfer.Upload.Content.{Uploads, upload_file_chunk-Uploads}
use gcp.Transfer.Upload.Sends.{Right}
use gcp.Transfer.Upload.Whole.{upload_file_complete}
use gcp.Client.Rpc.{Client}
use gcp.Client.Remote.{Caller, served}
use gcp.Server.Auth.{AuthServer}
use gcp.Server.Files.{Host}
use gcp.Server.Dispatch.{Server}
use gcp.Transfer.Fixtures.{host, files, caller, caller_Ready, bytes}
use gcp.Server.Fixtures.{ssh, accounts, gzip, gzip_Inverts, box, box_Opens, nonce, ann}

upload_file_chunk-Uploads_example :
    Uploads ssh accounts host files 1 ann gzip_Inverts box_Opens
      (λ k. ok nonce)
      (λ k. (nonce, refl, refl))
      (str "f")
      3
      (13 ∷ 14 ∷ 15 ∷ [])
      caller
      (upload_file_chunk
        (served ssh accounts host 1)
        gzip
        box
        (λ k. ok nonce)
        bytes
        (str "f")
        3
        3
        (pos 2)
        1
        caller)
unfolding read_exactly
upload_file_chunk-Uploads_example =
    upload_file_chunk-Uploads ssh accounts host files 1 ann gzip_Inverts box_Opens (λ k. ok nonce)
      (λ k. (nonce, refl, refl)) bytes (13 ∷ 14 ∷ 15 ∷ []) (str "f") 3 3 2 1 caller caller_Ready
      refl

abbrev source : Source
source = record { bytes = bytes; mode = 420; sha256 = ok bytes; target = str "f" }

abbrev plan : List Chunk
plan =
    record { offset = 0; size = 3; skipped = false }
    ∷ record { offset = 3; size = 3; skipped = false }
    ∷ record { offset = 6; size = 1; skipped = false }
    ∷ []

planned : process_chunks (is_completed none) 3 8 7 0 ≡ some plan
unfolding process_chunks rounds is_completed
planned = refl

plan_fresh : (x : Chunk) → In x plan → x.skipped ≡ false
plan_fresh x (inl e) = ap (λ (c : Chunk). c.skipped) (sym e)
plan_fresh x (inr (inl e)) = ap (λ (c : Chunk). c.skipped) (sym e)
plan_fresh x (inr (inr (inl e))) = ap (λ (c : Chunk). c.skipped) (sym e)
plan_fresh x (inr (inr (inr never))) = absurd never

-- What uploadFile makes of the file, without compression.
abbrev uploaded : Res (Unit {0}) × Caller (served ssh accounts host 1)
uploaded =
    upload_file (served ssh accounts host 1) gzip box (λ off k. ok nonce) none source 3 8 (pos 2)
      true 0 (λ xs. xs) caller

uploaded_ok : uploaded.0 ≡ ok tt
unfolding upload_file prepare gcp.Client.Remote.call_create gcp.Server.Dispatch.process
    gcp.Client.Rpc.create_request gcp.Server.Auth.get_conn_auth gcp.Server.Dispatch.serve_request
    gcp.Server.Files.create gcp.Transfer.Upload.run_plan process_chunks rounds
    gcp.Transfer.Upload.upload_chunks gcp.Transfer.Upload.remaining is_completed upload_file_chunk
    read_exactly gcp.Transfer.Upload.attempt_write gcp.Transfer.Upload.write_rounds
    gcp.Client.Remote.call_write gcp.Client.Rpc.write_request gcp.Client.Rpc.seal_chunk
    gcp.Client.Rpc.gen_msg_id gcp.Server.Files.write gcp.Server.Files.write_chunk
    gcp.Server.Files.unpack gcp.Server.Files.write_file gcp.Transfer.Upload.verify_file_hash
    gcp.Client.Remote.call_hash gcp.Client.Rpc.hash_request gcp.Server.Files.hash
    gcp.Server.Files.hash_file gcp.Server.Cache.get gcp.Transfer.Chunk.compress_chunk
    gcp.Transfer.Chunk.decompress_chunk gcp.Transfer.Chunk.encrypt_chunk
    gcp.Transfer.Chunk.decrypt_chunk equal lookup gcp.Base.Dict.insert gcp.Server.Files.sandbox_path
    gcp.Base.has_prefix gcp.Base.FilePath.is_abs gcp.Base.FilePath.join
uploaded_ok = refl

upload_file_complete_example : Right ssh accounts host files 1 ann source uploaded.1 4
upload_file_complete_example =
    upload_file_complete ssh accounts host files 1 ann gzip_Inverts box_Opens (λ off k. ok nonce)
      (λ off k. (nonce, refl, refl)) none source 3 8 2 0 true (λ xs. xs) plan caller planned
      (λ x xs there. there) (omega arith) (omega arith) caller_Ready
      (λ x j there k w. absurd (cc (plan_fresh x there, k))) uploaded_ok 4 (omega arith)
