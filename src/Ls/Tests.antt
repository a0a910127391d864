-- ===== src/Ls/Tests.antt =====
-- What ls prints of a directory with two entries.
use gcp.Base.{ℕ, suc, if◌then◌else◌, ◌==◌, none, pos, false, true, Str, str, List, [], ◌∷◌}
use mathlib.Core.List.{Perm}
use mathlib.Core.List.Perm
use gcp.Base.Result.{ok}
use gcp.Message.Types.{DirEntry, StatRes, ReadDirRes, stat_res, read_dir_res}
use gcp.Client.Remote.{Remote, Caller}
use gcp.Ls.{Format}
use gcp.Ls.Listing.{sort_entries}

abbrev format : Format
format = record {
  mode_string = λ mode. str "rw";
  human_size = λ size. str "1K";
  plain_size = λ size. str "1024";
  time = λ t. str "today";
  sort_slice = sort_entries;
}

abbrev entry : Str → DirEntry
entry name = record { is_dir = false; mode = 420; name = name; size = pos 3; mod_time = pos 9 }

abbrev sent : List DirEntry
sent = entry (str "b") ∷ entry (str "a") ∷ []

abbrev shown : List DirEntry
shown = entry (str "a") ∷ entry (str "b") ∷ []

-- A host with the directory d.
abbrev found_d : StatRes
found_d = record { id = pos 0; success = true; size = pos 0; mode = 493; is_dir = true; error = [] }

abbrev listing : ReadDirRes
listing = record { id = pos 0; success = true; entries = sent; error = [] }

abbrev remote : Remote
remote = record {
  State = ℕ;
  call =
      λ msg payload s. (ok (if s == 0 then stat_res found_d else read_dir_res listing, []), suc s);
}

abbrev caller : Caller remote
caller = record {
  client = record { id = 3; use_checksum = false; use_encryption = false; encryption_key = none };
  state = 0;
}
