-- ===== src/Cp/Tests.antt =====
-- The claims on cp at concrete arguments.
use gcp.Base.{
  ◌≡◌, refl, sym, inr, if◌then◌else◌, some, Bool, true, false, Str, List, str, [], ◌∷◌, ◌++◌, ◌&&◌,
  none, equal, contains, contains_any, cut, cut_last, pos, arith, ap, ◌∙◌,
}
use gcp.Base.Result.{ok, err}
use gcp.Base.FilePath.{base, join}
use gcp.Message.Types.{DirEntry, ReadDirRes}
use gcp.Cp.Address.{Env, colon, parse_remote_addr, parse_remote_addr-append}
use gcp.Cp.Glob.{
  Files, has_glob, member, expand_local_source, expand_matches, expand_match, walk_into, visit,
}
use gcp.Cp.Glob.Laws.{IsDistinct, expand_local_source-IsDistinct}
use gcp.Cp.Run.{target_of}
use gcp.Cp.Walk.{Machine, walk_remote_dir}
use gcp.Cp.Walk.Trees.{Entries, file, dir, end, entry, listing, copy_dir, walk_remote_dir_eq}
use gcp.Cp.Route.{Dirs}

abbrev env : Env
env = record {
  ssh_config_lookup = λ host. none;
  current_user = ok (str "ann");
  is_ip = λ host. false;
  join_host_port = λ host port. host ++ (colon ∷ port);
}

abbrev dirs : Dirs
dirs = record { is_local_dir = λ p. equal p (str "d"); is_remote_dir = λ p. false }

-- The host h has another name and an identity file in the SSH configuration.
abbrev configured_env : Env
configured_env = record env {
  ssh_config_lookup = λ host. some (record {
    host_name = if equal host (str "h") then str "h.net" else [];
    user = str "ann";
    identity_file = if equal host (str "h") then str "/k" else [];
  });
}

parse_remote_addr-append_example :
    parse_remote_addr configured_env (str "bob@h:/a") (str "5031")
    ≡ ok (record {
      host_port = str "h.net:5031";
      user_name = str "bob";
      path = str "/a";
      identity_file = str "/k";
      host_alias = str "h";
    })
unfolding contains equal
parse_remote_addr-append_example =
    parse_remote_addr-append configured_env (str "bob") (str "h") (str "h.net") (str "/k")
      (str "/a") (str "5031") refl refl refl refl (refl, inr (refl, refl)) refl

-- A directory d with a file in it, and a file a, which are both matched; d is walked.
abbrev files : Files
files = record {
  glob = λ pattern. ok (str "a" ∷ str "d" ∷ str "d/b" ∷ str "a" ∷ []);
  is_dir = λ p. equal p (str "d");
  walk = λ p. (str "d", ok false) ∷ (str "d/b", ok true) ∷ [];
  name_matches = λ pattern name. true;
}

expand_local_source-IsDistinct_example :
    (paths : List Str) × (expand_local_source files (str "*") true ≡ ok paths)
    × IsDistinct paths
    × ((m : Str)
        → member m (str "a" ∷ str "d" ∷ str "d/b" ∷ str "a" ∷ []) ≡ true
        → (true && files.is_dir m) ≡ false
        → member m paths ≡ true)
unfolding has_glob contains_any base contains
expand_local_source-IsDistinct_example =
    expand_local_source-IsDistinct files (str "*") true
      (str "a" ∷ str "d" ∷ str "d/b" ∷ str "a" ∷ []) refl refl refl

expand_twice : expand_local_source files (str "*") true ≡ ok (str "a" ∷ str "d/b" ∷ [])
unfolding expand_local_source has_glob contains_any base contains expand_matches expand_match member
    equal walk_into visit
expand_twice = refl

same_target : target_of env (str "5031") true true (str "out") (str "bob@h:/a/b") ≡ str "out"
unfolding target_of join base parse_remote_addr cut cut_last contains equal
same_target = refl

abbrev some_entry : Str → Bool → DirEntry
some_entry name is_dir = record {
  is_dir = is_dir;
  mode = 420;
  name = name;
  size = pos 1;
  mod_time = pos 0;
}

abbrev sub_entries : Entries
sub_entries = entry (some_entry (str "b") false) file end

abbrev entries : Entries
entries =
    entry (some_entry (str "sub") true) (dir sub_entries)
      (entry (some_entry (str "a") false) file end)

abbrev listed : Bool → ReadDirRes
listed true = record { id = pos 0; success = true; entries = listing sub_entries; error = [] }
listed false = record { id = pos 0; success = true; entries = listing entries; error = [] }

-- A host with the directory r, which has a file a and a directory sub with a file b; the state is
-- the list of what is done, the last first.
abbrev machine : Machine
machine = record {
  State = List Str;
  mkdir_all = λ p s. (ok tt, (str "mkdir " ++ p) ∷ s);
  chmod = λ p mode s. (ok tt, (str "chmod " ++ p) ∷ s);
  stat = λ p s. (err (str "no"), s);
  read_dir = λ p s. (ok (listed (equal p (str "r/sub"))), s);
  download = λ from to s. (ok tt, (str "get " ++ to) ∷ s);
  create_dir = λ p mode s. (ok tt, s);
  upload = λ from to s. (ok tt, s);
}

listed_hosts :
    (b : Bool) (es : Entries) (res : ReadDirRes)
    → (listed b).success ≡ true
    → (listed b).entries ≡ listing es
    → ok (listed b) ≡ ok res
    → (res.success ≡ true) × (res.entries ≡ listing es)
listed_hosts b es res good same k =
    let e : listed b ≡ res = cc k in
    (
      ap (λ (r : ReadDirRes). r.success) (sym e) ∙ good,
      ap (λ (r : ReadDirRes). r.entries) (sym e) ∙ same,
    )

walk_remote_dir_eq_example :
    walk_remote_dir machine 2 (str "r") (str "out") []
    ≡ copy_dir machine entries (str "r") (str "out") []
unfolding equal join
walk_remote_dir_eq_example =
    walk_remote_dir_eq machine 2 entries (str "r") (str "out") [] (omega arith)
      (λ s res k. listed_hosts false entries res refl refl k)
      ((refl, (λ s res k. listed_hosts true sub_entries res refl refl k), (refl, tt)), (refl, tt))
