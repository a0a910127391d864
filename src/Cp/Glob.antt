-- ===== src/Cp/Glob.antt =====
-- glob.go: the sources that a pattern stands for. What filepath.Glob, os.Stat, filepath.Walk and
-- path.Match answer is a Files; Walk is the list of the calls that it makes of its function.
pub mod Laws
use gcp.Base.{
  ℕ, Bool, true, false, not, ◌&&◌, ◌||◌, Str, str, List, [], ◌∷◌, ◌++◌, if◌then◌else◌, is_empty,
  contains_any, equal,
}
use gcp.Base.Result.{Res, ok, err, ◌>>=◌}
use gcp.Base.FilePath.{base, join, split_path, slash}
use gcp.Message.Types.{DirEntry, ReadDirRes}
use gcp.Client.Remote.{Remote, Caller, call_read_dir}

unfoldable pub has_glob : Str → Bool
has_glob s = contains_any (base s) (str "*?[")

pub record Files : Type 0 where
  pub glob : Str → Res (List Str)
  -- Stat succeeds and says that it is a directory.
  pub is_dir : Str → Bool
  -- The paths of the calls with walkErr, or with whether the file is a regular one.
  pub walk : Str → List (Str × Res Bool)
  -- Match of a pattern and a name; false on an error.
  pub name_matches : Str → Str → Bool

-- A lookup in `seen`, a map whose values are true.
unfoldable pub member : Str → List Str → Bool
member p [] = false
member p (q ∷ qs) = equal p q || member p qs

-- `seen` and `result`.
pub record Found : Type 0 where
  pub seen : List Str
  pub result : List Str

-- The function that Walk calls, where it goes on.
unfoldable pub visit : Str → Bool → Found → Found
visit path is_regular f =
    if is_regular && not (member path f.seen)
    then record { seen = path ∷ f.seen; result = f.result ++ (path ∷ []) }
    else f

-- An error of a call ends the walk, and expandLocalSource drops it.
unfoldable pub walk_into : List (Str × Res Bool) → Found → Found
walk_into [] f = f
walk_into ((path, err e) ∷ calls) f = f
walk_into ((path, ok is_regular) ∷ calls) f = walk_into calls (visit path is_regular f)

unfoldable pub expand_match : Files → Bool → Str → Found → Found
expand_match fs recursive m f =
    if member m f.seen
    then f
    else if recursive && fs.is_dir m
    then walk_into (fs.walk m) (record { seen = m ∷ f.seen; result = f.result })
    else record { seen = m ∷ f.seen; result = f.result ++ (m ∷ []) }

unfoldable pub expand_matches : Files → Bool → List Str → Found → Found
expand_matches fs recursive [] f = f
expand_matches fs recursive (m ∷ ms) f =
    expand_matches fs recursive ms (expand_match fs recursive m f)

abbrev pub nothing_found : Found
nothing_found = record { seen = []; result = [] }

unfoldable pub expand_local_source : Files → Str → Bool → Res (List Str)
expand_local_source fs pattern recursive = if not (has_glob pattern) then ok (pattern ∷ []) else do
  matches ← fs.glob pattern
  if is_empty matches
      then err (str "no files match")
      else ok (expand_matches fs recursive matches nothing_found).result

-- "%s@%s:%s"
abbrev pub address : Str → Str → Str → Str
address user host_alias path = user ++ (str "@" ++ (host_alias ++ (str ":" ++ path)))

unfoldable pub matching : Files → Str → Str → Str → Str → List DirEntry → List Str
matching fs user host_alias parent pattern [] = []
matching fs user host_alias parent pattern (e ∷ es) =
    let rest = matching fs user host_alias parent pattern es in
    if fs.name_matches pattern e.name
    then address user host_alias (join parent e.name) ∷ rest
    else rest

unfoldable pub select_entries : Files → Str → Str → Str → Str → ReadDirRes → Res (List Str)
unfolding matching
select_entries fs user host_alias parent pattern m =
    let result = matching fs user host_alias parent pattern m.entries in
    if not m.success
    then err (str "readdir failed for " ++ parent)
    else if is_empty result
    then err (str "no files match pattern")
    else ok result

module _ (fs : Files) (r : Remote) where
  -- `client` is what newClient returns.
  unfoldable pub expand_remote_sources : Res (Caller r) → Str → Str → Str → Res (List Str)
  unfolding select_entries
  expand_remote_sources client user host_alias remote_path =
      if not (has_glob remote_path)
      then ok (address user host_alias remote_path ∷ [])
      else (let (front, pattern) = split_path remote_path in
          let parent = if is_empty front then slash ∷ [] else front in
          do
            cc ← client
            (m, payload) ← (call_read_dir r parent cc).0
            select_entries fs user host_alias parent pattern m)
