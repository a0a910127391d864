-- ===== src/Cp/Route.antt =====
-- copySingle of cp.go: which copy it makes of a source and a destination.
use gcp.Base.{
  ◌≡◌, ◌⊎◌, Bool, true, false, not, ◌&&◌, ◌||◌, Str, str, ◌++◌, if◌then◌else◌, is_empty, ends_with,
}
use gcp.Base.Result.{Res, ok, err}
use gcp.Base.FilePath.{base, slash}
use gcp.Cp.Address.{Env, RemoteAddr, is_remote_addr, parse_remote_addr}

-- What copySingle calls, with the source and the target.
pub data Copy : Type 0 where
  dir_to_host dir_from_host file_to_host file_from_host : Str → Str → Copy
  refused : Str → Copy

-- What Stat says of directories: here, and on the host (isRemoteDir; false on an error).
pub record Dirs : Type 0 where
  pub is_local_dir : Str → Bool
  pub is_remote_dir : Str → Bool

-- The target, completed with the name of the source where it is empty or ends in a slash.
abbrev pub target_for : Str → Str → Str
target_for target src =
    if is_empty target || ends_with target slash then target ++ base src else target

abbrev pub default_port : Str
default_port = str "5031"

unfoldable pub upload_dir : Res RemoteAddr → Str → Copy
upload_dir (err e) src = refused e
upload_dir (ok a) src = dir_to_host src (target_for a.path src)

unfoldable pub upload_file : Res RemoteAddr → Str → Copy
upload_file (err e) src = refused e
upload_file (ok a) src = file_to_host src (target_for a.path src)

unfoldable pub download : Dirs → Bool → Res RemoteAddr → Str → Copy
download d recursive (err e) dst = refused e
download d recursive (ok a) dst =
    if d.is_remote_dir a.path
    then (if not recursive
        then refused (str "source is a directory; use -r to copy directories")
        else dir_from_host a.path (target_for dst a.path))
    else file_from_host a.path (target_for dst a.path)

unfoldable pub copy_single : Env → Dirs → Bool → Str → Str → Copy
unfolding upload_dir upload_file download
copy_single env d recursive src dst =
    let src_remote = is_remote_addr src in
    let dst_remote = is_remote_addr dst in
    if not src_remote && d.is_local_dir src
    then (if not recursive
        then refused (str "source is a directory; use -r to copy directories")
        else if not dst_remote
        then refused (str "downloading directories is not yet supported")
        else upload_dir (parse_remote_addr env dst default_port) src)
    else if src_remote && not dst_remote
    then download d recursive (parse_remote_addr env src default_port) dst
    else if not src_remote && dst_remote
    then upload_file (parse_remote_addr env dst default_port) src
    else refused (str "one path must be local, the other remote")

-- The reasons for which no copy is made: the paths are of the same kind, a directory is copied
-- without the flag for it, or an address is not well formed.
abbrev pub Refused : Env → Dirs → Bool → Str → Str → Type 0
Refused env d recursive src dst =
    (is_remote_addr src ≡ is_remote_addr dst)
    ⊎ ((recursive ≡ false) × (d.is_local_dir src ≡ true))
    ⊎ ((a : RemoteAddr) × (parse_remote_addr env src default_port ≡ ok a)
        × (recursive ≡ false)
        × (d.is_remote_dir a.path ≡ true))
    ⊎ ((e : Str) × (parse_remote_addr env src default_port ≡ err e))
    ⊎ ((e : Str) × (parse_remote_addr env dst default_port ≡ err e))

-- A copy that is allowed: the side that it reads is local or remote as its kind says, the other is
-- not, and a directory is one and is asked for.
abbrev pub IsSound : Env → Dirs → Bool → Str → Str → Copy → Type 0
IsSound env d recursive src dst (dir_to_host from to) =
    (is_remote_addr src ≡ false)
    × (is_remote_addr dst ≡ true)
    × (from ≡ src)
    × (d.is_local_dir from ≡ true)
    × (recursive ≡ true)
IsSound env d recursive src dst (dir_from_host from to) =
    (is_remote_addr src ≡ true)
    × (is_remote_addr dst ≡ false)
    × (d.is_remote_dir from ≡ true)
    × (recursive ≡ true)
IsSound env d recursive src dst (file_to_host from to) =
    (is_remote_addr src ≡ false)
    × (is_remote_addr dst ≡ true)
    × (from ≡ src)
    × (d.is_local_dir from ≡ false)
IsSound env d recursive src dst (file_from_host from to) =
    (is_remote_addr src ≡ true) × (is_remote_addr dst ≡ false) × (d.is_remote_dir from ≡ false)
IsSound env d recursive src dst (refused e) = Refused env d recursive src dst
