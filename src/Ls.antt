-- ===== src/Ls.antt =====
-- ls.go: the listing of a remote path.
pub mod Order
pub mod Listing
mod Tests
use gcp.Base.{
  ℕ, ℤ, pos, int_eq, Bool, true, false, not, Str, str, List, [], ◌∷◌, ◌++◌, if◌then◌else◌, ltb,
  ◌==◌, replicate,
}
use gcp.Base.Result.{Res, ok, err, ◌>>=◌}
use gcp.Message.Types.{DirEntry, StatRes, ReadDirRes}
use gcp.Client.Remote.{Remote, Caller, call_stat, call_read_dir}

-- fs.FileMode's String, the two formats of a size, time.Unix with its Format, and sort.Slice.
pub record Format : Type 0 where
  pub mode_string : ℕ → Str
  pub human_size : ℤ → Str
  pub plain_size : ℤ → Str
  pub time : ℤ → Str
  pub sort_slice : (DirEntry → DirEntry → Bool) → List DirEntry → List DirEntry

unfoldable pub size_string : Format → ℤ → Bool → Str
size_string f size human = if human then f.human_size size else f.plain_size size

unfoldable pub time_string : Format → ℤ → Str
time_string f unix = if int_eq unix (pos 0) then replicate 16 32 else f.time unix

abbrev gap : Str
gap = 32 ∷ 32 ∷ []

-- The line of printEntry.
unfoldable pub print_entry : Format → DirEntry → Bool → Bool → Str
unfolding size_string time_string
print_entry f entry long human =
    let name = if entry.is_dir then entry.name ++ str "/" else entry.name in
    if long
    then f.mode_string entry.mode
      ++ (gap
          ++ (size_string f entry.size human
              ++ (gap ++ (time_string f entry.mod_time ++ (gap ++ name)))))
    else name

-- < on strings.
unfoldable pub less : Str → Str → Bool
less s [] = false
less [] (y ∷ ys) = true
less (x ∷ xs) (y ∷ ys) = let rest = less xs ys in if x == y then rest else ltb x y

-- What sort.Slice is given.
abbrev pub before : DirEntry → DirEntry → Bool
before a b = less a.name b.name

unfoldable pub list_entries : Format → Bool → Bool → List DirEntry → List Str
unfolding print_entry
list_entries f long human [] = []
list_entries f long human (e ∷ es) = print_entry f e long human ∷ list_entries f long human es

-- The entry that stands for a path that is no directory; its time is not asked for.
abbrev pub file_entry : Str → StatRes → DirEntry
file_entry path st = record {
  is_dir = false;
  mode = st.mode;
  name = path;
  size = st.size;
  mod_time = pos 0;
}

unfoldable pub list_dir : Format → Bool → Bool → Str → ReadDirRes → Res (List Str)
unfolding list_entries
list_dir f long human path res =
    if not res.success
    then err (str "readdir failed for " ++ (path ++ (str ": " ++ res.error)))
    else ok (list_entries f long human (f.sort_slice before res.entries))

module _ (f : Format) (r : Remote) where
  unfoldable pub list_found : Bool → Bool → Str → StatRes → Caller r → Res (List Str)
  unfolding list_dir
  list_found long human path st cc =
      if not st.success
      then err (str "stat failed for " ++ (path ++ (str ": " ++ st.error)))
      else if st.is_dir
      then (do (res, payload) ← (call_read_dir r path cc).0; list_dir f long human path res)
      else ok (print_entry f (file_entry path st) long human ∷ [])

  -- The Action of lsCmd behind its arguments; `client` is what newClient returns. The lines that it
  -- prints.
  unfoldable pub list_path : Bool → Bool → Str → Res (Caller r) → Res (List Str)
  unfolding list_found
  list_path long human path client = do
    cc ← client
    (st, payload) ← (call_stat r path cc).0
    list_found long human path st (call_stat r path cc).1
