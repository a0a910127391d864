-- ===== src/Cp/Walk.antt =====
-- cpDirToHost of cp_dir.go and walkRemoteDir of cp_from_host_dir.go. What they call, with the options
-- of the transfer fixed, is a Machine.
pub mod Trees
use gcp.Base.{ℕ, zero, suc, Bool, Str, str, List, [], ◌∷◌, ◌++◌, if◌then◌else◌, ◌==◌, not}
use gcp.Base.Result.{Res, ok, err}
use gcp.Base.Exec.{Exec, pure, raise, lift, ◌>>=◌, ◌>>◌}
use gcp.Base.FilePath.{join}
use gcp.Transfer.Download.{perm}
use gcp.Message.Types.{DirEntry, StatRes, ReadDirRes}

pub record Machine : Type 1 where
  pub State : Type 0
  -- os.MkdirAll with mode 0755, and os.Chmod.
  pub mkdir_all : Str → Exec State (Unit {0})
  pub chmod : Str → ℕ → Exec State (Unit {0})
  -- Stat and ReadDir of the client.
  pub stat : Str → Exec State StatRes
  pub read_dir : Str → Exec State ReadDirRes
  -- downloadFile, of source and target.
  pub download : Str → Str → Exec State (Unit {0})
  -- Create of size 0 of the client, with a mode, whose response is not looked at.
  pub create_dir : Str → ℕ → Exec State (Unit {0})
  -- uploadFile, of source and target.
  pub upload : Str → Str → Exec State (Unit {0})

module _ (m : Machine) where
  abbrev pub Action : Type 0
  Action = Exec m.State (Unit {0})

  -- The mode of the directory, where the host knows it.
  unfoldable pub copy_mode : Str → StatRes → Action
  copy_mode target sr = if sr.success then m.chmod target (perm sr.mode) else pure tt

  -- The directory itself, and its entries.
  unfoldable pub open_dir : Str → Str → Exec m.State ReadDirRes
  unfolding copy_mode
  open_dir src_dir target = do
    m.mkdir_all target
    sr ← m.stat src_dir
    copy_mode target sr
    m.read_dir src_dir

  unfoldable pub copy_file : DirEntry → Str → Str → Action
  copy_file entry remote_path local_path = do
    m.download remote_path local_path
    if entry.mode == 0 then pure tt else m.chmod local_path (perm entry.mode)

  -- An entry, with the walk of a directory given.
  unfoldable pub walk_entry : (Str → Str → Action) → Str → Str → DirEntry → Action
  unfolding copy_file
  walk_entry walk src_dir target entry =
      let remote_path = join src_dir entry.name in
      let local_path = join target entry.name in
      if entry.is_dir then walk remote_path local_path else copy_file entry remote_path local_path

  unfoldable pub walk_entries : (Str → Str → Action) → Str → Str → List DirEntry → Action
  walk_entries walk src_dir target [] = pure tt
  walk_entries walk src_dir target (entry ∷ entries) = do
    walk_entry walk src_dir target entry
    walk_entries walk src_dir target entries

  unfoldable pub walk_listed : (Str → Str → Action) → Str → Str → ReadDirRes → Action
  walk_listed walk src_dir target res =
      if not res.success
      then raise (str "readdir failed for " ++ src_dir)
      else walk_entries walk src_dir target res.entries

  -- Fuel bounds the depth.
  unfoldable pub walk_remote_dir : ℕ → Str → Str → Action
  unfolding walk_listed walk_entries walk_entry open_dir
  walk_remote_dir zero src_dir target = raise (str "too deep")
  walk_remote_dir (suc fuel) src_dir target =
      open_dir src_dir target >>= walk_listed (walk_remote_dir fuel) src_dir target

  -- What filepath.Walk tells its function of a path: walkErr, or whether it is a directory or a
  -- regular file, and its permissions.
  pub record Info : Type 0 where
    pub is_dir : Bool
    pub is_regular : Bool
    pub mode : ℕ

  -- The function of cpDirToHost, with the path relative to srcDir.
  unfoldable pub send_entry : Str → Str → Res Str → Res Info → Action
  send_entry target path rel (err e) = raise e
  send_entry target path (err e) (ok info) = raise e
  send_entry target path (ok rel) (ok info) =
      let remote_path = join target rel in
      if info.is_dir
      then m.create_dir remote_path info.mode
      else if not info.is_regular
      then pure tt
      else m.upload path remote_path

  -- cpDirToHost, with the calls that Walk makes of it, up to the first error: the path, filepath.Rel
  -- of it, and what is known of it.
  unfoldable pub cp_dir_to_host : Str → List (Str × Res Str × Res Info) → Action
  cp_dir_to_host target [] = pure tt
  cp_dir_to_host target ((path, rel, info) ∷ calls) = do
    send_entry target path rel info
    cp_dir_to_host target calls
