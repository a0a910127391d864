-- ===== src/Cp/Walk/Trees.antt =====
-- walkRemoteDir of cp_from_host_dir.go on a tree of files.
use gcp.Base.{ℕ, zero, suc, ◌+◌, ◌<◌, ◌≤◌, ◌≡◌, refl, true, false, Str, List, [], ◌∷◌, arith}
use gcp.Base.Result.{ok}
use gcp.Base.Exec.{Exec, pure, ◌>>=◌, ◌>>◌, success_bind, bind_eq}
use gcp.Base.FilePath.{join}
use gcp.Message.Types.{DirEntry, StatRes, ReadDirRes}
use gcp.Cp.Walk.{
  Machine, Action, copy_mode, open_dir, copy_file, walk_entry, walk_entries, walk_listed,
  walk_remote_dir,
}

-- The entries of a directory, in the order in which it is listed, each with what is below it.
mutual
  pub data Tree : Type 0 where
    file : Tree
    dir : Entries → Tree

  pub data Entries : Type 0 where
    end : Entries
    entry : DirEntry → Tree → Entries → Entries

abbrev pub listing : Entries → List DirEntry
listing end = []
listing (entry e t es) = e ∷ listing es

abbrev mutual
  pub dirs_of : Tree → ℕ
  dirs_of file = 0
  dirs_of (dir es) = suc (dirs es)

  pub dirs : Entries → ℕ
  dirs end = 0
  dirs (entry e t es) = dirs_of t + dirs es

module _ (m : Machine) where
  -- The directory is listed as the tree says, whenever it is.
  abbrev pub HostsDir : Entries → Str → Type 0
  HostsDir es path =
      (s : m.State) (res : ReadDirRes)
      → (m.read_dir path s).0 ≡ ok res
      → (res.success ≡ true) × (res.entries ≡ listing es)

  abbrev mutual
    -- The listings of the host are those of the tree.
    pub Hosts : Tree → DirEntry → Str → Type 0
    Hosts file e path = e.is_dir ≡ false
    Hosts (dir es) e path = (e.is_dir ≡ true) × HostsDir es path × HostsBelow es path

    pub HostsBelow : Entries → Str → Type 0
    HostsBelow end path = Unit {0}
    HostsBelow (entry e t es) path = Hosts t e (join path e.name) × HostsBelow es path

  -- A copy of the tree.
  abbrev mutual
    pub copy_below : Entries → Str → Str → Action m
    copy_below end src target = pure tt
    copy_below (entry e t es) src target =
        copy_one t e (join src e.name) (join target e.name) >> copy_below es src target

    pub copy_one : Tree → DirEntry → Str → Str → Action m
    copy_one file e src target = copy_file m e src target
    copy_one (dir es) e src target = open_dir m src target >> copy_below es src target

  abbrev pub copy_dir : Entries → Str → Str → Action m
  copy_dir es src target = open_dir m src target >> copy_below es src target

  open_dir-HostsDir :
      (es : Entries) (src target : Str) (s : m.State) (res : ReadDirRes)
      → HostsDir es src
      → (open_dir m src target s).0 ≡ ok res
      → (res.success ≡ true) × (res.entries ≡ listing es)
  unfolding open_dir
  open_dir-HostsDir es src target s res h done =
      let after : StatRes → Exec m.State ReadDirRes =
        λ sr. copy_mode m target sr >> m.read_dir src in
      let (made, ok_mkdir, done1) =
        success_bind (m.mkdir_all target) (λ _. m.stat src >>= after) s res done in
      let s1 = (m.mkdir_all target s).1 in
      let (sr, ok_stat, done2) = success_bind (m.stat src) after s1 res done1 in
      let s2 = (m.stat src s1).1 in
      let (chmod, ok_chmod, done3) =
        success_bind (copy_mode m target sr) (λ _. m.read_dir src) s2 res done2 in
      h (copy_mode m target sr s2).1 res done3

  -- A walk of the entries copies what is below them, if walks of directories do.
  walk_entries_eq :
      (walk : Str → Str → Action m) (fuel : ℕ) (es : Entries) (src target : Str) (s : m.State)
      → ((sub : Entries) (from to : Str) (t : m.State)
          → dirs sub < fuel
          → HostsDir sub from
          → HostsBelow sub from
          → walk from to t ≡ copy_dir sub from to t)
      → dirs es ≤ fuel
      → HostsBelow es src
      → walk_entries m walk src target (listing es) s ≡ copy_below es src target s
  unfolding walk_entries walk_entry
  walk_entries_eq walk fuel end src target s ih few h = refl
  walk_entries_eq walk fuel (entry e file es) src target s ih few (plain, h) =
      bind_eq (walk_entry m walk src target e)
        (copy_file m e (join src e.name) (join target e.name))
        (λ _. walk_entries m walk src target (listing es)) (λ _. copy_below es src target) s
        (rw (plain, walk_entry) refl)
        (λ a k. walk_entries_eq walk fuel es src target _ ih (omega arith) h)
  walk_entries_eq walk fuel (entry e (dir sub) es) src target s ih few
        ((is_dir, listed, below), h) =
      bind_eq (walk_entry m walk src target e) (copy_dir sub (join src e.name) (join target e.name))
        (λ _. walk_entries m walk src target (listing es)) (λ _. copy_below es src target) s
        (rw (is_dir, walk_entry)
          (ih sub (join src e.name) (join target e.name) s (omega arith) listed below))
        (λ a k. walk_entries_eq walk fuel es src target _ ih (omega arith) h)

  -- On a host whose directories are those of a finite tree, walkRemoteDir ends, within as many
  -- levels as there are directories, and does what a copy of the tree does, directory by directory
  -- and entry by entry, up to the first error.
  pub walk_remote_dir_eq :
      (fuel : ℕ) (es : Entries) (src target : Str) (s : m.State)
      → dirs es < fuel
      → HostsDir es src
      → HostsBelow es src
      → walk_remote_dir m fuel src target s ≡ copy_dir es src target s
  unfolding walk_remote_dir walk_listed
  walk_remote_dir_eq zero es src target s few listed below = absurd (omega arith)
  walk_remote_dir_eq (suc fuel) es src target s few listed below =
      bind_eq (open_dir m src target) (open_dir m src target)
        (walk_listed m (walk_remote_dir m fuel) src target) (λ _. copy_below es src target) s refl
        (λ res k.
          let (good, same) = open_dir-HostsDir es src target s res listed k in
          let s' = (open_dir m src target s).1 in
          rw (good, same, walk_listed)
            (walk_entries_eq (walk_remote_dir m fuel) fuel es src target s'
              (λ sub from to t. walk_remote_dir_eq fuel sub from to t) (omega arith) below))
