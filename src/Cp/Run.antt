-- ===== src/Cp/Run.antt =====
-- The Action of cpCmd in cp.go. What it calls is a Machine; of the flags only those are here that it
-- reads itself, the others go to what it calls.
use gcp.Base.{
  ℕ, ◌≡◌, refl, ap, inl, inr, Bool, true, false, not, ◌&&◌, Str, str, List, [], ◌∷◌, ◌++◌, Option,
  none, some, if◌then◌else◌, is_empty, equal, contains, cut, cut_last, ltb, length, get_or,
  Bool-cases,
}
use gcp.Base.Result.{Res, ok, err, ◌>>=◌, Res-cases}
use gcp.Base.FilePath.{base, join, dot, all_but_last, last_element}
use gcp.Cp.Address.{
  Env, RemoteAddr, SshConfigEntry, is_remote_addr, parse_remote_addr, with_host, connect,
  configured, resolve_user, split_user, at_sign, colon,
}
use gcp.Message.Types.{compression_none, compression_gzip}
use gcp.Client.Remote.{Remote, Caller, call_stat}
use gcp.Cp.Glob.{Files, expand_local_source}

pub record Machine : Type 1 where
  pub State : Type 0
  pub env : Env
  pub files : Files
  -- expandRemoteSources, of host and port, user, alias and path.
  pub expand_remote : Str → Str → Str → Str → Res (List Str)
  pub print : Str → State → State
  -- newClient, of host and port, user and identity file; Close.
  pub open_client : Str → Str → Str → State → Res (Unit {0}) × State
  pub close_client : State → State
  -- copySingle with the client.
  pub copy : Str → Str → State → Res (Unit {0}) × State

pub record Flags : Type 0 where
  pub port : Str
  pub identity_file : Str
  pub recursive : Bool
  pub dry_run : Bool

unfoldable pub parse_compression_flag : Str → ℕ
parse_compression_flag s = if equal s (str "gzip") then compression_gzip else compression_none

-- isRemoteDir on the answer of Stat.
unfoldable pub is_remote_dir : (r : Remote) → Str → Caller r → Res Bool
is_remote_dir r path cc = do
  (st, payload) ← (call_stat r path cc).0
  if not st.success
      then err (str "stat failed for " ++ (path ++ (str ": " ++ st.error)))
      else ok st.is_dir

abbrev same : Bool → Bool → Bool
same true b = b
same false b = not b

unfoldable pub all_of_kind : Bool → List Str → Bool
all_of_kind remote [] = true
all_of_kind remote (s ∷ ss) = same (is_remote_addr s) remote && all_of_kind remote ss

-- The sources and the destination, checked.
unfoldable pub check_args : List Str → Res (List Str × Str)
check_args [] = err (str "usage: gcp cp <source>... <destination>")
check_args (x ∷ []) = err (str "usage: gcp cp <source>... <destination>")
check_args (x ∷ (y ∷ rest)) =
    let sources = all_but_last (x ∷ y ∷ rest) in
    let dst = last_element (x ∷ y ∷ rest) in
    if not (all_of_kind (is_remote_addr x) sources)
    then err (str "cannot mix local and remote sources")
    else if same (is_remote_addr x) (is_remote_addr dst)
    then err (str "one path must be local, the other remote")
    else ok (sources, dst)

-- The result of parseRemoteAddr whose error is dropped.
abbrev pub zero_addr : RemoteAddr
zero_addr = record {
  host_port = [];
  user_name = [];
  path = [];
  identity_file = [];
  host_alias = [];
}

abbrev pub or_zero : Res RemoteAddr → RemoteAddr
or_zero (ok a) = a
or_zero (err e) = zero_addr

-- The target of a source. With several remote ones `rPath` is the fourth result of
-- parseRemoteAddr.
unfoldable pub target_of : Env → Str → Bool → Bool → Str → Str → Str
target_of env port multiple src_remote dst src =
    if not multiple
    then dst
    else if src_remote
    then (let r_path = (or_zero (parse_remote_addr env src port)).identity_file in
        join dst (base r_path))
    else join dst (base src)

module _ (m : Machine) where
  unfoldable pub expand_source : Flags → Bool → Str → Res (List Str)
  expand_source flags true s = do
    a ← parse_remote_addr m.env s flags.port
    m.expand_remote a.host_port a.user_name a.host_alias a.path
  expand_source flags false s = expand_local_source m.files s flags.recursive

  unfoldable pub expand_sources : Flags → Bool → List Str → Res (List Str)
  unfolding expand_source
  expand_sources flags src_remote [] = ok []
  expand_sources flags src_remote (s ∷ ss) = do
    matches ← expand_source flags src_remote s
    rest ← expand_sources flags src_remote ss
    ok (matches ++ rest)

  unfoldable pub print_plan : Bool → Str → List Str → m.State → m.State
  print_plan src_remote dst [] s = s
  print_plan src_remote dst (src ∷ srcs) s =
      let verb = if src_remote then str "dry-run: download " else str "dry-run: upload " in
      print_plan src_remote dst srcs (m.print (verb ++ (src ++ (str " to " ++ dst))) s)

  -- The copies, up to the first that fails.
  unfoldable pub copy_all : (Str → Str) → List Str → m.State → Res (Unit {0}) × m.State
  copy_all target [] s = (ok tt, s)
  copy_all target (src ∷ srcs) s =
      let (r, s') = m.copy src (target src) s in
      elim r [ ok done ↦ copy_all target srcs s' | err e ↦ (err e, s') ]

  -- The address that the client is for.
  unfoldable pub peer : Flags → Bool → List Str → Str → RemoteAddr
  peer flags true sources dst = or_zero (parse_remote_addr m.env (get_or sources 0 []) flags.port)
  peer flags false sources dst = or_zero (parse_remote_addr m.env dst flags.port)

  unfoldable pub transfer :
      Flags → Bool → List Str → Str → List Str → m.State → Res (Unit {0}) × m.State
  unfolding peer copy_all
  transfer flags src_remote sources dst expanded s =
      let a = peer flags src_remote sources dst in
      let identity_file =
        if is_empty flags.identity_file then a.identity_file else flags.identity_file in
      let (r, s1) = m.open_client a.host_port a.user_name identity_file s in
      elim r [
        | err e ↦ (err (str "connect to " ++ (a.host_port ++ (str ": " ++ e))), s1)
        | ok client ↦
            (let target = target_of m.env flags.port (ltb 1 (length sources)) src_remote dst in
              let (r', s2) = copy_all target expanded s1 in (r', m.close_client s2))
      ]

  unfoldable pub run_expanded :
      Flags → Bool → List Str → Str → List Str → m.State → Res (Unit {0}) × m.State
  unfolding transfer print_plan
  run_expanded flags src_remote sources dst expanded s =
      if is_empty expanded
      then (err (str "no files matched"), s)
      else if flags.dry_run
      then (ok tt, print_plan src_remote dst expanded s)
      else transfer flags src_remote sources dst expanded s

  unfoldable pub run : Flags → List Str → m.State → Res (Unit {0}) × m.State
  unfolding run_expanded expand_sources
  run flags args s = elim (check_args args) [
    | err e ↦ (err e, s)
    | ok (sources, dst) ↦
        (let src_remote = is_remote_addr (get_or sources 0 []) in
          elim (expand_sources flags src_remote sources) [
            | err e ↦ (err e, s)
            | ok expanded ↦ run_expanded flags src_remote sources dst expanded s
          ])
  ]

-- The SSH configuration names no identity file.
abbrev pub NoIdentity : Env → Type 0
NoIdentity env =
    (host : Str) (e : SshConfigEntry) → env.ssh_config_lookup host ≡ some e → e.identity_file ≡ []

configured-identity :
    (host user : Str) (o : Option SshConfigEntry)
    → ((e : SshConfigEntry) → o ≡ some e → e.identity_file ≡ [])
    → (configured host user o).2 ≡ []
unfolding configured
configured-identity host user none h = refl
configured-identity host user (some e) h = h e refl

connect-identity :
    (env : Env) (port host path : Str) (c : Str × Str × Str)
    → c.2 ≡ []
    → (or_zero (connect env port host path c)).identity_file ≡ []
unfolding connect
connect-identity env port host path (host_name, user_name, identity_file) h =
    elim (Res-cases (resolve_user env user_name)) [
      | inr (text, e) ↦ rw (e, connect) refl
      | inl (name, e) ↦ elim (Bool-cases (not (env.is_ip host_name) && contains host_name colon)) [
        | inl k ↦ rw (e, k, connect) refl
        | inr k ↦ rw (e, k, connect) h
      ]
    ]

with_host-identity :
    (env : Env) (port user : Str) (o : Option (Str × Str))
    → NoIdentity env
    → (or_zero (with_host env port user o)).identity_file ≡ []
unfolding with_host
with_host-identity env port user none h = refl
with_host-identity env port user (some (host, path)) h = elim (Bool-cases (is_empty host)) [
  | inl k ↦ rw k refl
  | inr k ↦ rw k (
      connect-identity env port host path (configured host user (env.ssh_config_lookup host))
        (configured-identity host user (env.ssh_config_lookup host) (h host)))
]

-- With several remote sources and an SSH configuration without identity files, every source has
-- the same target, the destination itself: each copy replaces the one before.
pub target_of_several :
    (env : Env) (port dst src : Str)
    → NoIdentity env
    → target_of env port true true dst src ≡ join dst dot
unfolding target_of parse_remote_addr base
target_of_several env port dst src h =
    let (user, rest) = split_user src (cut_last at_sign src) in
    ap (λ p. join dst (base p)) (with_host-identity env port user (cut colon rest) h)
