-- ===== src/Cp/Address.antt =====
-- isRemoteAddr and parseRemoteAddr of cp.go. What the function asks of the machine is an Env.
use gcp.Base.{
  ℕ, ◌≡◌, refl, ap, ◌∙◌, ◌⊎◌, inl, inr, Bool, false, not, ◌&&◌, Str, str, [], ◌∷◌, ◌++◌, Option,
  none, some, if◌then◌else◌, arith, is_empty, contains, cut, cut_last, Bool-cases,
}
use gcp.Base.Result.{Res, ok, err}

-- The fields of sshConfigEntry that cp reads.
pub record SshConfigEntry : Type 0 where
  pub host_name : Str
  pub user : Str
  pub identity_file : Str

-- sshConfigLookup, user.Current, net.ParseIP and net.JoinHostPort.
pub record Env : Type 0 where
  pub ssh_config_lookup : Str → Option SshConfigEntry
  pub current_user : Res Str
  pub is_ip : Str → Bool
  pub join_host_port : Str → Str → Str

pub record RemoteAddr : Type 0 where
  pub host_port : Str
  pub user_name : Str
  pub path : Str
  pub identity_file : Str
  pub host_alias : Str

abbrev pub colon : ℕ
colon = 58

abbrev pub at_sign : ℕ
at_sign = 64

unfoldable pub is_remote_addr : Str → Bool
is_remote_addr s = contains s colon

-- The user before the last @, and the rest.
abbrev pub split_user : Str → Option (Str × Str) → Str × Str
split_user s none = ([], s)
split_user s (some parts) = parts

abbrev or_else : Str → Str → Str
or_else a b = if is_empty a then b else a

-- The name of the host, the user and the identity file, with what the SSH configuration says.
unfoldable pub configured : Str → Str → Option SshConfigEntry → Str × Str × Str
configured host user_name none = (host, user_name, [])
configured host user_name (some e) =
    (or_else e.host_name host, or_else user_name e.user, e.identity_file)

-- The user that is asked for, or the one that runs the program.
unfoldable pub resolve_user : Env → Str → Res Str
resolve_user env user_name =
    if not (is_empty user_name) then ok user_name else elim env.current_user [
      | ok name ↦ ok name
      | err e ↦ err (str "cannot determine current user: " ++ e)
    ]

-- Behind the lookup of the host.
unfoldable pub connect : Env → Str → Str → Str → Str × Str × Str → Res RemoteAddr
unfolding resolve_user
connect env port host path (host_name, user_name, identity_file) =
    elim (resolve_user env user_name) [
      | err e ↦ err e
      | ok name ↦
          (if not (env.is_ip host_name) && contains host_name colon
            then err (str "IPv6 not supported")
            else ok (record {
              host_port = env.join_host_port host_name port;
              user_name = name;
              path = path;
              identity_file = identity_file;
              host_alias = host;
            }))
    ]

-- Behind the split at the colon.
unfoldable pub with_host : Env → Str → Str → Option (Str × Str) → Res RemoteAddr
unfolding connect configured
with_host env port user_name none = err (str "invalid remote address: missing colon")
with_host env port user_name (some (host, path)) =
    if is_empty host
    then err (str "invalid remote address: empty host")
    else connect env port host path (configured host user_name (env.ssh_config_lookup host))

unfoldable pub parse_remote_addr : Env → Str → Str → Res RemoteAddr
unfolding with_host
parse_remote_addr env s default_port =
    let (user_name, rest) = split_user s (cut_last at_sign s) in
    with_host env default_port user_name (cut colon rest)

cut-append : (c : ℕ) (a b : Str) → contains a c ≡ false → cut c (a ++ (c ∷ b)) ≡ some (a, b)
unfolding cut contains
cut-append c [] b h = ground arith
cut-append c (x ∷ a) b h = ground (arith, cut-append c a b)

cut_last-none : (c : ℕ) (s : Str) → contains s c ≡ false → cut_last c s ≡ none
unfolding cut_last contains
cut_last-none c [] h = refl
cut_last-none c (x ∷ s) h = ground (arith, cut_last-none c s)

cut_last-append :
    (c : ℕ) (a b : Str) → contains b c ≡ false → cut_last c (a ++ (c ∷ b)) ≡ some (a, b)
unfolding cut_last
cut_last-append c [] b h = ground (arith, cut_last-none c b h)
cut_last-append c (x ∷ a) b h = ground (arith, cut_last-append c a b h)

-- What the lookup says of a host: its name, which is the host as it is written where there is no
-- configuration or the entry names none, and its identity file, if it has one.
abbrev pub Names : Option SshConfigEntry → Str → Str → Str → Type 0
Names none host host_name identity_file = (host_name ≡ host) × (identity_file ≡ [])
Names (some e) host host_name identity_file =
    (identity_file ≡ e.identity_file)
    × (((e.host_name ≡ []) × (host_name ≡ host))
        ⊎ ((is_empty e.host_name ≡ false) × (host_name ≡ e.host_name)))

configured_named :
    (host user_name host_name identity_file : Str) (o : Option SshConfigEntry)
    → is_empty user_name ≡ false
    → Names o host host_name identity_file
    → configured host user_name o ≡ (host_name, user_name, identity_file)
unfolding configured
configured_named host user_name host_name identity_file none u (n, f) = rw (n, f) refl
configured_named host user_name host_name identity_file (some e) u (f, inl (unnamed, n)) =
    rw (f, n) (rw (unnamed, u) refl)
configured_named host user_name host_name identity_file (some e) u (f, inr (named, n)) =
    rw (f, n) (rw (named, u) refl)

connect_named :
    (env : Env) (user_name host host_name identity_file path port : Str)
    → is_empty user_name ≡ false
    → contains host_name colon ≡ false
    → connect env port host path (host_name, user_name, identity_file)
      ≡ ok (record {
        host_port = env.join_host_port host_name port;
        user_name = user_name;
        path = path;
        identity_file = identity_file;
        host_alias = host;
      })
unfolding connect resolve_user
connect_named env user_name host host_name identity_file path port u c =
    elim (Bool-cases (env.is_ip host_name)) [
      | inl k ↦ rw (u, connect) (rw (c, k) refl)
      | inr k ↦ rw (u, connect) (rw (c, k) refl)
    ]

-- An address written as user, @, host, : and path is read as these, if the host is not empty and
-- has no @ or : in it, the path has no @, and the user is not empty: whatever user the SSH
-- configuration has. The connection is to the name that the configuration has for the host, if it
-- has one, and to the host as it is written if not, where that name has no colon; the identity file
-- is the one that is configured for the host, if any.
pub parse_remote_addr-append :
    (env : Env) (user_name host host_name identity_file path port : Str)
    → is_empty user_name ≡ false
    → is_empty host ≡ false
    → contains host colon ≡ false
    → contains (host ++ (colon ∷ path)) at_sign ≡ false
    → Names (env.ssh_config_lookup host) host host_name identity_file
    → contains host_name colon ≡ false
    → parse_remote_addr env (user_name ++ (at_sign ∷ (host ++ (colon ∷ path)))) port
      ≡ ok (record {
        host_port = env.join_host_port host_name port;
        user_name = user_name;
        path = path;
        identity_file = identity_file;
        host_alias = host;
      })
unfolding parse_remote_addr with_host
parse_remote_addr-append env user_name host host_name identity_file path port u h c a l n =
    rw (cut_last-append at_sign user_name (host ++ (colon ∷ path)) a) (
      ap (with_host env port user_name) (cut-append colon host path c)
      ∙ rw h (
          ap (connect env port host path) (
            configured_named host user_name host_name identity_file (env.ssh_config_lookup host) u
              l)
          ∙ connect_named env user_name host host_name identity_file path port u n))
