-- ===== src/Cp/SshConfig.antt =====
-- sshConfigLookup of auth.go. What it asks of the machine is a Home: the home directory, the file
-- as ssh_config decodes it, and os.ExpandEnv.
use gcp.Base.{not, Str, str, [], drop, Option, none, some, is_empty, has_prefix, if◌then◌else◌}
use gcp.Base.Result.{Res, ok, err}
use gcp.Base.FilePath.{join, is_abs}
use gcp.Cp.Address.{SshConfigEntry}

-- The entry of a host under a name; an error of Get is `none`.
pub record Home : Type 0 where
  pub user_home_dir : Res Str
  pub read_config : Str → Res (Str → Str → Option Str)
  pub expand_env : Str → Str

abbrev pub value : Option Str → Str
value none = []
value (some v) = v

-- The identity file, behind ~ and relative to ~/.ssh.
unfoldable pub expand_identity : Home → Str → Str → Str
expand_identity h home v =
    let expanded = h.expand_env v in
    if has_prefix expanded (str "~/")
    then join home (drop 2 expanded)
    else if not (is_abs expanded)
    then join (join home (str ".ssh")) expanded
    else expanded

unfoldable pub entry_of : Home → Str → (Str → Str → Option Str) → Str → SshConfigEntry
unfolding expand_identity
entry_of h home get host =
    let identity_file = value (get host (str "IdentityFile")) in
    record {
      host_name = value (get host (str "HostName"));
      user = value (get host (str "User"));
      identity_file = if is_empty identity_file then [] else expand_identity h home identity_file;
    }

unfoldable pub ssh_config_lookup : Home → Str → Option SshConfigEntry
unfolding entry_of
ssh_config_lookup h host = elim h.user_home_dir [
  | err e ↦ none
  | ok home ↦ elim (h.read_config (join (join home (str ".ssh")) (str "config"))) [
    | err e ↦ none
    | ok get ↦ some (entry_of h home get host)
  ]
]
