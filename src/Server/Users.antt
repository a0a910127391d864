-- ===== src/Server/Users.antt =====
-- auth.go: which key belongs to which account. The SSH library is the record Ssh; the files that
-- the code reads line by line are the record Accounts.
use gcp.Base.{
  ℕ, zero, suc, ◌≡◌, refl, ◌⊎◌, inl, inr, Bool, true, false, ◌&&◌, ◌||◌, Bytes, Str, str, List, [],
  ◌∷◌, ◌++◌, Option, none, some, length, leb, ◌==◌, if◌then◌else◌, equal, equal_iff, has_prefix,
  is_empty, arith, Option-cases, Bool-cases,
}
use gcp.Base.Result.{Res, ok, err, ◌>>=◌}

pub record Ssh : Type 1 where
  pub PublicKey : Type 0
  pub Signature : Type 0
  pub parse_public_key : Bytes → Res PublicKey
  pub unmarshal : Bytes → Res Signature
  pub verify : PublicKey → Bytes → Signature → Res (Unit {0})
  pub marshal : PublicKey → Bytes
  pub parse_authorized_key : Str → Option PublicKey
  pub marshal_authorized_key : PublicKey → Bytes
  pub sha256 : Bytes → Bytes

pub record Accounts : Type 0 where
  -- The lines of /etc/passwd.
  pub passwd : Res (List Str)
  -- The lines of .ssh/authorized_keys below a home directory, where that file can be opened.
  pub authorized_keys : Str → Option (List Str)
  -- user.Lookup
  pub lookup_user : Str → Res Str

-- strings.Split at a one-byte separator.
unfoldable pub split : ℕ → Str → List Str
split c [] = [] ∷ []
split c (x ∷ xs) = elim (split c xs) [
  | [] ↦ []
  | part ∷ parts ↦ (if x == c then [] ∷ part ∷ parts else (x ∷ part) ∷ parts)
]

abbrev is_space : ℕ → Bool
is_space c = c == 32 || (leb 9 c && leb c 13)

unfoldable pub trim_left : Str → Str
trim_left [] = []
trim_left (x ∷ xs) = if is_space x then trim_left xs else x ∷ xs

unfoldable pub trim_right : Str → Str
trim_right [] = []
trim_right (x ∷ xs) =
    let rest = trim_right xs in if is_empty rest && is_space x then [] else x ∷ rest

-- strings.TrimSpace on ASCII.
unfoldable pub trim_space : Str → Str
unfolding trim_left trim_right
trim_space s = trim_right (trim_left s)

abbrev get_part : List Str → ℕ → Str
get_part [] i = []
get_part (p ∷ ps) zero = p
get_part (p ∷ ps) (suc i) = get_part ps i

pub record PasswdEntry : Type 0 where
  pub name : Str
  pub home : Str

-- The lines of /etc/passwd with seven fields at least.
unfoldable pub passwd_entries : List Str → List PasswdEntry
unfolding split
passwd_entries [] = []
passwd_entries (line ∷ lines) =
    let parts = split b':' line in
    let entries = passwd_entries lines in
    if leb 7 (length parts)
    then record { name = get_part parts 0; home = get_part parts 5 } ∷ entries
    else entries

unfoldable pub find_entry : Str → List PasswdEntry → Option Str
find_entry name [] = none
find_entry name (e ∷ es) = if equal e.name name then some e.home else find_entry name es

unfoldable pub lookup_home : Accounts → Str → Res Str
unfolding passwd_entries find_entry
lookup_home a username = elim a.passwd [
  | ok lines ↦ elim (find_entry username (passwd_entries lines)) [
    | some home ↦ ok home
    | none ↦ a.lookup_user username
  ]
  | _ ↦ a.lookup_user username
]

module _ (ssh : Ssh) where
  open ssh use {PublicKey, parse_public_key, unmarshal, verify, marshal, parse_authorized_key}

  unfoldable pub verify_ssh_signature : Bytes → Bytes → Bytes → Res PublicKey
  verify_ssh_signature pub_key_bytes challenge sig_bytes = do
    pub_key ← parse_public_key pub_key_bytes
    sig ← unmarshal sig_bytes
    done ← verify pub_key challenge sig
    ok pub_key

  -- The key of one line, if it holds one: neither empty nor a comment.
  unfoldable pub line_key : Str → Option PublicKey
  unfolding trim_space
  line_key text =
      let line = trim_space text in
      if is_empty line || has_prefix line (str "#") then none else parse_authorized_key line

  -- The loop over the lines of an authorized_keys file.
  unfoldable pub holds_key : Bytes → List Str → Bool
  holds_key target [] = false
  holds_key target (line ∷ lines) = elim (line_key line) [
    | none ↦ holds_key target lines
    | some key ↦ equal (marshal key) target || holds_key target lines
  ]

  -- The loop over the accounts.
  unfoldable pub find_in_entries : Accounts → Bytes → List PasswdEntry → Res (Str × Str)
  find_in_entries a target [] = err (str "no matching user found for the provided SSH key")
  find_in_entries a target (e ∷ es) =
      let rest = find_in_entries a target es in
      elim (a.authorized_keys e.home) [
        | none ↦ rest
        | some lines ↦ (if holds_key target lines then ok (e.name, e.home) else rest)
      ]

  unfoldable pub find_hint_user : Accounts → Bytes → Str → Res Str → Res (Str × Str)
  find_hint_user a target hint (ok home) = elim (a.authorized_keys home) [
    | none ↦ err (str "no authorized_keys for user")
    | some lines ↦
        (if holds_key target lines
          then ok (hint, home)
          else err (str "no matching key in authorized_keys"))
  ]
  find_hint_user a target hint (err e) = err (str "hint user not found: " ++ e)

  unfoldable pub scan_passwd : Accounts → Bytes → Res (List Str) → Res (Str × Str)
  scan_passwd a target (ok lines) = find_in_entries a target (passwd_entries lines)
  scan_passwd a target (err e) = err (str "open /etc/passwd: " ++ e)

  unfoldable pub find_user_by_pub_key : Accounts → PublicKey → Str → Res (Str × Str)
  find_user_by_pub_key a key [] = scan_passwd a (marshal key) a.passwd
  find_user_by_pub_key a key (x ∷ hint) =
      find_hint_user a (marshal key) (x ∷ hint) (lookup_home a (x ∷ hint))

  unfoldable pub derive_encryption_key : PublicKey → Bytes
  derive_encryption_key key = ssh.sha256 (ssh.marshal_authorized_key key)

  -- A line of the file holds a key that marshals to `target`.
  abbrev pub Listed : Bytes → List Str → Type 0
  Listed target [] = ⊥
  Listed target (line ∷ lines) =
      ((key : PublicKey) × (line_key line ≡ some key) × (marshal key ≡ target))
      ⊎ Listed target lines

  holds_key-Listed :
      (target : Bytes) (lines : List Str) → holds_key target lines ≡ true → Listed target lines
  unfolding holds_key
  holds_key-Listed target [] h = cc
  holds_key-Listed target (line ∷ lines) h = elim (Option-cases (line_key line)) [
    | inl e ↦ inr (holds_key-Listed target lines (ground arith))
    | inr (key, e) ↦ elim (Bool-cases (equal (marshal key) target)) [
      | inl k ↦ inl (key, e, (equal_iff (marshal key) target).0 k)
      | inr k ↦ inr (holds_key-Listed target lines (ground arith))
    ]
  ]

  -- The account below `home` accepts the key.
  abbrev pub Accepts : Accounts → Bytes → Str → Type 0
  Accepts a target home =
      (lines : List Str) × (a.authorized_keys home ≡ some lines) × Listed target lines

  find_in_entries-Accepts :
      (a : Accounts) (target : Bytes) (es : List PasswdEntry) (user home : Str)
      → find_in_entries a target es ≡ ok (user, home)
      → Accepts a target home
  unfolding find_in_entries
  find_in_entries-Accepts a target [] user home h = cc
  find_in_entries-Accepts a target (e ∷ es) user home h =
      elim (Option-cases (a.authorized_keys e.home)) [
        | inl k ↦ find_in_entries-Accepts a target es user home (ground arith)
        | inr (lines, k) ↦ elim (Bool-cases (holds_key target lines)) [
          | inl t ↦
              let at : e.home ≡ home = ground arith in
              (lines, rw (← at) k, holds_key-Listed target lines t)
          | inr f ↦ find_in_entries-Accepts a target es user home (ground arith)
        ]
      ]

  find_hint_user-Accepts :
      (a : Accounts) (target : Bytes) (hint : Str) (r : Res Str) (user home : Str)
      → find_hint_user a target hint r ≡ ok (user, home)
      → Accepts a target home × (user ≡ hint)
  unfolding find_hint_user
  find_hint_user-Accepts a target hint (ok h') user home h =
      elim (Option-cases (a.authorized_keys h')) [
        | inl k ↦ absurd (ground arith)
        | inr (lines, k) ↦ elim (Bool-cases (holds_key target lines)) [
          | inl t ↦
              let at : h' ≡ home = ground arith in
              ((lines, rw (← at) k, holds_key-Listed target lines t), ground arith)
          | inr f ↦ absurd (ground arith)
        ]
      ]
  find_hint_user-Accepts a target hint (err e) user home h = cc

  find_scan :
      (a : Accounts) (key : PublicKey) (user home : Str) (r : Res (List Str))
      → scan_passwd a (marshal key) r ≡ ok (user, home)
      → Accepts a (marshal key) home
  unfolding scan_passwd
  find_scan a key user home (ok lines) h =
      find_in_entries-Accepts a (marshal key) (passwd_entries lines) user home h
  find_scan a key user home (err e) h = cc

  -- Whoever findUserByPubKey answers with has the key in the authorized_keys below the home that it
  -- answers with, and is the user that the client named, if it named one.
  pub find_user_by_pub_key_sound :
      (a : Accounts) (key : PublicKey) (hint user home : Str)
      → find_user_by_pub_key a key hint ≡ ok (user, home)
      → Accepts a (marshal key) home × ((hint ≡ []) ⊎ (user ≡ hint))
  unfolding find_user_by_pub_key
  find_user_by_pub_key_sound a key [] user home h = (find_scan a key user home a.passwd h, inl refl)
  find_user_by_pub_key_sound a key (x ∷ hint) user home h =
      let (acc, same) =
        find_hint_user-Accepts a (marshal key) (x ∷ hint) (lookup_home a (x ∷ hint)) user home h in
      (acc, inr same)
