-- ===== src/Server/Auth/Safety.antt =====
-- handleAuth of serve.go: what holds of the sessions and connections of every server.
use gcp.Base.{
  ℕ, ◌≡◌, refl, subst, ap, ◌∙◌, inl, inr, ◌⊎◌, Bytes, Str, List, [], ◌∷◌, Option, none, some, ◌==◌,
  is_empty, arith, Option-cases, Bool-cases, equal, true, if◌then◌else◌,
}
use gcp.Base.Result.{Res, ok, err, Res-cases}
use gcp.Base.Dict.{lookup, lookup-insert}
use gcp.Message.Types.{AuthReq}
use gcp.Server.Users.{
  Ssh, verify_ssh_signature, find_user_by_pub_key, derive_encryption_key, Accepts,
  find_user_by_pub_key_sound,
}
use gcp.Server.Auth.{
  SessionInfo, get_session, put_session, auth_pending, auth_ok, ConnAuth, AuthServer, get_conn_auth,
  set_conn_auth, authenticated, pending, token_auth, issue_challenge, check_signature, open_session,
  signature_auth, handle_auth, new_auth_server, AuthEvent, run_auth,
}

-- The requests of a run behind those that came before it, the last one first.
abbrev pub history : List AuthEvent → List AuthEvent → List AuthEvent
history past [] = past
history past (e ∷ es) = history (e ∷ past) es

-- A request of the connection, one with neither signature nor token, got the challenge.
abbrev pub Issued : ℕ → Bytes → List AuthEvent → Type 0
Issued conn challenge [] = ⊥
Issued conn challenge (e ∷ past) =
    ((e.conn ≡ conn)
      × (is_empty e.req.signature ≡ true)
      × (is_empty e.req.token ≡ true)
      × (e.rand_challenge ≡ ok challenge))
    ⊎ Issued conn challenge past

-- A request with a signature, by a key that the account below `home` lists at that time, of a
-- challenge that its connection got before.
pub record SignedAt (ssh : Ssh) (past : List AuthEvent) (e : AuthEvent) (info : SessionInfo)
    : Type 0 where
  pub key : ssh.PublicKey
  pub signature : ssh.Signature
  pub challenge : Bytes
  pub issued : Issued e.conn challenge past
  pub parsed : ssh.parse_public_key e.req.pub_key ≡ ok key
  pub unmarshalled : ssh.unmarshal e.req.signature ≡ ok signature
  pub verified : ssh.verify key challenge signature ≡ ok tt
  pub accepted : Accepts ssh e.accounts (ssh.marshal key) info.home
  pub named : (e.req.user ≡ []) ⊎ (info.user ≡ e.req.user)
  pub derived : info.encryption_key ≡ some (derive_encryption_key ssh key)

-- One of the requests was signed so.
abbrev pub Earned : Ssh → SessionInfo → List AuthEvent → Type 0
Earned ssh info [] = ⊥
Earned ssh info (e ∷ past) = SignedAt ssh past e info ⊎ Earned ssh info past

-- What a connection is authenticated as.
abbrev pub info_of : ConnAuth → SessionInfo
info_of ca = record { user = ca.user; home = ca.home; encryption_key = ca.encryption_key }

answered_none :
    (info : SessionInfo) (challenge : Bytes)
    → pending (some (authenticated info)) ≡ some challenge
    → ⊥
unfolding pending
answered_none info challenge e = cc

module _ (ssh : Ssh) where
  pub record Inv (past : List AuthEvent) (s : AuthServer) : Type 0 where
    pub sessions_earned :
        (token : Str) (info : SessionInfo)
        → get_session token s.sessions ≡ some info
        → Earned ssh info past
    pub conns_earned :
        (conn : ℕ) (ca : ConnAuth)
        → s.conns conn ≡ some ca
        → ca.state ≡ auth_ok
        → Earned ssh (info_of ca) past
    pub conns_issued :
        (conn : ℕ) (challenge : Bytes)
        → pending (s.conns conn) ≡ some challenge
        → Issued conn challenge past

  -- A request that changes nothing.
  Inv-later :
      (past : List AuthEvent) (e : AuthEvent) (s : AuthServer) → Inv past s → Inv (e ∷ past) s
  Inv-later past e s v = record {
    sessions_earned = λ t i k. inr (v.sessions_earned t i k);
    conns_earned = λ c ca k l. inr (v.conns_earned c ca k l);
    conns_issued = λ c ch k. inr (v.conns_issued c ch k);
  }

  set_conn_auth-Inv :
      (past : List AuthEvent) (s : AuthServer) (conn : ℕ) (ca : ConnAuth)
      → Inv past s
      → (ca.state ≡ auth_ok → Earned ssh (info_of ca) past)
      → ((challenge : Bytes) → pending (some ca) ≡ some challenge → Issued conn challenge past)
      → Inv past (set_conn_auth conn ca s)
  unfolding set_conn_auth
  set_conn_auth-Inv past s conn ca v h g = record {
    sessions_earned = v.sessions_earned;
    conns_earned = λ c ca' e k. elim (Bool-cases (c == conn)) [
      | inl t ↦ let same : ca ≡ ca' = ground arith in rw (← same) (h (rw same k))
      | inr f ↦ v.conns_earned c ca' (ground arith) k
    ];
    conns_issued = λ c ch e. elim (Bool-cases (c == conn)) [
      | inl t ↦
          let same : conn ≡ c = ground arith in
          subst (λ n. Issued n ch past) same
            (g ch (subst (λ b. pending (if b then some ca else s.conns c) ≡ some ch) t e))
      | inr f ↦
          v.conns_issued c ch
            (subst (λ b. pending (if b then some ca else s.conns c) ≡ some ch) f e)
    ];
  }

  put_session-Inv :
      (past : List AuthEvent) (s : AuthServer) (token : Str) (info : SessionInfo)
      → Inv past s
      → Earned ssh info past
      → Inv past (record s { sessions = put_session token info s.sessions })
  unfolding put_session get_session
  put_session-Inv past s token info v h = record {
    sessions_earned = λ t i e. elim (Bool-cases (equal token t)) [
      | inl k ↦
          let same : info ≡ i = ground (arith, lookup-insert token t info s.sessions) in
          rw (← same) h
      | inr k ↦ v.sessions_earned t i (ground (arith, lookup-insert token t info s.sessions))
    ];
    conns_earned = v.conns_earned;
    conns_issued = v.conns_issued;
  }

  verify_ssh_signature_sound :
      (pub_key challenge sig_bytes : Bytes) (key : ssh.PublicKey)
      → verify_ssh_signature ssh pub_key challenge sig_bytes ≡ ok key
      → (ssh.parse_public_key pub_key ≡ ok key)
        × ((sig : ssh.Signature) × (ssh.unmarshal sig_bytes ≡ ok sig)
            × (ssh.verify key challenge sig ≡ ok tt))
  unfolding verify_ssh_signature
  verify_ssh_signature_sound pub_key challenge sig_bytes key h =
      elim (Res-cases (ssh.parse_public_key pub_key)) [
        | inr (text, e) ↦ absurd (ground arith)
        | inl (parsed, e) ↦ elim (Res-cases (ssh.unmarshal sig_bytes)) [
          | inr (text, k) ↦ absurd (ground arith)
          | inl (sig, k) ↦ elim (Res-cases (ssh.verify parsed challenge sig)) [
            | inr (text, l) ↦ absurd (ground arith)
            | inl (done, l) ↦
                let same : parsed ≡ key = ground arith in (ground arith, (sig, k, rw (← same) l))
          ]
        ]
      ]

  check_signature_sound :
      (e : AuthEvent) (challenge : Bytes) (key : ssh.PublicKey) (user home : Str)
      → check_signature ssh e.accounts e.req challenge ≡ ok (key, user, home)
      → (verify_ssh_signature ssh e.req.pub_key challenge e.req.signature ≡ ok key)
        × (find_user_by_pub_key ssh e.accounts key e.req.user ≡ ok (user, home))
  unfolding check_signature
  check_signature_sound e challenge key user home h = (ground arith, ground arith)

  token_auth-Inv :
      (past : List AuthEvent) (s : AuthServer) (conn : ℕ) (req : AuthReq)
      → Inv past s
      → Inv past (token_auth s conn req).0
  unfolding token_auth
  token_auth-Inv past s conn req v = elim (Option-cases (get_session req.token s.sessions)) [
    | inl e ↦ rw (e, token_auth) v
    | inr (info, e) ↦
        rw (e, token_auth)
          (set_conn_auth-Inv past s conn (authenticated info) v
            (λ _. v.sessions_earned req.token info e) (λ ch k. unfold pending in cc))
  ]

  issue_challenge-Inv :
      (past : List AuthEvent) (s : AuthServer) (e : AuthEvent) (rand_challenge : Res Bytes)
      → is_empty e.req.signature ≡ true
      → is_empty e.req.token ≡ true
      → e.rand_challenge ≡ rand_challenge
      → Inv past s
      → Inv (e ∷ past) (issue_challenge rand_challenge s e.conn e.req).0
  unfolding issue_challenge
  issue_challenge-Inv past s e (err text) unsigned no_token same v =
      ground (arith, Inv-later past e s v)
  issue_challenge-Inv past s e (ok challenge) unsigned no_token same v =
      elim (Bool-cases (is_empty e.req.pub_key)) [
        | inl k ↦ rw (k, issue_challenge) (Inv-later past e s v)
        | inr k ↦
            rw (k, issue_challenge)
              (set_conn_auth-Inv (e ∷ past) s e.conn _ (Inv-later past e s v)
                (λ (x : auth_pending ≡ auth_ok). cc)
                (λ ch m.
                  let got : challenge ≡ ch = unfold pending in ground arith in
                  inl (refl, unsigned, no_token, same ∙ ap ok got)))
      ]

  signature_auth-Inv :
      (past : List AuthEvent) (s : AuthServer) (e : AuthEvent) (challenge : Option Bytes)
      → ((ch : Bytes) → challenge ≡ some ch → Issued e.conn ch past)
      → Inv past s
      → Inv (e ∷ past) (signature_auth ssh e.accounts e.rand_token s e.conn e.req challenge).0
  unfolding signature_auth open_session
  signature_auth-Inv past s e none issued v = Inv-later past e s v
  signature_auth-Inv past s e (some challenge) issued v =
      elim (Res-cases (check_signature ssh e.accounts e.req challenge)) [
        | inr (text, k) ↦ rw (k, open_session) (Inv-later past e s v)
        | inl ((key, user, home), k) ↦
            let (checked, found) = check_signature_sound e challenge key user home k in
            let (parsed, (signature, unmarshalled, verified)) =
              verify_ssh_signature_sound e.req.pub_key challenge e.req.signature key checked in
            let (accepted, named) =
              find_user_by_pub_key_sound ssh e.accounts key e.req.user user home found in
            let info : SessionInfo = record {
              user = user;
              home = home;
              encryption_key = some (derive_encryption_key ssh key);
            } in
            let earned : Earned ssh info (e ∷ past) = inl (record {
              key = key;
              signature = signature;
              challenge = challenge;
              issued = issued challenge refl;
              parsed = parsed;
              unmarshalled = unmarshalled;
              verified = verified;
              accepted = accepted;
              named = named;
              derived = refl;
            }) in
            rw (k, open_session)
              (set_conn_auth-Inv (e ∷ past) _ e.conn (authenticated info)
                (put_session-Inv (e ∷ past) s e.rand_token info (Inv-later past e s v) earned)
                (λ _. earned) (λ ch m. absurd (answered_none info ch m)))
      ]

  new_server-Inv : Inv [] new_auth_server
  unfolding get_session
  new_server-Inv = record {
    sessions_earned = λ token info e. unfold lookup in cc;
    conns_earned = λ conn ca e k. cc;
    conns_issued = λ conn ch e. unfold pending in cc;
  }

  handle_auth-Inv :
      (past : List AuthEvent) (s : AuthServer) (e : AuthEvent)
      → Inv past s
      → Inv (e ∷ past) (handle_auth ssh e.accounts e.rand_challenge e.rand_token s e.conn e.req).0
  unfolding handle_auth get_conn_auth
  handle_auth-Inv past s e v = elim (Bool-cases (is_empty e.req.token)) [
    | inr t ↦
        let with_token = Inv-later past e _ (token_auth-Inv past s e.conn e.req v) in
        elim (Bool-cases (is_empty e.req.signature)) [
          | inl k ↦ rw (t, k, handle_auth) with_token
          | inr k ↦ rw (t, k, handle_auth) with_token
        ]
    | inl t ↦ elim (Bool-cases (is_empty e.req.signature)) [
      | inr k ↦
          rw (t, k, handle_auth)
            (signature_auth-Inv past s e (pending (s.conns e.conn)) (v.conns_issued e.conn) v)
      | inl k ↦ rw (t, k, handle_auth) (issue_challenge-Inv past s e e.rand_challenge k t refl v)
    ]
  ]

  run_auth-Inv :
      (past : List AuthEvent) (s : AuthServer) (es : List AuthEvent)
      → Inv past s
      → Inv (history past es) (run_auth ssh s es)
  unfolding run_auth
  run_auth-Inv past s [] v = v
  run_auth-Inv past s (e ∷ es) v = run_auth-Inv (e ∷ past) _ es (handle_auth-Inv past s e v)

  -- After any requests to a new server, on any connections and in any order, an authenticated
  -- connection, be it by a signature or by a token, has its user, home and encryption key from one
  -- of the requests: that had a signature that verifies, by the key that it names, of a challenge
  -- that its connection had got before, the authorized_keys below the home listed the key then, the
  -- user is the one that it asks for, if it asks for one, and the encryption key is derived from
  -- the key. The files of the accounts may change from request to request.
  pub run_auth-Earned :
      (es : List AuthEvent) (conn : ℕ) (ca : ConnAuth)
      → (run_auth ssh new_auth_server es).conns conn ≡ some ca
      → ca.state ≡ auth_ok
      → Earned ssh (info_of ca) (history [] es)
  run_auth-Earned es = (run_auth-Inv [] new_auth_server es new_server-Inv).conns_earned
