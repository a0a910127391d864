-- ===== src/Transfer/Download/Stats.antt =====
-- What comes of the stat requests of downloadFile in cp_from_host.go, against the server of serve.go.
use gcp.Base.{
  ℕ, zero, suc, pos, ◌≡◌, refl, sym, ap, ◌∙◌, inl, inr, true, false, Str, [], some, Bool-cases,
}
use gcp.Base.Result.{Res, ok, err, Res-cases}
use gcp.Message.Types.{StatReq, StatRes, stat_req}
use gcp.Transfer.Download.{retry, judge_stat, attempt_stat}
use gcp.Transfer.Upload.Parts.{Ready}
use gcp.Client.Rpc.{stat_request, gen_msg_id}
use gcp.Client.Remote.{Caller, served, answer_of, narrow, stat_res_of, call_stat}
use gcp.Server.Os.{FileInfo, Stat, found, not_exist, stat_failed}
use gcp.Server.Users.{Ssh, Accounts}
use gcp.Server.Auth.{ConnAuth, auth_ok, get_conn_auth}
use gcp.Server.Cache.Content.{IsFileSystem}
use gcp.Server.Files.{Host, sandbox_path, stat, stat_answer}
use gcp.Server.Files.Reading.{Full}
use gcp.Server.Dispatch.Answers.{allowed_ok}
use gcp.Server.Dispatch.{Server, process, allowed, serve_other, serve_request, on_disk, reaction}

module _ (ssh : Ssh) (accounts : Accounts) (h : Host) (fs : IsFileSystem h.os) (l : Full h fs)
    (conn : ℕ) (ca : ConnAuth) where
  abbrev Copier : Type 0
  Copier = Caller (served ssh accounts h conn)

  process-stat :
      (s : Server ssh accounts h) (req : StatReq)
      → s.auth.conns conn ≡ some ca
      → ca.state ≡ auth_ok
      → process ssh accounts h (err []) [] s conn (stat_req req) []
        ≡ on_disk ssh accounts h (stat h req ca) s
  unfolding process serve_other get_conn_auth allowed serve_request
  process-stat s req e k = rw (allowed_ok (s.auth.conns conn) ca e k, serve_other) refl

  -- What comes of asking for a file between two points: nothing changes, and an answer that is
  -- accepted has the length of the server's file.
  pub record States (src : Str) (c c' : Copier) (r : Res StatRes) : Type 0 where
    pub ready : Ready ssh accounts h fs conn ca c'
    pub disk : c'.state.disk ≡ c.state.disk
    pub size :
        (st : StatRes) → r ≡ ok st → st.size ≡ pos (l.size c.state.disk.world (sandbox_path ca src))

  stat_size :
      (req : StatReq) (s : Stat) (st : StatRes) (n : ℕ)
      → ((info : FileInfo) → s ≡ found info → info.is_dir ≡ false → info.size ≡ pos n)
      → judge_stat (narrow stat_res_of (answer_of (reaction (stat_answer h req s)))) ≡ ok st
      → st.size ≡ pos n
  unfolding judge_stat stat_res_of
  stat_size req (found info) st n size e = elim (Bool-cases info.is_dir) [
    | inl k ↦ absurd (cc (rw k at e))
    | inr k ↦
        let sent : StatRes = record {
          id = req.id;
          success = true;
          size = info.size;
          mode = info.mode;
          is_dir = false;
          error = [];
        } in
        let same : ok sent ≡ ok st = rw k at e in
        let is : sent ≡ st = cc same in ap (λ (r : StatRes). r.size) (sym is) ∙ size info refl k
  ]
  stat_size req (not_exist t) st n size e = absurd (cc e)
  stat_size req (stat_failed t) st n size e = absurd (cc e)

  attempt_stat-States :
      (src : Str) (c : Copier)
      → Ready ssh accounts h fs conn ca c
      → let (r, c') = attempt_stat (served ssh accounts h conn) src c in States src c c' r
  unfolding attempt_stat call_stat stat_request gen_msg_id stat
  attempt_stat-States src c ready = rw (process-stat c.state _ ready.known ready.is_ok) (record {
    ready = record {
      known = ready.known;
      is_ok = ready.is_ok;
      same_key = ready.same_key;
      names = ready.names;
    };
    disk = refl;
    size = λ st e.
        stat_size (record { id = (gen_msg_id c.client).0; path = src })
          (h.os.stat (sandbox_path ca src) c.state.disk.world) st _
          (l.size-stat (sandbox_path ca src) c.state.disk.world) e;
  })

  States-later :
      (src : Str) (a b c : Copier) (r : Res StatRes)
      → b.state.disk ≡ a.state.disk
      → States src b c r
      → States src a c r
  States-later src a b c r same s = record {
    ready = s.ready;
    disk = s.disk ∙ same;
    size = λ st e. s.size st e ∙ ap (λ d. pos (l.size d.world (sandbox_path ca src))) same;
  }

  -- However often it asks.
  pub retry-States :
      (n : ℕ) (last : Res StatRes) (src : Str) (c : Copier)
      → Ready ssh accounts h fs conn ca c
      → ((st : StatRes) → last ≡ ok st → ⊥)
      → let (r, c') = retry (attempt_stat (served ssh accounts h conn) src) n last c in
        States src c c' r
  unfolding retry
  retry-States zero last src c ready bad = record {
    ready = ready;
    disk = refl;
    size = λ st e. absurd (bad st e);
  }
  retry-States (suc n) last src c ready bad =
      let s = attempt_stat-States src c ready in
      let c' = (attempt_stat (served ssh accounts h conn) src c).1 in
      elim (Res-cases (attempt_stat (served ssh accounts h conn) src c).0) [
        | inl (a, e) ↦
            rw (e, retry)
              (record { ready = s.ready; disk = s.disk; size = λ st k. s.size st (e ∙ k) })
        | inr (text, e) ↦
            rw (e, retry)
              (States-later src c c' _ _ s.disk
                (retry-States n (err text) src c' s.ready (λ st k. absurd (cc k))))
      ]
