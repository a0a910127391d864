-- ===== src/Server/Workers/Turns.antt =====
-- The workers of serve.go over a file system, in every order of their steps.
use gcp.Base.{
  ℕ, ◌-◌, ◌≡◌, refl, sym, subst, ap, ◌∙◌, inl, inr, Option, none, true, false, Str, List, [], ◌∷◌,
  some, ◌==◌, ltb, if◌then◌else◌, arith, Bool-cases,
}
use gcp.Base.Dict.{lookup}
use gcp.Server.Cache.{FdEntry, Disk, sweep_entries, sweep}
use gcp.Server.Cache.Content.{IsFileSystem, Named}
use gcp.Server.Cache.Handles.{Apart}
use gcp.Server.Cache.Sweeps.{kept, lookup-sweep_entries, sweep_entries-Apart}
use gcp.Server.Files.{Host}
use gcp.Server.Workers.{
  Task, writes, writes_at, drops, wrote, reads, stats, reads_at, has_read, hashes, seeks, copies,
  hash_drops, hashed, advance, Pool, Turn, step, tick, take_turn, take_turns,
}
use gcp.Server.Workers.Content.{RefusesNegative, Succeeded, From, covers, value, Moves}
use gcp.Server.Workers.Steps.{advance-Moves, advance-Apart}

module _ (h : Host) (fs : IsFileSystem h.os) where
  open fs use {byte_at}

  -- A message that no worker has taken yet, or that is done with.
  abbrev pub Starts : Task h → Type 0
  Starts (writes req payload ca) = Unit
  Starts (reads req ca) = Unit
  Starts (hashes req ca) = Unit
  Starts (has_read r) = Unit
  Starts (hashed r) = Unit
  Starts _ = ⊥

  Starts-From : (t : Task h) → Starts t → From h fs t t
  Starts-From (writes req payload ca) s = refl
  Starts-From (writes_at path fd bytes offset) s = absurd s
  Starts-From _ s = tt

  not_done : (t : Task h) → Starts t → Succeeded h fs t → ⊥
  not_done (writes req payload ca) s d = d
  not_done (reads req ca) s d = d
  not_done (hashes req ca) s d = d
  not_done (has_read r) s d = d
  not_done (hashed r) s d = d
  not_done (writes_at path fd bytes offset) s d = s
  not_done (drops path e) s d = s
  not_done (wrote r) s d = s
  not_done (stats req ca fd) s d = s
  not_done (reads_at req ca fd) s d = s
  not_done (seeks path fd) s d = s
  not_done (copies path fd) s d = s
  not_done (hash_drops path r) s d = s

  swept_world :
      (now idle_timeout : ℕ) (es : List (Str × FdEntry h.os)) (w : h.os.World) (q : Str) (k : ℕ)
      → byte_at (sweep_entries h.os now idle_timeout es w).1 q k ≡ byte_at w q k
  unfolding sweep_entries
  swept_world now idle_timeout [] w q k = refl
  swept_world now idle_timeout ((p, e) ∷ es) w q k =
      elim (Bool-cases (ltb idle_timeout (now - e.last_access))) [
        | inl old ↦
            rw (old, sweep_entries)
              (swept_world now idle_timeout es (h.os.close_file e.file w) q k
                ∙ fs.byte_at-close_file e.file q w k)
        | inr new ↦ rw (new, sweep_entries) (swept_world now idle_timeout es w q k)
      ]

  -- Between the start `p0` and `p`, for the byte `k` of `q`, which only the task `i` may write.
  record Keeps (i : ℕ) (q : Str) (k : ℕ) (p0 p : Pool h) : Type 0 where
    apart : Apart p.disk.files
    names : Named h.os fs p.disk
    from : (j : ℕ) → From h fs (p0.tasks j) (p.tasks j)
    unwritten :
        covers h fs (p0.tasks i) q k ≡ false → byte_at p.disk.world q k ≡ byte_at p0.disk.world q k
    done :
        Succeeded h fs (p.tasks i)
        → covers h fs (p0.tasks i) q k ≡ true
        → byte_at p.disk.world q k ≡ value h fs (p0.tasks i) k

  sweep-Named :
      (now idle_timeout : ℕ) (d : Disk h.os)
      → Apart d.files
      → Named h.os fs d
      → Named h.os fs (sweep h.os now idle_timeout d)
  unfolding sweep
  sweep-Named now idle_timeout d apart named q e there =
      kept_named (lookup q d.files) refl
        (sym (lookup-sweep_entries h.os now idle_timeout q d.files d.world apart) ∙ there)
    where
      kept_named :
          (o : Option (FdEntry h.os))
          → lookup q d.files ≡ o
          → kept h.os now idle_timeout o ≡ some e
          → fs.path_of e.file ≡ q
      kept_named none at k = absurd (cc k)
      kept_named (some x) at k = named q e (at ∙ ground (arith, k))

  step-Keeps :
      (negative : RefusesNegative h fs) (i : ℕ) (q : Str) (k : ℕ) (p0 p : Pool h) (j now : ℕ)
      → ((m : ℕ) → (m == i) ≡ false → covers h fs (p0.tasks m) q k ≡ false)
      → Keeps i q k p0 p
      → Keeps i q k p0 (take_turn h (step j now) p)
  unfolding take_turn
  step-Keeps negative i q k p0 p j now lone s =
      let (t', d') = advance h now (p.tasks j) p.disk in
      let old : Succeeded h fs (p.tasks j)
          → covers h fs (p0.tasks j) q k ≡ true
          → byte_at p.disk.world q k ≡ value h fs (p0.tasks j) k =
        λ good c. elim (Bool-cases (j == i)) [
          | inr apart ↦ absurd (ground (arith, lone j apart, c))
          | inl same ↦
              let at : j ≡ i = ground (arith, same) in
              subst
                (λ n.
                  Succeeded h fs (p.tasks n)
                  → covers h fs (p0.tasks n) q k ≡ true
                  → byte_at p.disk.world q k ≡ value h fs (p0.tasks n) k)
                (sym at) s.done good c
        ] in
      let m : Moves h fs (p0.tasks j) (p.tasks j) p.disk q k t' d' =
        advance-Moves h fs negative (p0.tasks j) (p.tasks j) now p.disk q k (s.from j) s.names
          old in
      record {
        apart = advance-Apart h now (p.tasks j) p.disk s.apart;
        names = m.names;
        from = λ n. elim (Bool-cases (n == j)) [
          | inl same ↦
              let at : n ≡ j = ground (arith, same) in
              rw same (subst (λ x. From h fs (p0.tasks x) t') (sym at) m.from)
          | inr other ↦ rw other (s.from n)
        ];
        unwritten = λ c. elim (Bool-cases (j == i)) [
          | inr apart ↦ m.outside (lone j apart) ∙ s.unwritten c
          | inl same ↦
              let at : j ≡ i = ground (arith, same) in
              m.outside (ap (λ n. covers h fs (p0.tasks n) q k) at ∙ c) ∙ s.unwritten c
        ];
        done = λ good c. elim (Bool-cases (i == j)) [
          | inl same ↦
              let at : i ≡ j = ground (arith, same) in
              m.done (rw same at good) (ap (λ n. covers h fs (p0.tasks n) q k) (sym at) ∙ c)
              ∙ ap (λ n. value h fs (p0.tasks n) k) (sym at)
          | inr other ↦ m.outside (lone j (ground (arith, other))) ∙ s.done (rw other at good) c
        ];
      }

  turn-Keeps :
      (negative : RefusesNegative h fs) (i : ℕ) (q : Str) (k : ℕ) (p0 p : Pool h) (t : Turn h)
      → ((m : ℕ) → (m == i) ≡ false → covers h fs (p0.tasks m) q k ≡ false)
      → Keeps i q k p0 p
      → Keeps i q k p0 (take_turn h t p)
  unfolding take_turn sweep
  turn-Keeps negative i q k p0 p (step j now) lone s = step-Keeps negative i q k p0 p j now lone s
  turn-Keeps negative i q k p0 p (tick now idle_timeout) lone s =
      let same = swept_world now idle_timeout p.disk.files p.disk.world q k in
      record {
        apart = sweep_entries-Apart h.os now idle_timeout p.disk.files p.disk.world s.apart;
        names = sweep-Named now idle_timeout p.disk s.apart s.names;
        from = s.from;
        unwritten = λ c. same ∙ s.unwritten c;
        done = λ good c. same ∙ s.done good c;
      }

  turns-Keeps :
      (negative : RefusesNegative h fs) (i : ℕ) (q : Str) (k : ℕ) (p0 p : Pool h)
      (ts : List (Turn h))
      → ((m : ℕ) → (m == i) ≡ false → covers h fs (p0.tasks m) q k ≡ false)
      → Keeps i q k p0 p
      → Keeps i q k p0 (take_turns h ts p)
  unfolding take_turns
  turns-Keeps negative i q k p0 p [] lone s = s
  turns-Keeps negative i q k p0 p (t ∷ ts) lone s =
      turns-Keeps negative i q k p0 (take_turn h t p) ts lone
        (turn-Keeps negative i q k p0 p t lone s)

  -- Whatever the steps of any number of tasks that write, read and hash, and of sweeps between
  -- them, and in whatever order they come: where one task at most is to write a byte of a file,
  -- and has succeeded if it is, that byte is as the task writes it, and else as it was. No other
  -- program changes the files, and no path has two entries in the cache at the start.
  pub take_turns-writes :
      (negative : RefusesNegative h fs) (i : ℕ) (q : Str) (k : ℕ) (p : Pool h) (ts : List (Turn h))
      → Apart p.disk.files
      → Named h.os fs p.disk
      → ((j : ℕ) → Starts (p.tasks j))
      → ((j : ℕ) → (j == i) ≡ false → covers h fs (p.tasks j) q k ≡ false)
      → (covers h fs (p.tasks i) q k ≡ true → Succeeded h fs ((take_turns h ts p).tasks i))
      → byte_at (take_turns h ts p).disk.world q k ≡ (
          if covers h fs (p.tasks i) q k
          then value h fs (p.tasks i) k
          else byte_at p.disk.world q k)
  take_turns-writes negative i q k p ts apart named starts lone good =
      let start : Keeps i q k p p = record {
        apart = apart;
        names = named;
        from = λ j. Starts-From (p.tasks j) (starts j);
        unwritten = λ c. refl;
        done = λ s c. absurd (not_done (p.tasks i) (starts i) s);
      } in
      let end = turns-Keeps negative i q k p p ts lone start in
      elim (Bool-cases (covers h fs (p.tasks i) q k)) [
        | inl c ↦ rw c (end.done (good c) c)
        | inr c ↦ rw c (end.unwritten c)
      ]
