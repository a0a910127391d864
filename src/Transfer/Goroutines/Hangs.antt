-- ===== src/Transfer/Goroutines/Hangs.antt =====
-- A run of processChunks in which more chunks fail than errChan has room for.
use gcp.Base.{ℕ, zero, suc, ◌+◌, ◌<◌, ◌≡◌, refl, subst, arith}
use gcp.Transfer.Goroutines.{
  in_wait, Run, begin, Step, skip, spawn, abort, loop_end, acquire, give_up, succeed, fail, report,
  drop_error, end_err, end_nil, Reached, start, next,
}

-- The loop has started goroutines for all chunks but `todo`.
abbrev pub spawned : ℕ → ℕ → Run
spawned todo waiting = record (begin todo) { waiting = waiting }

-- All are started, and some have failed and reported it.
abbrev reported : ℕ → ℕ → Run
reported waiting errors = record (begin 0) {
  place = in_wait;
  waiting = waiting;
  errors = errors;
  failed = errors;
}

-- One goroutine more has failed.
abbrev hung : ℕ → Run
hung batch = record (reported 0 batch) { failing = 1; failed = suc batch }

module _ (batch chunks : ℕ) where
  pub spawn_all :
      (n k m : ℕ)
      → n + k ≡ m
      → Reached batch chunks (spawned n k)
      → Reached batch chunks (spawned 0 m)
  spawn_all zero k m e r =
      subst (λ w. Reached batch chunks (spawned 0 w)) (let same : k ≡ m = omega (arith, e) in same)
        r
  spawn_all (suc n) k m e r =
      spawn_all n (suc k) m (omega (arith, e))
        (next (spawned (suc n) k) (spawned n (suc k)) r (spawn n refl refl refl))

module _ (batch chunks : ℕ) (some_room : 0 < batch) where
  -- The next goroutine takes a slot and fails.
  fail_next :
      (w e : ℕ)
      → Reached batch chunks (reported (suc w) e)
      → Reached batch chunks (record (reported w e) { failing = 1; failed = suc e })
  fail_next w e r =
      let taken : Run = record (reported w e) { working = 1 } in
      next taken _ (next (reported (suc w) e) taken r (acquire w refl (omega arith))) (fail 0 refl)

  fail_all :
      (k e : ℕ)
      → e + k ≡ batch
      → Reached batch chunks (reported (suc k) e)
      → Reached batch chunks (reported 1 batch)
  fail_all zero e sum r =
      subst (λ x. Reached batch chunks (reported 1 x))
        (let same : e ≡ batch = omega (arith, sum) in same) r
  fail_all (suc k) e sum r = fail_all k (suc e) (omega (arith, sum)) (
      next (record (reported (suc k) e) { failing = 1; failed = suc e }) (reported (suc k) (suc e))
        (fail_next (suc k) e r) (report 0 refl (omega (arith, sum))))

hung_is_stuck : (batch : ℕ) (t : Run) → Step batch (hung batch) t → ⊥
hung_is_stuck batch t (skip n p e z) = absurd (cc p)
hung_is_stuck batch t (spawn n p e z) = absurd (cc p)
hung_is_stuck batch t (abort n k p e z) = absurd (cc p)
hung_is_stuck batch t (loop_end p e) = absurd (cc p)
hung_is_stuck batch t (acquire n e free) = absurd (omega (arith, e))
hung_is_stuck batch t (give_up n e off) = absurd (cc off)
hung_is_stuck batch t (succeed n e) = absurd (omega (arith, e))
hung_is_stuck batch t (fail n e) = absurd (omega (arith, e))
hung_is_stuck batch t (report n e free) = absurd (omega (arith, free))
hung_is_stuck batch t (drop_error n e off) = absurd (cc off)
hung_is_stuck batch t (end_err k p idle e) = absurd (omega (arith, idle))
hung_is_stuck batch t (end_nil p idle e) = absurd (omega (arith, idle))

-- With any batch that is not 0, a run of processChunks over one chunk more than batch can come,
-- when each chunk fails behind the end of the loop, to a state in which it waits in wg.Wait and
-- neither it nor any goroutine can go on.
pub process_chunks_hangs :
    (batch : ℕ)
    → 0 < batch
    → (s : Run) × Reached batch (suc batch) s
      × (s.place ≡ in_wait)
      × ((t : Run) → Step batch s t → ⊥)
process_chunks_hangs batch some_room =
    let c = suc batch in
    let all = spawn_all batch c c 0 c (omega arith) start in
    let waits = next (spawned 0 c) (reported c 0) all (loop_end refl refl) in
    let full = fail_all batch c some_room batch 0 (omega arith) waits in
    (hung batch, fail_next batch c some_room 0 batch full, refl, hung_is_stuck batch)
