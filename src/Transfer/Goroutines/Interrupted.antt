-- ===== src/Transfer/Goroutines/Interrupted.antt =====
-- A run of processChunks whose context is cancelled from outside.
use gcp.Base.{ℕ, zero, suc, ◌+◌, ◌≡◌, refl, subst, arith}
use gcp.Transfer.Goroutines.{
  returned_nil, in_wait, Run, begin, loop_end, give_up, end_nil, Reached, start, next, signal,
  interrupt,
}
use gcp.Transfer.Goroutines.Hangs.{spawned, spawn_all}

-- The context is cancelled when all are started, and some have given up.
abbrev leaving : ℕ → ℕ → Run
leaving waiting gave_up =
    interrupt (record (begin 0) { place = in_wait; waiting = waiting; gave_up = gave_up })

module _ (batch chunks : ℕ) where
  leave_all :
      (n k m : ℕ)
      → n + k ≡ m
      → Reached batch chunks (leaving n k)
      → Reached batch chunks (leaving 0 m)
  leave_all zero k m e r =
      subst (λ w. Reached batch chunks (leaving 0 w)) (let same : k ≡ m = omega (arith, e) in same)
        r
  leave_all (suc n) k m e r =
      leave_all n (suc k) m (omega (arith, e))
        (next (leaving (suc n) k) (leaving n (suc k)) r (give_up n refl refl))

-- With any batch, and any number of chunks of which none was completed before, a run of
-- processChunks whose context is cancelled from outside can return nil without an error although no
-- chunk was sent and none was skipped.
pub process_chunks_interrupted :
    (batch chunks : ℕ)
    → (s : Run) × Reached batch chunks s
      × (s.place ≡ returned_nil)
      × (s.skipped ≡ 0)
      × (s.succeeded ≡ 0)
      × (s.gave_up ≡ chunks)
process_chunks_interrupted batch chunks =
    let all = spawn_all batch chunks chunks 0 chunks (omega arith) start in
    let waits = next (spawned 0 chunks) _ all (loop_end refl refl) in
    let left = leave_all batch chunks chunks 0 chunks (omega arith) (signal _ waits refl) in
    let end : Run = record (leaving 0 chunks) { place = returned_nil } in
    (end, next (leaving 0 chunks) end left (end_nil refl refl refl), refl, refl, refl, refl)
