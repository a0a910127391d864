-- ===== src/Transfer/GoroutineTests.antt =====
-- The claims on the goroutines of a transfer at one chunk that succeeds, and at three that fail.
use gcp.Base.{◌+◌, ◌≤◌, ◌≡◌, refl, true, arith}
use gcp.Transfer.Goroutines.{
  Run, begin, in_wait, returned_nil, Step, spawn, loop_end, acquire, succeed, end_nil, Reached,
  start, next,
}
use gcp.Transfer.Goroutines.Runs.{IsDone, process_chunks-IsDone}
use gcp.Transfer.Goroutines.Hangs.{process_chunks_hangs}
use gcp.Transfer.Goroutines.Interrupted.{process_chunks_interrupted}

abbrev spawned : Run
spawned = record (begin 1) { todo = 0; waiting = 1 }

abbrev taken : Run
taken = record spawned { waiting = 0; working = 1 }

abbrev finished : Run
finished = record taken { working = 0; succeeded = 1 }

abbrev waits : Run
waits = record finished { place = in_wait }

abbrev done : Run
done = record waits { place = returned_nil; cancelled = true }

done-Reached : Reached 1 1 done
done-Reached =
    next waits done
      (next finished waits
        (next taken finished
          (next spawned taken (next (begin 1) spawned start (spawn 0 refl refl refl))
            (acquire 0 refl (omega arith)))
          (succeed 0 refl))
        (loop_end refl refl))
      (end_nil refl (omega arith) refl)

process_chunks-IsDone_example :
    (done.working + done.failing ≤ 1)
    × (done.errors ≤ 1)
    × (done.place ≡ returned_nil → IsDone 1 done)
process_chunks-IsDone_example = process_chunks-IsDone 1 1 done done-Reached

process_chunks_hangs_example :
    (s : Run) × Reached 2 3 s × (s.place ≡ in_wait) × ((t : Run) → Step 2 s t → ⊥)
process_chunks_hangs_example = process_chunks_hangs 2 (omega arith)

process_chunks_interrupted_example :
    (s : Run) × Reached 2 5 s
    × (s.place ≡ returned_nil)
    × (s.skipped ≡ 0)
    × (s.succeeded ≡ 0)
    × (s.gave_up ≡ 5)
process_chunks_interrupted_example = process_chunks_interrupted 2 5
