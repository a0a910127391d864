-- ===== src/Transfer/Goroutines.antt =====
-- processChunks of transfer.go: its loop and its goroutines, as steps in any order. Chunks are
-- counted; the progress channel is left out. The context may be cancelled from outside, as main.go
-- does on a signal.
pub mod Runs
pub mod Hangs
pub mod Interrupted
use gcp.Base.{ℕ, zero, suc, ◌+◌, ◌<◌, ◌≡◌, Bool, true, false}

-- In the loop, in wg.Wait, and returned with an error or nil.
pub data Place : Type 0 where
  looping in_wait returned_err returned_nil : Place

-- The chunks that the loop has not come to; the goroutines that wait for the semaphore, that hold it
-- and run fn, and that hold it with an error for errChan; the errors in errChan; whether ctx is
-- cancelled, and whether that came from outside; and, of all, how many chunks were skipped,
-- succeeded and failed, and how many goroutines returned without a slot.
pub record Run : Type 0 where
  pub place : Place
  pub todo : ℕ
  pub waiting : ℕ
  pub working : ℕ
  pub failing : ℕ
  pub errors : ℕ
  pub cancelled : Bool
  pub interrupted : Bool
  pub skipped : ℕ
  pub succeeded : ℕ
  pub failed : ℕ
  pub gave_up : ℕ

abbrev pub begin : ℕ → Run
begin chunks = record {
  place = looping;
  todo = chunks;
  waiting = 0;
  working = 0;
  failing = 0;
  errors = 0;
  cancelled = false;
  interrupted = false;
  skipped = 0;
  succeeded = 0;
  failed = 0;
  gave_up = 0;
}

-- The code between two points at which goroutines wait for one another. `batch` is the room of sem
-- and of errChan.
pub data Step (batch : ℕ) (s : Run) : Run → Type 0 where
  skip :
      (n : ℕ)
      → s.place ≡ looping
      → s.todo ≡ suc n
      → s.errors ≡ 0
      → Step batch s (record s { todo = n; skipped = suc s.skipped })
  spawn :
      (n : ℕ)
      → s.place ≡ looping
      → s.todo ≡ suc n
      → s.errors ≡ 0
      → Step batch s (record s { todo = n; waiting = suc s.waiting })
  abort :
      (n e : ℕ)
      → s.place ≡ looping
      → s.todo ≡ suc n
      → s.errors ≡ suc e
      → Step batch s (record s { place = returned_err; errors = e; cancelled = true })
  loop_end : s.place ≡ looping → s.todo ≡ 0 → Step batch s (record s { place = in_wait })
  acquire :
      (n : ℕ)
      → s.waiting ≡ suc n
      → s.working + s.failing < batch
      → Step batch s (record s { waiting = n; working = suc s.working })
  give_up :
      (n : ℕ)
      → s.waiting ≡ suc n
      → s.cancelled ≡ true
      → Step batch s (record s { waiting = n; gave_up = suc s.gave_up })
  succeed :
      (n : ℕ)
      → s.working ≡ suc n
      → Step batch s (record s { working = n; succeeded = suc s.succeeded })
  fail :
      (n : ℕ)
      → s.working ≡ suc n
      → Step batch s (record s { working = n; failing = suc s.failing; failed = suc s.failed })
  report :
      (n : ℕ)
      → s.failing ≡ suc n
      → s.errors < batch
      → Step batch s (record s { failing = n; errors = suc s.errors })
  drop_error :
      (n : ℕ) → s.failing ≡ suc n → s.cancelled ≡ true → Step batch s (record s { failing = n })
  end_err :
      (e : ℕ)
      → s.place ≡ in_wait
      → s.waiting + s.working + s.failing ≡ 0
      → s.errors ≡ suc e
      → Step batch s (record s { place = returned_err; errors = e; cancelled = true })
  end_nil :
      s.place ≡ in_wait
      → s.waiting + s.working + s.failing ≡ 0
      → s.errors ≡ 0
      → Step batch s (record s { place = returned_nil; cancelled = true })

-- The caller's context is cancelled, and ctx with it.
abbrev pub interrupt : Run → Run
interrupt s = record s { cancelled = true; interrupted = true }

-- The states that a run over a number of chunks comes to, if its context may be cancelled from
-- outside at any time before it returns.
pub data Reached (batch chunks : ℕ) : Run → Type 0 where
  start : Reached batch chunks (begin chunks)
  next : (s t : Run) → Reached batch chunks s → Step batch s t → Reached batch chunks t
  signal :
      (s : Run) → Reached batch chunks s → s.cancelled ≡ false → Reached batch chunks (interrupt s)
