-- ===== src/Transfer/Goroutines/Runs.antt =====
-- The runs of processChunks: what holds in all of them.
use gcp.Base.{ℕ, ◌+◌, ◌≤◌, ◌≡◌, refl, sym, subst, ◌∙◌, true, false, arith}
use gcp.Transfer.Goroutines.{
  Place, looping, in_wait, returned_err, returned_nil, Run, Step, skip, spawn, abort, loop_end,
  acquire, give_up, succeed, fail, report, drop_error, end_err, end_nil, Reached, start, next,
  signal, interrupt,
}

-- Every chunk was skipped, or its function has returned, or its goroutine gave up, and no goroutine
-- is left; but for a context cancelled from outside, none has failed and none gave up.
abbrev pub IsDone : ℕ → Run → Type 0
IsDone chunks s =
    (s.skipped + s.succeeded + s.failed + s.gave_up ≡ chunks)
    × (s.waiting + s.working + s.failing ≡ 0)
    × (s.interrupted ≡ false → (s.failed ≡ 0) × (s.gave_up ≡ 0))

-- What holds where the loop is.
abbrev At : ℕ → Place → Run → Type 0
At chunks looping s = s.interrupted ≡ false → s.cancelled ≡ false
At chunks in_wait s = (s.interrupted ≡ false → s.cancelled ≡ false) × (s.todo ≡ 0)
At chunks returned_err s = s.cancelled ≡ true
At chunks returned_nil s = IsDone chunks s × (s.cancelled ≡ true)

record Counts (batch chunks : ℕ) (s : Run) : Type 0 where
  slots : s.working + s.failing ≤ batch
  room : s.errors ≤ batch
  total : s.todo + s.waiting + s.working + s.skipped + s.succeeded + s.failed + s.gave_up ≡ chunks
  failures : s.cancelled ≡ false → s.failed ≡ s.failing + s.errors
  none_gave_up : s.cancelled ≡ false → s.gave_up ≡ 0

-- The step of a goroutine keeps what holds where the loop is, if there was a goroutine.
At-keeps :
    (chunks : ℕ) (p : Place) (s t : Run)
    → t.cancelled ≡ s.cancelled
    → t.interrupted ≡ s.interrupted
    → t.todo ≡ s.todo
    → (s.waiting + s.working + s.failing ≡ 0 → ⊥)
    → At chunks p s
    → At chunks p t
At-keeps chunks looping s t c i d busy h = λ k. c ∙ h (sym i ∙ k)
At-keeps chunks in_wait s t c i d busy (h, l) = ((λ k. c ∙ h (sym i ∙ k)), d ∙ l)
At-keeps chunks returned_err s t c i d busy h = c ∙ h
At-keeps chunks returned_nil s t c i d busy ((sum, idle, fine), h) = absurd (busy idle)

Counts-next :
    (batch chunks : ℕ) (s t : Run) → Step batch s t → Counts batch chunks s → Counts batch chunks t
Counts-next batch chunks s t (skip n p e z) h = record {
  slots = h.slots;
  room = h.room;
  total = omega (arith, h.total, e);
  failures = λ c. h.failures c;
  none_gave_up = λ c. h.none_gave_up c;
}
Counts-next batch chunks s t (spawn n p e z) h = record {
  slots = h.slots;
  room = h.room;
  total = omega (arith, h.total, e);
  failures = λ c. h.failures c;
  none_gave_up = λ c. h.none_gave_up c;
}
Counts-next batch chunks s t (abort n k p e z) h = record {
  slots = h.slots;
  room = omega (arith, h.room, z);
  total = h.total;
  failures = λ c. absurd (cc c);
  none_gave_up = λ c. absurd (cc c);
}
Counts-next batch chunks s t (loop_end p e) h = record {
  slots = h.slots;
  room = h.room;
  total = h.total;
  failures = λ c. h.failures c;
  none_gave_up = λ c. h.none_gave_up c;
}
Counts-next batch chunks s t (acquire n e free) h = record {
  slots = omega (arith, free);
  room = h.room;
  total = omega (arith, h.total, e);
  failures = λ c. h.failures c;
  none_gave_up = λ c. h.none_gave_up c;
}
Counts-next batch chunks s t (give_up n e off) h = record {
  slots = h.slots;
  room = h.room;
  total = omega (arith, h.total, e);
  failures = λ c. h.failures c;
  none_gave_up = λ c. absurd (cc (c, off));
}
Counts-next batch chunks s t (succeed n e) h = record {
  slots = omega (arith, h.slots, e);
  room = h.room;
  total = omega (arith, h.total, e);
  failures = λ c. h.failures c;
  none_gave_up = λ c. h.none_gave_up c;
}
Counts-next batch chunks s t (fail n e) h = record {
  slots = omega (arith, h.slots, e);
  room = h.room;
  total = omega (arith, h.total, e);
  failures = λ c. omega (arith, h.failures c);
  none_gave_up = λ c. h.none_gave_up c;
}
Counts-next batch chunks s t (report n e free) h = record {
  slots = omega (arith, h.slots, e);
  room = omega (arith, free);
  total = h.total;
  failures = λ c. omega (arith, h.failures c, e);
  none_gave_up = λ c. h.none_gave_up c;
}
Counts-next batch chunks s t (drop_error n e off) h = record {
  slots = omega (arith, h.slots, e);
  room = h.room;
  total = h.total;
  failures = λ c. absurd (cc (c, off));
  none_gave_up = λ c. h.none_gave_up c;
}
Counts-next batch chunks s t (end_err k p idle e) h = record {
  slots = h.slots;
  room = omega (arith, h.room, e);
  total = h.total;
  failures = λ c. absurd (cc c);
  none_gave_up = λ c. absurd (cc c);
}
Counts-next batch chunks s t (end_nil p idle e) h = record {
  slots = h.slots;
  room = h.room;
  total = h.total;
  failures = λ c. absurd (cc c);
  none_gave_up = λ c. absurd (cc c);
}

-- What holds at a place known.
at_place : (chunks : ℕ) (p : Place) (s : Run) → s.place ≡ p → At chunks s.place s → At chunks p s
at_place chunks p s e h = subst (λ q. At chunks q s) e h

to_place : (chunks : ℕ) (p : Place) (s : Run) → s.place ≡ p → At chunks p s → At chunks s.place s
to_place chunks p s e h = subst (λ q. At chunks q s) (sym e) h

At-next :
    (batch chunks : ℕ) (s t : Run)
    → Step batch s t
    → Counts batch chunks s
    → At chunks s.place s
    → At chunks t.place t
At-next batch chunks s t (skip n p e z) h at =
    to_place chunks looping t p (at_place chunks looping s p at)
At-next batch chunks s t (spawn n p e z) h at =
    to_place chunks looping t p (at_place chunks looping s p at)
At-next batch chunks s t (abort n k p e z) h at = refl
At-next batch chunks s t (loop_end p e) h at = (at_place chunks looping s p at, e)
At-next batch chunks s t (acquire n e free) h at =
    At-keeps chunks s.place s t refl refl refl (λ idle. absurd (omega (arith, idle, e))) at
At-next batch chunks s t (give_up n e off) h at =
    At-keeps chunks s.place s t refl refl refl (λ idle. absurd (omega (arith, idle, e))) at
At-next batch chunks s t (succeed n e) h at =
    At-keeps chunks s.place s t refl refl refl (λ idle. absurd (omega (arith, idle, e))) at
At-next batch chunks s t (fail n e) h at =
    At-keeps chunks s.place s t refl refl refl (λ idle. absurd (omega (arith, idle, e))) at
At-next batch chunks s t (report n e free) h at =
    At-keeps chunks s.place s t refl refl refl (λ idle. absurd (omega (arith, idle, e))) at
At-next batch chunks s t (drop_error n e off) h at =
    At-keeps chunks s.place s t refl refl refl (λ idle. absurd (omega (arith, idle, e))) at
At-next batch chunks s t (end_err k p idle e) h at = refl
At-next batch chunks s t (end_nil p idle e) h at =
    let (open_, last) = at_place chunks in_wait s p at in
    (
      (
        omega (arith, h.total, last, idle),
        idle,
        λ i. (omega (arith, h.failures (open_ i), idle, e), h.none_gave_up (open_ i)),
      ),
      refl,
    )

-- A context that is cancelled from outside, while the loop has not returned.
At-interrupt :
    (chunks : ℕ) (p : Place) (s : Run)
    → s.cancelled ≡ false
    → At chunks p s
    → At chunks p (interrupt s)
At-interrupt chunks looping s c h = λ k. absurd (cc k)
At-interrupt chunks in_wait s c (h, d) = ((λ k. absurd (cc k)), d)
At-interrupt chunks returned_err s c h = refl
At-interrupt chunks returned_nil s c (h, k) = absurd (cc (c, k))

record Inv (batch chunks : ℕ) (s : Run) : Type 0 where
  counts : Counts batch chunks s
  here : At chunks s.place s

Reached-Inv : (batch chunks : ℕ) (s : Run) → Reached batch chunks s → Inv batch chunks s
Reached-Inv batch chunks s start = record {
  counts = record {
    slots = omega arith;
    room = omega arith;
    total = omega arith;
    failures = λ c. refl;
    none_gave_up = λ c. refl;
  };
  here = λ i. refl;
}
Reached-Inv batch chunks s (next before t r step) =
    let h = Reached-Inv batch chunks before r in
    record {
      counts = Counts-next batch chunks before s step h.counts;
      here = At-next batch chunks before s step h.counts h.here;
    }
Reached-Inv batch chunks s (signal before r c) =
    let h = Reached-Inv batch chunks before r in
    record {
      counts = record {
        slots = h.counts.slots;
        room = h.counts.room;
        total = h.counts.total;
        failures = λ k. absurd (cc k);
        none_gave_up = λ k. absurd (cc k);
      };
      here = At-interrupt chunks before.place before c h.here;
    }

-- In every run of processChunks, in whatever order its goroutines go on, and whenever its context is
-- cancelled from outside, if it is, at most batch of them have a chunk at a time and errChan has
-- batch errors at most; and when it has returned nil, no goroutine is left, and every chunk was
-- skipped, or its function has returned, or its goroutine gave up: and if the context was not
-- cancelled from outside, none gave up and no function has failed, so that all chunks but the
-- skipped have succeeded.
pub process_chunks-IsDone :
    (batch chunks : ℕ) (s : Run)
    → Reached batch chunks s
    → (s.working + s.failing ≤ batch)
      × (s.errors ≤ batch)
      × (s.place ≡ returned_nil → IsDone chunks s)
process_chunks-IsDone batch chunks s r =
    let h = Reached-Inv batch chunks s r in
    (h.counts.slots, h.counts.room, (λ p. (at_place chunks returned_nil s p h.here).0))
