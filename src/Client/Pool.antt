-- ===== src/Client/Pool.antt =====
-- runConn of client.go: a connection of the pool that is made again and again. A round of its loop is
-- told by what it meets; times are in milliseconds.
use gcp.Base.{
  ℕ, suc, ◌+◌, ◌*◌, ◌<◌, ◌≤◌, inl, inr, Bool, true, false, List, [], ◌∷◌, ltb, if◌then◌else◌, arith,
  All, Bool-cases, length,
}

-- Dial fails, and the context may end while the loop waits; tokenAuth fails; or the connection is
-- used until it breaks, with the context ended or not.
pub data Round : Type 0 where
  dial_failed : Bool → Round
  refused : Round
  used : Bool → Round

abbrev pub first_backoff : ℕ
first_backoff = 100

abbrev pub max_backoff : ℕ
max_backoff = 5000

-- The variable, the waits so far, the last one first, and whether the loop has returned.
pub record Pooled : Type 0 where
  pub backoff : ℕ
  pub waits : List ℕ
  pub returned : Bool

unfoldable pub round : Round → Pooled → Pooled
round (dial_failed true) s = record s { returned = true }
round (dial_failed false) s = record {
  backoff = if ltb s.backoff max_backoff then s.backoff * 2 else s.backoff;
  waits = s.backoff ∷ s.waits;
  returned = false;
}
round refused s = record s { backoff = first_backoff }
round (used ended) s = record s { backoff = first_backoff; returned = ended }

unfoldable pub run_rounds : List Round → Pooled → Pooled
unfolding round
run_rounds [] s = s
run_rounds (r ∷ rs) s = run_rounds rs (if s.returned then s else round r s)

abbrev pub run_conn : List Round → Pooled
run_conn rs = run_rounds rs (record { backoff = first_backoff; waits = []; returned = false })

-- The failures of Dial behind which the loop goes on.
abbrev pub failures : List Round → ℕ
failures [] = 0
failures (dial_failed true ∷ rs) = failures rs
failures (dial_failed false ∷ rs) = suc (failures rs)
failures (refused ∷ rs) = failures rs
failures (used ended ∷ rs) = failures rs

abbrev pub InRange : ℕ → Type 0
InRange wait = (first_backoff ≤ wait) × (wait < max_backoff * 2)

record IsSound (s : Pooled) : Type 0 where
  in_range : InRange s.backoff
  all_in_range : All InRange s.waits

round-IsSound : (r : Round) (s : Pooled) → IsSound s → IsSound (round r s)
unfolding round
round-IsSound (dial_failed true) s h = record {
  in_range = h.in_range;
  all_in_range = h.all_in_range;
}
round-IsSound (dial_failed false) s h = record {
  in_range = elim (Bool-cases (ltb s.backoff max_backoff)) [
    | inl k ↦ (ground (arith, h.in_range), ground (arith, h.in_range))
    | inr k ↦ (ground (arith, h.in_range), ground (arith, h.in_range))
  ];
  all_in_range = (h.in_range, h.all_in_range);
}
round-IsSound refused s h = record {
  in_range = (omega arith, omega arith);
  all_in_range = h.all_in_range;
}
round-IsSound (used ended) s h = record {
  in_range = (omega arith, omega arith);
  all_in_range = h.all_in_range;
}

next-IsSound :
    (r : Round) (s : Pooled) (b : Bool) → IsSound s → IsSound (if b then s else round r s)
next-IsSound r s true h = h
next-IsSound r s false h = round-IsSound r s h

run_rounds-IsSound : (rs : List Round) (s : Pooled) → IsSound s → IsSound (run_rounds rs s)
unfolding run_rounds
run_rounds-IsSound [] s h = h
run_rounds-IsSound (r ∷ rs) s h =
    run_rounds-IsSound rs (if s.returned then s else round r s) (next-IsSound r s s.returned h)

waits_next :
    (r : Round) (rs : List Round) (s : Pooled) (b : Bool)
    → length (if b then s else round r s).waits + failures rs ≤ length s.waits + failures (r ∷ rs)
unfolding round
waits_next (dial_failed true) rs s true = omega arith
waits_next (dial_failed true) rs s false = omega arith
waits_next (dial_failed false) rs s true = omega arith
waits_next (dial_failed false) rs s false = omega arith
waits_next refused rs s true = omega arith
waits_next refused rs s false = omega arith
waits_next (used ended) rs s true = omega arith
waits_next (used ended) rs s false = omega arith

waits_bound :
    (rs : List Round) (s : Pooled) → length (run_rounds rs s).waits ≤ length s.waits + failures rs
unfolding run_rounds
waits_bound [] s = omega arith
waits_bound (r ∷ rs) s =
    let s' = if s.returned then s else round r s in
    omega (arith, waits_bound rs s', waits_next r rs s s.returned)

-- Whatever runConn meets, each of its waits is of 100 ms at least and of less than twice its
-- maximum, and it waits no more often than Dial fails: not at all between attempts that the
-- server's refusal of the token ends.
pub run_conn_bounds :
    (rs : List Round) → All InRange (run_conn rs).waits × (length (run_conn rs).waits ≤ failures rs)
run_conn_bounds rs =
    let s : IsSound (run_conn rs) =
      run_rounds-IsSound rs (record { backoff = first_backoff; waits = []; returned = false })
        (record { in_range = (omega arith, omega arith); all_in_range = tt }) in
    (
      s.all_in_range,
      omega (
        arith,
        waits_bound rs (record { backoff = first_backoff; waits = []; returned = false }),
      ),
    )
