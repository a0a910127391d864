-- ===== src/Client/PoolTests.antt =====
-- The claim on the pool at failures, a refusal and a connection.
use gcp.Base.{◌≤◌, true, false, List, [], ◌∷◌, All, length, ◌≡◌, refl}
use gcp.Client.Pool.{
  Round, dial_failed, refused, used, run_conn, run_rounds, round, InRange, failures,
  run_conn_bounds,
}

-- The host is away seven times, then it refuses the token twice.
abbrev attempts_made : List Round
attempts_made =
    dial_failed false
    ∷ dial_failed false
    ∷ dial_failed false
    ∷ dial_failed false
    ∷ dial_failed false
    ∷ dial_failed false
    ∷ dial_failed false
    ∷ refused
    ∷ refused
    ∷ used true
    ∷ []

run_conn_bounds_example :
    All InRange (run_conn attempts_made).waits
    × (length (run_conn attempts_made).waits ≤ failures attempts_made)
run_conn_bounds_example = run_conn_bounds attempts_made

waited : (run_conn attempts_made).waits ≡ 6400 ∷ 3200 ∷ 1600 ∷ 800 ∷ 400 ∷ 200 ∷ 100 ∷ []
unfolding run_rounds round
waited = refl
