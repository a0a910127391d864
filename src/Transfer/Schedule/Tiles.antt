-- ===== src/Transfer/Schedule/Tiles.antt =====
-- processChunks of transfer.go: the chunks that the rounds of its loop make.
use gcp.Base.{
  ℕ, zero, suc, ◌+◌, ◌-◌, ◌<◌, ◌≤◌, ◌≡◌, refl, inl, inr, Bool, List, [], ◌∷◌, none, some, ltb,
  arith, subst, Bool-cases,
}
use gcp.Transfer.Schedule.{Chunk, chunk_at, rounds, process_chunks}

-- The chunks go from `offset` to `last` without a gap or an overlap; each has a byte at least and
-- `chunk_size` at most, and is skipped just if its offset is completed.
abbrev pub Tiles : (ℕ → Bool) → ℕ → ℕ → ℕ → List Chunk → Type 0
Tiles is_completed chunk_size offset last [] = offset ≡ last
Tiles is_completed chunk_size offset last (c ∷ cs) =
    (c.offset ≡ offset)
    × (0 < c.size)
    × (c.size ≤ chunk_size)
    × (c.skipped ≡ is_completed offset)
    × Tiles is_completed chunk_size (offset + c.size) last cs

rounds-Tiles :
    (is_completed : ℕ → Bool) (chunk_size fuel offset remain_size : ℕ)
    → 0 < chunk_size
    → remain_size ≤ fuel
    → (cs : List Chunk) × (rounds is_completed chunk_size fuel offset remain_size ≡ some cs)
      × Tiles is_completed chunk_size offset (offset + remain_size) cs
unfolding rounds
rounds-Tiles is_completed chunk_size zero offset remain_size pos h = ([], ground arith, omega arith)
rounds-Tiles is_completed chunk_size (suc fuel) offset remain_size pos h =
    elim (Bool-cases (ltb 0 remain_size)) [
      | inr e ↦ ([], ground arith, ground arith)
      | inl e ↦
          let c : Chunk = chunk_at is_completed chunk_size offset remain_size in
          let (cs, made, tiles) =
            rounds-Tiles is_completed chunk_size fuel (offset + c.size) (remain_size - c.size) pos
              (ground arith) in
          let end : offset + c.size + (remain_size - c.size) ≡ offset + remain_size =
            ground arith in
          (
            c ∷ cs,
            rw (e, made) refl,
            (
              refl,
              ground arith,
              ground arith,
              refl,
              subst (λ n. Tiles is_completed chunk_size (offset + c.size) n cs) end tiles,
            ),
          )
    ]

-- With a chunk size that is not 0 the loop of processChunks ends, with a round for each byte of the
-- file and one more, and its chunks are the bytes of the file from startOffset on, each of
-- the chunk size at most and skipped just if it is completed.
pub process_chunks-Tiles :
    (is_completed : ℕ → Bool) (chunk_size fuel file_size start_offset : ℕ)
    → 0 < chunk_size
    → start_offset ≤ file_size
    → file_size < fuel
    → (cs : List Chunk) × (process_chunks is_completed chunk_size fuel file_size start_offset
        ≡ some cs)
      × Tiles is_completed chunk_size start_offset file_size cs
unfolding process_chunks
process_chunks-Tiles is_completed chunk_size fuel file_size start_offset pos start enough =
    let (cs, made, tiles) =
      rounds-Tiles is_completed chunk_size fuel start_offset (file_size - start_offset) pos
        (omega arith) in
    let end : start_offset + (file_size - start_offset) ≡ file_size = omega arith in
    (cs, made, subst (λ n. Tiles is_completed chunk_size start_offset n cs) end tiles)

rounds_stuck :
    (is_completed : ℕ → Bool) (fuel offset remain_size : ℕ)
    → 0 < remain_size
    → rounds is_completed 0 fuel offset remain_size ≡ none
unfolding rounds
rounds_stuck is_completed zero offset remain_size h = ground arith
rounds_stuck is_completed (suc fuel) offset remain_size h =
    let same : remain_size - (chunk_at is_completed 0 offset remain_size).size ≡ remain_size =
      ground arith in
    ground (arith, rounds_stuck is_completed fuel offset remain_size h)

-- With a chunk size of 0 the loop of processChunks does not end on a file with bytes left: no
-- number of rounds is enough.
pub process_chunks_zero :
    (is_completed : ℕ → Bool) (fuel file_size start_offset : ℕ)
    → start_offset < file_size
    → process_chunks is_completed 0 fuel file_size start_offset ≡ none
unfolding process_chunks
process_chunks_zero is_completed fuel file_size start_offset h =
    rounds_stuck is_completed fuel start_offset (file_size - start_offset) (omega arith)
