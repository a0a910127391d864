-- ===== src/Transfer/Schedule/Signed.antt =====
-- The loop of processChunks (transfer.go) on int64 as it is written, where the size of a chunk and
-- all that is computed with it may be negative; no overflow is modelled.
use gcp.Base.{
  ℕ, zero, suc, ℤ, pos, negsuc, ◌+◌, ◌-◌, ◌<◌, ◌≤◌, ◌≡◌, refl, ap, ◌∙◌, inl, inr, Bool, true, false,
  List, [], ◌∷◌, Option, none, some, map, ltb, if◌then◌else◌, arith, Bool-cases,
}
use gcp.Transfer.Schedule.{Chunk, and_then, rounds, process_chunks}
use gcp.Transfer.Schedule.Tiles.{Tiles, process_chunks-Tiles}

abbrev diff : ℕ → ℕ → ℤ
diff a b = if ltb a b then negsuc (b - a - 1) else pos (a - b)

abbrev plus : ℤ → ℤ → ℤ
plus (pos a) (pos b) = pos (a + b)
plus (pos a) (negsuc b) = diff a (b + 1)
plus (negsuc a) (pos b) = diff b (a + 1)
plus (negsuc a) (negsuc b) = negsuc (a + b + 1)

abbrev minus : ℤ → ℤ → ℤ
minus (pos a) (pos b) = diff a b
minus (pos a) (negsuc b) = pos (a + b + 1)
minus (negsuc a) (pos b) = negsuc (a + b)
minus (negsuc a) (negsuc b) = diff b a

abbrev pub less : ℤ → ℤ → Bool
less (pos a) (pos b) = ltb a b
less (pos a) (negsuc b) = false
less (negsuc a) (pos b) = true
less (negsuc a) (negsuc b) = ltb b a

-- A round of the loop.
pub record Piece : Type 0 where
  pub offset : ℤ
  pub size : ℤ
  pub skipped : Bool

abbrev pub piece_at : (ℤ → Bool) → ℤ → ℤ → ℤ → Piece
piece_at is_completed chunk_size offset remain_size = record {
  offset = offset;
  size = if less remain_size chunk_size then remain_size else chunk_size;
  skipped = is_completed offset;
}

abbrev and_piece : Piece → Option (List Piece) → Option (List Piece)
and_piece p none = none
and_piece p (some ps) = some (p ∷ ps)

-- The loop, as long as no goroutine has failed. Fuel bounds its rounds; `none` is a loop that goes
-- on.
unfoldable pub loop : (ℤ → Bool) → ℤ → ℕ → ℤ → ℤ → Option (List Piece)
loop is_completed chunk_size zero offset remain_size =
    if less (pos 0) remain_size then none else some []
loop is_completed chunk_size (suc fuel) offset remain_size =
    let p = piece_at is_completed chunk_size offset remain_size in
    let rest = loop is_completed chunk_size fuel (plus offset p.size) (minus remain_size p.size) in
    if less (pos 0) remain_size then and_piece p rest else some []

-- processChunks from startOffset on.
unfoldable pub run_loop : (ℤ → Bool) → ℤ → ℕ → ℤ → ℤ → Option (List Piece)
run_loop is_completed chunk_size fuel file_size start_offset =
    loop is_completed chunk_size fuel start_offset (minus file_size start_offset)

-- A chunk on the natural numbers.
abbrev pub piece_of : Chunk → Piece
piece_of c = record { offset = pos c.offset; size = pos c.size; skipped = c.skipped }

abbrev pieces : Option (List Chunk) → Option (List Piece)
pieces none = none
pieces (some cs) = some (map piece_of cs)

pieces-and_then :
    (c : Chunk) (o : Option (List Chunk))
    → and_piece (piece_of c) (pieces o) ≡ pieces (and_then c o)
pieces-and_then c none = refl
pieces-and_then c (some cs) = refl

diff_le : (a b : ℕ) → b ≤ a → diff a b ≡ pos (a - b)
diff_le a b h = ground arith

-- On a chunk size and offsets that are not negative the loop is the one on natural numbers.
loop-rounds :
    (is_completed : ℤ → Bool) (chunk_size fuel offset remain_size : ℕ)
    → loop is_completed (pos chunk_size) fuel (pos offset) (pos remain_size)
      ≡ pieces (rounds (λ n. is_completed (pos n)) chunk_size fuel offset remain_size)
unfolding loop rounds
loop-rounds is_completed chunk_size zero offset remain_size = ground arith
loop-rounds is_completed chunk_size (suc fuel) offset remain_size =
    elim (Bool-cases (ltb 0 remain_size)) [
      | inr e ↦ rw e refl
      | inl e ↦ elim (Bool-cases (ltb remain_size chunk_size)) [
        | inl k ↦
            let c : Chunk = record {
              offset = offset;
              size = remain_size;
              skipped = is_completed (pos offset);
            } in
            rw (e, k)
              (ap
                  (λ z.
                    and_piece (piece_of c)
                      (loop is_completed (pos chunk_size) fuel (pos (offset + remain_size)) z))
                  (diff_le remain_size remain_size (omega arith))
                ∙ ap (and_piece (piece_of c)) (
                    loop-rounds is_completed chunk_size fuel (offset + remain_size)
                      (remain_size - remain_size))
                ∙ pieces-and_then c _)
        | inr k ↦
            let c : Chunk = record {
              offset = offset;
              size = chunk_size;
              skipped = is_completed (pos offset);
            } in
            rw (e, k)
              (ap
                  (λ z.
                    and_piece (piece_of c)
                      (loop is_completed (pos chunk_size) fuel (pos (offset + chunk_size)) z))
                  (diff_le remain_size chunk_size (ground arith))
                ∙ ap (and_piece (piece_of c)) (
                    loop-rounds is_completed chunk_size fuel (offset + chunk_size)
                      (remain_size - chunk_size))
                ∙ pieces-and_then c _)
      ]
    ]

-- With a positive chunk size the loop of processChunks, where no goroutine fails before, ends with a
-- round for each byte of the file and one more, and its chunks are the bytes of the file from
-- startOffset on, without a gap or an overlap, each of the chunk size at most and skipped just if it
-- is completed.
pub run_loop-Tiles :
    (is_completed : ℤ → Bool) (chunk_size fuel file_size start_offset : ℕ)
    → 0 < chunk_size
    → start_offset ≤ file_size
    → file_size < fuel
    → (cs : List Chunk) × (run_loop is_completed
          (pos chunk_size)
          fuel
          (pos file_size)
          (pos start_offset)
        ≡ some (map piece_of cs))
      × Tiles (λ n. is_completed (pos n)) chunk_size start_offset file_size cs
unfolding run_loop process_chunks
run_loop-Tiles is_completed chunk_size fuel file_size start_offset some_size start enough =
    let (cs, made, tiles) =
      process_chunks-Tiles (λ n. is_completed (pos n)) chunk_size fuel file_size start_offset
        some_size start enough in
    let rest : minus (pos file_size) (pos start_offset) ≡ pos (file_size - start_offset) =
      ground arith in
    (
      cs,
      ap (loop is_completed (pos chunk_size) fuel (pos start_offset)) rest
          ∙ loop-rounds is_completed chunk_size fuel start_offset (file_size - start_offset)
          ∙ ap pieces made,
      tiles,
    )
