-- ===== src/Transfer/Schedule.antt =====
-- processChunks of transfer.go: the chunks that its loop makes of a file, and the writes of an
-- upload (cp_to_host.go), in whatever order its goroutines come to them.
pub mod Tiles
pub mod Signed
pub mod Upload
use gcp.Base.{
  ℕ, zero, suc, ◌+◌, ◌-◌, ◌≡◌, Bool, Bytes, List, [], ◌∷◌, Option, none, some, length, take, drop,
  ltb, if◌then◌else◌,
}

-- Sizes and offsets are natural numbers here; Transfer/Schedule/Signed has the loop on int64.

-- A round of the loop: the chunk, and whether it is skipped as completed before.
pub record Chunk : Type 0 where
  pub offset : ℕ
  pub size : ℕ
  pub skipped : Bool

abbrev pub chunk_at : (ℕ → Bool) → ℕ → ℕ → ℕ → Chunk
chunk_at is_completed chunk_size offset remain_size = record {
  offset = offset;
  size = if ltb remain_size chunk_size then remain_size else chunk_size;
  skipped = is_completed offset;
}

abbrev pub and_then : Chunk → Option (List Chunk) → Option (List Chunk)
and_then c none = none
and_then c (some cs) = some (c ∷ cs)

-- The loop. Fuel bounds its rounds; `none` is a loop that goes on.
unfoldable pub rounds : (ℕ → Bool) → ℕ → ℕ → ℕ → ℕ → Option (List Chunk)
rounds is_completed chunk_size zero offset remain_size = if ltb 0 remain_size then none else some []
rounds is_completed chunk_size (suc fuel) offset remain_size =
    let c = chunk_at is_completed chunk_size offset remain_size in
    let rest = rounds is_completed chunk_size fuel (offset + c.size) (remain_size - c.size) in
    if ltb 0 remain_size then and_then c rest else some []

-- processChunks from startOffset on.
unfoldable pub process_chunks : (ℕ → Bool) → ℕ → ℕ → ℕ → ℕ → Option (List Chunk)
process_chunks is_completed chunk_size fuel file_size start_offset =
    rounds is_completed chunk_size fuel start_offset (file_size - start_offset)

-- The remote file: what the server makes of a write at an offset.
pub record Target : Type 1 where
  pub State : Type 0
  pub write_at : State → ℕ → Bytes → State

-- One chunk of an upload: ReadAt of the source, then Write.
unfoldable pub upload_chunk : (t : Target) → Bytes → t.State → Chunk → t.State
upload_chunk t src s c = t.write_at s c.offset (take c.size (drop c.offset src))

-- The writes of several goroutines, in the order in which they take place.
unfoldable pub upload : (t : Target) → Bytes → t.State → List Chunk → t.State
unfolding upload_chunk
upload t src s [] = s
upload t src s (c ∷ cs) = upload t src (upload_chunk t src s c) cs
