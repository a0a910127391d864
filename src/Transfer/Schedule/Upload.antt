-- ===== src/Transfer/Schedule/Upload.antt =====
-- uploadFile of cp_to_host.go: the bytes of the target after the writes of chunks.
use gcp.Base.{
  ℕ, zero, suc, ◌+◌, ◌-◌, ◌<◌, ◌≤◌, ◌≡◌, refl, ◌∙◌, ap, ◌⊎◌, inl, inr, Bool, true, false, Bytes,
  List, [], ◌∷◌, some, ltb, leb, length, take, drop, ◌&&◌, if◌then◌else◌, arith, subst, Bool-cases,
  All, length-take, length-drop, get_or,
}
use gcp.Transfer.Schedule.{Chunk, Target, process_chunks, upload_chunk, upload}
use gcp.Transfer.Schedule.Tiles.{Tiles, process_chunks-Tiles}

-- What a file does with WriteAt: the bytes written are read back at their offsets, the others stay.
pub record IsFile (t : Target) : Type 0 where
  pub byte_at : t.State → ℕ → ℕ
  pub byte_at-write_at :
      (s : t.State) (offset : ℕ) (bs : Bytes) (i : ℕ)
      → byte_at (t.write_at s offset bs) i ≡ (
          if leb offset i && ltb i (offset + length bs)
          then get_or bs (i - offset) 0
          else byte_at s i)

abbrev pub In : Chunk → List Chunk → Type 0
In c [] = ⊥
In c (x ∷ xs) = (x ≡ c) ⊎ In c xs

-- The byte `i` is within the chunk.
abbrev pub Within : ℕ → Chunk → Type 0
Within i c = (c.offset ≤ i) × (i < c.offset + c.size)

get_or-take : (n i : ℕ) (xs : Bytes) → i < n → get_or (take n xs) i 0 ≡ get_or xs i 0
get_or-take zero i xs h = absurd (omega arith)
get_or-take (suc n) i [] h = refl
get_or-take (suc n) zero (x ∷ xs) h = refl
get_or-take (suc n) (suc i) (x ∷ xs) h = get_or-take n i xs (omega arith)

get_or-drop : (n i : ℕ) (xs : Bytes) → get_or (drop n xs) i 0 ≡ get_or xs (n + i) 0
get_or-drop zero i xs = ap (λ k. get_or xs k 0) (omega arith)
get_or-drop (suc n) i [] = refl
get_or-drop (suc n) i (x ∷ xs) =
    get_or-drop n i xs
    ∙ ap (λ k. get_or (x ∷ xs) k 0) (let e : suc (n + i) ≡ suc n + i = omega arith in e)

pub length-chunk :
    (src : Bytes) (c : Chunk)
    → c.offset + c.size ≤ length src
    → length (take c.size (drop c.offset src)) ≡ c.size
length-chunk src c inside =
    omega (arith, length-take c.size (drop c.offset src), length-drop c.offset src)

pub byte-chunk :
    (src : Bytes) (c : Chunk) (i : ℕ)
    → Within i c
    → get_or (take c.size (drop c.offset src)) (i - c.offset) 0 ≡ get_or src i 0
byte-chunk src c i (low, high) =
    let back : c.offset + (i - c.offset) ≡ i = omega arith in
    get_or-take c.size (i - c.offset) (drop c.offset src) (omega arith)
    ∙ get_or-drop c.offset (i - c.offset) src
    ∙ ap (λ k. get_or src k 0) back

module _ (t : Target) (f : IsFile t) (src : Bytes) where
  open f use {byte_at, byte_at-write_at}

  -- The target has the byte `i` of the source.
  abbrev Right : t.State → ℕ → Type 0
  Right s i = byte_at s i ≡ get_or src i 0

  abbrev pub InFile : Chunk → Type 0
  InFile c = c.offset + c.size ≤ length src

  -- What a chunk makes of the byte `i`.
  byte_at-upload_chunk :
      (s : t.State) (c : Chunk) (i : ℕ)
      → InFile c
      → byte_at (upload_chunk t src s c) i
        ≡ (if leb c.offset i && ltb i (c.offset + c.size) then get_or src i 0 else byte_at s i)
  unfolding upload_chunk
  byte_at-upload_chunk s c i inside =
      byte_at-write_at s c.offset (take c.size (drop c.offset src)) i
      ∙ rw (length-chunk src c inside)
          (elim (Bool-cases (leb c.offset i && ltb i (c.offset + c.size))) [
            | inl k ↦ rw k (byte-chunk src c i (ground arith, ground arith))
            | inr k ↦ rw k refl
          ])

  chunk_keeps :
      (s : t.State) (c : Chunk) (i : ℕ) → InFile c → Right s i → Right (upload_chunk t src s c) i
  chunk_keeps s c i inside right = byte_at-upload_chunk s c i inside ∙ ground (arith, right)

  upload_keeps :
      (s : t.State) (cs : List Chunk) (i : ℕ)
      → All InFile cs
      → Right s i
      → Right (upload t src s cs) i
  unfolding upload
  upload_keeps s [] i inside right = right
  upload_keeps s (c ∷ cs) i inside right =
      upload_keeps (upload_chunk t src s c) cs i inside.1 (chunk_keeps s c i inside.0 right)

  -- A byte within a chunk that is written is right at the end.
  upload_writes :
      (s : t.State) (cs : List Chunk) (c : Chunk) (i : ℕ)
      → All InFile cs
      → In c cs
      → Within i c
      → Right (upload t src s cs) i
  unfolding upload
  upload_writes s [] c i inside none_in w = absurd none_in
  upload_writes s (x ∷ cs) c i inside (inl same) (low, high) =
      upload_keeps (upload_chunk t src s x) cs i inside.1 (
        byte_at-upload_chunk s x i inside.0
        ∙ ground (arith, ap (λ y. y.offset) same, ap (λ y. y.size) same))
  upload_writes s (x ∷ cs) c i inside (inr there) w =
      upload_writes (upload_chunk t src s x) cs c i inside.1 there w

-- Every byte of the file is within a chunk.
pub covered :
    (is_completed : ℕ → Bool) (chunk_size offset last : ℕ) (cs : List Chunk) (i : ℕ)
    → Tiles is_completed chunk_size offset last cs
    → offset ≤ i
    → i < last
    → (c : Chunk) × In c cs × Within i c
covered is_completed chunk_size offset last [] i end low high = absurd (omega (arith, end))
covered is_completed chunk_size offset last (c ∷ cs) i (at, some_byte, fits, skip, rest) low high =
    elim (Bool-cases (ltb i (offset + c.size))) [
      | inl k ↦ (c, inl refl, (ground (arith, at), ground (arith, at)))
      | inr k ↦
          let (d, there, within) =
            covered is_completed chunk_size (offset + c.size) last cs i rest (ground arith) high in
          (d, inr there, within)
    ]

offset-le-last :
    (is_completed : ℕ → Bool) (chunk_size offset last : ℕ) (cs : List Chunk)
    → Tiles is_completed chunk_size offset last cs
    → offset ≤ last
offset-le-last is_completed chunk_size offset last [] end = omega (arith, end)
offset-le-last is_completed chunk_size offset last (c ∷ cs) (at, some_byte, fits, skip, rest) =
    omega (arith, offset-le-last is_completed chunk_size (offset + c.size) last cs rest)

-- No chunk goes beyond the end of the file.
pub In-le-last :
    (is_completed : ℕ → Bool) (chunk_size offset last : ℕ) (cs : List Chunk) (x : Chunk)
    → Tiles is_completed chunk_size offset last cs
    → In x cs
    → x.offset + x.size ≤ last
In-le-last is_completed chunk_size offset last [] x end there = absurd there
In-le-last is_completed chunk_size offset last (c ∷ cs) x (at, some_byte, fits, skip, rest)
      (inl same) =
    subst (λ (y : Chunk). y.offset + y.size ≤ last) same
      (omega (arith, at, offset-le-last is_completed chunk_size (offset + c.size) last cs rest))
In-le-last is_completed chunk_size offset last (c ∷ cs) x (at, some_byte, fits, skip, rest)
      (inr there) =
    In-le-last is_completed chunk_size (offset + c.size) last cs x rest there

-- If the chunks written are all those that processChunks does not skip, in any order and as often
-- as may be, each within the file, and the chunks that it skips are on the target already, then
-- the target has every byte of the source in the end.
pub upload_complete :
    (t : Target) (f : IsFile t) (src : Bytes) (is_completed : ℕ → Bool) (chunk_size fuel : ℕ)
    (plan written : List Chunk) (s : t.State)
    → 0 < chunk_size
    → process_chunks is_completed chunk_size fuel (length src) 0 ≡ some plan
    → All (InFile t f src) written
    → ((c : Chunk) → In c plan → c.skipped ≡ false → In c written)
    → ((c : Chunk) (i : ℕ)
        → In c plan
        → c.skipped ≡ true
        → Within i c
        → f.byte_at s i ≡ get_or src i 0)
    → length src < fuel
    → (i : ℕ) → i < length src
    → f.byte_at (upload t src s written) i ≡ get_or src i 0
upload_complete t f src is_completed chunk_size fuel plan written s pos planned inside all old
      enough i high =
    let (cs, made, tiles) =
      process_chunks-Tiles is_completed chunk_size fuel (length src) 0 pos (omega arith) enough in
    let same : cs ≡ plan = ground (arith, made, planned) in
    let (c, there, within) =
      covered is_completed chunk_size 0 (length src) plan i
        (subst (λ p. Tiles is_completed chunk_size 0 (length src) p) same tiles) (omega arith)
        high in
    elim (Bool-cases c.skipped) [
      | inl k ↦ upload_keeps t f src s written i inside (old c i there k within)
      | inr k ↦ upload_writes t f src s written c i inside (all c there k) within
    ]
