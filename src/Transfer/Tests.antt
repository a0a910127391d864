-- ===== src/Transfer/Tests.antt =====
-- The claims on the chunks of a file at a file of seven bytes.
use gcp.Base.{
  ◌∙◌, to_ℕ, pos, map, ℕ, zero, suc, ◌+◌, ◌-◌, ◌<◌, ◌≤◌, ◌≡◌, refl, inl, inr, Bool, true, false,
  Bytes, List, [], ◌∷◌, none, some, ltb, leb, length, ◌&&◌, ◌||◌, str, if◌then◌else◌, arith, get_or,
  ◌==◌, ap,
}
use gcp.Base.Result.{ok, err}
use gcp.Transfer.Resume.{
  ResumeState, Writing, working, add_all, flush_resume_state, load_resume_state, member,
  is_completed,
}
use gcp.Transfer.Resume.Laws.{ended, is_completed-flush_resume_state}
use gcp.Transfer.Resume.Fresh.{Transfer, run_transfers, run_transfers_fresh}
use gcp.Transfer.Schedule.{Chunk, Target, rounds, process_chunks, upload}
use gcp.Transfer.Schedule.Tiles.{Tiles}
use gcp.Transfer.Schedule.Signed.{piece_of, run_loop, run_loop-Tiles}
use gcp.Transfer.Schedule.Upload.{IsFile, In, Within, upload_complete}

-- A file that is the function of its bytes.
abbrev bytes_target : Target
bytes_target = record {
  State = ℕ → ℕ;
  write_at = λ s offset bs i.
      if leb offset i && ltb i (offset + length bs) then get_or bs (i - offset) 0 else s i;
}

abbrev bytes_file : IsFile bytes_target
bytes_file = record { byte_at = λ s i. s i; byte_at-write_at = λ s offset bs i. refl }

abbrev source : Bytes
source = 10 ∷ 11 ∷ 12 ∷ 13 ∷ 14 ∷ 15 ∷ 16 ∷ []

-- The chunk at 3 is completed before.
abbrev completed : ℕ → Bool
completed offset = offset == 3

abbrev first : Chunk
first = record { offset = 0; size = 3; skipped = false }

abbrev second : Chunk
second = record { offset = 3; size = 3; skipped = true }

abbrev third : Chunk
third = record { offset = 6; size = 1; skipped = false }

abbrev old_target : ℕ → ℕ
old_target i = if leb 3 i && ltb i 6 then i + 10 else 0

run_loop-Tiles_example :
    (cs : List Chunk) × (run_loop (λ o. completed (to_ℕ o)) (pos 3) 8 (pos 7) (pos 0)
      ≡ some (map piece_of cs))
    × Tiles completed 3 0 7 cs
run_loop-Tiles_example =
    run_loop-Tiles (λ o. completed (to_ℕ o)) 3 8 7 0 (ground arith) (ground arith) (ground arith)

planned : process_chunks completed 3 8 7 0 ≡ some (first ∷ second ∷ third ∷ [])
unfolding process_chunks rounds
planned = refl

written :
    (c : Chunk) → In c (first ∷ second ∷ third ∷ []) → c.skipped ≡ false → In c (third ∷ first ∷ [])
written c (inl e) h = inr (inl e)
written c (inr (inl e)) h = absurd (let k : true ≡ c.skipped = ap (λ d. d.skipped) e in cc)
written c (inr (inr (inl e))) h = inl e
written c (inr (inr (inr e))) h = absurd e

middle : (i : ℕ) → 3 ≤ i → i < 6 → old_target i ≡ get_or source i 0
middle zero h k = absurd (omega arith)
middle (suc zero) h k = absurd (omega arith)
middle (suc (suc zero)) h k = absurd (omega arith)
middle (suc (suc (suc zero))) h k = refl
middle (suc (suc (suc (suc zero)))) h k = refl
middle (suc (suc (suc (suc (suc zero))))) h k = refl
middle (suc (suc (suc (suc (suc (suc i)))))) h k = absurd (omega arith)

kept :
    (c : Chunk) (i : ℕ)
    → In c (first ∷ second ∷ third ∷ [])
    → c.skipped ≡ true
    → Within i c
    → old_target i ≡ get_or source i 0
kept c i (inl e) h w = absurd (let k : false ≡ c.skipped = ap (λ d. d.skipped) e in cc)
kept c i (inr (inl e)) h (low, high) =
    let at : 3 ≡ c.offset = ap (λ d. d.offset) e in
    let len : 3 ≡ c.size = ap (λ d. d.size) e in
    middle i (omega (arith, at)) (omega (arith, at, len))
kept c i (inr (inr (inl e))) h w = absurd (let k : false ≡ c.skipped = ap (λ d. d.skipped) e in cc)
kept c i (inr (inr (inr e))) h w = absurd e

upload_complete_example : upload bytes_target source old_target (third ∷ first ∷ []) 6 ≡ 16
upload_complete_example =
    upload_complete bytes_target bytes_file source completed 3 8 (first ∷ second ∷ third ∷ [])
      (third ∷ first ∷ []) old_target (ground arith) planned (ground arith, (ground arith, tt))
      written kept (ground arith) 6 (ground arith)

-- A state with the chunk at 3 completed, of a file of 7 bytes in chunks of 3.
abbrev resumed : ResumeState
resumed = record {
  saved = record { version = 1; source_size = 7; chunk_size = 3; completed = 3 ∷ [] };
  completed_set = 3 ∷ [];
  pending = [];
  batch = 2;
}

-- A sort for sort.Slice.
insert_sorted : ℕ → List ℕ → List ℕ
insert_sorted k [] = k ∷ []
insert_sorted k (x ∷ xs) = if ltb x k then x ∷ insert_sorted k xs else k ∷ x ∷ xs

sort : List ℕ → List ℕ
unfolding insert_sorted
sort [] = []
sort (x ∷ xs) = insert_sorted x (sort xs)

member-insert_sorted :
    (k x : ℕ) (xs : List ℕ) → member k (insert_sorted x xs) ≡ (x == k || member k xs)
unfolding member insert_sorted
member-insert_sorted k x [] = refl
member-insert_sorted k x (y ∷ ys) = ground (arith, member-insert_sorted k x ys)

member-sort : (k : ℕ) (xs : List ℕ) → member k (sort xs) ≡ member k xs
unfolding member sort
member-sort k [] = refl
member-sort k (x ∷ xs) = member-insert_sorted k x (sort xs) ∙ ground (arith, member-sort k xs)

abbrev failing : Writing
failing = record { mkdir = ok tt; rename = err (str "no space") }

is_completed-flush_resume_state_example :
    let r = add_all sort ((6, failing) ∷ (0, working) ∷ []) resumed none in
    is_completed (load_resume_state (flush_resume_state sort working r.0 r.1).2 7 3 2) 3
    ≡ (member 3 (ended ((6, failing) ∷ (0, working) ∷ [])) || is_completed (some resumed) 3)
is_completed-flush_resume_state_example =
    is_completed-flush_resume_state sort member-sort 7 3 2 3 (6, failing) ((0, working) ∷ [])
      resumed none (refl, refl, refl)

-- Two transfers of a file of 7 bytes, of which the first comes to two of its chunks.
abbrev transfers : List Transfer
transfers =
    record {
      source_size = 7;
      chunk_size = 3;
      batch = 1;
      calls = (0, working) ∷ (6, working) ∷ [];
      flushing = working;
    }
    ∷ record {
      source_size = 7;
      chunk_size = 3;
      batch = 1;
      calls = (3, working) ∷ [];
      flushing = working;
    }
    ∷ []

run_transfers_fresh_example :
    (run_transfers sort transfers none ≡ none)
    × (is_completed (load_resume_state (run_transfers sort transfers none) 7 3 1) 6 ≡ false)
run_transfers_fresh_example = run_transfers_fresh sort transfers 7 3 1 6
