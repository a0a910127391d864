-- ===== src/Transfer/Resume/Laws.antt =====
-- resumeState of transfer.go: what a state file brings back, and when it is written.
use gcp.Base.{
  ℕ, ◌+◌, ◌≤◌, ◌≡◌, refl, ◌∙◌, inl, inr, true, ◌||◌, List, [], ◌∷◌, ◌++◌, Option, some, length, ltb,
  leb, ◌==◌, arith, Bool-cases, length-append,
}
use gcp.Base.Result.{Res-cases}
use gcp.Transfer.Resume.{
  Saved, ResumeState, member, put, to_set, load_resume_state, updated, Writing, working,
  save_resume_state, add_completed_offset, flush_resume_state, add_all, is_completed,
}

member-put : (k x : ℕ) (xs : List ℕ) → member k (put x xs) ≡ (x == k || member k xs)
unfolding member
member-put k x xs = ground arith

member-to_set : (k : ℕ) (xs : List ℕ) → member k (to_set xs) ≡ member k xs
unfolding member to_set
member-to_set k [] = refl
member-to_set k (x ∷ xs) = member-put k x (to_set xs) ∙ ground (arith, member-to_set k xs)

eqb_refl : (n : ℕ) → (n == n) ≡ true
eqb_refl n = ground arith

-- The state is of this version of the program, for a file and chunks of these sizes.
abbrev pub IsFor : ℕ → ℕ → ResumeState → Type 0
IsFor source_size chunk_size s =
    (s.saved.version ≡ 1) × (s.saved.source_size ≡ source_size) × (s.saved.chunk_size ≡ chunk_size)

-- The chunks that have ended.
abbrev pub ended : List (ℕ × Writing) → List ℕ
ended [] = []
ended ((offset, w) ∷ calls) = offset ∷ ended calls

-- What is documented of sort.Slice: it orders what is there.
abbrev pub KeepsMembers : (List ℕ → List ℕ) → Type 0
KeepsMembers sort_slice = (k : ℕ) (xs : List ℕ) → member k (sort_slice xs) ≡ member k xs

module _ (sort_slice : List ℕ → List ℕ) (keeps : KeepsMembers sort_slice) where
  load-updated :
      (source_size chunk_size batch offset : ℕ) (s : ResumeState)
      → IsFor source_size chunk_size s
      → is_completed
          (load_resume_state (some (updated sort_slice s).saved) source_size chunk_size batch)
          offset
        ≡ member offset s.completed_set
  unfolding load_resume_state is_completed
  load-updated source_size chunk_size batch offset s (v, a, b) =
      rw (v, a, b)
        (rw (eqb_refl source_size, eqb_refl chunk_size)
          (member-to_set offset (sort_slice s.completed_set) ∙ keeps offset s.completed_set))

  -- What a call of saveResumeState or addCompletedOffset keeps.
  saved_keeps :
      (source_size chunk_size : ℕ) (w : Writing) (s : ResumeState) (file : Option Saved)
      → IsFor source_size chunk_size s
      → IsFor source_size chunk_size (save_resume_state sort_slice w s file).1
        × ((save_resume_state sort_slice w s file).1.completed_set ≡ s.completed_set)
        × ((save_resume_state sort_slice w s file).1.pending ≡ s.pending)
        × ((save_resume_state sort_slice w s file).1.batch ≡ s.batch)
  unfolding save_resume_state
  saved_keeps source_size chunk_size w s file h = elim (Res-cases w.mkdir) [
    | inr (e, k) ↦ rw (k, save_resume_state) (h, refl, refl, refl)
    | inl (made, k) ↦ elim (Res-cases w.rename) [
      | inr (e, l) ↦ rw (k, l, save_resume_state) (h, refl, refl, refl)
      | inl (done, l) ↦ rw (k, l, save_resume_state) (h, refl, refl, refl)
    ]
  ]

  -- The state that a chunk's offset is put into.
  abbrev with_offset : ℕ → ResumeState → ResumeState
  with_offset offset s = record s {
    completed_set = put offset s.completed_set;
    pending = s.pending ++ (offset ∷ []);
  }

  added_keeps :
      (source_size chunk_size : ℕ) (w : Writing) (offset : ℕ) (s : ResumeState)
      (file : Option Saved)
      → IsFor source_size chunk_size s
      → IsFor source_size chunk_size (add_completed_offset sort_slice w offset s file).1
        × ((add_completed_offset sort_slice w offset s file).1.completed_set
            ≡ put offset s.completed_set)
        × ((add_completed_offset sort_slice w offset s file).1.pending ≡ s.pending ++ (offset ∷ []))
        × ((add_completed_offset sort_slice w offset s file).1.batch ≡ s.batch)
  unfolding add_completed_offset
  added_keeps source_size chunk_size w offset s file h =
      elim (Bool-cases (leb s.batch (length (s.pending ++ (offset ∷ []))))) [
        | inl k ↦ rw k (saved_keeps source_size chunk_size w (with_offset offset s) file h)
        | inr k ↦ rw k (h, refl, refl, refl)
      ]

  all_keep :
      (source_size chunk_size : ℕ) (calls : List (ℕ × Writing)) (s : ResumeState)
      (file : Option Saved) (k : ℕ)
      → IsFor source_size chunk_size s
      → IsFor source_size chunk_size (add_all sort_slice calls s file).0
        × (member k (add_all sort_slice calls s file).0.completed_set
            ≡ (member k (ended calls) || member k s.completed_set))
        × (length (add_all sort_slice calls s file).0.pending ≡ length s.pending + length calls)
        × ((add_all sort_slice calls s file).0.batch ≡ s.batch)
  unfolding add_all member
  all_keep source_size chunk_size [] s file k h = (h, refl, omega arith, refl)
  all_keep source_size chunk_size ((x, w) ∷ xs) s file k h =
      let (is_for, set, pend, batch) = added_keeps source_size chunk_size w x s file h in
      let s' : ResumeState = (add_completed_offset sort_slice w x s file).1 in
      let file' : Option Saved = (add_completed_offset sort_slice w x s file).2 in
      let (is_for', set', pend', batch') = all_keep source_size chunk_size xs s' file' k is_for in
      (
        is_for',
        set' ∙ rw set (rw (member-put k x s.completed_set) (ground arith)),
        pend' ∙ rw pend (omega (arith, length-append s.pending (x ∷ []))),
        batch' ∙ batch,
      )

  -- After any chunks have ended, in any order, and however each write of the state file went, a flush
  -- that works leaves a file from which the next run takes just the chunks that have ended
  -- and those that were completed before, if the file and the chunk size are the same. There is a
  -- state, so one was loaded.
  pub is_completed-flush_resume_state :
      (source_size chunk_size batch k : ℕ) (call : ℕ × Writing) (calls : List (ℕ × Writing))
      (s : ResumeState) (file : Option Saved)
      → IsFor source_size chunk_size s
      → let r = add_all sort_slice (call ∷ calls) s file in
        is_completed
          (load_resume_state
            (flush_resume_state sort_slice working r.0 r.1).2
            source_size
            chunk_size
            batch)
          k
        ≡ (member k (ended (call ∷ calls)) || is_completed (some s) k)
  unfolding flush_resume_state save_resume_state is_completed
  is_completed-flush_resume_state source_size chunk_size batch k call calls s file h =
      let r = add_all sort_slice (call ∷ calls) s file in
      let (is_for, set, pend, same) = all_keep source_size chunk_size (call ∷ calls) s file k h in
      let some_pending : ltb 0 (length r.0.pending) ≡ true = ground (arith, pend) in
      rw some_pending (load-updated source_size chunk_size batch k r.0 is_for ∙ set)

  -- pending is never emptied: once as many chunks have ended as a batch has, the next one writes the
  -- state file, and so does every later one.
  pub add_completed_offset_rewrites :
      (source_size chunk_size offset : ℕ) (calls : List (ℕ × Writing)) (s : ResumeState)
      (file : Option Saved)
      → IsFor source_size chunk_size s
      → s.batch ≤ length calls + 1
      → let r = add_all sort_slice calls s file in
        let (e, s', file') = add_completed_offset sort_slice working offset r.0 r.1 in
        file' ≡ some s'.saved
  unfolding add_completed_offset save_resume_state
  add_completed_offset_rewrites source_size chunk_size offset calls s file h full =
      let r = add_all sort_slice calls s file in
      let (is_for, set, pend, same) = all_keep source_size chunk_size calls s file 0 h in
      let flushes : leb r.0.batch (length (r.0.pending ++ (offset ∷ []))) ≡ true =
        ground (arith, pend, same, length-append r.0.pending (offset ∷ [])) in
      rw flushes refl
