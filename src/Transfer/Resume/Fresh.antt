-- ===== src/Transfer/Resume/Fresh.antt =====
-- resumeState of transfer.go over whole transfers, from loadResumeState to flushResumeState, with
-- the nil state of a transfer that has no state file.
use gcp.Base.{ℕ, ◌≡◌, refl, ap, ◌∙◌, false, List, [], ◌∷◌, Option, none, some}
use gcp.Base.Result.{Res, ok}
use gcp.Transfer.Resume.{
  Saved, ResumeState, Writing, load_resume_state, add_completed_offset, flush_resume_state,
  is_completed,
}

abbrev with_state :
    Res (Unit {0}) × ResumeState × Option Saved → Res (Unit {0}) × Option ResumeState × Option Saved
with_state (e, s, file) = (e, some s, file)

-- A transfer: its sizes and batch, the chunks that succeed in their order, and how the file
-- operations go.
pub record Transfer : Type 0 where
  pub source_size : ℕ
  pub chunk_size : ℕ
  pub batch : ℕ
  pub calls : List (ℕ × Writing)
  pub flushing : Writing

module _ (sort_slice : List ℕ → List ℕ) where
  -- addCompletedOffset and flushResumeState with their test for nil.
  unfoldable pub add_offset :
      Writing
      → ℕ
      → Option ResumeState
      → Option Saved
      → Res (Unit {0}) × Option ResumeState × Option Saved
  add_offset w offset none file = (ok tt, none, file)
  add_offset w offset (some s) file = with_state (add_completed_offset sort_slice w offset s file)

  unfoldable pub flush :
      Writing
      → Option ResumeState
      → Option Saved
      → Res (Unit {0}) × Option ResumeState × Option Saved
  flush w none file = (ok tt, none, file)
  flush w (some s) file = with_state (flush_resume_state sort_slice w s file)

  unfoldable pub add_offsets :
      List (ℕ × Writing) → Option ResumeState → Option Saved → Option ResumeState × Option Saved
  unfolding add_offset
  add_offsets [] s file = (s, file)
  add_offsets ((offset, w) ∷ calls) s file =
      let (e, s', file') = add_offset w offset s file in add_offsets calls s' file'

  abbrev load : Transfer → Option Saved → Option ResumeState
  load t file = load_resume_state file t.source_size t.chunk_size t.batch

  -- The state file behind a transfer, and behind several from one source to one target.
  unfoldable pub run_transfer : Transfer → Option Saved → Option Saved
  unfolding add_offsets flush
  run_transfer t file =
      let (s, file') = add_offsets t.calls (load t file) file in (flush t.flushing s file').2

  unfoldable pub run_transfers : List Transfer → Option Saved → Option Saved
  unfolding run_transfer
  run_transfers [] file = file
  run_transfers (t ∷ ts) file = run_transfers ts (run_transfer t file)

  add_offsets-none :
      (calls : List (ℕ × Writing)) (file : Option Saved)
      → add_offsets calls none file ≡ (none, file)
  unfolding add_offsets add_offset
  add_offsets-none [] file = refl
  add_offsets-none ((offset, w) ∷ calls) file = add_offsets-none calls file

  run_transfer-none : (t : Transfer) → run_transfer t none ≡ none
  unfolding run_transfer load_resume_state flush
  run_transfer-none t = rw (run_transfer, add_offsets-none t.calls none) refl

  run_transfers-none : (ts : List Transfer) → run_transfers ts none ≡ none
  unfolding run_transfers
  run_transfers-none [] = refl
  run_transfers-none (t ∷ ts) = ap (run_transfers ts) (run_transfer-none t) ∙ run_transfers-none ts

  -- Where there is no state file, none comes to be, whatever transfers are made from the source to the
  -- target, with whatever chunks that succeed, even where every file operation works; and so the next
  -- transfer, whatever its sizes, has no state and skips no chunk: nothing is ever resumed.
  pub run_transfers_fresh :
      (ts : List Transfer) (source_size chunk_size batch offset : ℕ)
      → (run_transfers ts none ≡ none)
        × (is_completed
              (load_resume_state (run_transfers ts none) source_size chunk_size batch)
              offset
            ≡ false)
  unfolding load_resume_state is_completed
  run_transfers_fresh ts source_size chunk_size batch offset =
      (run_transfers-none ts, rw (run_transfers-none ts) refl)
