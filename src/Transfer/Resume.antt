-- ===== src/Transfer/Resume.antt =====
-- resumeState of transfer.go, for one pair of source and target: its operations, with the state
-- file on the disk. The mutex makes each a step. JSON and the file operations are libraries: the
-- file is given by what it decodes to.
pub mod Laws
pub mod Fresh
use gcp.Base.{
  ℕ, ◌+◌, ◌-◌, ◌<◌, ◌≤◌, ◌≡◌, refl, inl, inr, Bool, true, false, not, ◌&&◌, ◌||◌, Str, List, [],
  ◌∷◌, ◌++◌, Option, none, some, length, ltb, leb, ◌==◌, if◌then◌else◌, arith, Bool-cases, is_empty,
}
use gcp.Base.Result.{Res, ok, err}

-- The fields that the state file holds.
pub record Saved : Type 0 where
  pub version : ℕ
  pub source_size : ℕ
  pub chunk_size : ℕ
  pub completed : List ℕ

pub record ResumeState : Type 0 where
  pub saved : Saved
  pub completed_set : List ℕ
  pub pending : List ℕ
  pub batch : ℕ

unfoldable pub member : ℕ → List ℕ → Bool
member k [] = false
member k (x ∷ xs) = x == k || member k xs

-- A key put into a set.
abbrev pub put : ℕ → List ℕ → List ℕ
put k xs = if member k xs then xs else k ∷ xs

unfoldable pub to_set : List ℕ → List ℕ
unfolding member
to_set [] = []
to_set (x ∷ xs) = put x (to_set xs)

-- loadResumeState, on what the file decodes to, if it can be opened and decoded.
unfoldable pub load_resume_state : Option Saved → ℕ → ℕ → ℕ → Option ResumeState
unfolding to_set
load_resume_state none source_size chunk_size batch = none
load_resume_state (some s) source_size chunk_size batch =
    if not (s.version == 1)
      || (not (s.source_size == source_size) || not (s.chunk_size == chunk_size))
    then none
    else some
        (record { saved = s; completed_set = to_set s.completed; pending = []; batch = batch })

-- How the file operations of saveResumeState go: MkdirAll, and then what writes and renames.
pub record Writing : Type 0 where
  pub mkdir : Res (Unit {0})
  pub rename : Res (Unit {0})

abbrev pub working : Writing
working = record { mkdir = ok tt; rename = ok tt }

-- sort.Slice, on offsets by <, is a parameter.
module _ (sort_slice : List ℕ → List ℕ) where
  -- The state with its Completed brought up to date.
  abbrev pub updated : ResumeState → ResumeState
  updated s = record s { saved = record s.saved { completed = sort_slice s.completed_set } }

  -- saveResumeState: its error, the state and the file. A file that cannot be written stays as it
  -- was, since the new one is renamed over it at the end.
  unfoldable pub save_resume_state :
      Writing → ResumeState → Option Saved → Res (Unit {0}) × ResumeState × Option Saved
  save_resume_state w s file = elim w.mkdir [
    | err e ↦ (err e, s, file)
    | ok made ↦ elim w.rename [
      | err e ↦ (err e, updated s, file)
      | ok done ↦ (ok tt, updated s, some (updated s).saved)
    ]
  ]

  -- addCompletedOffset on a state that is not nil.
  unfoldable pub add_completed_offset :
      Writing → ℕ → ResumeState → Option Saved → Res (Unit {0}) × ResumeState × Option Saved
  unfolding member
  add_completed_offset w offset s file =
      let s' : ResumeState = record s {
        completed_set = put offset s.completed_set;
        pending = s.pending ++ (offset ∷ []);
      } in
      if leb s.batch (length s'.pending) then save_resume_state w s' file else (ok tt, s', file)

  unfoldable pub flush_resume_state :
      Writing → ResumeState → Option Saved → Res (Unit {0}) × ResumeState × Option Saved
  flush_resume_state w s file =
      if ltb 0 (length s.pending) then save_resume_state w s file else (ok tt, s, file)

  -- The calls of addCompletedOffset for the chunks that end, in the order in which they end, each
  -- with how its file operations go.
  unfoldable pub add_all :
      List (ℕ × Writing) → ResumeState → Option Saved → ResumeState × Option Saved
  add_all [] s file = (s, file)
  add_all ((offset, w) ∷ calls) s file =
      let (e, s', file') = add_completed_offset w offset s file in add_all calls s' file'

-- isCompleted; `none` is nil.
unfoldable pub is_completed : Option ResumeState → ℕ → Bool
unfolding member
is_completed none offset = false
is_completed (some s) offset = member offset s.completed_set
