-- ===== src/Server/Cache/Sweeps.antt =====
-- The sweep of fdCache in serve.go, and its close.
use gcp.Base.{
  ℕ, ◌-◌, ◌≡◌, refl, sym, ◌∙◌, inl, inr, Bool, Str, List, [], ◌∷◌, ◌++◌, Option, none, some, ltb,
  if◌then◌else◌, Bool-cases, append-nil, subst, equal, equal_iff,
}
use mathlib.Core.List.{Perm, perm_middle}
use mathlib.Core.List.Perm
use gcp.Base.Dict.{lookup}
use gcp.Server.Os.{Os}
use gcp.Server.Cache.{FdEntry, Disk, close_files, close, sweep_entries, sweep}
use gcp.Server.Cache.Laws.{entry}
use gcp.Server.Cache.Handles.{handles, Apart}
use gcp.Server.Cache.Descriptors.{Descriptors, Balanced}

module _ (os : Os) where
  -- The entry was last used longer ago than the timeout.
  abbrev pub expired : ℕ → ℕ → FdEntry os → Bool
  expired now idle_timeout e = ltb idle_timeout (now - e.last_access)

  -- An entry that a sweep keeps.
  abbrev pub kept : ℕ → ℕ → Option (FdEntry os) → Option (FdEntry os)
  kept now idle_timeout none = none
  kept now idle_timeout (some e) = if expired now idle_timeout e then none else some e

  pub lookup-sweep_entries :
      (now idle_timeout : ℕ) (q : Str) (es : List (Str × FdEntry os)) (w : os.World)
      → Apart es
      → lookup q (sweep_entries os now idle_timeout es w).0 ≡ kept now idle_timeout (lookup q es)
  unfolding sweep_entries lookup
  lookup-sweep_entries now idle_timeout q [] w apart = refl
  lookup-sweep_entries now idle_timeout q ((p, e) ∷ es) w (alone, apart) =
      elim (Bool-cases (expired now idle_timeout e)) [
        | inl old ↦
            let ih = lookup-sweep_entries now idle_timeout q es (os.close_file e.file w) apart in
            rw (old, sweep_entries)
              (elim (Bool-cases (equal p q)) [
                | inl t ↦
                    let same : p ≡ q = (equal_iff p q).0 t in
                    rw t (ih ∙ rw (← same, alone, old) refl)
                | inr t ↦ rw t ih
              ])
        | inr new ↦
            let ih = lookup-sweep_entries now idle_timeout q es w apart in
            rw (new, sweep_entries)
              (elim (Bool-cases (equal p q)) [ inl t ↦ rw (t, new) refl | inr t ↦ rw t ih ])
      ]

  pub sweep_entries-Apart :
      (now idle_timeout : ℕ) (es : List (Str × FdEntry os)) (w : os.World)
      → Apart es
      → Apart (sweep_entries os now idle_timeout es w).0
  unfolding sweep_entries
  sweep_entries-Apart now idle_timeout [] w apart = tt
  sweep_entries-Apart now idle_timeout ((p, e) ∷ es) w (alone, apart) =
      elim (Bool-cases (expired now idle_timeout e)) [
        | inl old ↦
            rw (old, sweep_entries)
              (sweep_entries-Apart now idle_timeout es (os.close_file e.file w) apart)
        | inr new ↦
            rw (new, sweep_entries)
              (
                lookup-sweep_entries now idle_timeout p es w apart ∙ rw alone refl,
                sweep_entries-Apart now idle_timeout es w apart,
              )
      ]

module _ (os : Os) (ds : Descriptors os) where
  open ds use {open_set}

  abbrev entry_files : List (Str × FdEntry os) → List os.File
  entry_files = handles (λ (e : FdEntry os). e.file)

  -- A sweep of some entries, where other files are open too.
  sweep_entries_balance :
      (now idle_timeout : ℕ) (es : List (Str × FdEntry os)) (w : os.World) (rest : List os.File)
      → Perm (open_set w) (entry_files es ++ rest)
      → let (left, w') = sweep_entries os now idle_timeout es w in
        Perm (open_set w') (entry_files left ++ rest)
  unfolding sweep_entries
  sweep_entries_balance now idle_timeout [] w rest p = p
  sweep_entries_balance now idle_timeout ((path, e) ∷ es) w rest p =
      elim (Bool-cases (expired os now idle_timeout e)) [
        | inl old ↦
            rw (old, sweep_entries)
              (sweep_entries_balance now idle_timeout es (os.close_file e.file w) rest
                (ds.closes e.file w _ p))
        | inr new ↦
            let (left, w') = sweep_entries os now idle_timeout es w in
            rw (new, sweep_entries)
              (Perm.trans
                (sweep_entries_balance now idle_timeout es w (e.file ∷ rest)
                  (Perm.trans p (Perm.symm (perm_middle (entry_files es) rest))))
                (perm_middle (entry_files left) rest))
      ]

  pub sweep-Balanced :
      (now idle_timeout : ℕ) (d : Disk os)
      → Balanced os ds d
      → Balanced os ds (sweep os now idle_timeout d)
  unfolding sweep
  sweep-Balanced now idle_timeout d b = record {
    apart = sweep_entries-Apart os now idle_timeout d.files d.world b.apart;
    balance =
        let (left, w') = sweep_entries os now idle_timeout d.files d.world in
        subst (λ xs. Perm (open_set w') xs) (append-nil (entry_files left))
          (sweep_entries_balance now idle_timeout d.files d.world [] (
            subst (λ xs. Perm (open_set d.world) xs) (sym (append-nil (entry_files d.files)))
              b.balance));
  }

  close_files_all :
      (es : List (Str × FdEntry os)) (w : os.World)
      → Perm (open_set w) (entry_files es)
      → open_set (close_files os es w) ≡ []
  unfolding close_files
  close_files_all [] w p = Perm.eq-nil p
  close_files_all ((path, e) ∷ es) w p =
      close_files_all es (os.close_file e.file w) (ds.closes e.file w _ p)

  pub close_all : (d : Disk os) → Balanced os ds d → open_set (close os d).world ≡ []
  unfolding close
  close_all d b = close_files_all d.files d.world b.balance

  -- A tick of sweepLoop keeps just the entries that were used within the timeout, as they are, and
  -- closes the files of the others: the server still has open just the files of its entries, each
  -- once.
  pub sweep-kept :
      (now idle_timeout : ℕ) (q : Str) (d : Disk os)
      → Balanced os ds d
      → let d' = sweep os now idle_timeout d in
        (entry os q d' ≡ kept os now idle_timeout (entry os q d))
        × Perm (open_set d'.world) (entry_files d'.files)
  unfolding sweep
  sweep-kept now idle_timeout q d b = (
    lookup-sweep_entries os now idle_timeout q d.files d.world b.apart,
    (sweep-Balanced now idle_timeout d b).balance,
  )
