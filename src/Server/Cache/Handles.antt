-- ===== src/Server/Cache/Handles.antt =====
-- The files behind the entries of fdCache in serve.go, as its map changes.
use gcp.Base.{
  ◌≡◌, refl, ap, inl, inr, Str, List, [], ◌∷◌, none, some, arith, Bool-cases, equal, equal_iff,
}
use mathlib.Core.List.{Perm}
use mathlib.Core.List.Perm
use gcp.Base.Dict.{lookup, insert, remove, lookup-insert, lookup-remove}

module _ {ℓ κ} {V : Type ℓ} {F : Type κ} (file : V → F) where
  -- The files of the entries.
  abbrev pub handles : List (Str × V) → List F
  handles [] = []
  handles ((k, e) ∷ d) = file e ∷ handles d

  pub handles-insert_new :
      (k : Str) (e : V) (d : List (Str × V))
      → lookup k d ≡ none
      → Perm (handles (insert k e d)) (file e ∷ handles d)
  unfolding lookup insert
  handles-insert_new k e [] none_there = Perm.rfl
  handles-insert_new k e ((j, v) ∷ d) none_there = elim (Bool-cases (equal j k)) [
    | inl t ↦ absurd (cc (rw t at none_there))
    | inr t ↦
        rw (t, insert)
          (Perm.trans (Perm.cons (file v) (handles-insert_new k e d (rw t at none_there)))
            (Perm.swap (file e) (file v) (handles d)))
  ]

  pub handles-insert_over :
      (k : Str) (e x : V) (d : List (Str × V))
      → lookup k d ≡ some x
      → Perm (file x ∷ handles (insert k e d)) (file e ∷ handles d)
  unfolding lookup insert
  handles-insert_over k e x [] there = absurd (cc there)
  handles-insert_over k e x ((j, v) ∷ d) there = elim (Bool-cases (equal j k)) [
    | inl t ↦
        let same : v ≡ x = cc (rw t at there) in
        rw (t, insert, ← same) (Perm.swap (file e) (file v) (handles d))
    | inr t ↦
        rw (t, insert)
          (Perm.trans (Perm.swap (file v) (file x) (handles (insert k e d))) (
            Perm.trans (Perm.cons (file v) (handles-insert_over k e x d (rw t at there)))
              (Perm.swap (file e) (file v) (handles d))))
  ]

-- No key has two entries.
abbrev pub Apart {ℓ} : {V : Type ℓ} → List (Str × V) → Type ℓ
Apart [] = Unit
Apart ((k, e) ∷ d) = (lookup k d ≡ none) × Apart d

module _ {ℓ} {V : Type ℓ} where
  pub insert-Apart : (k : Str) (e : V) (d : List (Str × V)) → Apart d → Apart (insert k e d)
  unfolding lookup insert
  insert-Apart k e [] apart = (refl, tt)
  insert-Apart k e ((j, v) ∷ d) (alone, apart) = elim (Bool-cases (equal j k)) [
    | inl t ↦ rw (t, insert) (alone, apart)
    | inr t ↦
        rw (t, insert)
          (
            rw (lookup-insert k j e d) (ground (arith, alone, t, equal_iff k j, equal_iff j k)),
            insert-Apart k e d apart,
          )
  ]

  pub remove-Apart : (k : Str) (d : List (Str × V)) → Apart d → Apart (remove k d)
  unfolding remove
  remove-Apart k [] apart = tt
  remove-Apart k ((j, v) ∷ d) (alone, apart) = elim (Bool-cases (equal j k)) [
    | inl t ↦ rw (t, remove) (remove-Apart k d apart)
    | inr t ↦
        rw (t, remove) (rw (lookup-remove k j d) (ground (arith, alone)), remove-Apart k d apart)
  ]

  pub remove_new : (k : Str) (d : List (Str × V)) → lookup k d ≡ none → remove k d ≡ d
  unfolding lookup remove
  remove_new k [] none_there = refl
  remove_new k ((j, v) ∷ d) none_there = elim (Bool-cases (equal j k)) [
    | inl t ↦ absurd (cc (rw t at none_there))
    | inr t ↦ rw (t, remove) (ap (◌∷◌ (j, v)) (remove_new k d (rw t at none_there)))
  ]

pub handles-remove {ℓ κ} :
    {V : Type ℓ} {F : Type κ} (file : V → F) (k : Str) (x : V) (d : List (Str × V))
    → Apart d
    → lookup k d ≡ some x
    → Perm (handles file d) (file x ∷ handles file (remove k d))
unfolding lookup remove
handles-remove file k x [] apart there = absurd (cc there)
handles-remove file k x ((j, v) ∷ d) (alone, apart) there = elim (Bool-cases (equal j k)) [
  | inl t ↦
      let same : v ≡ x = cc (rw t at there) in
      let at : j ≡ k = (equal_iff j k).0 t in
      rw (t, remove, remove_new k d (rw (← at) alone), same) Perm.rfl
  | inr t ↦
      rw (t, remove)
        (Perm.trans (Perm.cons (file v) (handles-remove file k x d apart (rw t at there)))
          (Perm.swap (file x) (file v) (handles file (remove k d))))
]
