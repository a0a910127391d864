-- ===== src/Ls/Listing.antt =====
-- The lines of ls.go for a directory, against the entries that the host sends.
use gcp.Base.{
  ◌≡◌, ◌≢◌, inl, inr, Bool, true, false, if◌then◌else◌, List, [], ◌∷◌, arith, Bool-cases,
}
use mathlib.Core.List.{Perm, Pairwise, Pairwise-singleton, forall_mem-cons, Permᴰ}
use mathlib.Core.List.Perm
use mathlib.Core.List.Permᴰ
use gcp.Message.Types.{DirEntry}
use gcp.Client.Remote.{Remote}
use gcp.Ls.{Format, less}

-- No entry comes before one that is ahead of it.
abbrev pub IsSorted : List DirEntry → Type 0
IsSorted = Pairwise (λ (a b : DirEntry). less b.name a.name ≡ false)

-- The names of a directory are different.
abbrev pub IsDistinct : List DirEntry → Type 0
IsDistinct = Pairwise (λ (a b : DirEntry). a.name ≢ b.name)

-- What sort.Slice is documented to do: it takes a strict weak order, and leaves the elements in it.
abbrev pub IsStrictWeak : (DirEntry → DirEntry → Bool) → Type 0
IsStrictWeak lt =
    ((a b : DirEntry) → lt a b ≡ true → lt b a ≡ false)
    × ((a b c : DirEntry) → lt a c ≡ true → lt a b ≡ false → lt b c ≡ true)

abbrev pub Sorts : Format → Type 0
Sorts f =
    (lt : DirEntry → DirEntry → Bool) (es : List DirEntry)
    → IsStrictWeak lt
    → Perm (f.sort_slice lt es) es
      × Pairwise (λ (a b : DirEntry). lt b a ≡ false) (f.sort_slice lt es)

-- An insertion sort, against which the others are compared.
module _ (lt : DirEntry → DirEntry → Bool) where
  unfoldable pub insert_entry : DirEntry → List DirEntry → List DirEntry
  insert_entry e [] = e ∷ []
  insert_entry e (x ∷ xs) = let rest = insert_entry e xs in if lt x e then x ∷ rest else e ∷ x ∷ xs

  unfoldable pub sort_entries : List DirEntry → List DirEntry
  unfolding insert_entry
  sort_entries [] = []
  sort_entries (e ∷ es) = insert_entry e (sort_entries es)

  insert_entry_perm : (e : DirEntry) (es : List DirEntry) → Perm (insert_entry e es) (e ∷ es)
  unfolding insert_entry
  insert_entry_perm e [] = Perm.rfl
  insert_entry_perm e (x ∷ xs) = elim (Bool-cases (lt x e)) [
    | inl k ↦
        rw (k, insert_entry) (Perm.trans (Perm.cons x (insert_entry_perm e xs)) (Perm.swap e x xs))
    | inr k ↦ rw (k, insert_entry) Perm.rfl
  ]

  sort_entries_perm : (es : List DirEntry) → Perm (sort_entries es) es
  unfolding sort_entries
  sort_entries_perm [] = Perm.rfl
  sort_entries_perm (e ∷ es) =
      Perm.trans (insert_entry_perm e (sort_entries es)) (Perm.cons e (sort_entries_perm es))

  -- None comes before one that is ahead of it.
  abbrev Ordered : List DirEntry → Type 0
  Ordered = Pairwise (λ (a b : DirEntry). lt b a ≡ false)

  not_before : (b c : DirEntry) → IsProp (lt b c ≡ false)
  not_before b c = hlevel

  module _ (strict : IsStrictWeak lt) where
    insert_entry-Ordered :
        (e : DirEntry) (es : List DirEntry) → Ordered es → Ordered (insert_entry e es)
    unfolding insert_entry
    insert_entry-Ordered e [] s = Pairwise-singleton _ e
    insert_entry-Ordered e (x ∷ xs) (Pairwise.cons below s) = elim (Bool-cases (lt x e)) [
      | inl k ↦
          rw (k, insert_entry)
            (Pairwise.cons
              (λ y there.
                (forall_mem-cons (λ c. not_before c x)).1 (strict.0 x e k, below) y
                  ((Perm.mem_iff (insert_entry_perm e xs)).0 there))
              (insert_entry-Ordered e xs s))
      | inr k ↦
          rw (k, insert_entry)
            (Pairwise.cons
              ((forall_mem-cons (λ c. not_before c e)).1
                (k, λ y there. ground (arith, below y there, k, strict.1 y x e)))
              (Pairwise.cons below s))
    ]

    -- The insertion sort does what is documented of sort.Slice.
    pub sort_entries-Ordered :
        (es : List DirEntry) → Perm (sort_entries es) es × Ordered (sort_entries es)
    unfolding sort_entries
    sort_entries-Ordered [] = (Perm.rfl, Pairwise.nil)
    sort_entries-Ordered (e ∷ es) = (
      sort_entries_perm (e ∷ es),
      insert_entry-Ordered e (sort_entries es) (sort_entries-Ordered es).1,
    )
