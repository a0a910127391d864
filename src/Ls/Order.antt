-- ===== src/Ls/Order.antt =====
-- The order of names behind the listing of ls.go, and the entry that is put in its place.
use gcp.Base.{◌≡◌, ◌≢◌, refl, subst, inl, inr, true, false, Str, [], ◌∷◌, arith, Bool-cases}
use gcp.Ls.{less}

pub less_asym : (s t : Str) → less s t ≡ true → less t s ≡ false
unfolding less
less_asym s [] h = cc
less_asym [] (y ∷ ys) h = refl
less_asym (x ∷ xs) (y ∷ ys) h = ground (arith, less_asym xs ys)

pub less_trans : (s t u : Str) → less s t ≡ true → less t u ≡ true → less s u ≡ true
unfolding less
less_trans s t [] h k = cc
less_trans s [] (z ∷ zs) h k = cc
less_trans [] (y ∷ ys) (z ∷ zs) h k = refl
less_trans (x ∷ xs) (y ∷ ys) (z ∷ zs) h k = ground (arith, less_trans xs ys zs)

-- Names that neither comes before the other are equal.
pub less_connex : (s t : Str) → less s t ≡ false → less t s ≡ false → s ≡ t
unfolding less
less_connex [] [] h k = refl
less_connex [] (y ∷ ys) h k = cc
less_connex (x ∷ xs) [] h k = cc
less_connex (x ∷ xs) (y ∷ ys) h k = ground (arith, less_connex xs ys)

pub less_total : (s t : Str) → s ≢ t → less s t ≡ false → less t s ≡ true
less_total s t ne h = elim (Bool-cases (less t s)) [
  | inl k ↦ k
  | inr k ↦ absurd (ne (less_connex s t h k))
]

-- A name that is not behind another comes before all that the other comes before.
pub less_mixed : (s t u : Str) → less s u ≡ true → less s t ≡ false → less t u ≡ true
less_mixed s t u h k = elim (Bool-cases (less t s)) [
  | inl before ↦ less_trans t s u before h
  | inr not_before ↦ subst (λ n. less n u ≡ true) (less_connex s t k not_before) h
]
