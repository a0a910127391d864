-- ===== src/Base/Exec.antt =====
-- Actions on a state that may fail: what was done before a failure stays done.
use gcp.Base.Text.{Str}
use mathlib.Core.Path.{◌≡◌, refl, ap, ◌∙◌}
use mathlib.Core.Logic.{inl, inr}
use gcp.Base.Result.{Res, ok, err, Res-cases}

abbrev pub Exec {ℓ} : Type ℓ → Type ℓ → Type ℓ
Exec S A = S → Res A × S

module _ {ℓ} {S A : Type ℓ} where
  abbrev pub pure : A → Exec S A
  pure a s = (ok a, s)

  abbrev pub raise : Str → Exec S A
  raise e s = (err e, s)

  abbrev pub lift : Res A → Exec S A
  lift r s = (r, s)

module _ {ℓ} {S A B : Type ℓ} where
  abbrev continue : Res A → (A → Exec S B) → Exec S B
  continue (ok a) f s = f a s
  continue (err e) f s = (err e, s)

  infixl 5 ◌>>=◌ ◌>>◌
  abbrev pub ◌>>=◌ : Exec S A → (A → Exec S B) → Exec S B
  ◌>>=◌ m f s = let (r, s') = m s in continue r f s'

  abbrev pub ◌>>◌ : Exec S A → Exec S B → Exec S B
  m >> n = m >>= λ _. n

-- A chain that succeeds is its second part after a first that succeeds.
pub success_then {ℓ} :
    {S A B : Type ℓ} (m : Exec S A) (n : Exec S B) (s : S) (b : B)
    → ((m >> n) s).0 ≡ ok b
    → (a : A) × ((m s).0 ≡ ok a) × ((m >> n) s ≡ n (m s).1)
success_then m n s b done = elim (Res-cases (m s).0) [
  | inl (a, e) ↦ (a, e, rw e refl)
  | inr (text, e) ↦ absurd (cc (rw e at done))
]

-- The parts of a chain that succeeds.
pub success_bind {ℓ} :
    {S A B : Type ℓ} (m : Exec S A) (f : A → Exec S B) (s : S) (b : B)
    → ((m >>= f) s).0 ≡ ok b
    → (a : A) × ((m s).0 ≡ ok a) × ((f a (m s).1).0 ≡ ok b)
success_bind m f s b done = elim (Res-cases (m s).0) [
  | inl (a, e) ↦ (a, e, (rw e at done))
  | inr (text, e) ↦ absurd (cc (rw e at done))
]

-- Chains of equal parts are equal.
pub bind_eq {ℓ} :
    {S A B : Type ℓ} (m m' : Exec S A) (f f' : A → Exec S B) (s : S)
    → m s ≡ m' s
    → ((a : A) → (m s).0 ≡ ok a → f a (m s).1 ≡ f' a (m s).1)
    → (m >>= f) s ≡ (m' >>= f') s
bind_eq m m' f f' s same next =
    (elim (Res-cases (m s).0) [ inl (a, e) ↦ rw e (next a e) | inr (text, e) ↦ rw e refl ])
    ∙ ap (λ r. continue r.0 f' r.1) same

-- A chain whose first part succeeds.
pub bind_ok {ℓ} :
    {S A B : Type ℓ} (m : Exec S A) (f : A → Exec S B) (s : S) (a : A)
    → (m s).0 ≡ ok a
    → (m >>= f) s ≡ f a (m s).1
bind_ok m f s a e = rw e refl
