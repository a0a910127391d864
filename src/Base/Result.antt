-- ===== src/Base/Result.antt =====
-- Go's (value, error) pairs, an error being its text.
use mathlib.Core.Path.{◌≡◌, refl}
use mathlib.Core.Logic.{◌⊎◌, inl, inr}
use mathlib.Core.Bool.{Bool, true, false}
use mathlib.Core.Option.{Option, none, some}
use gcp.Base.Text.{Str}

pub data Res {ℓ} (A : Type ℓ) : Type ℓ where
  ok : A → Res A
  err : Str → Res A

infixl 5 ◌>>=◌
abbrev pub ◌>>=◌ {ℓ κ} : {A : Type ℓ} {B : Type κ} → Res A → (A → Res B) → Res B
ok a >>= f = f a
err e >>= f = err e

abbrev pub or_err {ℓ} : {A : Type ℓ} → Option A → Str → Res A
or_err none e = err e
or_err (some a) e = ok a

abbrev pub guard : Bool → Str → Res (Unit {0})
guard true e = ok tt
guard false e = err e

pub Res-cases {ℓ} : {A : Type ℓ} (r : Res A) → ((a : A) × (r ≡ ok a)) ⊎ ((e : Str) × (r ≡ err e))
Res-cases (ok a) = inl (a, refl)
Res-cases (err e) = inr (e, refl)
