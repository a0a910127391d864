-- ===== src/Base/Text.antt =====
-- Go's strings and byte slices as lists of bytes, with what the program uses of `strings`.
use Prim.Native.Nat.{ℕ}
use Prim.Native.Char.{code}
use Prim.Native.String.{String}
use mathlib.Core.Path.{◌≡◌, refl}
use mathlib.Core.Logic.{◌↔◌}
use mathlib.Core.Bool.{Bool, true, false, ◌&&◌, ◌||◌}
use mathlib.Core.Option.{Option, none, some}
use mathlib.Core.List.{List, [], ◌∷◌}
use native.Mathlib.Omega.{arith}
use gcp.Base.Tests.{◌==◌, if◌then◌else◌}

abbrev pub Bytes : Type 0
Bytes = List ℕ

abbrev pub Str : Type 0
Str = List ℕ

-- The bytes of an ASCII literal.
abbrev pub str : String → Str
str String.[] = []
str (String.◌∷◌ c s) = code c ∷ str s

-- bytes.Equal, and == on strings.
unfoldable pub equal : Str → Str → Bool
equal [] [] = true
equal [] (y ∷ ys) = false
equal (x ∷ xs) [] = false
equal (x ∷ xs) (y ∷ ys) = x == y && equal xs ys

pub equal_iff : (s t : Str) → (equal s t ≡ true) ↔ (s ≡ t)
unfolding equal
equal_iff [] [] = ((λ _. refl), (λ _. refl))
equal_iff [] (y ∷ ys) = ((λ h. cc), (λ h. cc))
equal_iff (x ∷ xs) [] = ((λ h. cc), (λ h. cc))
equal_iff (x ∷ xs) (y ∷ ys) = ground (arith, equal_iff xs ys)

pub equal_refl : (s : Str) → equal s s ≡ true
equal_refl s = (equal_iff s s).1 refl

abbrev pub is_empty {ℓ} : {A : Type ℓ} → List A → Bool
is_empty [] = true
is_empty (x ∷ xs) = false

-- strings.HasPrefix
unfoldable pub has_prefix : Str → Str → Bool
has_prefix s [] = true
has_prefix [] (p ∷ ps) = false
has_prefix (x ∷ s) (p ∷ ps) = x == p && has_prefix s ps

-- The last byte, which strings.HasSuffix with a one-byte suffix looks at.
unfoldable pub ends_with : Str → ℕ → Bool
ends_with [] c = false
ends_with (x ∷ []) c = x == c
ends_with (x ∷ (y ∷ ys)) c = ends_with (y ∷ ys) c

-- strings.Contains with a one-byte substring
unfoldable pub contains : Str → ℕ → Bool
contains [] c = false
contains (x ∷ xs) c = x == c || contains xs c

-- strings.ContainsAny
unfoldable pub contains_any : Str → Str → Bool
contains_any [] cs = false
contains_any (x ∷ xs) cs = contains cs x || contains_any xs cs

-- The text before the first `c` and the text behind it: strings.Index and the two slices.
unfoldable pub cut : ℕ → Str → Option (Str × Str)
cut c [] = none
cut c (x ∷ xs) =
    let rest = cut c xs in
    if x == c then some ([], xs) else elim rest [ none ↦ none | some (a, b) ↦ some (x ∷ a, b) ]

-- The same at the last `c`: strings.LastIndex and the two slices.
unfoldable pub cut_last : ℕ → Str → Option (Str × Str)
cut_last c [] = none
cut_last c (x ∷ xs) = elim (cut_last c xs) [
  | none ↦ (if x == c then some ([], xs) else none)
  | some (a, b) ↦ some (x ∷ a, b)
]
