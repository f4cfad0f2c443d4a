-- ===== src/Prelude/Maps.antt =====
-- Functions from numbers, changed at one place, and membership in lists of numbers.
use Prim.Native.Nat.{ℕ}
use mathlib.Core.Path.{◌≡◌}
use mathlib.Core.Bool.{Bool, true, false, ◌||◌}
use mathlib.Core.List.{List, [], ◌∷◌, ◌++◌}
use native.Mathlib.Omega.{arith}
use android4_4_4_r.Prelude.Bools.{◌==◌, if◌then◌else◌}

abbrev pub update {ℓ} : {A : Type ℓ} → (ℕ → A) → ℕ → A → ℕ → A
update f i a j = if i == j then a else f j

abbrev pub is_empty {ℓ} : {A : Type ℓ} → List A → Bool
is_empty [] = true
is_empty (x ∷ xs) = false

unfoldable pub elem : ℕ → List ℕ → Bool
elem i [] = false
elem i (j ∷ xs) = i == j || elem i xs

-- no number stands twice
abbrev pub IsNodup : List ℕ → Type 0
IsNodup [] = Unit
IsNodup (i ∷ xs) = (elem i xs ≡ false) × IsNodup xs

pub elem-append : (i : ℕ) (xs ys : List ℕ) → elem i (xs ++ ys) ≡ (elem i xs || elem i ys)
unfolding elem
elem-append i [] ys = ground arith
elem-append i (x ∷ xs) ys = ground (arith, elem-append i xs ys)

pub append-IsNodup : (xs : List ℕ) (i : ℕ) → elem i xs ≡ false → IsNodup xs → IsNodup (xs ++ i ∷ [])
unfolding elem
append-IsNodup [] i h n = ground arith
append-IsNodup (x ∷ xs) i h n = ground (arith, elem-append x xs (i ∷ []), append-IsNodup xs i)
