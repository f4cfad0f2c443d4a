-- ===== src/Prelude/Strings.antt =====
-- C strings as the list of their bytes before the terminator, and the calls of <string.h> that the
-- program makes on them.
use Prim.Native.Char.{code}
use Prim.Native.Nat.{ℕ}
use Prim.Native.String.{String}
use mathlib.Core.Path.{◌≡◌}
use mathlib.Core.Logic.{◌↔◌}
use mathlib.Core.Bool.{Bool, true, false, ◌&&◌}
use mathlib.Core.List.{List, [], ◌∷◌}
use native.Mathlib.Omega.{arith}
use android4_4_4_r.Prelude.Bools.{◌==◌, if◌then◌else◌}

abbrev pub Text : Type 0
Text = List ℕ

-- The bytes of an ASCII literal.
abbrev pub codes : String → Text
codes String.[] = []
codes (String.◌∷◌ c s) = code c ∷ codes s

-- `!strcmp(a, b)`
unfoldable pub text_eq : Text → Text → Bool
text_eq [] [] = true
text_eq (a ∷ x) (b ∷ y) = a == b && text_eq x y
text_eq _ _ = false

pub text_eq_iff : (x y : Text) → (text_eq x y ≡ true) ↔ (x ≡ y)
unfolding text_eq
text_eq_iff [] [] = ground arith
text_eq_iff (a ∷ x) (b ∷ y) = ground (arith, text_eq_iff x y)
text_eq_iff [] (b ∷ y) = ground arith
text_eq_iff (a ∷ x) [] = ground arith

-- `!strncmp(p, x, strlen(p))`
unfoldable pub has_prefix : Text → Text → Bool
has_prefix [] x = true
has_prefix (a ∷ p) [] = false
has_prefix (a ∷ p) (b ∷ x) = a == b && has_prefix p x

-- The string in a buffer: its bytes up to a terminator, or to its end.
unfoldable pub c_string : List ℕ → Text
c_string [] = []
c_string (c ∷ s) = if c == 0 then [] else c ∷ c_string s

-- `*x`: the terminator stands behind the last byte.
abbrev pub peek : Text → ℕ
peek [] = 0
peek (c ∷ x) = c
