-- ===== src/Lk/Fastboot/Digits.antt =====
-- The length of a download is printed and read back.
use android4_4_4_r.Prelude.{
  ℕ, zero, suc, ◌+◌, ◌*◌, ◌/◌, ◌%◌, ◌^◌, ◌<◌, ◌≡◌, ◌∙◌, ap, sym, refl, arith, [], ◌∷◌, ◌++◌, some,
  Text,
}
use mathlib.Core.List.{append-nil, append_assoc}
use android4_4_4_r.Lk.Fastboot.{hex_digit, hex_from, hex2unsigned}
use android4_4_4_r.Lk.Fastboot.Commands.{print_digit, print_hex}

hex_digit-print_digit : (d : ℕ) → d < 16 → hex_digit (print_digit d) ≡ some d
unfolding hex_digit print_digit
hex_digit-print_digit d h = ground arith

-- The value that `n` becomes by the `k` digits of a number.
shifted : ℕ → ℕ → ℕ → ℕ
shifted zero n v = n
shifted (suc k) n v = shifted k n (v / 16) * 16 % 2 ^ 32 + v % 16

hex_from-print_hex :
    (k n v : ℕ) (y : Text) → hex_from n (print_hex k v ++ y) ≡ hex_from (shifted k n v) y
unfolding hex_from print_hex shifted
hex_from-print_hex zero n v y = refl
hex_from-print_hex (suc k) n v y =
    let d = print_digit (v % 16) ∷ [] in
    ap (hex_from n) (append_assoc (print_hex k (v / 16)) d y)
    ∙ hex_from-print_hex k n (v / 16) (print_digit (v % 16) ∷ y)
    ∙ rw (hex_from, hex_digit-print_digit (v % 16) (omega arith)) refl

shifted_8 : (v : ℕ) → v < 2 ^ 32 → shifted 8 0 v ≡ v
unfolding shifted
shifted_8 v h = omega (arith, h)

-- `hex2unsigned` reads back what `%08x` prints of a number of 32 bits.
pub hex2unsigned-print_hex : (v : ℕ) → v < 2 ^ 32 → hex2unsigned (print_hex 8 v) ≡ v
unfolding hex_from
hex2unsigned-print_hex v h =
    ap (hex_from 0) (sym (append-nil (print_hex 8 v))) ∙ hex_from-print_hex 8 0 v [] ∙ shifted_8 v h
