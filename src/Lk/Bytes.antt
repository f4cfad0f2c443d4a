-- ===== src/Lk/Bytes.antt =====
-- Numbers in buffers of bytes: the macros GET_LWORD_FROM_BYTE, GET_LLWORD_FROM_BYTE and
-- PUT_LONG_LONG of bootable/lk/platform/msm_shared, and `memcpy`.
use android4_4_4_r.Prelude.{
  ℕ, zero, suc, ◌+◌, ◌*◌, ◌/◌, ◌%◌, ◌^◌, ◌<◌, ◌≡◌, refl, ap, ◌∙◌, arith, List, [], ◌∷◌, ◌++◌,
  length, take, drop,
}

-- the `n` bytes at `i`
abbrev pub slice : ℕ → ℕ → List ℕ → List ℕ
slice n i b = take n (drop i b)

-- The number of bytes, the lowest first. They are or'ed, shifted by 8 bits each; none overlaps with
-- another, so that the bits are added.
unfoldable pub word_of : List ℕ → ℕ
word_of [] = 0
word_of (c ∷ b) = c + 256 * word_of b

abbrev pub get_lword : ℕ → List ℕ → ℕ
get_lword i b = word_of (slice 4 i b)

abbrev pub get_llword : ℕ → List ℕ → ℕ
get_llword i b = word_of (slice 8 i b)

-- the lowest `n` bytes of a number
unfoldable pub bytes_of : ℕ → ℕ → List ℕ
bytes_of zero v = []
bytes_of (suc n) v = (v % 256) ∷ bytes_of n (v / 256)

pub length-bytes_of : (n v : ℕ) → length (bytes_of n v) ≡ n
unfolding bytes_of
length-bytes_of zero v = refl
length-bytes_of (suc n) v = ap suc (length-bytes_of n (v / 256))

pub word_of-bytes_of_8 : (v : ℕ) → v < 2 ^ 64 → word_of (bytes_of 8 v) ≡ v
unfolding word_of bytes_of
word_of-bytes_of_8 v h = omega arith

pub word_of-bytes_of_4 : (v : ℕ) → v < 2 ^ 32 → word_of (bytes_of 4 v) ≡ v
unfolding word_of bytes_of
word_of-bytes_of_4 v h = omega arith

pub drop-append {ℓ} :
    {A : Type ℓ} (x y : List A) (i n : ℕ) → n ≡ length x + i → drop n (x ++ y) ≡ drop i y
drop-append [] y i n e = ap (λ m. drop m y) (omega (arith, e))
drop-append (c ∷ x) y i zero e = absurd (omega (arith, e))
drop-append (c ∷ x) y i (suc n) e = drop-append x y i n (omega (arith, e))

pub take-append {ℓ} : {A : Type ℓ} (x y : List A) (n : ℕ) → n ≡ length x → take n (x ++ y) ≡ x
take-append [] y zero e = refl
take-append [] y (suc n) e = absurd (omega (arith, e))
take-append (c ∷ x) y zero e = absurd (omega (arith, e))
take-append (c ∷ x) y (suc n) e = ap (λ t. c ∷ t) (take-append x y n (omega (arith, e)))

-- a part of a buffer, which stands behind `x`
pub slice-append {ℓ} :
    {A : Type ℓ} (x y z : List A) (n i : ℕ)
    → i ≡ length x
    → n ≡ length y
    → take n (drop i (x ++ (y ++ z))) ≡ y
slice-append x y z n i e f =
    ap (take n) (drop-append x (y ++ z) 0 i (omega (arith, e))) ∙ take-append y z n f
