-- ===== src/Lk/Fastboot/Transfer.antt =====
-- The transfers from the host, by `usb_read`.
use android4_4_4_r.Prelude.{
  ℕ, zero, suc, ◌-◌, ◌≤◌, ◌≡◌, ◌∙◌, ap, refl, arith, List, [], ◌∷◌, ◌++◌, length, length-take,
  length-drop, take, drop, true, false, some, ◌==◌,
}
use mathlib.Core.List.{append-nil, append_assoc}
use android4_4_4_r.Lk.Fastboot.{
  is_error, Completion, moved, Machine, done, bulk, read_loop, usb_read,
}

-- What the host sends of `b`, piece by piece.
abbrev pub pieces : ℕ → List ℕ → List Completion
pieces zero b = []
pieces (suc n) [] = []
pieces (suc n) (c ∷ b) =
    let k = bulk (length (c ∷ b)) in moved (take k (c ∷ b)) ∷ pieces n (drop k (c ∷ b))

read_loop-zero :
    (s : List Completion) (got : List ℕ) (m : Machine)
    → read_loop s 0 got m ≡ done (some got) (record m { completions = s })
unfolding read_loop
read_loop-zero [] got m = refl
read_loop-zero (c ∷ s) got m = refl

-- A whole piece is followed by the next one.
read_loop-moved :
    (b : List ℕ) (s : List Completion) (len : ℕ) (got : List ℕ) (m : Machine)
    → (len == 0) ≡ false
    → (length b == bulk len) ≡ true
    → read_loop (moved b ∷ s) len got m ≡ read_loop s (len - bulk len) (got ++ b) m
unfolding read_loop
read_loop-moved b s len got m h e = rw (read_loop, h) (rw e refl)

whole_piece : (b : List ℕ) → (length (take (bulk (length b)) b) == bulk (length b)) ≡ true
whole_piece b = ground (arith, length-take (bulk (length b)) b)

rest_length : (b : List ℕ) → length b - bulk (length b) ≡ length (drop (bulk (length b)) b)
rest_length b = ground (arith, length-drop (bulk (length b)) b)

take-drop : (n : ℕ) (b : List ℕ) → take n b ++ drop n b ≡ b
take-drop zero b = refl
take-drop (suc n) [] = refl
take-drop (suc n) (c ∷ b) = ap (λ t. c ∷ t) (take-drop n b)

read_loop-pieces :
    (n : ℕ) (b : List ℕ) (s : List Completion) (got : List ℕ) (m : Machine)
    → length b ≤ n
    → read_loop (pieces n b ++ s) (length b) got m
      ≡ done (some (got ++ b)) (record m { completions = s })
read_loop-pieces zero [] s got m l = read_loop-zero s got m ∙ rw append-nil
read_loop-pieces zero (c ∷ b) s got m l = absurd (omega (arith, l))
read_loop-pieces (suc n) [] s got m l = read_loop-zero s got m ∙ rw append-nil
read_loop-pieces (suc n) (c ∷ b') s got m l =
    let b = c ∷ b' in
    let k = bulk (length b) in
    let rest = drop k b in
    let shorter : length rest ≤ n = ground (arith, rest_length b, l) in
    read_loop-moved (take k b) (pieces n rest ++ s) (length b) got m (ground arith) (whole_piece b)
    ∙ ap (λ i. read_loop (pieces n rest ++ s) i (got ++ take k b) m) (rest_length b)
    ∙ read_loop-pieces n rest s (got ++ take k b) m shorter
    ∙ ap (λ t. done (some t) (record m { completions = s }))
        (append_assoc got (take k b) rest ∙ ap (λ t. got ++ t) (take-drop k b))

-- Where the host sends all that is asked for, in pieces of 16 KiB, `usb_read` gives it as it was
-- sent, and uses up these completions and no other.
pub usb_read-pieces :
    (b : List ℕ) (s : List Completion) (m : Machine)
    → is_error m.fastboot_state ≡ false
    → m.completions ≡ pieces (length b) b ++ s
    → usb_read (length b) m ≡ done (some b) (record m { completions = s })
unfolding usb_read
usb_read-pieces b s m h e =
    rw (usb_read, h)
      (ap (λ c. read_loop c (length b) [] m) e ∙ read_loop-pieces (length b) b s [] m (omega arith))
