-- ===== src/Init/Tokens/Bounds.antt =====
-- The word that `next_token` writes back never passes the bytes that it has read, and every token
-- but the end of the file takes something from the buffer.
use android4_4_4_r.Prelude.{
  ℕ, peek, suc, ◌+◌, ◌*◌, ◌≤◌, ◌<◌, [], ◌∷◌, false, Text, length, length-append, ◌≡◌, ◌++◌, ◌≢◌,
  refl, arith, if◌then◌else◌,
}
use android4_4_4_r.Init.Tokens.{
  Lexer, Token, eof, Mode, resume, quoted, copy, skip, join, blanks, ByteClass, nul, Scan,
  byte_class, Escape, stop, put, skip_one, next_line, unknown, after_backslash, text_round,
  text_loop, skip_comment, lead, next_token, lead_round, begin_text, end_comment, Start, word, end,
  comment, start_class, escape, tail, quote, backslash, other,
}

-- What is written and what is left to read fit in `n` bytes, and `k` bytes at most are left.
abbrev Fits : ℕ → ℕ → Scan → Type 0
Fits n k r = (length r.written + length r.rest ≤ n) × (length r.rest ≤ k)

abbrev Continues : Text → (Mode → Text → ℕ → Scan) → Type 0
Continues x go = (m : Mode) (t : Text) (l : ℕ) → Fits (length t + length x) (length x) (go m t l)

length-snoc : (s : Text) (c : ℕ) → length (s ++ c ∷ []) ≡ suc (length s)
length-snoc s c = omega (arith, length-append {0} s (c ∷ []))

after_backslash-Fits :
    (e : Escape) (x s : Text) (line : ℕ) (go : Mode → Text → ℕ → Scan)
    → Continues x go
    → Fits (length s + suc (length x)) (length x) (after_backslash e x s line go)
unfolding after_backslash
after_backslash-Fits stop x s line go h = omega arith
after_backslash-Fits (put c) x s line go h =
    omega (arith, h resume (s ++ c ∷ []) line, length-snoc s c)
after_backslash-Fits skip_one x s line go h = omega (arith, h skip s line)
after_backslash-Fits next_line x s line go h = omega (arith, h join s (line + 1))
after_backslash-Fits unknown x s line go h = omega (arith, h copy s line)

text_round-Fits :
    (k : ByteClass) (c : ℕ) (x s : Text) (line : ℕ) (go : Mode → Text → ℕ → Scan)
    → Continues x go
    → Fits (length s + suc (length x)) (suc (length x)) (text_round k c x s line go)
unfolding text_round
text_round-Fits ByteClass.nul c x s line go h = omega arith
text_round-Fits ByteClass.blank c x s line go h = omega arith
text_round-Fits ByteClass.newline c x s line go h = omega arith
text_round-Fits ByteClass.quote c x s line go h = omega (arith, h quoted s line)
text_round-Fits ByteClass.backslash c x s line go h =
    omega (arith, after_backslash-Fits (escape (peek x) (peek (tail x))) x s line go h)
text_round-Fits ByteClass.other c x s line go h =
    omega (arith, h resume (s ++ c ∷ []) line, length-snoc s c)

text_loop-Fits :
    (m : Mode) (x s : Text) (line : ℕ)
    → Fits (length s + length x) (length x) (text_loop m x s line)
unfolding text_loop
text_loop-Fits quoted [] s line = omega arith
text_loop-Fits _ [] s line = omega arith
text_loop-Fits resume (c ∷ x) s line =
    text_round-Fits (byte_class c) c x s line _ (λ m t l. text_loop-Fits m x t l)
text_loop-Fits quoted (c ∷ x) s line = ground (
  arith,
  text_loop-Fits resume x s line,
  text_loop-Fits quoted x (s ++ c ∷ []) line,
  length-snoc s c,
)
text_loop-Fits copy (c ∷ x) s line =
    omega (arith, text_loop-Fits resume x (s ++ c ∷ []) line, length-snoc s c)
text_loop-Fits skip (c ∷ x) s line = omega (arith, text_loop-Fits resume x s line)
text_loop-Fits join (c ∷ x) s line = omega (arith, text_loop-Fits blanks x s line)
text_loop-Fits blanks (c ∷ x) s line = ground (
  arith,
  text_loop-Fits blanks x s line,
  text_round-Fits (byte_class c) c x s line (λ m t l. text_loop m x t l)
      (λ m t l. text_loop-Fits m x t l),
)

text_round-advances :
    (k : ByteClass) (c : ℕ) (x s : Text) (line : ℕ) (go : Mode → Text → ℕ → Scan)
    → k ≢ nul
    → Continues x go
    → length (text_round k c x s line go).rest ≤ length x
unfolding text_round
text_round-advances nul c x s line go ne h = absurd (ne refl)
text_round-advances ByteClass.blank c x s line go ne h = omega arith
text_round-advances ByteClass.newline c x s line go ne h = omega arith
text_round-advances quote c x s line go ne h = omega (arith, h quoted s line)
text_round-advances backslash c x s line go ne h =
    (after_backslash-Fits (escape (peek x) (peek (tail x))) x s line go h).1
text_round-advances other c x s line go ne h = (h resume (s ++ c ∷ []) line).1

-- A word takes at least its first byte, which is not the terminator.
text_loop-advances :
    (c : ℕ) (x : Text) (line : ℕ)
    → byte_class c ≢ nul
    → length (text_loop resume (c ∷ x) [] line).rest ≤ length x
unfolding text_loop
text_loop-advances c x line ne =
    text_round-advances (byte_class c) c x [] line _ ne (λ m t l. text_loop-Fits m x t l)

-- What is left to do in the buffer: its bytes, and the newline that is held back.
abbrev pub todo : Lexer → ℕ
todo t = 2 * length t.ptr + (if t.pending then 1 else 0)

length-skip_comment : (x : Text) → length (skip_comment x) ≤ length x
unfolding skip_comment
length-skip_comment [] = omega arith
length-skip_comment (c ∷ x) = ground (arith, length-skip_comment x)

-- What holds of a token that is read from the buffer `x`.
record Reads (x : Text) (r : Lexer × Token) : Type 0 where
  fits : r.1 ≡ Token.text → length r.0.word + length r.0.ptr ≤ length x
  advances : r.1 ≢ eof → todo r.0 < 2 * length x

begin_text-Reads :
    (t : Lexer) (c : ℕ) (x : Text) → byte_class c ≢ nul → Reads (c ∷ x) (begin_text t (c ∷ x))
unfolding begin_text
begin_text-Reads t c x ne =
    let a = text_loop-Fits resume (c ∷ x) [] t.line in
    let b = text_loop-advances c x t.line ne in
    record { fits = λ _. omega (arith, a.0); advances = λ _. ground arith }

end_comment-Reads :
    (t : Lexer) (x y : Text) → t.pending ≡ false → length y ≤ length x → Reads x (end_comment t y)
unfolding end_comment
end_comment-Reads t x [] p h = record { fits = λ e. cc; advances = λ ne. absurd (ne refl) }
end_comment-Reads t x (c ∷ y) p h = ground arith

lead_round-Reads :
    (k : Start) (t : Lexer) (c : ℕ) (x : Text) (go : Lexer × Token)
    → t.pending ≡ false
    → (k ≡ Start.word → byte_class c ≢ nul)
    → Reads x go
    → Reads (c ∷ x) (lead_round k t c x go)
unfolding lead_round
lead_round-Reads end t c x go p ne h = ground arith
lead_round-Reads Start.newline t c x go p ne h = ground arith
lead_round-Reads Start.blank t c x go p ne h = record {
  fits = λ e. omega (arith, h.fits e);
  advances = λ e. omega (arith, h.advances e);
}
lead_round-Reads comment t c x go p ne h =
    end_comment-Reads t (c ∷ x) (skip_comment (c ∷ x)) p (length-skip_comment (c ∷ x))
lead_round-Reads word t c x go p ne h = begin_text-Reads t c x (ne refl)

start_class-word : (c : ℕ) → start_class c ≡ Start.word → byte_class c ≢ nul
unfolding start_class byte_class
start_class-word c e f = ground arith

lead-Reads : (t : Lexer) (x : Text) → t.pending ≡ false → Reads x (lead t x)
unfolding lead
lead-Reads t [] p = ground arith
lead-Reads t (c ∷ x) p =
    lead_round-Reads (start_class c) t c x (lead t x) p (start_class-word c) (lead-Reads t x p)

-- Where `next_token` returns a word, the bytes written back and the bytes left fit in what the
-- buffer held: the word is written over bytes that have been read.
pub next_token-fits :
    (t : Lexer)
    → (next_token t).1 ≡ Token.text
    → length (next_token t).0.word + length (next_token t).0.ptr ≤ length t.ptr
unfolding next_token
next_token-fits t h = ground (arith, lead-Reads t t.ptr)

-- Every token but the end of the file takes something from the buffer.
pub next_token-advances : (t : Lexer) → (next_token t).1 ≢ eof → todo (next_token t).0 < todo t
unfolding next_token
next_token-advances t h = ground (arith, lead-Reads t t.ptr)
