-- ===== src/Init/Tokens/Words.antt =====
-- The words that `next_token` reads, piece by piece.
use android4_4_4_r.Prelude.{
  ℕ, ◌+◌, List, [], ◌∷◌, ◌++◌, Bool, true, false, Text, All, ◌≡◌, ◌≢◌, ◌⊎◌, refl, sym, ap, ◌∙◌,
  arith, ◌==◌,
}
use mathlib.Core.List.{append-nil, append_assoc}
use native.Mathlib.Nat.{add-zero, add_assoc}
use android4_4_4_r.Init.Tokens.{
  Lexer, Token, resume, quoted, blanks, put, unknown, ByteClass, byte_class, escape, is_blank,
  text_loop, lead, next_token, begin_text, tail,
}

-- A piece of a word as it stands in the file. `letter c b` is a backslash with the letter `c` of an
-- escape for the byte `b`, `kept c` a backslash with a byte that is no escape, `join pad c` a
-- backslash, a newline and blanks in front of the byte `c`.
pub data Piece : Type 0 where
  plain : ℕ → Piece
  quote : Text → Piece
  letter : ℕ → ℕ → Piece
  kept : ℕ → Piece
  join : Text → ℕ → Piece

abbrev pub IsGood : Piece → Type 0
IsGood (plain c) = byte_class c ≡ ByteClass.other
IsGood (quote q) = All (λ c. (c ≢ 0) × (c ≢ b'"')) q
IsGood (letter c b) = (c ≢ b'\\') × (escape c 0 ≡ put b)
IsGood (kept c) = escape c 0 ≡ unknown
IsGood (join pad c) = All (λ b. is_blank b ≡ true) pad × (byte_class c ≡ ByteClass.other)

-- The bytes of a piece in the file.
abbrev pub source : Piece → Text
source (plain c) = c ∷ []
source (quote q) = b'"' ∷ (q ++ (b'"' ∷ []))
source (letter c b) = b'\\' ∷ c ∷ []
source (kept c) = b'\\' ∷ c ∷ []
source (join pad c) = b'\\' ∷ b'\n' ∷ (pad ++ (c ∷ []))

-- The bytes that the lexer makes of it: the letter of an escape stays, behind the byte that it
-- stands for.
abbrev pub value : Piece → Text
value (plain c) = c ∷ []
value (quote q) = q
value (letter c b) = b ∷ c ∷ []
value (kept c) = c ∷ []
value (join pad c) = c ∷ []

abbrev pub lines : Piece → ℕ
lines (join pad c) = 1
lines _ = 0

text_loop-quoted :
    (q x s : Text) (line : ℕ)
    → All (λ c. (c ≢ 0) × (c ≢ b'"')) q
    → text_loop quoted (q ++ (b'"' ∷ x)) s line ≡ text_loop resume x (s ++ q) line
unfolding text_loop
text_loop-quoted [] x s line h = rw append-nil
text_loop-quoted (c ∷ q) x s line h =
    ground (arith, text_loop-quoted q x (s ++ c ∷ []) line h.1, append_assoc s (c ∷ []) q)

text_loop-blanks :
    (pad : Text) (c : ℕ) (x s : Text) (line : ℕ)
    → All (λ b. is_blank b ≡ true) pad
    → byte_class c ≡ ByteClass.other
    → text_loop blanks (pad ++ (c ∷ x)) s line ≡ text_loop resume x (s ++ c ∷ []) line
unfolding text_loop
text_loop-blanks [] c x s line h k = ground arith
text_loop-blanks (b ∷ pad) c x s line h k = ground (arith, text_loop-blanks pad c x s line h.1 k)

text_loop-piece :
    (p : Piece) (x s : Text) (line : ℕ)
    → IsGood p
    → text_loop resume (source p ++ x) s line ≡ text_loop resume x (s ++ value p) (line + lines p)
unfolding text_loop
text_loop-piece (plain c) x s line h = ground arith
text_loop-piece (quote q) x s line h =
    ground (arith, text_loop-quoted q x s line h, append_assoc q (b'"' ∷ []) x)
text_loop-piece (letter c b) x s line h = ground (arith, append_assoc s (b ∷ []) (c ∷ []))
text_loop-piece (kept c) x s line h = ground arith
text_loop-piece (join pad c) x s line h =
    ground (arith, text_loop-blanks pad c x s (line + 1) h.0 h.1, append_assoc pad (c ∷ []) x)

abbrev pub sources : List Piece → Text
sources [] = []
sources (p ∷ ps) = source p ++ sources ps

abbrev pub values : List Piece → Text
values [] = []
values (p ∷ ps) = value p ++ values ps

abbrev pub all_lines : List Piece → ℕ
all_lines [] = 0
all_lines (p ∷ ps) = lines p + all_lines ps

text_loop-pieces :
    (ps : List Piece) (x s : Text) (line : ℕ)
    → All IsGood ps
    → text_loop resume (sources ps ++ x) s line
      ≡ text_loop resume x (s ++ values ps) (line + all_lines ps)
text_loop-pieces [] x s line h = rw (append-nil, add-zero)
text_loop-pieces (p ∷ ps) x s line h = rw append_assoc (
    text_loop-piece p (sources ps ++ x) s line h.0
    ∙ text_loop-pieces ps x (s ++ value p) (line + lines p) h.1
    ∙ rw (append_assoc, add_assoc))

-- A word that begins with this piece is not taken for a comment.
abbrev pub Opens : Piece → Type 0
Opens (plain c) = c ≢ b'#'
Opens _ = Unit

-- What ends a word: a blank, a newline, which is held back for the next call, or the end of the text.
abbrev pub Ends : Text → Type 0
Ends [] = Unit
Ends (c ∷ x) = (byte_class c ≡ ByteClass.blank) ⊎ (byte_class c ≡ ByteClass.newline)

abbrev pub is_newline : Text → Bool
is_newline [] = false
is_newline (c ∷ x) = c == b'\n'

text_loop-Ends :
    (x s : Text) (line : ℕ)
    → Ends x
    → text_loop resume x s line ≡ record {
      rest = tail x;
      written = s;
      line = line;
      pending = is_newline x;
      token = Token.text;
    }
unfolding text_loop
text_loop-Ends [] s line h = refl
text_loop-Ends (c ∷ x) s line h = ground arith

lead-blanks :
    (pad : Text) (t : Lexer) (x : Text)
    → All (λ b. byte_class b ≡ ByteClass.blank) pad
    → lead t (pad ++ x) ≡ lead t x
unfolding lead byte_class
lead-blanks [] t x h = refl
lead-blanks (b ∷ pad) t x h = ground (arith, lead-blanks pad t x h.1)

lead-word :
    (p : Piece) (t : Lexer) (x : Text)
    → IsGood p
    → Opens p
    → lead t (source p ++ x) ≡ begin_text t (source p ++ x)
unfolding lead byte_class
lead-word (plain c) t x h o = ground arith
lead-word (quote q) t x h o = refl
lead-word (letter c b) t x h o = refl
lead-word (kept c) t x h o = refl
lead-word (join pad c) t x h o = refl

begin_text-pieces :
    (p : Piece) (ps : List Piece) (x : Text) (t : Lexer)
    → All IsGood (p ∷ ps)
    → Ends x
    → begin_text t (sources (p ∷ ps) ++ x) ≡ (
      record {
        ptr = tail x;
        word = values (p ∷ ps);
        line = t.line + all_lines (p ∷ ps);
        pending = is_newline x;
      },
      Token.text,
    )
unfolding begin_text
begin_text-pieces p ps x t good ends =
    rw (text_loop-pieces (p ∷ ps) x [] t.line good)
      (rw (text_loop-Ends x (values (p ∷ ps)) (t.line + all_lines (p ∷ ps)) ends))

-- A word that stands behind blanks, made of good pieces and ended by `x`, is read as the text of its
-- pieces. The lexer then stands behind the byte that ends the word, it has counted the continued
-- lines, and it holds a newline back if that byte is one.
pub next_token-pieces :
    (pad : Text) (p : Piece) (ps : List Piece) (x w : Text) (line : ℕ)
    → All (λ b. byte_class b ≡ ByteClass.blank) pad
    → All IsGood (p ∷ ps)
    → Opens p
    → Ends x
    → next_token
        (record { ptr = pad ++ (sources (p ∷ ps) ++ x); word = w; line = line; pending = false })
      ≡ (
        record {
          ptr = tail x;
          word = values (p ∷ ps);
          line = line + all_lines (p ∷ ps);
          pending = is_newline x;
        },
        Token.text,
      )
unfolding next_token
next_token-pieces pad p ps x w line blank good opens ends =
    let y = sources (p ∷ ps) ++ x in
    let t : Lexer = record { ptr = pad ++ y; word = w; line = line; pending = false } in
    let assoc = append_assoc (source p) (sources ps) x in
    lead-blanks pad t y blank
    ∙ ap (lead t) assoc
    ∙ lead-word p t (sources ps ++ x) good.0 opens
    ∙ ap (begin_text t) (sym assoc)
    ∙ begin_text-pieces p ps x t good ends
