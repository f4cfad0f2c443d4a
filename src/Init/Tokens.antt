-- ===== src/Init/Tokens.antt =====
-- The lexer of the configuration language: `next_token` of init/init/parser.c.
--
-- The buffer behind `state->ptr` is the list of its bytes up to the terminator, `s` is the part of
-- the word that has been written back, from `state->text` on. The source writes the word over the
-- bytes that it has read; `Tokens.Bounds` has the fact that lets the two be kept apart here.
pub mod Bounds
pub mod Words
use android4_4_4_r.Prelude.{
  ℕ, ◌+◌, [], ◌∷◌, ◌++◌, Bool, true, false, ◌&&◌, ◌||◌, not, Text, peek, ◌==◌, if◌then◌else◌,
}

pub data Token : Type 0 where
  eof text newline : Token

-- The fields of `struct parse_state` that the lexer uses. `pending` is `nexttoken == T_NEWLINE`, the
-- one value that is ever stored there.
pub record Lexer : Type 0 where
  pub ptr : Text
  pub word : Text
  pub line : ℕ
  pub pending : Bool

-- Where the loop at `textresume` stands. The last four are what an escape does with the bytes behind
-- the backslash: `copy` is `*s++ = *x++`, `skip` is `x++`, `join` is `x++` with the loop over blanks
-- behind it, and `blanks` is that loop.
pub data Mode : Type 0 where
  resume quoted copy skip join blanks : Mode

pub data ByteClass : Type 0 where
  nul blank newline quote backslash other : ByteClass

-- the `switch (*x)` at `textresume`
unfoldable pub byte_class : ℕ → ByteClass
byte_class c =
    if c == 0
    then nul
    else if c == b' ' || c == b'\t' || c == b'\r'
    then blank
    else if c == b'\n'
    then newline
    else if c == b'"'
    then quote
    else if c == b'\\'
    then backslash
    else other

abbrev pub is_blank : ℕ → Bool
is_blank c = c == b' ' || c == b'\t'

pub data Escape : Type 0 where
  stop : Escape
  put : ℕ → Escape
  skip_one next_line unknown : Escape

-- the `switch (*x)` behind a backslash; `d` is `x[1]`
unfoldable pub escape : ℕ → ℕ → Escape
escape c d =
    if c == 0
    then stop
    else if c == b'n'
    then put b'\n'
    else if c == b'r'
    then put b'\r'
    else if c == b't'
    then put b'\t'
    else if c == b'\\'
    then put b'\\'
    else if c == b'\r' && not (d == b'\n')
    then skip_one
    else if c == b'\r' || c == b'\n'
    then next_line
    else unknown

-- What the lexer holds at `textdone`, or at the `return T_EOF` of an unterminated quote.
pub record Scan : Type 0 where
  pub rest : Text
  pub written : Text
  pub line : ℕ
  pub pending : Bool
  pub token : Token

abbrev textdone : Text → Text → ℕ → Bool → Scan
textdone x s line p = record { rest = x; written = s; line = line; pending = p; token = Token.text }

abbrev pub tail : Text → Text
tail [] = []
tail (c ∷ x) = x

-- what an escape does, in terms of what the loop goes on with at the byte behind the backslash
after_backslash : Escape → Text → Text → ℕ → (Mode → Text → ℕ → Scan) → Scan
after_backslash stop x s line go = textdone x s line false
after_backslash (put c) x s line go = go resume (s ++ c ∷ []) line
after_backslash skip_one x s line go = go skip s line
after_backslash next_line x s line go = go join s (line + 1)
after_backslash unknown x s line go = go copy s line

-- One round at `textresume` with `c` at `x[0]`. `go m s line` is the rest of the loop from `x + 1`.
text_round : ByteClass → ℕ → Text → Text → ℕ → (Mode → Text → ℕ → Scan) → Scan
unfolding after_backslash
text_round nul c x s line go = textdone (c ∷ x) s line false
text_round blank c x s line go = textdone x s line false
text_round newline c x s line go = textdone x s line true
text_round quote c x s line go = go quoted s line
text_round backslash c x s line go = after_backslash (escape (peek x) (peek (tail x))) x s line go
text_round other c x s line go = go resume (s ++ c ∷ []) line

-- the loop at `textresume`, with the inner loops
unfoldable pub text_loop : Mode → Text → Text → ℕ → Scan
unfolding text_round byte_class escape
text_loop quoted [] s line = record {
  rest = [];
  written = s;
  line = line;
  pending = false;
  token = eof;
}
text_loop _ [] s line = textdone [] s line false
text_loop resume (c ∷ x) s line = text_round (byte_class c) c x s line (λ m t l. text_loop m x t l)
text_loop quoted (c ∷ x) s line =
    if c == 0
    then record { rest = c ∷ x; written = s; line = line; pending = false; token = eof }
    else if c == b'"'
    then text_loop resume x s line
    else text_loop quoted x (s ++ c ∷ []) line
text_loop copy (c ∷ x) s line = text_loop resume x (s ++ c ∷ []) line
text_loop skip (c ∷ x) s line = text_loop resume x s line
text_loop join (c ∷ x) s line = text_loop blanks x s line
text_loop blanks (c ∷ x) s line = elim (is_blank c) [
  | true ↦ text_loop blanks x s line
  | false ↦ text_round (byte_class c) c x s line (λ m t l. text_loop m x t l)
]

-- the loop `while (*x && (*x != '\n')) x++`
pub skip_comment : Text → Text
skip_comment [] = []
skip_comment (c ∷ x) = if c == 0 || c == b'\n' then c ∷ x else skip_comment x

-- the `switch (*x)` of the first loop
pub data Start : Type 0 where
  end newline blank comment word : Start

start_class : ℕ → Start
start_class c =
    if c == 0
    then end
    else if c == b'\n'
    then newline
    else if c == b' ' || c == b'\t' || c == b'\r'
    then blank
    else if c == b'#'
    then comment
    else word

-- behind a comment
end_comment : Lexer → Text → Lexer × Token
end_comment t [] = (record t { ptr = [] }, eof)
end_comment t (c ∷ x) =
    if c == b'\n' then (record t { ptr = x }, newline) else (record t { ptr = c ∷ x }, eof)

begin_text : Lexer → Text → Lexer × Token
begin_text t x =
    let r = text_loop resume x [] t.line in
    (record { ptr = r.rest; word = r.written; line = r.line; pending = r.pending }, r.token)

lead_round : Start → Lexer → ℕ → Text → Lexer × Token → Lexer × Token
lead_round end t c x go = (record t { ptr = c ∷ x }, eof)
lead_round newline t c x go = (record t { ptr = x }, newline)
lead_round blank t c x go = go
lead_round comment t c x go = end_comment t (skip_comment (c ∷ x))
lead_round word t c x go = begin_text t (c ∷ x)

-- the first loop, over the bytes in front of a token
unfoldable pub lead : Lexer → Text → Lexer × Token
unfolding lead_round start_class skip_comment end_comment begin_text
lead t [] = (record t { ptr = [] }, eof)
lead t (c ∷ x) = let go = lead t x in lead_round (start_class c) t c x go

unfoldable pub next_token : Lexer → Lexer × Token
unfolding lead
next_token t = if t.pending then (record t { pending = false }, newline) else lead t t.ptr
