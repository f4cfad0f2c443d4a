-- ===== src/Tests/Tokens.antt =====
-- The lexer: init/init/parser.c.
use android4_4_4_r.Prelude.{
  ◌+◌, ◌≤◌, [], ◌∷◌, ◌++◌, ◌≡◌, refl, arith, true, false, Text, codes, length, inr,
}
use android4_4_4_r.Init.Tokens.{Lexer, Token, byte_class, escape, next_token, text_loop}
use android4_4_4_r.Init.Tokens.Bounds.{next_token-fits}
use android4_4_4_r.Init.Tokens.Words.{plain, quote, letter, sources, next_token-pieces}

abbrev at : Text → Lexer
at x = record { ptr = x; word = []; line = 3; pending = false }

abbrev setprop : Lexer
setprop = at (codes "  setprop a.b \"x y\"\n")

setprop_word : next_token setprop ≡ (
  record { ptr = codes "a.b \"x y\"\n"; word = codes "setprop"; line = 3; pending = false },
  Token.text,
)
unfolding next_token text_loop
setprop_word = refl

-- The letter of an escape stays in the word.
escape_word : (next_token (at (codes "a\\nb c"))).0.word ≡ codes "a\nnb"
unfolding next_token text_loop
escape_word = refl

-- A backslash in front of carriage return and newline ends the word, and counts a line.
crlf_word :
    next_token (at (codes "a\\\r\n  b\n"))
    ≡ (record { ptr = codes "  b\n"; word = codes "a"; line = 4; pending = true }, Token.text)
unfolding next_token text_loop
crlf_word = refl

-- An unterminated quote ends the file.
open_quote : (next_token (at (codes "a \"b c\nd"))).1 ≡ Token.text
unfolding next_token text_loop
open_quote = refl

setprop_is_text : (next_token setprop).1 ≡ Token.text
unfolding next_token text_loop
setprop_is_text = refl

next_token-fits_example :
    length (next_token setprop).0.word + length (next_token setprop).0.ptr ≤ length setprop.ptr
next_token-fits_example = next_token-fits setprop setprop_is_text

next_token-pieces_example :
    next_token (record {
      ptr =
          codes " "
          ++ (sources (plain b'a' ∷ letter b'n' 10 ∷ quote (codes "x y") ∷ []) ++ codes "\nb");
      word = [];
      line = 3;
      pending = false;
    })
    ≡ (record { ptr = codes "b"; word = codes "a\nnx y"; line = 3; pending = true }, Token.text)
unfolding byte_class escape
next_token-pieces_example =
    next_token-pieces (codes " ") (plain b'a') (letter b'n' 10 ∷ quote (codes "x y") ∷ [])
      (codes "\nb") [] 3 (refl, tt)
      (
        refl,
        (
          (λ e. omega arith, refl),
          (
            (
              (λ e. omega arith, λ e. omega arith),
              ((λ e. omega arith, λ e. omega arith), ((λ e. omega arith, λ e. omega arith), tt)),
            ),
            tt,
          ),
        ),
      )
      (λ e. omega arith) (inr refl)
