-- ===== src/Init/Parser/Total.antt =====
-- `parse_config` reads every text to its end.
use android4_4_4_r.Prelude.{
  ℕ, zero, suc, ◌+◌, ◌<◌, ◌≢◌, [], ◌≡◌, refl, arith, Option, some, Text, length,
}
use android4_4_4_r.Init.Platform.{Platform}
use android4_4_4_r.Init.Tokens.{Token, eof, text, newline, next_token}
use android4_4_4_r.Init.Tokens.Bounds.{todo, next_token-advances}
use android4_4_4_r.Init.Parser.Frame.{finish_line-Reads}
use android4_4_4_r.Init.Parser.{
  Config, Rc, parse_line, on_newline, on_text, on_token, config_loop, parse_config, start,
  count_line,
}

module _ (pf : Platform) (property_get : Text → Text) where
  todo-on_newline : (k : Config) → todo (on_newline pf property_get k).lexer ≡ todo k.lexer
  unfolding on_newline
  todo-on_newline k = ground (arith, finish_line-Reads pf property_get (count_line k))

  todo-on_text : (k : Config) → todo (on_text k).lexer ≡ todo k.lexer
  unfolding on_text
  todo-on_text k = ground arith

  on_token-returns :
      (token : Token) (k : Config) (go : Config → Option Config) (n : ℕ)
      → (token ≢ eof → todo k.lexer < n)
      → ((k' : Config) → todo k'.lexer < n → (r : Config) × (go k' ≡ some r))
      → (r : Config) × (on_token pf property_get token k go ≡ some r)
  unfolding on_token
  on_token-returns eof k go n h all = (parse_line pf k.section 0 [] k, refl)
  on_token-returns newline k go n h all =
      all (on_newline pf property_get k) (rw todo-on_newline (h (λ e. cc)))
  on_token-returns text k go n h all = all (on_text k) (rw todo-on_text (h (λ e. cc)))

  config_loop-returns :
      (fuel : ℕ) (k : Config)
      → todo k.lexer < fuel
      → (r : Config) × (config_loop pf property_get fuel k ≡ some r)
  unfolding config_loop
  config_loop-returns zero k h = absurd (omega arith)
  config_loop-returns (suc f) k h =
      on_token-returns (next_token k.lexer).1 (record k { lexer = (next_token k.lexer).0 }) _ f
        (λ ne. omega (arith, next_token-advances k.lexer ne)) (λ k' h'. config_loop-returns f k' h')

  -- Every text is read to its end: the loop returns, within two rounds for each byte and one more.
  pub parse_config-returns :
      (s : Text) (rc : Rc) → (r : Config) × (parse_config pf property_get s rc ≡ some r)
  unfolding parse_config
  parse_config-returns s rc =
      config_loop-returns (suc (length s + length s)) (start s rc) (omega arith)
