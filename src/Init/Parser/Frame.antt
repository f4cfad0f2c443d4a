-- ===== src/Init/Parser/Frame.antt =====
-- What the handlers of a line leave alone: the lexer and the words of the line.
use android4_4_4_r.Prelude.{ℕ, List, [], ◌≡◌, refl, arith, Text}
use android4_4_4_r.Init.Keywords.{Keyword, lookup_keyword}
use android4_4_4_r.Init.Platform.{Platform}
use android4_4_4_r.Init.Options.{arg}
use android4_4_4_r.Init.Parser.{
  Config, Section, no_op, in_service, in_action, parse_service, parse_action, parse_import,
  parse_new_section, parse_line, finish_line,
}

abbrev pub Reads : Config → Config → Type 0
Reads k k' = (k'.lexer ≡ k.lexer) × (k'.args ≡ k.args)

module _ (pf : Platform) (property_get : Text → Text) where
  parse_line-Reads :
      (s : Section) (n : ℕ) (args : List Text) (k : Config) → Reads k (parse_line pf s n args k)
  unfolding parse_line
  parse_line-Reads no_op n args k = (refl, refl)
  parse_line-Reads (in_service i) n args k = ground arith
  parse_line-Reads (in_action i) n args k = ground arith

  parse_service-Reads : (k : Config) → Reads k (parse_service k)
  unfolding parse_service
  parse_service-Reads k = ground arith

  parse_action-Reads : (k : Config) → Reads k (parse_action k)
  unfolding parse_action
  parse_action-Reads k = ground arith

  parse_import-Reads : (k : Config) → Reads k (parse_import pf property_get k)
  unfolding parse_import
  parse_import-Reads k = ground arith

  parse_new_section-Reads :
      (kw : Keyword) (k : Config) → Reads k (parse_new_section pf property_get kw k)
  unfolding parse_new_section
  parse_new_section-Reads Keyword.service k = parse_service-Reads k
  parse_new_section-Reads Keyword.on k = parse_action-Reads k
  parse_new_section-Reads Keyword.import k = parse_import-Reads k
  parse_new_section-Reads _ k = (refl, refl)

  pub finish_line-Reads : (k : Config) → Reads k (finish_line pf property_get k)
  unfolding finish_line
  finish_line-Reads k =
      let kw = lookup_keyword (arg k.args 0) in
      ground (
        arith,
        parse_new_section-Reads kw (parse_line pf k.section 0 [] k),
        parse_line-Reads k.section 0 [] k,
        parse_line-Reads k.section k.nargs k.args k,
      )
