-- ===== src/Tests/Parser.antt =====
-- Whole files: init/init/init_parser.c.
use mathlib.Core.Option
use android4_4_4_r.Prelude.{
  c_string, ℕ, List, [], ◌∷◌, ◌≡◌, refl, Text, codes, text_eq, some, none, length, Option,
  if◌then◌else◌, false, true, Bool-cases, arith, inl, inr, All, ◌<◌, sym, ◌∙◌, ap, subst,
  some-injective,
}
use android4_4_4_r.Init.Keywords.{lookup_keyword, keyword_info}
use android4_4_4_r.Init.Parser.{
  Config, Rc, parse_config, parse_new_section, parse_line, parse_line_action, parse_service,
  parse_action, valid_name, service_find_by_name, parse_import, on_newline, on_text,
}
use android4_4_4_r.Init.Options.{parse_line_service}
use android4_4_4_r.Init.Expand.{expand_props, split_dollar, brace_name}
use android4_4_4_r.Init.Tokens.{next_token, text_loop}
use android4_4_4_r.Init.Parser.Total.{parse_config-returns}
use android4_4_4_r.Init.Parser.Commands.{AllRunnable, parse_config-AllRunnable}
use android4_4_4_r.Init.Parser.Imports.{
  File, read_file, IsRanked, Parses, init_parse_config_file, init_parse_config_file-AllRunnable,
}
use android4_4_4_r.Tests.Options.{bionic}
use android4_4_4_r.Tests.Expand.{props}

abbrev nothing : Rc
nothing = record { services = []; actions = [] }

abbrev file : Text
file =
    codes
      "on boot\n  setprop a b\n  bogus\nimport /init.${ro.hw}.rc\nservice vold /bin/vold\n  class core\n"

parse_config-returns_example : (r : Config) × (parse_config bionic props file nothing ≡ some r)
parse_config-returns_example = parse_config-returns bionic props file nothing

abbrev parsed : Config
parsed = (parse_config-returns bionic props file nothing).0

parse_config-AllRunnable_example : AllRunnable parsed.rc
parse_config-AllRunnable_example =
    parse_config-AllRunnable bionic props file nothing (record { actions = tt; services = tt })
      (parse_config-returns bionic props file nothing).1

-- The import, the number of services and the line of the error, as the file has them.
file_parsed :
    Option.map {B = List Text × ℕ × List ℕ}
      (λ (k : Config). (k.imports, length k.rc.services, k.errors))
      (parse_config bionic props file nothing)
    ≡ some (codes "/init.flo.rc" ∷ [], 1, 3 ∷ [])
unfolding parse_config next_token text_loop lookup_keyword keyword_info text_eq parse_new_section
    parse_line parse_line_service parse_line_action parse_service parse_action valid_name
    service_find_by_name parse_import expand_props split_dollar brace_name on_newline on_text
file_parsed = refl

-- a file that imports another, which does not exist
abbrev files : Text → Option File
files fn =
    if text_eq fn (codes "a")
    then some (record { insecure = false; content = codes "import b" })
    else none

abbrev rank : Text → ℕ
rank fn = if text_eq fn (codes "a") then 1 else 0

imports_b :
    (rc : Rc)
    → Option.map (λ (k : Config). k.imports) (parse_config bionic props (codes "import b\n") rc)
      ≡ some (codes "b" ∷ [])
unfolding parse_config next_token text_loop lookup_keyword keyword_info text_eq parse_new_section
    parse_line parse_import expand_props split_dollar brace_name on_newline on_text
imports_b rc = refl

read_a :
    (fn : Text) → text_eq fn (codes "a") ≡ true → read_file files fn ≡ some (codes "import b\n")
unfolding read_file c_string
read_a fn e = rw (read_file, e) refl

read_other : (fn : Text) → text_eq fn (codes "a") ≡ false → read_file files fn ≡ none
unfolding read_file
read_other fn e = rw (read_file, e) refl

b_below : (fn : Text) → text_eq fn (codes "a") ≡ true → rank (codes "b") < rank fn
unfolding text_eq
b_below fn e = ground (arith, e)

files-IsRanked : IsRanked bionic props files rank
files-IsRanked = record {
  lower = λ fn text rc k e q. elim (Bool-cases (text_eq fn (codes "a"))) [
    | inl y ↦
        let t : codes "import b\n" ≡ text = some-injective _ _ (sym (read_a fn y) ∙ e) in
        let p : parse_config bionic props (codes "import b\n") rc ≡ some k =
          subst (λ s. parse_config bionic props s rc ≡ some k) (sym t) q in
        let i : codes "b" ∷ [] ≡ k.imports =
          some-injective _ _ (sym (imports_b rc) ∙ ap (Option.map (λ (k : Config). k.imports)) p) in
        subst (All (λ g. rank g < rank fn)) i (b_below fn y, tt)
    | inr n ↦ absurd (ground (arith, read_other fn n, e))
  ];
}

init_parse_config_file-AllRunnable_example :
    Parses bionic props files (init_parse_config_file bionic props files 2 (codes "a") nothing)
unfolding text_eq
init_parse_config_file-AllRunnable_example =
    init_parse_config_file-AllRunnable bionic props files rank 2 (codes "a") nothing files-IsRanked
      (omega arith) (record { actions = tt; services = tt })
