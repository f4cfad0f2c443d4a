-- ===== src/Init/Parser/Imports.antt =====
-- Files that import files: `init_parse_config_file` of init/init/init_parser.c, `read_file` of
-- init/init/util.c.
use android4_4_4_r.Prelude.{
  c_string, ℕ, zero, suc, ◌<◌, ◌≡◌, refl, arith, All, List, [], ◌∷◌, ◌++◌, Bool, Option, none, some,
  Option-cases, inl, inr, Text, if◌then◌else◌,
}
use android4_4_4_r.Init.Platform.{Platform}
use android4_4_4_r.Init.Parser.{Rc, Config, parse_config}
use android4_4_4_r.Init.Parser.Total.{parse_config-returns}
use android4_4_4_r.Init.Parser.Commands.{AllRunnable, parse_config-AllRunnable}

-- what `open`, `fstat` and `read` say of a file that can be read
pub record File : Type 0 where
  pub insecure : Bool
  pub content : Text

-- `insecure` is a file that the group or others may write. The text ends at the first NUL.
unfoldable pub read_file : (Text → Option File) → Text → Option Text
read_file files fn = elim (files fn) [
  | none ↦ none
  | some f ↦ if f.insecure then none else some (c_string (f.content ++ 10 ∷ []))
]

-- the loop behind `parser_done`; an import that cannot be read is only logged
unfoldable pub import_each : (Text → Rc → Option Rc) → List Text → Rc → Option Rc
import_each parse [] rc = some rc
import_each parse (fn ∷ fns) rc = elim (parse fn rc) [
  | none ↦ none
  | some rc' ↦ import_each parse fns rc'
]

module _ (pf : Platform) (property_get : Text → Text) (files : Text → Option File) where
  -- `none` where the files are nested deeper than the fuel
  unfoldable pub init_parse_config_file : ℕ → Text → Rc → Option Rc
  unfolding import_each
  init_parse_config_file zero fn rc = none
  init_parse_config_file (suc n) fn rc = elim (read_file files fn) [
    | none ↦ some rc
    | some text ↦ elim (parse_config pf property_get text rc) [
      | none ↦ none
      | some k ↦ import_each (init_parse_config_file n) k.imports k.rc
    ]
  ]

  -- The files that a file imports have a lower rank, so that no file imports itself in the end.
  pub record IsRanked (rank : Text → ℕ) : Type 0 where
    pub lower :
        (fn text : Text) (rc : Rc) (k : Config)
        → read_file files fn ≡ some text
        → parse_config pf property_get text rc ≡ some k
        → All (λ g. rank g < rank fn) k.imports

  abbrev pub Parses : Option Rc → Type 0
  Parses o = (rc : Rc) × (o ≡ some rc) × AllRunnable rc

  import_each-AllRunnable :
      (parse : Text → Rc → Option Rc) (fns : List Text) (rc : Rc)
      → All (λ fn. (rc' : Rc) → AllRunnable rc' → Parses (parse fn rc')) fns
      → AllRunnable rc
      → Parses (import_each parse fns rc)
  unfolding import_each
  import_each-AllRunnable parse [] rc h r = (rc, refl, r)
  import_each-AllRunnable parse (fn ∷ fns) rc h r =
      let (rc1, e1, r1) = h.0 rc r in
      let (rc2, e2, r2) = import_each-AllRunnable parse fns rc1 h.1 r1 in
      (rc2, rw (import_each, e1) e2, r2)

  All-below :
      (rank : Text → ℕ) (n m : ℕ) (fns : List Text)
      → m < suc n
      → All (λ g. rank g < m) fns
      → All (λ g. rank g < n) fns
  All-below rank n m [] l h = tt
  All-below rank n m (g ∷ fns) l h = (omega (arith, h.0), All-below rank n m fns l h.1)

  each-Parses :
      (P : Text → Type 0) (Q : Text → Type 0) (fns : List Text)
      → ((fn : Text) → P fn → Q fn)
      → All P fns
      → All Q fns
  each-Parses P Q [] f h = tt
  each-Parses P Q (fn ∷ fns) f h = (f fn h.0, each-Parses P Q fns f h.1)

  -- With files that have a rank, more levels than the rank of a file are enough to read it with all
  -- that it imports; from lists in which every command can be run it leaves such lists.
  pub init_parse_config_file-AllRunnable :
      (rank : Text → ℕ) (n : ℕ) (fn : Text) (rc : Rc)
      → IsRanked rank
      → rank fn < n
      → AllRunnable rc
      → Parses (init_parse_config_file n fn rc)
  unfolding init_parse_config_file
  init_parse_config_file-AllRunnable rank zero fn rc ranked l r = absurd (omega (arith, l))
  init_parse_config_file-AllRunnable rank (suc n) fn rc ranked l r =
      elim (Option-cases (read_file files fn)) [
        | inl e ↦ (rc, rw (init_parse_config_file, e) refl, r)
        | inr (text, e) ↦
            let (k, q) = parse_config-returns pf property_get text rc in
            let lower = All-below rank n (rank fn) k.imports l (ranked.lower fn text rc k e q) in
            let (rc', e', r') =
              import_each-AllRunnable (init_parse_config_file n) k.imports k.rc
                (each-Parses (λ g. rank g < n)
                  (λ g. (rc' : Rc) → AllRunnable rc' → Parses (init_parse_config_file n g rc'))
                  k.imports
                  (λ g lt rc1 r1. init_parse_config_file-AllRunnable rank n g rc1 ranked lt r1)
                  lower)
                (parse_config-AllRunnable pf property_get text rc r q) in
            (rc', rw (init_parse_config_file, e) (rw q e'), r')
      ]
