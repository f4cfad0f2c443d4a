-- ===== src/Init/Properties/Load.antt =====
-- Property files: `load_properties` of init/init/property_service.c.
use android4_4_4_r.Prelude.{
  ℕ, List, [], ◌∷◌, ◌++◌, Bool, ◌||◌, ◌&&◌, Option, none, some, Text, leb, ◌==◌, if◌then◌else◌,
  peek,
}
use android4_4_4_r.Init.Platform.{Platform}
use android4_4_4_r.Init.Properties.{PropertyArea, PropertyEffect, property_set}

-- `isspace` of the C locale
abbrev pub is_space : ℕ → Bool
is_space c = c == 32 || leb 9 c && leb c 13

-- `while(isspace(*s)) s++;`
unfoldable pub skip_spaces : Text → Text
skip_spaces [] = []
skip_spaces (c ∷ s) = let rest = skip_spaces s in if is_space c then rest else c ∷ s

-- the spaces at the end dropped, down to nothing
unfoldable pub drop_spaces : Text → Text
drop_spaces [] = []
drop_spaces (c ∷ s) = elim (drop_spaces s) [
  | [] ↦ if is_space c then [] else c ∷ []
  | d ∷ t ↦ c ∷ d ∷ t
]

-- `while((tmp > s) && isspace(*tmp)) *tmp-- = 0;`: the first byte stays
unfoldable pub trim_end : Text → Text
unfolding drop_spaces
trim_end [] = []
trim_end (c ∷ s) = c ∷ drop_spaces s

-- `strchr(s, c)`: what stands before the first `c`, and after it
unfoldable pub split_at : ℕ → Text → Option (Text × Text)
split_at c [] = none
split_at c (x ∷ s) =
    let rest = split_at c s in
    if x == c then some ([], s) else elim rest [ none ↦ none | some r ↦ some (x ∷ r.0, r.1) ]

-- One line, without its end: the key and value that are set, if any.
unfoldable pub load_line : Text → Option (Text × Text)
unfolding skip_spaces trim_end split_at
load_line line = elim (split_at b'=' line) [
  | none ↦ none
  | some (key0, value0) ↦
      let key = skip_spaces key0 in
      if peek key == b'#' then none else some (trim_end key, trim_end (skip_spaces value0))
]

-- The lines that end in `\n`; `line` is what has been read of the current one. What
-- stands behind the last `\n` is not read.
unfoldable pub lines : Text → Text → List Text
lines line [] = []
lines line (c ∷ s) = if c == 10 then line ∷ lines [] s else lines (line ++ (c ∷ [])) s

unfoldable pub key_values : List Text → List (Text × Text)
unfolding load_line
key_values [] = []
key_values (line ∷ rest) = elim (load_line line) [
  | none ↦ key_values rest
  | some kv ↦ kv ∷ key_values rest
]

module _ {Area : Type 0} (pf : Platform) (area : PropertyArea Area) (loaded : Bool) where
  unfoldable pub set_all : List (Text × Text) → Area → Area × List PropertyEffect
  set_all [] a = (a, [])
  set_all ((key, value) ∷ rest) a =
      let (a', effects) = (property_set pf area loaded a key value).0 in
      let (last, later) = set_all rest a' in (last, effects ++ later)

  unfoldable pub load_properties : Text → Area → Area × List PropertyEffect
  unfolding set_all key_values lines
  load_properties text a = set_all (key_values (lines [] text)) a
