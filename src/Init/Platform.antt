-- ===== src/Init/Platform.antt =====
-- What init takes from outside the repository: limits of <sys/system_properties.h> and <limits.h>,
-- the user table of <private/android_filesystem_config.h>, number parsing of <stdlib.h>.
use android4_4_4_r.Prelude.{
  ℕ, ◌^◌, ◌-◌, List, [], ◌∷◌, Option, none, some, Bool, ◌&&◌, ◌||◌, Text, text_eq, leb,
  if◌then◌else◌, ◌%◌,
}

pub record Platform : Type 0 where
  pub prop_name_max : ℕ
  pub prop_value_max : ℕ
  pub path_max : ℕ
  -- `android_ids`
  pub android_ids : List (Text × ℕ)
  -- `strtoul(s, 0, 0)`; `none` is a call that sets `errno`
  pub strtoul : Text → Option ℕ
  -- `strtoul(s, 0, 8)`
  pub strtoul_octal : Text → ℕ
  -- `atoi(s)`, as the bit pattern of the `int`
  pub atoi : Text → ℕ

-- `isalpha` and `isalnum` of the C locale
abbrev pub is_alpha : ℕ → Bool
is_alpha c = leb b'a' c && leb c b'z' || leb b'A' c && leb c b'Z'

abbrev pub is_alnum : ℕ → Bool
is_alnum c = is_alpha c || leb b'0' c && leb c b'9'

abbrev pub invalid_uid : ℕ
invalid_uid = 2 ^ 32 - 1

pub find_id : List (Text × ℕ) → Text → ℕ
find_id [] name = invalid_uid
find_id ((n, aid) ∷ ids) name = if text_eq n name then aid else find_id ids name

abbrev number_or_invalid : Option ℕ → ℕ
number_or_invalid none = invalid_uid
number_or_invalid (some v) = v % 2 ^ 32

unfoldable pub decode_uid : Platform → Text → ℕ
unfolding find_id
decode_uid pf [] = invalid_uid
decode_uid pf (c ∷ s) =
    if is_alpha c then find_id pf.android_ids (c ∷ s) else number_or_invalid (pf.strtoul (c ∷ s))
