-- ===== src/Init/Expand.antt =====
-- Properties in the words of the configuration: `push_chars` and `expand_props` of
-- init/init/init_parser.c.
--
-- `dst` is what has been written, `left` the room that is left for it. `left` is an `int` in the
-- source and may end at -1 behind `$$`; 0 serves for that value, since both end the loop.
pub mod Bounds
pub mod Parts
use android4_4_4_r.Prelude.{
  ℕ, zero, suc, ◌-◌, [], ◌∷◌, ◌++◌, not, ◌||◌, ◌&&◌, Option, none, some, Text, length, take, drop,
  ltb, ◌==◌, if◌then◌else◌,
}

-- `stuck` is a loop that has used up the fuel.
pub data Expansion : Type 0 where
  done : Text → Expansion
  fail stuck : Expansion

-- the text before the first '$', and what stands behind that
unfoldable pub split_dollar : Text → Text × Option Text
split_dollar [] = ([], none)
split_dollar (c ∷ x) = let (a, b) = split_dollar x in if c == b'$' then ([], some x) else (c ∷ a, b)

-- `push_chars`; `go` has the new `dst` and `left`
pub push_chars : Text → ℕ → Text → (Text → ℕ → Expansion) → Expansion
push_chars dst left chars go =
    if ltb left (length chars) then fail else go (dst ++ chars) (left - length chars)

-- the loop over the name in braces: at most `room` bytes, up to '}' or the end
unfoldable pub brace_name : ℕ → Text → Text × Text
brace_name zero x = ([], x)
brace_name (suc room) [] = ([], [])
brace_name (suc room) (c ∷ x) =
    let (a, b) = brace_name room x in if c == b'}' then ([], c ∷ x) else (c ∷ a, b)

module _ (prop_name_max : ℕ) (property_get : Text → Text) where
  -- from `if (prop_len == 0)` on; `c` is what follows the name
  push_prop : Text → ℕ → Text → Text → (Text → ℕ → Text → Expansion) → Expansion
  push_prop dst left [] c go = fail
  push_prop dst left (n ∷ ame) c go =
      let value = property_get (n ∷ ame) in
      if length value == 0 then fail else push_chars dst left value (λ d l. go d l c)

  close_brace : Text → ℕ → Text → Text → (Text → ℕ → Text → Expansion) → Expansion
  close_brace dst left name [] go = fail
  close_brace dst left name (b ∷ c) go = if b == b'}' then push_prop dst left name c go else fail

  -- behind a '$' that is followed by `c`
  after_dollar : Text → ℕ → Text → (Text → ℕ → Text → Expansion) → Expansion
  after_dollar dst left [] go = done dst
  after_dollar dst left (d ∷ c) go =
      if d == b'$'
      then go (dst ++ d ∷ []) (left - 1) c
      else if d == b'{'
      then (let (name, rest) = brace_name prop_name_max c in close_brace dst left name rest go)
      else (let name = take prop_name_max (d ∷ c) in
          let rest = drop prop_name_max (d ∷ c) in
          if length name == prop_name_max && not (length rest == 0)
          then fail
          else push_prop dst left name rest go)

  -- the body of the loop
  expand_round : Text × Option Text → Text → ℕ → Text → (Text → ℕ → Text → Expansion) → Expansion
  expand_round (a, none) dst left src go = done (dst ++ take left src)
  expand_round (a, some c) dst left src go = push_chars dst left a (λ d l. after_dollar d l c go)

  pub expand_loop : ℕ → Text → ℕ → Text → Expansion
  unfolding push_chars push_prop close_brace after_dollar expand_round
  expand_loop zero dst left src = stuck
  expand_loop (suc f) dst left src =
      let next = expand_round (split_dollar src) dst left src (λ d l s. expand_loop f d l s) in
      if length src == 0 || left == 0 then done dst else next

  unfoldable pub expand_props : Text → ℕ → Expansion
  unfolding expand_loop
  expand_props src dst_size =
      if dst_size == 0 then fail else expand_loop (suc (length src)) [] (dst_size - 1) src
