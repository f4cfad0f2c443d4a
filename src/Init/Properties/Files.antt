-- ===== src/Init/Properties/Files.antt =====
-- Property files written and read: `load_properties` of init/init/property_service.c.
use mathlib.Core.List.{append-nil, append_assoc}
use android4_4_4_r.Prelude.{
  ℕ, ◌≡◌, ◌∙◌, ◌⊎◌, inl, inr, refl, sym, ap, arith, All, All-append, Option-cases, List, [], ◌∷◌,
  ◌++◌, Bool, true, false, not, ◌&&◌, none, some, Text, ◌==◌, peek,
}
use android4_4_4_r.Init.Platform.{Platform}
use android4_4_4_r.Init.Properties.{PropertyArea}
use android4_4_4_r.Init.Properties.Load.{
  set_all, load_properties, is_space, skip_spaces, drop_spaces, trim_end, split_at, load_line,
  lines, key_values,
}

-- A line of a property file: a comment, or a setting, with blanks in front of the key, on both sides
-- of the sign, and behind the value.
pub data Line : Type 0 where
  comment : Text → Text → Line
  setting : Text → Text → Text → Text → Text → Text → Line

-- a blank, which does not end the line
abbrev pub is_blank : ℕ → Bool
is_blank c = is_space c && not (c == 10)

abbrev pub Blanks : Text → Type 0
Blanks s = All (λ x. is_blank x ≡ true) s

-- no `c` in the text
abbrev pub Apart : ℕ → Text → Type 0
Apart c s = All (λ x. (x == c) ≡ false) s

abbrev pub begins_plain : Text → Bool
begins_plain [] = true
begins_plain (c ∷ s) = not (is_space c)

unfoldable pub ends_plain : Text → Bool
ends_plain [] = true
ends_plain (c ∷ s) = elim s [ [] ↦ not (is_space c) | d ∷ t ↦ ends_plain s ]

-- The blanks are blanks; a key has no sign, does not look like a comment, and neither it nor a value
-- begins or ends with a blank; nothing has the end of a line in it.
abbrev pub IsGood : Line → Type 0
IsGood (comment a text) = Blanks a × Apart 10 text
IsGood (setting a key b c value d) =
    Blanks a
    × Blanks b
    × Blanks c
    × Blanks d
    × Apart 10 key
    × Apart b'=' key
    × Apart 10 value
    × ((peek key == b'#') ≡ false)
    × (begins_plain key ≡ true)
    × (ends_plain key ≡ true)
    × (begins_plain value ≡ true)
    × (ends_plain value ≡ true)

-- a line without its end
abbrev pub shown : Line → Text
shown (comment a text) = a ++ b'#' ∷ text
shown (setting a key b c value d) = (a ++ (key ++ b)) ++ b'=' ∷ (c ++ (value ++ d))

unfoldable pub print : List Line → Text
print [] = []
print (l ∷ ls) = shown l ++ 10 ∷ print ls

unfoldable pub settings : List Line → List (Text × Text)
settings [] = []
settings (comment a text ∷ ls) = settings ls
settings (setting a key b c value d ∷ ls) = (key, value) ∷ settings ls

lines-append :
    (acc x rest : Text) → Apart 10 x → lines acc (x ++ 10 ∷ rest) ≡ (acc ++ x) ∷ lines [] rest
unfolding lines
lines-append acc [] rest h = ap (λ t. t ∷ lines [] rest) (sym (append-nil acc))
lines-append acc (c ∷ x) rest h = rw h.0 (
    lines-append (acc ++ c ∷ []) x rest h.1
    ∙ ap (λ t. t ∷ lines [] rest) (append_assoc acc (c ∷ []) x))

split_at-append : (c : ℕ) (x y : Text) → Apart c x → split_at c (x ++ c ∷ y) ≡ some (x, y)
unfolding split_at
split_at-append c [] y h = ground arith
split_at-append c (d ∷ x) y h = rw h.0 (rw (split_at-append c x y h.1) refl)

skip_spaces-append : (a s : Text) → Blanks a → skip_spaces (a ++ s) ≡ skip_spaces s
unfolding skip_spaces
skip_spaces-append [] s h = refl
skip_spaces-append (c ∷ a) s h = ground (arith, h.0, skip_spaces-append a s h.1)

skip_spaces-plain : (s : Text) → begins_plain s ≡ true → skip_spaces s ≡ s
unfolding skip_spaces
skip_spaces-plain [] h = refl
skip_spaces-plain (c ∷ s) h = ground (arith, h)

drop_spaces-blank : (a : Text) → Blanks a → drop_spaces a ≡ []
unfolding drop_spaces
drop_spaces-blank [] h = refl
drop_spaces-blank (c ∷ a) h = ground (arith, h.0, drop_spaces-blank a h.1)

drop_spaces-append : (x a : Text) → ends_plain x ≡ true → Blanks a → drop_spaces (x ++ a) ≡ x
unfolding drop_spaces ends_plain
drop_spaces-append [] a p h = drop_spaces-blank a h
drop_spaces-append (c ∷ []) a p h = rw (drop_spaces-blank a h) (ground (arith, p))
drop_spaces-append (c ∷ d ∷ x) a p h = rw (drop_spaces-append (d ∷ x) a p h) refl

ends_plain-rest : (c : ℕ) (s : Text) → ends_plain (c ∷ s) ≡ true → ends_plain s ≡ true
unfolding ends_plain
ends_plain-rest c [] p = refl
ends_plain-rest c (d ∷ s) p = p

-- blanks around a plain text
trim-plain :
    (a x b : Text)
    → Blanks a
    → Blanks b
    → begins_plain x ≡ true
    → ends_plain x ≡ true
    → trim_end (skip_spaces (a ++ (x ++ b))) ≡ x
unfolding trim_end
trim-plain a [] b ha hb p q = rw (skip_spaces-append a b ha) (
    ap trim_end (
      ap skip_spaces (sym (append-nil b)) ∙ skip_spaces-append b [] hb ∙ skip_spaces-plain [] refl))
trim-plain a (c ∷ x) b ha hb p q = rw (skip_spaces-append a (c ∷ (x ++ b)) ha) (
    rw (skip_spaces-plain (c ∷ (x ++ b)) p)
      (ap (λ t. c ∷ t) (drop_spaces-append x b (ends_plain-rest c x q) hb)))

-- A key with blanks around it does not look like a comment.
peek-plain :
    (a x b : Text)
    → Blanks a
    → Blanks b
    → begins_plain x ≡ true
    → (peek x == b'#') ≡ false
    → (peek (skip_spaces (a ++ (x ++ b))) == b'#') ≡ false
peek-plain a [] b ha hb p q = rw (skip_spaces-append a b ha) (
    ap (λ t. peek (skip_spaces t) == b'#') (sym (append-nil b))
    ∙ ap (λ t. peek t == b'#') (skip_spaces-append b [] hb ∙ skip_spaces-plain [] refl))
peek-plain a (c ∷ x) b ha hb p q =
    rw (skip_spaces-append a (c ∷ (x ++ b)) ha) (rw (skip_spaces-plain (c ∷ (x ++ b)) p) q)

-- A blank is neither a sign nor the end of a line.
blank_apart : (x : ℕ) → is_blank x ≡ true → ((x == b'=') ≡ false) × ((x == 10) ≡ false)
blank_apart x h = (ground (arith, h), ground (arith, h))

Blanks-Apart : (a : Text) → Blanks a → Apart b'=' a × Apart 10 a
Blanks-Apart [] h = (tt, tt)
Blanks-Apart (x ∷ a) h =
    let (s, e) = blank_apart x h.0 in let (ss, es) = Blanks-Apart a h.1 in ((s, ss), (e, es))

Apart-append : (c : ℕ) (x y : Text) → Apart c x → Apart c y → Apart c (x ++ y)
Apart-append c x y = All-append (λ d. (d == c) ≡ false) x y

load_line-setting :
    (a key b c value d : Text)
    → IsGood (setting a key b c value d)
    → load_line (shown (setting a key b c value d)) ≡ some (key, value)
unfolding load_line
load_line-setting a key b c value d h =
    let (ha, hb, hc, hd, hk, hs, hv, np, kb, ke, vb, ve) = h in
    rw
      (
        load_line,
        split_at-append b'=' (a ++ (key ++ b)) (c ++ (value ++ d)) (
            Apart-append b'=' a (key ++ b) (Blanks-Apart a ha).0
              (Apart-append b'=' key b hs (Blanks-Apart b hb).0)),
      )
      (rw (peek-plain a key b ha hb kb np)
        (rw (trim-plain a key b ha hb kb ke) (rw (trim-plain c value d hc hd vb ve) refl)))

split_at-comment :
    (a text : Text)
    → Blanks a
    → (split_at b'=' (a ++ b'#' ∷ text) ≡ none)
      ⊎ ((r : Text) × (v : Text) × (split_at b'=' (a ++ b'#' ∷ text) ≡ some (a ++ b'#' ∷ r, v)))
unfolding split_at
split_at-comment [] text h = elim (Option-cases (split_at b'=' text)) [
  | inl e ↦ inl (rw e refl)
  | inr (p, e) ↦ inr (p.0, p.1, rw e refl)
]
split_at-comment (x ∷ a) text h = elim (split_at-comment a text h.1) [
  | inl e ↦ inl (rw (blank_apart x h.0).0 (rw e refl))
  | inr (r, v, e) ↦ inr (r, v, rw (blank_apart x h.0).0 (rw e refl))
]

load_line-comment :
    (a text : Text) → IsGood (comment a text) → load_line (shown (comment a text)) ≡ none
unfolding load_line skip_spaces
load_line-comment a text h = elim (split_at-comment a text h.0) [
  | inl e ↦ rw (load_line, e) refl
  | inr (r, v, e) ↦ rw (load_line, e) (rw (skip_spaces-append a (b'#' ∷ r) h.0) refl)
]

shown-Apart : (l : Line) → IsGood l → Apart 10 (shown l)
shown-Apart (comment a text) h = Apart-append 10 a (b'#' ∷ text) (Blanks-Apart a h.0).1 (refl, h.1)
shown-Apart (setting a key b c value d) h =
    let (ha, hb, hc, hd, hk, hs, hv, np, kb, ke, vb, ve) = h in
    Apart-append 10 (a ++ (key ++ b)) (b'=' ∷ (c ++ (value ++ d)))
      (Apart-append 10 a (key ++ b) (Blanks-Apart a ha).1
        (Apart-append 10 key b hk (Blanks-Apart b hb).1))
      (
        refl,
        Apart-append 10 c (value ++ d) (Blanks-Apart c hc).1
            (Apart-append 10 value d hv (Blanks-Apart d hd).1),
      )

key_values-print : (ls : List Line) → All IsGood ls → key_values (lines [] (print ls)) ≡ settings ls
unfolding print settings key_values lines
key_values-print [] h = refl
key_values-print (comment a text ∷ ls) h =
    rw (lines-append [] (shown (comment a text)) (print ls) (shown-Apart (comment a text) h.0))
      (rw (key_values, load_line-comment a text h.0) (key_values-print ls h.1))
key_values-print (setting a key b c value d ∷ ls) h =
    let l = setting a key b c value d in
    rw (lines-append [] (shown l) (print ls) (shown-Apart l h.0)) (
      rw (key_values, load_line-setting a key b c value d h.0)
        (ap (λ t. (key, value) ∷ t) (key_values-print ls h.1)))

-- A file of comments and settings, with blanks in front of the keys, around the signs and behind the
-- values, sets the properties of its settings, in their order. A key has no sign in it and does not
-- begin with `#`, no key or value begins or ends with a blank, and nothing has the end of a line in
-- it.
pub load_properties-print :
    {Area : Type 0} (pf : Platform) (area : PropertyArea Area) (loaded : Bool) (ls : List Line)
    (a : Area)
    → All IsGood ls
    → load_properties pf area loaded (print ls) a ≡ set_all pf area loaded (settings ls) a
unfolding load_properties
load_properties-print pf area loaded ls a h =
    ap (λ kvs. set_all pf area loaded kvs a) (key_values-print ls h)
