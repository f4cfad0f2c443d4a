-- ===== src/Init/Expand/Parts.antt =====
-- What `expand_props` makes of a text, part by part.
use mathlib.Core.List.{append-nil, append_assoc}
use android4_4_4_r.Prelude.{
  ℕ, zero, suc, ◌-◌, ◌≤◌, ◌<◌, List, [], ◌∷◌, ◌++◌, All, All-append, ◌≡◌, ◌≢◌, refl, sym, ap, ◌∙◌,
  arith, some, none, Text, length, length-append, take,
}
use android4_4_4_r.Init.Expand.{
  Expansion, done, split_dollar, push_chars, brace_name, push_prop, close_brace, after_dollar,
  expand_loop, expand_props,
}

abbrev pub NoDollar : Text → Type 0
NoDollar = All (λ c. c ≢ b'$')

split_dollar-literal : (a : Text) → NoDollar a → split_dollar a ≡ (a, none)
unfolding split_dollar
split_dollar-literal [] h = refl
split_dollar-literal (d ∷ a) h = ground (arith, split_dollar-literal a h.1)

split_dollar-dollar : (a c : Text) → NoDollar a → split_dollar (a ++ (b'$' ∷ c)) ≡ (a, some c)
unfolding split_dollar
split_dollar-dollar [] c h = refl
split_dollar-dollar (d ∷ a) c h = ground (arith, split_dollar-dollar a c h.1)

take_all : (n : ℕ) (a : Text) → length a ≤ n → take n a ≡ a
take_all zero [] h = refl
take_all zero (c ∷ a) h = absurd (omega arith)
take_all (suc n) [] h = refl
take_all (suc n) (c ∷ a) h = ap (◌∷◌ c) (take_all n a (omega arith))

brace_name-name :
    (room : ℕ) (name c : Text)
    → length name ≤ room
    → All (λ b. b ≢ b'}') name
    → brace_name room (name ++ (b'}' ∷ c)) ≡ (name, b'}' ∷ c)
unfolding brace_name
brace_name-name zero [] c k h = refl
brace_name-name zero (d ∷ name) c k h = absurd (omega arith)
brace_name-name (suc room) [] c k h = refl
brace_name-name (suc room) (d ∷ name) c k h =
    ground (arith, brace_name-name room name c (omega arith) h.1)

module _ (prop_name_max : ℕ) (property_get : Text → Text) where
  abbrev run : ℕ → Text → ℕ → Text → Expansion
  run = expand_loop prop_name_max property_get

  -- With no room left the loop is over.
  run-full :
      (f : ℕ) (dst : Text) (left : ℕ) (src : Text)
      → 0 < f
      → left ≡ 0
      → run f dst left src ≡ done dst
  unfolding expand_loop
  run-full zero dst left src h e = absurd (omega arith)
  run-full (suc f) dst left src h e = ground arith

  run-literal :
      (f : ℕ) (dst : Text) (left : ℕ) (a : Text)
      → NoDollar a
      → length a ≤ left
      → run (suc f) dst left a ≡ done (dst ++ a)
  unfolding expand_loop
  run-literal f dst left [] h k = rw append-nil
  run-literal f dst left (d ∷ a) h k =
      ground (arith, split_dollar-literal (d ∷ a) h, take_all left (d ∷ a) k)

  run-dollar :
      (f : ℕ) (dst : Text) (left : ℕ) (a c : Text)
      → NoDollar a
      → length a ≤ left
      → left ≢ 0
      → run (suc f) dst left (a ++ (b'$' ∷ c))
        ≡ after_dollar prop_name_max property_get
            (dst ++ a)
            (left - length a)
            c
            (λ d l s. run f d l s)
  unfolding expand_loop
  run-dollar f dst left a c h k ne =
      ground (arith, split_dollar-dollar a c h, length-append {0} a (b'$' ∷ c))

-- `literal w` is text with no '$', `escaped` is `$$`, `var name` is `${name}`.
pub data Part : Type 0 where
  literal : Text → Part
  escaped : Part
  var : Text → Part

abbrev pub source : Part → Text
source (literal w) = w
source escaped = b'$' ∷ b'$' ∷ []
source (var name) = b'$' ∷ b'{' ∷ (name ++ (b'}' ∷ []))

abbrev pub sources : List Part → Text
sources [] = []
sources (p ∷ ps) = source p ++ sources ps

module _ (prop_name_max : ℕ) (property_get : Text → Text) where
  abbrev pub value : Part → Text
  value (literal w) = w
  value escaped = b'$' ∷ []
  value (var name) = property_get name

  abbrev pub values : List Part → Text
  values [] = []
  values (p ∷ ps) = value p ++ values ps

  -- A name in braces is not empty, fits in the buffer for names, and is the name of a property.
  abbrev pub IsGood : Part → Type 0
  IsGood (literal w) = NoDollar w
  IsGood escaped = Unit
  IsGood (var name) =
      (name ≢ [])
      × (length name ≤ prop_name_max)
      × All (λ b. b ≢ b'}') name
      × (property_get name ≢ [])

  push_prop-value :
      (dst : Text) (left : ℕ) (name c : Text) (go : Text → ℕ → Text → Expansion)
      → name ≢ []
      → property_get name ≢ []
      → length (property_get name) ≤ left
      → push_prop prop_name_max property_get dst left name c go
        ≡ go (dst ++ property_get name) (left - length (property_get name)) c
  unfolding push_prop push_chars
  push_prop-value dst left [] c go ne v k = absurd (ne refl)
  push_prop-value dst left (a ∷ name) c go ne v k = ground arith

  after_dollar-var :
      (dst : Text) (left : ℕ) (name c : Text) (go : Text → ℕ → Text → Expansion)
      → IsGood (var name)
      → length (property_get name) ≤ left
      → after_dollar prop_name_max property_get dst left (b'{' ∷ (name ++ (b'}' ∷ c))) go
        ≡ go (dst ++ property_get name) (left - length (property_get name)) c
  unfolding after_dollar close_brace
  after_dollar-var dst left name c go good k = ground (
    arith,
    brace_name-name prop_name_max name c good.1 good.2,
    push_prop-value dst left name c go good.0 good.3 k,
  )

  after_dollar-escaped :
      (dst : Text) (left : ℕ) (c : Text) (go : Text → ℕ → Text → Expansion)
      → after_dollar prop_name_max property_get dst left (b'$' ∷ c) go
        ≡ go (dst ++ b'$' ∷ []) (left - 1) c
  unfolding after_dollar
  after_dollar-escaped dst left c go = refl

  length-ne-nil : (v : Text) → v ≢ [] → 0 < length v
  length-ne-nil [] h = absurd (h refl)
  length-ne-nil (c ∷ v) h = omega arith

  -- `a` is literal text that has been met and not yet been copied
  run-parts :
      (ps : List Part) (f : ℕ) (dst : Text) (left : ℕ) (a : Text)
      → NoDollar a
      → All IsGood ps
      → length (a ++ values ps) ≤ left
      → length (a ++ sources ps) < f
      → run prop_name_max property_get f dst left (a ++ sources ps) ≡ done (dst ++ (a ++ values ps))
  run-parts ps zero dst left a h good fits k = absurd (omega arith)
  run-parts [] (suc f) dst left a h good fits k = rw append-nil (
      run-literal prop_name_max property_get f dst left a h (omega (arith, length-append {0} a [])))
  run-parts (literal w ∷ ps) (suc f) dst left a h good fits k =
      let joined = append_assoc a w (sources ps) in
      let joined' = append_assoc a w (values ps) in
      ap (run prop_name_max property_get (suc f) dst left) (sym joined)
      ∙ run-parts ps (suc f) dst left (a ++ w) (All-append (λ c. c ≢ b'$') a w h good.0) good.1
          (omega (arith, length-append {0})) (omega (arith, length-append {0}))
      ∙ ap (λ (t : Text). done (dst ++ t)) joined'
  run-parts (escaped ∷ ps) (suc f) dst left a h good fits k =
      run-dollar prop_name_max property_get f dst left a (b'$' ∷ sources ps) h
        (omega (arith, length-append {0})) (omega (arith, length-append {0}))
      ∙ after_dollar-escaped (dst ++ a) (left - length a) (sources ps) _
      ∙ run-parts ps f ((dst ++ a) ++ b'$' ∷ []) (left - length a - 1) [] tt good.1
          (omega (arith, length-append {0})) (omega (arith, length-append {0}))
      ∙ simp append_assoc
  run-parts (var name ∷ ps) (suc f) dst left a h good fits k =
      let v = property_get name in
      ap (λ (t : Text). run prop_name_max property_get (suc f) dst left (a ++ (b'$' ∷ b'{' ∷ t)))
        (append_assoc name (b'}' ∷ []) (sources ps))
      ∙ run-dollar prop_name_max property_get f dst left a (b'{' ∷ (name ++ (b'}' ∷ sources ps))) h
          (omega (arith, length-append {0}))
          (omega (arith, length-append {0}, length-ne-nil v good.0.3))
      ∙ after_dollar-var (dst ++ a) (left - length a) name (sources ps) _ good.0
          (omega (arith, length-append {0}))
      ∙ run-parts ps f ((dst ++ a) ++ v) (left - length a - length v) [] tt good.1
          (omega (arith, length-append {0}))
          (omega (
            arith,
            length-append {0} a (sources (var name ∷ ps)),
            length-append {0} (name ++ (b'}' ∷ [])) (sources ps),
          ))
      ∙ simp append_assoc

  -- A text of literal parts, `$$` and `${name}` is expanded to the values of its parts, where that
  -- fits in the buffer with its terminator.
  pub expand_props-parts :
      (ps : List Part) (dst_size : ℕ)
      → All IsGood ps
      → length (values ps) < dst_size
      → expand_props prop_name_max property_get (sources ps) dst_size ≡ done (values ps)
  unfolding expand_props
  expand_props-parts ps dst_size good fits = ground (
    arith,
    run-parts ps (suc (length (sources ps))) [] (dst_size - 1) [] tt good (omega arith)
        (omega arith),
  )

  run-overflow :
      (w x : Text)
      → NoDollar w
      → w ≢ []
      → run prop_name_max property_get
          (suc (length (w ++ (b'$' ∷ b'$' ∷ x))))
          []
          (length w)
          (w ++ (b'$' ∷ b'$' ∷ x))
        ≡ done (w ++ b'$' ∷ [])
  run-overflow w x h ne =
      let src = w ++ (b'$' ∷ b'$' ∷ x) in
      run-dollar prop_name_max property_get (length src) [] (length w) w (b'$' ∷ x) h (omega arith)
        (omega (arith, length-ne-nil w ne))
      ∙ after_dollar-escaped w (length w - length w) x _
      ∙ run-full prop_name_max property_get (length src) (w ++ b'$' ∷ []) (length w - length w - 1)
          x (omega (arith, length-append {0} w (b'$' ∷ b'$' ∷ x))) (omega arith)

  -- Text that fills the buffer but for the terminator, with `$$` behind it, is expanded to as many
  -- bytes as the buffer has: the terminator is written behind the buffer.
  pub expand_props-overflow :
      (w x : Text)
      → NoDollar w
      → w ≢ []
      → (expand_props prop_name_max property_get (w ++ (b'$' ∷ b'$' ∷ x)) (suc (length w))
          ≡ done (w ++ b'$' ∷ []))
        × (length (w ++ b'$' ∷ []) ≡ suc (length w))
  unfolding expand_props
  expand_props-overflow w x h ne =
      (ground (arith, run-overflow w x h ne), omega (arith, length-append {0} w (b'$' ∷ [])))
