-- ===== src/Init/Expand/Bounds.antt =====
-- The room that `expand_props` takes in the buffer, and its end.
use android4_4_4_r.Prelude.{
  ℕ, zero, suc, ◌+◌, ◌-◌, ◌≤◌, ◌<◌, [], ◌∷◌, ◌++◌, ◌≡◌, ◌≢◌, subst, refl, arith, Option, some, none,
  Text, length, length-take, length-drop, length-append, take, drop, ◌==◌, Bool-cases, inl, inr,
  ◌||◌,
}
use android4_4_4_r.Init.Expand.{
  Expansion, done, fail, stuck, split_dollar, push_chars, brace_name, push_prop, close_brace,
  after_dollar, expand_round, expand_loop, expand_props,
}

-- `dst` and `left` in a buffer of `suc n` bytes: there is room for the terminator while `left` is
-- not 0.
abbrev Fits : ℕ → Text → ℕ → Type 0
Fits n dst left = (length dst + left ≤ suc n) × (0 < left → length dst + left ≤ n)

-- A result of at most `suc n` bytes, or a failure.
abbrev Ends : ℕ → Expansion → Type 0
Ends n (done r) = length r ≤ suc n
Ends n fail = Unit
Ends n stuck = ⊥

length-split_dollar :
    (x c : Text)
    → (split_dollar x).1 ≡ some c
    → length (split_dollar x).0 + suc (length c) ≡ length x
unfolding split_dollar
length-split_dollar [] c e = cc
length-split_dollar (d ∷ x) c e = ground (arith, length-split_dollar x c)

length-brace_name : (room : ℕ) (x : Text) → length (brace_name room x).1 ≤ length x
unfolding brace_name
length-brace_name zero x = omega arith
length-brace_name (suc room) [] = omega arith
length-brace_name (suc room) (c ∷ x) = ground (arith, length-brace_name room x)

module _ (n : ℕ) where
  -- The rest of the loop ends well from every state that fits, with fewer than `m` bytes to read.
  abbrev Goes : ℕ → (Text → ℕ → Text → Expansion) → Type 0
  Goes m go =
      (dst : Text) (left : ℕ) (src : Text)
      → Fits n dst left
      → length src < m
      → Ends n (go dst left src)

  push_chars-Ends :
      (dst : Text) (left : ℕ) (chars : Text) (go : Text → ℕ → Expansion)
      → length dst + left ≤ n
      → ((d : Text) (l : ℕ) → length d + l ≤ n → Ends n (go d l))
      → Ends n (push_chars dst left chars go)
  unfolding push_chars
  push_chars-Ends dst left chars go h all =
      ground (arith, length-append {0} dst chars, all (dst ++ chars) (left - length chars))

  module _ (prop_name_max : ℕ) (property_get : Text → Text) where
    push_prop-Ends :
        (dst : Text) (left : ℕ) (name c : Text) (go : Text → ℕ → Text → Expansion) (m : ℕ)
        → length dst + left ≤ n
        → length c < m
        → Goes m go
        → Ends n (push_prop prop_name_max property_get dst left name c go)
    unfolding push_prop
    push_prop-Ends dst left [] c go m h k all = tt
    push_prop-Ends dst left (a ∷ name) c go m h k all = ground (
      arith,
      push_chars-Ends dst left (property_get (a ∷ name)) (λ d l. go d l c) h
          (λ d l h'. all d l c (omega arith) k),
    )

    close_brace-Ends :
        (dst : Text) (left : ℕ) (name c : Text) (go : Text → ℕ → Text → Expansion) (m : ℕ)
        → length dst + left ≤ n
        → length c < m
        → Goes m go
        → Ends n (close_brace prop_name_max property_get dst left name c go)
    unfolding close_brace
    close_brace-Ends dst left name [] go m h k all = tt
    close_brace-Ends dst left name (b ∷ c) go m h k all =
        ground (arith, push_prop-Ends dst left name c go m h (omega arith) all)

    after_dollar-Ends :
        (dst : Text) (left : ℕ) (c : Text) (go : Text → ℕ → Text → Expansion) (m : ℕ)
        → length dst + left ≤ n
        → length c < m
        → Goes m go
        → Ends n (after_dollar prop_name_max property_get dst left c go)
    unfolding after_dollar
    after_dollar-Ends dst left [] go m h k all = omega arith
    after_dollar-Ends dst left (d ∷ c) go m h k all =
        let name = take prop_name_max (d ∷ c) in
        let rest = drop prop_name_max (d ∷ c) in
        let (b, r) = brace_name prop_name_max c in
        ground (
          arith,
          all (dst ++ d ∷ []) (left - 1) c,
          length-append {0} dst (d ∷ []),
          close_brace-Ends dst left b r go m h (omega (arith, length-brace_name prop_name_max c))
              all,
          push_prop-Ends dst left name rest go m h
              (omega (arith, length-drop prop_name_max (d ∷ c))) all,
        )

    expand_round-Ends :
        (p : Text × Option Text) (dst : Text) (left : ℕ) (src : Text)
        (go : Text → ℕ → Text → Expansion)
        → length dst + left ≤ n
        → ((c : Text) → p.1 ≡ some c → length c < length src)
        → Goes (length src) go
        → Ends n (expand_round prop_name_max property_get p dst left src go)
    unfolding expand_round
    expand_round-Ends (a, none) dst left src go h k all =
        omega (arith, length-append {0} dst (take left src), length-take left src)
    expand_round-Ends (a, some c) dst left src go h k all =
        push_chars-Ends dst left a _ h
          (λ d l h'. after_dollar-Ends d l c go (length src) h' (k c refl) all)

    expand_loop-Ends :
        (f : ℕ) (dst : Text) (left : ℕ) (src : Text)
        → Fits n dst left
        → length src < f
        → Ends n (expand_loop prop_name_max property_get f dst left src)
    unfolding expand_loop
    expand_loop-Ends zero dst left src h k = absurd (omega arith)
    expand_loop-Ends (suc f) dst left src h k = elim (Bool-cases (length src == 0 || left == 0)) [
      | inl e ↦ rw e (omega arith)
      | inr e ↦ rw e (
          expand_round-Ends (split_dollar src) dst left src _ (h.1 (ground arith))
            (λ c e'. omega (arith, length-split_dollar src c e'))
            (λ d l s fits fewer. expand_loop-Ends f d l s fits (omega arith)))
    ]

module _ (prop_name_max : ℕ) (property_get : Text → Text) (src : Text) (dst_size : ℕ) where
  expand_props-Ends : Ends (dst_size - 1) (expand_props prop_name_max property_get src dst_size)
  unfolding expand_props
  expand_props-Ends = ground (
    arith,
    expand_loop-Ends (dst_size - 1) prop_name_max property_get (suc (length src)) [] (dst_size - 1)
        src (omega arith),
  )

  expand_props_room :
      (r : Text) → expand_props prop_name_max property_get src dst_size ≡ done r → 0 < dst_size
  unfolding expand_props
  expand_props_room r e = elim (Bool-cases (dst_size == 0)) [
    | inl z ↦ cc (rw z at e)
    | inr nz ↦ ground arith
  ]

  -- `expand_props` comes to an end, with a text or a failure. A text has at most as many bytes as
  -- the buffer, its terminator not counted, and a buffer of no bytes gives a failure.
  pub expand_props-fits :
      (expand_props prop_name_max property_get src dst_size ≢ stuck)
      × ((r : Text)
          → expand_props prop_name_max property_get src dst_size ≡ done r
          → (length r ≤ dst_size) × (0 < dst_size))
  expand_props-fits = (
    λ e. subst (Ends (dst_size - 1)) e expand_props-Ends,
    λ r e.
        let room = expand_props_room r e in
        let bound : length r ≤ suc (dst_size - 1) =
          subst (Ends (dst_size - 1)) e expand_props-Ends in
        (omega arith, room),
  )
