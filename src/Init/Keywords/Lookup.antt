-- ===== src/Init/Keywords/Lookup.antt =====
-- `lookup_keyword` against the table of keywords.
use android4_4_4_r.Prelude.{
  ℕ, Bool, true, ◌&&◌, Text, List, [], ◌∷◌, ◌≡◌, ◌≢◌, ◌⊎◌, inl, inr, refl, ap, arith, ◌==◌,
  if◌then◌else◌, text_eq, text_eq_iff,
}
use android4_4_4_r.Init.Keywords.{
  Keyword, unknown, keyword_info, lookup_in, lookup_keyword, rows_c, rows_d, rows_e, rows_g, rows_h,
  rows_i, rows_k, rows_l, rows_m, rows_o, rows_p, rows_r, rows_s, rows_t, rows_u, rows_w,
}

lookup_keyword-name : (k : Keyword) → lookup_keyword (keyword_info k).name ≡ k
unfolding lookup_keyword keyword_info
lookup_keyword-name unknown = refl
lookup_keyword-name _ = refl

-- Each row of a case holds the rest of its keyword's spelling behind the letter `c`.
all_spelled : ℕ → List (Text × Keyword) → Bool
all_spelled c [] = true
all_spelled c ((t, k) ∷ rows) = text_eq (keyword_info k).name (c ∷ t) && all_spelled c rows

lookup_in-all_spelled :
    (c : ℕ) (rows : List (Text × Keyword)) (s : Text) (otherwise : Keyword)
    → all_spelled c rows ≡ true
    → (lookup_in rows s otherwise ≡ otherwise)
      ⊎ ((keyword_info (lookup_in rows s otherwise)).name ≡ c ∷ s)
unfolding lookup_in all_spelled
lookup_in-all_spelled c [] s otherwise h = inl refl
lookup_in-all_spelled c ((t, k) ∷ rows) s otherwise h = ground (
  arith,
  text_eq_iff s t,
  text_eq_iff (keyword_info k).name (c ∷ t),
  lookup_in-all_spelled c rows s otherwise,
)

abbrev Found : ℕ → Text → Keyword → Type 0
Found c s k =
    k ≢ unknown
    → ((keyword_info k).name ≡ c ∷ s) ⊎ ((c ≡ b'p') × ((keyword_info k).name ≡ b'r' ∷ s))

branch :
    (c d : ℕ) (s : Text) (rows : List (Text × Keyword)) (rest : Keyword)
    → all_spelled d rows ≡ true
    → Found c s rest
    → Found c s (if c == d then lookup_in rows s unknown else rest)
branch c d s rows rest spelled h ne = ground (arith, lookup_in-all_spelled d rows s unknown spelled)

branch_p :
    (c : ℕ) (s : Text) (rows next : List (Text × Keyword)) (rest : Keyword)
    → all_spelled b'p' rows ≡ true
    → all_spelled b'r' next ≡ true
    → Found c s rest
    → Found c s (if c == b'p' then lookup_in rows s (lookup_in next s unknown) else rest)
branch_p c s rows next rest spelled spelled' h ne = ground (
  arith,
  lookup_in-all_spelled b'p' rows s (lookup_in next s unknown) spelled,
  lookup_in-all_spelled b'r' next s unknown spelled',
)

lookup_keyword-Found : (c : ℕ) (s : Text) → Found c s (lookup_keyword (c ∷ s))
unfolding lookup_keyword all_spelled keyword_info text_eq
lookup_keyword-Found c s =
    (branch c b'c' s rows_c _ refl (
      branch c b'd' s rows_d _ refl (
        branch c b'e' s rows_e _ refl (
          branch c b'g' s rows_g _ refl (
            branch c b'h' s rows_h _ refl (
              branch c b'i' s rows_i _ refl (
                branch c b'k' s rows_k _ refl (
                  branch c b'l' s rows_l _ refl (
                    branch c b'm' s rows_m _ refl (
                      branch c b'o' s rows_o _ refl (
                        branch_p c s rows_p rows_r _ refl refl (
                          branch c b'r' s rows_r _ refl (
                            branch c b's' s rows_s _ refl (
                              branch c b't' s rows_t _ refl (
                                branch c b'u' s rows_u _ refl (
                                  branch c b'w' s rows_w _ refl
                                    (λ ne. absurd (ne refl))))))))))))))))))

lookup_keyword-spelling :
    (s : Text)
    → lookup_keyword s ≢ unknown
    → ((keyword_info (lookup_keyword s)).name ≡ s)
      ⊎ ((t : Text) × (s ≡ b'p' ∷ t) × ((keyword_info (lookup_keyword s)).name ≡ b'r' ∷ t))
lookup_keyword-spelling [] ne = absurd (ne (unfold lookup_keyword in refl))
lookup_keyword-spelling (c ∷ s) ne = elim (lookup_keyword-Found c s ne) [
  | inl e ↦ inl e
  | inr (p, e) ↦ inr (s, ap (λ (d : ℕ). d ∷ s) p, e)
]

unknown_or_not : (k : Keyword) → (k ≡ unknown) ⊎ (k ≢ unknown)
unknown_or_not unknown = inl refl
unknown_or_not _ = inr (λ e. cc)

-- The spelling of every keyword of the table is looked up as that keyword. Any text is looked up as
-- unknown, or as a keyword of which it is the spelling, or the spelling with its first letter r
-- replaced by p.
pub lookup_keyword_lem :
    (k : Keyword) (s : Text)
    → (lookup_keyword (keyword_info k).name ≡ k)
      × ((lookup_keyword s ≡ unknown)
          ⊎ (((keyword_info (lookup_keyword s)).name ≡ s)
              ⊎ ((t : Text) × (s ≡ b'p' ∷ t)
                  × ((keyword_info (lookup_keyword s)).name ≡ b'r' ∷ t))))
lookup_keyword_lem k s = (
  lookup_keyword-name k,
  elim (unknown_or_not (lookup_keyword s)) [
    | inl e ↦ inl e
    | inr ne ↦ inr (lookup_keyword-spelling s ne)
  ],
)
