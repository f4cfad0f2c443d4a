-- ===== src/Tests/Expand.antt =====
-- `expand_props` of init/init/init_parser.c.
use android4_4_4_r.Prelude.{
  ◌≤◌, ◌<◌, [], ◌∷◌, ◌≡◌, ◌≢◌, refl, arith, Text, codes, text_eq, length, if◌then◌else◌,
}
use android4_4_4_r.Init.Expand.{done, fail, stuck, split_dollar, brace_name, expand_props}
use android4_4_4_r.Init.Expand.Bounds.{expand_props-fits}
use android4_4_4_r.Init.Expand.Parts.{
  literal, escaped, var, expand_props-parts, expand_props-overflow,
}

abbrev pub props : Text → Text
props name = if text_eq name (codes "ro.hw") then codes "flo" else []

abbrev import_line : Text
import_line = codes "/init.${ro.hw}.rc"

expand_import : expand_props 32 props import_line 64 ≡ done (codes "/init.flo.rc")
unfolding expand_props text_eq split_dollar brace_name
expand_import = refl

unknown_property : expand_props 32 props (codes "${ro.none}") 64 ≡ fail
unfolding expand_props text_eq split_dollar brace_name
unknown_property = refl

-- Text that does not fit is cut off, and no error is reported.
cut_off : expand_props 32 props (codes "abcdef") 4 ≡ done (codes "abc")
unfolding expand_props split_dollar
cut_off = refl

expand_props-fits_example :
    (expand_props 32 props import_line 64 ≢ stuck)
    × ((r : Text) → expand_props 32 props import_line 64 ≡ done r → (length r ≤ 64) × (0 < 64))
expand_props-fits_example = expand_props-fits 32 props import_line 64

expand_props-parts_example : expand_props 32 props (codes "a$$${ro.hw}") 6 ≡ done (codes "a$flo")
unfolding text_eq
expand_props-parts_example =
    expand_props-parts 32 props (literal (codes "a") ∷ escaped ∷ var (codes "ro.hw") ∷ []) 6
      (
        (λ e. omega arith, tt),
        (
          tt,
          (
            (
              λ e. cc,
              omega arith,
              (
                λ e. omega arith,
                (λ e. omega arith, (λ e. omega arith, (λ e. omega arith, (λ e. omega arith, tt)))),
              ),
              λ e. cc,
            ),
            tt,
          ),
        ),
      )
      (omega arith)

dollar_overflows :
    (expand_props 32 props (codes "abc$$") 4 ≡ done (codes "abc$")) × (length (codes "abc$") ≡ 4)
dollar_overflows =
    expand_props-overflow 32 props (codes "abc") []
      (λ e. omega arith, (λ e. omega arith, (λ e. omega arith, tt))) (λ e. cc)
