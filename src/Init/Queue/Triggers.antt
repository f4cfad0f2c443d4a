-- ===== src/Init/Queue/Triggers.antt =====
-- Which triggers a changed property fires.
use android4_4_4_r.Prelude.{
  ℕ, zero, suc, [], ◌∷◌, ◌++◌, ◌≡◌, ◌∙◌, ◌↔◌, ◌⊎◌, length, drop, peek, refl, sym, ap, arith, Bool,
  true, ◌||◌, ◌&&◌, Text, codes, ◌==◌, inl, inr, text_eq, text_eq_iff, has_prefix,
}
use android4_4_4_r.Init.Queue.{is_property_trigger}

has_prefix-drop : (p x : Text) → has_prefix p x ≡ true → x ≡ p ++ drop (length p) x
unfolding has_prefix
has_prefix-drop [] x h = refl
has_prefix-drop (a ∷ p) [] h = ground arith
has_prefix-drop (a ∷ p) (b ∷ x) h = ground (arith, has_prefix-drop p x)

has_prefix-append : (p x : Text) → has_prefix p (p ++ x) ≡ true
unfolding has_prefix
has_prefix-append [] x = refl
has_prefix-append (a ∷ p) x = ground (arith, has_prefix-append p x)

drop-append : (p x : Text) → drop (length p) (p ++ x) ≡ x
drop-append [] x = refl
drop-append (a ∷ p) x = drop-append p x

drop-suc : (n : ℕ) (x : Text) → drop (suc n) x ≡ drop 1 (drop n x)
drop-suc zero x = refl
drop-suc (suc n) [] = refl
drop-suc (suc n) (c ∷ x) = drop-suc n x

-- the part of the test behind the name
is_expected : Text → Text → Bool
is_expected value rest =
    peek rest == b'=' && (text_eq (drop 1 rest) value || text_eq (drop 1 rest) (codes "*"))

is_expected_iff :
    (value rest : Text)
    → (is_expected value rest ≡ true) ↔ ((rest ≡ b'=' ∷ value) ⊎ (rest ≡ codes "=*"))
unfolding is_expected
is_expected_iff value [] = ground arith
is_expected_iff value (c ∷ rest) =
    ground (arith, text_eq_iff rest value, text_eq_iff rest (codes "*"))

is_property_trigger-is_expected :
    (name value rest : Text)
    → is_property_trigger name value (codes "property:" ++ name ++ rest) ≡ is_expected value rest
unfolding is_property_trigger is_expected has_prefix
is_property_trigger-is_expected name value rest = ground (
  arith,
  drop-suc (length name) (name ++ rest),
  drop-append name rest,
  has_prefix-append name rest,
)

is_property_trigger-append :
    (name value trigger : Text)
    → is_property_trigger name value trigger ≡ true
    → trigger ≡ codes "property:" ++ name ++ drop (length name) (drop 9 trigger)
unfolding is_property_trigger
is_property_trigger-append name value trigger h =
    has_prefix-drop (codes "property:") trigger (ground arith)
    ∙ ap (λ t. codes "property:" ++ t) (has_prefix-drop name (drop 9 trigger) (ground arith))

-- A change of the property fires the triggers `property:NAME=VALUE` and `property:NAME=*`, and no
-- others.
pub is_property_trigger_iff :
    (name value trigger : Text)
    → (is_property_trigger name value trigger ≡ true) ↔ (
        (trigger ≡ codes "property:" ++ name ++ b'=' ∷ value)
        ⊎ (trigger ≡ codes "property:" ++ name ++ codes "=*"))
is_property_trigger_iff name value trigger = (forth, back)
  where
    forth :
        is_property_trigger name value trigger ≡ true
        → (trigger ≡ codes "property:" ++ name ++ b'=' ∷ value)
          ⊎ (trigger ≡ codes "property:" ++ name ++ codes "=*")
    forth h =
        let rest = drop (length name) (drop 9 trigger) in
        let e = is_property_trigger-append name value trigger h in
        let expected =
          sym (is_property_trigger-is_expected name value rest)
          ∙ ap (is_property_trigger name value) (sym e)
          ∙ h in
        elim ((is_expected_iff value rest).0 expected) [
          | inl r ↦ inl (e ∙ ap (λ t. codes "property:" ++ name ++ t) r)
          | inr r ↦ inr (e ∙ ap (λ t. codes "property:" ++ name ++ t) r)
        ]

    back :
        (trigger ≡ codes "property:" ++ name ++ b'=' ∷ value)
          ⊎ (trigger ≡ codes "property:" ++ name ++ codes "=*")
        → is_property_trigger name value trigger ≡ true
    back (inl e) =
        ap (is_property_trigger name value) e
        ∙ is_property_trigger-is_expected name value (b'=' ∷ value)
        ∙ (is_expected_iff value (b'=' ∷ value)).1 (inl refl)
    back (inr e) =
        ap (is_property_trigger name value) e
        ∙ is_property_trigger-is_expected name value (codes "=*")
        ∙ (is_expected_iff value (codes "=*")).1 (inr refl)
