-- ===== src/Init/Properties/Names.antt =====
-- Legal property names, described by their parts.
use android4_4_4_r.Prelude.{
  ℕ, ◌<◌, ◌≡◌, ◌≢◌, ◌↔◌, List, [], ◌∷◌, ◌++◌, length, get_or, All, refl, sym, ap, subst, Bool-cases,
  inl, inr, ◌∙◌, arith, Bool, true, false, ◌||◌, Text, ◌==◌,
}
use android4_4_4_r.Init.Platform.{Platform, is_alnum}
use android4_4_4_r.Init.Properties.{is_legal_property_name, legal_chars}

-- A byte that a part of a name may hold.
abbrev pub IsPartByte : ℕ → Type 0
IsPartByte c = (c == b'_' || c == b'-' || is_alnum c) ≡ true

-- A part is a byte and the bytes behind it.
abbrev pub Part : Type 0
Part = ℕ × Text

abbrev pub IsPart : Part → Type 0
IsPart p = IsPartByte p.0 × All IsPartByte p.1

-- the parts with dots between them: the first one, and the others
unfoldable pub join : Part → List Part → Text
join p [] = p.0 ∷ p.1
join p (q ∷ ps) = p.0 ∷ p.1 ++ b'.' ∷ join q ps

legal_chars-part :
    (w rest : Text) → All IsPartByte w → legal_chars false (w ++ rest) ≡ legal_chars false rest
unfolding legal_chars
legal_chars-part [] rest h = refl
legal_chars-part (c ∷ w) rest h = ground (arith, legal_chars-part w rest h.1)

legal_chars-All : (w : Text) → All IsPartByte w → legal_chars false w ≡ true
unfolding legal_chars
legal_chars-All [] h = refl
legal_chars-All (c ∷ w) h = ground (arith, legal_chars-All w h.1)

legal_chars-join :
    (b : Bool) (p : Part) (ps : List Part)
    → IsPart p
    → All IsPart ps
    → legal_chars b (join p ps) ≡ true
unfolding legal_chars join
legal_chars-join b p [] h hs = ground (arith, legal_chars-All p.1 h.1)
legal_chars-join b p (q ∷ ps) h hs =
    ground
      (arith, legal_chars-part p.1 (b'.' ∷ join q ps) h.1, legal_chars-join true q ps hs.0 hs.1)

-- the last byte, where there is one
unfoldable last_byte : ℕ → Text → ℕ
last_byte c [] = c
last_byte c (d ∷ s) = last_byte d s

get_or-last_byte : (c : ℕ) (s : Text) → get_or (c ∷ s) (length s) 0 ≡ last_byte c s
unfolding last_byte
get_or-last_byte c [] = refl
get_or-last_byte c (d ∷ s) = get_or-last_byte d s

last_byte-append : (c d : ℕ) (s t : Text) → last_byte c (s ++ d ∷ t) ≡ last_byte d t
unfolding last_byte
last_byte-append c d [] t = refl
last_byte-append c d (e ∷ s) t = last_byte-append e d s t

last_byte-part : (c : ℕ) (s : Text) → IsPartByte c → All IsPartByte s → IsPartByte (last_byte c s)
unfolding last_byte
last_byte-part c [] h hs = h
last_byte-part c (d ∷ s) h hs = last_byte-part d s hs.0 hs.1

join-cons :
    (p : Part) (ps : List Part)
    → IsPart p
    → All IsPart ps
    → (s : Text) × (join p ps ≡ p.0 ∷ s) × IsPartByte (last_byte p.0 s)
unfolding join last_byte
join-cons p [] h hs = (p.1, refl, last_byte-part p.0 p.1 h.0 h.1)
join-cons p (q ∷ ps) h hs =
    let (s, e, l) = join-cons q ps hs.0 hs.1 in
    (
      p.1 ++ b'.' ∷ join q ps,
      refl,
      subst IsPartByte (sym (last_byte-append p.0 b'.' p.1 (join q ps) ∙ ap (last_byte b'.') e)) l,
    )

legal_cons :
    (pf : Platform) (c : ℕ) (s : Text)
    → length (c ∷ s) < pf.prop_name_max
    → IsPartByte c
    → IsPartByte (last_byte c s)
    → legal_chars false (c ∷ s) ≡ true
    → is_legal_property_name pf (c ∷ s) ≡ true
unfolding is_legal_property_name
legal_cons pf c s room h l chars = ground (arith, get_or-last_byte c s)

is_legal_property_name-join :
    (pf : Platform) (p : Part) (ps : List Part)
    → IsPart p
    → All IsPart ps
    → length (join p ps) < pf.prop_name_max
    → is_legal_property_name pf (join p ps) ≡ true
is_legal_property_name-join pf p ps h hs room =
    let (s, e, l) = join-cons p ps h hs in
    ap (is_legal_property_name pf) e
    ∙ legal_cons pf p.0 s (subst (λ t. length t < pf.prop_name_max) e room) h.0 l
        (ap (legal_chars false) (sym e) ∙ legal_chars-join false p ps h hs)

-- The parts of a text.
abbrev pub Parts : Text → Type 0
Parts s = (p : Part) × (ps : List Part) × (s ≡ join p ps) × IsPart p × All IsPart ps

longer : ℕ → Part → Part
longer c p = (c, p.0 ∷ p.1)

join-longer : (c : ℕ) (p : Part) (ps : List Part) → c ∷ join p ps ≡ join (longer c p) ps
unfolding join longer
join-longer c p [] = refl
join-longer c p (q ∷ ps) = refl

Parts-longer : (c : ℕ) (s : Text) → IsPartByte c → Parts s → Parts (c ∷ s)
unfolding longer
Parts-longer c s h (p, ps, e, part, parts) =
    (longer c p, ps, ap (λ t. c ∷ t) e ∙ join-longer c p ps, (h, part), parts)

Parts-dot : (c : ℕ) (s : Text) → IsPartByte c → Parts s → Parts (c ∷ b'.' ∷ s)
unfolding join
Parts-dot c s h (p, ps, e, part, parts) =
    ((c, []), p ∷ ps, ap (λ t. c ∷ b'.' ∷ t) e, (h, tt), (part, parts))

legal_chars-Parts :
    (c : ℕ) (s : Text)
    → IsPartByte c
    → legal_chars false s ≡ true
    → last_byte c s ≢ b'.'
    → Parts (c ∷ s)
unfolding legal_chars last_byte join
legal_chars-Parts c [] h legal last = ((c, []), [], refl, (h, tt), tt)
legal_chars-Parts c (d ∷ []) h legal last =
    let hd : IsPartByte d = ground arith in
    Parts-longer c (d ∷ []) h (legal_chars-Parts d [] hd refl last)
legal_chars-Parts c (d ∷ e ∷ s) h legal last = elim (Bool-cases (d == b'.')) [
  | inl dot ↦
      let rest = legal_chars-Parts e s (ground arith) (ground arith) last in
      subst (λ x. Parts (c ∷ x ∷ e ∷ s)) (ground arith) (Parts-dot c (e ∷ s) h rest)
  | inr part ↦
      Parts-longer c (d ∷ e ∷ s) h (legal_chars-Parts d (e ∷ s) (ground arith) (ground arith) last)
]

is_legal_property_name-Parts :
    (pf : Platform) (name : Text) → is_legal_property_name pf name ≡ true → Parts name
unfolding is_legal_property_name legal_chars
is_legal_property_name-Parts pf [] h = absurd (ground arith)
is_legal_property_name-Parts pf (c ∷ s) h =
    legal_chars-Parts c s (ground arith) (ground arith) (ground (arith, get_or-last_byte c s))

legal_fits :
    (pf : Platform) (name : Text)
    → is_legal_property_name pf name ≡ true
    → length name < pf.prop_name_max
unfolding is_legal_property_name
legal_fits pf name h = ground arith

-- A name is legal exactly if it is shorter than PROP_NAME_MAX and consists of parts, of which none is
-- empty and each holds letters, digits, underscores and dashes, with a dot between each two.
pub is_legal_property_name_iff :
    (pf : Platform) (name : Text)
    → (is_legal_property_name pf name ≡ true) ↔ (
        (length name < pf.prop_name_max)
        × ((p : Part) × (ps : List Part) × (name ≡ join p ps) × IsPart p × All IsPart ps))
is_legal_property_name_iff pf name = (
  λ h. (legal_fits pf name h, is_legal_property_name-Parts pf name h),
  λ fits.
      let room = fits.0 in
      let (p, ps, e, part, parts) = fits.1 in
      ap (is_legal_property_name pf) e
      ∙ is_legal_property_name-join pf p ps part parts
          (subst (λ t. length t < pf.prop_name_max) e room),
)
