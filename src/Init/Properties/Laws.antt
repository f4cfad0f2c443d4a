-- ===== src/Init/Properties/Laws.antt =====
-- What the property store keeps: read-only properties, and the value last set.
use android4_4_4_r.Prelude.{
  List, [], ◌∷◌, ◌≡◌, ◌≢◌, ◌⊎◌, sym, subst, ap, ◌∙◌, arith, Bool, true, false, none, some,
  Option-cases, Bool-cases, inl, inr, Text, codes, text_eq, text_eq_iff, has_prefix,
}
use android4_4_4_r.Init.Platform.{Platform}
use android4_4_4_r.Init.Properties.{PropertyArea, put, set_net_change, property_set}
use android4_4_4_r.Init.Properties.Load.{set_all, load_properties, key_values, lines}

-- Documented behaviour of the area: a write is found again, and leaves the other names alone.
pub record IsArea {Area : Type 0} (area : PropertyArea Area) : Type 0 where
  pub find_update :
      (a : Area) (name value : Text) → area.find (area.update a name value) name ≡ some value
  pub find_update_ne :
      (a : Area) (name value other : Text)
      → name ≢ other
      → area.find (area.update a name value) other ≡ area.find a other
  pub find_add :
      (a a' : Area) (name value : Text)
      → area.add a name value ≡ some a'
      → area.find a' name ≡ some value
  pub find_add_ne :
      (a a' : Area) (name value other : Text)
      → area.add a name value ≡ some a'
      → name ≢ other
      → area.find a' other ≡ area.find a other

module _ {Area : Type 0} (pf : Platform) (area : PropertyArea Area) (laws : IsArea area) where
  find-put :
      (a a' : Area) (name value : Text)
      → put pf area a name value ≡ some a'
      → area.find a' name ≡ some value
  unfolding put
  find-put a a' name value h =
      ground (arith, laws.find_update a name value, laws.find_add a a' name value)

  find-put_ne :
      (a a' : Area) (name value other : Text)
      → put pf area a name value ≡ some a'
      → name ≢ other
      → area.find a' other ≡ area.find a other
  unfolding put
  find-put_ne a a' name value other h =
      ground (arith, laws.find_update_ne a name value other, laws.find_add_ne a a' name value other)

  put_read_only :
      (a : Area) (name value old : Text)
      → has_prefix (codes "ro.") name ≡ true
      → area.find a name ≡ some old
      → put pf area a name value ≡ none
  unfolding put
  put_read_only a name value old ro h = ground arith

  find-set_net_change :
      (a : Area) (name other : Text)
      → codes "net.change" ≢ other
      → area.find (set_net_change pf area a name) other ≡ area.find a other
  unfolding set_net_change
  find-set_net_change a name other ne =
      elim (Option-cases (put pf area a (codes "net.change") name)) [
        | inl e ↦ ground arith
        | inr (b, e) ↦ ground (arith, find-put_ne a b (codes "net.change") name other e ne)
      ]

  -- The area that `property_set` leaves.
  property_set-put :
      (loaded : Bool) (a : Area) (name value : Text)
      → let a' = (property_set pf area loaded a name value).0.0 in
        ((a' ≡ a) × (put pf area a name value ≡ none))
        ⊎ ((put pf area a name value ≡ some a')
            ⊎ ((b : Area) × (put pf area a name value ≡ some b)
                × (a' ≡ set_net_change pf area b name)
                × (codes "net.change" ≢ name)))
  unfolding property_set
  property_set-put loaded a name value = elim (Option-cases (put pf area a name value)) [
    | inl e ↦ inl (ground arith, e)
    | inr (b, e) ↦ elim (Bool-cases (has_prefix (codes "net.") name)) [
      | inl net ↦ elim (Bool-cases (text_eq (codes "net.change") name)) [
        | inl same ↦ inr (inl (ground arith))
        | inr other ↦
            inr (inr (b, e, ground arith, ground (arith, text_eq_iff (codes "net.change") name)))
      ]
      | inr not_net ↦ inr (inl (ground arith))
    ]
  ]

  property_set-find :
      (loaded : Bool) (a : Area) (name value : Text)
      → (property_set pf area loaded a name value).1 ≡ true
      → let a' = (property_set pf area loaded a name value).0.0 in
        (area.find a' name ≡ some value)
        × ((other : Text)
            → name ≢ other
            → codes "net.change" ≢ other
            → area.find a' other ≡ area.find a other)
  unfolding property_set
  property_set-find loaded a name value h = elim (property_set-put loaded a name value) [
    | inl (same, e) ↦ ground arith
    | inr (inl e) ↦
        (find-put a _ name value e, λ other ne kept. find-put_ne a _ name value other e ne)
    | inr (inr (b, e, w, ne)) ↦ (
      ap (λ x. area.find x name) w ∙ find-set_net_change b name name ne ∙ find-put a b name value e,
      λ other ne' kept.
          ap (λ x. area.find x other) w
          ∙ find-set_net_change b name other kept
          ∙ find-put_ne a b name value other e ne',
    )
  ]

  property_set-error :
      (loaded : Bool) (a : Area) (name value : Text)
      → (property_set pf area loaded a name value).1 ≡ false
      → (property_set pf area loaded a name value).0 ≡ (a, [])
  unfolding property_set
  property_set-error loaded a name value h = ground arith

  -- Either `property_set` returns 0, the name holds the value, and no other name has changed but
  -- `net.change`; or it returns an error, nothing has changed and nothing was told to anyone.
  pub property_set_lem :
      (loaded : Bool) (a : Area) (name value : Text)
      → let r = property_set pf area loaded a name value in
        ((r.1 ≡ true)
          × ((area.find r.0.0 name ≡ some value)
              × ((other : Text)
                  → name ≢ other
                  → codes "net.change" ≢ other
                  → area.find r.0.0 other ≡ area.find a other)))
        ⊎ ((r.1 ≡ false) × (r.0 ≡ (a, [])))
  property_set_lem loaded a name value =
      elim (Bool-cases (property_set pf area loaded a name value).1) [
        | inl e ↦ inl (e, property_set-find loaded a name value e)
        | inr e ↦ inr (e, property_set-error loaded a name value e)
      ]

  property_set-ro :
      (loaded : Bool) (a : Area) (name value other old : Text)
      → has_prefix (codes "ro.") other ≡ true
      → area.find a other ≡ some old
      → area.find (property_set pf area loaded a name value).0.0 other ≡ some old
  unfolding property_set has_prefix
  property_set-ro loaded a name value other old ro h = elim (property_set-put loaded a name value) [
    | inl (same, e) ↦ ap (λ x. area.find x other) same ∙ h
    | inr (inl e) ↦ find-put_ne a _ name value other e (read_only_ne e) ∙ h
    | inr (inr (b, e, w, ne)) ↦
        ap (λ x. area.find x other) w
        ∙ find-set_net_change b name other net_change_ne
        ∙ find-put_ne a b name value other e (read_only_ne e)
        ∙ h
  ]
    where
      read_only_ne : {b : Area} → put pf area a name value ≡ some b → name ≢ other
      read_only_ne e same =
          let none_put =
            put_read_only a name value old
              (subst (λ n. has_prefix (codes "ro.") n ≡ true) (sym same) ro)
              (ap (area.find a) same ∙ h) in
          cc

      net_change_ne : codes "net.change" ≢ other
      net_change_ne same =
          let bad = subst (λ n. has_prefix (codes "ro.") n ≡ true) (sym same) ro in ground arith

  set_all-ro :
      (loaded : Bool) (kvs : List (Text × Text)) (a : Area) (name old : Text)
      → has_prefix (codes "ro.") name ≡ true
      → area.find a name ≡ some old
      → area.find (set_all pf area loaded kvs a).0 name ≡ some old
  unfolding set_all
  set_all-ro loaded [] a name old ro h = h
  set_all-ro loaded ((key, value) ∷ rest) a name old ro h =
      set_all-ro loaded rest _ name old ro (property_set-ro loaded a key value name old ro h)

  -- A property whose name begins with `ro.`, once set, keeps its value through every property file.
  pub load_properties-ro :
      (loaded : Bool) (text : Text) (a : Area) (name old : Text)
      → has_prefix (codes "ro.") name ≡ true
      → area.find a name ≡ some old
      → area.find (load_properties pf area loaded text a).0 name ≡ some old
  unfolding load_properties
  load_properties-ro loaded text a name old ro h =
      set_all-ro loaded (key_values (lines [] text)) a name old ro h
