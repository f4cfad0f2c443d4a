-- ===== src/Init/Properties.antt =====
-- The property store of init/init/property_service.c: which names are legal, and `property_set`.
--
-- The shared memory that holds the properties belongs to bionic: `PropertyArea` has its calls.
pub mod Names
pub mod Access
pub mod Load
pub mod Files
pub mod Laws
pub mod Guards
use android4_4_4_r.Prelude.{
  ℕ, ◌-◌, List, [], ◌∷◌, length, get_or, Bool, true, false, not, ◌||◌, ◌&&◌, Option, none, some,
  Text, codes, text_eq, has_prefix, leb, ltb, ◌==◌, if◌then◌else◌,
}
use android4_4_4_r.Init.Platform.{Platform, is_alnum}

-- `__system_property_find`, `__system_property_update` and `__system_property_add`, which is `none`
-- where it returns an error
pub record PropertyArea (Area : Type 0) : Type 0 where
  pub find : Area → Text → Option Text
  pub update : Area → Text → Text → Area
  pub add : Area → Text → Text → Option Area

pub data PropertyEffect : Type 0 where
  write_persistent_property : Text → Text → PropertyEffect
  selinux_reload_policy : PropertyEffect
  property_changed : Text → Text → PropertyEffect

-- the loop, from the value that `previous_was_dot` has
unfoldable pub legal_chars : Bool → Text → Bool
legal_chars previous_was_dot [] = true
legal_chars previous_was_dot (c ∷ s) =
    if c == b'.'
    then not previous_was_dot && legal_chars true s
    else (c == b'_' || c == b'-' || is_alnum c) && legal_chars false s

unfoldable pub is_legal_property_name : Platform → Text → Bool
unfolding legal_chars
is_legal_property_name pf name =
    let namelen = length name in
    if leb pf.prop_name_max namelen
    then false
    else if ltb namelen 1
    then false
    else if get_or name 0 0 == b'.'
    then false
    else if get_or name (namelen - 1) 0 == b'.'
    then false
    else legal_chars false name

module _ {Area : Type 0} (pf : Platform) (area : PropertyArea Area) where
  -- The part of `property_set` that writes to the area; `none` where it returns an error.
  unfoldable pub put : Area → Text → Text → Option Area
  put a name value =
      if not (is_legal_property_name pf name)
      then none
      else if leb pf.prop_value_max (length value)
      then none
      else elim (area.find a name) [
        | some old ↦ if has_prefix (codes "ro.") name then none else some (area.update a name value)
        | none ↦ area.add a name value
      ]

  -- `property_set("net.change", name)`, which returns right after the write
  unfoldable pub set_net_change : Area → Text → Area
  unfolding put
  set_net_change a name = elim (put a (codes "net.change") name) [ none ↦ a | some a' ↦ a' ]

  -- The area, the effects, and whether 0 is returned.
  unfoldable pub property_set : Bool → Area → Text → Text → (Area × List PropertyEffect) × Bool
  unfolding put set_net_change
  property_set persistent_properties_loaded a name value = elim (put a name value) [
    | none ↦ ((a, []), false)
    | some a' ↦
        if has_prefix (codes "net.") name
        then (if text_eq (codes "net.change") name
            then ((a', []), true)
            else ((set_net_change a' name, property_changed name value ∷ []), true))
        else if persistent_properties_loaded && has_prefix (codes "persist.") name
        then ((a', write_persistent_property name value ∷ property_changed name value ∷ []), true)
        else if text_eq (codes "selinux.reload_policy") name && text_eq (codes "1") value
        then ((a', selinux_reload_policy ∷ property_changed name value ∷ []), true)
        else ((a', property_changed name value ∷ []), true)
  ]
