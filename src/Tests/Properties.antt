-- ===== src/Tests/Properties.antt =====
-- The property service: init/init/property_service.c.
use android4_4_4_r.Prelude.{
  c_string, ◌⊎◌, ◌%◌, ◌++◌, List, [], ◌∷◌, ◌≡◌, ◌≢◌, refl, arith, Text, codes, Option, none, some,
  some-injective, Bool, true, false, text_eq, text_eq_iff, if◌then◌else◌, has_prefix, ap, sym, All,
  ◌∙◌,
}
use android4_4_4_r.Init.Properties.{
  PropertyArea, PropertyEffect, is_legal_property_name, property_set,
}
use android4_4_4_r.Init.Properties.Access.{
  Security, Request, handle_property_set_fd, control, check_control_perms, control_entry,
  control_perms, check_control_mac_perms, check_mac_perms,
}
use android4_4_4_r.Init.Properties.Names.{join, is_legal_property_name_iff}
use android4_4_4_r.Init.Properties.Load.{load_properties, set_all}
use android4_4_4_r.Init.Properties.Files.{
  IsGood, Line, comment, setting, ends_plain, print, settings, load_properties-print,
}
use android4_4_4_r.Init.Properties.Laws.{IsArea, property_set_lem, load_properties-ro}
use android4_4_4_r.Init.Properties.Guards.{IsGranted, handle_property_set_fd-IsGranted}
use android4_4_4_r.Tests.Options.{bionic}

-- An area that has room for every property.
abbrev Area : Type 0
Area = Text → Option Text

write : Area → Text → Text → Area
write a name value other = if text_eq name other then some value else a other

abbrev memory : PropertyArea Area
memory = record {
  find = λ a name. a name;
  update = write;
  add = λ a name value. some (write a name value);
}

write_self : (a : Area) (name value : Text) → write a name value name ≡ some value
unfolding write
write_self a name value = ground (arith, text_eq_iff name name)

write_other :
    (a : Area) (name value other : Text) → name ≢ other → write a name value other ≡ a other
unfolding write
write_other a name value other ne = ground (arith, text_eq_iff name other)

memory-IsArea : IsArea memory
memory-IsArea = record {
  find_update = write_self;
  find_update_ne = write_other;
  find_add =
      λ a a' name value e. ap (λ x. x name) (sym (some-injective _ _ e)) ∙ write_self a name value;
  find_add_ne = λ a a' name value other e ne.
      ap (λ x. x other) (sym (some-injective _ _ e)) ∙ write_other a name value other ne;
}

abbrev fresh : Area
fresh name = none

abbrev booted : Area
booted name = if text_eq (codes "ro.debuggable") name then some (codes "0") else none

abbrev set_hostname : (Area × List PropertyEffect) × Bool
set_hostname = property_set bionic memory true fresh (codes "net.hostname") (codes "a")

hostname_set : set_hostname.1 ≡ true
unfolding property_set text_eq has_prefix is_legal_property_name
hostname_set = refl

read_only : (property_set bionic memory true booted (codes "ro.debuggable") (codes "1")).1 ≡ false
unfolding property_set text_eq has_prefix is_legal_property_name
read_only = refl

ro_name : has_prefix (codes "ro.") (codes "ro.debuggable") ≡ true
unfolding has_prefix
ro_name = refl

debuggable : booted (codes "ro.debuggable") ≡ some (codes "0")
unfolding text_eq
debuggable = refl

property_set_lem_example :
    ((set_hostname.1 ≡ true)
      × ((set_hostname.0.0 (codes "net.hostname") ≡ some (codes "a"))
          × ((other : Text)
              → codes "net.hostname" ≢ other
              → codes "net.change" ≢ other
              → set_hostname.0.0 other ≡ none)))
    ⊎ ((set_hostname.1 ≡ false) × (set_hostname.0 ≡ (fresh, [])))
property_set_lem_example =
    property_set_lem bionic memory memory-IsArea true fresh (codes "net.hostname") (codes "a")

abbrev default_prop : Text
default_prop = codes "ro.debuggable=1" ++ (10 ∷ [])

load_properties-ro_example :
    (load_properties bionic memory false default_prop booted).0 (codes "ro.debuggable")
    ≡ some (codes "0")
load_properties-ro_example =
    load_properties-ro bionic memory memory-IsArea false default_prop booted (codes "ro.debuggable")
      (codes "0") ro_name debuggable

-- `# a=b`, then ` ro.x = 1 ` and a carriage return
abbrev build_prop : List Line
build_prop =
    comment [] (codes " a=b")
    ∷ setting (codes " ") (codes "ro.x") (codes " ") (codes " ") (codes "1") (codes " " ++ 13 ∷ [])
    ∷ []

build_prop-IsGood : All IsGood build_prop
unfolding ends_plain
build_prop-IsGood = (
  (tt, (refl, (refl, (refl, (refl, tt))))),
  (
    (
      (refl, tt),
      (refl, tt),
      (refl, tt),
      (refl, (refl, tt)),
      (refl, (refl, (refl, (refl, tt)))),
      (refl, (refl, (refl, (refl, tt)))),
      (refl, tt),
      refl,
      refl,
      refl,
      refl,
      refl,
    ),
    tt,
  ),
)

load_properties-print_example :
    load_properties bionic memory false (print build_prop) fresh
    ≡ set_all bionic memory false (settings build_prop) fresh
load_properties-print_example =
    load_properties-print bionic memory false build_prop fresh build_prop-IsGood

-- no SELinux, and the users of bionic
abbrev users : Security
users = record {
  aid_system = 1000;
  aid_radio = 1001;
  aid_bluetooth = 1002;
  aid_dhcp = 1014;
  aid_log = 1007;
  aid_shell = 2000;
  multiuser_get_app_id = λ uid. uid % 100000;
  selinux_enabled = false;
  sehandle_prop = false;
  selabel_lookup = λ name. none;
  selinux_check_access = λ s t name. false;
}

abbrev start_dumpstate : Request
start_dumpstate = record {
  accepted = true;
  peercred = some (2000, 2000);
  whole = true;
  is_setprop = true;
  name = codes "ctl.start" ++ (0 ∷ 7 ∷ []);
  value = codes "dumpstate" ++ (0 ∷ []);
  source_ctx = none;
}

shell_starts_dumpstate :
    handle_property_set_fd bionic users start_dumpstate
    ≡ control (codes "start") (codes "dumpstate")
unfolding handle_property_set_fd c_string is_legal_property_name has_prefix check_control_perms
    control_entry control_perms text_eq check_control_mac_perms check_mac_perms
shell_starts_dumpstate = refl

handle_property_set_fd-IsGranted_example :
    IsGranted users bionic 2000 2000 none (handle_property_set_fd bionic users start_dumpstate)
handle_property_set_fd-IsGranted_example =
    handle_property_set_fd-IsGranted bionic users start_dumpstate 2000 2000 (ground arith) refl

joined : codes "ro.a-1" ≡ join (b'r', codes "o") ((b'a', codes "-1") ∷ [])
unfolding join
joined = refl

is_legal_property_name_iff_example : is_legal_property_name bionic (codes "ro.a-1") ≡ true
is_legal_property_name_iff_example =
    (is_legal_property_name_iff bionic (codes "ro.a-1")).1 (
      ground arith,
      ((b'r', codes "o"), (b'a', codes "-1") ∷ [], joined, ground arith, ground arith),
    )
