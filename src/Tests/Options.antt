-- ===== src/Tests/Options.antt =====
-- Lines of a service section: init/init/init_parser.c.
use android4_4_4_r.Prelude.{
  List, [], ◌∷◌, ◌≡◌, refl, arith, Text, codes, some, true, text_eq, if◌then◌else◌,
}
use android4_4_4_r.Init.Keywords.{lookup_keyword}
use android4_4_4_r.Init.Platform.{Platform}
use android4_4_4_r.Init.Service.{Service, no_class, idle, new_service}
use android4_4_4_r.Init.Options.{parse_line_service}
use android4_4_4_r.Init.Options.Laws.{
  IsWithin, parse_line_service-IsWithin, other_line_drops_ioprio, parse_line_service-error,
}

-- bionic's limits, two users, and a number parser that knows two numerals
abbrev pub bionic : Platform
bionic = record {
  prop_name_max = 32;
  prop_value_max = 92;
  path_max = 4096;
  android_ids = (codes "system", 1000) ∷ (codes "radio", 1001) ∷ [];
  strtoul = λ s. some (if text_eq s (codes "1000") then 1000 else 0);
  strtoul_octal = λ s. if text_eq s (codes "4") then 4 else 8;
  atoi = λ s. 0;
}

abbrev vold : Service
vold = new_service (codes "vold") (codes "/system/bin/vold" ∷ [])

abbrev ioprio_line : List Text
ioprio_line = codes "ioprio" ∷ codes "idle" ∷ codes "4" ∷ []

abbrev with_ioprio : Service
with_ioprio = (parse_line_service bionic 3 ioprio_line vold).0

ioprio_is_set : with_ioprio.ioprio_class ≡ idle
unfolding parse_line_service lookup_keyword text_eq
ioprio_is_set = refl

-- `console` behind `ioprio` takes the I/O class away.
console_drops_ioprio :
    (parse_line_service bionic 1 (codes "console" ∷ []) with_ioprio).0.ioprio_class ≡ no_class
unfolding lookup_keyword text_eq
console_drops_ioprio =
    other_line_drops_ioprio bionic 1 (codes "console" ∷ []) with_ioprio (λ e. omega arith) (λ e. cc)

abbrev bad_line : List Text
bad_line = codes "class" ∷ []

bad_line_reported : (parse_line_service bionic 1 bad_line with_ioprio).1 ≡ true
unfolding parse_line_service lookup_keyword text_eq
bad_line_reported = refl

parse_line_service-error_example :
    (parse_line_service bionic 1 bad_line with_ioprio).0 ≡ record with_ioprio {
      ioprio_class = no_class;
      ioprio_pri = (parse_line_service bionic 1 bad_line with_ioprio).0.ioprio_pri;
    }
parse_line_service-error_example =
    parse_line_service-error bionic 1 bad_line with_ioprio bad_line_reported

abbrev group_line : List Text
group_line = codes "group" ∷ codes "radio" ∷ codes "system" ∷ []

parse_line_service-IsWithin_example : IsWithin (parse_line_service bionic 3 group_line vold).0
parse_line_service-IsWithin_example =
    parse_line_service-IsWithin bionic 3 group_line vold ((λ ne. absurd (ne refl)), omega arith)
