-- ===== src/Init/Options/Laws.antt =====
-- What a line of a service section does to the service, whatever the line says.
use android4_4_4_r.Prelude.{
  ℕ, ◌≤◌, ◌-◌, List, ◌≡◌, ◌≢◌, refl, arith, true, Text, length, length-take, length-map, drop,
}
use android4_4_4_r.Init.Keywords.{Keyword, lookup_keyword}
use android4_4_4_r.Init.Platform.{Platform, decode_uid}
use android4_4_4_r.Init.Service.{Service, no_class}
use android4_4_4_r.Init.Options.{arg, words, service_option, parse_line_service}

-- The I/O priority of a service that has an I/O class is in range.
abbrev pub IoprioIsValid : Service → Type 0
IoprioIsValid svc = svc.ioprio_class ≢ no_class → svc.ioprio_pri ≤ 7

-- The supplementary groups fit in the array `supp_gids` of the service.
abbrev pub GroupsFit : Service → Type 0
GroupsFit svc = length svc.supp_gids ≤ 12

-- What a line keeps of a service.
abbrev pub IsWithin : Service → Type 0
IsWithin svc = IoprioIsValid svc × GroupsFit svc

module _ (pf : Platform) (nargs : ℕ) (args : List Text) where
  service_option-ioprio :
      (kw : Keyword) (svc : Service)
      → svc.ioprio_class ≡ no_class
      → IoprioIsValid (service_option pf kw nargs args svc).0
  unfolding service_option
  service_option-ioprio Keyword.ioprio svc h = ground arith
  service_option-ioprio _ svc h = ground arith

  parse_line_service-IoprioIsValid :
      (svc : Service) → IoprioIsValid svc → IoprioIsValid (parse_line_service pf nargs args svc).0
  unfolding parse_line_service
  parse_line_service-IoprioIsValid svc h =
      let svc' = record svc { ioprio_class = no_class } in
      ground (arith, service_option-ioprio (lookup_keyword (arg args 0)) svc' refl)

  service_option-class :
      (kw : Keyword) (svc : Service)
      → kw ≢ Keyword.ioprio
      → (service_option pf kw nargs args svc).0.ioprio_class ≡ svc.ioprio_class
  unfolding service_option
  service_option-class Keyword.ioprio svc ne = absurd (ne refl)
  service_option-class _ svc ne = ground arith

  -- A line that is not empty and does not begin with `ioprio` leaves the service with no I/O class,
  -- whatever class an earlier line has set.
  pub other_line_drops_ioprio :
      (svc : Service)
      → nargs ≢ 0
      → lookup_keyword (arg args 0) ≢ Keyword.ioprio
      → (parse_line_service pf nargs args svc).0.ioprio_class ≡ no_class
  unfolding parse_line_service
  other_line_drops_ioprio svc some_words ne =
      let svc' = record svc { ioprio_class = no_class } in
      ground (arith, service_option-class (lookup_keyword (arg args 0)) svc' ne)

  service_option-error :
      (kw : Keyword) (svc : Service)
      → (service_option pf kw nargs args svc).1 ≡ true
      → (service_option pf kw nargs args svc).0
        ≡ record svc { ioprio_pri = (service_option pf kw nargs args svc).0.ioprio_pri }
  unfolding service_option
  service_option-error Keyword.ioprio svc h = ground arith
  service_option-error _ svc h = ground arith

  -- A line that is reported by `parse_error` changes nothing of the service but its I/O class, which
  -- is dropped, and its I/O priority.
  pub parse_line_service-error :
      (svc : Service)
      → (parse_line_service pf nargs args svc).1 ≡ true
      → (parse_line_service pf nargs args svc).0 ≡ record svc {
        ioprio_class = no_class;
        ioprio_pri = (parse_line_service pf nargs args svc).0.ioprio_pri;
      }
  unfolding parse_line_service
  parse_line_service-error svc h =
      let svc' = record svc { ioprio_class = no_class } in
      ground (arith, service_option-error (lookup_keyword (arg args 0)) svc')

  service_option-GroupsFit :
      (kw : Keyword) (svc : Service)
      → GroupsFit svc
      → GroupsFit (service_option pf kw nargs args svc).0
  unfolding service_option
  service_option-GroupsFit Keyword.group svc h = ground (
    arith,
    length-map (words args 2 (nargs - 2)) (decode_uid pf),
    length-take (nargs - 2) (drop 2 args),
  )
  service_option-GroupsFit _ svc h = ground arith

  parse_line_service-GroupsFit :
      (svc : Service) → GroupsFit svc → GroupsFit (parse_line_service pf nargs args svc).0
  unfolding parse_line_service
  parse_line_service-GroupsFit svc h = ground (
    arith,
    service_option-GroupsFit (lookup_keyword (arg args 0)) (record svc { ioprio_class = no_class }),
  )

  -- A line keeps it that a service with an I/O class has an I/O priority of at most 7, and that its
  -- supplementary groups are at most twelve.
  pub parse_line_service-IsWithin :
      (svc : Service) → IsWithin svc → IsWithin (parse_line_service pf nargs args svc).0
  parse_line_service-IsWithin svc (pri, groups) =
      (parse_line_service-IoprioIsValid svc pri, parse_line_service-GroupsFit svc groups)
