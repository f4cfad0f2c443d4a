-- ===== src/Init/Control/Classes.antt =====
-- The commands that start and stop services, one by one or a class of them: init/init/builtins.c.
use android4_4_4_r.Prelude.{
  ℕ, zero, suc, List, [], ◌∷◌, ◌++◌, All, get_elem?, ◌≡◌, ◌≢◌, arith, Bool, true, false, Bool-cases,
  inl, inr, none, some, some-injective, Text, text_eq, if◌then◌else◌,
}
use android4_4_4_r.Init.Service.{Service}
use android4_4_4_r.Init.Control.{
  StartEnv, Effect, How, service_start, service_stop, service_reset, service_restart,
}
use android4_4_4_r.Init.Control.State.{start, stop, IsConsistent, happen, happen-IsConsistent}
use android4_4_4_r.Init.Control.Messages.{update_named}

unfoldable pub service_for_each_class :
    Text → (Service → Service × List Effect) → List Service → List Service × List Effect
service_for_each_class name f [] = ([], [])
service_for_each_class name f (svc ∷ rest) =
    let (svc', e) = if text_eq svc.classname name then f svc else (svc, []) in
    let (rest', es) = service_for_each_class name f rest in (svc' ∷ rest', e ++ es)

unfoldable pub service_start_if_not_disabled : StartEnv → Service → Service × List Effect
service_start_if_not_disabled env svc =
    if svc.flags.disabled then (svc, []) else service_start env svc none

abbrev pub do_class_start : (Service → StartEnv) → Text → List Service → List Service × List Effect
do_class_start envs name services =
    service_for_each_class name (λ svc. service_start_if_not_disabled (envs svc) svc) services

abbrev pub do_class_stop : Text → List Service → List Service × List Effect
do_class_stop name services = service_for_each_class name service_stop services

abbrev pub do_class_reset : Text → List Service → List Service × List Effect
do_class_reset name services = service_for_each_class name service_reset services

abbrev pub do_start : (Service → StartEnv) → Text → List Service → List Service × List Effect
do_start envs name services = update_named name (λ svc. service_start (envs svc) svc none) services

abbrev pub do_stop : Text → List Service → List Service × List Effect
do_stop name services = update_named name service_stop services

abbrev pub do_restart : (Service → StartEnv) → Text → List Service → List Service × List Effect
do_restart envs name services = update_named name (λ svc. service_restart (envs svc) svc) services

class-All :
    (P : Service → Type 0) (name : Text) (f : Service → Service × List Effect)
    (services : List Service)
    → ((svc : Service) → P svc → P (f svc).0)
    → All P services
    → All P (service_for_each_class name f services).0
unfolding service_for_each_class
class-All P name f [] step h = tt
class-All P name f (svc ∷ rest) step h = elim (Bool-cases (text_eq svc.classname name)) [
  | inl e ↦ rw (service_for_each_class, e) (step svc h.0, class-All P name f rest step h.1)
  | inr e ↦ rw (service_for_each_class, e) (h.0, class-All P name f rest step h.1)
]

-- A service is done to what its class says, and nothing else.
pub service_for_each_class-get_elem? :
    (name : Text) (f : Service → Service × List Effect) (services : List Service) (k : ℕ)
    (svc : Service)
    → get_elem? services k ≡ some svc
    → get_elem? (service_for_each_class name f services).0 k
      ≡ some (if text_eq svc.classname name then (f svc).0 else svc)
unfolding service_for_each_class
service_for_each_class-get_elem? name f [] k svc h = ground (arith, h)
service_for_each_class-get_elem? name f (s ∷ rest) zero svc h =
    let same : s ≡ svc = some-injective _ _ h in ground (arith, same)
service_for_each_class-get_elem? name f (s ∷ rest) (suc k) svc h =
    ground (arith, service_for_each_class-get_elem? name f rest k svc h)

either-IsConsistent :
    (b : Bool) (x y : Service × List Effect)
    → IsConsistent x.0
    → IsConsistent y.0
    → IsConsistent (if b then x else y).0
either-IsConsistent true x y h k = h
either-IsConsistent false x y h k = k

start_if_not_disabled-IsConsistent :
    (env : StartEnv) (svc : Service)
    → env.fork ≢ some 0
    → IsConsistent svc
    → IsConsistent (service_start_if_not_disabled env svc).0
unfolding service_start_if_not_disabled happen
start_if_not_disabled-IsConsistent env svc real h =
    either-IsConsistent svc.flags.disabled (svc, []) (service_start env svc none) h
      (happen-IsConsistent (start env none) svc real h)

-- The commands for a class keep every service consistent.
pub do_class-IsConsistent :
    (envs : Service → StartEnv) (name : Text) (services : List Service)
    → ((svc : Service) → (envs svc).fork ≢ some 0)
    → All IsConsistent services
    → All IsConsistent (do_class_start envs name services).0
      × All IsConsistent (do_class_stop name services).0
      × All IsConsistent (do_class_reset name services).0
unfolding happen
do_class-IsConsistent envs name services real h = (
  class-All IsConsistent name (λ svc. service_start_if_not_disabled (envs svc) svc) services
      (λ svc. start_if_not_disabled-IsConsistent (envs svc) svc (real svc)) h,
  class-All IsConsistent name service_stop services
      (λ svc. happen-IsConsistent (stop How.disabled) svc tt) h,
  class-All IsConsistent name service_reset services
      (λ svc. happen-IsConsistent (stop How.reset) svc tt) h,
)
