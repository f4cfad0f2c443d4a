-- ===== src/Init/Control/State.antt =====
-- The flags of a service over its life, whatever happens to it.
use android4_4_4_r.Prelude.{
  ℕ, List, [], ◌∷◌, All, ◌≡◌, ◌≢◌, arith, true, false, Option, some, none, Text, ◌==◌,
  if◌then◌else◌,
}
use android4_4_4_r.Init.Service.{Service}
use android4_4_4_r.Init.Control.{
  StartEnv, How, service_start, service_stop_or_reset, service_restart, restart_service_if_needed,
}
use android4_4_4_r.Init.Reap.{reap_service}

-- A service has a pid exactly while it runs. While it waits for its restart it is not running, not
-- disabled, not reset, and no restart is asked for.
pub record IsConsistent (svc : Service) : Type 0 where
  pub running_pid : svc.flags.running ≡ true → svc.pid ≢ 0
  pub idle_pid : svc.flags.running ≡ false → svc.pid ≡ 0
  pub waits_idle : svc.flags.restarting ≡ true → svc.flags.running ≡ false
  pub waits_enabled : svc.flags.restarting ≡ true → svc.flags.disabled ≡ false
  pub waits_set : svc.flags.restarting ≡ true → svc.flags.reset ≡ false
  pub waits_once : svc.flags.restarting ≡ true → svc.flags.restart ≡ false

-- What can happen to a service. `exit pid now` is the exit of a child.
pub data Event : Type 0 where
  start : StartEnv → Option Text → Event
  stop : How → Event
  restart : StartEnv → Event
  wake : StartEnv → ℕ → Event
  exit : ℕ → ℕ → Event

-- `fork` gives the parent a pid other than 0, and so does `waitpid`.
abbrev pub IsReal : Event → Type 0
IsReal (start env args) = env.fork ≢ some 0
IsReal (stop how) = Unit
IsReal (restart env) = env.fork ≢ some 0
IsReal (wake env needs) = env.fork ≢ some 0
IsReal (exit pid now) = pid ≢ 0

unfoldable pub happen : Event → Service → Service
happen (start env args) svc = (service_start env svc args).0
happen (stop how) svc = (service_stop_or_reset svc how).0
happen (restart env) svc = (service_restart env svc).0
happen (wake env needs) svc =
    if svc.flags.restarting then (restart_service_if_needed env svc needs).0.0 else svc
happen (exit pid now) svc = if svc.pid == pid then (reap_service pid now svc).0 else svc

unfoldable pub live : List Event → Service → Service
live [] svc = svc
live (e ∷ es) svc = live es (happen e svc)

service_start-IsConsistent :
    (env : StartEnv) (svc : Service) (args : Option Text)
    → env.fork ≢ some 0
    → IsConsistent svc
    → IsConsistent (service_start env svc args).0
unfolding service_start
service_start-IsConsistent env svc args real h = ground arith

service_stop_or_reset-IsConsistent :
    (svc : Service) (how : How) → IsConsistent svc → IsConsistent (service_stop_or_reset svc how).0
unfolding service_stop_or_reset
service_stop_or_reset-IsConsistent svc How.disabled h = ground arith
service_stop_or_reset-IsConsistent svc _ h = ground arith

reap_service-IsConsistent :
    (pid now : ℕ) (svc : Service)
    → svc.pid ≡ pid
    → pid ≢ 0
    → IsConsistent svc
    → IsConsistent (reap_service pid now svc).0
unfolding reap_service
reap_service-IsConsistent pid now svc e real h = ground arith

service_restart-IsConsistent :
    (env : StartEnv) (svc : Service)
    → env.fork ≢ some 0
    → IsConsistent svc
    → IsConsistent (service_restart env svc).0
unfolding service_restart
service_restart-IsConsistent env svc real h = ground (
  arith,
  service_start-IsConsistent env svc none real h,
  service_stop_or_reset-IsConsistent svc How.restart h,
)

restart_service_if_needed-IsConsistent :
    (env : StartEnv) (svc : Service) (needs : ℕ)
    → env.fork ≢ some 0
    → IsConsistent svc
    → IsConsistent (restart_service_if_needed env svc needs).0.0
unfolding restart_service_if_needed
restart_service_if_needed-IsConsistent env svc needs real h =
    let awake = record svc { flags = record (svc.flags) { restarting = false } } in
    ground (arith, service_start-IsConsistent env awake none real (ground arith))

pub happen-IsConsistent :
    (e : Event) (svc : Service) → IsReal e → IsConsistent svc → IsConsistent (happen e svc)
unfolding happen
happen-IsConsistent (start env args) svc real h = service_start-IsConsistent env svc args real h
happen-IsConsistent (stop how) svc real h = service_stop_or_reset-IsConsistent svc how h
happen-IsConsistent (restart env) svc real h = service_restart-IsConsistent env svc real h
happen-IsConsistent (wake env needs) svc real h =
    ground (arith, restart_service_if_needed-IsConsistent env svc needs real h)
happen-IsConsistent (exit pid now) svc real h =
    ground (arith, reap_service-IsConsistent pid now svc)

-- From a consistent service, such as one that was just parsed, every sequence of starts, stops,
-- restarts, wake-ups and exits leads to a consistent one.
pub live-IsConsistent :
    (es : List Event) (svc : Service)
    → All IsReal es
    → IsConsistent svc
    → IsConsistent (live es svc)
unfolding live
live-IsConsistent [] svc real h = h
live-IsConsistent (e ∷ es) svc real h =
    live-IsConsistent es (happen e svc) real.1 (happen-IsConsistent e svc real.0 h)
