-- ===== src/Init/Control/Delay.antt =====
-- The pause of five seconds before a service is restarted.
use android4_4_4_r.Prelude.{
  ℕ, ◌+◌, ◌≤◌, ◌<◌, List, [], ◌∷◌, All, ◌≡◌, ◌≢◌, arith, true, false, none,
}
use android4_4_4_r.Init.Service.{Service}
use android4_4_4_r.Init.Control.{
  StartEnv, service_start, restart_service_if_needed, restart_each, restart_processes,
}

-- init is to wake up for this service, at `needs` or before it has to be restarted.
abbrev pub IsAwaited : ℕ → Service → Type 0
IsAwaited needs svc = svc.flags.restarting ≡ true → (0 < needs) × (needs ≤ svc.time_started + 5)

service_start_stops_waiting :
    (env : StartEnv) (svc : Service) → (service_start env svc none).0.flags.restarting ≢ true
unfolding service_start
service_start_stops_waiting env svc e = ground arith

-- `needs` after one service, against `needs` before it.
abbrev Falls : ℕ → ℕ → Type 0
Falls needs needs' = 0 < needs → (0 < needs') × (needs' ≤ needs)

restart_service_if_needed-Falls :
    (env : StartEnv) (svc : Service) (needs : ℕ)
    → Falls needs (restart_service_if_needed env svc needs).1
unfolding restart_service_if_needed
restart_service_if_needed-Falls env svc needs h = ground arith

restart_service_if_needed-IsAwaited :
    (env : StartEnv) (svc : Service) (needs : ℕ)
    → let r = restart_service_if_needed env svc needs in IsAwaited r.1 r.0.0
unfolding restart_service_if_needed
restart_service_if_needed-IsAwaited env svc needs h = ground (
  arith,
  service_start_stops_waiting env
      (record svc { flags = record (svc.flags) { restarting = false } }),
)

module _ (envs : Service → StartEnv) where
  restart_each-Falls :
      (services : List Service) (needs : ℕ) → Falls needs (restart_each envs services needs).1
  unfolding restart_each
  restart_each-Falls [] needs h = omega arith
  restart_each-Falls (svc ∷ rest) needs h = ground (
    arith,
    restart_service_if_needed-Falls (envs svc) svc needs h,
    restart_each-Falls rest needs,
    restart_each-Falls rest (restart_service_if_needed (envs svc) svc needs).1,
  )

  restart_each-IsAwaited :
      (services : List Service) (needs : ℕ)
      → All (IsAwaited (restart_each envs services needs).1) (restart_each envs services needs).0.0
  unfolding restart_each
  restart_each-IsAwaited [] needs = tt
  restart_each-IsAwaited (svc ∷ rest) needs = ground (
    arith,
    restart_service_if_needed-IsAwaited (envs svc) svc needs,
    restart_each-Falls rest needs,
    restart_each-Falls rest (restart_service_if_needed (envs svc) svc needs).1,
    restart_each-IsAwaited rest needs,
    restart_each-IsAwaited rest (restart_service_if_needed (envs svc) svc needs).1,
  )

  -- After `restart_processes` every service that still waits for its restart is awaited:
  -- `process_needs_restart` is set, to no later than five seconds behind the last start of the
  -- service.
  pub restart_processes-IsAwaited :
      (services : List Service)
      → All (IsAwaited (restart_processes envs services).1) (restart_processes envs services).0.0
  unfolding restart_processes
  restart_processes-IsAwaited services = restart_each-IsAwaited services 0
