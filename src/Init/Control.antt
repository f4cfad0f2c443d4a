-- ===== src/Init/Control.antt =====
-- Starting and stopping services: the parent's part of `service_start`, `service_stop_or_reset`,
-- `service_restart`, `restart_service_if_needed` and `restart_processes` of init/init/init.c.
--
-- What the system answers to a start (files, SELinux, `fork`, the clock) is a `StartEnv`. Calls
-- that others see are effects, in order. A child's pid is not 0.
pub mod State
pub mod Delay
pub mod Messages
pub mod Classes
use android4_4_4_r.Prelude.{
  ℕ, zero, suc, ◌+◌, List, [], ◌∷◌, ◌++◌, Bool, true, false, not, ◌||◌, ◌&&◌, Option, none, some,
  Text, codes, leb, ltb, ◌==◌, if◌then◌else◌,
}
use android4_4_4_r.Init.Service.{Command, Flags, Service}

pub record StartEnv : Type 0 where
  pub have_console : Bool
  -- `stat(svc->args[0], &s) == 0`
  pub found : Bool
  pub selinux_enabled : Bool
  -- `getcon`, `getfilecon` and `security_compute_create` succeed
  pub getcon_works : Bool
  pub getfilecon_works : Bool
  pub compute_create_works : Bool
  -- `none` is a failure of `fork`
  pub fork : Option ℕ
  pub properties_inited : Bool
  pub now : ℕ

pub data Effect : Type 0 where
  -- `notify_service_state`
  notify : Text → Text → Effect
  -- `kill(-pid, SIGKILL)`
  kill_group : ℕ → Effect
  unlink_socket : Text → Effect
  reboot_recovery : Effect
  run : Command → Effect

abbrev disable : Service → Service
disable svc = record svc { flags = record (svc.flags) { disabled = true } }

-- the clearing of flags and time at the head of `service_start`
abbrev pub ready : Service → Service
ready svc = record svc {
  flags = record (svc.flags) {
    disabled = false;
    restarting = false;
    reset = false;
    restart = false;
  };
  time_started = 0;
}

is_some {ℓ} : {A : Type ℓ} → Option A → Bool
is_some none = false
is_some (some a) = true

-- whether a security context is found for the child
abbrev context_found : StartEnv → Service → Bool
context_found env svc =
    not env.selinux_enabled
    || is_some svc.seclabel
    || env.getcon_works && env.getfilecon_works && env.compute_create_works

-- from the call of `fork` on, in the parent
after_fork : Option ℕ → StartEnv → Service → Service × List Effect
after_fork none env svc = (record svc { pid = 0 }, [])
after_fork (some pid) env svc = (
  record svc { time_started = env.now; pid = pid; flags = record (svc.flags) { running = true } },
  if env.properties_inited then notify svc.name (codes "running") ∷ [] else [],
)

unfoldable pub service_start : StartEnv → Service → Option Text → Service × List Effect
unfolding is_some after_fork
service_start env svc0 dynamic_args =
    let svc = ready svc0 in
    if svc.flags.running
    then (svc, [])
    else if svc.flags.console && not env.have_console
    then (disable svc, [])
    else if not env.found
    then (disable svc, [])
    else if not svc.flags.oneshot && is_some dynamic_args
    then (disable svc, [])
    else if not (context_found env svc)
    then (svc, [])
    else after_fork env.fork env svc

-- `how`; any other number is taken for SVC_DISABLED
pub data How : Type 0 where
  disabled reset restart : How
  other : ℕ → How

unfoldable pub mark : How → Flags → Flags
mark reset f = if f.rc_disabled then record f { disabled = true } else record f { reset = true }
mark restart f = record f { restart = true }
mark _ f = record f { disabled = true }

unfoldable pub service_stop_or_reset : Service → How → Service × List Effect
unfolding mark
service_stop_or_reset svc0 how =
    let svc = record svc0 { flags = mark how (record (svc0.flags) { restarting = false }) } in
    (
      svc,
      if not (svc.pid == 0)
          then kill_group svc.pid ∷ notify svc.name (codes "stopping") ∷ []
          else notify svc.name (codes "stopped") ∷ [],
    )

abbrev pub service_reset : Service → Service × List Effect
service_reset svc = service_stop_or_reset svc reset

abbrev pub service_stop : Service → Service × List Effect
service_stop svc = service_stop_or_reset svc disabled

unfoldable pub service_restart : StartEnv → Service → Service × List Effect
service_restart env svc =
    if svc.flags.running
    then service_stop_or_reset svc restart
    else if not svc.flags.restarting
    then service_start env svc none
    else (svc, [])

-- The service, and `process_needs_restart`.
unfoldable pub restart_service_if_needed : StartEnv → Service → ℕ → (Service × List Effect) × ℕ
restart_service_if_needed env svc needs =
    let next_start_time = svc.time_started + 5 in
    if leb next_start_time env.now
    then (
      service_start env (record svc { flags = record (svc.flags) { restarting = false } }) none,
      needs,
    )
    else if ltb next_start_time needs || needs == 0
    then ((svc, []), next_start_time)
    else ((svc, []), needs)

-- `service_for_each_flags(SVC_RESTARTING, restart_service_if_needed)`; each service has its own
-- answers of the system
unfoldable pub restart_each :
    (Service → StartEnv) → List Service → ℕ → (List Service × List Effect) × ℕ
restart_each envs [] needs = (([], []), needs)
restart_each envs (svc ∷ rest) needs =
    let ((svc', e), needs') =
      if svc.flags.restarting
      then restart_service_if_needed (envs svc) svc needs
      else ((svc, []), needs) in
    let ((rest', es), last) = restart_each envs rest needs' in ((svc' ∷ rest', e ++ es), last)

unfoldable pub restart_processes :
    (Service → StartEnv) → List Service → (List Service × List Effect) × ℕ
unfolding restart_each
restart_processes envs services = restart_each envs services 0
