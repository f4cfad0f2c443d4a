-- ===== src/Init/Reap.antt =====
-- Children that have exited: `wait_for_one_process` and `handle_signal` of
-- init/init/signal_handler.c.
pub mod Crashes
use mathlib.Core.List.{map}
use android4_4_4_r.Prelude.{
  ℕ, suc, ◌+◌, ◌*◌, List, [], ◌∷◌, ◌++◌, Bool, true, false, not, ◌||◌, ◌&&◌, Text, codes, leb, ltb,
  ◌==◌, if◌then◌else◌,
}
use android4_4_4_r.Init.Service.{Command, Flags, Service, Socketinfo}
use android4_4_4_r.Init.Control.{Effect, notify, kill_group, unlink_socket, reboot_recovery, run}

abbrev pub critical_crash_threshold : ℕ
critical_crash_threshold = 4

abbrev pub critical_crash_window : ℕ
critical_crash_window = 4 * 60

-- what is done at once, whatever comes after
abbrev pub cleanup : ℕ → Service → List Effect
cleanup pid svc =
    (if not svc.flags.oneshot || svc.flags.restart then kill_group pid ∷ [] else [])
    ++ map (λ (si : Socketinfo). unlink_socket si.name) svc.sockets

-- the end of the function: the service is to be restarted
unfoldable pub will_restart : Service → Service × List Effect
will_restart svc = (
  record svc { flags = record (svc.flags) { restart = false; restarting = true } },
  map run svc.onrestart ++ notify svc.name (codes "restarting") ∷ [],
)

-- the count of crashes; `nr_crashed` is compared after it has been raised
unfoldable pub count_crash : ℕ → Service → Service × List Effect
count_crash now svc =
    if svc.flags.critical && not svc.flags.restart
    then (if leb now (svc.time_crashed + critical_crash_window)
        then (let svc' = record svc { nr_crashed = svc.nr_crashed + 1 } in
            if ltb critical_crash_threshold svc'.nr_crashed
            then (svc', reboot_recovery ∷ [])
            else will_restart svc')
        else will_restart (record svc { time_crashed = now; nr_crashed = 1 }))
    else will_restart svc

-- a child of this service has exited; the service is then no longer running
unfoldable pub exited : Service → Service
exited svc = record svc {
  pid = 0;
  flags = record (svc.flags) {
    running = false;
    disabled = if svc.flags.oneshot && not svc.flags.restart then true else svc.flags.disabled;
  };
}

-- `wait_for_one_process`, from the point where the service is known
unfoldable pub reap_service : ℕ → ℕ → Service → Service × List Effect
unfolding will_restart count_crash exited
reap_service pid now svc0 =
    let svc = exited svc0 in
    let (svc', effects) =
      if svc.flags.disabled || svc.flags.reset
      then (svc, notify svc.name (codes "stopped") ∷ [])
      else count_crash now svc in
    (svc', cleanup pid svc0 ++ effects)

-- `service_find_by_pid` with the rest of `wait_for_one_process`; `waitpid` has returned `pid`. A pid
-- of no service is only logged.
unfoldable pub wait_for_one_process : ℕ → ℕ → List Service → List Service × List Effect
wait_for_one_process pid now [] = ([], [])
wait_for_one_process pid now (svc ∷ rest) =
    let (svc', e) = reap_service pid now svc in
    let (rest', es) = wait_for_one_process pid now rest in
    if svc.pid == pid then (svc' ∷ rest, e) else (svc ∷ rest', es)

-- the loop of `handle_signal`: the exits that `waitpid` reports, each with the time
unfoldable pub handle_signal : List (ℕ × ℕ) → List Service → List Service × List Effect
handle_signal [] services = (services, [])
handle_signal ((pid, now) ∷ exits) services =
    let (services', e) = wait_for_one_process pid now services in
    let (last, es) = handle_signal exits services' in (last, e ++ es)
