-- ===== src/Tests/Control.antt =====
-- Services started, stopped and reaped: init/init/init.c and init/init/signal_handler.c.
use android4_4_4_r.Prelude.{ℕ, List, [], ◌∷◌, ◌≡◌, refl, All, arith, codes, none, some, true, false}
use android4_4_4_r.Init.Service.{Service, new_service}
use android4_4_4_r.Init.Control.{StartEnv, service_start, restart_processes}
use android4_4_4_r.Init.Reap.{reap_service}
use android4_4_4_r.Init.Control.State.{
  Event, start, exit, wake, IsConsistent, live, live-IsConsistent,
}
use android4_4_4_r.Init.Control.Messages.{
  Kept, target, handle_control_message, handle_control_message-Kept,
}
use android4_4_4_r.Init.Control.Delay.{IsAwaited, restart_processes-IsAwaited}
use android4_4_4_r.Init.Reap.Crashes.{Crash, crashes, reboots, IsGranting, crashes-ltb}

-- Everything succeeds, and the child's pid is 77.
abbrev env : StartEnv
env = record {
  have_console = true;
  found = true;
  selinux_enabled = false;
  getcon_works = true;
  getfilecon_works = true;
  compute_create_works = true;
  fork = some 77;
  properties_inited = true;
  now = 100;
}

abbrev adbd : Service
adbd = new_service (codes "adbd") (codes "/sbin/adbd" ∷ [])

-- started, gone, and awake again after the pause
abbrev events : List Event
events = start env none ∷ exit 77 101 ∷ wake (record env { now = 105 }) 0 ∷ []

live-IsConsistent_example : IsConsistent (live events adbd)
live-IsConsistent_example = live-IsConsistent events adbd (ground arith) (ground arith)

abbrev waiting : Service
waiting = record adbd { time_started = 98; flags = record (adbd.flags) { restarting = true } }

restart_processes-IsAwaited_example :
    All
      (IsAwaited (restart_processes (λ s. env) (adbd ∷ waiting ∷ [])).1)
      (restart_processes (λ s. env) (adbd ∷ waiting ∷ [])).0.0
restart_processes-IsAwaited_example = restart_processes-IsAwaited (λ s. env) (adbd ∷ waiting ∷ [])

abbrev ueventd : Service
ueventd = record adbd {
  time_crashed = 10;
  nr_crashed = 1;
  flags = record (adbd.flags) { critical = true };
}

abbrev at : ℕ → Crash
at now = record { now = now; env = env }

granted : IsGranting env
granted = ground arith

granting : All (λ d. IsGranting d.env) (at 20 ∷ at 30 ∷ at 40 ∷ at 50 ∷ [])
granting = ground arith

-- The window has begun at 10, so that one crash is counted already.
crashes-ltb_example : crashes (at 20 ∷ at 30 ∷ at 40 ∷ at 50 ∷ []) ueventd ≡ true
crashes-ltb_example =
    crashes-ltb (at 20) (at 30 ∷ at 40 ∷ at 50 ∷ []) ueventd (ground arith) (ground arith)
      (ground arith) granting

-- The window of a service that has never crashed begins at 0: five crashes in 180 seconds.
abbrev fresh : Service
fresh = record ueventd { time_crashed = 0; nr_crashed = 0 }

five_crashes_do_not_reboot : crashes (at 100 ∷ at 250 ∷ at 260 ∷ at 270 ∷ at 280 ∷ []) fresh ≡ false
unfolding crashes reboots reap_service service_start
five_crashes_do_not_reboot = refl

-- `ctl.start` with arguments behind the colon
handle_control_message-Kept_example :
    Kept
      (adbd ∷ waiting ∷ [])
      (target (codes "start") (codes "adbd:-v"))
      (handle_control_message
        (λ svc. env)
        (codes "start")
        (codes "adbd:-v")
        (adbd ∷ waiting ∷ [])).0
handle_control_message-Kept_example =
    handle_control_message-Kept (λ svc. env) (codes "start") (codes "adbd:-v") (adbd ∷ waiting ∷ [])
      (ground arith) (ground arith)
