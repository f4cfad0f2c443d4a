-- ===== src/Init/Reap/Crashes.antt =====
-- Critical services that crash again and again.
use mathlib.Core.List.{map}
use android4_4_4_r.Prelude.{
  none, some, leb, if◌then◌else◌, suc, ℕ, ◌+◌, ltb, refl, sym, subst, ◌++◌, codes, ◌≤◌, ◌∙◌, List,
  [], ◌∷◌, length, All, ◌≡◌, arith, Bool, true, false, ◌||◌,
}
use android4_4_4_r.Init.Service.{Service, Command, Socketinfo}
use android4_4_4_r.Init.Control.{
  StartEnv, service_start, Effect, notify, run, unlink_socket, reboot_recovery,
}
use android4_4_4_r.Init.Reap.{reap_service, cleanup, will_restart, count_crash, exited}

unfoldable is_reboot : Effect → Bool
is_reboot reboot_recovery = true
is_reboot _ = false

unfoldable pub reboots : List Effect → Bool
unfolding is_reboot
reboots [] = false
reboots (e ∷ es) = is_reboot e || reboots es

-- A crash at a time, and what the system answers when the service is started again.
pub record Crash : Type 0 where
  pub now : ℕ
  pub env : StartEnv

-- Whether one of the crashes reboots the device; behind each the service is started again.
unfoldable pub crashes : List Crash → Service → Bool
crashes [] svc = false
crashes (c ∷ later) svc =
    let (svc', effects) = reap_service svc.pid c.now svc in
    reboots effects || crashes later (service_start c.env svc' none).0

-- A critical service that runs and that nobody has stopped or is restarting.
pub record IsCritical (svc : Service) : Type 0 where
  pub critical : svc.flags.critical ≡ true
  pub lasting : svc.flags.oneshot ≡ false
  pub enabled : svc.flags.disabled ≡ false
  pub kept : svc.flags.reset ≡ false
  pub unasked : svc.flags.restart ≡ false

reboots-append : (es fs : List Effect) → reboots (es ++ fs) ≡ (reboots es || reboots fs)
unfolding reboots
reboots-append [] fs = refl
reboots-append (e ∷ es) fs = ground (arith, reboots-append es fs)

reboots-run : (cs : List Command) → reboots (map run cs) ≡ false
unfolding reboots
reboots-run [] = refl
reboots-run (c ∷ cs) = reboots-run cs

reboots-unlink :
    (sis : List Socketinfo) → reboots (map (λ (si : Socketinfo). unlink_socket si.name) sis) ≡ false
unfolding reboots
reboots-unlink [] = refl
reboots-unlink (si ∷ sis) = reboots-unlink sis

reboots-cleanup : (pid : ℕ) (svc : Service) → reboots (cleanup pid svc) ≡ false
unfolding reboots
reboots-cleanup pid svc = ground (
  arith,
  reboots-unlink svc.sockets,
  reboots-append [] (map (λ (si : Socketinfo). unlink_socket si.name) svc.sockets),
)

reboots-will_restart : (svc : Service) → reboots (will_restart svc).1 ≡ false
unfolding will_restart reboots
reboots-will_restart svc = ground (
  arith,
  reboots-run svc.onrestart,
  reboots-append (map run svc.onrestart) (notify svc.name (codes "restarting") ∷ []),
)

-- One crash in the window is counted, and reboots when the count passes the threshold.
count_crash-IsCritical :
    (now : ℕ) (svc : Service)
    → IsCritical svc
    → now ≤ svc.time_crashed + 240
    → let (svc', effects) = count_crash now svc in
      (reboots effects ≡ ltb 4 (svc.nr_crashed + 1))
      × (svc'.nr_crashed ≡ svc.nr_crashed + 1)
      × (svc'.time_crashed ≡ svc.time_crashed)
      × IsCritical svc'
unfolding count_crash will_restart reboots
count_crash-IsCritical now svc h soon =
    let counted = record svc { nr_crashed = svc.nr_crashed + 1 } in
    ground (arith, reboots-will_restart counted)

reap_service-IsCritical :
    (pid now : ℕ) (svc : Service)
    → IsCritical svc
    → now ≤ svc.time_crashed + 240
    → let (svc', effects) = reap_service pid now svc in
      (reboots effects ≡ ltb 4 (svc.nr_crashed + 1))
      × (svc'.nr_crashed ≡ svc.nr_crashed + 1)
      × (svc'.time_crashed ≡ svc.time_crashed)
      × IsCritical svc'
unfolding reap_service exited
reap_service-IsCritical pid now svc h soon = ground (
  arith,
  count_crash-IsCritical now (exited svc) (ground arith) soon,
  reboots-cleanup pid svc,
  reboots-append (cleanup pid svc) (count_crash now (exited svc)).1,
)

-- The system lets a service start.
pub record IsGranting (env : StartEnv) : Type 0 where
  pub console : env.have_console ≡ true
  pub found : env.found ≡ true
  pub getcon : env.getcon_works ≡ true
  pub getfilecon : env.getfilecon_works ≡ true
  pub compute_create : env.compute_create_works ≡ true
  pub forks : (pid : ℕ) × (env.fork ≡ some pid)

service_start-IsCritical :
    (env : StartEnv) (svc : Service)
    → IsGranting env
    → IsCritical svc
    → let svc' = (service_start env svc none).0 in
      (svc'.nr_crashed ≡ svc.nr_crashed) × (svc'.time_crashed ≡ svc.time_crashed) × IsCritical svc'
unfolding service_start
service_start-IsCritical env svc g h = ground arith

service_start-IsCritical_after :
    (env : StartEnv) (svc : Service) (n t : ℕ)
    → IsGranting env
    → (svc.nr_crashed ≡ n) × (svc.time_crashed ≡ t) × IsCritical svc
    → let svc' = (service_start env svc none).0 in
      (svc'.nr_crashed ≡ n) × (svc'.time_crashed ≡ t) × IsCritical svc'
service_start-IsCritical_after env svc n t g (nr, time, h) =
    let (nr', time', h') = service_start-IsCritical env svc g h in (nr' ∙ nr, time' ∙ time, h')

-- Crashes in the window are counted, whatever has been counted before.
crashes-add :
    (cs : List Crash) (svc : Service)
    → IsCritical svc
    → svc.nr_crashed ≤ 4
    → All (λ c. c.now ≤ svc.time_crashed + 240) cs
    → All (λ c. IsGranting c.env) cs
    → crashes cs svc ≡ ltb 4 (svc.nr_crashed + length cs)
unfolding crashes
crashes-add [] svc h few soon grants = ground arith
crashes-add (c ∷ later) svc h few soon grants =
    let svc' = (reap_service svc.pid c.now svc).0 in
    let (r, n0, t0, h0) = reap_service-IsCritical svc.pid c.now svc h soon.0 in
    let again = (service_start c.env svc' none).0 in
    let (n, t, h') =
      service_start-IsCritical_after c.env svc' (svc.nr_crashed + 1) svc.time_crashed grants.0
        (n0, t0, h0) in
    let soon' = subst (λ t. All (λ c. c.now ≤ t + 240) later) (sym t) soon.1 in
    ground
      (arith, r, n, λ (few' : again.nr_crashed ≤ 4). crashes-add later again h' few' soon' grants.1)

-- The window of `count_crash`, and what has been counted in it, at a crash.
abbrev pub in_window : ℕ → Service → Bool
in_window now svc = leb now (svc.time_crashed + 240)

abbrev pub window_start : ℕ → Service → ℕ
window_start now svc = if in_window now svc then svc.time_crashed else now

abbrev pub counted_before : ℕ → Service → ℕ
counted_before now svc = if in_window now svc then svc.nr_crashed else 0

-- A crash is counted in its window.
reap_service-window :
    (now : ℕ) (svc : Service)
    → IsCritical svc
    → let (svc', effects) = reap_service svc.pid now svc in
      (reboots effects ≡ ltb 4 (counted_before now svc + 1))
      × (svc'.nr_crashed ≡ counted_before now svc + 1)
      × (svc'.time_crashed ≡ window_start now svc)
      × IsCritical svc'
unfolding reap_service count_crash will_restart exited reboots
reap_service-window now svc h = ground (
  arith,
  reap_service-IsCritical svc.pid now svc h,
  reboots-cleanup svc.pid svc,
  reboots-append (cleanup svc.pid svc) (count_crash now (exited svc)).1,
  reboots-will_restart (record (exited svc) { time_crashed = now; nr_crashed = 1 }),
)

-- For a critical service that is not one-shot, disabled, reset or being restarted, that crashes and
-- crashes again, and that the system lets start behind each crash: the window begins at
-- `time_crashed`, which is 0 for a service that has never crashed, or at the first of these crashes
-- if that comes more than 240 seconds after `time_crashed`. If at most four crashes have been
-- counted in the window before and all the later crashes come at most 240 seconds after it begins,
-- the device is rebooted exactly when the crashes counted in the window are then more than four.
pub crashes-ltb :
    (c : Crash) (later : List Crash) (svc : Service)
    → IsCritical svc
    → counted_before c.now svc ≤ 4
    → All (λ d. d.now ≤ window_start c.now svc + 240) later
    → All (λ d. IsGranting d.env) (c ∷ later)
    → crashes (c ∷ later) svc ≡ ltb 4 (counted_before c.now svc + suc (length later))
unfolding crashes
crashes-ltb c later svc h few soon grants =
    let svc' = (reap_service svc.pid c.now svc).0 in
    let (r, n0, t0, h0) = reap_service-window c.now svc h in
    let again = (service_start c.env svc' none).0 in
    let (n, t, h') =
      service_start-IsCritical_after c.env svc' (counted_before c.now svc + 1)
        (window_start c.now svc) grants.0 (n0, t0, h0) in
    let soon' = subst (λ t. All (λ d. d.now ≤ t + 240) later) (sym t) soon in
    ground
      (arith, r, n, λ (few' : again.nr_crashed ≤ 4). crashes-add later again h' few' soon' grants.1)
