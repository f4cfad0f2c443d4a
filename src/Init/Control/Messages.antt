-- ===== src/Init/Control/Messages.antt =====
-- Control messages, which come as `ctl.` properties: `handle_control_message` of init/init/init.c.
use android4_4_4_r.Prelude.{
  ℕ, zero, suc, List, [], ◌∷◌, All, get_elem?, ◌≡◌, ◌≢◌, arith, Bool-cases, inl, inr, Option, none,
  some, some-injective, ap, sym, ◌∙◌, Text, codes, text_eq, text_eq_iff, if◌then◌else◌,
}
use android4_4_4_r.Init.Service.{Service}
use android4_4_4_r.Init.Properties.Load.{split_at}
use android4_4_4_r.Init.Control.{StartEnv, Effect, service_start, service_stop, service_restart}
use android4_4_4_r.Init.Control.State.{
  start, stop, restart, IsConsistent, happen, happen-IsConsistent,
}
use android4_4_4_r.Init.Control.{disabled}

-- `service_find_by_name`, and what is done to the service that it finds
unfoldable pub update_named :
    Text → (Service → Service × List Effect) → List Service → List Service × List Effect
update_named name f [] = ([], [])
update_named name f (svc ∷ rest) =
    let (svc', e) = f svc in
    let (rest', es) = update_named name f rest in
    if text_eq svc.name name then (svc' ∷ rest, e) else (svc ∷ rest', es)

-- the part of the message in front of the first colon, and what stands behind it
unfoldable pub start_target : Text → Text × Option Text
unfolding split_at
start_target name = elim (split_at b':' name) [
  | none ↦ (name, none)
  | some (front, args) ↦ (front, some args)
]

-- The system answers each service that is started as `envs` says.
module _ (envs : Service → StartEnv) where
  unfoldable pub msg_start : Text → List Service → List Service × List Effect
  unfolding start_target update_named
  msg_start name services =
      let (target, args) = start_target name in
      update_named target (λ svc. service_start (envs svc) svc args) services

  unfoldable pub msg_stop : Text → List Service → List Service × List Effect
  unfolding update_named
  msg_stop name services = update_named name service_stop services

  unfoldable pub msg_restart : Text → List Service → List Service × List Effect
  unfolding update_named
  msg_restart name services = update_named name (λ svc. service_restart (envs svc) svc) services

  unfoldable pub handle_control_message : Text → Text → List Service → List Service × List Effect
  unfolding msg_start msg_stop msg_restart
  handle_control_message msg arg services =
      if text_eq msg (codes "start")
      then msg_start arg services
      else if text_eq msg (codes "stop")
      then msg_stop arg services
      else if text_eq msg (codes "restart")
      then msg_restart arg services
      else (services, [])

update_named-All :
    (P : Service → Type 0) (name : Text) (f : Service → Service × List Effect)
    (services : List Service)
    → ((svc : Service) → P svc → P (f svc).0)
    → All P services
    → All P (update_named name f services).0
unfolding update_named
update_named-All P name f [] step h = tt
update_named-All P name f (svc ∷ rest) step h = elim (Bool-cases (text_eq svc.name name)) [
  | inl e ↦ rw (update_named, e) (step svc h.0, h.1)
  | inr e ↦ rw (update_named, e) (h.0, update_named-All P name f rest step h.1)
]

update_named-others :
    (name : Text) (f : Service → Service × List Effect) (services : List Service) (k : ℕ)
    (svc : Service)
    → get_elem? services k ≡ some svc
    → svc.name ≢ name
    → get_elem? (update_named name f services).0 k ≡ some svc
unfolding update_named
update_named-others name f [] k svc h ne = h
update_named-others name f (s ∷ rest) zero svc h ne =
    let same : s ≡ svc = some-injective _ _ h in
    let ne' : s.name ≢ name = λ e. ne (ap (λ (t : Service). t.name) (sym same) ∙ e) in
    ground (arith, ne', text_eq_iff s.name name)
update_named-others name f (s ∷ rest) (suc k) svc h ne =
    ground (arith, update_named-others name f rest k svc h ne)

-- The name of the service that a message is about.
abbrev pub target : Text → Text → Text
target msg arg = if text_eq msg (codes "start") then (start_target arg).0 else arg

-- Every service is consistent, and those of another name are as they were.
abbrev pub Kept : List Service → Text → List Service → Type 0
Kept services name services' =
    All IsConsistent services'
    × ((k : ℕ) (svc : Service)
        → get_elem? services k ≡ some svc
        → svc.name ≢ name
        → get_elem? services' k ≡ some svc)

update_named-Kept :
    (name : Text) (f : Service → Service × List Effect) (services : List Service)
    → ((svc : Service) → IsConsistent svc → IsConsistent (f svc).0)
    → All IsConsistent services
    → Kept services name (update_named name f services).0
update_named-Kept name f services step h =
    (update_named-All IsConsistent name f services step h, update_named-others name f services)

-- A control message keeps every service consistent, and changes none but those of the name that the
-- message gives: for `start` the part in front of the first colon.
pub handle_control_message-Kept :
    (envs : Service → StartEnv) (msg arg : Text) (services : List Service)
    → ((svc : Service) → (envs svc).fork ≢ some 0)
    → All IsConsistent services
    → Kept services (target msg arg) (handle_control_message envs msg arg services).0
unfolding handle_control_message msg_start msg_stop msg_restart happen
handle_control_message-Kept envs msg arg services real h =
    let args = (start_target arg).1 in
    elim (Bool-cases (text_eq msg (codes "start"))) [
      | inl is_start ↦
          rw (handle_control_message, is_start)
            (update_named-Kept (start_target arg).0 (λ svc. service_start (envs svc) svc args)
              services (λ svc. happen-IsConsistent (start (envs svc) args) svc (real svc)) h)
      | inr no_start ↦ elim (Bool-cases (text_eq msg (codes "stop"))) [
        | inl is_stop ↦
            rw (handle_control_message, no_start)
              (rw is_stop (
                update_named-Kept arg service_stop services
                  (λ svc. happen-IsConsistent (stop disabled) svc tt) h))
        | inr no_stop ↦ elim (Bool-cases (text_eq msg (codes "restart"))) [
          | inl is_restart ↦
              rw (handle_control_message, no_start)
                (rw no_stop (
                  rw is_restart (
                    update_named-Kept arg (λ svc. service_restart (envs svc) svc) services
                      (λ svc. happen-IsConsistent (restart (envs svc)) svc (real svc)) h)))
          | inr no_restart ↦
              rw (handle_control_message, no_start)
                (rw no_stop (rw no_restart (h, λ k svc e ne. e)))
        ]
      ]
    ]
