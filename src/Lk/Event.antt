-- ===== src/Lk/Event.antt =====
-- Events: bootable/lk/kernel/event.c.
--
-- As in Lk.Wait, an operation that gives the cpu away is modelled up to the switch; the critical
-- section that it has entered is left when its thread is next switched to.
pub mod Rules
use android4_4_4_r.Prelude.{
  ℕ, List, [], Bool, true, false, not, ◌&&◌, Option, none, some, ltb, ◌==◌, if◌then◌else◌,
}
use android4_4_4_r.Lk.Thread.{
  Status, no_error, Kernel, enter_critical_section, exit_critical_section,
}
use android4_4_4_r.Lk.Wait.{
  infinite_time, wait_queue_init, wait_queue_block, wait_queue_wake_one, wait_queue_wake_all,
  wait_queue_destroy,
}

-- `wait` is the number of the event's wait queue, `autounsignal` the only flag there is.
pub record Event : Type 0 where
  pub signalled : Bool
  pub autounsignal : Bool
  pub wait : ℕ

-- the critical section is left here, unless the cpu was given away
abbrev pub leave : Bool → Kernel → Kernel
leave switched k = if switched then k else exit_critical_section k

-- Whether a call that lets others run has given the cpu away: `thread_resched` may come back at once,
-- with the thread that it left.
abbrev pub is_switched : Bool → Kernel → Kernel → Bool
is_switched reschedule k k' = reschedule && not (k'.current_thread == k.current_thread)

abbrev pub event_init : ℕ → Bool → Bool → Kernel → Event × Kernel
event_init w initial autounsignal k =
    (record { signalled = initial; autounsignal = autounsignal; wait = w }, wait_queue_init w k)

unfoldable pub event_destroy : Event → Kernel → Option (Event × Kernel)
event_destroy e k = elim (wait_queue_destroy e.wait true (enter_critical_section k)) [
  | none ↦ none
  | some r ↦
      some
        (record e { signalled = false; autounsignal = false }, leave (is_switched true k r.0) r.0)
]

-- The status that is returned at once, or `none` for a thread that is blocked.
unfoldable pub event_wait_timeout : Event → ℕ → Kernel → Option (Event × Kernel × Option Status)
event_wait_timeout e timeout k0 =
    let k = enter_critical_section k0 in
    let passed = record e { signalled = if e.autounsignal then false else e.signalled } in
    let blocked : Option (Event × Kernel × Option Status) =
      elim (wait_queue_block e.wait timeout k) [
        | none ↦ none
        | some r ↦ some (e, leave (elim (r.1) [ none ↦ true | some s ↦ false ]) r.0, r.1)
      ] in
    if e.signalled then some (passed, exit_critical_section k, some no_error) else blocked

abbrev pub event_wait : Event → Kernel → Option (Event × Kernel × Option Status)
event_wait e k = event_wait_timeout e infinite_time k

-- The last part of the result: whether the cpu was given away.
unfoldable pub event_signal : Event → Bool → Kernel → Option (Event × Kernel × Bool)
event_signal e reschedule k0 =
    let k = enter_critical_section k0 in
    let on = record e { signalled = true } in
    let one : Option (Event × Kernel × Bool) =
      elim (wait_queue_wake_one e.wait reschedule no_error k) [
        | none ↦ none
        | some r ↦ some (
          if r.1 == 0 then on else e,
          leave (is_switched reschedule k r.0) r.0,
          is_switched reschedule k r.0,
        )
      ] in
    let all : Option (Event × Kernel × Bool) =
      elim (wait_queue_wake_all e.wait reschedule no_error k) [
        | none ↦ none
        | some r ↦ some (on, leave (is_switched reschedule k r.0) r.0, is_switched reschedule k r.0)
      ] in
    if e.signalled
    then some (e, exit_critical_section k, false)
    else if e.autounsignal
    then one
    else all

abbrev pub event_unsignal : Event → Kernel → Event × Kernel
event_unsignal e k =
    (record e { signalled = false }, exit_critical_section (enter_critical_section k))
