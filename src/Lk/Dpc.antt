-- ===== src/Lk/Dpc.antt =====
-- Deferred calls: bootable/lk/kernel/dpc.c.
pub mod Order
pub mod Exit
use android4_4_4_r.Prelude.{
  ℕ, List, [], ◌∷◌, ◌++◌, Bool, true, false, not, Option, none, some, if◌then◌else◌,
}
use android4_4_4_r.Lk.Thread.{
  ThreadState, Kernel, set_state, enter_critical_section, thread_create, thread_resume,
  thread_resched,
}
use android4_4_4_r.Lk.Event.{Event, leave, event_init, event_signal}

-- `struct dpc`: the callback and its argument
pub record DeferredCall : Type 0 where
  pub cb : ℕ
  pub arg : ℕ

-- `dpc_event` and `dpc_list`
pub record Dpc : Type 0 where
  pub event : Event
  pub list : List DeferredCall

-- `t` is the place of the new thread, `w` that of the event's wait queue; DPC_PRIORITY is 30.
unfoldable pub dpc_init : ℕ → ℕ → Kernel → Option (Dpc × Kernel)
dpc_init t w k =
    let r = event_init w false false k in
    elim (thread_resume t (thread_create t 30 r.1)) [
      | none ↦ none
      | some s ↦ some (record { event = r.0; list = [] }, s.0)
    ]

unfoldable pub dpc_queue : DeferredCall → Bool → Dpc → Kernel → Option (Dpc × Kernel)
dpc_queue call noresched d k =
    elim (event_signal d.event (not noresched) (enter_critical_section k)) [
      | none ↦ none
      | some (e, k', switched) ↦
          some (record { event = e; list = d.list ++ call ∷ [] }, leave switched k')
    ]

-- One round of `dpc_thread_routine`, behind `event_wait`: the call that it makes, if there is one.
unfoldable pub dpc_round : Dpc → Dpc × Option DeferredCall
dpc_round d = elim (d.list) [
  | [] ↦ (record d { event = record (d.event) { signalled = false } }, none)
  | call ∷ rest ↦ (record d { list = rest }, some call)
]

-- the place of the function `thread_cleanup_dpc`
abbrev pub thread_cleanup_dpc : ℕ
thread_cleanup_dpc = 0

-- `thread_exit` of bootable/lk/kernel/thread.c
unfoldable pub thread_exit : Dpc → Kernel → Option (Dpc × Kernel)
thread_exit d k0 =
    let k = set_state k0.current_thread ThreadState.death (enter_critical_section k0) in
    elim (dpc_queue (record { cb = thread_cleanup_dpc; arg = k0.current_thread }) true d k) [
      | none ↦ none
      | some r ↦ elim (thread_resched r.1) [ none ↦ none | some k' ↦ some (r.0, k') ]
    ]
