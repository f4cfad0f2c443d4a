-- ===== src/Lk/Dpc/Exit.antt =====
-- The end of a thread.
use android4_4_4_r.Prelude.{
  ℕ, ◌+◌, ◌-◌, ◌≡◌, ◌∙◌, refl, arith, [], ◌∷◌, ◌++◌, length, true, false, some, Bool-cases, inl,
  inr,
}
use android4_4_4_r.Lk.Thread.{
  ThreadState, Kernel, no_error, set_state, enter_critical_section, exit_critical_section,
}
use android4_4_4_r.Lk.Thread.Invariant.{is_ready, IsConsistent, IsVacant}
use android4_4_4_r.Lk.Thread.Kept.{IsSound, record-IsConsistent, thread_resched-IsSound}
use android4_4_4_r.Lk.Wait.{wait_queue_wake_all, wake_each, resched_if}
use android4_4_4_r.Lk.Wait.Kept.{wake_each-Woken}
use android4_4_4_r.Lk.Wait.Sound.{wake_list-some}
use android4_4_4_r.Lk.Event.{Event, event_signal}
use android4_4_4_r.Lk.Calls.Kept.{
  IsStopped, stopped-IsConsistent, stopped-IsVacant, stopped-is_ready,
}
use android4_4_4_r.Lk.Dpc.{DeferredCall, Dpc, dpc_queue, thread_cleanup_dpc, thread_exit}

-- What is left when a thread that does not run any more has signalled an event.
record IsLeft (u : ℕ) (e : Event) (k : Kernel) : Type 0 where
  consistent : IsConsistent k
  vacant : IsVacant k
  ready : is_ready (k.threads u) ≡ true
  kind : e.autounsignal ≡ false
  awake : e.signalled ≡ true

wake_all-eq :
    (w : ℕ) (k : Kernel)
    → let threads = (k.wait_queues w).list in
      wait_queue_wake_all w false no_error k ≡ some (wake_each w no_error threads k, length threads)
unfolding wait_queue_wake_all resched_if
wake_all-eq w k = wake_list-some w false no_error k _ (k.wait_queues w).list refl refl

event_signal-IsLeft :
    (e : Event) (u : ℕ) (k : Kernel)
    → e.autounsignal ≡ false
    → IsConsistent k
    → IsVacant k
    → is_ready (k.threads u) ≡ true
    → (e' : Event) × (k' : Kernel) × (event_signal e false k ≡ some (e', k', false))
      × IsLeft u e' k'
unfolding event_signal
event_signal-IsLeft e u k a h v r =
    let k0 = enter_critical_section k in
    let h0 = record-IsConsistent k (k.critical_section_count + 1) k.alarms h in
    elim (Bool-cases e.signalled) [
      | inl on ↦ (
        e,
        exit_critical_section k0,
        ground (arith, on),
        record {
          consistent = record-IsConsistent k0 (k0.critical_section_count - 1) k0.alarms h0;
          vacant = v;
          ready = r;
          kind = a;
          awake = on;
        },
      )
      | inr off ↦
          let threads = (k.wait_queues e.wait).list in
          let k1 = wake_each e.wait no_error threads k0 in
          let woken = wake_each-Woken e.wait no_error threads k0 refl h0 in
          (
            record e { signalled = true },
            exit_critical_section k1,
            ground (arith, off, a, wake_all-eq e.wait k0),
            record {
              consistent =
                  record-IsConsistent k1 (k1.critical_section_count - 1) k1.alarms woken.consistent;
              vacant = λ t. woken.runs t ∙ v t;
              ready = woken.readies u r;
              kind = a;
              awake = refl;
            },
          )
    ]

dpc_queue-IsLeft :
    (call : DeferredCall) (d : Dpc) (u : ℕ) (k : Kernel)
    → d.event.autounsignal ≡ false
    → IsConsistent k
    → IsVacant k
    → is_ready (k.threads u) ≡ true
    → (e : Event) × (k' : Kernel) × (dpc_queue call true d k
        ≡ some (record { event = e; list = d.list ++ call ∷ [] }, k'))
      × IsLeft u e k'
unfolding dpc_queue
dpc_queue-IsLeft call d u k a h v r =
    let k0 = enter_critical_section k in
    let (e, k1, q, l) =
      event_signal-IsLeft d.event u k0 a
        (record-IsConsistent k (k.critical_section_count + 1) k.alarms h) v r in
    (
      e,
      exit_critical_section k1,
      rw (dpc_queue, q) refl,
      record {
        consistent = record-IsConsistent k1 (k1.critical_section_count - 1) k1.alarms l.consistent;
        vacant = l.vacant;
        ready = l.ready;
        kind = l.kind;
        awake = l.awake;
      },
    )

-- From a sound kernel with a thread that is ready, `thread_exit` switches to another thread, with a
-- sound kernel; the call that cleans the thread up is the last of the list, and the event is
-- signalled.
pub thread_exit-IsSound :
    (d : Dpc) (u : ℕ) (k : Kernel)
    → d.event.autounsignal ≡ false
    → is_ready (k.threads u) ≡ true
    → IsSound k
    → (d' : Dpc) × (k' : Kernel) × (thread_exit d k ≡ some (d', k'))
      × IsSound k'
      × (d'.event.autounsignal ≡ false)
      × (d'.event.signalled ≡ true)
      × (d'.list ≡ d.list ++ record { cb = thread_cleanup_dpc; arg = k.current_thread } ∷ [])
unfolding thread_exit
thread_exit-IsSound d u k a r s =
    let stopped : IsStopped ThreadState.death = inr refl in
    let k0 = set_state k.current_thread ThreadState.death k in
    let call : DeferredCall = record { cb = thread_cleanup_dpc; arg = k.current_thread } in
    let (e, k1, q, l) =
      dpc_queue-IsLeft call d u (enter_critical_section k0) a
        (record-IsConsistent k0 (k0.critical_section_count + 1) k0.alarms
          (stopped-IsConsistent ThreadState.death k stopped s))
        (stopped-IsVacant ThreadState.death k stopped s.1)
        (stopped-is_ready ThreadState.death k u s.1 r) in
    let (k', e', s') = thread_resched-IsSound k1 u l.ready l.consistent l.vacant in
    (
      record { event = e; list = d.list ++ call ∷ [] },
      k',
      rw (thread_exit, q) (rw e' refl),
      s',
      l.kind,
      l.awake,
      refl,
    )
