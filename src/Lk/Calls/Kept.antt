-- ===== src/Lk/Calls/Kept.antt =====
-- What ticks, sleeping, yielding, preemption and resuming do to the scheduler's data.
use android4_4_4_r.Prelude.{
  ℕ, ◌+◌, ◌≡◌, refl, sym, subst, pred, ◌⊎◌, elem-append, append-IsNodup, arith, [], ◌∷◌, true,
  false, inl, inr, elem, ℤ, pos,
}
use android4_4_4_r.Lk.Thread.{
  ThreadState, thread_sleep_handler, Kernel, set_thread, set_state, enter_critical_section,
  insert_in_run_queue_head, insert_in_run_queue_tail, resched_and_exit, thread_yield,
  thread_preempt, thread_timer_tick, thread_sleep,
}
use android4_4_4_r.Lk.Thread.Invariant.{
  is_ready, is_running, is_blocked, waits_on, IsConsistent, IsRunning, IsVacant,
}
use android4_4_4_r.Lk.Thread.Kept.{
  IsSound, Gives, resched_and_exit-IsSound, ready_head-IsConsistent, ready_tail-IsConsistent,
  record-IsConsistent, thread_resched-IsSound,
}

-- a change of fields of a thread that the scheduler's data do not speak of
abbrev with_quantum : ℕ → ℤ → Kernel → Kernel
with_quantum t q k = set_thread t (record (k.threads t) { remaining_quantum = q }) k

with_quantum-IsConsistent :
    (t : ℕ) (q : ℤ) (k : Kernel) → IsConsistent k → IsConsistent (with_quantum t q k)
unfolding is_ready is_blocked waits_on
with_quantum-IsConsistent t q k h = record {
  queued = λ p u. ground (arith, h.queued p u);
  bits = h.bits;
  once = h.once;
  priorities = λ u. ground (arith, h.priorities u);
  waiting = λ w u. ground (arith, h.waiting w u);
  waits_once = h.waits_once;
  targets = λ u. ground (arith, h.targets u);
  counts = h.counts;
}

with_quantum-IsRunning : (t : ℕ) (q : ℤ) (k : Kernel) → IsRunning k → IsRunning (with_quantum t q k)
unfolding is_running
with_quantum-IsRunning t q k r u = ground (arith, r u)

tick-cases :
    (k : Kernel)
    → ((thread_timer_tick k).0 ≡ k)
      ⊎ ((thread_timer_tick k).0
          ≡ with_quantum k.current_thread (pred (k.threads k.current_thread).remaining_quantum) k)
unfolding thread_timer_tick
tick-cases k = ground arith

pub tick-IsSound : (k : Kernel) → IsSound k → IsSound (thread_timer_tick k).0
tick-IsSound k s = elim (tick-cases k) [
  | inl e ↦ subst IsSound (sym e) s
  | inr e ↦
      let t = k.current_thread in
      let q = pred (k.threads t).remaining_quantum in
      subst IsSound (sym e) (with_quantum-IsConsistent t q k s.0, with_quantum-IsRunning t q k s.1)
]

-- the current thread asleep or dead
abbrev pub IsStopped : ThreadState → Type 0
IsStopped state = (state ≡ ThreadState.sleeping) ⊎ (state ≡ ThreadState.death)

pub stopped-IsConsistent :
    (state : ThreadState) (k : Kernel)
    → IsStopped state
    → IsSound k
    → IsConsistent (set_state k.current_thread state k)
unfolding is_ready is_running is_blocked waits_on
stopped-IsConsistent state k stopped s =
    let h = s.0 in
    let r = s.1 k.current_thread in
    record {
      queued = λ p u. ground (arith, h.queued p u, r);
      bits = h.bits;
      once = h.once;
      priorities = λ u. ground (arith, h.priorities u);
      waiting = λ w u. ground (arith, h.waiting w u, r);
      waits_once = h.waits_once;
      targets = λ u. ground (arith, h.targets u);
      counts = h.counts;
    }

pub stopped-IsVacant :
    (state : ThreadState) (k : Kernel)
    → IsStopped state
    → IsRunning k
    → IsVacant (set_state k.current_thread state k)
unfolding is_running
stopped-IsVacant state k stopped r u = ground (arith, r u)

pub stopped-is_ready :
    (state : ThreadState) (k : Kernel) (u : ℕ)
    → IsRunning k
    → is_ready (k.threads u) ≡ true
    → is_ready ((set_state k.current_thread state k).threads u) ≡ true
unfolding is_running is_ready
stopped-is_ready state k u r e = ground (arith, r u)

pub sleep-IsSound :
    (delay u : ℕ) (k : Kernel)
    → is_ready (k.threads u) ≡ true
    → IsSound k
    → Gives (thread_sleep delay k)
unfolding thread_sleep
sleep-IsSound delay u k ready s =
    thread_resched-IsSound _ u (stopped-is_ready ThreadState.sleeping k u s.1 ready)
      (record-IsConsistent (set_state k.current_thread ThreadState.sleeping k)
        (k.critical_section_count + 1) (thread_sleep_handler k.current_thread delay ∷ k.alarms)
        (stopped-IsConsistent ThreadState.sleeping k (inl refl) s))
      (stopped-IsVacant ThreadState.sleeping k (inl refl) s.1)

-- the current thread at the end of its run queue, with no quantum
abbrev yielded : Kernel → Kernel
yielded k =
    let th = record (k.threads k.current_thread) {
      state = ThreadState.ready;
      remaining_quantum = pos 0;
    } in
    insert_in_run_queue_tail k.current_thread
      (set_thread k.current_thread th (enter_critical_section k))

yielded-IsConsistent : (k : Kernel) → IsSound k → IsConsistent (yielded k)
unfolding insert_in_run_queue_tail is_ready is_running is_blocked waits_on elem
yielded-IsConsistent k s =
    let h = s.0 in
    let t = k.current_thread in
    let r = s.1 t in
    record {
      queued = λ p u. ground (arith, h.queued p u, r, elem-append u (k.run_queue p) (t ∷ []));
      bits = λ p. ground (arith, h.bits p);
      once = λ p. ground (arith, h.once p, h.queued p t, r, append-IsNodup (k.run_queue p) t);
      priorities = λ u. ground (arith, h.priorities u);
      waiting = λ w u. ground (arith, h.waiting w u, r);
      waits_once = h.waits_once;
      targets = λ u. ground (arith, h.targets u);
      counts = h.counts;
    }

yielded-IsVacant : (k : Kernel) → IsRunning k → IsVacant (yielded k)
unfolding insert_in_run_queue_tail is_running
yielded-IsVacant k r u = ground (arith, r u)

yielded-is_ready : (k : Kernel) → is_ready ((yielded k).threads k.current_thread) ≡ true
unfolding insert_in_run_queue_tail is_ready
yielded-is_ready k = ground arith

pub yield-IsSound : (k : Kernel) → IsSound k → Gives (thread_yield k)
unfolding thread_yield
yield-IsSound k s =
    resched_and_exit-IsSound (yielded k) k.current_thread (yielded-is_ready k)
      (yielded-IsConsistent k s) (yielded-IsVacant k s.1)

not-ready : (k : Kernel) → IsSound k → is_ready (k.threads k.current_thread) ≡ false
unfolding is_ready is_running
not-ready k s = ground (arith, s.1 k.current_thread)

not-waits : (k : Kernel) (w : ℕ) → IsSound k → waits_on w (k.threads k.current_thread) ≡ false
unfolding waits_on is_running
not-waits k w s = ground (arith, s.1 k.current_thread)

requeued-IsVacant :
    (k : Kernel)
    → IsRunning k
    → IsVacant
        (insert_in_run_queue_head k.current_thread (set_state k.current_thread ThreadState.ready k))
unfolding insert_in_run_queue_head is_running
requeued-IsVacant k r u = ground (arith, r u)

requeued_tail-IsVacant :
    (k : Kernel)
    → IsRunning k
    → IsVacant
        (insert_in_run_queue_tail k.current_thread (set_state k.current_thread ThreadState.ready k))
unfolding insert_in_run_queue_tail is_running
requeued_tail-IsVacant k r u = ground (arith, r u)

inserted-is_ready :
    (t : ℕ) (k : Kernel)
    → (is_ready ((insert_in_run_queue_head t (set_state t ThreadState.ready k)).threads t) ≡ true)
      × (is_ready ((insert_in_run_queue_tail t (set_state t ThreadState.ready k)).threads t) ≡ true)
unfolding insert_in_run_queue_head insert_in_run_queue_tail is_ready
inserted-is_ready t k = ground arith

preempt-cases :
    (k0 : Kernel)
    → let k = enter_critical_section k0 in
      let t = k.current_thread in
      (thread_preempt k0
        ≡ resched_and_exit (insert_in_run_queue_head t (set_state t ThreadState.ready k)))
      ⊎ (thread_preempt k0
          ≡ resched_and_exit (insert_in_run_queue_tail t (set_state t ThreadState.ready k)))
unfolding thread_preempt
preempt-cases k = ground arith

pub preempt-IsSound : (k : Kernel) → IsSound k → Gives (thread_preempt k)
preempt-IsSound k s =
    let k1 = enter_critical_section k in
    let t = k.current_thread in
    let h = record-IsConsistent k (k.critical_section_count + 1) k.alarms s.0 in
    elim (preempt-cases k) [
      | inl e ↦ subst Gives (sym e) (
          resched_and_exit-IsSound _ t (inserted-is_ready t k1).0
            (ready_head-IsConsistent t k1 (not-ready k s) (λ w. not-waits k w s) h)
            (requeued-IsVacant k1 s.1))
      | inr e ↦ subst Gives (sym e) (
          resched_and_exit-IsSound _ t (inserted-is_ready t k1).1
            (ready_tail-IsConsistent t k1 (not-ready k s) (λ w. not-waits k w s) h)
            (requeued_tail-IsVacant k1 s.1))
    ]

-- a thread that neither runs nor is ready nor waits, made ready
pub ready-IsSound :
    (t : ℕ) (k : Kernel)
    → ((k.threads t).state ≡ ThreadState.suspended) ⊎ ((k.threads t).state ≡ ThreadState.sleeping)
    → IsSound k
    → IsSound (insert_in_run_queue_head t (set_state t ThreadState.ready k))
unfolding is_ready is_running waits_on insert_in_run_queue_head
ready-IsSound t k e s =
    (ready_head-IsConsistent t k (ground arith) (λ w. ground arith) s.0, λ u. ground (arith, s.1 u))
