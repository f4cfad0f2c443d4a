-- ===== src/Lk/Wait/Sound.antt =====
-- Whole operations on wait queues, from a sound state to a sound state.
use android4_4_4_r.Prelude.{
  ℕ, ◌+◌, ◌≡◌, ◌∙◌, refl, ap, subst, arith, List, [], ◌∷◌, length, ltb, IsNodup, Bool, true, false,
  ◌&&◌, Bool-cases, List-cases, inl, inr, ◌-◌, elem, Option-cases, Option, none, some, ◌==◌,
  if◌then◌else◌,
}
use android4_4_4_r.Lk.Thread.{
  wait_queue_timeout_handler, Kernel, Status, err_timed_out, insert_in_run_queue_head,
  enter_critical_section, exit_critical_section, no_error, err_not_blocked, thread_block,
}
use android4_4_4_r.Lk.Thread.Invariant.{
  is_ready, is_running, is_blocked, waits_on, IsConsistent, IsRunning, IsVacant,
}
use android4_4_4_r.Lk.Thread.Kept.{
  IsSound, Gives, ready_head-IsConsistent, record-IsConsistent, thread_resched-IsSound,
}
use android4_4_4_r.Lk.Wait.{
  infinite_time, enqueue_current, wait_queue_block, take_waiter, requeue_current, resched_if,
  wait_queue_wake_one, wait_queue_wake_all, wake_list, wake_each, unblock,
  thread_unblock_from_wait_queue,
}
use android4_4_4_r.Lk.Timer.{list_delete}
use android4_4_4_r.Lk.Wait.Kept.{
  enqueue_current-IsConsistent, enqueue_current-IsVacant, IsRest, head-IsRest, list_delete-IsRest,
  take_waiter-IsConsistent, take_waiter-IsRunning, take_waiter-requeue, take_waiter-IsVacant,
  wake_each-Woken,
}

-- An operation with a result ends, in a sound state.
abbrev pub Returns : {A : Type 0} → Option (Kernel × A) → Type 0
Returns {A} o = (k : Kernel) × (a : A) × (o ≡ some (k, a)) × IsSound k

enqueued-ready :
    (w u : ℕ) (k : Kernel)
    → is_ready (k.threads u) ≡ true
    → IsRunning k
    → is_ready ((enqueue_current w k).threads u) ≡ true
unfolding enqueue_current is_ready is_running
enqueued-ready w u k ready r = ground (arith, r u)

-- Blocking gives the cpu to a ready thread, if there is one.
pub wait_queue_block-IsSound :
    (w timeout u : ℕ) (k : Kernel)
    → is_ready (k.threads u) ≡ true
    → IsSound k
    → Returns (wait_queue_block w timeout k)
unfolding wait_queue_block thread_block
wait_queue_block-IsSound w timeout u k ready sound = elim (Bool-cases (timeout == 0)) [
  | inl now ↦ (k, some err_timed_out, rw (wait_queue_block, now) refl, sound)
  | inr later ↦
      let queued = enqueue_current w k in
      let alarms =
        if timeout == infinite_time
        then queued.alarms
        else wait_queue_timeout_handler k.current_thread timeout ∷ queued.alarms in
      let armed = enter_critical_section (record queued { alarms = alarms }) in
      let (k', e, s) =
        thread_resched-IsSound armed u (enqueued-ready w u k ready sound.1)
          (record-IsConsistent queued (queued.critical_section_count + 1) alarms
            (enqueue_current-IsConsistent w k sound.1 sound.0))
          (enqueue_current-IsVacant w k sound.1) in
      (k', none, rw (wait_queue_block, later) (rw e refl), s)
]

inserted-ready :
    (w t : ℕ) (rest : List ℕ) (error : Status) (k : Kernel)
    → is_ready
        ((insert_in_run_queue_head t (requeue_current (take_waiter w t rest error k))).threads t)
      ≡ true
unfolding insert_in_run_queue_head requeue_current take_waiter is_ready
inserted-ready w t rest error k = ground arith

-- a waiter woken, with the switch that follows if there is one
wake-IsSound :
    (reschedule : Bool) (w t : ℕ) (rest : List ℕ) (error : Status) (k : Kernel)
    → IsRest t (k.wait_queues w).list rest
    → IsSound k
    → let woken = take_waiter w t rest error k in
      Gives (
        resched_if reschedule
          (insert_in_run_queue_head t (if reschedule then requeue_current woken else woken)))
unfolding resched_if
wake-IsSound true w t rest error k r s =
    thread_resched-IsSound _ t (inserted-ready w t rest error k)
      (take_waiter-requeue w t rest error k r s.0 s.1)
      (take_waiter-IsVacant w t rest error k r s.0 s.1)
wake-IsSound false w t rest error k r s = (
  insert_in_run_queue_head t (take_waiter w t rest error k),
  refl,
  (
    take_waiter-IsConsistent w t rest error k r s.0,
    take_waiter-IsRunning w t rest error k r s.0 s.1,
  ),
)

-- Waking gives the cpu away or not, as it is told.
pub wait_queue_wake_one-IsSound :
    (w : ℕ) (reschedule : Bool) (error : Status) (k : Kernel)
    → IsSound k
    → Returns (wait_queue_wake_one w reschedule error k)
unfolding wait_queue_wake_one
wait_queue_wake_one-IsSound w reschedule error k sound =
    elim (List-cases ((k.wait_queues w).list)) [
      | inl none_waits ↦ (k, 0, rw (wait_queue_wake_one, none_waits) refl, sound)
      | inr (t, rest, e) ↦
          let r : IsRest t (k.wait_queues w).list rest =
            rw e (head-IsRest t rest (subst IsNodup e (sound.0.waits_once w))) in
          let (k', e', s) = wake-IsSound reschedule w t rest error k r sound in
          (k', 1, rw (wait_queue_wake_one, e) (rw e' refl), s)
    ]

requeue-is_ready : (k : Kernel) → is_ready ((requeue_current k).threads k.current_thread) ≡ true
unfolding requeue_current insert_in_run_queue_head is_ready
requeue-is_ready k = ground arith

requeue-IsConsistent : (k : Kernel) → IsSound k → IsConsistent (requeue_current k)
unfolding requeue_current is_ready is_running waits_on
requeue-IsConsistent k s =
    ready_head-IsConsistent k.current_thread k (ground (arith, s.1 k.current_thread))
      (λ w. ground (arith, s.1 k.current_thread)) s.0

requeue-IsVacant : (k : Kernel) → IsSound k → IsVacant (requeue_current k)
unfolding requeue_current insert_in_run_queue_head is_running
requeue-IsVacant k s u = ground (arith, s.1 u)

requeue-list :
    (w : ℕ) (k : Kernel) → ((requeue_current k).wait_queues w).list ≡ (k.wait_queues w).list
unfolding requeue_current insert_in_run_queue_head
requeue-list w k = refl

pub wake_list-some :
    (w : ℕ) (reschedule : Bool) (error : Status) (k k' : Kernel) (threads : List ℕ)
    → (k.wait_queues w).list ≡ threads
    → resched_if (reschedule && ltb 0 (length threads)) (wake_each w error threads k) ≡ some k'
    → wake_list w reschedule error k ≡ some (k', length threads)
unfolding wake_list
wake_list-some w reschedule error k k' threads e e' =
    rw (wake_list, e) (rw e' (ap (λ (xs : List ℕ). some (k', length xs)) e))

-- With a reschedule the current thread is put back first, if there is a thread to wake.
pub wait_queue_wake_all-IsSound :
    (w : ℕ) (reschedule : Bool) (error : Status) (k : Kernel)
    → IsSound k
    → Returns (wait_queue_wake_all w reschedule error k)
unfolding wait_queue_wake_all resched_if wake_each
wait_queue_wake_all-IsSound w false error k s =
    let threads = (k.wait_queues w).list in
    let woken = wake_each-Woken w error threads k refl s.0 in
    (
      wake_each w error threads k,
      length threads,
      wake_list-some w false error k _ threads refl refl,
      (woken.consistent, λ u. woken.runs u ∙ s.1 u ∙ rw woken.current refl),
    )
wait_queue_wake_all-IsSound w true error k s = elim (List-cases ((k.wait_queues w).list)) [
  | inl e ↦
      let c : ltb 0 (k.wait_queues w).count ≡ false = ground (arith, s.0.counts w) in
      (
        k,
        0,
        ap (λ b. wake_list w true error (if b then requeue_current k else k)) c
            ∙ wake_list-some w true error k k [] e refl,
        s,
      )
  | inr (t, rest, e) ↦
      let c : ltb 0 (k.wait_queues w).count ≡ true = ground (arith, s.0.counts w) in
      let k1 = requeue_current k in
      let nonempty : ltb 0 (length (t ∷ rest)) ≡ true = ground arith in
      let e1 = requeue-list w k ∙ e in
      let woken = wake_each-Woken w error (t ∷ rest) k1 e1 (requeue-IsConsistent k s) in
      let (k', e', s') =
        thread_resched-IsSound (wake_each w error (t ∷ rest) k1) k.current_thread
          (woken.readies k.current_thread (requeue-is_ready k)) woken.consistent
          (λ u. woken.runs u ∙ requeue-IsVacant k s u) in
      (
        k',
        length (t ∷ rest),
        ap (λ b. wake_list w true error (if b then requeue_current k else k)) c
            ∙ wake_list-some w true error k1 k' (t ∷ rest) e1
                (ap (λ b. resched_if b (wake_each w error (t ∷ rest) k1)) nonempty ∙ e'),
        s',
      )
]

-- A thread that waits is taken out of its queue, wherever it stands there; for another nothing
-- changes but the count of critical sections.
waits-some :
    (k : Kernel) (t : ℕ)
    → IsSound k
    → is_blocked (k.threads t) ≡ true
    → (w : ℕ) × ((k.threads t).blocking_wait_queue ≡ some w)
      × (elem t (k.wait_queues w).list ≡ true)
unfolding is_blocked waits_on
waits-some k t s b = elim (Option-cases ((k.threads t).blocking_wait_queue)) [
  | inl e ↦ absurd (s.0.targets t b e)
  | inr (w, e) ↦ (w, e, ground (arith, s.0.waiting w t))
]

unblock-eq :
    (t w : ℕ) (error : Status) (k : Kernel)
    → is_blocked (k.threads t) ≡ true
    → (k.threads t).blocking_wait_queue ≡ some w
    → thread_unblock_from_wait_queue t false error k
      ≡ some (exit_critical_section (unblock w t error (enter_critical_section k)), no_error)
unfolding thread_unblock_from_wait_queue is_blocked
unblock-eq t w error k b e = ground arith

unblock_not_blocked :
    (t : ℕ) (error : Status) (k : Kernel)
    → is_blocked (k.threads t) ≡ false
    → thread_unblock_from_wait_queue t false error k
      ≡ some (enter_critical_section k, err_not_blocked)
unfolding thread_unblock_from_wait_queue is_blocked
unblock_not_blocked t error k b = ground arith

pub thread_unblock_from_wait_queue-IsSound :
    (t : ℕ) (error : Status) (k : Kernel)
    → IsSound k
    → Returns (thread_unblock_from_wait_queue t false error k)
unfolding unblock
thread_unblock_from_wait_queue-IsSound t error k s = elim (Bool-cases (is_blocked (k.threads t))) [
  | inl b ↦
      let (w, e, m) = waits-some k t s b in
      let r = list_delete-IsRest t (k.wait_queues w).list m (s.0.waits_once w) in
      let k1 = enter_critical_section k in
      let h1 = record-IsConsistent k (k.critical_section_count + 1) k.alarms s.0 in
      let rest = list_delete t (k.wait_queues w).list in
      let k2 = unblock w t error k1 in
      (
        exit_critical_section k2,
        no_error,
        unblock-eq t w error k b e,
        (
          record-IsConsistent k2 (k2.critical_section_count - 1) k2.alarms
              (take_waiter-IsConsistent w t rest error k1 r h1),
          take_waiter-IsRunning w t rest error k1 r h1 s.1,
        ),
      )
  | inr b ↦ (
    enter_critical_section k,
    err_not_blocked,
    unblock_not_blocked t error k b,
    (record-IsConsistent k (k.critical_section_count + 1) k.alarms s.0, s.1),
  )
]
