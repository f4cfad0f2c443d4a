-- ===== src/Lk/Wait/Lost.antt =====
-- A reschedule by `thread_unblock_from_wait_queue`.
use android4_4_4_r.Prelude.{ℕ, ◌+◌, ◌≡◌, ◌≢◌, ◌∙◌, refl, elem, arith, List, ◌∷◌, true, false, some}
use android4_4_4_r.Lk.Timer.{list_delete}
use android4_4_4_r.Lk.Thread.{
  Kernel, Status, no_error, enter_critical_section, insert_in_run_queue_head, switch_to,
  thread_resched,
}
use android4_4_4_r.Lk.Thread.Invariant.{is_blocked, is_running, is_ready, waits_on, IsConsistent}
use android4_4_4_r.Lk.Thread.Choice.{thread_resched-IsHighest}
use android4_4_4_r.Lk.Thread.Kept.{IsSound, record-IsConsistent}
use android4_4_4_r.Lk.Wait.{thread_unblock_from_wait_queue, unblock, take_waiter}
use android4_4_4_r.Lk.Wait.Kept.{
  list_delete-IsRest, take_waiter-IsConsistent, take_waiter-is_running,
}

unblock-resched :
    (t w : ℕ) (error : Status) (k k' : Kernel)
    → is_blocked (k.threads t) ≡ true
    → (k.threads t).blocking_wait_queue ≡ some w
    → thread_resched (unblock w t error (enter_critical_section k)) ≡ some k'
    → thread_unblock_from_wait_queue t true error k ≡ some (k', no_error)
unfolding thread_unblock_from_wait_queue is_blocked
unblock-resched t w error k k' b e r = ground arith

-- a running thread that is not in a run queue, when another is switched to
switch_to-lost :
    (p c : ℕ) (rest : List ℕ) (k : Kernel)
    → k.run_queue p ≡ c ∷ rest
    → is_ready (k.threads c) ≡ true
    → is_running (k.threads k.current_thread) ≡ true
    → IsConsistent k
    → ((switch_to p c rest k).current_thread ≢ k.current_thread)
      × (is_running ((switch_to p c rest k).threads k.current_thread) ≡ true)
      × ((q : ℕ) → elem k.current_thread ((switch_to p c rest k).run_queue q) ≡ false)
unfolding switch_to is_ready is_running elem
switch_to-lost p c rest k e ready running h =
    let t = k.current_thread in
    (ground arith, ground arith, λ q. ground (arith, h.queued q t, h.queued p t))

unblock-is_ready :
    (w t : ℕ) (error : Status) (k : Kernel) → is_ready ((unblock w t error k).threads t) ≡ true
unfolding unblock take_waiter insert_in_run_queue_head is_ready
unblock-is_ready w t error k = ground arith

unblock-current :
    (w t : ℕ) (error : Status) (k : Kernel)
    → (unblock w t error k).current_thread ≡ k.current_thread
unfolding unblock take_waiter insert_in_run_queue_head
unblock-current w t error k = refl

waits-elem :
    (k : Kernel) (t w : ℕ)
    → IsConsistent k
    → is_blocked (k.threads t) ≡ true
    → (k.threads t).blocking_wait_queue ≡ some w
    → elem t (k.wait_queues w).list ≡ true
unfolding is_blocked waits_on
waits-elem k t w h b e = ground (arith, h.waiting w t)

-- Whoever unblocks a thread with a reschedule is lost: he stays in the state of a running thread, but
-- another is the current thread, and he stands in no run queue. The kernel is sound, and the thread
-- is blocked on a wait queue.
pub thread_unblock_from_wait_queue-lost :
    (t w : ℕ) (error : Status) (k : Kernel)
    → IsSound k
    → is_blocked (k.threads t) ≡ true
    → (k.threads t).blocking_wait_queue ≡ some w
    → (k' : Kernel) × (thread_unblock_from_wait_queue t true error k ≡ some (k', no_error))
      × (k'.current_thread ≢ k.current_thread)
      × (is_running (k'.threads k.current_thread) ≡ true)
      × ((p : ℕ) → elem k.current_thread (k'.run_queue p) ≡ false)
unfolding unblock take_waiter insert_in_run_queue_head
thread_unblock_from_wait_queue-lost t w error k s b e =
    let k1 = enter_critical_section k in
    let h1 = record-IsConsistent k (k.critical_section_count + 1) k.alarms s.0 in
    let list = (k.wait_queues w).list in
    let r = list_delete-IsRest t list (waits-elem k t w s.0 b e) (s.0.waits_once w) in
    let h2 = take_waiter-IsConsistent w t (list_delete t list) error k1 r h1 in
    let k2 = unblock w t error k1 in
    let runs : is_running (k2.threads k.current_thread) ≡ true =
      take_waiter-is_running w t (list_delete t list) error k1 r h1 k.current_thread
      ∙ s.1 k.current_thread
      ∙ ground arith in
    let (c, rest, found) = thread_resched-IsHighest k2 t h2 (unblock-is_ready w t error k1) in
    let p = (k2.threads c).priority in
    let (apart, still, nowhere) = switch_to-lost p c rest k2 found.1 found.2 runs h2 in
    (switch_to p c rest k2, unblock-resched t w error k _ b e found.0, apart, still, nowhere)
