-- ===== src/Lk/Wait/Lists.antt =====
-- What the operations leave in a wait queue.
use android4_4_4_r.Prelude.{
  ℕ, ◌-◌, ◌≡◌, inl, inr, List-cases, Option-cases, refl, arith, List, [], ◌∷◌, ◌++◌, length, Bool,
  true, false, ◌&&◌, Option, some, ltb, ◌==◌, if◌then◌else◌,
}
use android4_4_4_r.Lk.Thread.{
  Kernel, Status, wait_queue_timeout_handler, enter_critical_section, insert_in_run_queue_head, clz,
  switch_to, thread_resched, thread_block,
}
use android4_4_4_r.Lk.Wait.{
  infinite_time, enqueue_current, wait_queue_block, take_waiter, requeue_current, resched_if,
  wake_each, wake_list, wait_queue_wake_one, wait_queue_wake_all,
}

-- the threads that wait
abbrev pub waiting : ℕ → Kernel → List ℕ
waiting w k = (k.wait_queues w).list

switch_to-waiting :
    (p t w : ℕ) (rest : List ℕ) (k : Kernel) → waiting w (switch_to p t rest k) ≡ waiting w k
unfolding switch_to
switch_to-waiting p t w rest k = ground arith

thread_resched-waiting :
    (w : ℕ) (k k' : Kernel) → thread_resched k ≡ some k' → waiting w k' ≡ waiting w k
unfolding thread_resched
thread_resched-waiting w k k' e =
    let p = 31 - clz 32 k.run_queue_bitmap in
    elim (List-cases (k.run_queue p)) [
      | inl q ↦ ground (arith, q, e)
      | inr (t, rest, q) ↦ ground (arith, q, e, switch_to-waiting p t w rest k)
    ]

resched_if-waiting :
    (b : Bool) (w : ℕ) (k k' : Kernel) → resched_if b k ≡ some k' → waiting w k' ≡ waiting w k
unfolding resched_if
resched_if-waiting true w k k' e = thread_resched-waiting w k k' e
resched_if-waiting false w k k' e = ground (arith, e)

wake_each-waiting :
    (w : ℕ) (error : Status) (threads : List ℕ) (k : Kernel)
    → waiting w k ≡ threads
    → waiting w (wake_each w error threads k) ≡ []
unfolding wake_each take_waiter insert_in_run_queue_head
wake_each-waiting w error [] k e = e
wake_each-waiting w error (t ∷ rest) k e = wake_each-waiting w error rest _ (ground arith)

abbrev pub behind_first : List ℕ → List ℕ
behind_first [] = []
behind_first (t ∷ rest) = rest

pub wait_queue_wake_one-waiting :
    (w n : ℕ) (reschedule : Bool) (error : Status) (k k' : Kernel)
    → wait_queue_wake_one w reschedule error k ≡ some (k', n)
    → (waiting w k' ≡ behind_first (waiting w k))
      × (n ≡ (if ltb 0 (length (waiting w k)) then 1 else 0))
unfolding wait_queue_wake_one take_waiter requeue_current insert_in_run_queue_head
wait_queue_wake_one-waiting w n reschedule error k k' e = elim (List-cases (waiting w k)) [
  | inl q ↦ ground (arith, q, e)
  | inr (t, rest, q) ↦
      let woken = take_waiter w t rest error k in
      let queued =
        insert_in_run_queue_head t (if reschedule then requeue_current woken else woken) in
      elim (Option-cases (resched_if reschedule queued)) [
        | inl o ↦ ground (arith, q, o, e)
        | inr (k2, o) ↦ ground (arith, q, o, e, resched_if-waiting reschedule w queued k2 o)
      ]
]

pub wait_queue_wake_all-waiting :
    (w n : ℕ) (reschedule : Bool) (error : Status) (k k' : Kernel)
    → wait_queue_wake_all w reschedule error k ≡ some (k', n)
    → waiting w k' ≡ []
unfolding wait_queue_wake_all wake_list requeue_current insert_in_run_queue_head
wait_queue_wake_all-waiting w n reschedule error k k' e =
    let k1 = if reschedule && ltb 0 (k.wait_queues w).count then requeue_current k else k in
    let woken = wake_each w error (waiting w k1) k1 in
    let b = reschedule && ltb 0 (length (waiting w k1)) in
    let done = wake_each-waiting w error (waiting w k1) k1 refl in
    elim (Option-cases (resched_if b woken)) [
      | inl o ↦ ground (arith, o, e)
      | inr (k2, o) ↦ ground (arith, o, e, done, resched_if-waiting b w woken k2 o)
    ]

pub wait_queue_block-waiting :
    (w timeout : ℕ) (s : Option Status) (k k' : Kernel)
    → wait_queue_block w timeout k ≡ some (k', s)
    → waiting w k' ≡ (if timeout == 0 then waiting w k else waiting w k ++ k.current_thread ∷ [])
unfolding wait_queue_block enqueue_current thread_block
wait_queue_block-waiting w timeout s k k' e =
    let queued = enqueue_current w k in
    let alarms =
      if timeout == infinite_time
      then queued.alarms
      else wait_queue_timeout_handler k.current_thread timeout ∷ queued.alarms in
    let armed = enter_critical_section (record queued { alarms = alarms }) in
    elim (Option-cases (thread_resched armed)) [
      | inl o ↦ ground (arith, o, e)
      | inr (k2, o) ↦ ground (arith, o, e, thread_resched-waiting w armed k2 o)
    ]
