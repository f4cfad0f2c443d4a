-- ===== src/Lk/Wait.antt =====
-- Wait queues: bootable/lk/kernel/thread.c, from `wait_queue_init` on.
--
-- A wait queue is a number, the place of its `wait_queue_t`. As in Lk.Thread, what follows a switch
-- runs later: `wait_queue_block` ends, for a thread that was blocked, by `block_return`.
pub mod Kept
pub mod Sound
pub mod Leak
pub mod Lost
pub mod Lists
use android4_4_4_r.Prelude.{
  ℕ, zero, suc, ◌+◌, ◌-◌, ◌^◌, List, [], ◌∷◌, ◌++◌, length, Bool, true, false, not, ◌&&◌, Option,
  none, some, ltb, ◌==◌, if◌then◌else◌, update, is_negative,
}
use android4_4_4_r.Lk.Timer.{list_delete}
use android4_4_4_r.Lk.Thread.{
  ThreadState, Status, no_error, err_timed_out, err_not_blocked, err_object_destroyed, Thread,
  WaitQueue, Alarm, wait_queue_timeout_handler, Kernel, current, set_thread, set_state,
  enter_critical_section, exit_critical_section, insert_in_run_queue_head, thread_resched,
  thread_block,
}

abbrev pub infinite_time : ℕ
infinite_time = 2 ^ 32 - 1

abbrev pub set_wait_queue : ℕ → WaitQueue → Kernel → Kernel
set_wait_queue w q k = record k { wait_queues = update k.wait_queues w q }

unfoldable pub wait_queue_init : ℕ → Kernel → Kernel
wait_queue_init w k = set_wait_queue w (record { list = []; count = 0 }) k

-- the current thread at the end of the wait queue, blocked
unfoldable pub enqueue_current : ℕ → Kernel → Kernel
enqueue_current w k =
    let q = k.wait_queues w in
    set_thread k.current_thread
      (record (current k) {
        state = ThreadState.blocked;
        blocking_wait_queue = some w;
        wait_queue_block_ret = no_error;
      })
      (set_wait_queue w (record { list = q.list ++ k.current_thread ∷ []; count = q.count + 1 }) k)

-- The status that is returned at once, or `none` for a thread that is blocked.
unfoldable pub wait_queue_block : ℕ → ℕ → Kernel → Option (Kernel × Option Status)
unfolding enqueue_current thread_block
wait_queue_block w timeout k =
    let queued = enqueue_current w k in
    let armed = record queued {
      alarms =
          if timeout == infinite_time
          then queued.alarms
          else wait_queue_timeout_handler k.current_thread timeout ∷ queued.alarms;
    } in
    if timeout == 0
    then some (k, some err_timed_out)
    else elim (thread_block armed) [ none ↦ none | some k' ↦ some (k', none) ]

-- what `wait_queue_block` returns to the current thread, once it has been switched to
abbrev pub block_return : Kernel → Status
block_return k = (current k).wait_queue_block_ret

-- thread `t` taken from the wait queue, which leaves `rest` in it, and made ready
unfoldable pub take_waiter : ℕ → ℕ → List ℕ → Status → Kernel → Kernel
take_waiter w t rest error k =
    set_thread t
      (record (k.threads t) {
        state = ThreadState.ready;
        wait_queue_block_ret = error;
        blocking_wait_queue = none;
      })
      (set_wait_queue w (record { list = rest; count = (k.wait_queues w).count - 1 }) k)

-- the current thread, ready and at the head of its run queue
unfoldable pub requeue_current : Kernel → Kernel
unfolding insert_in_run_queue_head
requeue_current k =
    insert_in_run_queue_head k.current_thread (set_state k.current_thread ThreadState.ready k)

-- `if (reschedule) thread_resched();`
unfoldable pub resched_if : Bool → Kernel → Option Kernel
resched_if true k = thread_resched k
resched_if false k = some k

-- The kernel, and the number of threads that were woken.
unfoldable pub wait_queue_wake_one : ℕ → Bool → Status → Kernel → Option (Kernel × ℕ)
unfolding take_waiter requeue_current resched_if insert_in_run_queue_head
wait_queue_wake_one w reschedule error k = elim ((k.wait_queues w).list) [
  | [] ↦ some (k, 0)
  | t ∷ rest ↦
      let woken = take_waiter w t rest error k in
      let queued =
        insert_in_run_queue_head t (if reschedule then requeue_current woken else woken) in
      elim (resched_if reschedule queued) [ none ↦ none | some k' ↦ some (k', 1) ]
]

-- the loop, over the threads in the wait queue
unfoldable pub wake_each : ℕ → Status → List ℕ → Kernel → Kernel
unfolding take_waiter insert_in_run_queue_head
wake_each w error [] k = k
wake_each w error (t ∷ rest) k =
    wake_each w error rest (insert_in_run_queue_head t (take_waiter w t rest error k))

-- `wait_queue_wake_all` behind the place where the current thread may be put back
unfoldable pub wake_list : ℕ → Bool → Status → Kernel → Option (Kernel × ℕ)
unfolding wake_each resched_if
wake_list w reschedule error k =
    let threads = (k.wait_queues w).list in
    elim (resched_if (reschedule && ltb 0 (length threads)) (wake_each w error threads k)) [
      | none ↦ none
      | some k' ↦ some (k', length threads)
    ]

unfoldable pub wait_queue_wake_all : ℕ → Bool → Status → Kernel → Option (Kernel × ℕ)
unfolding wake_list requeue_current
wait_queue_wake_all w reschedule error k =
    wake_list w reschedule error
      (if reschedule && ltb 0 (k.wait_queues w).count then requeue_current k else k)

abbrev pub wait_queue_destroy : ℕ → Bool → Kernel → Option (Kernel × ℕ)
wait_queue_destroy w reschedule k = wait_queue_wake_all w reschedule err_object_destroyed k

-- where thread `t` is blocked on `w`
unfoldable pub unblock : ℕ → ℕ → Status → Kernel → Kernel
unfolding take_waiter insert_in_run_queue_head
unblock w t error k =
    insert_in_run_queue_head t (take_waiter w t (list_delete t (k.wait_queues w).list) error k)

-- The status goes with the kernel as the function leaves it, or as it is at the switch.
unfoldable pub thread_unblock_from_wait_queue :
    ℕ → Bool → Status → Kernel → Option (Kernel × Status)
unfolding unblock
thread_unblock_from_wait_queue t reschedule error k0 =
    let k = enter_critical_section k0 in
    let th = k.threads t in
    let unblocked : Option (Kernel × Status) = elim (th.blocking_wait_queue) [
      | none ↦ none
      | some w ↦
          if reschedule
          then elim (thread_resched (unblock w t error k)) [
            | none ↦ none
            | some k' ↦ some (k', no_error)
          ]
          else some (exit_critical_section (unblock w t error k), no_error)
    ] in
    elim (th.state) [ ThreadState.blocked ↦ unblocked | _ ↦ some (k, err_not_blocked) ]

-- `wait_queue_timeout_handler` for thread `t`: the kernel, and whether INT_RESCHEDULE is returned.
unfoldable pub time_out : ℕ → Kernel → Option (Kernel × Bool)
time_out t k = elim (thread_unblock_from_wait_queue t false err_timed_out k) [
  | none ↦ none
  | some r ↦ some (r.0, not (is_negative r.1))
]
