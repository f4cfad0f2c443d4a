-- ===== src/Lk/Thread.antt =====
-- Threads and the scheduler: bootable/lk/kernel/thread.c and bootable/lk/include/kernel/thread.h.
--
-- A thread is a number, the place of its `thread_t`. A word of 32 bits that is used bit by bit, as
-- `run_queue_bitmap`, is a function of the bit. An operation that gives the cpu away is modelled up
-- to the switch: what follows in the source runs when the thread is next switched to. `none` stands
-- for what is undefined: `__builtin_clz(0)`, or the null thread of an empty run queue.
pub mod Invariant
pub mod Choice
pub mod Kept
use android4_4_4_r.Prelude.{
  ℕ, zero, suc, ◌+◌, ◌-◌, List, [], ◌∷◌, ◌++◌, Bool, true, false, not, ◌&&◌, ◌||◌, Option, none,
  some, ltb, leb, ◌==◌, if◌then◌else◌, ℤ, pos, negsuc, is_positive, is_negative, pred, update,
  is_empty,
}

pub data ThreadState : Type 0 where
  suspended ready running blocked sleeping death : ThreadState

-- `status_t`
abbrev pub Status : Type 0
Status = ℤ

abbrev pub no_error : Status
no_error = pos 0

abbrev pub err_not_suspended : Status
err_not_suspended = negsuc 9

abbrev pub err_object_destroyed : Status
err_object_destroyed = negsuc 10

abbrev pub err_not_blocked : Status
err_not_blocked = negsuc 11

abbrev pub err_timed_out : Status
err_timed_out = negsuc 12

-- The name, the stack, the entry point and the thread-local storage are left out.
pub record Thread : Type 0 where
  pub priority : ℕ
  pub state : ThreadState
  pub saved_critical_section_count : ℕ
  pub remaining_quantum : ℤ
  pub blocking_wait_queue : Option ℕ
  pub wait_queue_block_ret : Status

pub record WaitQueue : Type 0 where
  pub list : List ℕ
  pub count : ℕ

-- A call of `timer_set_oneshot`, with the thread as its argument.
pub data Alarm : Type 0 where
  thread_sleep_handler : ℕ → ℕ → Alarm
  wait_queue_timeout_handler : ℕ → ℕ → Alarm

-- `wait_queues` are the wait queues of all mutexes and events, `alarms` the timers set so far.
pub record Kernel : Type 0 where
  pub threads : ℕ → Thread
  pub current_thread : ℕ
  pub idle_thread : Option ℕ
  pub critical_section_count : ℕ
  pub run_queue : ℕ → List ℕ
  pub run_queue_bitmap : ℕ → Bool
  pub wait_queues : ℕ → WaitQueue
  pub alarms : List Alarm

abbrev pub current : Kernel → Thread
current k = k.threads k.current_thread

-- a write to the `thread_t` of a thread
abbrev pub set_thread : ℕ → Thread → Kernel → Kernel
set_thread t th k = record k { threads = update k.threads t th }

abbrev pub set_state : ℕ → ThreadState → Kernel → Kernel
set_state t s k = set_thread t (record (k.threads t) { state = s }) k

abbrev pub enter_critical_section : Kernel → Kernel
enter_critical_section k = record k { critical_section_count = k.critical_section_count + 1 }

abbrev pub exit_critical_section : Kernel → Kernel
exit_critical_section k = record k { critical_section_count = k.critical_section_count - 1 }

unfoldable pub insert_in_run_queue_head : ℕ → Kernel → Kernel
insert_in_run_queue_head t k =
    let p = (k.threads t).priority in
    record k {
      run_queue = update k.run_queue p (t ∷ k.run_queue p);
      run_queue_bitmap = update k.run_queue_bitmap p true;
    }

unfoldable pub insert_in_run_queue_tail : ℕ → Kernel → Kernel
insert_in_run_queue_tail t k =
    let p = (k.threads t).priority in
    record k {
      run_queue = update k.run_queue p (k.run_queue p ++ t ∷ []);
      run_queue_bitmap = update k.run_queue_bitmap p true;
    }

-- `__builtin_clz` of the word's lowest `n` bits: the number of zeros from the top
unfoldable pub clz : ℕ → (ℕ → Bool) → ℕ
clz zero bits = 0
clz (suc n) bits = if bits n then 0 else suc (clz n bits)

-- from the removal of `t` from the run queue of priority `p` on, which leaves `rest` in it
unfoldable pub switch_to : ℕ → ℕ → List ℕ → Kernel → Kernel
switch_to p t rest k0 =
    let bitmap =
      if is_empty rest then update k0.run_queue_bitmap p false else k0.run_queue_bitmap in
    let k =
      set_state t ThreadState.running
        (record k0 { run_queue = update k0.run_queue p rest; run_queue_bitmap = bitmap }) in
    let new = k.threads t in
    let quantum = if is_positive new.remaining_quantum then new.remaining_quantum else pos 5 in
    let k1 = set_thread t (record new { remaining_quantum = quantum }) k in
    let old = record (current k1) { saved_critical_section_count = k.critical_section_count } in
    if t == k0.current_thread then k else record (set_thread k0.current_thread old k1) {
      current_thread = t;
      critical_section_count = new.saved_critical_section_count;
    }

-- `NUM_PRIORITIES` is 32, `HIGHEST_PRIORITY` is 31.
unfoldable pub thread_resched : Kernel → Option Kernel
unfolding clz switch_to
thread_resched k =
    let zeros = clz 32 k.run_queue_bitmap in
    let next_queue = 31 - zeros in
    if zeros == 32 then none else elim (k.run_queue next_queue) [
      | [] ↦ none
      | t ∷ rest ↦ some (switch_to next_queue t rest k)
    ]

-- the current thread, marked as ready
abbrev ready_current : Kernel → Kernel
ready_current k = set_state k.current_thread ThreadState.ready k

-- `exit_critical_section()` behind `thread_resched()`: it follows at once where that comes back with
-- the same thread, and else when the thread is next switched to.
abbrev pub exit_if_back : ℕ → Kernel → Kernel
exit_if_back t k = if k.current_thread == t then exit_critical_section k else k

unfoldable pub resched_and_exit : Kernel → Option Kernel
resched_and_exit k = elim (thread_resched k) [
  | none ↦ none
  | some k' ↦ some (exit_if_back k.current_thread k')
]

unfoldable pub thread_yield : Kernel → Option Kernel
unfolding insert_in_run_queue_tail resched_and_exit
thread_yield k0 =
    let k = enter_critical_section k0 in
    let th = record (current k) { state = ThreadState.ready; remaining_quantum = pos 0 } in
    resched_and_exit (insert_in_run_queue_tail k.current_thread (set_thread k.current_thread th k))

unfoldable pub thread_preempt : Kernel → Option Kernel
unfolding insert_in_run_queue_head insert_in_run_queue_tail resched_and_exit
thread_preempt k0 =
    let k = ready_current (enter_critical_section k0) in
    if is_positive (current k).remaining_quantum
    then resched_and_exit (insert_in_run_queue_head k.current_thread k)
    else resched_and_exit (insert_in_run_queue_tail k.current_thread k)

unfoldable pub thread_block : Kernel → Option Kernel
thread_block k = thread_resched (enter_critical_section k)

-- The kernel, and whether INT_RESCHEDULE is returned.
unfoldable pub thread_timer_tick : Kernel → Kernel × Bool
thread_timer_tick k =
    let is_idle : Bool = elim k.idle_thread [ none ↦ false | some t ↦ t == k.current_thread ] in
    let left = pred (current k).remaining_quantum in
    if is_idle then (k, false) else (
      set_thread k.current_thread (record (current k) { remaining_quantum = left }) k,
      not (is_positive left),
    )

unfoldable pub wake_sleeper : ℕ → Kernel → Kernel
unfolding insert_in_run_queue_head
wake_sleeper t k = insert_in_run_queue_head t (set_state t ThreadState.ready k)

unfoldable pub thread_sleep : ℕ → Kernel → Option Kernel
thread_sleep delay k0 =
    let k = enter_critical_section k0 in
    thread_resched (
      set_state k.current_thread ThreadState.sleeping
        (record k { alarms = thread_sleep_handler k.current_thread delay ∷ k.alarms }))

unfoldable pub thread_resume : ℕ → Kernel → Option (Kernel × Status)
unfolding thread_yield insert_in_run_queue_head
thread_resume t k0 =
    let k =
      insert_in_run_queue_head t (set_state t ThreadState.ready (enter_critical_section k0)) in
    let resumed : Option (Kernel × Status) = elim (thread_yield k) [
      | none ↦ none
      | some k' ↦ some (exit_if_back k0.current_thread k', no_error)
    ] in
    elim (k0.threads t).state [
      | ThreadState.ready ↦ some (k0, err_not_suspended)
      | ThreadState.running ↦ some (k0, err_not_suspended)
      | ThreadState.suspended ↦ resumed
      | ThreadState.blocked ↦ resumed
      | ThreadState.sleeping ↦ resumed
      | ThreadState.death ↦ resumed
    ]

unfoldable pub thread_set_priority : ℤ → Kernel → Kernel
thread_set_priority priority k =
    let clamped : ℕ = elim priority [ pos n ↦ if ltb 31 n then 31 else n | negsuc n ↦ 0 ] in
    set_thread k.current_thread (record (current k) { priority = clamped }) k

-- up to the loop of `idle_thread_routine`, in which the idle thread only halts the cpu
unfoldable pub thread_become_idle : Kernel → Kernel
unfolding thread_set_priority
thread_become_idle k = record (thread_set_priority (pos 0) k) {
  idle_thread = some k.current_thread;
}

-- `thread_init_early`: thread 0 is the bootstrap thread, and no other exists.
abbrev pub no_thread : Thread
no_thread = record {
  priority = 0;
  state = ThreadState.suspended;
  saved_critical_section_count = 0;
  remaining_quantum = pos 0;
  blocking_wait_queue = none;
  wait_queue_block_ret = no_error;
}

unfoldable pub thread_init_early : Kernel
thread_init_early = record {
  threads =
      update (λ t. no_thread) 0
        (record no_thread {
          priority = 31;
          state = ThreadState.running;
          saved_critical_section_count = 1;
        });
  current_thread = 0;
  idle_thread = none;
  critical_section_count = 1;
  run_queue = λ p. [];
  run_queue_bitmap = λ p. false;
  wait_queues = λ w. record { list = []; count = 0 };
  alarms = [];
}

-- `thread_create`, where `t` is the place that `malloc` gives
unfoldable pub thread_create : ℕ → ℕ → Kernel → Kernel
thread_create t priority k =
    set_thread t (record no_thread { priority = priority; saved_critical_section_count = 1 }) k
