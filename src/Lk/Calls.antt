-- ===== src/Lk/Calls.antt =====
-- Sequences of calls of bootable/lk/kernel/thread.c, by whatever thread runs.
pub mod Kept
pub mod Sound
use android4_4_4_r.Prelude.{
  ℕ, ◌<◌, ◌≡◌, ◌≢◌, List, [], ◌∷◌, Bool, true, false, Option, none, some, ℤ,
}
use android4_4_4_r.Lk.Thread.{
  ThreadState, Status, Kernel, thread_yield, thread_preempt, thread_timer_tick, thread_sleep,
  wake_sleeper, thread_resume, thread_set_priority, thread_create, thread_become_idle,
}
use android4_4_4_r.Lk.Thread.Invariant.{is_ready}
use android4_4_4_r.Lk.Wait.{
  wait_queue_block, wait_queue_wake_one, wait_queue_wake_all, thread_unblock_from_wait_queue,
  time_out,
}

-- `awake t` is the end of a sleep, `expire t` that of a wait with a timeout. `unblock` stands for
-- `thread_unblock_from_wait_queue` without a reschedule.
pub data Call : Type 0 where
  yield preempt tick become_idle : Call
  sleep : ℕ → Call
  awake : ℕ → Call
  resume : ℕ → Call
  set_priority : ℤ → Call
  create : ℕ → ℕ → Call
  block : ℕ → ℕ → Call
  wake_one : ℕ → Bool → Status → Call
  wake_all : ℕ → Bool → Status → Call
  unblock : ℕ → Status → Call
  expire : ℕ → Call

abbrev pub kernel_of : {A : Type 0} → Option (Kernel × A) → Option Kernel
kernel_of none = none
kernel_of (some (k, a)) = some k

unfoldable pub perform : Call → Kernel → Option Kernel
perform yield k = thread_yield k
perform preempt k = thread_preempt k
perform tick k = some (thread_timer_tick k).0
perform (sleep delay) k = thread_sleep delay k
perform (awake t) k = some (wake_sleeper t k)
perform (resume t) k = kernel_of (thread_resume t k)
perform (set_priority p) k = some (thread_set_priority p k)
perform (create t p) k = some (thread_create t p k)
perform (block w timeout) k = kernel_of (wait_queue_block w timeout k)
perform (wake_one w r e) k = kernel_of (wait_queue_wake_one w r e k)
perform (wake_all w r e) k = kernel_of (wait_queue_wake_all w r e k)
perform (unblock t e) k = kernel_of (thread_unblock_from_wait_queue t false e k)
perform (expire t) k = kernel_of (time_out t k)
perform become_idle k = some (thread_become_idle k)

-- A thread gives the cpu away only where another is ready, as the idle thread is. A thread that is
-- resumed neither sleeps nor waits nor is dead; a place for a new thread is not in use.
abbrev pub IsAllowed : Call → Kernel → Type 0
IsAllowed (sleep delay) k = (u : ℕ) × (is_ready (k.threads u) ≡ true)
IsAllowed (awake t) k = (k.threads t).state ≡ ThreadState.sleeping
IsAllowed (resume t) k =
    ((k.threads t).state ≢ ThreadState.blocked)
    × ((k.threads t).state ≢ ThreadState.sleeping)
    × ((k.threads t).state ≢ ThreadState.death)
IsAllowed (create t p) k = ((k.threads t).state ≡ ThreadState.suspended) × (p < 32)
IsAllowed (block w timeout) k = (u : ℕ) × (is_ready (k.threads u) ≡ true)
IsAllowed _ k = Unit

unfoldable pub perform_all : List Call → Kernel → Option Kernel
perform_all [] k = some k
perform_all (c ∷ cs) k = elim (perform c k) [ none ↦ none | some k' ↦ perform_all cs k' ]

-- Each call is allowed when it is made.
abbrev pub AllAllowed : List Call → Kernel → Type 0
AllAllowed [] k = Unit
AllAllowed (c ∷ cs) k = IsAllowed c k × ((k' : Kernel) → perform c k ≡ some k' → AllAllowed cs k')
