-- ===== src/Lk/Thread/Invariant.antt =====
-- What holds of the scheduler's data between operations.
use android4_4_4_r.Prelude.{
  ℕ, ◌<◌, ◌≡◌, ◌≢◌, length, Bool, true, false, not, ◌&&◌, none, some, ◌==◌, is_empty, elem, IsNodup,
}
use android4_4_4_r.Lk.Thread.{ThreadState, Thread, Kernel}

unfoldable pub is_ready : Thread → Bool
is_ready th = elim (th.state) [ ThreadState.ready ↦ true | _ ↦ false ]

unfoldable pub is_running : Thread → Bool
is_running th = elim (th.state) [ ThreadState.running ↦ true | _ ↦ false ]

unfoldable pub is_blocked : Thread → Bool
is_blocked th = elim (th.state) [ ThreadState.blocked ↦ true | _ ↦ false ]

unfoldable pub waits_on : ℕ → Thread → Bool
waits_on w th = elim (th.state) [
  | ThreadState.blocked ↦ elim (th.blocking_wait_queue) [ none ↦ false | some v ↦ v == w ]
  | _ ↦ false
]

-- A thread is in the run queue of its priority exactly if it is ready, and in a wait queue exactly if
-- it is blocked on it, once each; a blocked thread is blocked on some queue; the bits of the bitmap are set for the run queues that are not
-- empty; the counts of the wait queues are right.
pub record IsConsistent (k : Kernel) : Type 0 where
  pub queued :
      (p t : ℕ) → elem t (k.run_queue p) ≡ (is_ready (k.threads t) && (k.threads t).priority == p)
  pub bits : (p : ℕ) → k.run_queue_bitmap p ≡ not (is_empty (k.run_queue p))
  pub once : (p : ℕ) → IsNodup (k.run_queue p)
  pub priorities : (t : ℕ) → (k.threads t).priority < 32
  pub waiting : (w t : ℕ) → elem t (k.wait_queues w).list ≡ waits_on w (k.threads t)
  pub waits_once : (w : ℕ) → IsNodup (k.wait_queues w).list
  pub targets : (t : ℕ) → is_blocked (k.threads t) ≡ true → (k.threads t).blocking_wait_queue ≢ none
  pub counts : (w : ℕ) → (k.wait_queues w).count ≡ length (k.wait_queues w).list

-- Between operations the current thread is the one that runs.
abbrev pub IsRunning : Kernel → Type 0
IsRunning k = (t : ℕ) → is_running (k.threads t) ≡ (k.current_thread == t)

-- When the scheduler is called, none does.
abbrev pub IsVacant : Kernel → Type 0
IsVacant k = (t : ℕ) → is_running (k.threads t) ≡ false
