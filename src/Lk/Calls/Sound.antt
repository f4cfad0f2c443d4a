-- ===== src/Lk/Calls/Sound.antt =====
-- Every allowed sequence of calls comes to an end, in a sound state.
use android4_4_4_r.Prelude.{
  ℕ, ◌<◌, ◌≡◌, inl, inr, refl, ap, arith, List, [], ◌∷◌, Option, if◌then◌else◌, elem, ltb, ℤ, pos,
  negsuc, not, is_negative,
}
use android4_4_4_r.Lk.Thread.{
  ThreadState, no_error, err_not_suspended, Kernel, current, set_thread, set_state,
  enter_critical_section, insert_in_run_queue_head, wake_sleeper, thread_resume, exit_if_back,
  thread_set_priority, thread_create, thread_init_early, thread_become_idle, err_timed_out,
}
use android4_4_4_r.Lk.Thread.Invariant.{is_ready, is_running, is_blocked, waits_on}
use android4_4_4_r.Lk.Thread.Kept.{IsSound, Gives, enter-IsSound, exit_if_back-IsSound}
use android4_4_4_r.Lk.Wait.Sound.{
  Returns, wait_queue_block-IsSound, wait_queue_wake_one-IsSound, wait_queue_wake_all-IsSound,
  thread_unblock_from_wait_queue-IsSound,
}
use android4_4_4_r.Lk.Wait.{time_out}
use android4_4_4_r.Lk.Calls.{
  Call, yield, preempt, tick, sleep, awake, resume, set_priority, create, block, wake_one, wake_all,
  expire, unblock, become_idle, kernel_of, perform, IsAllowed, perform_all, AllAllowed,
}
use android4_4_4_r.Lk.Calls.Kept.{
  tick-IsSound, sleep-IsSound, yield-IsSound, preempt-IsSound, ready-IsSound,
}

kernel_of-IsSound : {A : Type 0} (o : Option (Kernel × A)) → Returns o → Gives (kernel_of o)
kernel_of-IsSound o (k, a, e, s) = (k, ap kernel_of e, s)

-- by the state that the thread is in
resume-IsSound :
    (t : ℕ) (k : Kernel) (state : ThreadState)
    → (k.threads t).state ≡ state
    → IsAllowed (resume t) k
    → IsSound k
    → Returns (thread_resume t k)
unfolding thread_resume insert_in_run_queue_head
resume-IsSound t k ThreadState.ready e ok s = (k, err_not_suspended, rw (thread_resume, e) refl, s)
resume-IsSound t k ThreadState.running e ok s =
    (k, err_not_suspended, rw (thread_resume, e) refl, s)
resume-IsSound t k ThreadState.blocked e ok s = absurd (ok.0 e)
resume-IsSound t k ThreadState.sleeping e ok s = absurd (ok.1 e)
resume-IsSound t k ThreadState.death e ok s = absurd (ok.2 e)
resume-IsSound t k ThreadState.suspended e ok s =
    let k1 = enter_critical_section k in
    let (k', e', s') =
      yield-IsSound (insert_in_run_queue_head t (set_state t ThreadState.ready k1))
        (ready-IsSound t k1 (inl e) (enter-IsSound k s)) in
    (
      exit_if_back k.current_thread k',
      no_error,
      rw (thread_resume, e) (rw e' refl),
      exit_if_back-IsSound k.current_thread k' s',
    )

-- the clamped priority
with_priority-IsSound :
    (p : ℕ) (k : Kernel)
    → p < 32
    → IsSound k
    → IsSound (set_thread k.current_thread (record (current k) { priority = p }) k)
unfolding is_ready is_running is_blocked waits_on
with_priority-IsSound p k lt s =
    let h = s.0 in
    let r = s.1 k.current_thread in
    (
      record {
        queued = λ q u. ground (arith, h.queued q u, r);
        bits = h.bits;
        once = h.once;
        priorities = λ u. ground (arith, h.priorities u);
        waiting = λ w u. ground (arith, h.waiting w u, r);
        waits_once = h.waits_once;
        targets = λ u. ground (arith, h.targets u);
        counts = h.counts;
      },
      λ u. ground (arith, s.1 u),
    )

set_priority-IsSound : (p : ℤ) (k : Kernel) → IsSound k → IsSound (thread_set_priority p k)
unfolding thread_set_priority
set_priority-IsSound (pos n) k s =
    with_priority-IsSound (if ltb 31 n then 31 else n) k (ground arith) s
set_priority-IsSound (negsuc n) k s = with_priority-IsSound 0 k (ground arith) s

become_idle-IsSound : (k : Kernel) → IsSound k → IsSound (thread_become_idle k)
unfolding thread_become_idle thread_set_priority
become_idle-IsSound k s =
    let (h, r) = with_priority-IsSound 0 k (ground arith) s in
    (
      record {
        queued = h.queued;
        bits = h.bits;
        once = h.once;
        priorities = h.priorities;
        waiting = h.waiting;
        waits_once = h.waits_once;
        targets = h.targets;
        counts = h.counts;
      },
      r,
    )

time_out-IsSound : (t : ℕ) (k : Kernel) → IsSound k → Returns (time_out t k)
unfolding time_out is_negative
time_out-IsSound t k s =
    let (k', a, e, s') = thread_unblock_from_wait_queue-IsSound t err_timed_out k s in
    (k', not (is_negative a), rw (time_out, e) refl, s')

create-IsSound :
    (t p : ℕ) (k : Kernel) → IsAllowed (create t p) k → IsSound k → IsSound (thread_create t p k)
unfolding thread_create is_ready is_running is_blocked waits_on
create-IsSound t p k ok s =
    let h = s.0 in
    (
      record {
        queued = λ q u. ground (arith, h.queued q u);
        bits = h.bits;
        once = h.once;
        priorities = λ u. ground (arith, h.priorities u);
        waiting = λ w u. ground (arith, h.waiting w u);
        waits_once = h.waits_once;
        targets = λ u. ground (arith, h.targets u);
        counts = h.counts;
      },
      λ u. ground (arith, s.1 u),
    )

perform-IsSound : (c : Call) (k : Kernel) → IsAllowed c k → IsSound k → Gives (perform c k)
unfolding perform wake_sleeper
perform-IsSound yield k ok s = yield-IsSound k s
perform-IsSound preempt k ok s = preempt-IsSound k s
perform-IsSound tick k ok s = (_, refl, tick-IsSound k s)
perform-IsSound (sleep delay) k ok s = sleep-IsSound delay ok.0 k ok.1 s
perform-IsSound (awake t) k ok s = (_, refl, ready-IsSound t k (inr ok) s)
perform-IsSound (resume t) k ok s =
    kernel_of-IsSound _ (resume-IsSound t k (k.threads t).state refl ok s)
perform-IsSound (set_priority p) k ok s = (_, refl, set_priority-IsSound p k s)
perform-IsSound (create t p) k ok s = (_, refl, create-IsSound t p k ok s)
perform-IsSound (block w timeout) k ok s =
    kernel_of-IsSound _ (wait_queue_block-IsSound w timeout ok.0 k ok.1 s)
perform-IsSound (wake_one w r e) k ok s =
    kernel_of-IsSound _ (wait_queue_wake_one-IsSound w r e k s)
perform-IsSound (wake_all w r e) k ok s =
    kernel_of-IsSound _ (wait_queue_wake_all-IsSound w r e k s)
perform-IsSound (unblock t e) k ok s =
    kernel_of-IsSound _ (thread_unblock_from_wait_queue-IsSound t e k s)
perform-IsSound (expire t) k ok s = kernel_of-IsSound _ (time_out-IsSound t k s)
perform-IsSound become_idle k ok s = (_, refl, become_idle-IsSound k s)

-- From a sound state every sequence of calls, each allowed when it is made, comes to an end in a
-- sound state: the scheduler always finds a thread, the current thread and no other runs, and the
-- run queues, their bitmap, the wait queues and their counts agree with the states of the threads.
pub perform_all-IsSound :
    (cs : List Call) (k : Kernel) → AllAllowed cs k → IsSound k → Gives (perform_all cs k)
unfolding perform_all
perform_all-IsSound [] k ok s = (k, refl, s)
perform_all-IsSound (c ∷ cs) k ok s =
    let (k1, e1, s1) = perform-IsSound c k ok.0 s in
    let (k', e', s') = perform_all-IsSound cs k1 (ok.1 k1 e1) s1 in
    (k', rw (perform_all, e1) e', s')

-- The kernel that `thread_init_early` sets up is sound.
pub thread_init_early-IsSound : IsSound thread_init_early
unfolding thread_init_early is_ready is_running is_blocked waits_on elem
thread_init_early-IsSound = (
  record {
    queued = λ q u. ground arith;
    bits = λ p. refl;
    once = λ p. tt;
    priorities = λ u. ground arith;
    waiting = λ w u. ground arith;
    waits_once = λ w. tt;
    targets = λ u. ground arith;
    counts = λ w. refl;
  },
  λ u. ground arith,
)
