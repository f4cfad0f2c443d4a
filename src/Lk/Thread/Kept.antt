-- ===== src/Lk/Thread/Kept.antt =====
-- The scheduler keeps its data consistent.
use android4_4_4_r.Prelude.{
  ℕ, ◌+◌, ◌-◌, ◌≡◌, arith, List, [], ◌∷◌, true, false, Bool-cases, inl, inr, refl, ◌==◌, Option,
  some, elem, elem-append, append-IsNodup,
}
use android4_4_4_r.Lk.Thread.{
  ThreadState, Alarm, Kernel, set_state, enter_critical_section, exit_critical_section,
  insert_in_run_queue_head, insert_in_run_queue_tail, switch_to, thread_resched, exit_if_back,
  resched_and_exit,
}
use android4_4_4_r.Lk.Thread.Choice.{thread_resched-IsHighest}
use android4_4_4_r.Lk.Thread.Invariant.{
  is_ready, is_running, is_blocked, waits_on, IsConsistent, IsRunning, IsVacant,
}

-- A thread that is neither ready nor in a wait queue is made ready and put at the head.
pub ready_head-IsConsistent :
    (t : ℕ) (k : Kernel)
    → is_ready (k.threads t) ≡ false
    → ((w : ℕ) → waits_on w (k.threads t) ≡ false)
    → IsConsistent k
    → IsConsistent (insert_in_run_queue_head t (set_state t ThreadState.ready k))
unfolding insert_in_run_queue_head is_ready waits_on is_blocked elem
ready_head-IsConsistent t k r w h = record {
  queued = λ p u. ground (arith, h.queued p u, h.queued p t);
  bits = λ p. ground (arith, h.bits p);
  once = λ p. ground (arith, h.once p, h.queued p t);
  priorities = λ u. ground (arith, h.priorities u);
  waiting = λ v u. ground (arith, h.waiting v u, w v);
  waits_once = h.waits_once;
  targets = λ u. ground (arith, h.targets u);
  counts = h.counts;
}

pub ready_tail-IsConsistent :
    (t : ℕ) (k : Kernel)
    → is_ready (k.threads t) ≡ false
    → ((w : ℕ) → waits_on w (k.threads t) ≡ false)
    → IsConsistent k
    → IsConsistent (insert_in_run_queue_tail t (set_state t ThreadState.ready k))
unfolding insert_in_run_queue_tail is_ready waits_on is_blocked elem
ready_tail-IsConsistent t k r w h = record {
  queued =
      λ p u. ground (arith, h.queued p u, h.queued p t, elem-append u (k.run_queue p) (t ∷ []));
  bits = λ p. ground (arith, h.bits p);
  once = λ p. ground (arith, h.once p, h.queued p t, append-IsNodup (k.run_queue p) t);
  priorities = λ u. ground (arith, h.priorities u);
  waiting = λ v u. ground (arith, h.waiting v u, w v);
  waits_once = h.waits_once;
  targets = λ u. ground (arith, h.targets u);
  counts = h.counts;
}

switch_to-wait_queues :
    (p t : ℕ) (rest : List ℕ) (k : Kernel) (w : ℕ)
    → (switch_to p t rest k).wait_queues w ≡ k.wait_queues w
unfolding switch_to
switch_to-wait_queues p t rest k w = ground arith

switch_to-IsConsistent :
    (p t : ℕ) (rest : List ℕ) (k : Kernel)
    → k.run_queue p ≡ t ∷ rest
    → IsVacant k
    → IsConsistent k
    → IsConsistent (switch_to p t rest k)
unfolding switch_to is_ready is_running waits_on is_blocked elem
switch_to-IsConsistent p t rest k e v h = record {
  queued = λ q u. ground (arith, h.queued q u, h.queued p t, h.queued p u, h.once p);
  bits = λ q. ground (arith, h.bits q);
  once = λ q. ground (arith, h.once q, h.once p);
  priorities = λ u. ground (arith, h.priorities u);
  waiting = λ w u. ground (arith, h.waiting w u, h.waiting w t, h.queued p t);
  waits_once = λ w. rw (switch_to-wait_queues p t rest k w) (h.waits_once w);
  targets = λ u. ground (arith, h.targets u);
  counts = λ w. rw (switch_to-wait_queues p t rest k w) (h.counts w);
}

switch_to-IsRunning :
    (p t : ℕ) (rest : List ℕ) (k : Kernel) → IsVacant k → IsRunning (switch_to p t rest k)
unfolding switch_to is_running
switch_to-IsRunning p t rest k v u = ground (arith, v u)

-- The counters of critical sections and the alarms have no part in it.
pub record-IsConsistent :
    (k : Kernel) (n : ℕ) (alarms : List Alarm)
    → IsConsistent k
    → IsConsistent (record k { critical_section_count = n; alarms = alarms })
record-IsConsistent k n alarms h = record {
  queued = h.queued;
  bits = h.bits;
  once = h.once;
  priorities = h.priorities;
  waiting = h.waiting;
  waits_once = h.waits_once;
  targets = h.targets;
  counts = h.counts;
}

-- The state between two operations.
abbrev pub IsSound : Kernel → Type 0
IsSound k = IsConsistent k × IsRunning k

pub enter-IsSound : (k : Kernel) → IsSound k → IsSound (enter_critical_section k)
enter-IsSound k s = (record-IsConsistent k (k.critical_section_count + 1) k.alarms s.0, s.1)

pub exit-IsSound : (k : Kernel) → IsSound k → IsSound (exit_critical_section k)
exit-IsSound k s = (record-IsConsistent k (k.critical_section_count - 1) k.alarms s.0, s.1)

abbrev pub Gives : Option Kernel → Type 0
Gives o = (k : Kernel) × (o ≡ some k) × IsSound k

-- The scheduler finds a thread wherever one is ready.
pub thread_resched-IsSound :
    (k : Kernel) (u : ℕ)
    → is_ready (k.threads u) ≡ true
    → IsConsistent k
    → IsVacant k
    → Gives (thread_resched k)
thread_resched-IsSound k u ready h v =
    let (t, rest, found) = thread_resched-IsHighest k u h ready in
    let (e, q, r, highest) = found in
    let p = (k.threads t).priority in
    (
      switch_to p t rest k,
      e,
      (switch_to-IsConsistent p t rest k q v h, switch_to-IsRunning p t rest k v),
    )

pub exit_if_back-IsSound : (t : ℕ) (k : Kernel) → IsSound k → IsSound (exit_if_back t k)
exit_if_back-IsSound t k s = elim (Bool-cases (k.current_thread == t)) [
  | inl e ↦ rw e (exit-IsSound k s)
  | inr e ↦ rw e s
]

pub resched_and_exit-IsSound :
    (k : Kernel) (u : ℕ)
    → is_ready (k.threads u) ≡ true
    → IsConsistent k
    → IsVacant k
    → Gives (resched_and_exit k)
unfolding resched_and_exit
resched_and_exit-IsSound k u ready h v =
    let (k', e, s) = thread_resched-IsSound k u ready h v in
    (
      exit_if_back k.current_thread k',
      rw (resched_and_exit, e) refl,
      exit_if_back-IsSound k.current_thread k' s,
    )
