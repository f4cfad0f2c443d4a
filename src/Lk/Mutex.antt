-- ===== src/Lk/Mutex.antt =====
-- Mutexes: bootable/lk/kernel/mutex.c.
--
-- One mutex with its wait queue. A call that blocks ends in two parts, since the thread runs on only
-- when it is switched to: the part up to `wait_queue_block`, and the part behind it. Between the two
-- the thread waits, and then it is `pending`: taken off the wait queue with a status, and not yet
-- switched to. `none` is a panic.
pub mod Steps
pub mod Exclusion
pub mod Stuck
pub mod Race
use android4_4_4_r.Prelude.{
  ℕ, zero, suc, List, [], ◌∷◌, ◌++◌, Bool, true, false, not, ◌&&◌, Option, none, some, ltb, ◌==◌,
  if◌then◌else◌, ℤ, pos, negsuc, is_positive, is_negative, pred,
}
use android4_4_4_r.Lk.Thread.{Status, no_error, err_timed_out, err_object_destroyed}
use android4_4_4_r.Lk.Wait.{infinite_time}

-- A thread in the wait queue, and whether it came by `mutex_acquire_timeout`.
pub record Waiter : Type 0 where
  pub thread : ℕ
  pub timed : Bool

pub record Pending : Type 0 where
  pub waiter : Waiter
  pub ret : Status

pub record Mutex : Type 0 where
  pub count : ℤ
  pub holder : Option ℕ
  pub wait : List Waiter
  pub pending : List Pending

-- `mutex_init`
abbrev pub new_mutex : Mutex
new_mutex = record { count = pos 0; holder = none; wait = []; pending = [] }

-- `z + 1`
unfoldable pub next : ℤ → ℤ
next (pos n) = pos (suc n)
next (negsuc zero) = pos 0
next (negsuc (suc n)) = negsuc n

-- `current_thread == m->holder`
abbrev pub holds : ℕ → Mutex → Bool
holds t m = elim (m.holder) [ none ↦ false | some h ↦ h == t ]

-- `m->count > 1`
abbrev pub is_taken : ℤ → Bool
is_taken count = is_positive (pred count)

-- the current thread `t` at the end of the wait queue
abbrev pub block : ℕ → Bool → Mutex → Mutex
block t timed m = record m { wait = m.wait ++ record { thread = t; timed = timed } ∷ [] }

-- `mutex_acquire`, until it returns or blocks
unfoldable pub mutex_acquire : ℕ → Mutex → Option Mutex
unfolding next
mutex_acquire t m0 =
    let m = record m0 { count = next m0.count } in
    if holds t m0
    then none
    else if is_taken m.count
    then some (block t false m)
    else some (record m { holder = some t })

-- `mutex_acquire`, behind `wait_queue_block`, which has returned `ret`
unfoldable pub acquire_return : ℕ → Status → Mutex → Mutex
acquire_return t ret m = if is_negative ret then m else record m { holder = some t }

-- `mutex_acquire_timeout`, until it returns or blocks; a timeout of 0 does not block
unfoldable pub mutex_acquire_timeout : ℕ → ℕ → Mutex → Option Mutex
unfolding mutex_acquire next
mutex_acquire_timeout t timeout m0 =
    let m = record m0 { count = next m0.count } in
    if holds t m0
    then none
    else if timeout == infinite_time
    then mutex_acquire t m0
    else if is_taken m.count
    then (if timeout == 0 then some (record m { count = pred m.count }) else some (block t true m))
    else some (record m { holder = some t })

is_timed_out : Status → Bool
is_timed_out (negsuc n) = n == 12
is_timed_out (pos n) = false

-- `mutex_acquire_timeout`, behind `wait_queue_block`
unfoldable pub acquire_timeout_return : ℕ → Status → Mutex → Mutex
unfolding is_timed_out
acquire_timeout_return t ret m =
    if is_timed_out ret then record m { count = pred m.count } else record m { holder = some t }

-- `wait_queue_wake_one(&m->wait, true, NO_ERROR)`
unfoldable pub wake_one : List Waiter → Mutex → Mutex
wake_one [] m = m
wake_one (x ∷ rest) m = record m {
  wait = rest;
  pending = m.pending ++ record { waiter = x; ret = no_error } ∷ [];
}

unfoldable pub mutex_release : ℕ → Mutex → Option Mutex
unfolding wake_one
mutex_release t m0 =
    let m = record m0 { holder = none; count = pred m0.count } in
    if not (holds t m0)
    then none
    else if is_positive m.count
    then some (wake_one m.wait m)
    else some m

-- `wait_queue_wake_all` by a destroyed mutex
unfoldable pub wake_all : List Waiter → List Pending
wake_all [] = []
wake_all (x ∷ rest) = record { waiter = x; ret = err_object_destroyed } ∷ wake_all rest

unfoldable pub mutex_destroy : Mutex → Mutex
unfolding wake_all
mutex_destroy m = record m { count = pos 0; wait = []; pending = m.pending ++ wake_all m.wait }

-- the rest of the call by which the waiter came
unfoldable pub return_to : Waiter → Status → Mutex → Mutex
unfolding acquire_return acquire_timeout_return
return_to x ret m =
    if x.timed then acquire_timeout_return x.thread ret m else acquire_return x.thread ret m
