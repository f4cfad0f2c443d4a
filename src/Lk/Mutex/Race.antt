-- ===== src/Lk/Mutex/Race.antt =====
-- How a thread comes to wait for a free mutex.
use android4_4_4_r.Prelude.{
  ◌≡◌, Any, inr, ◌++◌, List, Option, ℕ, ◌<◌, ◌≢◌, [], ◌∷◌, refl, arith, inl, true, false, none,
  some, pos, is_positive, pred,
}
use android4_4_4_r.Lk.Thread.{err_timed_out, err_object_destroyed}
use android4_4_4_r.Lk.Wait.{infinite_time}
use android4_4_4_r.Lk.Mutex.{
  acquire_timeout_return, Mutex, new_mutex, next, mutex_acquire, mutex_acquire_timeout,
  mutex_release, wake_one, return_to, wake_all, mutex_destroy, Waiter, Pending,
}
use android4_4_4_r.Lk.Mutex.Steps.{
  acquire, acquire_timeout, release, expire, run, Reach, start, later, granted,
}
use android4_4_4_r.Lk.Mutex.Stuck.{Steps, Steps-IsStuck, IsStuck}

-- `a` holds the mutex and `b` waits for it
abbrev waited : ℕ → ℕ → Mutex
waited a b = record {
  count = pos 2;
  holder = some a;
  wait = record { thread = b; timed = true } ∷ [];
  pending = [];
}

-- `b` has timed out
abbrev expired : ℕ → ℕ → Mutex
expired a b = record {
  count = pos 2;
  holder = some a;
  wait = [];
  pending = record { waiter = record { thread = b; timed = true }; ret = err_timed_out } ∷ [];
}

waited-Reach :
    (a b timeout : ℕ) → a ≢ b → 0 < timeout → timeout < infinite_time → Reach (waited a b)
unfolding mutex_acquire mutex_acquire_timeout next pred is_positive
waited-Reach a b timeout n p q =
    later (record new_mutex { count = pos 1; holder = some a }) (waited a b)
      (later new_mutex _ (start new_mutex refl) (acquire a refl))
      (acquire_timeout b timeout (ground arith))

expired-Reach :
    (a b timeout : ℕ) → a ≢ b → 0 < timeout → timeout < infinite_time → Reach (expired a b)
expired-Reach a b timeout n p q =
    later (waited a b) (expired a b) (waited-Reach a b timeout n p q)
      (expire [] [] (record { thread = b; timed = true }) refl refl refl)

-- `a` has released the mutex, and `t` has called `mutex_acquire`
abbrev missed_by : ℕ → ℕ → Mutex
missed_by b t = record {
  count = pos 2;
  holder = none;
  wait = record { thread = t; timed = false } ∷ [];
  pending = record { waiter = record { thread = b; timed = true }; ret = err_timed_out } ∷ [];
}

missed_by-Reach :
    (a b t timeout : ℕ) → a ≢ b → 0 < timeout → timeout < infinite_time → Reach (missed_by b t)
unfolding mutex_acquire mutex_release next pred is_positive wake_one
missed_by-Reach a b t timeout n p q =
    later (record (expired a b) { count = pos 1; holder = none }) (missed_by b t)
      (later (expired a b) _ (expired-Reach a b timeout n p q) (release a (ground arith)))
      (acquire t refl)

-- `t` is left alone with the mutex
abbrev pub left_alone : ℕ → Mutex
left_alone t = record {
  count = pos 1;
  holder = none;
  wait = record { thread = t; timed = false } ∷ [];
  pending = [];
}

left_alone-IsStuck :
    (a b t timeout : ℕ)
    → a ≢ b
    → 0 < timeout
    → timeout < infinite_time
    → Reach (left_alone t) × IsStuck t (left_alone t)
unfolding return_to acquire_timeout_return pred granted
left_alone-IsStuck a b t timeout n p q = (
  later (missed_by b t) (left_alone t) (missed_by-Reach a b t timeout n p q) (
      run [] [] (record { waiter = record { thread = b; timed = true }; ret = err_timed_out }) refl
        refl),
  record { free = refl; missed = refl; waits = inl (refl, refl) },
)

infixl 5 ◌>>=◌
abbrev pub ◌>>=◌ : Option Mutex → (Mutex → Option Mutex) → Option Mutex
none >>= f = none
some m >>= f = f m

-- the timer of the first waiter
abbrev pub expire_first : Mutex → Option Mutex
expire_first m = elim m.wait [
  | [] ↦ none
  | x ∷ rest ↦ some (record m {
    wait = rest;
    pending = m.pending ++ record { waiter = x; ret = err_timed_out } ∷ [];
  })
]

-- the switch to the first thread that is pending
abbrev pub run_first : Mutex → Option Mutex
run_first m = elim m.pending [
  | [] ↦ none
  | p ∷ rest ↦ some (return_to p.waiter p.ret (record m { pending = rest }))
]

-- `a` takes a new mutex, `b` waits for it until its timer expires, `a` releases it, `t` calls
-- `mutex_acquire`, and then `b` runs again.
unfoldable pub race : ℕ → ℕ → ℕ → ℕ → Option Mutex
unfolding mutex_acquire mutex_acquire_timeout mutex_release return_to
race a b t timeout = do
  taken ← mutex_acquire a new_mutex
  asked ← mutex_acquire_timeout b timeout taken
  timed_out ← expire_first asked
  released ← mutex_release a timed_out
  missed ← mutex_acquire t released
  run_first missed

acquire-waited :
    (a b timeout : ℕ)
    → a ≢ b
    → 0 < timeout
    → timeout < infinite_time
    → mutex_acquire_timeout b timeout (record new_mutex { count = pos 1; holder = some a })
      ≡ some (waited a b)
unfolding mutex_acquire_timeout next pred is_positive
acquire-waited a b timeout n p q = ground arith

release-expired :
    (a b : ℕ)
    → mutex_release a (expired a b) ≡ some (record (expired a b) { count = pos 1; holder = none })
unfolding mutex_release pred is_positive wake_one
release-expired a b = ground arith

race-left_alone :
    (a b t timeout : ℕ)
    → a ≢ b
    → 0 < timeout
    → timeout < infinite_time
    → race a b t timeout ≡ some (left_alone t)
unfolding race mutex_acquire next pred is_positive return_to acquire_timeout_return
race-left_alone a b t timeout n p q =
    rw (acquire-waited a b timeout n p q) (rw (release-expired a b) refl)

woken_all :
    (t : ℕ) (xs : List Waiter)
    → Any (λ x. (x.thread ≡ t) × (x.timed ≡ false)) xs
    → Any (λ p. (p.waiter.thread ≡ t) × (p.ret ≡ err_object_destroyed)) (wake_all xs)
unfolding wake_all
woken_all t [] h = absurd h
woken_all t (x ∷ xs) (inl h) = inl (h.0, refl)
woken_all t (x ∷ xs) (inr h) = inr (woken_all t xs h)

woken_behind :
    (t : ℕ) (ps qs : List Pending)
    → Any (λ p. (p.waiter.thread ≡ t) × (p.ret ≡ err_object_destroyed)) qs
    → Any (λ p. (p.waiter.thread ≡ t) × (p.ret ≡ err_object_destroyed)) (ps ++ qs)
woken_behind t [] qs h = h
woken_behind t (p ∷ ps) qs h = inr (woken_behind t ps qs h)

-- A thread `a` takes a new mutex, `b` waits for it until its timer expires, `a` releases the mutex,
-- `t` calls `mutex_acquire`, and only then `b` runs again: none of the calls panics, and
-- after them, and after any number of further calls of `mutex_acquire`,
-- `mutex_acquire_timeout` and `mutex_release`, timeouts and switches, the mutex is free and `t` waits
-- for it. What ends this is `mutex_destroy`, which wakes `t` with ERR_OBJECT_DESTROYED. `a` and `b`
-- differ, the timeout of `b` is neither 0 nor infinite, and `t` is any thread.
pub race-IsStuck :
    (a b t timeout : ℕ) (m : Mutex)
    → a ≢ b
    → 0 < timeout
    → timeout < infinite_time
    → Steps (left_alone t) m
    → (race a b t timeout ≡ some (left_alone t))
      × IsStuck t m
      × Any (λ p. (p.waiter.thread ≡ t) × (p.ret ≡ err_object_destroyed)) (mutex_destroy m).pending
unfolding mutex_destroy
race-IsStuck a b t timeout m n p q s =
    let (r, first) = left_alone-IsStuck a b t timeout n p q in
    let stuck = Steps-IsStuck t (left_alone t) m r first s in
    (
      race-left_alone a b t timeout n p q,
      stuck,
      woken_behind t m.pending (wake_all m.wait) (woken_all t m.wait stuck.waits),
    )
