-- ===== src/Lk/Mutex/Steps.antt =====
-- What can happen to a mutex that is not destroyed, in any order that the scheduler chooses.
use android4_4_4_r.Prelude.{
  ℕ, ◌+◌, ◌≤◌, ◌≡◌, List, [], ◌∷◌, ◌++◌, length, All, ◌⊎◌, true, Option, none, some, if◌then◌else◌,
  pos, is_negative,
}
use android4_4_4_r.Lk.Thread.{no_error, err_timed_out}
use android4_4_4_r.Lk.Mutex.{
  Waiter, Pending, Mutex, new_mutex, mutex_acquire, mutex_acquire_timeout, mutex_release, return_to,
}

-- `expire` is the timer of a waiter with a timeout, `run` the switch to a thread that is pending.
pub data Step (m m' : Mutex) : Type 0 where
  acquire : (t : ℕ) → mutex_acquire t m ≡ some m' → Step m m'
  acquire_timeout : (t timeout : ℕ) → mutex_acquire_timeout t timeout m ≡ some m' → Step m m'
  release : (t : ℕ) → mutex_release t m ≡ some m' → Step m m'
  expire :
      (xs ys : List Waiter) (x : Waiter)
      → m.wait ≡ xs ++ x ∷ ys
      → x.timed ≡ true
      → m' ≡ record m {
        wait = xs ++ ys;
        pending = m.pending ++ record { waiter = x; ret = err_timed_out } ∷ [];
      }
      → Step m m'
  run :
      (xs ys : List Pending) (p : Pending)
      → m.pending ≡ xs ++ p ∷ ys
      → m' ≡ return_to p.waiter p.ret (record m { pending = xs ++ ys })
      → Step m m'

pub data Reach : Mutex → Type 0 where
  start : (m : Mutex) → m ≡ new_mutex → Reach m
  later : (m m' : Mutex) → Reach m → Step m m' → Reach m'

-- how many pending threads have got the mutex
unfoldable pub granted : List Pending → ℕ
granted [] = 0
granted (p ∷ ps) = (if is_negative p.ret then 0 else 1) + granted ps

abbrev pub held : Option ℕ → ℕ
held none = 0
held (some t) = 1

-- A thread that was sent away has the status of a timeout, and came by `mutex_acquire_timeout`.
abbrev pub IsFair : Pending → Type 0
IsFair p = (p.ret ≡ no_error) ⊎ ((p.ret ≡ err_timed_out) × (p.waiter.timed ≡ true))

-- The count is that of all who have asked, and the mutex is held by, or granted to, one at most.
pub record IsExclusive (m : Mutex) : Type 0 where
  pub counted : m.count ≡ pos (held m.holder + length m.wait + length m.pending)
  pub single : held m.holder + granted m.pending ≤ 1
  pub fair : All IsFair m.pending
