-- ===== src/Tests/Mutex.antt =====
-- A mutex and three threads: bootable/lk/kernel/mutex.c.
use android4_4_4_r.Prelude.{
  Any, ◌≡◌, [], ◌∷◌, arith, refl, ◌⊎◌, some, false, pos, is_positive, pred,
}
use android4_4_4_r.Lk.Mutex.{Mutex, new_mutex, mutex_acquire, mutex_release, mutex_destroy}
use android4_4_4_r.Lk.Thread.{err_object_destroyed}
use android4_4_4_r.Lk.Mutex.Steps.{Step, acquire, Reach, start, later}
use android4_4_4_r.Lk.Mutex.Exclusion.{Step-holder}
use android4_4_4_r.Lk.Mutex.Stuck.{IsStuck, Steps, here, further}
use android4_4_4_r.Lk.Mutex.Race.{race, race-IsStuck, left_alone}

-- held by thread 3
abbrev taken : Mutex
taken = record new_mutex { count = pos 1; holder = some 3 }

-- thread 4 waits for it
abbrev asked : Mutex
asked = record taken { count = pos 2; wait = record { thread = 4; timed = false } ∷ [] }

taken-Reach : Reach taken
unfolding mutex_acquire is_positive pred
taken-Reach = later new_mutex taken (start new_mutex refl) (acquire 3 refl)

taken_asked : Step taken asked
unfolding mutex_acquire is_positive pred
taken_asked = acquire 4 refl

Step-holder_example : (asked.holder ≡ some 3) ⊎ (mutex_release 3 taken ≡ some asked)
Step-holder_example = Step-holder taken asked 3 taken-Reach refl taken_asked

-- thread 6 asks, too
abbrev asked_again : Mutex
asked_again = record (left_alone 5) {
  count = pos 2;
  wait = record { thread = 5; timed = false } ∷ record { thread = 6; timed = false } ∷ [];
}

once_more : Steps (left_alone 5) asked_again
unfolding mutex_acquire is_positive pred
once_more = further (left_alone 5) asked_again (here _ refl) (acquire 6 refl)

race-IsStuck_example :
    (race 3 4 5 10 ≡ some (left_alone 5))
    × IsStuck 5 asked_again
    × Any
        (λ p. (p.waiter.thread ≡ 5) × (p.ret ≡ err_object_destroyed))
        (mutex_destroy asked_again).pending
race-IsStuck_example =
    race-IsStuck 3 4 5 10 asked_again (ground arith) (omega arith) (ground arith) once_more
