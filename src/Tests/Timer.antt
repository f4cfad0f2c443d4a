-- ===== src/Tests/Timer.antt =====
-- The timer queue, around the point where the clock wraps: bootable/lk/kernel/timer.c.
use android4_4_4_r.Prelude.{
  ℕ, ◌≤◌, ◌<◌, ◌≡◌, List, [], ◌∷◌, ◌++◌, All, arith, refl, some, true, false,
}
use android4_4_4_r.Lk.Timer.{
  timer_cancel, requeue, Timer, Timers, initialized, insert_timer_in_queue, timer_tick,
  timer_set_oneshot, in_list, timer_set,
}
use android4_4_4_r.Lk.Timer.Order.{due, ahead, IsOrdered, insert_timer_in_queue-IsOrdered}
use android4_4_4_r.Lk.Timer.Unique.{IsUnique, timer_cancel-IsUnique}
use android4_4_4_r.Lk.Timer.Tick.{quiet, timer_tick-due}

-- ten ticks before the clock wraps
abbrev base : ℕ
base = 4294967286

abbrev at : ℕ → Timer
at time = record initialized { scheduled_time = time; callback = some 1 }

-- 5, 15 and 10 ticks ahead
abbrev three : List Timer
three = at 4294967291 ∷ at 5 ∷ at 0 ∷ []

between : insert_timer_in_queue three 2 (0 ∷ 1 ∷ []) ≡ 0 ∷ 2 ∷ 1 ∷ []
unfolding insert_timer_in_queue
between = refl

armed :
    timer_set_oneshot (record { timers = at 7 ∷ []; queue = [] }) 0 0 9 3 4294967295
    ≡ some (record {
      timers = record { scheduled_time = 0; periodic_time = 0; callback = some 9; arg = 3 } ∷ [];
      queue = 0 ∷ [];
    })
unfolding timer_set in_list insert_timer_in_queue
armed = refl

insert_timer_in_queue-IsOrdered_example :
    (before : List ℕ) × (after : List ℕ) × ((0 ∷ 1 ∷ []) ≡ before ++ after)
    × (insert_timer_in_queue three 2 (0 ∷ 1 ∷ []) ≡ before ++ 2 ∷ after)
    × All (λ j. due base three j ≤ due base three 2) before
    × All (λ j. due base three 2 < due base three j) after
    × IsOrdered base three (insert_timer_in_queue three 2 (0 ∷ 1 ∷ []))
insert_timer_in_queue-IsOrdered_example =
    insert_timer_in_queue-IsOrdered base three 2 (0 ∷ 1 ∷ []) (ground arith) (ground arith)
      (ground arith) (ground arith)

timer_tick-due_example :
    (fired : List ℕ) × (left : List ℕ) × (timer_tick quiet 4 2
        (record { timers = three; queue = 0 ∷ 2 ∷ 1 ∷ [] })
      ≡ some (record { timers = three; queue = left }, fired))
    × ((0 ∷ 2 ∷ 1 ∷ []) ≡ fired ++ left)
    × All (λ i. due base three i ≤ ahead base 2) fired
    × All (λ i. ahead base 2 < due base three i) left
timer_tick-due_example =
    timer_tick-due base three 2 4 (0 ∷ 2 ∷ 1 ∷ []) (ground arith) (ground arith) (ground arith)
      (ground arith) (ground arith) (ground arith) (ground arith)

abbrev ready : Timers
ready = record { timers = three; queue = 0 ∷ 1 ∷ [] }

two : in_list 0 (1 ∷ []) ≡ false
unfolding in_list
two = refl

alone : in_list 1 [] ≡ false
unfolding in_list
alone = refl

timer_cancel-IsUnique_example :
    ((st' : Timers)
      → timer_set ready 2 7 7 1 0 4294967290 ≡ some st'
      → IsUnique st'.queue × (in_list 2 st'.queue ≡ true))
    × IsUnique (timer_cancel ready 2).queue
    × (in_list 2 (timer_cancel ready 2).queue ≡ false)
    × (requeue 4294967290 2 true (timer_cancel ready 2) ≡ timer_cancel ready 2)
timer_cancel-IsUnique_example = timer_cancel-IsUnique ready 2 7 7 1 0 4294967290 (two, (alone, tt))
