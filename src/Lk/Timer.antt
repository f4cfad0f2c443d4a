-- ===== src/Lk/Timer.antt =====
-- The timer queue of bootable/lk/kernel/timer.c, with a fixed periodic tick
-- (PLATFORM_HAS_DYNAMIC_TIMER unset).
--
-- A timer is its place in a list of timer objects, and the queue is the list of places: a timer is
-- in a list exactly when its place is in the queue. Times are 32-bit words. `magic` and its
-- assertions are left out.
pub mod Order
pub mod Tick
pub mod Unique
use android4_4_4_r.Prelude.{
  ℕ, zero, suc, ◌+◌, ◌-◌, ◌%◌, ◌^◌, List, [], ◌∷◌, get_or, set, Bool, true, false, not, ◌&&◌, ◌||◌,
  Option, none, some, ltb, leb, ◌==◌, if◌then◌else◌,
}

-- `a - b` of two words
abbrev pub sub_word : ℕ → ℕ → ℕ
sub_word a b = (a + 2 ^ 32 - b) % 2 ^ 32

-- `TIME_GT` and `TIME_LT`: the sign of the difference, taken as a `long`
abbrev pub time_gt : ℕ → ℕ → Bool
time_gt a b = ltb 0 (sub_word a b) && ltb (sub_word a b) (2 ^ 31)

abbrev pub time_lt : ℕ → ℕ → Bool
time_lt a b = leb (2 ^ 31) (sub_word a b)

-- `callback` is `none` for a null pointer.
pub record Timer : Type 0 where
  pub scheduled_time : ℕ
  pub periodic_time : ℕ
  pub callback : Option ℕ
  pub arg : ℕ

-- `timer_initialize`
abbrev pub initialized : Timer
initialized = record { scheduled_time = 0; periodic_time = 0; callback = none; arg = 0 }

pub record Timers : Type 0 where
  pub timers : List Timer
  pub queue : List ℕ

abbrev pub timer_at : List Timer → ℕ → Timer
timer_at timers i = get_or timers i initialized

-- `list_in_list`
unfoldable pub in_list : ℕ → List ℕ → Bool
in_list i [] = false
in_list i (j ∷ queue) = i == j || in_list i queue

-- `list_delete`
unfoldable pub list_delete : ℕ → List ℕ → List ℕ
list_delete i [] = []
list_delete i (j ∷ queue) = let rest = list_delete i queue in if i == j then queue else j ∷ rest

unfoldable pub insert_timer_in_queue : List Timer → ℕ → List ℕ → List ℕ
insert_timer_in_queue timers i [] = i ∷ []
insert_timer_in_queue timers i (entry ∷ queue) =
    let rest = insert_timer_in_queue timers i queue in
    if time_gt (timer_at timers entry).scheduled_time (timer_at timers i).scheduled_time
    then i ∷ entry ∷ queue
    else entry ∷ rest

-- `none` is the panic of a timer that is in the list; `now` is `current_time()`
unfoldable pub timer_set : Timers → ℕ → ℕ → ℕ → ℕ → ℕ → ℕ → Option Timers
unfolding in_list insert_timer_in_queue
timer_set st i delay period callback arg now =
    let timers = set st.timers i (record {
      scheduled_time = (now + delay) % 2 ^ 32;
      periodic_time = period;
      callback = some callback;
      arg = arg;
    }) in
    if in_list i st.queue
    then none
    else some (record { timers = timers; queue = insert_timer_in_queue timers i st.queue })

abbrev pub timer_set_oneshot : Timers → ℕ → ℕ → ℕ → ℕ → ℕ → Option Timers
timer_set_oneshot st i delay callback arg now =
    timer_set st i (if delay == 0 then 1 else delay) 0 callback arg now

abbrev pub timer_set_periodic : Timers → ℕ → ℕ → ℕ → ℕ → ℕ → Option Timers
timer_set_periodic st i period0 callback arg now =
    let period = if period0 == 0 then 1 else period0 in
    timer_set st i period period callback arg now

unfoldable pub timer_cancel : Timers → ℕ → Timers
unfolding in_list list_delete
timer_cancel st i = record {
  timers =
      set st.timers i
        (record (timer_at st.timers i) { periodic_time = 0; callback = none; arg = 0 });
  queue = if in_list i st.queue then list_delete i st.queue else st.queue;
}

-- back in the queue after the callback, if it was periodic, still is, and is not in the list
unfoldable pub requeue : ℕ → ℕ → Bool → Timers → Timers
unfolding in_list insert_timer_in_queue
requeue now i periodic st =
    let timer = timer_at st.timers i in
    let timers =
      set st.timers i (record timer { scheduled_time = (now + timer.periodic_time) % 2 ^ 32 }) in
    if periodic && not (in_list i st.queue) && ltb 0 timer.periodic_time
    then record { timers = timers; queue = insert_timer_in_queue timers i st.queue }
    else st

-- The loop of `timer_tick`. `call i now st` is what the callback of timer `i` makes of the timers.
-- The result has the timers fired, in order; it is `none` when the fuel, one round for each timer
-- fired and one more, runs out.
module _ (call : ℕ → ℕ → Timers → Timers) where
  unfoldable pub timer_tick : ℕ → ℕ → Timers → Option (Timers × List ℕ)
  unfolding requeue
  timer_tick zero now st = none
  timer_tick (suc fuel) now st = elim st.queue [
    | [] ↦ some (st, [])
    | i ∷ queue ↦
        let timer = timer_at st.timers i in
        let fired =
          requeue now i (ltb 0 timer.periodic_time) (call i now (record st { queue = queue })) in
        elim (time_lt now timer.scheduled_time) [
          | true ↦ some (st, [])
          | false ↦ elim (timer_tick fuel now fired) [ none ↦ none | some r ↦ some (r.0, i ∷ r.1) ]
        ]
  ]
