-- ===== src/Lk/Timer/Unique.antt =====
-- A timer stands in the queue once, and a cancelled timer not at all.
use android4_4_4_r.Prelude.{
  ℕ, ◌%◌, ◌^◌, set, zero, suc, ◌+◌, ◌≡◌, List, [], ◌∷◌, arith, Bool, true, false, ◌||◌, none, some,
  ◌==◌, refl,
}
use android4_4_4_r.Lk.Timer.{
  Timer, Timers, timer_at, in_list, list_delete, insert_timer_in_queue, timer_set, timer_cancel,
  requeue,
}

abbrev pub IsUnique : List ℕ → Type 0
IsUnique [] = Unit
IsUnique (i ∷ queue) = (in_list i queue ≡ false) × IsUnique queue

in_list-insert :
    (timers : List Timer) (j i : ℕ) (queue : List ℕ)
    → in_list j (insert_timer_in_queue timers i queue) ≡ (j == i || in_list j queue)
unfolding in_list insert_timer_in_queue
in_list-insert timers j i [] = refl
in_list-insert timers j i (e ∷ queue) = ground (arith, in_list-insert timers j i queue)

insert-IsUnique :
    (timers : List Timer) (i : ℕ) (queue : List ℕ)
    → in_list i queue ≡ false
    → IsUnique queue
    → IsUnique (insert_timer_in_queue timers i queue)
unfolding in_list insert_timer_in_queue
insert-IsUnique timers i [] out h = ground arith
insert-IsUnique timers i (e ∷ queue) out h =
    ground (arith, in_list-insert timers e i queue, insert-IsUnique timers i queue)

in_list-list_delete :
    (j i : ℕ) (queue : List ℕ) → in_list j queue ≡ false → in_list j (list_delete i queue) ≡ false
unfolding in_list list_delete
in_list-list_delete j i [] h = refl
in_list-list_delete j i (e ∷ queue) h = ground (arith, in_list-list_delete j i queue)

list_delete-IsUnique :
    (i : ℕ) (queue : List ℕ)
    → IsUnique queue
    → IsUnique (list_delete i queue) × (in_list i (list_delete i queue) ≡ false)
unfolding in_list list_delete
list_delete-IsUnique i [] h = ground arith
list_delete-IsUnique i (e ∷ queue) h =
    ground (arith, in_list-list_delete e i queue, list_delete-IsUnique i queue h.1)

timer_set-IsUnique :
    (st st' : Timers) (i delay period callback arg now : ℕ)
    → IsUnique st.queue
    → timer_set st i delay period callback arg now ≡ some st'
    → IsUnique st'.queue × (in_list i st'.queue ≡ true)
unfolding timer_set
timer_set-IsUnique st st' i delay period callback arg now h e =
    let timers = set st.timers i (record {
      scheduled_time = (now + delay) % 2 ^ 32;
      periodic_time = period;
      callback = some callback;
      arg = arg;
    }) in
    ground (arith, insert-IsUnique timers i st.queue, in_list-insert timers i i st.queue)

timer_at-set :
    (timers : List Timer) (i : ℕ) (timer : Timer)
    → timer.periodic_time ≡ 0
    → (timer_at (set timers i timer) i).periodic_time ≡ 0
timer_at-set [] i timer h = refl
timer_at-set (t ∷ timers) zero timer h = h
timer_at-set (t ∷ timers) (suc i) timer h = timer_at-set timers i timer h

timer_cancel-in_list :
    (st : Timers) (i : ℕ)
    → IsUnique st.queue
    → IsUnique (timer_cancel st i).queue × (in_list i (timer_cancel st i).queue ≡ false)
unfolding timer_cancel
timer_cancel-in_list st i h = ground (arith, list_delete-IsUnique i st.queue h)

requeue-timer_cancel :
    (st : Timers) (i now : ℕ) (periodic : Bool)
    → requeue now i periodic (timer_cancel st i) ≡ timer_cancel st i
unfolding requeue timer_cancel
requeue-timer_cancel st i now periodic = ground (
  arith,
  timer_at-set st.timers i
      (record (timer_at st.timers i) { periodic_time = 0; callback = none; arg = 0 }) refl,
)

-- `timer_set`, where it does not panic, and `timer_cancel` keep it that no timer stands twice in the
-- queue, and then a timer that has been set is in the queue, one that has been cancelled is not, and if it is
-- cancelled by its own callback the tick does not put it back.
pub timer_cancel-IsUnique :
    (st : Timers) (i delay period callback arg now : ℕ)
    → IsUnique st.queue
    → ((st' : Timers)
        → timer_set st i delay period callback arg now ≡ some st'
        → IsUnique st'.queue × (in_list i st'.queue ≡ true))
      × IsUnique (timer_cancel st i).queue
      × (in_list i (timer_cancel st i).queue ≡ false)
      × (requeue now i true (timer_cancel st i) ≡ timer_cancel st i)
timer_cancel-IsUnique st i delay period callback arg now h = (
  λ st' e. timer_set-IsUnique st st' i delay period callback arg now h e,
  (timer_cancel-in_list st i h).0,
  (timer_cancel-in_list st i h).1,
  requeue-timer_cancel st i now true,
)
