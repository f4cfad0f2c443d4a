-- ===== src/Lk/Timer/Tick.antt =====
-- A tick fires what is due.
use android4_4_4_r.Prelude.{
  ℕ, zero, suc, ◌^◌, ◌≤◌, ◌<◌, ◌≡◌, List, [], ◌∷◌, ◌++◌, length, ap, ◌∙◌, Bool-cases, inl, inr,
  arith, All, some, ltb, ltb→lt, sym, refl,
}
use android4_4_4_r.Lk.Timer.{Timer, Timers, timer_at, time_lt, requeue, timer_tick}
use android4_4_4_r.Lk.Timer.Order.{ahead, due, IsNear, IsOrdered, time_lt-ahead, ltb-false}

-- a callback that leaves the timers alone
abbrev pub quiet : ℕ → ℕ → Timers → Timers
quiet i now st = st

module _ (base : ℕ) (timers : List Timer) (now : ℕ) where
  requeue_once :
      (i : ℕ) (queue : List ℕ)
      → (timer_at timers i).periodic_time ≡ 0
      → requeue now i
          (ltb 0 (timer_at timers i).periodic_time)
          (record { timers = timers; queue = queue })
        ≡ record { timers = timers; queue = queue }
  unfolding requeue
  requeue_once i queue once = ground arith

  All-not_due :
      (i : ℕ) (queue : List ℕ)
      → ahead base now < due base timers i
      → All (λ k. due base timers i ≤ due base timers k) queue
      → All (λ k. ahead base now < due base timers k) queue
  All-not_due i [] h a = tt
  All-not_due i (k ∷ queue) h a = (omega arith, All-not_due i queue h a.1)

  -- Where all times are less than half of the range ahead of `base`, with an ordered queue of timers
  -- that fire once and callbacks that leave the timers alone, one round for each timer of the queue
  -- and one more are enough: the timers that are due are fired in the order of the queue, and the
  -- others stay.
  pub timer_tick-due :
      (fuel : ℕ) (queue : List ℕ)
      → base < 2 ^ 32
      → now < 2 ^ 32
      → ahead base now < 2 ^ 31
      → length queue < fuel
      → All (IsNear base timers) queue
      → All (λ i. (timer_at timers i).periodic_time ≡ 0) queue
      → IsOrdered base timers queue
      → (fired : List ℕ) × (left : List ℕ) × (timer_tick quiet fuel now
            (record { timers = timers; queue = queue })
          ≡ some (record { timers = timers; queue = left }, fired))
        × (queue ≡ fired ++ left)
        × All (λ i. due base timers i ≤ ahead base now) fired
        × All (λ i. ahead base now < due base timers i) left
  unfolding timer_tick
  timer_tick-due zero queue hb hn near room all once ordered = absurd (omega arith)
  timer_tick-due (suc fuel) [] hb hn near room all once ordered = ([], [], refl, refl, tt, tt)
  timer_tick-due (suc fuel) (i ∷ queue) hb hn near room all once ordered =
      let t = (timer_at timers i).scheduled_time in
      let c = time_lt-ahead base now t hb hn all.0.0 near all.0.1 in
      elim (Bool-cases (time_lt now (timer_at timers i).scheduled_time)) [
        | inl later ↦ (
          [],
          i ∷ queue,
          rw (timer_tick, later) refl,
          refl,
          tt,
          (
            ltb→lt (ahead base now) (due base timers i) (sym c ∙ later),
            All-not_due i queue (ltb→lt (ahead base now) (due base timers i) (sym c ∙ later))
                ordered.0,
          ),
        )
        | inr reached ↦
            let (fired, left, e, q, f, l) =
              timer_tick-due fuel queue hb hn near (omega arith) all.1 once.1 ordered.1 in
            (
              i ∷ fired,
              left,
              rw (timer_tick, reached) (rw (requeue_once i queue once.0) (rw e refl)),
              ap (λ t. i ∷ t) q,
              (ltb-false (ahead base now) (due base timers i) (sym c ∙ reached), f),
              l,
            )
      ]
