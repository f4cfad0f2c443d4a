-- ===== src/Lk/Timer/Order.antt =====
-- The order of the timer queue.
use android4_4_4_r.Prelude.{
  ℕ, ◌^◌, ◌≤◌, ◌<◌, ◌≡◌, List, [], ◌∷◌, false, arith, All, ◌++◌, Bool-cases, inl, inr, ap, ◌∙◌,
  subst, ltb→lt, sym, ltb, refl,
}
use android4_4_4_r.Lk.Timer.{Timer, timer_at, time_gt, time_lt, sub_word, insert_timer_in_queue}

pub ltb-false : (a b : ℕ) → ltb a b ≡ false → b ≤ a
ltb-false a b h = ground arith

-- how far a time lies behind the time `base`
abbrev pub ahead : ℕ → ℕ → ℕ
ahead base t = sub_word t base

-- Times of which none is half of the range or more behind `base` are compared as numbers.
pub time_gt-ahead :
    (base a b : ℕ)
    → base < 2 ^ 32
    → a < 2 ^ 32
    → b < 2 ^ 32
    → ahead base a < 2 ^ 31
    → ahead base b < 2 ^ 31
    → time_gt a b ≡ ltb (ahead base b) (ahead base a)
time_gt-ahead base a b hbase ha hb na nb = ground arith

pub time_lt-ahead :
    (base a b : ℕ)
    → base < 2 ^ 32
    → a < 2 ^ 32
    → b < 2 ^ 32
    → ahead base a < 2 ^ 31
    → ahead base b < 2 ^ 31
    → time_lt a b ≡ ltb (ahead base a) (ahead base b)
time_lt-ahead base a b hbase ha hb na nb = ground arith

module _ (base : ℕ) (timers : List Timer) where
  -- how far the timer's time lies behind `base`
  abbrev pub due : ℕ → ℕ
  due i = ahead base (timer_at timers i).scheduled_time

  abbrev pub IsNear : ℕ → Type 0
  IsNear i = ((timer_at timers i).scheduled_time < 2 ^ 32) × (due i < 2 ^ 31)

  -- no timer of the queue is due before one that stands in front of it
  abbrev pub IsOrdered : List ℕ → Type 0
  IsOrdered [] = Unit
  IsOrdered (i ∷ queue) = All (λ j. due i ≤ due j) queue × IsOrdered queue

  pub All-due :
      (i j : ℕ) (queue : List ℕ)
      → due i < due j
      → All (λ k. due j ≤ due k) queue
      → All (λ k. due i < due k) queue
  All-due i j [] h a = tt
  All-due i j (k ∷ queue) h a = (omega arith, All-due i j queue h a.1)

  All-due_le :
      (i : ℕ) (queue : List ℕ) → All (λ k. due i < due k) queue → All (λ k. due i ≤ due k) queue
  All-due_le i [] a = tt
  All-due_le i (k ∷ queue) a = (omega arith, All-due_le i queue a.1)

  All-insert :
      (n i : ℕ) (before after : List ℕ)
      → n ≤ due i
      → All (λ k. n ≤ due k) (before ++ after)
      → All (λ k. n ≤ due k) (before ++ i ∷ after)
  All-insert n i [] after h a = (h, a)
  All-insert n i (k ∷ before) after h a = (a.0, All-insert n i before after h a.1)

  IsOrdered-insert :
      (i : ℕ) (before after : List ℕ)
      → All (λ j. due j ≤ due i) before
      → All (λ j. due i < due j) after
      → IsOrdered (before ++ after)
      → IsOrdered (before ++ i ∷ after)
  IsOrdered-insert i [] after b a h = (All-due_le i after a, h)
  IsOrdered-insert i (e ∷ before) after b a h =
      (All-insert (due e) i before after b.0 h.0, IsOrdered-insert i before after b.1 a h.1)

  insert_timer_in_queue-append :
      (i : ℕ) (queue : List ℕ)
      → base < 2 ^ 32
      → IsNear i
      → All IsNear queue
      → IsOrdered queue
      → (before : List ℕ) × (after : List ℕ) × (queue ≡ before ++ after)
        × (insert_timer_in_queue timers i queue ≡ before ++ i ∷ after)
        × All (λ j. due j ≤ due i) before
        × All (λ j. due i < due j) after
  unfolding insert_timer_in_queue
  insert_timer_in_queue-append i [] hb near all ordered = ([], [], refl, refl, tt, tt)
  insert_timer_in_queue-append i (e ∷ queue) hb near all ordered =
      let c =
        time_gt-ahead base (timer_at timers e).scheduled_time (timer_at timers i).scheduled_time hb
          all.0.0 near.0 all.0.1 near.1 in
      elim (Bool-cases
        (time_gt (timer_at timers e).scheduled_time (timer_at timers i).scheduled_time)) [
          | inl later ↦
              let lt : due i < due e = ltb→lt (due i) (due e) (sym c ∙ later) in
              ([], e ∷ queue, refl, rw later refl, tt, (lt, All-due i e queue lt ordered.0))
          | inr no_later ↦
              let le : due e ≤ due i = ltb-false (due i) (due e) (sym c ∙ no_later) in
              let (before, after, q, f, b, a) =
                insert_timer_in_queue-append i queue hb near all.1 ordered.1 in
              (e ∷ before, after, ap (λ t. e ∷ t) q, rw no_later (ap (λ t. e ∷ t) f), (le, b), a)
        ]

  -- Where all times are less than half of the range ahead of `base`, in an ordered queue, the timer
  -- goes behind the timers that are due no later, and in front of those that are due later; the
  -- queue stays ordered.
  pub insert_timer_in_queue-IsOrdered :
      (i : ℕ) (queue : List ℕ)
      → base < 2 ^ 32
      → IsNear i
      → All IsNear queue
      → IsOrdered queue
      → (before : List ℕ) × (after : List ℕ) × (queue ≡ before ++ after)
        × (insert_timer_in_queue timers i queue ≡ before ++ i ∷ after)
        × All (λ j. due j ≤ due i) before
        × All (λ j. due i < due j) after
        × IsOrdered (insert_timer_in_queue timers i queue)
  insert_timer_in_queue-IsOrdered i queue hb near all ordered =
      let (before, after, q, e, b, a) = insert_timer_in_queue-append i queue hb near all ordered in
      (
        before,
        after,
        q,
        e,
        b,
        a,
        subst IsOrdered (sym e) (IsOrdered-insert i before after b a (subst IsOrdered q ordered)),
      )
