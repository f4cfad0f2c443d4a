-- ===== src/Lk/Thread/Choice.antt =====
-- Which thread the scheduler chooses: bootable/lk/kernel/thread.c.
use android4_4_4_r.Prelude.{
  ℕ, zero, suc, ◌-◌, ◌<◌, ◌≤◌, ◌≡◌, ◌∙◌, ap, ◌⊎◌, inl, inr, refl, subst, arith, List, [], ◌∷◌, Bool,
  true, not, List-cases, Option, none, some, ◌==◌, if◌then◌else◌, is_empty, elem,
}
use android4_4_4_r.Lk.Thread.{Kernel, clz, switch_to, thread_resched}
use android4_4_4_r.Lk.Thread.Invariant.{is_ready, IsConsistent}

-- The loop that the source keeps under `#if 0`: the run queues of the priorities below `n`, from the
-- highest, and the first thread of the first one that is not empty.
unfoldable pub scan : ℕ → (ℕ → List ℕ) → Option (ℕ × ℕ × List ℕ)
scan zero run_queue = none
scan (suc p) run_queue = elim (run_queue p) [ [] ↦ scan p run_queue | t ∷ rest ↦ some (p, t, rest) ]

abbrev pub take_thread : Kernel → Option (ℕ × ℕ × List ℕ) → Option Kernel
take_thread k none = none
take_thread k (some (p, t, rest)) = some (switch_to p t rest k)

clz-le : (n : ℕ) (bits : ℕ → Bool) → clz n bits ≤ n
unfolding clz
clz-le zero bits = omega arith
clz-le (suc n) bits = ground (arith, clz-le n bits)

-- The queue that the leading zeros of the bitmap point at.
abbrev pick : ℕ → Kernel → Option (ℕ × ℕ × List ℕ)
pick n k =
    let zeros = clz n k.run_queue_bitmap in
    let p = n - 1 - zeros in
    if zeros == n then none else elim (k.run_queue p) [ [] ↦ none | t ∷ rest ↦ some (p, t, rest) ]

pick-scan :
    (n : ℕ) (k : Kernel)
    → ((p : ℕ) → k.run_queue_bitmap p ≡ not (is_empty (k.run_queue p)))
    → pick n k ≡ scan n k.run_queue
unfolding clz scan
pick-scan zero k h = ground arith
pick-scan (suc n) k h = ground (arith, h n, pick-scan n k h, clz-le n k.run_queue_bitmap)

thread_resched-pick : (k : Kernel) → thread_resched k ≡ take_thread k (pick 32 k)
unfolding thread_resched
thread_resched-pick k = ground arith

-- `thread_resched` takes the thread that the loop over the priorities finds.
thread_resched-scan :
    (k : Kernel) → IsConsistent k → thread_resched k ≡ take_thread k (scan 32 k.run_queue)
unfolding thread_resched
thread_resched-scan k h = thread_resched-pick k ∙ ap (take_thread k) (pick-scan 32 k h.bits)

-- What the loop finds: the first thread of the highest run queue that is not empty.
pub record IsHighest (n : ℕ) (run_queue : ℕ → List ℕ) (p t : ℕ) (rest : List ℕ) : Type 0 where
  pub below : p < n
  pub head : run_queue p ≡ t ∷ rest
  pub above : (q : ℕ) → p < q → q < n → run_queue q ≡ []

scan-IsHighest :
    (n : ℕ) (run_queue : ℕ → List ℕ)
    → ((p : ℕ) → p < n → run_queue p ≡ [])
      ⊎ ((p : ℕ) × (t : ℕ) × (rest : List ℕ) × (scan n run_queue ≡ some (p, t, rest))
          × IsHighest n run_queue p t rest)
unfolding scan
scan-IsHighest zero run_queue = inl (λ p h. absurd (omega arith))
scan-IsHighest (suc n) run_queue = elim (List-cases (run_queue n)) [
  | inl e ↦ elim (scan-IsHighest n run_queue) [
    | inl all ↦ inl (λ p h. ground (arith, e, all p))
    | inr (p, t, rest, found, highest) ↦ inr (
      p,
      t,
      rest,
      rw (scan, e) found,
      record {
        below = omega (arith, highest.below);
        head = highest.head;
        above = λ q h l. ground (arith, e, highest.above q);
      },
    )
  ]
  | inr (t, rest, e) ↦ inr (
    n,
    t,
    rest,
    rw (scan, e) refl,
    record { below = omega arith; head = e; above = λ q h l. absurd (omega arith) },
  )
]

-- With consistent data and a ready thread, the scheduler switches: to the first thread of the run
-- queue of a priority that no ready thread exceeds.
pub thread_resched-IsHighest :
    (k : Kernel) (u : ℕ)
    → IsConsistent k
    → is_ready (k.threads u) ≡ true
    → (t : ℕ) × (rest : List ℕ) × (let p = (k.threads t).priority in
        (thread_resched k ≡ some (switch_to p t rest k))
        × (k.run_queue p ≡ t ∷ rest)
        × (is_ready (k.threads t) ≡ true)
        × ((v : ℕ) → is_ready (k.threads v) ≡ true → (k.threads v).priority ≤ p))
unfolding elem
thread_resched-IsHighest k u h ready = elim (scan-IsHighest 32 k.run_queue) [
  | inl all ↦
      let p = (k.threads u).priority in
      absurd (ground (arith, all p (h.priorities u), h.queued p u))
  | inr (p, t, rest, found, highest) ↦
      let found_ready : is_ready (k.threads t) ≡ true =
        ground (arith, highest.head, h.queued p t) in
      let e : p ≡ (k.threads t).priority = ground (arith, highest.head, h.queued p t) in
      (
        t,
        rest,
        subst
            (λ q.
              (thread_resched k ≡ some (switch_to q t rest k))
              × (k.run_queue q ≡ t ∷ rest)
              × (is_ready (k.threads t) ≡ true)
              × ((v : ℕ) → is_ready (k.threads v) ≡ true → (k.threads v).priority ≤ q))
            e
            (
              thread_resched-scan k h ∙ ap (take_thread k) found,
              highest.head,
              found_ready,
              λ v r.
                  let q = (k.threads v).priority in
                  ground (arith, highest.above q, h.queued q v, h.priorities v),
            ),
      )
]
