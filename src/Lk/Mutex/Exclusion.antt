-- ===== src/Lk/Mutex/Exclusion.antt =====
-- Mutual exclusion.
use android4_4_4_r.Prelude.{
  ℕ, zero, suc, ◌+◌, ◌≤◌, ◌<◌, ◌-◌, ◌≡◌, List, [], ◌∷◌, ◌++◌, length, length-append, All,
  All-append, refl, sym, subst, ap, ◌∙◌, arith, ◌⊎◌, inl, inr, true, false, none, some, ltb, pos,
  is_positive, is_negative, pred,
}
use android4_4_4_r.Lk.Thread.{no_error, err_timed_out}
use android4_4_4_r.Lk.Mutex.{
  Waiter, Pending, Mutex, next, mutex_acquire, mutex_acquire_timeout, mutex_release, wake_one,
  return_to,
}
use android4_4_4_r.Lk.Mutex.Steps.{
  Step, acquire, acquire_timeout, release, expire, run, Reach, start, later, granted, held, IsFair,
  IsExclusive,
}

pub granted-append : (xs ys : List Pending) → granted (xs ++ ys) ≡ granted xs + granted ys
unfolding granted
granted-append [] ys = omega arith
granted-append (x ∷ xs) ys = omega (arith, granted-append xs ys)

granted-le : (xs : List Pending) → granted xs ≤ length xs
unfolding granted
granted-le [] = omega arith
granted-le (x ∷ xs) = ground (arith, granted-le xs)

pub is_positive-pos : (n : ℕ) → is_positive (pos n) ≡ ltb 0 n
unfolding is_positive
is_positive-pos zero = refl
is_positive-pos (suc n) = ground arith

pred-pos : (n : ℕ) → 0 < n → pred (pos n) ≡ pos (n - 1)
unfolding pred
pred-pos zero h = absurd (omega arith)
pred-pos (suc n) h = ap pos (omega arith)

-- all who have asked
abbrev asked : Mutex → ℕ
asked m = held m.holder + length m.wait + length m.pending

acquire-IsExclusive :
    (t : ℕ) (m m' : Mutex) → mutex_acquire t m ≡ some m' → IsExclusive m → IsExclusive m'
unfolding mutex_acquire is_positive pred granted
acquire-IsExclusive t m m' e h = ground (
  arith,
  is_positive-pos (asked m),
  granted-le m.pending,
  length-append m.wait (record { thread = t; timed = false } ∷ []),
)

acquire_timeout-IsExclusive :
    (t timeout : ℕ) (m m' : Mutex)
    → mutex_acquire_timeout t timeout m ≡ some m'
    → IsExclusive m
    → IsExclusive m'
unfolding mutex_acquire_timeout is_positive pred granted
acquire_timeout-IsExclusive t timeout m m' e h = ground (
  arith,
  acquire-IsExclusive t m m',
  length-append m.wait (record { thread = t; timed = true } ∷ []),
)

wake_one-IsExclusive :
    (m : Mutex) (xs : List Waiter)
    → m.wait ≡ xs
    → held m.holder + granted m.pending ≡ 0
    → IsExclusive m
    → IsExclusive (wake_one xs m)
unfolding wake_one granted is_negative
wake_one-IsExclusive m [] e z h = h
wake_one-IsExclusive m (x ∷ rest) e z h =
    let p : Pending = record { waiter = x; ret = no_error } in
    record {
      counted = ground (arith, h.counted, length-append m.pending (p ∷ []));
      single = ground (arith, granted-append m.pending (p ∷ []));
      fair = All-append IsFair m.pending (p ∷ []) h.fair (inl refl, tt);
    }

release-IsExclusive :
    (t : ℕ) (m m' : Mutex) → mutex_release t m ≡ some m' → IsExclusive m → IsExclusive m'
unfolding mutex_release is_positive pred
release-IsExclusive t m m' e h =
    let m1 = record m { holder = none; count = pred m.count } in
    ground (
      arith,
      wake_one-IsExclusive m1 m.wait refl,
      is_positive-pos (asked m - 1),
      pred-pos (asked m),
    )

expire-IsExclusive :
    (m : Mutex) (xs ys : List Waiter) (x : Waiter)
    → m.wait ≡ xs ++ x ∷ ys
    → x.timed ≡ true
    → IsExclusive m
    → IsExclusive (record m {
      wait = xs ++ ys;
      pending = m.pending ++ record { waiter = x; ret = err_timed_out } ∷ [];
    })
unfolding granted is_negative
expire-IsExclusive m xs ys x e timed h =
    let p : Pending = record { waiter = x; ret = err_timed_out } in
    let n : length m.wait ≡ length (xs ++ x ∷ ys) = ap length e in
    record {
      counted = ground (
        arith,
        h.counted,
        length-append m.pending (p ∷ []),
        length-append xs (x ∷ ys),
        length-append xs ys,
        n,
      );
      single = ground (arith, granted-append m.pending (p ∷ []));
      fair = All-append IsFair m.pending (p ∷ []) h.fair (inr (refl, timed), tt);
    }

pub All-middle :
    (xs ys : List Pending) (p : Pending)
    → All IsFair (xs ++ p ∷ ys)
    → IsFair p × All IsFair (xs ++ ys)
All-middle [] ys p a = a
All-middle (x ∷ xs) ys p a = let r = All-middle xs ys p a.1 in (r.0, (a.0, r.1))

run-IsExclusive :
    (m : Mutex) (xs ys : List Pending) (p : Pending)
    → m.pending ≡ xs ++ p ∷ ys
    → IsExclusive m
    → IsExclusive (return_to p.waiter p.ret (record m { pending = xs ++ ys }))
unfolding return_to granted is_negative pred
run-IsExclusive m xs ys p e h =
    let n : length m.pending ≡ length (xs ++ p ∷ ys) = ap length e in
    let g : granted m.pending ≡ granted (xs ++ p ∷ ys) = ap granted e in
    let (fair, rest) = All-middle xs ys p (subst (All IsFair) e h.fair) in
    ground (
      arith,
      length-append xs (p ∷ ys),
      length-append xs ys,
      granted-append xs (p ∷ ys),
      granted-append xs ys,
      pred-pos (asked m),
    )

Step-IsExclusive : (m m' : Mutex) → Step m m' → IsExclusive m → IsExclusive m'
Step-IsExclusive m m' (acquire t e) h = acquire-IsExclusive t m m' e h
Step-IsExclusive m m' (acquire_timeout t timeout e) h =
    acquire_timeout-IsExclusive t timeout m m' e h
Step-IsExclusive m m' (release t e) h = release-IsExclusive t m m' e h
Step-IsExclusive m m' (expire xs ys x e timed r) h =
    subst IsExclusive (sym r) (expire-IsExclusive m xs ys x e timed h)
Step-IsExclusive m m' (run xs ys p e r) h =
    subst IsExclusive (sym r) (run-IsExclusive m xs ys p e h)

pub Reach-IsExclusive : (m : Mutex) → Reach m → IsExclusive m
unfolding granted
Reach-IsExclusive _ (start m e) =
    subst IsExclusive (sym e) (record { counted = refl; single = omega arith; fair = tt })
Reach-IsExclusive _ (later m m' r s) = Step-IsExclusive m m' s (Reach-IsExclusive m r)

acquire-holder :
    (m m' : Mutex) (t u : ℕ)
    → IsExclusive m
    → m.holder ≡ some t
    → mutex_acquire u m ≡ some m'
    → m'.holder ≡ some t
unfolding mutex_acquire is_positive pred
acquire-holder m m' t u h e s = ground (arith, is_positive-pos (asked m))

acquire_timeout-holder :
    (m m' : Mutex) (t u timeout : ℕ)
    → IsExclusive m
    → m.holder ≡ some t
    → mutex_acquire_timeout u timeout m ≡ some m'
    → m'.holder ≡ some t
unfolding mutex_acquire_timeout next pred
acquire_timeout-holder m m' t u timeout h e s =
    ground (arith, is_positive-pos (asked m), acquire-holder m m' t u h e)

release-holder :
    (m m' : Mutex) (t u : ℕ)
    → m.holder ≡ some t
    → mutex_release u m ≡ some m'
    → mutex_release t m ≡ some m'
unfolding mutex_release
release-holder m m' t u e s =
    let same : t ≡ u = ground arith in subst (λ v. mutex_release v m ≡ some m') (sym same) s

run-holder :
    (m : Mutex) (xs ys : List Pending) (p : Pending) (t : ℕ)
    → IsExclusive m
    → m.holder ≡ some t
    → m.pending ≡ xs ++ p ∷ ys
    → (return_to p.waiter p.ret (record m { pending = xs ++ ys })).holder ≡ some t
unfolding return_to granted is_negative
run-holder m xs ys p t h e q =
    let g : granted m.pending ≡ granted (xs ++ p ∷ ys) = ap granted q in
    let (fair, rest) = All-middle xs ys p (subst (All IsFair) q h.fair) in
    ground (arith, granted-append xs (p ∷ ys))

-- A mutex that is not destroyed is never taken from its holder: in every state that can be reached,
-- and at every step from it, the holder stays, or has called `mutex_release`.
pub Step-holder :
    (m m' : Mutex) (t : ℕ)
    → Reach m
    → m.holder ≡ some t
    → Step m m'
    → (m'.holder ≡ some t) ⊎ (mutex_release t m ≡ some m')
Step-holder m m' t r e (acquire u s) = inl (acquire-holder m m' t u (Reach-IsExclusive m r) e s)
Step-holder m m' t r e (acquire_timeout u timeout s) =
    inl (acquire_timeout-holder m m' t u timeout (Reach-IsExclusive m r) e s)
Step-holder m m' t r e (release u s) = inr (release-holder m m' t u e s)
Step-holder m m' t r e (expire xs ys x w timed q) = inl (ap (λ n. n.holder) q ∙ e)
Step-holder m m' t r e (run xs ys p w q) =
    inl (ap (λ n. n.holder) q ∙ run-holder m xs ys p t (Reach-IsExclusive m r) e w)
