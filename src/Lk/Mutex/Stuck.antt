-- ===== src/Lk/Mutex/Stuck.antt =====
-- A waiter that timed out is counted until it runs: what an acquire in the meantime leads to.
use android4_4_4_r.Prelude.{
  ℕ, ◌+◌, ◌<◌, ◌≡◌, List, [], ◌∷◌, ◌++◌, length, All, Any, sym, subst, ap, ◌∙◌, arith, ◌⊎◌, inl,
  inr, Bool, true, false, none, some, some-injective, is_negative, pred,
}
use android4_4_4_r.Lk.Thread.{Status, err_timed_out}
use android4_4_4_r.Lk.Mutex.{
  block, is_taken, Waiter, Pending, Mutex, next, mutex_acquire, mutex_acquire_timeout,
  mutex_release, return_to,
}
use android4_4_4_r.Lk.Mutex.Steps.{
  Step, acquire, acquire_timeout, release, expire, run, Reach, later, granted, held, IsFair,
  IsExclusive,
}
use android4_4_4_r.Lk.Mutex.Exclusion.{
  Reach-IsExclusive, is_positive-pos, granted-append, All-middle,
}

-- The mutex is free, and nobody has got it, and `t` waits for it without a timeout.
pub record IsStuck (t : ℕ) (m : Mutex) : Type 0 where
  pub free : m.holder ≡ none
  pub missed : granted m.pending ≡ 0
  pub waits : Any (λ x. (x.thread ≡ t) × (x.timed ≡ false)) m.wait

-- any number of further steps
pub data Steps (m : Mutex) : Mutex → Type 0 where
  here : (m' : Mutex) → m' ≡ m → Steps m m'
  further : (m' n : Mutex) → Steps m m' → Step m' n → Steps m n

Any-append {ℓ} : {A : Type ℓ} (P : A → Type 0) (xs ys : List A) → Any P xs → Any P (xs ++ ys)
Any-append P [] ys h = absurd h
Any-append P (x ∷ xs) ys (inl p) = inl p
Any-append P (x ∷ xs) ys (inr r) = inr (Any-append P xs ys r)

Any-middle {ℓ} :
    {A : Type ℓ} (P : A → Type 0) (xs ys : List A) (x : A)
    → (P x → ⊥)
    → Any P (xs ++ x ∷ ys)
    → Any P (xs ++ ys)
Any-middle P [] ys x n (inl p) = absurd (n p)
Any-middle P [] ys x n (inr r) = r
Any-middle P (y ∷ xs) ys x n (inl p) = inl p
Any-middle P (y ∷ xs) ys x n (inr r) = inr (Any-middle P xs ys x n r)

Any-nonempty {ℓ} : {A : Type ℓ} (P : A → Type 0) (xs : List A) → Any P xs → 0 < length xs
Any-nonempty P [] h = absurd h
Any-nonempty P (x ∷ xs) h = omega arith

-- whether an acquire blocks
abbrev is_taken_next : Mutex → Bool
is_taken_next m = is_taken (next m.count)

acquire-blocks :
    (u : ℕ) (m : Mutex)
    → m.holder ≡ none
    → is_taken_next m ≡ true
    → mutex_acquire u m ≡ some (block u false (record m { count = next m.count }))
unfolding mutex_acquire
acquire-blocks u m h e = ground (arith, h, e)

is_taken-next : (m : Mutex) (t : ℕ) → IsExclusive m → IsStuck t m → is_taken_next m ≡ true
unfolding next pred
is_taken-next m t x h =
    let p = Any-nonempty (λ x. (x.thread ≡ t) × (x.timed ≡ false)) m.wait h.waits in
    ground (arith, is_positive-pos (held m.holder + length m.wait + length m.pending))

acquire-IsStuck :
    (t u : ℕ) (m m' : Mutex)
    → IsExclusive m
    → IsStuck t m
    → mutex_acquire u m ≡ some m'
    → IsStuck t m'
acquire-IsStuck t u m m' x h e =
    subst (IsStuck t)
      (some-injective _ _ (sym (acquire-blocks u m h.free (is_taken-next m t x h)) ∙ e))
      (record {
        free = h.free;
        missed = h.missed;
        waits = Any-append (λ x. (x.thread ≡ t) × (x.timed ≡ false)) m.wait _ h.waits;
      })

acquire_timeout-cases :
    (u timeout : ℕ) (m m' : Mutex)
    → m.holder ≡ none
    → is_taken_next m ≡ true
    → mutex_acquire_timeout u timeout m ≡ some m'
    → (mutex_acquire u m ≡ some m')
      ⊎ ((m' ≡ record m { count = pred (next m.count) })
          ⊎ (m' ≡ block u true (record m { count = next m.count })))
unfolding mutex_acquire_timeout
acquire_timeout-cases u timeout m m' h e s = ground arith

acquire_timeout-IsStuck :
    (t u timeout : ℕ) (m m' : Mutex)
    → IsExclusive m
    → IsStuck t m
    → mutex_acquire_timeout u timeout m ≡ some m'
    → IsStuck t m'
acquire_timeout-IsStuck t u timeout m m' x h e =
    elim (acquire_timeout-cases u timeout m m' h.free (is_taken-next m t x h) e) [
      | inl s ↦ acquire-IsStuck t u m m' x h s
      | inr (inl s) ↦
          subst (IsStuck t) (sym s) (record { free = h.free; missed = h.missed; waits = h.waits })
      | inr (inr s) ↦ subst (IsStuck t) (sym s) (record {
        free = h.free;
        missed = h.missed;
        waits = Any-append (λ x. (x.thread ≡ t) × (x.timed ≡ false)) m.wait _ h.waits;
      })
    ]

release-fails : (u : ℕ) (m : Mutex) → m.holder ≡ none → mutex_release u m ≡ none
unfolding mutex_release
release-fails u m h = ground arith

true-false : true ≡ false → ⊥
true-false e = ground (arith, e)

expire-IsStuck :
    (t : ℕ) (m : Mutex) (xs ys : List Waiter) (x : Waiter)
    → m.wait ≡ xs ++ x ∷ ys
    → x.timed ≡ true
    → IsStuck t m
    → IsStuck t (record m {
      wait = xs ++ ys;
      pending = m.pending ++ record { waiter = x; ret = err_timed_out } ∷ [];
    })
unfolding granted is_negative
expire-IsStuck t m xs ys x e timed h = record {
  free = h.free;
  missed =
      omega (
        arith,
        granted-append m.pending (record { waiter = x; ret = err_timed_out } ∷ []),
        h.missed,
      );
  waits =
      Any-middle (λ x. (x.thread ≡ t) × (x.timed ≡ false)) xs ys x
        (λ p. true-false (sym timed ∙ p.1))
        (subst (Any (λ x. (x.thread ≡ t) × (x.timed ≡ false))) e h.waits);
}

return_to-wait : (x : Waiter) (ret : Status) (m : Mutex) → (return_to x ret m).wait ≡ m.wait
unfolding return_to
return_to-wait x ret m = ground arith

run-IsStuck :
    (t : ℕ) (m : Mutex) (xs ys : List Pending) (p : Pending)
    → m.pending ≡ xs ++ p ∷ ys
    → IsExclusive m
    → IsStuck t m
    → IsStuck t (return_to p.waiter p.ret (record m { pending = xs ++ ys }))
unfolding return_to granted is_negative
run-IsStuck t m xs ys p e x h =
    let g : granted m.pending ≡ granted (xs ++ p ∷ ys) = ap granted e in
    let (fair, rest) = All-middle xs ys p (subst (All IsFair) e x.fair) in
    record {
      free = ground (arith, h.free, h.missed, granted-append xs (p ∷ ys));
      missed = ground (arith, h.missed, granted-append xs (p ∷ ys), granted-append xs ys);
      waits =
          subst (Any (λ x. (x.thread ≡ t) × (x.timed ≡ false)))
            (sym (return_to-wait p.waiter p.ret (record m { pending = xs ++ ys }))) h.waits;
    }

Step-IsStuck : (t : ℕ) (m m' : Mutex) → IsExclusive m → IsStuck t m → Step m m' → IsStuck t m'
Step-IsStuck t m m' x h (acquire u e) = acquire-IsStuck t u m m' x h e
Step-IsStuck t m m' x h (acquire_timeout u timeout e) =
    acquire_timeout-IsStuck t u timeout m m' x h e
Step-IsStuck t m m' x h (release u e) = ground (arith, release-fails u m h.free, e)
Step-IsStuck t m m' x h (expire xs ys w e timed r) =
    subst (IsStuck t) (sym r) (expire-IsStuck t m xs ys w e timed h)
Step-IsStuck t m m' x h (run xs ys p e r) =
    subst (IsStuck t) (sym r) (run-IsStuck t m xs ys p e x h)

Steps-Reach : (m n : Mutex) → Reach m → Steps m n → Reach n
Steps-Reach m n r (here _ e) = subst Reach (sym e) r
Steps-Reach m n r (further m' _ s l) = later m' n (Steps-Reach m m' r s) l

pub Steps-IsStuck : (t : ℕ) (m n : Mutex) → Reach m → IsStuck t m → Steps m n → IsStuck t n
Steps-IsStuck t m n r h (here _ e) = subst (IsStuck t) (sym e) h
Steps-IsStuck t m n r h (further m' _ s l) =
    Step-IsStuck t m' n (Reach-IsExclusive m' (Steps-Reach m m' r s)) (Steps-IsStuck t m m' r h s) l
