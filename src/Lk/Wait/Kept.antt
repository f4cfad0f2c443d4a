-- ===== src/Lk/Wait/Kept.antt =====
-- The operations on wait queues keep the kernel's data consistent.
use android4_4_4_r.Prelude.{
  ℕ, suc, ◌≡◌, refl, ◌∙◌, subst, arith, List, [], ◌∷◌, length, length-append, true, not, ◌&&◌, ◌==◌,
  Bool-cases, inl, inr, elem, elem-append, IsNodup, append-IsNodup,
}
use android4_4_4_r.Lk.Timer.{list_delete}
use android4_4_4_r.Lk.Thread.{Kernel, Status, insert_in_run_queue_head}
use android4_4_4_r.Lk.Thread.Invariant.{
  is_ready, is_running, is_blocked, waits_on, IsConsistent, IsRunning, IsVacant,
}
use android4_4_4_r.Lk.Wait.{enqueue_current, take_waiter, requeue_current, wake_each}

pub enqueue_current-IsConsistent :
    (w : ℕ) (k : Kernel) → IsRunning k → IsConsistent k → IsConsistent (enqueue_current w k)
unfolding enqueue_current is_ready is_running waits_on is_blocked elem
enqueue_current-IsConsistent w k r h =
    let t = k.current_thread in
    record {
      queued = λ p u. ground (arith, h.queued p u, r t);
      bits = h.bits;
      once = h.once;
      priorities = λ u. ground (arith, h.priorities u);
      waiting = λ v u.
          ground (
            arith,
            h.waiting v u,
            h.waiting w u,
            r t,
            elem-append u (k.wait_queues w).list (t ∷ []),
          );
      waits_once = λ v.
          ground
            (arith, h.waits_once v, h.waiting w t, r t, append-IsNodup (k.wait_queues w).list t);
      targets = λ u. ground (arith, h.targets u);
      counts = λ v. ground (arith, h.counts v, length-append (k.wait_queues w).list (t ∷ []));
    }

pub enqueue_current-IsVacant : (w : ℕ) (k : Kernel) → IsRunning k → IsVacant (enqueue_current w k)
unfolding enqueue_current is_running
enqueue_current-IsVacant w k r u = ground (arith, r u)

-- `rest` is the list without `t`, which it has once.
pub record IsRest (t : ℕ) (list rest : List ℕ) : Type 0 where
  pub member : elem t list ≡ true
  pub others : (u : ℕ) → elem u rest ≡ (elem u list && not (t == u))
  pub distinct : IsNodup rest
  pub shorter : length list ≡ suc (length rest)

pub head-IsRest : (t : ℕ) (rest : List ℕ) → IsNodup (t ∷ rest) → IsRest t (t ∷ rest) rest
unfolding elem
head-IsRest t rest n = record {
  member = ground arith;
  others = λ u. ground (arith, n);
  distinct = n.1;
  shorter = refl;
}

pub list_delete-IsRest :
    (t : ℕ) (list : List ℕ) → elem t list ≡ true → IsNodup list → IsRest t list (list_delete t list)
unfolding elem list_delete
list_delete-IsRest t [] e n = ground arith
list_delete-IsRest t (x ∷ list) e n = elim (Bool-cases (t == x)) [
  | inl here ↦ record {
    member = e;
    others = λ u. ground (arith, n);
    distinct = ground arith;
    shorter = ground arith;
  }
  | inr there ↦
      let rest = list_delete-IsRest t list (ground arith) n.1 in
      record {
        member = e;
        others = λ u. ground (arith, rest.others u);
        distinct = ground (arith, rest.others x, rest.distinct);
        shorter = ground (arith, rest.shorter);
      }
]

module _ (w t : ℕ) (rest : List ℕ) (error : Status) (k : Kernel)
    (r : IsRest t (k.wait_queues w).list rest) (h : IsConsistent k) where
  -- a waiter made ready and put at the head of its run queue
  pub take_waiter-IsConsistent :
      IsConsistent (insert_in_run_queue_head t (take_waiter w t rest error k))
  unfolding take_waiter insert_in_run_queue_head is_ready waits_on is_blocked elem
  take_waiter-IsConsistent = record {
    queued = λ p u. ground (arith, h.queued p u, h.queued p t, h.waiting w t);
    bits = λ p. ground (arith, h.bits p);
    once = λ p. ground (arith, h.once p, h.queued p t, h.waiting w t);
    priorities = λ u. ground (arith, h.priorities u);
    waiting = λ v u. ground (arith, h.waiting v u, h.waiting v t, h.waiting w t, r.others u);
    waits_once = λ v. ground (arith, h.waits_once v);
    targets = λ u. ground (arith, h.targets u);
    counts = λ v. ground (arith, h.counts v);
  }

  pub take_waiter-IsRunning :
      IsRunning k → IsRunning (insert_in_run_queue_head t (take_waiter w t rest error k))
  unfolding take_waiter insert_in_run_queue_head is_running waits_on
  take_waiter-IsRunning run u = ground (arith, run u, h.waiting w t)

  -- the same behind the current thread, which is put back before the waiter
  pub take_waiter-requeue :
      IsRunning k
      → IsConsistent (insert_in_run_queue_head t (requeue_current (take_waiter w t rest error k)))
  unfolding take_waiter requeue_current insert_in_run_queue_head is_ready is_running waits_on
      is_blocked elem
  take_waiter-requeue run =
      let c = k.current_thread in
      record {
        queued =
            λ p u. ground (arith, h.queued p u, h.queued p t, h.queued p c, h.waiting w t, run c);
        bits = λ p. ground (arith, h.bits p);
        once = λ p. ground (arith, h.once p, h.queued p t, h.queued p c, h.waiting w t, run c);
        priorities = λ u. ground (arith, h.priorities u);
        waiting =
            λ v u. ground (arith, h.waiting v u, h.waiting v t, h.waiting w t, r.others u, run c);
        waits_once = λ v. ground (arith, h.waits_once v);
        targets = λ u. ground (arith, h.targets u);
        counts = λ v. ground (arith, h.counts v);
      }

  pub take_waiter-IsVacant :
      IsRunning k
      → IsVacant (insert_in_run_queue_head t (requeue_current (take_waiter w t rest error k)))
  unfolding take_waiter requeue_current insert_in_run_queue_head is_running waits_on
  take_waiter-IsVacant run u = ground (arith, run u, h.waiting w t)

  -- who runs does not change, and who is ready stays so
  pub take_waiter-is_running :
      (u : ℕ)
      → is_running ((insert_in_run_queue_head t (take_waiter w t rest error k)).threads u)
        ≡ is_running (k.threads u)
  unfolding take_waiter insert_in_run_queue_head is_running waits_on
  take_waiter-is_running u = ground (arith, h.waiting w t, r.member)

  pub take_waiter-is_ready :
      (u : ℕ)
      → is_ready (k.threads u) ≡ true
      → is_ready ((insert_in_run_queue_head t (take_waiter w t rest error k)).threads u) ≡ true
  unfolding take_waiter insert_in_run_queue_head is_ready
  take_waiter-is_ready u e = ground arith

take_waiter-list :
    (w t : ℕ) (rest : List ℕ) (error : Status) (k : Kernel)
    → ((insert_in_run_queue_head t (take_waiter w t rest error k)).wait_queues w).list ≡ rest
unfolding take_waiter insert_in_run_queue_head
take_waiter-list w t rest error k = ground arith

take_waiter-current :
    (w t : ℕ) (rest : List ℕ) (error : Status) (k : Kernel)
    → (insert_in_run_queue_head t (take_waiter w t rest error k)).current_thread ≡ k.current_thread
unfolding take_waiter insert_in_run_queue_head
take_waiter-current w t rest error k = refl

-- What waking all the threads of a list leaves as it is.
pub record Woken (k k' : Kernel) : Type 0 where
  pub consistent : IsConsistent k'
  pub runs : (u : ℕ) → is_running (k'.threads u) ≡ is_running (k.threads u)
  pub readies : (u : ℕ) → is_ready (k.threads u) ≡ true → is_ready (k'.threads u) ≡ true
  pub current : k'.current_thread ≡ k.current_thread

pub wake_each-Woken :
    (w : ℕ) (error : Status) (list : List ℕ) (k : Kernel)
    → (k.wait_queues w).list ≡ list
    → IsConsistent k
    → Woken k (wake_each w error list k)
unfolding wake_each
wake_each-Woken w error [] k e h = record {
  consistent = h;
  runs = λ u. refl;
  readies = λ u r. r;
  current = refl;
}
wake_each-Woken w error (t ∷ rest) k e h =
    let r : IsRest t (k.wait_queues w).list rest =
      rw e (head-IsRest t rest (subst IsNodup e (h.waits_once w))) in
    let k1 = insert_in_run_queue_head t (take_waiter w t rest error k) in
    let later =
      wake_each-Woken w error rest k1 (take_waiter-list w t rest error k)
        (take_waiter-IsConsistent w t rest error k r h) in
    record {
      consistent = later.consistent;
      runs = λ u. later.runs u ∙ take_waiter-is_running w t rest error k r h u;
      readies = λ u q. later.readies u (take_waiter-is_ready w t rest error k r h u q);
      current = later.current ∙ take_waiter-current w t rest error k;
    }
