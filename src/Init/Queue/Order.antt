-- ===== src/Init/Queue/Order.antt =====
-- What a trigger adds to the action queue, and in which order.
use android4_4_4_r.Prelude.{
  ℕ, suc, ◌<◌, List, [], ◌∷◌, ◌++◌, ◌≡◌, refl, sym, ap, arith, Bool, not, ◌||◌, ◌&&◌, Text, ◌==◌,
  text_eq, ◌∙◌, if◌then◌else◌,
}
use android4_4_4_r.Init.Service.{Action}
use android4_4_4_r.Init.Queue.{
  is_queued, action_add_queue_tail, queue_each, is_property_trigger, is_current_trigger,
  QueueRequest, named, changed, current, queue_request, queue_requests, action_for_each_trigger,
  queue_property_triggers, queue_all_property_triggers,
}

-- The places from `i` on, in the order of the file, whose name passes the test and that are not in
-- the queue.
unfoldable pub unqueued : (Text → Bool) → ℕ → List Action → List ℕ → List ℕ
unqueued test i [] queue = []
unqueued test i (act ∷ rest) queue =
    let later = unqueued test (suc i) rest queue in
    if test act.name && not (is_queued i queue) then i ∷ later else later

is_queued-append :
    (j i : ℕ) (queue : List ℕ) → is_queued j (queue ++ i ∷ []) ≡ (is_queued j queue || j == i)
unfolding is_queued
is_queued-append j i [] = ground arith
is_queued-append j i (k ∷ queue) = ground (arith, is_queued-append j i queue)

append_assoc : (xs : List ℕ) (i : ℕ) (ys : List ℕ) → (xs ++ i ∷ []) ++ ys ≡ xs ++ i ∷ ys
append_assoc [] i ys = refl
append_assoc (x ∷ xs) i ys = ap (λ t. x ∷ t) (append_assoc xs i ys)

pub append_nil : (xs : List ℕ) → xs ++ [] ≡ xs
append_nil [] = refl
append_nil (x ∷ xs) = ap (λ t. x ∷ t) (append_nil xs)

unqueued-append :
    (test : Text → Bool) (i j : ℕ) (actions : List Action) (queue : List ℕ)
    → i < j
    → unqueued test j actions (queue ++ i ∷ []) ≡ unqueued test j actions queue
unfolding unqueued
unqueued-append test i j [] queue h = refl
unqueued-append test i j (act ∷ rest) queue h =
    ground
      (arith, is_queued-append j i queue, unqueued-append test i (suc j) rest queue (omega arith))

-- The loop over the actions appends those that pass the test and are not in the queue, in the order
-- of the file.
pub queue_each-unqueued :
    (test : Text → Bool) (i : ℕ) (actions : List Action) (queue : List ℕ)
    → queue_each test i actions queue ≡ queue ++ unqueued test i actions queue
unfolding queue_each unqueued action_add_queue_tail
queue_each-unqueued test i [] queue = sym (append_nil queue)
queue_each-unqueued test i (act ∷ rest) queue = ground (
  arith,
  queue_each-unqueued test (suc i) rest queue,
  queue_each-unqueued test (suc i) rest (queue ++ i ∷ []),
  unqueued-append test i (suc i) rest queue (omega arith),
  append_assoc queue i (unqueued test (suc i) rest queue),
)

-- Which actions a request is for.
unfoldable pub is_asked : QueueRequest → Text → Bool
is_asked (named trigger) name = text_eq name trigger
is_asked (changed property value) name = is_property_trigger property value name
is_asked (current pf property_get) name = is_current_trigger pf property_get name

-- What requests add to a queue: the actions that are asked for and not in it, request by request.
unfoldable pub asked : List QueueRequest → List Action → List ℕ → List ℕ
asked [] actions queue = []
asked (r ∷ rs) actions queue =
    let new = unqueued (is_asked r) 0 actions queue in new ++ asked rs actions (queue ++ new)

pub append-append : (xs ys zs : List ℕ) → (xs ++ ys) ++ zs ≡ xs ++ (ys ++ zs)
append-append [] ys zs = refl
append-append (x ∷ xs) ys zs = ap (λ t. x ∷ t) (append-append xs ys zs)

queue_request-unqueued :
    (r : QueueRequest) (actions : List Action) (queue : List ℕ)
    → queue_request r actions queue ≡ queue ++ unqueued (is_asked r) 0 actions queue
unfolding queue_request is_asked action_for_each_trigger queue_property_triggers
    queue_all_property_triggers
queue_request-unqueued (named trigger) actions queue = queue_each-unqueued _ 0 actions queue
queue_request-unqueued (changed name value) actions queue = queue_each-unqueued _ 0 actions queue
queue_request-unqueued (current pf get) actions queue = queue_each-unqueued _ 0 actions queue

pub queue_requests-asked :
    (rs : List QueueRequest) (actions : List Action) (queue : List ℕ)
    → queue_requests rs actions queue ≡ queue ++ asked rs actions queue
unfolding queue_requests asked
queue_requests-asked [] actions queue = sym (append_nil queue)
queue_requests-asked (r ∷ rs) actions queue =
    let new = unqueued (is_asked r) 0 actions queue in
    ap (queue_requests rs actions) (queue_request-unqueued r actions queue)
    ∙ queue_requests-asked rs actions (queue ++ new)
    ∙ append-append queue new (asked rs actions (queue ++ new))
