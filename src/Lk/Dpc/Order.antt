-- ===== src/Lk/Dpc/Order.antt =====
-- No deferred call is lost.
use mathlib.Core.List.{append-nil, append_assoc}
use android4_4_4_r.Prelude.{
  ℕ, ◌≡◌, ◌∙◌, ◌⊎◌, inl, inr, All, refl, sym, ap, arith, List, [], ◌∷◌, ◌++◌, List-cases, Bool,
  true, false, not, Option, none, some,
}
use android4_4_4_r.Lk.Thread.{Kernel, enter_critical_section}
use android4_4_4_r.Lk.Thread.Kept.{IsSound, enter-IsSound}
use android4_4_4_r.Lk.Event.{leave}
use android4_4_4_r.Lk.Event.Rules.{event_signal-signal, leave-IsSound}
use android4_4_4_r.Lk.Thread.Invariant.{is_ready}
use android4_4_4_r.Lk.Dpc.{DeferredCall, Dpc, dpc_queue, dpc_round, thread_cleanup_dpc, thread_exit}
use android4_4_4_r.Lk.Dpc.Exit.{thread_exit-IsSound}

-- Where calls are queued, the event is signalled, so that the thread goes on.
pub record IsAwake (d : Dpc) : Type 0 where
  pub kind : d.event.autounsignal ≡ false
  pub awake : (d.list ≡ []) ⊎ (d.event.signalled ≡ true)

-- A thread queues a call, on the kernel as it is then, or it exits while thread `u` is ready, or the
-- thread of deferred calls goes round.
pub data Turn : Type 0 where
  queue : DeferredCall → Bool → Kernel → Turn
  exit : ℕ → Kernel → Turn
  round : Turn

abbrev pub IsPossible : Turn → Type 0
IsPossible (queue call noresched k) = IsSound k
IsPossible (exit u k) = (is_ready (k.threads u) ≡ true) × IsSound k
IsPossible round = Unit

-- the call that an exit queues
abbrev cleanup : Kernel → DeferredCall
cleanup k = record { cb = thread_cleanup_dpc; arg = k.current_thread }

-- the calls that the turns queue
abbrev pub queued : List Turn → List DeferredCall
queued [] = []
queued (queue call noresched k ∷ ts) = call ∷ queued ts
queued (exit u k ∷ ts) = cleanup k ∷ queued ts
queued (round ∷ ts) = queued ts

abbrev pub made : Option DeferredCall → List DeferredCall → List DeferredCall
made none cs = cs
made (some c) cs = c ∷ cs

-- What the turns leave, and the calls that are made.
unfoldable pub take_turns : List Turn → Dpc → Option (Dpc × List DeferredCall)
take_turns [] d = some (d, [])
take_turns (queue call noresched k ∷ ts) d = elim (dpc_queue call noresched d k) [
  | none ↦ none
  | some r ↦ take_turns ts r.0
]
take_turns (exit u k ∷ ts) d = elim (thread_exit d k) [ none ↦ none | some r ↦ take_turns ts r.0 ]
take_turns (round ∷ ts) d =
    let r = dpc_round d in
    elim (take_turns ts r.0) [ none ↦ none | some s ↦ some (s.0, made r.1 s.1) ]

dpc_queue-IsAwake :
    (call : DeferredCall) (noresched : Bool) (d : Dpc) (k : Kernel)
    → IsSound k
    → IsAwake d
    → (d' : Dpc) × (k' : Kernel) × (dpc_queue call noresched d k ≡ some (d', k'))
      × IsSound k'
      × IsAwake d'
      × (d'.list ≡ d.list ++ call ∷ [])
unfolding dpc_queue
dpc_queue-IsAwake call noresched d k s h =
    let (e, k1, b, q, s1, v) =
      event_signal-signal d.event (not noresched) (enter_critical_section k) (enter-IsSound k s) in
    (
      record { event = e; list = d.list ++ call ∷ [] },
      leave b k1,
      rw (dpc_queue, q) refl,
      leave-IsSound b k1 s1,
      record {
        kind = ap (λ r. r.autounsignal) v ∙ ground (arith, h.kind);
        awake = inr (ap (λ r. r.signalled) v ∙ ground (arith, h.kind));
      },
      refl,
    )

dpc_round-IsAwake :
    (d : Dpc)
    → IsAwake d
    → IsAwake (dpc_round d).0 × (made (dpc_round d).1 (dpc_round d).0.list ≡ d.list)
unfolding dpc_round
dpc_round-IsAwake d h = elim (List-cases d.list) [
  | inl e ↦ rw e (record { kind = h.kind; awake = inl refl }, refl)
  | inr (c, rest, e) ↦
      rw e (record { kind = h.kind; awake = inr (ground (arith, e, h.awake)) }, refl)
]

made-append :
    (o : Option DeferredCall) (xs ys : List DeferredCall) → made o xs ++ ys ≡ made o (xs ++ ys)
made-append none xs ys = refl
made-append (some c) xs ys = refl

-- From an empty list, or with the event signalled, in whatever order calls are queued on sound
-- kernels, threads exit while another is ready, and the thread of deferred calls goes round: the
-- calls made, and those still in the list, are the calls of the list and those queued, the cleaning
-- up of the threads among them, in this order and each once; and the event is signalled where calls
-- are left.
pub take_turns-queued :
    (ts : List Turn) (d : Dpc)
    → All IsPossible ts
    → IsAwake d
    → (d' : Dpc) × (cs : List DeferredCall) × (take_turns ts d ≡ some (d', cs))
      × IsAwake d'
      × (cs ++ d'.list ≡ d.list ++ queued ts)
unfolding take_turns
take_turns-queued [] d p h = (d, [], refl, h, sym (append-nil d.list))
take_turns-queued (queue call noresched k ∷ ts) d p h =
    let (d1, k1, e1, s1, h1, l1) = dpc_queue-IsAwake call noresched d k p.0 h in
    let (d', cs, e', h', l') = take_turns-queued ts d1 p.1 h1 in
    (
      d',
      cs,
      rw (take_turns, e1) e',
      h',
      l' ∙ ap (λ l. l ++ queued ts) l1 ∙ append_assoc d.list (call ∷ []) (queued ts),
    )
take_turns-queued (exit u k ∷ ts) d p h =
    let (d1, k1, e1, s1, a1, n1, l1) = thread_exit-IsSound d u k h.kind p.0.0 p.0.1 in
    let (d', cs, e', h', l') = take_turns-queued ts d1 p.1 (record { kind = a1; awake = inr n1 }) in
    (
      d',
      cs,
      rw (take_turns, e1) e',
      h',
      l' ∙ ap (λ l. l ++ queued ts) l1 ∙ append_assoc d.list (cleanup k ∷ []) (queued ts),
    )
take_turns-queued (round ∷ ts) d p h =
    let r = dpc_round d in
    let (h1, l1) = dpc_round-IsAwake d h in
    let (d', cs, e', h', l') = take_turns-queued ts r.0 p.1 h1 in
    (
      d',
      made r.1 cs,
      rw (take_turns, e') refl,
      h',
      made-append r.1 cs d'.list
          ∙ ap (made r.1) l'
          ∙ sym (made-append r.1 r.0.list (queued ts))
          ∙ ap (λ l. l ++ queued ts) l1,
    )
