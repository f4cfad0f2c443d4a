-- ===== src/Lk/Event/Rules.antt =====
-- The rules for events of bootable/lk/include/kernel/event.h, as a machine of its own, and the code
-- of bootable/lk/kernel/event.c against it.
use android4_4_4_r.Prelude.{
  ℕ, ◌≡◌, refl, arith, List, [], ◌∷◌, ◌++◌, length, Bool, true, false, not, Option, none, some,
  Bool-cases, inl, inr, ltb, ◌==◌, if◌then◌else◌,
}
use android4_4_4_r.Lk.Thread.{Kernel, Status, no_error, enter_critical_section}
use android4_4_4_r.Lk.Thread.Invariant.{is_ready}
use android4_4_4_r.Lk.Thread.Kept.{IsSound, enter-IsSound, exit-IsSound}
use android4_4_4_r.Lk.Wait.Sound.{
  wait_queue_block-IsSound, wait_queue_wake_one-IsSound, wait_queue_wake_all-IsSound,
}
use android4_4_4_r.Lk.Wait.Lists.{
  waiting, behind_first, wait_queue_wake_one-waiting, wait_queue_wake_all-waiting,
  wait_queue_block-waiting,
}
use android4_4_4_r.Lk.Event.{Event, leave, is_switched, event_wait_timeout, event_signal}

-- What the rules speak of: the flag, whether the event is signalled, and the threads that wait.
pub record Rules : Type 0 where
  pub autounsignal : Bool
  pub signalled : Bool
  pub threads : List ℕ

abbrev pub view : Event → Kernel → Rules
view e k = record {
  autounsignal = e.autounsignal;
  signalled = e.signalled;
  threads = waiting e.wait k;
}

-- With the flag, a signal wakes one thread and is used up, or is kept if none waits. Without it, it
-- wakes all and stays.
abbrev pub signal : Rules → Rules
signal r =
    if r.signalled
    then r
    else if r.autounsignal
    then record r { signalled = not (ltb 0 (length r.threads)); threads = behind_first r.threads }
    else record r { signalled = true; threads = [] }

-- Thread `t` passes a signalled event, which with the flag is used up, or waits in line. With a
-- timeout of 0 it does not wait.
abbrev pub wait : ℕ → ℕ → Rules → Rules
wait timeout t r =
    if r.signalled
    then record r { signalled = not r.autounsignal }
    else record r { threads = if timeout == 0 then r.threads else r.threads ++ t ∷ [] }

pub leave-IsSound : (b : Bool) (k : Kernel) → IsSound k → IsSound (leave b k)
leave-IsSound true k s = s
leave-IsSound false k s = exit-IsSound k s

leave-waiting : (b : Bool) (w : ℕ) (k : Kernel) → waiting w (leave b k) ≡ waiting w k
leave-waiting true w k = refl
leave-waiting false w k = refl

-- From a sound kernel `event_signal` returns, or switches to another thread, with a sound kernel,
-- and does to the event and its line of waiting threads what the rules say.
pub event_signal-signal :
    (e : Event) (reschedule : Bool) (k : Kernel)
    → IsSound k
    → (e' : Event) × (k' : Kernel) × (b : Bool) × (event_signal e reschedule k ≡ some (e', k', b))
      × IsSound k'
      × (view e' k' ≡ signal (view e k))
unfolding event_signal
event_signal-signal e reschedule k s =
    let k0 = enter_critical_section k in
    let s0 = enter-IsSound k s in
    elim (Bool-cases e.signalled) [
      | inl on ↦ (e, leave false k0, false, rw on refl, leave-IsSound false k0 s0, rw on refl)
      | inr off ↦ elim (Bool-cases e.autounsignal) [
        | inl auto ↦
            let (k1, n, q, s1) = wait_queue_wake_one-IsSound e.wait reschedule no_error k0 s0 in
            let (l, c) = wait_queue_wake_one-waiting e.wait n reschedule no_error k0 k1 q in
            let b = is_switched reschedule k0 k1 in
            (
              if n == 0 then record e { signalled = true } else e,
              leave b k1,
              b,
              ground (arith, off, auto, q),
              leave-IsSound b k1 s1,
              ground (arith, off, auto, l, c, leave-waiting b e.wait k1),
            )
        | inr all ↦
            let (k1, n, q, s1) = wait_queue_wake_all-IsSound e.wait reschedule no_error k0 s0 in
            let l = wait_queue_wake_all-waiting e.wait n reschedule no_error k0 k1 q in
            let b = is_switched reschedule k0 k1 in
            (
              record e { signalled = true },
              leave b k1,
              b,
              ground (arith, off, all, q),
              leave-IsSound b k1 s1,
              ground (arith, off, all, l, leave-waiting b e.wait k1),
            )
      ]
    ]

-- From a sound kernel with a thread that is ready, `event_wait_timeout` returns, or switches to
-- another thread, with a sound kernel, and does to the event and its line of waiting threads what
-- the rules say.
pub event_wait_timeout-wait :
    (e : Event) (timeout u : ℕ) (k : Kernel)
    → is_ready (k.threads u) ≡ true
    → IsSound k
    → (e' : Event) × (k' : Kernel) × (r : Option Status) × (event_wait_timeout e timeout k
        ≡ some (e', k', r))
      × IsSound k'
      × (view e' k' ≡ wait timeout k.current_thread (view e k))
unfolding event_wait_timeout
event_wait_timeout-wait e timeout u k ready s =
    let k0 = enter_critical_section k in
    let s0 = enter-IsSound k s in
    elim (Bool-cases e.signalled) [
      | inl on ↦ (
        record e { signalled = if e.autounsignal then false else e.signalled },
        leave false k0,
        some no_error,
        rw on refl,
        leave-IsSound false k0 s0,
        ground (arith, on),
      )
      | inr off ↦
          let (k1, r, q, s1) = wait_queue_block-IsSound e.wait timeout u k0 ready s0 in
          let l = wait_queue_block-waiting e.wait timeout r k0 k1 q in
          let b : Bool = elim r [ none ↦ true | some st ↦ false ] in
          (
            e,
            leave b k1,
            r,
            ground (arith, off, q),
            leave-IsSound b k1 s1,
            ground (arith, off, l, leave-waiting b e.wait k1),
          )
    ]
