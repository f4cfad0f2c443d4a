-- ===== src/Tests/Event.antt =====
-- Events and deferred calls: bootable/lk/kernel/event.c, bootable/lk/kernel/dpc.c.
use android4_4_4_r.Prelude.{◌≡◌, List, [], ◌∷◌, ◌++◌, refl, inl, Option, some, Bool, true, false}
use android4_4_4_r.Lk.Thread.{Kernel, Status}
use android4_4_4_r.Lk.Thread.Kept.{IsSound}
use android4_4_4_r.Lk.Event.{Event, event_wait_timeout, event_signal}
use android4_4_4_r.Lk.Event.Rules.{view, signal, wait, event_signal-signal, event_wait_timeout-wait}
use android4_4_4_r.Lk.Dpc.{DeferredCall, Dpc}
use android4_4_4_r.Lk.Dpc.Order.{
  IsAwake, Turn, queue, exit, round, queued, take_turns, take_turns-queued,
}
use android4_4_4_r.Tests.Thread.{final, final-IsSound, final_ready}

-- thread 0 waits for it
abbrev event : Event
event = record { signalled = false; autounsignal = true; wait = 0 }

event_signal-signal_example :
    (e : Event) × (k : Kernel) × (b : Bool) × (event_signal event true final ≡ some (e, k, b))
    × IsSound k
    × (view e k ≡ signal (view event final))
event_signal-signal_example = event_signal-signal event true final final-IsSound

event_wait_timeout-wait_example :
    (e : Event) × (k : Kernel) × (r : Option Status) × (event_wait_timeout event 5 final
      ≡ some (e, k, r))
    × IsSound k
    × (view e k ≡ wait 5 final.current_thread (view event final))
event_wait_timeout-wait_example = event_wait_timeout-wait event 5 1 final final_ready final-IsSound

abbrev empty : Dpc
empty = record { event = record event { autounsignal = false }; list = [] }

abbrev turns : List Turn
turns =
    queue (record { cb = 7; arg = 1 }) true final
    ∷ round
    ∷ round
    ∷ queue (record { cb = 8; arg = 2 }) false final
    ∷ exit 1 final
    ∷ []

take_turns-queued_example :
    (d : Dpc) × (cs : List DeferredCall) × (take_turns turns empty ≡ some (d, cs))
    × IsAwake d
    × (cs ++ d.list ≡ [] ++ queued turns)
take_turns-queued_example =
    take_turns-queued turns empty
      (final-IsSound, (tt, (tt, (final-IsSound, ((final_ready, final-IsSound), tt)))))
      (record { kind = refl; awake = inl refl })
