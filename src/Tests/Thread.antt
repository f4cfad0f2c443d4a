-- ===== src/Tests/Thread.antt =====
-- Two threads and a wait queue: bootable/lk/kernel/thread.c.
use android4_4_4_r.Prelude.{
  ℕ, ◌≤◌, ◌≡◌, ◌≢◌, List, [], ◌∷◌, arith, refl, sym, subst, ◌∙◌, Option, none, some, some-injective,
  true, false, elem,
}
use android4_4_4_r.Lk.Thread.{
  Kernel, no_error, thread_init_early, thread_create, thread_resume, thread_resched, switch_to,
}
use android4_4_4_r.Lk.Thread.Invariant.{is_ready, is_running, is_blocked}
use android4_4_4_r.Lk.Thread.Choice.{thread_resched-IsHighest}
use android4_4_4_r.Lk.Thread.Kept.{IsSound, Gives}
use android4_4_4_r.Lk.Wait.{infinite_time, thread_unblock_from_wait_queue, wait_queue_block}
use android4_4_4_r.Lk.Wait.Lost.{thread_unblock_from_wait_queue-lost}
use android4_4_4_r.Lk.Calls.{Call, create, resume, block, perform, perform_all, AllAllowed}
use android4_4_4_r.Lk.Calls.Sound.{perform_all-IsSound, thread_init_early-IsSound}

abbrev pub given : Option Kernel → Kernel
given none = thread_init_early
given (some k) = k

-- thread 1 created and resumed, thread 0 blocked on the wait queue 0, thread 2 created and resumed
abbrev pub created : Kernel
created = thread_create 1 16 thread_init_early

abbrev pub resumed : Kernel
resumed = given (perform (resume 1) created)

abbrev pub waiting : Kernel
waiting = given (perform (block 0 infinite_time) resumed)

abbrev pub crowded : Kernel
crowded = thread_create 2 20 waiting

abbrev pub final : Kernel
final = given (perform (resume 2) crowded)

abbrev late_calls : List Call
late_calls = create 2 20 ∷ resume 2 ∷ []

abbrev calls : List Call
calls = create 1 16 ∷ resume 1 ∷ block 0 infinite_time ∷ late_calls

allowed_next :
    (c : Call) (cs : List Call) (k k1 : Kernel)
    → perform c k ≡ some k1
    → AllAllowed cs k1
    → (k' : Kernel) → perform c k ≡ some k'
    → AllAllowed cs k'
allowed_next c cs k k1 e a k' e' = subst (AllAllowed cs) (some-injective _ _ (sym e ∙ e')) a

resumed_runs : perform (resume 1) created ≡ some resumed
unfolding perform thread_resume thread_create thread_resched thread_init_early
resumed_runs = refl

waiting_runs : perform (block 0 infinite_time) resumed ≡ some waiting
unfolding perform thread_resume thread_create wait_queue_block thread_resched thread_init_early
waiting_runs = refl

final_runs : perform (resume 2) crowded ≡ some final
unfolding perform thread_resume thread_create wait_queue_block thread_resched thread_init_early
final_runs = refl

resumed_ready : is_ready (resumed.threads 1) ≡ true
unfolding is_ready perform thread_resume thread_create thread_resched thread_init_early
resumed_ready = refl

late_allowed : AllAllowed late_calls waiting
unfolding perform thread_resume thread_create wait_queue_block thread_resched thread_init_early
late_allowed = (
  (refl, omega arith),
  allowed_next (create 2 20) (resume 2 ∷ []) waiting crowded refl
      ((ground arith, ground arith, ground arith), λ k e. tt),
)

next_allowed : AllAllowed (resume 1 ∷ block 0 infinite_time ∷ late_calls) created
unfolding thread_create
next_allowed = (
  (ground arith, ground arith, ground arith),
  allowed_next (resume 1) (block 0 infinite_time ∷ late_calls) created resumed resumed_runs (
    (1, resumed_ready),
    allowed_next (block 0 infinite_time) late_calls resumed waiting waiting_runs late_allowed,
  ),
)

calls_allowed : AllAllowed calls thread_init_early
unfolding thread_init_early perform
calls_allowed = (
  (refl, omega arith),
  allowed_next (create 1 16) (resume 1 ∷ block 0 infinite_time ∷ late_calls) thread_init_early
      created refl next_allowed,
)

perform_all-IsSound_example : Gives (perform_all calls thread_init_early)
perform_all-IsSound_example =
    perform_all-IsSound calls thread_init_early calls_allowed thread_init_early-IsSound

calls_run : perform_all calls thread_init_early ≡ some final
unfolding perform_all perform thread_resume thread_create wait_queue_block thread_resched
    thread_init_early
calls_run = refl

pub final-IsSound : IsSound final
final-IsSound =
    let (k, e, s) =
      perform_all-IsSound calls thread_init_early calls_allowed thread_init_early-IsSound in
    subst IsSound (some-injective _ _ (sym e ∙ calls_run)) s

pub final_ready : is_ready (final.threads 1) ≡ true
unfolding is_ready perform thread_resume thread_create wait_queue_block thread_resched
    thread_init_early
final_ready = refl

thread_resched-IsHighest_example :
    (t : ℕ) × (rest : List ℕ) × (let p = (final.threads t).priority in
      (thread_resched final ≡ some (switch_to p t rest final))
      × (final.run_queue p ≡ t ∷ rest)
      × (is_ready (final.threads t) ≡ true)
      × ((v : ℕ) → is_ready (final.threads v) ≡ true → (final.threads v).priority ≤ p))
thread_resched-IsHighest_example = thread_resched-IsHighest final 1 final-IsSound.0 final_ready

final_blocked :
    (is_blocked (final.threads 0) ≡ true) × ((final.threads 0).blocking_wait_queue ≡ some 0)
unfolding is_blocked perform thread_resume thread_create wait_queue_block thread_resched
    thread_init_early
final_blocked = (refl, refl)

thread_unblock_from_wait_queue-lost_example :
    (k : Kernel) × (thread_unblock_from_wait_queue 0 true no_error final ≡ some (k, no_error))
    × (k.current_thread ≢ final.current_thread)
    × (is_running (k.threads final.current_thread) ≡ true)
    × ((p : ℕ) → elem final.current_thread (k.run_queue p) ≡ false)
thread_unblock_from_wait_queue-lost_example =
    thread_unblock_from_wait_queue-lost 0 0 no_error final final-IsSound final_blocked.0
      final_blocked.1
