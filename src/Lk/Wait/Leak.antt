-- ===== src/Lk/Wait/Leak.antt =====
-- `thread_unblock_from_wait_queue` and the critical section.
use android4_4_4_r.Prelude.{ℕ, ◌+◌, ◌≡◌, arith, false, some, if◌then◌else◌}
use android4_4_4_r.Lk.Thread.{Kernel, Status}
use android4_4_4_r.Lk.Wait.{thread_unblock_from_wait_queue, unblock}
use android4_4_4_r.Lk.Thread.Invariant.{is_blocked}

-- A call without a reschedule leaves the critical section as it was if the thread is blocked, and
-- entered once more if it is not.
pub thread_unblock_from_wait_queue-critical :
    (t : ℕ) (error s : Status) (k k' : Kernel)
    → thread_unblock_from_wait_queue t false error k ≡ some (k', s)
    → k'.critical_section_count ≡ (
        if is_blocked (k.threads t) then k.critical_section_count else k.critical_section_count + 1)
unfolding thread_unblock_from_wait_queue is_blocked unblock
thread_unblock_from_wait_queue-critical t error s k k' e = ground arith
