-- ===== src/Scheduler/Waits.antt =====
-- When a thread's wait is over: the test that `schedule` of src/proc/scheduler.c makes of a picked
-- thread.
use drip_os.Prelude.{
  ◌+◌, ◌-◌, ◌<◌, ◌≤◌, ◌^◌, ◌≡◌, refl, Bool, true, false, ◌&&◌, ◌==◌, arith, not, leb, ◌||◌, ◌%◌,
}
use drip_os.Thread.{ready, wait_event, wait_event_timeout, Thread}
use drip_os.Scheduler.{is_runnable, World, Check, again, check, timed_out}

abbrev pub passes_check : Check → Bool
passes_check again = false
passes_check _ = true

-- The thread is ready, or what it waits for has come.
abbrev pub can_run : World → Thread → Bool
can_run w t = is_runnable t && passes_check (check w t)

-- The number of times that the thread's event has come and was not consumed is not 0.
abbrev has_event : World → Thread → Bool
has_event w t = not (w.events t.event == 0)

-- Whether a thread may run, by its state: whether it is ready, or what it waits for has come. The
-- time of a wait is the difference that the source takes, modulo 2^64.
abbrev pub may_run : World → Thread → Bool
may_run w t = elim (t.state) [
  | ready ↦ true
  | wait_event ↦ has_event w t
  | wait_event_timeout ↦
      has_event w t
      || leb t.event_timeout ((t.event_wait_start + 2 ^ 64 - w.global_ticks % 2 ^ 64) % 2 ^ 64)
  | _ ↦ false
]

-- The loop's test is this one.
pub can_run-may_run : (w : World) (t : Thread) → can_run w t ≡ may_run w t
unfolding check
can_run-may_run w t = ground arith

-- `event_wait_start - global_ticks` is negative once a tick has passed, and is compared as an
-- unsigned number: a thread that waits for an event with a timeout can run one tick after it began
-- to wait, although its event has not come and however long its timeout is, if the timeout and the
-- ticks passed together stay within 64 bits.
pub can_run-timeout :
    (w : World) (t : Thread)
    → t.state ≡ wait_event_timeout
    → w.events t.event ≡ 0
    → t.event_wait_start < w.global_ticks
    → w.global_ticks < 2 ^ 64
    → t.event_timeout + (w.global_ticks - t.event_wait_start) ≤ 2 ^ 64
    → can_run w t ≡ true
unfolding check
can_run-timeout w t st quiet passed ticks fits =
    let over : timed_out w t ≡ true = ground arith in rw (st, quiet) (rw over refl)
