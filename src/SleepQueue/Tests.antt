-- ===== src/SleepQueue/Tests.antt =====
-- Runs of src/proc/sleep_queue.c, and the theorems at concrete states.
use drip_os.Prelude.{ℕ, ◌≡◌, refl, true, false, arith, [], ◌∷◌, none, some}
use drip_os.Thread.{Thread, Threads, State, ready, sleep, running}
use drip_os.SleepQueue.{Queue, Clock, wake, drain, tick, ticks, sleep_ms}
use drip_os.SleepQueue.Deadlines.{deadlines, remaining, insert_deadline, asleep}
use drip_os.SleepQueue.Advance.{IsValid, view, interrupts, interrupts-view}
use drip_os.SleepQueue.Sleep.{sleep_ms-deadlines}

abbrev thread : ℕ → State → Thread
thread tid state = record {
  tid = tid;
  state = state;
  cpu = none;
  running = 0;
  event = 0;
  event_timeout = 0;
  event_wait_start = 0;
  parent_pid = none;
  cr3 = 0;
}

-- Threads 0 and 2 sleep, thread 1 runs, thread 3 was killed in its sleep.
abbrev table : Threads
table = some (thread 0 sleep) ∷ some (thread 1 running) ∷ some (thread 2 sleep) ∷ none ∷ []

-- Deadlines 3, 3 and 7.
abbrev queue : Queue
queue =
    record { time_left = 3; tid = 0 }
    ∷ record { time_left = 0; tid = 3 }
    ∷ record { time_left = 4; tid = 2 }
    ∷ []

abbrev clock : Clock
clock = record { queue = queue; threads = table; lagged_ticks = 0 }

clock-IsValid : IsValid clock
clock-IsValid = record {
  sleeping = (refl, refl, (refl, refl, (refl, refl, tt)));
  live = omega arith;
  bounded = omega arith;
}

three_ticks :
    ticks 3 queue table
    ≡ some (
      record { time_left = 4; tid = 2 } ∷ [],
      some (thread 0 ready) ∷ some (thread 1 running) ∷ some (thread 2 sleep) ∷ none ∷ [],
    )
unfolding ticks tick drain wake
three_ticks = refl

insert_deadline_run :
    insert_deadline 5 1 (deadlines 0 queue) ≡ (3, 0) ∷ (3, 3) ∷ (5, 1) ∷ (7, 2) ∷ []
unfolding insert_deadline
insert_deadline_run = refl

interrupts-view_example :
    (c : Clock) × (interrupts (true ∷ true ∷ false ∷ []) clock ≡ some c)
    × IsValid c
    × (view c ≡ remaining 3 (view clock))
interrupts-view_example =
    interrupts-view (true ∷ true ∷ false ∷ []) clock clock-IsValid (omega arith)

sleep_ms-deadlines_example :
    (c : Clock) × (sleep_ms 5 1 clock ≡ some c)
    × IsValid c
    × (deadlines 0 c.queue ≡ insert_deadline 5 1 (deadlines 0 queue))
    × (asleep c.threads 1 ≡ true)
sleep_ms-deadlines_example =
    sleep_ms-deadlines 5 1 clock (thread 1 running) clock-IsValid refl refl refl refl (omega arith)
      (omega arith)
