-- ===== src/Scheduler/Tests.antt =====
-- Runs of the scheduler of src/proc/scheduler.c, and the theorems at concrete tables.
use drip_os.Prelude.{
  ℕ, zero, suc, ◌≡◌, refl, false, arith, [], ◌∷◌, none, some, if◌then◌else◌, ◌==◌,
}
use drip_os.Thread.{
  Thread, Threads, State, ready, sleep, running, blocked, wait_event, wait_event_timeout, thread_at,
}
use drip_os.Scheduler.{
  scan, scan_round, pick_task, World, idle, run, check, choose, Cpu, leave, schedule,
}
use drip_os.Scheduler.Pick.{IsIndexed, Nearest}
use drip_os.Scheduler.Choose.{chosen, choose-eq-scan_round}
use drip_os.Scheduler.Waits.{may_run}
use drip_os.Scheduler.Switch.{IsSound, schedule-runs}

abbrev thread : ℕ → State → ℕ → Thread
thread tid state mark = record {
  tid = tid;
  state = state;
  cpu = none;
  running = mark;
  event = tid;
  event_timeout = 50;
  event_wait_start = 10;
  parent_pid = none;
  cr3 = 0;
}

-- The idle thread, a running thread, an empty slot, one that waits for event 3, and a ready one.
abbrev table : Threads
table =
    some (thread 0 blocked 0)
    ∷ some (thread 1 running 1)
    ∷ none
    ∷ some (thread 3 wait_event 0)
    ∷ some (thread 4 ready 0)
    ∷ []

abbrev quiet : World
quiet = record { events = λ e. 0; global_ticks = 11 }

-- Event 3 has come twice.
abbrev eventful : World
eventful = record quiet { events = λ e. if e == 3 then 2 else 0 }

abbrev cpu : Cpu
cpu = record { current_thread = some 1; idle_tid = 0; cpu_index = 6; currently_idle = false }

table-IsIndexed : IsIndexed table
table-IsIndexed zero t e = ground arith
table-IsIndexed (suc zero) t e = ground arith
table-IsIndexed (suc (suc zero)) t e = ground arith
table-IsIndexed (suc (suc (suc zero))) t e = ground arith
table-IsIndexed (suc (suc (suc (suc zero)))) t e = ground arith
table-IsIndexed (suc (suc (suc (suc (suc j))))) t e = ground arith

table-free : (j : ℕ) (u : Thread) → (1 == j) ≡ false → thread_at table j ≡ some u → u.running ≡ 0
table-free zero u ne e = ground arith
table-free (suc zero) u ne e = ground arith
table-free (suc (suc zero)) u ne e = ground arith
table-free (suc (suc (suc zero))) u ne e = ground arith
table-free (suc (suc (suc (suc zero)))) u ne e = ground arith
table-free (suc (suc (suc (suc (suc j))))) u ne e = ground arith

table-IsSound : IsSound cpu table 1 (thread 1 running 1) (thread 0 blocked 0)
table-IsSound = record {
  indexed = table-IsIndexed;
  at = refl;
  here = refl;
  in_table = omega arith;
  idler_here = refl;
  free = λ j u ne e r. table-free j u ne e;
}

-- The waiting thread is passed over while its event has not come.
picks :
    (choose 6 quiet table none (some 1) ≡ some (run 4))
    × (choose 6 eventful table none (some 1) ≡ some (run 3))
    × (choose 6 quiet (some (thread 0 blocked 0) ∷ some (thread 1 wait_event 0) ∷ []) none (some 1)
        ≡ some idle)
    × (choose 6 quiet (some (thread 0 wait_event_timeout 0) ∷ []) none (some 0) ≡ some (run 0))
unfolding choose pick_task scan_round scan check
picks = (refl, refl, refl, refl)

choose-eq-scan_round_example :
    choose 6 eventful table none (some 1) ≡ some (chosen (scan_round (may_run eventful) table 1))
choose-eq-scan_round_example =
    choose-eq-scan_round eventful table 1 table-IsIndexed (omega arith) 5 (omega arith)

schedule-runs_example :
    (cpu' : Cpu) × (w' : World) × (ts' : Threads) × (u : Thread) × (schedule 6 cpu quiet table
      ≡ some (cpu', w', ts'))
    × (cpu'.current_thread ≡ some 4)
    × Nearest (may_run quiet) (leave cpu table) 1 4
    × (u.state ≡ running)
    × (u.cpu ≡ some 6)
    × (thread_at ts' 1 ≡ (if 4 == 1 then some u else thread_at (leave cpu table) 1))
unfolding leave scan_round scan check
schedule-runs_example =
    schedule-runs 5 cpu quiet table 1 4 1 (thread 1 running 1) (thread 0 blocked 0) table-IsSound
      (omega arith) refl

-- One thread, which goes to sleep.
abbrev sleepy : Threads
sleepy = some (thread 0 blocked 0) ∷ some (thread 1 sleep 1) ∷ []

sleepy-IsIndexed : IsIndexed sleepy
sleepy-IsIndexed zero t e = ground arith
sleepy-IsIndexed (suc zero) t e = ground arith
sleepy-IsIndexed (suc (suc j)) t e = ground arith

sleepy-free : (j : ℕ) (u : Thread) → (1 == j) ≡ false → thread_at sleepy j ≡ some u → u.running ≡ 0
sleepy-free zero u ne e = ground arith
sleepy-free (suc zero) u ne e = ground arith
sleepy-free (suc (suc j)) u ne e = ground arith

sleepy-IsSound : IsSound cpu sleepy 1 (thread 1 sleep 1) (thread 0 blocked 0)
sleepy-IsSound = record {
  indexed = sleepy-IsIndexed;
  at = refl;
  here = refl;
  in_table = omega arith;
  idler_here = refl;
  free = λ j u ne e r. sleepy-free j u ne e;
}
