-- ===== src/Scheduler.antt =====
-- src/proc/scheduler.c, `pick_task` and `schedule`: which thread a processor runs next. The copies
-- of the registers, the floating point state, the address space and the time stamps that go with a
-- switch are left out, as is `sched_lock`, which is held throughout. A pointer to a thread is the
-- thread's number in `threads`; an address of an event is a number into `events`. A failed `assert`
-- stops the kernel: `none`.
pub mod Pick
pub mod Waits
pub mod Choose
pub mod Switch
mod Tests
use drip_os.Prelude.{
  ℕ, zero, suc, ◌+◌, ◌-◌, Bool, true, false, ◌&&◌, ◌||◌, not, Option, none, some, if◌then◌else◌,
  ◌==◌, leb, ltb, sub64, ◌>>=◌, length,
}
use drip_os.Thread.{
  State, ready, running, blocked, sleep, wait_event, wait_event_timeout, Thread, Threads, thread_at,
  put_thread,
}

-- `READY`, `WAIT_EVENT` or `WAIT_EVENT_TIMEOUT`
abbrev pub is_runnable : Thread → Bool
is_runnable t = elim (t.state) [
  | ready ↦ true
  | wait_event ↦ true
  | wait_event_timeout ↦ true
  | _ ↦ false
]

-- The first thread that passes the test among `n` slots from slot `i` on.
pub scan : (Thread → Bool) → Threads → ℕ → ℕ → Option ℕ
scan test ts i zero = none
scan test ts i (suc n) =
    let rest = scan test ts (i + 1) n in
    elim (thread_at ts i) [ none ↦ rest | some task ↦ if test task then some task.tid else rest ]

-- The slots after the current thread's, then those up to it.
pub scan_round : (Thread → Bool) → Threads → ℕ → Option ℕ
scan_round test ts cur = elim (scan test ts (cur + 1) (length ts - (cur + 1))) [
  | none ↦ scan test ts 0 (cur + 1)
  | some tid ↦ some tid
]

-- `none` is -1: no thread, or no current thread to start from.
pub pick_task : Threads → Option ℕ → Option ℕ
pick_task ts none = none
pick_task ts (some cur) = scan_round is_runnable ts cur

-- The counters that the threads wait for, and the tick count.
pub record World : Type 0 where
  pub events : ℕ → ℕ
  pub global_ticks : ℕ

-- `event_wait_start - global_ticks >= event_timeout`, as the source writes it.
abbrev pub timed_out : World → Thread → Bool
timed_out w t = leb t.event_timeout (sub64 t.event_wait_start w.global_ticks)

-- What the processor is to run: the idle thread, or thread `tid`.
pub data Choice : Type 0 where
  idle : Choice
  run : ℕ → Choice

-- What one round of the loop at `repick_task` finds about a picked thread.
pub data Check : Type 0 where
  go : Check
  take_event : Check
  again : Check

pub check : World → Thread → Check
check w t = elim (t.state) [
  | wait_event ↦ if w.events t.event == 0 then again else take_event
  | wait_event_timeout ↦
      if not (w.events t.event == 0) then take_event else if timed_out w t then go else again
  | _ ↦ go
]

-- `picked_first` after a pick, and whether the pick has come back to it.
abbrev pub first_pick : Option ℕ → ℕ → ℕ
first_pick none tid_run = tid_run
first_pick (some f) tid_run = f

abbrev pub came_back : Option ℕ → ℕ → Bool
came_back none tid_run = false
came_back (some f) tid_run = f == tid_run

-- What the check of a picked thread leads to; `repick` is the next round.
abbrev pub after_check : ℕ → Check → Option Choice → Option Choice
after_check tid_run again repick = repick
after_check tid_run _ repick = some (run tid_run)

-- The loop at `repick_task`, with fuel; `none` at the end of it. The current thread is the one
-- picked last.
pub choose : ℕ → World → Threads → Option ℕ → Option ℕ → Option Choice
choose zero w ts picked_first cur = none
choose (suc fuel) w ts picked_first cur = elim (pick_task ts cur) [
  | none ↦ some idle
  | some tid_run ↦
      let repick = choose fuel w ts (some (first_pick picked_first tid_run)) (some tid_run) in
      let checked : Option Choice = do
        to_run ← thread_at ts tid_run
        after_check tid_run (check w to_run) repick
      in if came_back picked_first tid_run then some idle else checked
]

-- The part of `get_cpu_locals()` that `schedule` decides by.
pub record Cpu : Type 0 where
  pub current_thread : Option ℕ
  pub idle_tid : ℕ
  pub cpu_index : ℕ
  pub currently_idle : Bool

-- `schedule`, first part: the running thread leaves the processor.
pub leave : Cpu → Threads → Threads
leave cpu ts = elim (cpu.current_thread) [
  | none ↦ ts
  | some cur ↦ elim (thread_at ts cur) [
    | none ↦ ts
    | some t ↦
        let state = elim (t.state) as (λ _. State) [
          | running ↦ if t.tid == cpu.idle_tid then running else ready
          | other ↦ other
        ] in
        put_thread ts cur (record t { cpu = none; running = 0; state = state })
  ]
]

-- A thread that waited becomes ready; one event is consumed if it came.
pub wake_up : World → Thread → World × Thread
wake_up w t = elim (check w t) [
  | take_event ↦ (
    record w { events = λ e. if e == t.event then w.events e - 1 else w.events e },
    record t { state = ready },
  )
  | go ↦ (w, record t { state = ready })
  | again ↦ (w, t)
]

abbrev pub is_ready : State → Bool
is_ready ready = true
is_ready _ = false

-- `schedule`, last part: the chosen thread enters the processor.
pub enter : Choice → Cpu → World → Threads → Option (Cpu × World × Threads)
enter idle cpu w ts = do
  t ← thread_at ts cpu.idle_tid
  some (
    record cpu { current_thread = some cpu.idle_tid; currently_idle = true },
    w,
    put_thread ts cpu.idle_tid (record t { cpu = some cpu.cpu_index }),
  )
enter (run tid) cpu w ts = do
  picked ← thread_at ts tid
  let (w', t) = wake_up w picked
  if is_ready t.state && (t.running == 0)
      then some (
        record cpu { current_thread = some tid; currently_idle = false },
        w',
        put_thread ts tid (record t { running = 1; state = running; cpu = some cpu.cpu_index }),
      )
      else none

pub schedule : ℕ → Cpu → World → Threads → Option (Cpu × World × Threads)
schedule fuel cpu w ts = do
  let left = leave cpu ts
  c ← choose fuel w left none cpu.current_thread
  enter c cpu w left
