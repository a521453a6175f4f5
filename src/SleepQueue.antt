-- ===== src/SleepQueue.antt =====
-- src/proc/sleep_queue.c: sleeping threads in the order of their wake-up, each with the ticks left
-- after the one before it. The chain behind `base_queue` is a list; the base node itself always has
-- `time_left` 0, since nothing writes it. A failed `assert` stops the kernel: `none`.
pub mod Deadlines
pub mod Insert
pub mod Tick
pub mod Advance
pub mod Sleep
mod Tests
use drip_os.Prelude.{
  ℕ, zero, suc, ◌+◌, ◌-◌, ◌*◌, ◌/◌, ◌%◌, ◌^◌, Bool, true, false, ◌&&◌, not, Option, none, some,
  List, [], ◌∷◌, if◌then◌else◌, ◌==◌, leb, ltb, add64, sub64, ◌>>=◌,
}
use drip_os.Thread.{
  State, ready, running, sleep, is_sleep, is_running, Thread, Threads, thread_at, put_thread,
}

-- `sleep_queue_t`
pub record Sleeper : Type 0 where
  pub time_left : ℕ
  pub tid : ℕ

abbrev pub Queue : Type 0
Queue = List Sleeper

-- The search of `insert_to_queue` from a node whose `time_left` is already in `total`; the list is
-- what follows the node. The new node goes there, and the next one becomes relative to it.
pub insert_after : ℕ → ℕ → ℕ → Queue → Queue
insert_after ticks tid total [] = record { time_left = sub64 ticks total; tid = tid } ∷ []
insert_after ticks tid total (next ∷ rest) =
    let before_relative = sub64 ticks total in
    if leb total ticks && leb ticks (add64 total next.time_left)
    then record { time_left = before_relative; tid = tid }
      ∷ record next { time_left = sub64 next.time_left before_relative }
      ∷ rest
    else next ∷ insert_after ticks tid (add64 total next.time_left) rest

pub insert_to_queue : ℕ → ℕ → Queue → Queue
insert_to_queue ticks tid q = insert_after ticks tid 0 q

-- A thread that was killed in its sleep is passed over.
pub wake : Threads → ℕ → Option Threads
wake ts tid = elim (thread_at ts tid) [
  | none ↦ some ts
  | some t ↦
      if is_sleep t.state
      then some (put_thread ts tid (record t { state = ready; running = 0 }))
      else none
]

-- `while (cur && cur->time_left == 0)`: the first nodes leave the queue while they are due.
pub drain : Queue → Threads → Option (Queue × Threads)
drain [] ts = some ([], ts)
drain (cur ∷ next) ts =
    let woken : Option (Queue × Threads) = (do ts' ← wake ts cur.tid; drain next ts') in
    if cur.time_left == 0 then woken else some (cur ∷ next, ts)

-- One round of the loop in `advance_time`.
pub tick : Queue → Threads → Option (Queue × Threads)
tick [] ts = some ([], ts)
tick (cur ∷ next) ts = drain (record cur { time_left = sub64 cur.time_left 1 } ∷ next) ts

pub ticks : ℕ → Queue → Threads → Option (Queue × Threads)
ticks zero q ts = some (q, ts)
ticks (suc n) q ts = do (q', ts') ← tick q ts; ticks n q' ts'

-- The globals: `base_queue.next`, `threads`, `lagged_ticks`.
pub record Clock : Type 0 where
  pub queue : Queue
  pub threads : Threads
  pub lagged_ticks : ℕ

-- The timer interrupt. `held` says whether another processor holds `sched_lock`; if so the tick is
-- only counted.
pub advance_time : Bool → Clock → Option Clock
advance_time true c = some (record c { lagged_ticks = add64 c.lagged_ticks 1 })
advance_time false c = do
  (q, ts) ← ticks (add64 c.lagged_ticks 1) c.queue c.threads
  some (record { queue = q; threads = ts; lagged_ticks = 0 })

-- `sleep_ms` up to the switch to another thread; `tid` is the current thread's number.
pub sleep_ms : ℕ → ℕ → Clock → Option Clock
sleep_ms ms tid c = do
  t ← thread_at c.threads tid
  let asleep = record c {
    queue = insert_to_queue ms t.tid c.queue;
    threads = put_thread c.threads tid (record t { state = sleep });
  }
  if is_running t.state then some asleep else none

pub record TimeSpec : Type 0 where
  pub seconds : ℕ
  pub nanoseconds : ℕ

abbrev pub efault : ℕ
efault = 14

abbrev pub einval : ℕ
einval = 22

-- `req_mapped` and `rem_mapped` are the answers of `range_mapped`; `rem` is a pointer that may be 0.
pub nanosleep : Bool → Bool → ℕ → TimeSpec → ℕ → Clock → Option (ℕ × Clock)
nanosleep req_mapped rem_mapped rem req tid c =
    if not req_mapped
    then some (efault, c)
    else if not rem_mapped && not (rem == 0)
    then some (efault, c)
    else if ltb 999999999 req.nanoseconds
    then some (einval, c)
    else do
      c' ← sleep_ms (add64 (req.nanoseconds / 1000000) (req.seconds * 1000 % 2 ^ 64)) tid c
      some (0, c')
