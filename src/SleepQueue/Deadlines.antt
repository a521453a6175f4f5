-- ===== src/SleepQueue/Deadlines.antt =====
-- The abstract view of the queue of src/proc/sleep_queue.c: who wakes up after how many ticks.
use drip_os.Prelude.{
  ℕ, ◌+◌, ◌-◌, ◌<◌, ◌≡◌, Bool, true, if◌then◌else◌, leb, not, ◌&&◌, ◌==◌, Option, none, some, List,
  [], ◌∷◌,
}
use drip_os.Thread.{Thread, Threads, thread_at, put_thread, is_sleep, ready}
use drip_os.SleepQueue.{Queue}

-- Ticks from now, and the thread.
abbrev pub Deadline : Type 0
Deadline = ℕ × ℕ

-- The deadlines of a queue that starts after `base` ticks.
abbrev pub deadlines : ℕ → Queue → List Deadline
deadlines base [] = []
deadlines base (x ∷ xs) = (base + x.time_left, x.tid) ∷ deadlines (base + x.time_left) xs

-- The ticks to the last deadline.
abbrev pub total : Queue → ℕ
total [] = 0
total (x ∷ xs) = x.time_left + total xs

-- A new deadline goes before the first that is not earlier.
unfoldable pub insert_deadline : ℕ → ℕ → List Deadline → List Deadline
insert_deadline t tid [] = (t, tid) ∷ []
insert_deadline t tid ((d, i) ∷ ds) =
    if leb t d then (t, tid) ∷ (d, i) ∷ ds else (d, i) ∷ insert_deadline t tid ds

-- What is left of the deadlines after `n` ticks, and the threads whose deadlines have passed.
unfoldable pub remaining : ℕ → List Deadline → List Deadline
remaining n [] = []
remaining n ((d, i) ∷ ds) = if leb d n then remaining n ds else (d - n, i) ∷ remaining n ds

unfoldable pub expired : ℕ → List Deadline → List ℕ
expired n [] = []
expired n ((d, i) ∷ ds) = if leb d n then i ∷ expired n ds else expired n ds

-- The thread, if there still is one, may run again.
unfoldable pub revive : Threads → ℕ → Option Thread → Threads
revive ts tid none = ts
revive ts tid (some t) = put_thread ts tid (record t { state = ready; running = 0 })

abbrev pub make_ready : Threads → ℕ → Threads
make_ready ts tid = revive ts tid (thread_at ts tid)

unfoldable pub wake_all : Threads → List ℕ → Threads
wake_all ts [] = ts
wake_all ts (i ∷ is) = wake_all (make_ready ts i) is

-- The thread sleeps, or was killed.
abbrev pub asleep : Threads → ℕ → Bool
asleep ts tid = elim (thread_at ts tid) [ none ↦ true | some t ↦ is_sleep t.state ]

abbrev pub absent : ℕ → Queue → Bool
absent tid [] = true
absent tid (x ∷ xs) = not (x.tid == tid) && absent tid xs

-- Every thread of the queue is asleep, and stands in it once.
abbrev pub IsAsleep : Threads → Queue → Type 0
IsAsleep ts [] = Unit {0}
IsAsleep ts (x ∷ xs) = (asleep ts x.tid ≡ true) × (absent x.tid xs ≡ true) × IsAsleep ts xs

-- The first thread waits for at least one more tick.
abbrev pub IsLive : Queue → Type 0
IsLive [] = Unit {0}
IsLive (x ∷ xs) = 0 < x.time_left
