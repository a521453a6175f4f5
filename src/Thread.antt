-- ===== src/Thread.antt =====
-- src/proc/process_management.h and src/proc/scheduler.h: what the scheduler reads of a thread, and
-- the table `threads` with the threads by their numbers. A slot without a thread is `none`.
use drip_os.Prelude.{
  Bool, true, false, ℕ, Option, none, some, List, get_elem?, set, get_elem?-set, length,
  if◌then◌else◌, ◌==◌, ltb, ◌≡◌, arith,
}

-- The numbers READY to WAIT_EVENT_TIMEOUT.
pub data State : Type 0 where
  ready running blocked sleep wait_event wait_event_timeout : State

-- `cpu` is `none` where the source has -1; `event` is the address of the counter waited for; the
-- pointer `parent` is read through the parent's number.
pub record Thread : Type 0 where
  pub tid : ℕ
  pub state : State
  pub cpu : Option ℕ
  pub running : ℕ
  pub event : ℕ
  pub event_timeout : ℕ
  pub event_wait_start : ℕ
  pub parent_pid : Option ℕ
  pub cr3 : ℕ

abbrev pub Threads : Type 0
Threads = List (Option Thread)

-- `threads[tid]`; past the end of the table the model reads an empty slot.
abbrev pub thread_at : Threads → ℕ → Option Thread
thread_at ts tid = elim (get_elem? ts tid) [ none ↦ none | some slot ↦ slot ]

abbrev pub put_thread : Threads → ℕ → Thread → Threads
put_thread ts tid t = set ts tid (some t)

abbrev pub is_sleep : State → Bool
is_sleep sleep = true
is_sleep _ = false

abbrev pub is_running : State → Bool
is_running running = true
is_running _ = false

-- Reading the table after a write.
pub thread_at-put :
    (ts : Threads) (i j : ℕ) (t : Thread)
    → thread_at (put_thread ts i t) j
      ≡ (if i == j then (if ltb i (length ts) then some t else none) else thread_at ts j)
thread_at-put ts i j t = ground (arith, get_elem?-set ts i j (some t))
