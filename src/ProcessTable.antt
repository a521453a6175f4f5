-- ===== src/ProcessTable.antt =====
-- src/proc/process_management.c, and the parts of src/proc/scheduler.c that enter threads and
-- processes into their tables and take threads out. Taking `sched_lock` while it is held spins for
-- ever: `none`, as is a failed `assert`. Allocations succeed, and a grown table is zeroed.
pub mod Slots
pub mod Register
pub mod Children
pub mod Kill
pub mod Runs
pub mod Adopt
mod Tests
use drip_os.Prelude.{
  ℕ, zero, suc, ◌+◌, Bool, true, false, Option, none, some, List, [], ◌∷◌, ◌++◌, if◌then◌else◌, ltb,
  add64, sub64, ◌>>=◌, length, get_elem?, set, replicate,
}
use drip_os.Thread.{blocked, ready, Thread, Threads, thread_at, put_thread}

-- `process_t`, as far as the tables go; -1 in `threads` is `none`.
pub record Process : Type 0 where
  pub pid : ℕ
  pub cr3 : ℕ
  pub threads : List (Option ℕ)
  pub child_thread_count : ℕ

-- The globals `threads`, `processes` and `sched_lock`; the sizes are those of the lists.
pub record Kernel : Type 0 where
  pub threads : Threads
  pub processes : List (Option Process)
  pub sched_lock : Bool

-- The first empty slot at or after number `i`.
unfoldable pub first_free {ℓ} : {A : Type ℓ} → List (Option A) → ℕ → Option ℕ
first_free [] i = none
first_free (none ∷ slots) i = some i
first_free (some a ∷ slots) i = first_free slots (i + 1)

-- The search for a slot, and the growth by ten slots if none is empty: the slot's number, and the
-- table.
unfoldable pub claim_slot {ℓ} : {A : Type ℓ} → List (Option A) → ℕ × List (Option A)
claim_slot slots = elim (first_free slots 0) [
  | some i ↦ (i, slots)
  | none ↦ (length slots, slots ++ replicate 10 none)
]

-- The three searches with `locked` set, as every caller has it.
pub add_new_pid : List (Option Process) → ℕ × List (Option Process)
add_new_pid processes = claim_slot processes

pub add_new_tid : Threads → ℕ × Threads
add_new_tid threads = claim_slot threads

pub add_to_process : Process → ℕ × Process
add_to_process parent =
    let (index, slots) = claim_slot parent.threads in
    (
      index,
      record parent { threads = slots; child_thread_count = add64 parent.child_thread_count 1 },
    )

abbrev pub slot_at {ℓ} : {A : Type ℓ} → List (Option A) → ℕ → Option A
slot_at slots i = elim (get_elem? slots i) [ none ↦ none | some slot ↦ slot ]

pub lock_sched : Kernel → Option Kernel
lock_sched k = if k.sched_lock then none else some (record k { sched_lock = true })

pub unlock_sched : Kernel → Kernel
unlock_sched k = record k { sched_lock = false }

pub start_thread : Thread → Kernel → Option (ℕ × Kernel)
start_thread thread k = do
  locked ← lock_sched k
  let (tid, ts) = add_new_tid locked.threads
  let entered = record locked { threads = set ts tid (some (record thread { tid = tid })) }
  some (tid, unlock_sched entered)

-- `add_process` up to the opening of the standard files.
pub add_process : Process → Kernel → Option (ℕ × Kernel)
add_process process k = do
  locked ← lock_sched k
  let (pid, ps) = add_new_pid locked.processes
  let entered = record locked { processes = set ps pid (some (record process { pid = pid })) }
  some (pid, unlock_sched entered)

-- The rest of `add_new_child_thread_no_stack_init` once the parent has been found.
pub adopt : Thread → ℕ → Process → Kernel → ℕ × Kernel
adopt thread pid parent k =
    let (tid, ts) = add_new_tid k.threads in
    let child = record thread { tid = tid; cr3 = parent.cr3; parent_pid = some pid } in
    let (index, grown) = add_to_process parent in
    let parent' = record grown { threads = set grown.threads index (some tid) } in
    (
      tid,
      record k {
        threads = set ts tid (some child);
        processes = set k.processes pid (some parent');
      },
    )

-- The number of the new thread, or -1 (`none`) if there is no such parent. On that path the source
-- returns with the lock held.
pub add_new_child_thread_no_stack_init : Thread → ℕ → Kernel → Option (Option ℕ × Kernel)
add_new_child_thread_no_stack_init thread pid k = do
  locked ← lock_sched k
  elim (slot_at locked.processes pid) [
    | none ↦ some (none, locked)
    | some parent ↦
        let (tid, k') = adopt thread pid parent locked in some (some tid, unlock_sched k')
  ]

-- One child fewer.
pub drop_child : Option ℕ → List (Option Process) → List (Option Process)
drop_child none ps = ps
drop_child (some pid) ps = elim (slot_at ps pid) [
  | none ↦ ps
  | some p ↦ set ps pid (some (record p { child_thread_count = sub64 p.child_thread_count 1 }))
]

-- `kill_thread` of a thread that is on no processor, or once its processor has let go of it.
pub kill_thread : ℕ → Kernel → Option Kernel
kill_thread tid k = do
  locked ← lock_sched k
  thread ← thread_at locked.threads tid
  some (
      unlock_sched (record locked {
        threads = set locked.threads tid none;
        processes = drop_child thread.parent_pid locked.processes;
      }))
