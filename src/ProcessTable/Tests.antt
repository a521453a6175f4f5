-- ===== src/ProcessTable/Tests.antt =====
-- Runs of the tables of src/proc/scheduler.c, and the theorems at concrete tables.
use drip_os.Prelude.{ℕ, ◌≡◌, refl, false, arith, [], ◌∷◌, none, some, replicate}
use drip_os.Thread.{Thread, ready}
use drip_os.Scheduler.Pick.{IsIndexed}
use drip_os.ProcessTable.{
  Process, Kernel, claim_slot, slot_at, start_thread, add_process,
  add_new_child_thread_no_stack_init, adopt, drop_child, kill_thread, lock_sched, unlock_sched,
  add_new_tid, add_new_pid, add_to_process, first_free,
}
use drip_os.ProcessTable.Children.{IsCounted}
use drip_os.ProcessTable.Adopt.{Adopted, add_new_child_thread-Adopted, add_new_child_thread-stuck}
use drip_os.ProcessTable.Kill.{kill_thread-stale}
use drip_os.ProcessTable.Runs.{Run, boot, step, add, child, empty_kernel, Run-IsSound}

abbrev thread : Thread
thread = record {
  tid = 0;
  state = ready;
  cpu = none;
  running = 0;
  event = 0;
  event_timeout = 0;
  event_wait_start = 0;
  parent_pid = none;
  cr3 = 4096;
}

abbrev shell : Process
shell = record { pid = 0; cr3 = 8192; threads = []; child_thread_count = 0 }

-- Two slots of threads, of which the second is empty; one process.
abbrev kernel : Kernel
kernel = record {
  threads = some thread ∷ none ∷ [];
  processes = some shell ∷ [];
  sched_lock = false;
}

-- Thread 1 is the shell's child.
abbrev family : Kernel
family = record {
  threads = some thread ∷ some (record thread { tid = 1; cr3 = 8192; parent_pid = some 0 }) ∷ [];
  processes = some (record shell { threads = some 1 ∷ none ∷ []; child_thread_count = 1 }) ∷ [];
  sched_lock = false;
}

add_new_child_thread-Adopted_example :
    (tid : ℕ) × (k' : Kernel) × (add_new_child_thread_no_stack_init thread 0 kernel
      ≡ some (some tid, k'))
    × Adopted thread 0 shell kernel.threads kernel.processes tid k'
add_new_child_thread-Adopted_example = add_new_child_thread-Adopted thread 0 shell kernel refl refl

add_new_child_thread-stuck_example :
    (k' : Kernel) × (add_new_child_thread_no_stack_init thread 7 kernel ≡ some (none, k'))
    × (k'.threads ≡ kernel.threads)
    × (k'.processes ≡ kernel.processes)
    × ((u : Thread) → start_thread u k' ≡ none)
    × ((u : Thread) (other : ℕ) → add_new_child_thread_no_stack_init u other k' ≡ none)
    × ((tid : ℕ) → kill_thread tid k' ≡ none)
add_new_child_thread-stuck_example = add_new_child_thread-stuck thread 7 kernel refl refl

abbrev widowed : Kernel
widowed = record {
  threads = some thread ∷ none ∷ [];
  processes = some (record shell { threads = some 1 ∷ none ∷ []; child_thread_count = 0 }) ∷ [];
  sched_lock = false;
}

kill_child : kill_thread 1 family ≡ some widowed
unfolding kill_thread drop_child lock_sched unlock_sched
kill_child = refl

kill_thread-stale_example :
    ((p' : Process) × (slot_at widowed.processes 0 ≡ some p') × (p'.threads ≡ some 1 ∷ none ∷ []))
    × (kill_thread 1 widowed ≡ none)
kill_thread-stale_example =
    kill_thread-stale 1 0 family widowed
      (record shell { threads = some 1 ∷ none ∷ []; child_thread_count = 1 }) kill_child refl

-- A run: the shell is added, and then a thread of it.
abbrev added : Kernel
added = record { threads = []; processes = some shell ∷ replicate 9 none; sched_lock = false }

abbrev populated : Kernel
populated = record {
  threads = some (record thread { cr3 = 8192; parent_pid = some 0 }) ∷ replicate 9 none;
  processes =
      some (record shell { threads = some 0 ∷ replicate 9 none; child_thread_count = 1 })
      ∷ replicate 9 none;
  sched_lock = false;
}

add_shell : add_process shell empty_kernel ≡ some (0, added)
unfolding add_process claim_slot lock_sched add_new_pid unlock_sched first_free
add_shell = refl

add_child : add_new_child_thread_no_stack_init thread 0 added ≡ some (some 0, populated)
unfolding add_new_child_thread_no_stack_init adopt add_to_process claim_slot lock_sched add_new_tid
    unlock_sched first_free
add_child = refl

populated-Run : Run populated
populated-Run =
    step added populated
      (step empty_kernel added boot (λ pid. omega arith) (add shell 0 refl add_shell))
      (λ pid. omega arith) (child thread 0 (some 0) add_child)

Run-IsSound_example : IsIndexed populated.threads × IsCounted populated
Run-IsSound_example = Run-IsSound populated populated-Run
