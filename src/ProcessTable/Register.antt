-- ===== src/ProcessTable/Register.antt =====
-- What entering a thread or a process does to the tables (src/proc/scheduler.c).
use drip_os.Prelude.{
  ℕ, ◌+◌, ◌<◌, ◌≡◌, refl, sym, ◌∙◌, ap, subst, false, if◌then◌else◌, ◌==◌, Option, none, some, List,
  set, Bool-cases, inl, inr, some-injective, none≢some,
}
use drip_os.Thread.{Thread}
use drip_os.ProcessTable.{
  Process, Kernel, claim_slot, add_new_pid, add_new_tid, slot_at, lock_sched, unlock_sched,
  start_thread, add_process,
}
use drip_os.ProcessTable.Children.{children, is_parent, children-entered}
use drip_os.ProcessTable.Slots.{is_empty, claim_slot-Claimed, slot_at-set}

-- `slots'` is `slots` with a new entry, in what was the lowest empty slot.
pub record Entered {ℓ} {A : Type ℓ} (slots : List (Option A)) (i : ℕ) (a : A)
    (slots' : List (Option A)) : Type ℓ where
  pub was_empty : slot_at slots i ≡ none
  pub lowest : (j : ℕ) → j < i → is_empty slots j ≡ false
  pub reads : (j : ℕ) → slot_at slots' j ≡ (if i == j then some a else slot_at slots j)

pub Claimed-Entered {ℓ} :
    {A : Type ℓ} (slots : List (Option A)) (a : A)
    → Entered slots
        ((claim_slot slots).0)
        a
        (set ((claim_slot slots).1) ((claim_slot slots).0) (some a))
Claimed-Entered slots a =
    let (i, grown) = claim_slot slots in
    let v = claim_slot-Claimed slots in
    record {
      was_empty = v.empty;
      lowest = v.lowest;
      reads = λ j.
          slot_at-set ((claim_slot slots).1) ((claim_slot slots).0) j (some a) v.inside
          ∙ ap (λ s. if (claim_slot slots).0 == j then some a else s) (v.kept j);
    }

start_thread-runs :
    (t : Thread) (k : Kernel)
    → k.sched_lock ≡ false
    → start_thread t k
      ≡ some (
        (claim_slot k.threads).0,
        record {
          threads =
              set
                ((claim_slot k.threads).1)
                ((claim_slot k.threads).0)
                (some (record t { tid = (claim_slot k.threads).0 }));
          processes = k.processes;
          sched_lock = false;
        },
      )
unfolding start_thread lock_sched add_new_tid unlock_sched
start_thread-runs t k free = rw free refl

add_process-runs :
    (p : Process) (k : Kernel)
    → k.sched_lock ≡ false
    → add_process p k
      ≡ some (
        (claim_slot k.processes).0,
        record {
          threads = k.threads;
          processes =
              set
                ((claim_slot k.processes).1)
                ((claim_slot k.processes).0)
                (some (record p { pid = (claim_slot k.processes).0 }));
          sched_lock = false;
        },
      )
unfolding add_process lock_sched add_new_pid unlock_sched
add_process-runs p k free = rw free refl

-- A kernel thread is started whenever the lock is free: it gets the lowest number without a thread,
-- its slot then holds it under that number, the other slots and the processes are as they were, and
-- the lock is free again.
pub start_thread-Entered :
    (t : Thread) (k : Kernel)
    → k.sched_lock ≡ false
    → (tid : ℕ) × (k' : Kernel) × (start_thread t k ≡ some (tid, k'))
      × Entered k.threads tid (record t { tid = tid }) k'.threads
      × (k'.processes ≡ k.processes)
      × (k'.sched_lock ≡ false)
start_thread-Entered t k free =
    (_, _, start_thread-runs t k free, Claimed-Entered k.threads _, refl, refl)

-- A process is added whenever the lock is free: it gets the lowest number without a process, its
-- slot then holds it under that number, the other slots and the threads are as they were, and the
-- lock is free again.
pub add_process-Entered :
    (p : Process) (k : Kernel)
    → k.sched_lock ≡ false
    → (pid : ℕ) × (k' : Kernel) × (add_process p k ≡ some (pid, k'))
      × Entered k.processes pid (record p { pid = pid }) k'.processes
      × (k'.threads ≡ k.threads)
      × (k'.sched_lock ≡ false)
add_process-Entered p k free =
    (_, _, add_process-runs p k free, Claimed-Entered k.processes _, refl, refl)

-- What a call that has entered a kernel thread, or a process, has done.
pub record Started (t : Thread) (k : Kernel) (tid : ℕ) (k' : Kernel) : Type 0 where
  pub entered : Entered k.threads tid (record t { tid = tid }) k'.threads
  pub processes : k'.processes ≡ k.processes
  pub counts :
      (pid : ℕ) → children k'.threads pid ≡ is_parent t.parent_pid pid + children k.threads pid

pub record Added (p : Process) (k : Kernel) (pid : ℕ) (k' : Kernel) : Type 0 where
  pub entered : Entered k.processes pid (record p { pid = pid }) k'.processes
  pub threads : k'.threads ≡ k.threads

pub start_thread-Started :
    (t : Thread) (tid : ℕ) (k k' : Kernel) → start_thread t k ≡ some (tid, k') → Started t k tid k'
unfolding start_thread lock_sched
start_thread-Started t tid k k' e = elim (Bool-cases k.sched_lock) [
  | inl held ↦ absurd (none≢some (sym (rw held refl) ∙ e))
  | inr free ↦
      let same = some-injective (sym (start_thread-runs t k free) ∙ e) in
      subst (λ r. Started t k r.0 r.1) same
        (record {
          entered = Claimed-Entered k.threads _;
          processes = refl;
          counts = children-entered k.threads (record t { tid = (claim_slot k.threads).0 });
        })
]

pub add_process-Added :
    (p : Process) (pid : ℕ) (k k' : Kernel) → add_process p k ≡ some (pid, k') → Added p k pid k'
unfolding add_process lock_sched
add_process-Added p pid k k' e = elim (Bool-cases k.sched_lock) [
  | inl held ↦ absurd (none≢some (sym (rw held refl) ∙ e))
  | inr free ↦
      subst (λ r. Added p k r.0 r.1) (some-injective (sym (add_process-runs p k free) ∙ e))
        (record { entered = Claimed-Entered k.processes _; threads = refl })
]
