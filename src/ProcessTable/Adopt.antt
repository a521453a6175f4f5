-- ===== src/ProcessTable/Adopt.antt =====
-- `add_new_child_thread_no_stack_init` (src/proc/scheduler.c): a thread enters the tables as the
-- child of a process.
use drip_os.Prelude.{
  ℕ, ◌+◌, ◌^◌, ◌<◌, ◌≡◌, refl, sym, ◌∙◌, ap, subst, true, false, ◌==◌, arith, Option, none, some,
  List, set, Bool-cases, Option-cases, inl, inr, ==_iff, add64, some-injective, none≢some, ◌>>=◌,
  ◌⊎◌,
}
use drip_os.Thread.{Thread, Threads}
use drip_os.ProcessTable.{
  Process, Kernel, slot_at, claim_slot, lock_sched, unlock_sched, add_new_tid, add_to_process,
  start_thread, adopt, add_new_child_thread_no_stack_init, kill_thread,
}
use drip_os.ProcessTable.Slots.{slot_at-set, slot-bound}
use drip_os.ProcessTable.Register.{Entered, Claimed-Entered}
use drip_os.ProcessTable.Children.{IsCounted, children, children-entered, count_of}

-- The child as it is entered, and the parent that has entered it.
abbrev pub child_of : ℕ → Process → ℕ → Thread → Thread
child_of pid parent tid t = record t { tid = tid; cr3 = parent.cr3; parent_pid = some pid }

-- What is promised of the tables after thread `tid` has entered as a child of process `pid`.
pub record Adopted (t : Thread) (pid : ℕ) (parent : Process) (ts : Threads)
    (ps : List (Option Process)) (tid : ℕ) (k' : Kernel) : Type 0 where
  pub thread_in : Entered ts tid (child_of pid parent tid t) k'.threads
  pub parent' : Process
  pub parent_at : slot_at k'.processes pid ≡ some parent'
  pub index : ℕ
  pub child_in : Entered parent.threads index tid parent'.threads
  pub one_more : parent'.child_thread_count ≡ add64 parent.child_thread_count 1
  pub others : (j : ℕ) → (pid == j) ≡ false → slot_at k'.processes j ≡ slot_at ps j
  pub free : k'.sched_lock ≡ false

abbrev parent_of : Process → ℕ → Process
parent_of parent tid = record ((add_to_process parent).1) {
  threads = set (((add_to_process parent).1).threads) ((add_to_process parent).0) (some tid);
}

adopt-Adopted :
    (t : Thread) (pid : ℕ) (parent : Process) (k : Kernel)
    → slot_at k.processes pid ≡ some parent
    → Adopted t pid parent k.threads k.processes
        ((adopt t pid parent k).0)
        (unlock_sched ((adopt t pid parent k).1))
unfolding adopt unlock_sched add_new_tid add_to_process
adopt-Adopted t pid parent k at = record {
  thread_in = Claimed-Entered k.threads _;
  parent' = parent_of parent ((claim_slot k.threads).0);
  parent_at =
      slot_at-set k.processes pid pid (some _) (slot-bound k.processes pid at)
      ∙ rw ((==_iff pid pid).1 refl) refl;
  index = _;
  child_in = Claimed-Entered parent.threads _;
  one_more = refl;
  others =
      λ j ne. slot_at-set k.processes pid j (some _) (slot-bound k.processes pid at) ∙ rw ne refl;
  free = refl;
}

runs :
    (t : Thread) (pid : ℕ) (parent : Process) (k : Kernel)
    → k.sched_lock ≡ false
    → slot_at k.processes pid ≡ some parent
    → add_new_child_thread_no_stack_init t pid k
      ≡ some (
        some ((adopt t pid parent (record k { sched_lock = true })).0),
        unlock_sched ((adopt t pid parent (record k { sched_lock = true })).1),
      )
unfolding add_new_child_thread_no_stack_init lock_sched
runs t pid parent k free at = rw (free, ◌>>=◌, at) refl

fails :
    (t : Thread) (pid : ℕ) (k : Kernel)
    → k.sched_lock ≡ false
    → slot_at k.processes pid ≡ none
    → add_new_child_thread_no_stack_init t pid k ≡ some (none, record k { sched_lock = true })
unfolding add_new_child_thread_no_stack_init lock_sched
fails t pid k free gone = rw (free, ◌>>=◌, gone) refl

-- A thread becomes a child whenever the lock is free and the process exists: it gets the lowest
-- number without a thread and enters its slot with the process's address space and number, the
-- process lists it in its own first empty slot and counts one more, the other threads and
-- processes are as they were, and the lock is free again.
pub add_new_child_thread-Adopted :
    (t : Thread) (pid : ℕ) (parent : Process) (k : Kernel)
    → k.sched_lock ≡ false
    → slot_at k.processes pid ≡ some parent
    → (tid : ℕ) × (k' : Kernel) × (add_new_child_thread_no_stack_init t pid k ≡ some (some tid, k'))
      × Adopted t pid parent k.threads k.processes tid k'
add_new_child_thread-Adopted t pid parent k free at = (
  _,
  _,
  runs t pid parent k free at,
  adopt-Adopted t pid parent (record k { sched_lock = true }) at,
)

-- Where the process does not exist, the call reports -1 and changes neither table, but the lock
-- stays taken: whatever thread is started, made a child or killed next never gets the lock.
pub add_new_child_thread-stuck :
    (t : Thread) (pid : ℕ) (k : Kernel)
    → k.sched_lock ≡ false
    → slot_at k.processes pid ≡ none
    → (k' : Kernel) × (add_new_child_thread_no_stack_init t pid k ≡ some (none, k'))
      × (k'.threads ≡ k.threads)
      × (k'.processes ≡ k.processes)
      × ((u : Thread) → start_thread u k' ≡ none)
      × ((u : Thread) (other : ℕ) → add_new_child_thread_no_stack_init u other k' ≡ none)
      × ((tid : ℕ) → kill_thread tid k' ≡ none)
unfolding add_new_child_thread_no_stack_init start_thread kill_thread lock_sched
add_new_child_thread-stuck t pid k free gone = (
  record k { sched_lock = true },
  fails t pid k free gone,
  refl,
  refl,
  λ u. refl,
  λ u other. refl,
  λ tid. refl,
)

adopt-IsCounted :
    (t : Thread) (pid : ℕ) (parent : Process) (k : Kernel)
    → IsCounted k
    → ((j : ℕ) → children k.threads j + 1 < 2 ^ 64)
    → slot_at k.processes pid ≡ some parent
    → IsCounted (unlock_sched ((adopt t pid parent k).1))
unfolding IsCounted adopt unlock_sched add_new_tid add_to_process
adopt-IsCounted t pid parent k v bound at j =
    let now = children-entered k.threads (child_of pid parent ((claim_slot k.threads).0) t) j in
    let parent' = parent_of parent ((claim_slot k.threads).0) in
    let reads =
      ap count_of (slot_at-set k.processes pid j (some parent') (slot-bound k.processes pid at)) in
    elim (Bool-cases (pid == j)) [
      | inl same ↦
          let was : count_of (slot_at k.processes j) ≡ parent.child_thread_count =
            subst (λ i. count_of (slot_at k.processes i) ≡ parent.child_thread_count)
              ((==_iff pid j).0 same) (ap count_of at) in
          omega (arith, rw same at reads, rw same at now, was, v j, bound j)
      | inr other ↦ omega (arith, rw other at reads, rw other at now, v j)
    ]

-- Entering a child keeps the processes' counts of their threads right, if they can be counted.
pub add_new_child_thread-IsCounted :
    (t : Thread) (pid : ℕ) (k k' : Kernel) (r : Option ℕ)
    → IsCounted k
    → ((j : ℕ) → children k.threads j + 1 < 2 ^ 64)
    → add_new_child_thread_no_stack_init t pid k ≡ some (r, k')
    → IsCounted k'
unfolding add_new_child_thread_no_stack_init lock_sched IsCounted
add_new_child_thread-IsCounted t pid k k' r v bound e = elim (Bool-cases k.sched_lock) [
  | inl held ↦ absurd (none≢some (sym (rw held refl) ∙ e))
  | inr free ↦
      let locked : Kernel = record k { sched_lock = true } in
      elim (Option-cases (slot_at k.processes pid)) [
        | inl gone ↦
            subst IsCounted (ap (λ o. o.1) (some-injective (sym (fails t pid k free gone) ∙ e))) v
        | inr (parent, at) ↦
            subst IsCounted (ap (λ o. o.1) (some-injective (sym (runs t pid parent k free at) ∙ e)))
              (adopt-IsCounted t pid parent locked v bound at)
      ]
]

pub add_new_child_thread-inv :
    (t : Thread) (pid : ℕ) (k k' : Kernel) (r : Option ℕ)
    → add_new_child_thread_no_stack_init t pid k ≡ some (r, k')
    → (k'.threads ≡ k.threads)
      ⊎ ((parent : Process) × (tid : ℕ) × Adopted t pid parent k.threads k.processes tid k')
unfolding add_new_child_thread_no_stack_init lock_sched
add_new_child_thread-inv t pid k k' r e = elim (Bool-cases k.sched_lock) [
  | inl held ↦ absurd (none≢some (sym (rw held refl) ∙ e))
  | inr free ↦ elim (Option-cases (slot_at k.processes pid)) [
    | inl gone ↦
        inl (sym (ap (λ o. o.1.threads) (some-injective (sym (fails t pid k free gone) ∙ e))))
    | inr (parent, at) ↦
        let same = ap (λ o. o.1) (some-injective (sym (runs t pid parent k free at) ∙ e)) in
        inr (
          parent,
          _,
          subst (Adopted t pid parent k.threads k.processes _) same
              (adopt-Adopted t pid parent (record k { sched_lock = true }) at),
        )
  ]
]
