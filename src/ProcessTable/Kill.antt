-- ===== src/ProcessTable/Kill.antt =====
-- `kill_thread` (src/proc/scheduler.c) and what it leaves.
use drip_os.Prelude.{
  ℕ, ◌+◌, ◌^◌, ◌<◌, ◌≤◌, ◌≡◌, refl, sym, ◌∙◌, ap, subst, false, if◌then◌else◌, ◌==◌, arith, Option,
  none, some, List, set, Bool-cases, Option-cases, inl, inr, ==_iff, sub64, some-injective,
  none≢some,
}
use drip_os.Thread.{Thread, thread_at}
use drip_os.ProcessTable.{
  Process, Kernel, slot_at, lock_sched, unlock_sched, drop_child, kill_thread,
}
use drip_os.ProcessTable.Slots.{slot_at-set, slot-bound}
use drip_os.ProcessTable.Children.{IsCounted, children, is_parent, children-set, count_of}

kill_thread-runs :
    (tid : ℕ) (k : Kernel) (t : Thread)
    → k.sched_lock ≡ false
    → thread_at k.threads tid ≡ some t
    → kill_thread tid k
      ≡ some (record {
        threads = set k.threads tid none;
        processes = drop_child t.parent_pid k.processes;
        sched_lock = false;
      })
unfolding kill_thread lock_sched unlock_sched
kill_thread-runs tid k t free at = rw (free, at) refl

-- A thread is killed whenever there is one of this number and the lock is free: its slot is empty
-- then, the others are as they were, and the lock is free again.
pub kill_thread-clears :
    (tid : ℕ) (k : Kernel) (t : Thread)
    → k.sched_lock ≡ false
    → thread_at k.threads tid ≡ some t
    → (k' : Kernel) × (kill_thread tid k ≡ some k')
      × ((j : ℕ) → thread_at k'.threads j ≡ (if tid == j then none else thread_at k.threads j))
      × (k'.processes ≡ drop_child t.parent_pid k.processes)
      × (k'.sched_lock ≡ false)
kill_thread-clears tid k t free at = (
  _,
  kill_thread-runs tid k t free at,
  λ j. slot_at-set k.threads tid j none (slot-bound k.threads tid at),
  refl,
  refl,
)

sub64-one : (n : ℕ) → 1 ≤ n → n < 2 ^ 64 → sub64 n 1 + 1 ≡ n
sub64-one n low high = omega arith

-- Reading the processes once a child of `parent` is gone.
drop_child-count :
    (parent : Option ℕ) (ps : List (Option Process)) (pid : ℕ)
    → is_parent parent pid ≤ count_of (slot_at ps pid)
    → count_of (slot_at ps pid) < 2 ^ 64
    → count_of (slot_at (drop_child parent ps) pid) + is_parent parent pid
      ≡ count_of (slot_at ps pid)
unfolding drop_child
drop_child-count none ps pid low high = omega arith
drop_child-count (some p) ps pid low high = elim (Option-cases (slot_at ps p)) [
  | inl e ↦
      rw (drop_child, e)
        (elim (Bool-cases (p == pid)) [
          | inl same ↦
              let at : slot_at ps pid ≡ none =
                subst (λ j. slot_at ps j ≡ none) ((==_iff p pid).0 same) e in
              absurd (omega (arith, rw same at low, ap count_of at))
          | inr other ↦ rw other (omega arith)
        ])
  | inr (a, e) ↦
      let reads =
        slot_at-set ps p pid (some (record a { child_thread_count = sub64 a.child_thread_count 1 }))
          (slot-bound ps p e) in
      elim (Bool-cases (p == pid)) [
        | inl same ↦
            let at : slot_at ps pid ≡ some a =
              subst (λ j. slot_at ps j ≡ some a) ((==_iff p pid).0 same) e in
            let less =
              sub64-one a.child_thread_count (omega (arith, rw same at low, ap count_of at))
                (omega (arith, high, ap count_of at)) in
            rw (drop_child, e, reads, same) (omega (arith, less, ap count_of at))
        | inr other ↦ rw (drop_child, e, reads, other) (omega arith)
      ]
]

-- A call that returned has emptied the slot.
pub kill_thread-reads :
    (tid : ℕ) (k k' : Kernel)
    → kill_thread tid k ≡ some k'
    → (j : ℕ) → thread_at k'.threads j ≡ (if tid == j then none else thread_at k.threads j)
unfolding kill_thread lock_sched
kill_thread-reads tid k k' e j = elim (Bool-cases k.sched_lock) [
  | inl held ↦ absurd (none≢some (sym (rw held refl) ∙ e))
  | inr free ↦ elim (Option-cases (thread_at k.threads tid)) [
    | inl gone ↦ absurd (none≢some (sym (rw (free, gone) refl) ∙ e))
    | inr (t, at) ↦
        subst (λ r. thread_at r.threads j ≡ (if tid == j then none else thread_at k.threads j))
          (some-injective (sym (kill_thread-runs tid k t free at) ∙ e))
          (slot_at-set k.threads tid j none (slot-bound k.threads tid at))
  ]
]

cleared-IsCounted :
    (tid : ℕ) (k : Kernel) (t : Thread)
    → IsCounted k
    → ((pid : ℕ) → children k.threads pid < 2 ^ 64)
    → thread_at k.threads tid ≡ some t
    → (pid : ℕ)
    → count_of (slot_at (drop_child t.parent_pid k.processes) pid)
      ≡ children (set k.threads tid none) pid
unfolding IsCounted
cleared-IsCounted tid k t v bound at pid =
    let step = children-set k.threads tid pid none (slot-bound k.threads tid at) in
    let step' = rw at at step in
    let less =
      drop_child-count t.parent_pid k.processes pid (omega (arith, step', v pid))
        (omega (arith, v pid, bound pid)) in
    omega (arith, step', less, v pid)

-- Killing a thread keeps the processes' counts of their threads right, if they are 64-bit numbers.
pub kill_thread-IsCounted :
    (tid : ℕ) (k k' : Kernel)
    → IsCounted k
    → ((pid : ℕ) → children k.threads pid < 2 ^ 64)
    → kill_thread tid k ≡ some k'
    → IsCounted k'
unfolding kill_thread IsCounted lock_sched unlock_sched
kill_thread-IsCounted tid k k' v bound e = elim (Bool-cases k.sched_lock) [
  | inl held ↦ absurd (none≢some (sym (rw held refl) ∙ e))
  | inr free ↦ elim (Option-cases (thread_at k.threads tid)) [
    | inl gone ↦ absurd (none≢some (sym (rw (free, gone) refl) ∙ e))
    | inr (t, at) ↦
        subst IsCounted (some-injective (sym (kill_thread-runs tid k t free at) ∙ e))
          (cleared-IsCounted tid k t v bound at)
  ]
]

kill_thread-gone :
    (tid : ℕ) (k : Kernel) → thread_at k.threads tid ≡ none → kill_thread tid k ≡ none
unfolding kill_thread lock_sched
kill_thread-gone tid k gone = elim (Bool-cases k.sched_lock) [
  | inl held ↦ rw held refl
  | inr free ↦ rw (free, gone) refl
]

drop_child-threads :
    (parent : Option ℕ) (ps : List (Option Process)) (pid : ℕ) (p : Process)
    → slot_at ps pid ≡ some p
    → (p' : Process) × (slot_at (drop_child parent ps) pid ≡ some p') × (p'.threads ≡ p.threads)
unfolding drop_child
drop_child-threads none ps pid p at = (p, at, refl)
drop_child-threads (some q) ps pid p at = elim (Option-cases (slot_at ps q)) [
  | inl gone ↦ (p, rw (drop_child, gone) at, refl)
  | inr (a, e) ↦
      let new = record a { child_thread_count = sub64 a.child_thread_count 1 } in
      let reads = slot_at-set ps q pid (some new) (slot-bound ps q e) in
      elim (Bool-cases (q == pid)) [
        | inl same ↦
            let there : a ≡ p =
              some-injective
                (sym e ∙ subst (λ j. slot_at ps j ≡ some p) (sym ((==_iff q pid).0 same)) at) in
            (new, rw (drop_child, e, reads, same) refl, ap (λ x. x.threads) there)
        | inr other ↦ (p, rw (drop_child, e, reads, other) at, refl)
      ]
]

-- A call that has killed a thread has left every process's list of thread numbers as it was, so
-- its parent still lists the number; and killing a thread of that number again, before it is
-- given out anew, fails the assertion that there is one.
pub kill_thread-stale :
    (tid pid : ℕ) (k k' : Kernel) (p : Process)
    → kill_thread tid k ≡ some k'
    → slot_at k.processes pid ≡ some p
    → ((p' : Process) × (slot_at k'.processes pid ≡ some p') × (p'.threads ≡ p.threads))
      × (kill_thread tid k' ≡ none)
unfolding kill_thread lock_sched
kill_thread-stale tid pid k k' p e at = elim (Bool-cases k.sched_lock) [
  | inl held ↦ absurd (none≢some (sym (rw held refl) ∙ e))
  | inr free ↦ elim (Option-cases (thread_at k.threads tid)) [
    | inl gone ↦ absurd (none≢some (sym (rw (free, gone) refl) ∙ e))
    | inr (t, there) ↦
        let same = some-injective (sym (kill_thread-runs tid k t free there) ∙ e) in
        (
          subst
              (λ r. (p' : Process) × (slot_at r.processes pid ≡ some p') × (p'.threads ≡ p.threads))
              same (drop_child-threads t.parent_pid k.processes pid p at),
          kill_thread-gone tid k'
              (rw ((==_iff tid tid).1 refl) at (kill_thread-reads tid k k' e tid)),
        )
  ]
]
