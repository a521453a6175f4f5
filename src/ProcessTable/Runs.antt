-- ===== src/ProcessTable/Runs.antt =====
-- The tables over a whole run of the kernel: threads and processes enter and threads are killed, in
-- any order.
use drip_os.Prelude.{
  ℕ, ◌+◌, ◌^◌, ◌<◌, ◌≡◌, refl, sym, ◌∙◌, ap, subst, false, ◌==◌, arith, Option, none, some, [],
  Bool-cases, inl, inr, ==_iff, some-injective, none≢some,
}
use drip_os.Thread.{Thread, Threads}
use drip_os.Scheduler.Pick.{IsIndexed}
use drip_os.ProcessTable.{
  Process, Kernel, slot_at, start_thread, add_process, add_new_child_thread_no_stack_init,
  kill_thread,
}
use drip_os.ProcessTable.Register.{Entered, start_thread-Started, add_process-Added}
use drip_os.ProcessTable.Adopt.{add_new_child_thread-inv, add_new_child_thread-IsCounted}
use drip_os.ProcessTable.Children.{IsCounted, children, count_of}
use drip_os.ProcessTable.Kill.{kill_thread-reads, kill_thread-IsCounted}

-- One call. A kernel thread has no parent, a new process no threads.
pub data Step (k k' : Kernel) : Type 0 where
  start :
      (t : Thread) (tid : ℕ) → t.parent_pid ≡ none → start_thread t k ≡ some (tid, k') → Step k k'
  add :
      (p : Process) (pid : ℕ)
      → p.child_thread_count ≡ 0
      → add_process p k ≡ some (pid, k')
      → Step k k'
  child :
      (t : Thread) (pid : ℕ) (r : Option ℕ)
      → add_new_child_thread_no_stack_init t pid k ≡ some (r, k')
      → Step k k'
  kill : (tid : ℕ) → kill_thread tid k ≡ some k' → Step k k'

-- The tables before the first thread.
abbrev pub empty_kernel : Kernel
empty_kernel = record { threads = []; processes = []; sched_lock = false }

-- A run from the empty tables in which no process ever gets to 2^64 - 1 threads.
pub data Run : Kernel → Type 0 where
  boot : Run empty_kernel
  step :
      (k k' : Kernel)
      → Run k
      → ((pid : ℕ) → children k.threads pid + 1 < 2 ^ 64)
      → Step k k'
      → Run k'

Entered-IsIndexed :
    (ts ts' : Threads) (tid : ℕ) (t : Thread)
    → t.tid ≡ tid
    → IsIndexed ts
    → Entered ts tid t ts'
    → IsIndexed ts'
Entered-IsIndexed ts ts' tid t same v entered j u e = elim (Bool-cases (tid == j)) [
  | inl at ↦
      let there : t ≡ u = some-injective (sym (rw at at (entered.reads j)) ∙ e) in
      sym (ap (λ x. x.tid) there) ∙ same ∙ (==_iff tid j).0 at
  | inr other ↦ v j u (sym (rw other at (entered.reads j)) ∙ e)
]

Step-IsIndexed : (k k' : Kernel) → IsIndexed k.threads → Step k k' → IsIndexed k'.threads
Step-IsIndexed k k' v (start t tid orphan e) =
    Entered-IsIndexed k.threads k'.threads tid _ refl v
      ((start_thread-Started t tid k k' e).entered)
Step-IsIndexed k k' v (add p pid childless e) =
    subst IsIndexed (sym ((add_process-Added p pid k k' e).threads)) v
Step-IsIndexed k k' v (child t pid r e) = elim (add_new_child_thread-inv t pid k k' r e) [
  | inl same ↦ subst IsIndexed (sym same) v
  | inr (parent, tid, a) ↦ Entered-IsIndexed k.threads k'.threads tid _ refl v a.thread_in
]
Step-IsIndexed k k' v (kill tid e) = λ j t at. elim (Bool-cases (tid == j)) [
  | inl here ↦ absurd (none≢some (sym (rw here at (kill_thread-reads tid k k' e j)) ∙ at))
  | inr other ↦ v j t (sym (rw other at (kill_thread-reads tid k k' e j)) ∙ at)
]

Step-IsCounted :
    (k k' : Kernel)
    → IsCounted k
    → ((pid : ℕ) → children k.threads pid + 1 < 2 ^ 64)
    → Step k k'
    → IsCounted k'
unfolding IsCounted
Step-IsCounted k k' v bound (start t tid orphan e) = λ pid.
    let s = start_thread-Started t tid k k' e in
    let count = s.counts pid in rw s.processes (omega (arith, v pid, rw orphan at count))
Step-IsCounted k k' v bound (add p pid childless e) = λ j.
    let a = add_process-Added p pid k k' e in
    rw a.threads (elim (Bool-cases (pid == j)) [
      | inl at ↦
          let gone : slot_at k.processes j ≡ none =
            subst (λ i. slot_at k.processes i ≡ none) ((==_iff pid j).0 at) a.entered.was_empty in
          rw (a.entered.reads j, at) (omega (arith, childless, v j, ap count_of gone))
      | inr other ↦ rw (a.entered.reads j, other) (v j)
    ])
Step-IsCounted k k' v bound (child t pid r e) =
    add_new_child_thread-IsCounted t pid k k' r v bound e
Step-IsCounted k k' v bound (kill tid e) =
    kill_thread-IsCounted tid k k' v (λ j. omega (arith, bound j)) e

-- In every run from the empty tables in which kernel threads are started without a parent,
-- processes are added without threads, and no process gets to 2^64 - 1 threads, each thread is
-- in the slot of its number, and each process counts exactly its threads in the table.
pub Run-IsSound : (k : Kernel) → Run k → IsIndexed k.threads × IsCounted k
unfolding IsCounted
Run-IsSound k boot = (λ j t e. absurd (none≢some e), λ pid. refl)
Run-IsSound _ (step k k' r bound s) =
    let (indexed, counted) = Run-IsSound k r in
    (Step-IsIndexed k k' indexed s, Step-IsCounted k k' counted bound s)
