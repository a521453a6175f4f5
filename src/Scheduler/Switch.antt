-- ===== src/Scheduler/Switch.antt =====
-- A whole run of `schedule` in src/proc/scheduler.c.
use drip_os.Prelude.{
  ℕ, zero, suc, ◌<◌, ◌≤◌, ◌≡◌, refl, true, false, if◌then◌else◌, ◌==◌, arith, none, some,
  Bool-cases, inl, inr, length, ap, ◌∙◌, ◌>>=◌, length-set, [], ◌∷◌,
}
use drip_os.Thread.{Thread, Threads, thread_at, put_thread, thread_at-put, State, ready, running}
use drip_os.Scheduler.{
  is_runnable, scan_round, World, Choice, idle, run, check, choose, Cpu, leave, wake_up, is_ready,
  enter, schedule,
}
use drip_os.Scheduler.Pick.{IsIndexed, Nearest, scan_round-Nearest, has-thread}
use drip_os.Scheduler.Choose.{chosen, choose-eq-scan_round}
use drip_os.Scheduler.Waits.{may_run, can_run-may_run, passes_check}

-- What a thread looks like after it has left the processor.
abbrev pub left_state : Cpu → Thread → State
left_state cpu t = elim (t.state) as (λ _. State) [
  | running ↦ if t.tid == cpu.idle_tid then running else ready
  | other ↦ other
]

abbrev pub left_thread : Cpu → Thread → Thread
left_thread cpu t = record t { cpu = none; running = 0; state = left_state cpu t }

leave_lem :
    (cpu : Cpu) (ts : Threads) (cur : ℕ) (t : Thread)
    → cpu.current_thread ≡ some cur
    → thread_at ts cur ≡ some t
    → leave cpu ts ≡ put_thread ts cur (left_thread cpu t)
unfolding leave
leave_lem cpu ts cur t c e = ground arith

wake_up-ready :
    (w : World) (t : Thread)
    → passes_check (check w t) ≡ true
    → is_ready (wake_up w t).1.state ≡ true
unfolding wake_up
wake_up-ready w t h = ground arith

wake_up-running : (w : World) (t : Thread) → (wake_up w t).1.running ≡ t.running
unfolding wake_up
wake_up-running w t = ground arith

-- The table as `schedule` may find it on a processor that runs thread `cur`: threads stand in the
-- slots of their numbers, and none but `cur` that may be picked is marked as running.
pub record IsSound (cpu : Cpu) (ts : Threads) (cur : ℕ) (t idler : Thread) : Type 0 where
  pub indexed : IsIndexed ts
  pub at : cpu.current_thread ≡ some cur
  pub here : thread_at ts cur ≡ some t
  pub in_table : cur < length ts
  pub idler_here : thread_at ts cpu.idle_tid ≡ some idler
  pub free :
      (j : ℕ) (u : Thread)
      → (cur == j) ≡ false
      → thread_at ts j ≡ some u
      → is_runnable u ≡ true
      → u.running ≡ 0

module _ {cpu : Cpu} {ts : Threads} {cur : ℕ} {t idler : Thread}
    (v : IsSound cpu ts cur t idler) where
  leave-at :
      (j : ℕ)
      → thread_at (leave cpu ts) j ≡ (if cur == j then some (left_thread cpu t) else thread_at ts j)
  leave-at j =
      rw (leave_lem cpu ts cur t v.at v.here)
        (ground (arith, thread_at-put ts cur j (left_thread cpu t), v.in_table))

  leave-length : length (leave cpu ts) ≡ length ts
  leave-length =
      rw (leave_lem cpu ts cur t v.at v.here) (length-set ts cur (some (left_thread cpu t)))

  leave-IsIndexed : IsIndexed (leave cpu ts)
  leave-IsIndexed j u e = ground (arith, leave-at j, v.indexed j u, v.indexed cur t, v.here)

  leave-free :
      (j : ℕ) (u : Thread)
      → thread_at (leave cpu ts) j ≡ some u
      → is_runnable u ≡ true
      → u.running ≡ 0
  leave-free j u e r = ground (arith, leave-at j, v.free j u)

  idle-here : (i : Thread) × (thread_at (leave cpu ts) cpu.idle_tid ≡ some i)
  idle-here = elim (Bool-cases (cur == cpu.idle_tid)) [
    | inl e ↦ (left_thread cpu t, leave-at cpu.idle_tid ∙ rw e refl)
    | inr e ↦ (idler, leave-at cpu.idle_tid ∙ rw e v.idler_here)
  ]

-- The thread once it has entered the processor.
abbrev pub entered : Cpu → Thread → Thread
entered cpu t = record t { running = 1; state = running; cpu = some cpu.cpu_index }

enter-run :
    (tid : ℕ) (cpu : Cpu) (w : World) (ts : Threads) (t : Thread)
    → thread_at ts tid ≡ some t
    → passes_check (check w t) ≡ true
    → t.running ≡ 0
    → enter (run tid) cpu w ts
      ≡ some (
        record cpu { current_thread = some tid; currently_idle = false },
        (wake_up w t).0,
        put_thread ts tid (entered cpu (wake_up w t).1),
      )
unfolding enter
enter-run tid cpu w ts t at ok free =
    let r = wake_up-ready w t ok in
    let z : ((wake_up w t).1.running == 0) ≡ true = ground (arith, wake_up-running w t) in
    rw (at, ◌>>=◌) (rw (r, z) refl)

enter-idle :
    (cpu : Cpu) (w : World) (ts : Threads) (t : Thread)
    → thread_at ts cpu.idle_tid ≡ some t
    → enter idle cpu w ts
      ≡ some (
        record cpu { current_thread = some cpu.idle_tid; currently_idle = true },
        w,
        put_thread ts cpu.idle_tid (record t { cpu = some cpu.cpu_index }),
      )
unfolding enter
enter-idle cpu w ts t at = rw (at, ◌>>=◌) refl

in_table : (ts : Threads) (j : ℕ) (t : Thread) → thread_at ts j ≡ some t → j < length ts
in_table [] j t e = absurd (cc)
in_table (x ∷ xs) zero t e = omega arith
in_table (x ∷ xs) (suc j) t e = omega (arith, in_table xs j t e)

schedule-enter :
    (fuel : ℕ) (cpu : Cpu) (w : World) (ts : Threads) (cur : ℕ) (c : Choice)
    → cpu.current_thread ≡ some cur
    → choose fuel w (leave cpu ts) none (some cur) ≡ some c
    → schedule fuel cpu w ts ≡ enter c cpu w (leave cpu ts)
unfolding schedule
schedule-enter fuel cpu w ts cur c at pick =
    let e : choose fuel w (leave cpu ts) none cpu.current_thread ≡ some c =
      ap (choose fuel w (leave cpu ts) none) at ∙ pick in
    rw (e, ◌>>=◌) refl

-- On a table where every thread stands in the slot of its number, the current thread and the idle
-- thread of the processor are there, and no thread but the current one that can be picked is marked
-- as running (which the source asserts of the thread that it picks): if some thread is ready, or
-- waits for an event that has come, or waits with a timeout that is no more than `event_wait_start`
-- less `global_ticks` (the difference that the source takes, modulo 2^64), `schedule` ends and hands
-- the processor to the first such thread behind the current one, going round the table: it is the
-- nearest, it is running on this processor, and every other thread is as the current thread's
-- leaving has made it.
pub schedule-runs :
    (fuel : ℕ) (cpu : Cpu) (w : World) (ts : Threads) (cur tid j : ℕ) (t idler : Thread)
    → IsSound cpu ts cur t idler
    → length ts ≤ fuel
    → scan_round (may_run w) (leave cpu ts) cur ≡ some tid
    → (cpu' : Cpu) × (w' : World) × (ts' : Threads) × (u : Thread) × (schedule (suc fuel) cpu w ts
        ≡ some (cpu', w', ts'))
      × (cpu'.current_thread ≡ some tid)
      × Nearest (may_run w) (leave cpu ts) cur tid
      × (u.state ≡ running)
      × (u.cpu ≡ some cpu.cpu_index)
      × (thread_at ts' j ≡ (if tid == j then some u else thread_at (leave cpu ts) j))
schedule-runs fuel cpu w ts cur tid j t idler v enough next =
    let left = leave cpu ts in
    let inside : cur < length left = omega (arith, leave-length v, v.in_table) in
    let pick =
      choose-eq-scan_round w left cur (leave-IsIndexed v) inside fuel
        (omega (arith, leave-length v)) in
    let near = scan_round-Nearest (may_run w) left cur (leave-IsIndexed v) inside next in
    let (p, at, may) = has-thread (may_run w) left tid near.passes in
    let ok = can_run-may_run w p ∙ may in
    let free = leave-free v tid p at (ground arith) in
    let enters = enter-run tid cpu w left p at (ground arith) free in
    let u = entered cpu (wake_up w p).1 in
    (
      record cpu { current_thread = some tid; currently_idle = false },
      (wake_up w p).0,
      put_thread left tid u,
      u,
      schedule-enter (suc fuel) cpu w ts cur (run tid) v.at (pick ∙ ap (λ n. some (chosen n)) next)
          ∙ enters,
      refl,
      near,
      refl,
      refl,
      ground (arith, thread_at-put left tid j u, in_table left tid p at),
    )

-- If no thread is ready and no wait is over, `schedule` ends and hands the processor to its idle
-- thread; no event is consumed, and no other thread changes but by the current thread's leaving.
pub schedule-idles :
    (fuel : ℕ) (cpu : Cpu) (w : World) (ts : Threads) (cur j : ℕ) (t idler : Thread)
    → IsSound cpu ts cur t idler
    → length ts ≤ fuel
    → scan_round (may_run w) (leave cpu ts) cur ≡ none
    → (cpu' : Cpu) × (ts' : Threads) × (u : Thread) × (schedule (suc fuel) cpu w ts
        ≡ some (cpu', w, ts'))
      × (cpu'.current_thread ≡ some cpu.idle_tid)
      × (cpu'.currently_idle ≡ true)
      × (u.cpu ≡ some cpu.cpu_index)
      × (thread_at ts' j ≡ (if cpu.idle_tid == j then some u else thread_at (leave cpu ts) j))
schedule-idles fuel cpu w ts cur j t idler v enough next =
    let left = leave cpu ts in
    let inside : cur < length left = omega (arith, leave-length v, v.in_table) in
    let pick =
      choose-eq-scan_round w left cur (leave-IsIndexed v) inside fuel
        (omega (arith, leave-length v)) in
    let (i, at) = idle-here v in
    let u = record i { cpu = some cpu.cpu_index } in
    (
      record cpu { current_thread = some cpu.idle_tid; currently_idle = true },
      put_thread left cpu.idle_tid u,
      u,
      schedule-enter (suc fuel) cpu w ts cur idle v.at (pick ∙ ap (λ n. some (chosen n)) next)
          ∙ enter-idle cpu w left i at,
      refl,
      refl,
      refl,
      ground (arith, thread_at-put left cpu.idle_tid j u, in_table left cpu.idle_tid i at),
    )
