-- ===== src/Scheduler/Choose.antt =====
-- The loop at `repick_task` in `schedule` of src/proc/scheduler.c against its purpose: run the next
-- thread round the table that can run.
use drip_os.Prelude.{
  ℕ, zero, suc, ◌+◌, ◌<◌, ◌≤◌, ◌≡◌, refl, true, false, if◌then◌else◌, ◌==◌, ==_iff, arith, Option,
  none, some, Option-cases, Bool-cases, inl, inr, length, sym, ◌∙◌, subst, ◌>>=◌, false≢true,
  fun_ext,
}
use drip_os.Thread.{Thread, Threads, thread_at}
use drip_os.Scheduler.{
  is_runnable, scan_round, pick_task, World, Choice, idle, run, Check, go, take_event, again, check,
  first_pick, came_back, after_check, choose,
}
use drip_os.Scheduler.Pick.{
  has, IsIndexed, dist, Nearest, scan_round-Nearest, scan_round-none, Nearest-scan_round,
  has-thread,
}
use drip_os.Scheduler.Waits.{passes_check, can_run, may_run, can_run-may_run}

abbrev pub chosen : Option ℕ → Choice
chosen none = idle
chosen (some tid) = run tid

choose-none :
    (fuel : ℕ) (w : World) (ts : Threads) (first : Option ℕ) (cur : ℕ)
    → scan_round is_runnable ts cur ≡ none
    → choose (suc fuel) w ts first (some cur) ≡ some idle
unfolding choose pick_task
choose-none fuel w ts first cur e = rw (e, choose)

choose-some :
    (fuel : ℕ) (w : World) (ts : Threads) (first : Option ℕ) (cur t : ℕ) (task : Thread)
    → scan_round is_runnable ts cur ≡ some t
    → thread_at ts t ≡ some task
    → choose (suc fuel) w ts first (some cur) ≡ (
        if came_back first t
        then some idle
        else after_check t (check w task) (choose fuel w ts (some (first_pick first t)) (some t)))
unfolding choose pick_task
choose-some fuel w ts first cur t task e at = rw (e, choose) (rw (at, ◌>>=◌))

module _ (w : World) (ts : Threads) (start : ℕ) (indexed : IsIndexed ts)
    (inside : start < length ts) where
  abbrev far : ℕ → ℕ
  far j = dist (length ts) start j

  can_run-runnable : (j : ℕ) → has (can_run w) ts j ≡ true → has is_runnable ts j ≡ true
  can_run-runnable j h =
      let (t, at, p) = has-thread (can_run w) ts j h in rw (at, has) (ground arith)

  can_run-check :
      (j : ℕ) (task : Thread)
      → thread_at ts j ≡ some task
      → has is_runnable ts j ≡ true
      → has (can_run w) ts j ≡ passes_check (check w task)
  can_run-check j task at h =
      let r : is_runnable task ≡ true = rw (at, has) at h in rw (at, has) (rw r refl)

  -- The loop has picked `cur` last and `first` first: nothing that it has passed can run.
  record Looked (first cur : ℕ) : Type 0 where
    first_in : first < length ts
    cur_in : cur < length ts
    first_runs : has is_runnable ts first ≡ true
    cur_runs : has is_runnable ts cur ≡ true
    first_nearest : (j : ℕ) → j < length ts → has is_runnable ts j ≡ true → far first ≤ far j
    order : far first ≤ far cur
    passed : (j : ℕ) → j < length ts → has (can_run w) ts j ≡ true → far cur < far j

  -- What the next pick after `cur` is, if it is not the first again: further on, and no later than
  -- anything that can run.
  ahead :
      (first cur t : ℕ)
      → Looked first cur
      → Nearest is_runnable ts cur t
      → (first == t) ≡ false
      → far cur < far t
  ahead first cur t l near other = ground (
    arith,
    near.nearest first l.first_in l.first_runs,
    l.first_nearest t near.inside near.passes,
    l.first_in,
    l.cur_in,
    l.order,
    near.inside,
  )

  nearer :
      (first cur t j : ℕ)
      → Looked first cur
      → Nearest is_runnable ts cur t
      → far cur < far t
      → j < length ts
      → has (can_run w) ts j ≡ true
      → far t ≤ far j
  nearer first cur t j l near lt hj h =
      ground
        (arith, near.nearest j hj (can_run-runnable j h), l.passed j hj h, l.cur_in, near.inside)

  -- The loop has come back to the first pick: nothing can run.
  back-none :
      (first cur : ℕ)
      → Looked first cur
      → Nearest is_runnable ts cur first
      → scan_round (can_run w) ts start ≡ none
  back-none first cur l near = elim (Option-cases (scan_round (can_run w) ts start)) [
    | inl e ↦ e
    | inr (j, e) ↦
        let found = scan_round-Nearest (can_run w) ts start indexed inside e in
        absurd (
          ground (
            arith,
            l.passed j found.inside found.passes,
            near.nearest j found.inside (can_run-runnable j found.passes),
            l.order,
            l.first_in,
            l.cur_in,
            found.inside,
          ))
  ]

  -- The pick passes its check: it is what the scan for threads that can run finds.
  run-some :
      (t : ℕ) (task : Thread)
      → t < length ts
      → thread_at ts t ≡ some task
      → has is_runnable ts t ≡ true
      → passes_check (check w task) ≡ true
      → ((j : ℕ) → j < length ts → has (can_run w) ts j ≡ true → far t ≤ far j)
      → scan_round (can_run w) ts start ≡ some t
  run-some t task lt at runs ok near =
      Nearest-scan_round (can_run w) ts start t indexed inside
        (record { inside = lt; passes = can_run-check t task at runs ∙ ok; nearest = near })

  after_check-run :
      (t : ℕ) (c : Check) (repick : Option Choice)
      → passes_check c ≡ true
      → after_check t c repick ≡ some (run t)
  after_check-run t go repick h = refl
  after_check-run t take_event repick h = refl
  after_check-run t again repick h = absurd (false≢true h)

  after_check-again :
      (t : ℕ) (c : Check) (repick : Option Choice)
      → passes_check c ≡ false
      → after_check t c repick ≡ repick
  after_check-again t go repick h = absurd (false≢true (sym h))
  after_check-again t take_event repick h = absurd (false≢true (sym h))
  after_check-again t again repick h = refl

  -- A pick that fails its check cannot run, so whatever can run is further on.
  move_on :
      (t j : ℕ) (task : Thread)
      → thread_at ts t ≡ some task
      → has is_runnable ts t ≡ true
      → t < length ts
      → passes_check (check w task) ≡ false
      → j < length ts
      → has (can_run w) ts j ≡ true
      → far t ≤ far j
      → far t < far j
  move_on t j task at runs ht bad hj h le = elim (Bool-cases (t == j)) [
    | inl e ↦
        let same = (==_iff t j).0 e in
        absurd (
          false≢true (
            sym bad
            ∙ sym (can_run-check t task at runs)
            ∙ subst (λ k. has (can_run w) ts k ≡ true) (sym same) h))
    | inr e ↦ ground arith
  ]

  loop :
      (fuel first cur : ℕ)
      → Looked first cur
      → length ts < far cur + fuel
      → choose fuel w ts (some first) (some cur) ≡ some (chosen (scan_round (can_run w) ts start))
  loop zero first cur l enough = absurd (ground (arith, l.cur_in))
  loop (suc fuel) first cur l enough = elim (Option-cases (scan_round is_runnable ts cur)) [
    | inl e ↦
        absurd (
          false≢true (sym (scan_round-none is_runnable ts cur cur indexed e l.cur_in) ∙ l.cur_runs))
    | inr (t, e) ↦
        let near = scan_round-Nearest is_runnable ts cur indexed l.cur_in e in
        let (task, at, r) = has-thread is_runnable ts t near.passes in
        let step = choose-some fuel w ts (some first) cur t task e at in
        elim (Bool-cases (first == t)) [
          | inl back ↦
              let near' : Nearest is_runnable ts cur first =
                subst (Nearest is_runnable ts cur) (sym ((==_iff first t).0 back)) near in
              rw (step, back, back-none first cur l near')
          | inr other ↦
              let on = ahead first cur t l near other in
              elim (Bool-cases (passes_check (check w task))) [
                | inl ok ↦ rw (
                  step,
                  other,
                  after_check-run t (check w task) (choose fuel w ts (some first) (some t)) ok,
                  run-some t task near.inside at near.passes ok
                      (λ j hj h. nearer first cur t j l near on hj h),
                )
                | inr bad ↦
                    rw
                      (
                        step,
                        other,
                        after_check-again t (check w task) (choose fuel w ts (some first) (some t))
                            bad,
                      )
                      (loop fuel first t
                        (record {
                          first_in = l.first_in;
                          cur_in = near.inside;
                          first_runs = l.first_runs;
                          cur_runs = near.passes;
                          first_nearest = l.first_nearest;
                          order = omega (arith, l.order, on);
                          passed = λ j hj h.
                              move_on t j task at near.passes near.inside bad hj h
                                (nearer first cur t j l near on hj h);
                        })
                        (omega (arith, on, enough)))
              ]
        ]
  ]

  nothing-runs : scan_round is_runnable ts start ≡ none → scan_round (can_run w) ts start ≡ none
  nothing-runs e = elim (Option-cases (scan_round (can_run w) ts start)) [
    | inl gone ↦ gone
    | inr (j, found) ↦
        let near = scan_round-Nearest (can_run w) ts start indexed inside found in
        absurd (
          false≢true (
            sym (scan_round-none is_runnable ts start j indexed e near.inside)
            ∙ can_run-runnable j near.passes))
  ]

  choose-can_run :
      (fuel : ℕ)
      → length ts ≤ fuel
      → choose (suc fuel) w ts none (some start) ≡ some (chosen (scan_round (can_run w) ts start))
  choose-can_run fuel enough = elim (Option-cases (scan_round is_runnable ts start)) [
    | inl e ↦ rw (choose-none fuel w ts none start e, nothing-runs e)
    | inr (t, e) ↦
        let near = scan_round-Nearest is_runnable ts start indexed inside e in
        let (task, at, r) = has-thread is_runnable ts t near.passes in
        let step = choose-some fuel w ts none start t task e at in
        let first : (j : ℕ) → j < length ts → has (can_run w) ts j ≡ true → far t ≤ far j =
          λ j hj h. near.nearest j hj (can_run-runnable j h) in
        elim (Bool-cases (passes_check (check w task))) [
          | inl ok ↦ rw (
            step,
            after_check-run t (check w task) (choose fuel w ts (some t) (some t)) ok,
            run-some t task near.inside at near.passes ok first,
          )
          | inr bad ↦
              rw (step, after_check-again t (check w task) (choose fuel w ts (some t) (some t)) bad)
                (loop fuel t t
                  (record {
                    first_in = near.inside;
                    cur_in = near.inside;
                    first_runs = near.passes;
                    cur_runs = near.passes;
                    first_nearest = near.nearest;
                    order = omega arith;
                    passed = λ j hj h.
                        move_on t j task at near.passes near.inside bad hj h (first j hj h);
                  })
                  (ground (arith, near.inside)))
        ]
  ]

  -- Where every thread stands in the slot of its number, and `start` is in the table: the loop at
  -- `repick_task`, started at thread `start`, ends after at most one round of the table
  -- (`length ts + 1` picks are enough), and its choice is the first thread after `start`, going
  -- round the table with `start` last, that is ready, or waits for an event that has come, or waits
  -- with a timeout that is no more than `event_wait_start` less `global_ticks`, the difference that
  -- the source takes, modulo 2^64; the choice is the idle thread exactly if there is no such thread.
  pub choose-eq-scan_round :
      (fuel : ℕ)
      → length ts ≤ fuel
      → choose (suc fuel) w ts none (some start) ≡ some (chosen (scan_round (may_run w) ts start))
  choose-eq-scan_round fuel enough =
      subst
        (λ test.
          choose (suc fuel) w ts none (some start) ≡ some (chosen (scan_round test ts start)))
        (fun_ext (can_run-may_run w)) (choose-can_run fuel enough)
