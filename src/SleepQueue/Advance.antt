-- ===== src/SleepQueue/Advance.antt =====
-- `advance_time`, `sleep_ms` and `nanosleep` of src/proc/sleep_queue.c over the whole state.
use drip_os.Prelude.{
  ◌+◌, ◌^◌, ◌<◌, ◌≤◌, ◌≡◌, refl, Bool, true, false, if◌then◌else◌, arith, List, [], ◌∷◌, add64,
  Option-cases, inl, inr, ap, sym, ◌∙◌, Option, some, length, ◌>>=◌,
}
use drip_os.SleepQueue.{Clock, ticks, advance_time}
use drip_os.SleepQueue.Deadlines.{
  Deadline, deadlines, total, remaining, expired, wake_all, IsAsleep, IsLive,
}
use drip_os.SleepQueue.Tick.{ticks-Elapsed, remaining-add}

pub record IsValid (c : Clock) : Type 0 where
  pub sleeping : IsAsleep c.threads c.queue
  pub live : IsLive c.queue
  pub bounded : total c.queue < 2 ^ 64

-- The deadlines counted from now: the ticks that were only counted are past.
abbrev pub view : Clock → List Deadline
view c = remaining c.lagged_ticks (deadlines 0 c.queue)

-- On a well-formed state a timer interrupt does not fail and keeps the state well formed, and it
-- brings every deadline nearer by exactly one tick, whether or not the scheduler's lock is held: no
-- tick is lost. The threads that become ready are those whose deadlines have passed, when the lock
-- is free, and none when it is held.
pub advance_time-view :
    (held : Bool) (c : Clock)
    → IsValid c
    → c.lagged_ticks + 1 < 2 ^ 64
    → (c' : Clock) × (advance_time held c ≡ some c')
      × IsValid c'
      × (view c' ≡ remaining 1 (view c))
      × (c'.threads ≡ (
          if held
          then c.threads
          else wake_all c.threads (expired (c.lagged_ticks + 1) (deadlines 0 c.queue))))
unfolding advance_time
advance_time-view true c v h =
    let one : add64 c.lagged_ticks 1 ≡ c.lagged_ticks + 1 = omega arith in
    (
      record c { lagged_ticks = add64 c.lagged_ticks 1 },
      refl,
      record { sleeping = v.sleeping; live = v.live; bounded = v.bounded },
      rw one (sym (remaining-add c.lagged_ticks 1 (deadlines 0 c.queue))),
      refl,
    )
advance_time-view false c v h =
    let one : add64 c.lagged_ticks 1 ≡ c.lagged_ticks + 1 = omega arith in
    let (q, ts, e, d) =
      ticks-Elapsed (c.lagged_ticks + 1) c.queue c.threads v.sleeping v.live v.bounded in
    (
      record { queue = q; threads = ts; lagged_ticks = 0 },
      rw (one, e),
      record {
        sleeping = d.sleeping;
        live = d.live;
        bounded = omega (arith, d.bounded, v.bounded);
      },
      ap (remaining 0) d.queue
          ∙ remaining-add (c.lagged_ticks + 1) 0 (deadlines 0 c.queue)
          ∙ ap (λ n. remaining n (deadlines 0 c.queue)) (omega arith)
          ∙ sym (remaining-add c.lagged_ticks 1 (deadlines 0 c.queue)),
      d.threads,
    )

-- Timer interrupts in a row; each says whether the lock is held when it comes.
pub interrupts : List Bool → Clock → Option Clock
interrupts [] c = some c
interrupts (held ∷ hs) c = advance_time held c >>= interrupts hs

lagged-advance :
    (held : Bool) (c c' : Clock)
    → c.lagged_ticks + 1 < 2 ^ 64
    → advance_time held c ≡ some c'
    → c'.lagged_ticks ≤ c.lagged_ticks + 1
unfolding advance_time
lagged-advance true c c' h e = ground arith
lagged-advance false c c' h e =
    elim (Option-cases (ticks (add64 c.lagged_ticks 1) c.queue c.threads)) [
      | inl none_left ↦ ground arith
      | inr ((q, ts), ran) ↦ ground arith
    ]

-- From a well-formed clock (every thread of the queue is asleep and stands in it once, the first
-- waits for at least one more tick, and the waits together are below 2^64), and as long as the lagged ticks and the interrupts together stay below
-- 2^64, timer interrupts, in whatever order the lock is held or free, bring every deadline nearer
-- by exactly their number of ticks; none of them fails, and the clock stays well formed.
pub interrupts-view :
    (hs : List Bool) (c : Clock)
    → IsValid c
    → c.lagged_ticks + length hs < 2 ^ 64
    → (c' : Clock) × (interrupts hs c ≡ some c')
      × IsValid c'
      × (view c' ≡ remaining (length hs) (view c))
unfolding interrupts
interrupts-view [] c v h = (
  c,
  refl,
  v,
  sym (
      remaining-add c.lagged_ticks 0 (deadlines 0 c.queue)
      ∙ ap (λ n. remaining n (deadlines 0 c.queue)) (omega arith)),
)
interrupts-view (held ∷ hs) c v h =
    let (c₁, e₁, v₁, w₁, t₁) = advance_time-view held c v (omega arith) in
    let low = lagged-advance held c c₁ (omega arith) e₁ in
    let (c', e, v', w) = interrupts-view hs c₁ v₁ (omega arith) in
    (
      c',
      rw e₁ e,
      v',
      w
          ∙ ap (remaining (length hs)) w₁
          ∙ remaining-add 1 (length hs) (view c)
          ∙ ap (λ n. remaining n (view c)) (omega arith),
    )
