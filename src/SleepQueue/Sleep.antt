-- ===== src/SleepQueue/Sleep.antt =====
-- `sleep_ms` and `nanosleep` of src/proc/sleep_queue.c.
use drip_os.Prelude.{
  ℕ, ◌-◌, ◌*◌, ◌/◌, ◌%◌, ◌^◌, ◌<◌, ◌≡◌, refl, true, false, if◌then◌else◌, ◌==◌, leb, ltb, not, ◌&&◌,
  arith, [], ◌∷◌, add64, sub64, Bool-cases, inl, inr, some, get_elem?-set, ◌>>=◌,
}
use drip_os.Thread.{Thread, Threads, thread_at, put_thread, sleep, running, is_sleep, is_running}
use drip_os.SleepQueue.{
  Queue, Clock, TimeSpec, drain, tick, ticks, insert_after, insert_to_queue, advance_time, sleep_ms,
  nanosleep,
}
use drip_os.SleepQueue.Deadlines.{deadlines, total, insert_deadline, asleep, absent, IsAsleep}
use drip_os.SleepQueue.Insert.{
  insert_to_queue-deadlines, insert_to_queue-total, insert_to_queue-IsLive,
}
use drip_os.SleepQueue.Advance.{IsValid}

absent-insert_after :
    (j t tid base : ℕ) (q : Queue)
    → absent j (insert_after t tid base q) ≡ (not (tid == j) && absent j q)
unfolding insert_after
absent-insert_after j t tid base [] = ground arith
absent-insert_after j t tid base (x ∷ xs) =
    ground (arith, absent-insert_after j t tid (add64 base x.time_left) xs)

IsAsleep-insert_after :
    (ts : Threads) (t tid base : ℕ) (q : Queue)
    → asleep ts tid ≡ true
    → absent tid q ≡ true
    → IsAsleep ts q
    → IsAsleep ts (insert_after t tid base q)
unfolding insert_after
IsAsleep-insert_after ts t tid base [] h a v = (h, refl, tt)
IsAsleep-insert_after ts t tid base (x ∷ xs) h a v =
    elim (Bool-cases (leb base t && leb t (add64 base x.time_left))) [
      | inl e ↦ rw e (h, a, v)
      | inr e ↦ rw e (
        v.0,
        ground (arith, absent-insert_after x.tid t tid (add64 base x.time_left) xs),
        IsAsleep-insert_after ts t tid (add64 base x.time_left) xs h (ground arith) v.2,
      )
    ]

asleep-put :
    (ts : Threads) (i j : ℕ) (t : Thread)
    → is_sleep t.state ≡ true
    → asleep (put_thread ts i t) j ≡ (if i == j then true else asleep ts j)
asleep-put ts i j t h = ground (arith, get_elem?-set ts i j (some t))

IsAsleep-put :
    (ts : Threads) (i : ℕ) (t : Thread) (q : Queue)
    → is_sleep t.state ≡ true
    → IsAsleep ts q
    → IsAsleep (put_thread ts i t) q
IsAsleep-put ts i t [] h v = tt
IsAsleep-put ts i t (x ∷ xs) h v =
    (ground (arith, asleep-put ts i x.tid t h), v.1, IsAsleep-put ts i t xs h v.2)

insert_to_queue-IsAsleep :
    (ts : Threads) (t tid : ℕ) (q : Queue)
    → asleep ts tid ≡ true
    → absent tid q ≡ true
    → IsAsleep ts q
    → IsAsleep ts (insert_to_queue t tid q)
unfolding insert_to_queue
insert_to_queue-IsAsleep ts t tid q h a v = IsAsleep-insert_after ts t tid 0 q h a v

-- A running thread that asks to sleep for at least a millisecond falls asleep without failure, the
-- state stays well formed, and the queue has the new deadline in its place among the others, which
-- do not change.
pub sleep_ms-deadlines :
    (ms tid : ℕ) (c : Clock) (t : Thread)
    → IsValid c
    → thread_at c.threads tid ≡ some t
    → t.state ≡ running
    → t.tid ≡ tid
    → absent tid c.queue ≡ true
    → 0 < ms
    → ms < 2 ^ 64
    → (c' : Clock) × (sleep_ms ms tid c ≡ some c')
      × IsValid c'
      × (deadlines 0 c'.queue ≡ insert_deadline ms tid (deadlines 0 c.queue))
      × (asleep c'.threads tid ≡ true)
unfolding sleep_ms
sleep_ms-deadlines ms tid c t v at run own new pos small =
    let ts = put_thread c.threads tid (record t { state = sleep }) in
    let here : asleep ts tid ≡ true =
      ground (arith, asleep-put c.threads tid tid (record t { state = sleep }) refl) in
    let go : is_running t.state ≡ true = rw run refl in
    (
      record c { queue = insert_to_queue ms tid c.queue; threads = ts },
      rw (at, ◌>>=◌) (rw (go, own) refl),
      record {
        sleeping =
            insert_to_queue-IsAsleep ts ms tid c.queue here new
              (IsAsleep-put c.threads tid (record t { state = sleep }) c.queue refl v.sleeping);
        live = insert_to_queue-IsLive ms tid c.queue pos small v.live;
        bounded = insert_to_queue-total ms tid c.queue small v.bounded;
      },
      insert_to_queue-deadlines ms tid c.queue small v.bounded,
      here,
    )

-- A wait of no tick goes to the front, and does not come down to zero at the next tick.
insert_to_queue-zero :
    (tid : ℕ) (q : Queue)
    → total q < 2 ^ 64
    → insert_to_queue 0 tid q ≡ record { time_left = 0; tid = tid } ∷ q
unfolding insert_to_queue insert_after
insert_to_queue-zero tid [] h = refl
insert_to_queue-zero tid (x ∷ xs) h =
    let same : sub64 x.time_left 0 ≡ x.time_left = omega arith in rw same (ground arith)

tick-zero :
    (tid : ℕ) (q : Queue) (ts : Threads)
    → tick (record { time_left = 0; tid = tid } ∷ q) ts
      ≡ some (record { time_left = 2 ^ 64 - 1; tid = tid } ∷ q, ts)
unfolding tick drain
tick-zero tid q ts = refl

ticks-zero :
    (tid : ℕ) (q : Queue) (ts : Threads)
    → ticks 1 (record { time_left = 0; tid = tid } ∷ q) ts
      ≡ some (record { time_left = 2 ^ 64 - 1; tid = tid } ∷ q, ts)
unfolding ticks
ticks-zero tid q ts = rw (tick-zero tid q ts, ◌>>=◌)

-- A running thread that asks for less than a millisecond is told 0 by `nanosleep`, but it is queued
-- with a wait of 0, which the next timer interrupt turns into a wait of 2^64 - 1 ticks: nobody
-- wakes, and every other sleeper now stands behind that wait.
pub nanosleep-zero :
    (rem tid : ℕ) (req : TimeSpec) (c : Clock) (t : Thread)
    → req.seconds ≡ 0
    → req.nanoseconds < 1000000
    → thread_at c.threads tid ≡ some t
    → t.state ≡ running
    → t.tid ≡ tid
    → c.lagged_ticks ≡ 0
    → total c.queue < 2 ^ 64
    → (c' : Clock) × (c'' : Clock) × (nanosleep true true rem req tid c ≡ some (0, c'))
      × (advance_time false c' ≡ some c'')
      × (c''.queue ≡ record { time_left = 2 ^ 64 - 1; tid = tid } ∷ c.queue)
      × (c''.threads ≡ put_thread c.threads tid (record t { state = sleep }))
unfolding nanosleep sleep_ms advance_time
nanosleep-zero rem tid req c t sec ns at run own lag small =
    let ts = put_thread c.threads tid (record t { state = sleep }) in
    let go : is_running t.state ≡ true = rw run refl in
    let fine : ltb 999999999 req.nanoseconds ≡ false = ground arith in
    let none_left : add64 (req.nanoseconds / 1000000) (req.seconds * 1000 % 2 ^ 64) ≡ 0 =
      omega arith in
    let one : add64 c.lagged_ticks 1 ≡ 1 = omega arith in
    let q = record { time_left = 0; tid = tid } ∷ c.queue in
    (
      record c { queue = q; threads = ts },
      record {
        queue = record { time_left = 2 ^ 64 - 1; tid = tid } ∷ c.queue;
        threads = ts;
        lagged_ticks = 0;
      },
      rw (fine, none_left)
          (rw (at, ◌>>=◌) (rw (go, own) (rw (insert_to_queue-zero tid c.queue small)))),
      rw (one, ticks-zero tid c.queue ts, ◌>>=◌),
      refl,
      refl,
    )
