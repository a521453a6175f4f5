-- ===== src/SleepQueue/Tick.antt =====
-- One round of the countdown in `advance_time` of src/proc/sleep_queue.c, and many rounds.
use drip_os.Prelude.{
  ℕ, zero, suc, ◌+◌, ◌-◌, ◌^◌, ◌<◌, ◌≤◌, ◌≡◌, refl, true, false, ◌==◌, leb, arith, List, [], ◌∷◌,
  ◌++◌, sub64, Bool-cases, inl, inr, ap, ap₂, sym, ◌∙◌, Option, some, none, get_elem?-set,
}
use drip_os.Thread.{Thread, Threads, thread_at, ready}
use drip_os.SleepQueue.{Sleeper, Queue, wake, drain, tick, ticks}
use drip_os.SleepQueue.Deadlines.{
  Deadline, deadlines, total, remaining, expired, revive, make_ready, wake_all, asleep, absent,
  IsAsleep, IsLive,
}

-- Nothing that is further off than `n` ticks expires in `n` ticks.
expired-none : (n base : ℕ) (q : Queue) → n < base → expired n (deadlines base q) ≡ []
unfolding expired
expired-none n base [] h = refl
expired-none n base (x ∷ xs) h = ground (arith, expired-none n (base + x.time_left) xs)

remaining-all :
    (n base : ℕ) (q : Queue) → n < base → remaining n (deadlines base q) ≡ deadlines (base - n) q
unfolding remaining
remaining-all n base [] h = refl
remaining-all n base (x ∷ xs) h = ground (arith, remaining-all n (base + x.time_left) xs)

expired-later :
    (n base : ℕ) (x : Sleeper) (xs : Queue)
    → n < base + x.time_left
    → expired n (deadlines base (x ∷ xs)) ≡ []
unfolding expired
expired-later n base x xs h = ground (arith, expired-none n (base + x.time_left) xs)

remaining-later :
    (x : Sleeper) (xs : Queue)
    → 0 < x.time_left
    → remaining 0 (deadlines 0 (x ∷ xs)) ≡ deadlines 0 (x ∷ xs)
unfolding remaining
remaining-later x xs h = ground (arith, remaining-all 0 (0 + x.time_left) xs)

expired-shift :
    (n base : ℕ) (q : Queue)
    → expired (n + 1) (deadlines (base + 1) q) ≡ expired n (deadlines base q)
unfolding expired
expired-shift n base [] = refl
expired-shift n base (x ∷ xs) = ground (arith, expired-shift n (base + x.time_left) xs)

remaining-shift :
    (n base : ℕ) (q : Queue)
    → remaining (n + 1) (deadlines (base + 1) q) ≡ remaining n (deadlines base q)
unfolding remaining
remaining-shift n base [] = refl
remaining-shift n base (x ∷ xs) = ground (arith, remaining-shift n (base + x.time_left) xs)

asleep-revive :
    (o : Option Thread) (ts : Threads) (i j : ℕ)
    → (i == j) ≡ false
    → asleep (revive ts i o) j ≡ asleep ts j
unfolding revive
asleep-revive none ts i j h = refl
asleep-revive (some t) ts i j h =
    ground (arith, get_elem?-set ts i j (some (record t { state = ready; running = 0 })))

IsAsleep-revive :
    (o : Option Thread) (ts : Threads) (i : ℕ) (q : Queue)
    → absent i q ≡ true
    → IsAsleep ts q
    → IsAsleep (revive ts i o) q
IsAsleep-revive o ts i [] h v = tt
IsAsleep-revive o ts i (x ∷ xs) h v =
    let other : (i == x.tid) ≡ false = ground arith in
    (rw (asleep-revive o ts i x.tid other) v.0, v.1, IsAsleep-revive o ts i xs (ground arith) v.2)

wake-asleep : (ts : Threads) (i : ℕ) → asleep ts i ≡ true → wake ts i ≡ some (make_ready ts i)
unfolding wake revive
wake-asleep ts i h = ground arith

-- What the queue and the threads are after the due threads have been woken, and `n` ticks before.
pub record Elapsed (n : ℕ) (q : Queue) (ts : Threads) (q' : Queue) (ts' : Threads) : Type 0 where
  pub threads : ts' ≡ wake_all ts (expired n (deadlines 0 q))
  pub queue : deadlines 0 q' ≡ remaining n (deadlines 0 q)
  pub sleeping : IsAsleep ts' q'
  pub live : IsLive q'
  pub bounded : total q' ≤ total q

Elapsed-nil : (n : ℕ) (ts : Threads) → Elapsed n [] ts [] ts
unfolding wake_all expired remaining
Elapsed-nil n ts = record {
  threads = refl;
  queue = refl;
  sleeping = tt;
  live = tt;
  bounded = omega arith;
}

Elapsed-due :
    (x : Sleeper) (xs q' : Queue) (ts ts' : Threads)
    → x.time_left ≡ 0
    → Elapsed 0 xs (make_ready ts x.tid) q' ts'
    → Elapsed 0 (x ∷ xs) ts q' ts'
unfolding wake_all expired remaining
Elapsed-due x xs q' ts ts' h k =
    let z : 0 + x.time_left ≡ 0 = omega arith in
    record {
      threads = rw z k.threads;
      queue = rw z k.queue;
      sleeping = k.sleeping;
      live = k.live;
      bounded = omega (arith, k.bounded);
    }

Elapsed-later :
    (x : Sleeper) (xs : Queue) (ts : Threads)
    → 0 < x.time_left
    → IsAsleep ts (x ∷ xs)
    → Elapsed 0 (x ∷ xs) ts (x ∷ xs) ts
unfolding wake_all
Elapsed-later x xs ts h v = record {
  threads = rw (expired-later 0 0 x xs (omega arith));
  queue = sym (remaining-later x xs h);
  sleeping = v;
  live = h;
  bounded = omega arith;
}

drain-Elapsed :
    (q : Queue) (ts : Threads)
    → IsAsleep ts q
    → (q' : Queue) × (ts' : Threads) × (drain q ts ≡ some (q', ts')) × Elapsed 0 q ts q' ts'
unfolding drain
drain-Elapsed [] ts v = ([], ts, refl, Elapsed-nil 0 ts)
drain-Elapsed (x ∷ xs) ts v = elim (Bool-cases (x.time_left == 0)) [
  | inl due ↦
      let ts₁ = make_ready ts x.tid in
      let (q', ts', e, k) =
        drain-Elapsed xs ts₁ (IsAsleep-revive (thread_at ts x.tid) ts x.tid xs v.1 v.2) in
      (q', ts', rw (due, wake-asleep ts x.tid v.0) e, Elapsed-due x xs q' ts ts' (ground arith) k)
  | inr later ↦ (x ∷ xs, ts, rw later, Elapsed-later x xs ts (ground arith) v)
]

-- One tick less in the first node is one tick less for everyone.
deadlines-tick :
    (x : Sleeper) (xs : Queue) (k : ℕ)
    → x.time_left ≡ k + 1
    → deadlines 0 (x ∷ xs) ≡ deadlines (0 + 1) (record x { time_left = k } ∷ xs)
deadlines-tick x xs k h =
    let e : 0 + x.time_left ≡ 0 + 1 + k = omega arith in ap (λ n. (n, x.tid) ∷ deadlines n xs) e

expired-tick :
    (x : Sleeper) (xs : Queue) (k : ℕ)
    → x.time_left ≡ k + 1
    → expired 1 (deadlines 0 (x ∷ xs)) ≡ expired 0 (deadlines 0 (record x { time_left = k } ∷ xs))
expired-tick x xs k h =
    ap (expired 1) (deadlines-tick x xs k h) ∙ expired-shift 0 0 (record x { time_left = k } ∷ xs)

remaining-tick :
    (x : Sleeper) (xs : Queue) (k : ℕ)
    → x.time_left ≡ k + 1
    → remaining 1 (deadlines 0 (x ∷ xs))
      ≡ remaining 0 (deadlines 0 (record x { time_left = k } ∷ xs))
remaining-tick x xs k h =
    ap (remaining 1) (deadlines-tick x xs k h)
    ∙ remaining-shift 0 0 (record x { time_left = k } ∷ xs)

pub tick-Elapsed :
    (q : Queue) (ts : Threads)
    → IsAsleep ts q
    → IsLive q
    → total q < 2 ^ 64
    → (q' : Queue) × (ts' : Threads) × (tick q ts ≡ some (q', ts')) × Elapsed 1 q ts q' ts'
unfolding tick
tick-Elapsed [] ts v l h = ([], ts, refl, Elapsed-nil 1 ts)
tick-Elapsed (x ∷ xs) ts v l h =
    let k = sub64 x.time_left 1 in
    let y = record x { time_left = k } in
    let one : x.time_left ≡ k + 1 = omega arith in
    let (q', ts', e, d) = drain-Elapsed (y ∷ xs) ts v in
    (
      q',
      ts',
      e,
      record {
        threads = d.threads ∙ ap (wake_all ts) (sym (expired-tick x xs k one));
        queue = d.queue ∙ sym (remaining-tick x xs k one);
        sleeping = d.sleeping;
        live = d.live;
        bounded = omega (arith, d.bounded);
      },
    )

pub remaining-add :
    (m n : ℕ) (ds : List Deadline) → remaining n (remaining m ds) ≡ remaining (m + n) ds
unfolding remaining
remaining-add m n [] = refl
remaining-add m n ((d, i) ∷ ds) = ground (arith, remaining-add m n ds)

expired-add :
    (n base : ℕ) (q : Queue)
    → expired (1 + n) (deadlines base q)
      ≡ expired 1 (deadlines base q) ++ expired n (remaining 1 (deadlines base q))
unfolding expired remaining
expired-add n base [] = refl
expired-add n base (x ∷ xs) = elim (Bool-cases (leb (base + x.time_left) 1)) [
  | inl e ↦ rw e (ground (arith, expired-add n (base + x.time_left) xs))
  | inr e ↦
      let off : 1 < base + x.time_left = ground arith in
      rw e (
        ground (
          arith,
          expired-add n (base + x.time_left) xs,
          expired-none 1 (base + x.time_left) xs off,
        ))
]

wake_all-append :
    (ts : Threads) (is js : List ℕ) → wake_all ts (is ++ js) ≡ wake_all (wake_all ts is) js
unfolding wake_all
wake_all-append ts [] js = refl
wake_all-append ts (i ∷ is) js = wake_all-append (make_ready ts i) is js

Elapsed-add :
    (n : ℕ) (q q₁ q' : Queue) (ts ts₁ ts' : Threads)
    → Elapsed 1 q ts q₁ ts₁
    → Elapsed n q₁ ts₁ q' ts'
    → Elapsed (suc n) q ts q' ts'
Elapsed-add n q q₁ q' ts ts₁ ts' d₁ d =
    let add : suc n ≡ 1 + n = omega arith in
    record {
      threads = rw add (
          d.threads
          ∙ ap₂ (λ t ds. wake_all t (expired n ds)) d₁.threads d₁.queue
          ∙ sym (
              wake_all-append ts (expired 1 (deadlines 0 q))
                (expired n (remaining 1 (deadlines 0 q))))
          ∙ ap (wake_all ts) (sym (expired-add n 0 q)));
      queue = rw add (d.queue ∙ ap (remaining n) d₁.queue ∙ remaining-add 1 n (deadlines 0 q));
      sleeping = d.sleeping;
      live = d.live;
      bounded = omega (arith, d.bounded, d₁.bounded);
    }

-- From a queue whose threads are asleep and whose first wait is positive, the countdown over any
-- number of ticks does not fail: exactly the threads whose deadlines are within the ticks become
-- ready, in the order of the queue, and every other deadline has come nearer by the ticks.
pub ticks-Elapsed :
    (n : ℕ) (q : Queue) (ts : Threads)
    → IsAsleep ts q
    → IsLive q
    → total q < 2 ^ 64
    → (q' : Queue) × (ts' : Threads) × (ticks n q ts ≡ some (q', ts')) × Elapsed n q ts q' ts'
unfolding ticks
ticks-Elapsed zero [] ts v l h = ([], ts, refl, Elapsed-nil 0 ts)
ticks-Elapsed zero (x ∷ xs) ts v l h = (x ∷ xs, ts, refl, Elapsed-later x xs ts l v)
ticks-Elapsed (suc n) q ts v l h =
    let (q₁, ts₁, e₁, d₁) = tick-Elapsed q ts v l h in
    let (q', ts', e, d) = ticks-Elapsed n q₁ ts₁ d₁.sleeping d₁.live (omega (arith, d₁.bounded)) in
    (q', ts', rw e₁ e, Elapsed-add n q q₁ q' ts ts₁ ts' d₁ d)
