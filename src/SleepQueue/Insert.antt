-- ===== src/SleepQueue/Insert.antt =====
-- `insert_to_queue` of src/proc/sleep_queue.c against the sorted list of deadlines.
use drip_os.Prelude.{ℕ, ◌+◌, ◌^◌, ◌<◌, ◌≤◌, ◌≡◌, leb, arith, [], ◌∷◌, add64, Bool-cases, inl, inr}
use drip_os.SleepQueue.{Queue, insert_after, insert_to_queue}
use drip_os.SleepQueue.Deadlines.{deadlines, total, insert_deadline, IsLive}

insert_after-deadlines :
    (t tid base : ℕ) (q : Queue)
    → base ≤ t
    → t < 2 ^ 64
    → base + total q < 2 ^ 64
    → deadlines base (insert_after t tid base q) ≡ insert_deadline t tid (deadlines base q)
unfolding insert_after insert_deadline
insert_after-deadlines t tid base [] h ht hq = ground arith
insert_after-deadlines t tid base (x ∷ xs) h ht hq =
    let step : add64 base x.time_left ≡ base + x.time_left = omega arith in
    rw step (elim (Bool-cases (leb t (base + x.time_left))) [
      | inl e ↦ rw e (ground arith)
      | inr e ↦ rw e (
          ground (
            arith,
            insert_after-deadlines t tid (base + x.time_left) xs (ground arith) ht (omega arith),
          ))
    ])

-- Queuing a thread for `t` ticks puts it among the deadlines in order, before those that are not
-- earlier, and changes no other thread's deadline, as long as no deadline exceeds 64 bits.
pub insert_to_queue-deadlines :
    (t tid : ℕ) (q : Queue)
    → t < 2 ^ 64
    → total q < 2 ^ 64
    → deadlines 0 (insert_to_queue t tid q) ≡ insert_deadline t tid (deadlines 0 q)
unfolding insert_to_queue
insert_to_queue-deadlines t tid q ht hq =
    insert_after-deadlines t tid 0 q (omega arith) ht (omega arith)

insert_after-total :
    (t tid base : ℕ) (q : Queue)
    → base ≤ t
    → t < 2 ^ 64
    → base + total q < 2 ^ 64
    → base + total (insert_after t tid base q) < 2 ^ 64
unfolding insert_after
insert_after-total t tid base [] h ht hq = omega arith
insert_after-total t tid base (x ∷ xs) h ht hq = ground (
  arith,
  insert_after-total t tid (base + x.time_left) xs,
  insert_after-total t tid (add64 base x.time_left) xs,
)

pub insert_to_queue-total :
    (t tid : ℕ) (q : Queue)
    → t < 2 ^ 64
    → total q < 2 ^ 64
    → total (insert_to_queue t tid q) < 2 ^ 64
unfolding insert_to_queue
insert_to_queue-total t tid q ht hq =
    omega (arith, insert_after-total t tid 0 q (omega arith) ht (omega arith))

-- A thread that is queued for at least one tick keeps the first thread's wait positive.
pub insert_to_queue-IsLive :
    (t tid : ℕ) (q : Queue) → 0 < t → t < 2 ^ 64 → IsLive q → IsLive (insert_to_queue t tid q)
unfolding insert_to_queue insert_after
insert_to_queue-IsLive t tid [] pos ht v = omega arith
insert_to_queue-IsLive t tid (x ∷ xs) pos ht v = ground arith
