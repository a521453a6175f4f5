-- ===== src/Scheduler/Pick.antt =====
-- The search order of `pick_task` in src/proc/scheduler.c: round the table, from behind the current
-- thread to the current thread itself.
use drip_os.Prelude.{
  ℕ, zero, suc, ◌+◌, ◌-◌, ◌<◌, ◌≤◌, ◌≡◌, Bool, true, false, if◌then◌else◌, ◌==◌, ==_iff, leb, ltb,
  arith, none, some, Option-cases, Bool-cases, inl, inr, length, sym, ap, ◌∙◌, subst, false≢true,
}
use drip_os.Thread.{Thread, Threads, thread_at}
use drip_os.Scheduler.{scan, scan_round}

-- There is a thread in the slot, and it passes the test.
abbrev pub has : (Thread → Bool) → Threads → ℕ → Bool
has test ts j = elim (thread_at ts j) [ none ↦ false | some t ↦ test t ]

-- Every thread's number is the number of its slot.
abbrev pub IsIndexed : Threads → Type 0
IsIndexed ts = (j : ℕ) (t : Thread) → thread_at ts j ≡ some t → t.tid ≡ j

-- How many slots `j` comes after `cur`, going round a table of `size` slots; `cur` itself is last.
abbrev pub dist : ℕ → ℕ → ℕ → ℕ
dist size cur j = if ltb cur j then j - cur else j + size - cur

record Scanned (test : Thread → Bool) (ts : Threads) (i n t : ℕ) : Type 0 where
  above : i ≤ t
  below : t < i + n
  passes : has test ts t ≡ true
  first : (j : ℕ) → i ≤ j → has test ts j ≡ true → t ≤ j

-- Where the threads are numbered by their slots, a round of the scan tests the slot.
scan-suc :
    (test : Thread → Bool) (ts : Threads) (i n : ℕ)
    → IsIndexed ts
    → scan test ts i (suc n) ≡ (if has test ts i then some i else scan test ts (i + 1) n)
unfolding scan
scan-suc test ts i n v = elim (Option-cases (thread_at ts i)) [
  | inl e ↦ rw (e, has, scan)
  | inr (t, e) ↦ rw (e, has, scan) (rw (v i t e))
]

scan-here :
    (test : Thread → Bool) (ts : Threads) (i n : ℕ)
    → has test ts i ≡ true
    → Scanned test ts i (suc n) i
scan-here test ts i n h = record {
  above = omega arith;
  below = omega arith;
  passes = h;
  first = λ j lo p. lo;
}

scan-skip :
    (test : Thread → Bool) (ts : Threads) (i n t : ℕ)
    → has test ts i ≡ false
    → Scanned test ts (i + 1) n t
    → Scanned test ts i (suc n) t
scan-skip test ts i n t h v = record {
  above = omega (arith, v.above);
  below = omega (arith, v.below);
  passes = v.passes;
  first = λ j lo p. elim (Bool-cases (i == j)) [
    | inl e ↦
        absurd (false≢true (sym h ∙ subst (λ k. has test ts k ≡ true) (sym ((==_iff i j).0 e)) p))
    | inr e ↦ v.first j (ground arith) p
  ];
}

scan-Scanned :
    (test : Thread → Bool) (ts : Threads)
    → IsIndexed ts
    → (n i : ℕ) {t : ℕ} → scan test ts i n ≡ some t
    → Scanned test ts i n t
unfolding scan
scan-Scanned test ts v zero i e = absurd (cc)
scan-Scanned test ts v (suc n) i {t} e =
    let step : (if has test ts i then some i else scan test ts (i + 1) n) ≡ some t =
      sym (scan-suc test ts i n v) ∙ e in
    elim (Bool-cases (has test ts i)) [
      | inl h ↦
          let here : i ≡ t = ground arith in
          subst (Scanned test ts i (suc n)) here (scan-here test ts i n h)
      | inr h ↦ scan-skip test ts i n t h (scan-Scanned test ts v n (i + 1) (ground arith))
    ]

scan-none :
    (test : Thread → Bool) (ts : Threads)
    → IsIndexed ts
    → (n i : ℕ) → scan test ts i n ≡ none
    → (j : ℕ) → i ≤ j
    → j < i + n
    → has test ts j ≡ false
scan-none test ts v zero i e j lo hi = absurd (omega arith)
scan-none test ts v (suc n) i e j lo hi =
    let step : (if has test ts i then some i else scan test ts (i + 1) n) ≡ none =
      sym (scan-suc test ts i n v) ∙ e in
    elim (Bool-cases (has test ts i)) [
      | inl h ↦ absurd (ground arith)
      | inr h ↦ elim (Bool-cases (i == j)) [
        | inl same ↦ subst (λ k. has test ts k ≡ false) ((==_iff i j).0 same) h
        | inr other ↦ scan-none test ts v n (i + 1) (ground arith) j (ground arith) (omega arith)
      ]
    ]

-- The nearest thread after `cur` that passes the test.
pub record Nearest (test : Thread → Bool) (ts : Threads) (cur t : ℕ) : Type 0 where
  pub inside : t < length ts
  pub passes : has test ts t ≡ true
  pub nearest :
      (j : ℕ)
      → j < length ts
      → has test ts j ≡ true
      → dist (length ts) cur t ≤ dist (length ts) cur j

Scanned-above :
    (test : Thread → Bool) (ts : Threads) (cur t : ℕ)
    → cur < length ts
    → Scanned test ts (cur + 1) (length ts - (cur + 1)) t
    → Nearest test ts cur t
Scanned-above test ts cur t h v = record {
  inside = omega (arith, v.below);
  passes = v.passes;
  nearest = λ j lt p. ground (arith, v.first j, v.above, v.below);
}

Scanned-round :
    (test : Thread → Bool) (ts : Threads) (cur t : ℕ)
    → cur < length ts
    → ((j : ℕ) → cur + 1 ≤ j → j < cur + 1 + (length ts - (cur + 1)) → has test ts j ≡ false)
    → Scanned test ts 0 (cur + 1) t
    → Nearest test ts cur t
Scanned-round test ts cur t h above v = record {
  inside = omega (arith, v.below);
  passes = v.passes;
  nearest = λ j lt p. ground (arith, v.first j, v.below, above j);
}

-- A scan round the table that finds a thread finds the nearest, and one that finds none has looked
-- at every slot.
pub scan_round-Nearest :
    (test : Thread → Bool) (ts : Threads) (cur : ℕ) {t : ℕ}
    → IsIndexed ts
    → cur < length ts
    → scan_round test ts cur ≡ some t
    → Nearest test ts cur t
unfolding scan_round
scan_round-Nearest test ts cur {t} v h e =
    elim (Option-cases (scan test ts (cur + 1) (length ts - (cur + 1)))) [
      | inl gone ↦
          Scanned-round test ts cur t h (scan-none test ts v _ (cur + 1) gone)
            (scan-Scanned test ts v (cur + 1) 0 (ground arith))
      | inr (t', found) ↦
          Scanned-above test ts cur t h (scan-Scanned test ts v _ (cur + 1) (ground arith))
    ]

pub scan_round-none :
    (test : Thread → Bool) (ts : Threads) (cur j : ℕ)
    → IsIndexed ts
    → scan_round test ts cur ≡ none
    → j < length ts
    → has test ts j ≡ false
unfolding scan_round
scan_round-none test ts cur j v e h =
    elim (Option-cases (scan test ts (cur + 1) (length ts - (cur + 1)))) [
      | inl gone ↦ elim (Bool-cases (leb j cur)) [
        | inl low ↦ scan-none test ts v (cur + 1) 0 (ground arith) j (omega arith) (ground arith)
        | inr high ↦ scan-none test ts v _ (cur + 1) gone j (ground arith) (ground arith)
      ]
      | inr (t', found) ↦ absurd (ground arith)
    ]

-- There is one nearest thread, and the scan finds it.
pub Nearest-scan_round :
    (test : Thread → Bool) (ts : Threads) (cur t : ℕ)
    → IsIndexed ts
    → cur < length ts
    → Nearest test ts cur t
    → scan_round test ts cur ≡ some t
Nearest-scan_round test ts cur t v h near = elim (Option-cases (scan_round test ts cur)) [
  | inl gone ↦
      absurd (ground (arith, scan_round-none test ts cur t v gone near.inside, near.passes))
  | inr (t', found) ↦
      let near' = scan_round-Nearest test ts cur v h found in
      let same : t' ≡ t = ground (
        arith,
        near.nearest t' near'.inside near'.passes,
        near'.nearest t near.inside near.passes,
        near.inside,
        near'.inside,
      ) in
      found ∙ ap some same
]

pub has-thread :
    (test : Thread → Bool) (ts : Threads) (j : ℕ)
    → has test ts j ≡ true
    → (t : Thread) × (thread_at ts j ≡ some t) × (test t ≡ true)
has-thread test ts j h = elim (Option-cases (thread_at ts j)) [
  | inl e ↦ absurd (false≢true (rw (e, has) at h))
  | inr (t, e) ↦ (t, e, rw (e, has) at h)
]
