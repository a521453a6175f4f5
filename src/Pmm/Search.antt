-- ===== src/Pmm/Search.antt =====
-- `find_free_page` of src/mm/pmm.c: first fit over the bitmap.
use drip_os.Prelude.{
  ℕ, zero, suc, ◌+◌, ◌-◌, ◌<◌, ◌≤◌, ◌≡◌, refl, true, false, if◌then◌else◌, ◌==◌, arith, some, leb,
  Bool-cases, inl, inr, ◌⊎◌, ==_iff,
}
use drip_os.Pmm.{Pmm, Bitmap, is_free, scan_step, scan, find_free_page}

-- What the locals of the loop say before the round at page `i`: `found` free pages end at `i`, and
-- the first of them is `first`, if there is any.
pub record Scanned (bm : Bitmap) (i found first : ℕ) : Type 0 where
  pub before : found ≤ i
  pub positive : (found ≡ 0) ⊎ (found < i)
  pub start : first ≡ (if found == 0 then 0 else i - found)
  pub free : (q : ℕ) → i - found ≤ q → q < i → is_free bm q ≡ true

module _ (bm : Bitmap) (low : is_free bm 0 ≡ false) where
  free_zero : (i : ℕ) → is_free bm i ≡ true → 0 < i
  free_zero zero h = absurd (ground arith)
  free_zero (suc i) h = omega arith

  free_last :
      (i found first : ℕ)
      → Scanned bm i found first
      → is_free bm i ≡ true
      → (q : ℕ) → i - found ≤ q
      → q < i + 1
      → is_free bm q ≡ true
  free_last i found first v h q lo hi = elim (Bool-cases (q == i)) [
    | inl e ↦ rw ((==_iff q i).0 e) h
    | inr e ↦ v.free q lo (ground arith)
  ]

  scan_step-Scanned :
      (i found first : ℕ)
      → Scanned bm i found first
      → Scanned bm (i + 1) (scan_step bm i found first).0 (scan_step bm i found first).1
  unfolding scan_step
  scan_step-Scanned i found first v = elim (Bool-cases (is_free bm i)) [
    | inl h ↦ rw h (record {
      before = omega (arith, v.before);
      positive = inr (ground (arith, v.positive, free_zero i h));
      start = ground (arith, v.positive, v.start, v.before);
      free = λ q lo hi. free_last i found first v h q (omega arith) hi;
    })
    | inr h ↦ rw h (record {
      before = omega arith;
      positive = inl refl;
      start = refl;
      free = λ q lo hi. absurd (omega arith);
    })
  ]

  -- The step at a free page and at a used one.
  scan_step-found :
      (i found first : ℕ) → (scan_step bm i found first).0 ≡ (if is_free bm i then found + 1 else 0)
  unfolding scan_step
  scan_step-found i found first = ground arith

  -- What the loop returns starts a run of free pages that the loop has seen.
  scan-free :
      (pages : ℕ)
      → 0 < pages
      → (n i found first : ℕ) {p : ℕ} → Scanned bm i found first
      → scan bm pages n i found first ≡ some p
      → (p + pages ≤ i + n) × ((q : ℕ) → p ≤ q → q < p + pages → is_free bm q ≡ true)
  unfolding scan
  scan-free pages h zero i found first v e = absurd (cc)
  scan-free pages h (suc n) i found first {p} v e =
      let next = scan_step bm i found first in
      let v' = scan_step-Scanned i found first v in
      elim (Bool-cases (next.0 == pages)) [
        | inl done ↦
            let e' : next.1 ≡ p = ground arith in
            let c : next.0 ≡ pages = ground arith in
            let st : p ≡ i + 1 - pages = ground (arith, v'.start, v'.before) in
            (
              omega (arith, v'.before),
              λ q lo hi. v'.free q (omega arith) (omega (arith, v'.before)),
            )
        | inr more ↦
            let e' : scan bm pages n (i + 1) next.0 next.1 ≡ some p = ground arith in
            let (b, f) = scan-free pages h n (i + 1) next.0 next.1 v' e' in (omega arith, f)
      ]

  -- If a run of free pages at `p` lies ahead, the loop finds one that starts no later.
  scan-finds :
      (pages p : ℕ)
      → 0 < pages
      → ((q : ℕ) → p ≤ q → q < p + pages → is_free bm q ≡ true)
      → (n i found first : ℕ) → Scanned bm i found first
      → found < pages
      → i ≤ p + found
      → p + pages ≤ i + n
      → (r : ℕ) × (scan bm pages n i found first ≡ some r) × (r ≤ p)
  unfolding scan
  scan-finds pages p h run zero i found first v small near room = absurd (omega arith)
  scan-finds pages p h run (suc n) i found first v small near room =
      let next = scan_step bm i found first in
      let v' = scan_step-Scanned i found first v in
      let f = scan_step-found i found first in
      elim (Bool-cases (next.0 == pages)) [
        | inl done ↦ (next.1, rw done, ground (arith, v'.start, v'.before, f))
        | inr more ↦
            let g : i < p + pages = ground (arith, v.before) in
            let k : (i + 1 ≤ p + next.0) × (next.0 < pages) = ground (arith, f, run i) in
            let (r, e, le) =
              scan-finds pages p h run n (i + 1) next.0 next.1 v' k.1 k.0 (omega arith) in
            (r, rw more e, le)
      ]

start-Scanned : (bm : Bitmap) → Scanned bm 0 0 0
start-Scanned bm = record {
  before = omega arith;
  positive = inl refl;
  start = refl;
  free = λ q lo hi. absurd (omega arith);
}

-- With page 0 in use, a search for a positive number of pages that returns page `p` has found a
-- run: every page from `p` to `p + pages - 1` is free, and the run ends within the bitmap.
pub find_free_page-free :
    (s : Pmm) (pages p q : ℕ)
    → is_free s.bitmap 0 ≡ false
    → 0 < pages
    → find_free_page s pages ≡ some p
    → p ≤ q
    → q < p + pages
    → (is_free s.bitmap q ≡ true) × (p + pages ≤ s.bitmap_max_page)
unfolding find_free_page
find_free_page-free s pages p q low h e lo hi =
    let (bound, free) =
      scan-free s.bitmap low pages h s.bitmap_max_page 0 0 0 (start-Scanned s.bitmap) e in
    (free q lo hi, omega arith)

-- With page 0 in use, a search for a positive number of pages succeeds if the bitmap has a run of
-- that many free pages at any `p`, and what it returns is no later than `p`: the search is first
-- fit, and stops the machine only where there is no such run.
pub find_free_page-finds :
    (s : Pmm) (pages p : ℕ)
    → is_free s.bitmap 0 ≡ false
    → 0 < pages
    → p + pages ≤ s.bitmap_max_page
    → ((q : ℕ) → p ≤ q → q < p + pages → is_free s.bitmap q ≡ true)
    → (r : ℕ) × (find_free_page s pages ≡ some r) × (r ≤ p)
unfolding find_free_page
find_free_page-finds s pages p low h room run =
    scan-finds s.bitmap low pages p h run s.bitmap_max_page 0 0 0 (start-Scanned s.bitmap) h
      (omega arith) (omega arith)

scan_step-page_zero :
    (bm : Bitmap) (i : ℕ)
    → is_free bm i ≡ true
    → scan_step bm i i (if leb i 1 then 0 else 1) ≡ (i + 1, (if leb (i + 1) 1 then 0 else 1))
unfolding scan_step
scan_step-page_zero bm i h = rw h (ground arith)

scan-page_zero :
    (bm : Bitmap) (pages : ℕ)
    → 2 ≤ pages
    → ((q : ℕ) → q < pages → is_free bm q ≡ true)
    → (n i : ℕ) → i < pages
    → pages ≤ i + n
    → scan bm pages n i i (if leb i 1 then 0 else 1) ≡ some 1
unfolding scan
scan-page_zero bm pages h run zero i lt room = absurd (omega arith)
scan-page_zero bm pages h run (suc n) i lt room =
    rw (scan_step-page_zero bm i (run i lt)) (elim (Bool-cases (i + 1 == pages)) [
      | inl done ↦ ground arith
      | inr more ↦ rw more (scan-page_zero bm pages h run n (i + 1) (ground arith) (omega arith))
    ])

-- `first_page == 0` also means that no page has been found yet. Where the pages from 0 on are free,
-- a search for two pages or more returns page 1: its run ends at page `pages`, which the search has
-- not looked at, so that the page may be in use.
pub find_free_page-page_zero :
    (s : Pmm) (pages : ℕ)
    → 2 ≤ pages
    → pages ≤ s.bitmap_max_page
    → ((q : ℕ) → q < pages → is_free s.bitmap q ≡ true)
    → find_free_page s pages ≡ some 1
unfolding find_free_page
find_free_page-page_zero s pages h room run =
    scan-page_zero s.bitmap pages h run s.bitmap_max_page 0 (omega arith) (omega arith)
