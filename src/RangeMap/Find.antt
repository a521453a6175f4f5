-- ===== src/RangeMap/Find.antt =====
-- The search for a free area (src/klibc/rangemap.c, `rangemap_find_free_area`).
use drip_os.Prelude.{
  ℕ, ◌+◌, ◌-◌, ◌≤◌, ◌<◌, ◌≡◌, refl, some, List, [], ◌∷◌, leb, add64, sub64, arith, Bool-cases,
  Option-cases, inl, inr, leb→le, le→leb, ◌||◌, sub64-le, ◌∙◌, sym, some-injective, none≢some,
}
use drip_os.RangeMap.{Range, RangeMap, max_number, add_range, find_from, find_free_area}
use drip_os.RangeMap.Order.{
  IsAbove, IsOrdered, IsFree, within, covers, IsAbove-bound, covers-below, IsFree-after,
  IsFree-tail, add_range-covers, add_range-IsOrdered,
}

-- An area that the search finds lies behind the entry it started from, below the greatest number,
-- and is free.
find_from-IsFree :
    (size : ℕ) (current : Range) (rest : List Range) (area : ℕ)
    → IsAbove (current.end) rest
    → find_from size current rest ≡ some area
    → (current.end ≤ area) × (area + size ≤ max_number) × IsFree area (area + size) rest
unfolding find_from
find_from-IsFree size current [] area v e =
    elim (Bool-cases (leb size (max_number - current.end))) [
      | inl fits ↦
          let same : current.end ≡ area = some-injective (sym (rw fits refl) ∙ e) in
          (omega (arith, same), ground (arith, same, fits, v), λ x lo hi. refl)
      | inr tight ↦ absurd (none≢some (sym (rw tight refl) ∙ e))
    ]
find_from-IsFree size current (next ∷ later) area (from, lt, v) e =
    let bound = IsAbove-bound (next.end) later v in
    let gap = sub64-le next.start current.end from (omega (arith, bound, lt)) in
    elim (Bool-cases (leb size (sub64 next.start current.end))) [
      | inl fits ↦
          let same : current.end ≡ area = some-injective (sym (rw fits refl) ∙ e) in
          let room : area + size ≤ next.start =
            omega (arith, same, gap, from, leb→le size _ fits) in
          (
            omega (arith, same),
            omega (arith, room, bound, lt),
            λ x lo hi.
                ground (
                  arith,
                  covers-below (next.end) x later v (omega (arith, room, lt, hi)),
                  room,
                  hi,
                ),
          )
      | inr tight ↦
          let (behind, top, free) =
            find_from-IsFree size next later area v (sym (rw tight refl) ∙ e) in
          (
            omega (arith, from, lt, behind),
            top,
            λ x lo hi. ground (arith, free x lo hi, behind, lo),
          )
    ]

-- A free area behind the start of the search is found, or an earlier one.
find_from-first :
    (size : ℕ) (current : Range) (rest : List Range) (area : ℕ)
    → IsAbove (current.end) rest
    → current.end ≤ area
    → area + size ≤ max_number
    → IsFree area (area + size) rest
    → (found : ℕ) × (find_from size current rest ≡ some found) × (found ≤ area)
unfolding find_from
find_from-first size current [] area v le bound free =
    (current.end, rw (le→leb size (max_number - current.end) (omega arith)) refl, le)
find_from-first size current (next ∷ later) area (from, lt, v) le bound free =
    elim (Bool-cases (leb size (sub64 next.start current.end))) [
      | inl fits ↦ (current.end, rw fits refl, le)
      | inr tight ↦
          let top = IsAbove-bound (next.end) later v in
          let gap = sub64-le next.start current.end from (omega (arith, top, lt)) in
          let small : next.start < current.end + size = ground (arith, gap, from, tight) in
          let behind : next.end ≤ area = elim (Bool-cases (leb next.end area)) [
            | inl e ↦ leb→le next.end area e
            | inr e ↦ absurd (
                ground (
                  arith,
                  IsFree-after next later area (area + size) lt (ground arith) free (ground arith),
                  small,
                  le,
                ))
          ] in
          let (found, runs, first) =
            find_from-first size next later area v behind bound
              (IsFree-tail next later area (area + size) free) in
          (found, rw tight runs, first)
    ]

-- Where an ordered map has a free area of a positive size behind the base entry, the search
-- hands one out: it lies behind the base entry, it was free, no free area of the size behind the
-- base entry lies before it, and afterwards exactly its numbers are taken as well, in an ordered
-- map.
pub find_free_area-first :
    (m : RangeMap) (size area : ℕ)
    → IsOrdered m
    → 0 < size
    → m.base.end ≤ area
    → area + size ≤ max_number
    → IsFree area (area + size) m.rest
    → (found : ℕ) × (m' : RangeMap) × (find_free_area m size ≡ (found, m'))
      × (m.base.end ≤ found)
      × (found ≤ area)
      × IsFree found (found + size) m.rest
      × ((x : ℕ)
          → covers x m'.rest
            ≡ (within x (record { start = found; end = found + size }) || covers x m.rest))
      × IsOrdered m'
unfolding find_free_area IsOrdered
find_free_area-first m size area v full le bound free =
    let (found, runs, first) = find_from-first size m.base m.rest area v le bound free in
    let (behind, top, free') = find_from-IsFree size m.base m.rest found v runs in
    let sum : add64 found size ≡ found + size = omega (arith, top) in
    (
      found,
      add_range m found (found + size),
      rw (find_free_area, runs, sum) refl,
      behind,
      first,
      free',
      add_range-covers m found (found + size),
      add_range-IsOrdered m found (found + size) v behind (omega (arith, full)) top free',
    )

-- Where an ordered map has no free area of the size behind the base entry, the search says so
-- and takes nothing.
pub find_free_area-none :
    (m : RangeMap) (size : ℕ)
    → IsOrdered m
    → ((area : ℕ)
        → m.base.end ≤ area
        → area + size ≤ max_number
        → ¬ (IsFree area (area + size) m.rest))
    → find_free_area m size ≡ (max_number, m)
unfolding find_free_area IsOrdered
find_free_area-none m size v full = elim (Option-cases (find_from size m.base m.rest)) [
  | inl e ↦ rw (find_free_area, e) refl
  | inr (found, e) ↦
      let (behind, top, free) = find_from-IsFree size m.base m.rest found v e in
      absurd (full found behind top free)
]
