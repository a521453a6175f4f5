-- ===== src/RangeMap/Free.antt =====
-- Looking an area up and giving it back (src/klibc/rangemap.c).
use drip_os.Prelude.{
  ℕ, ◌-◌, ◌≤◌, ◌<◌, ◌≡◌, refl, true, false, some, List, [], ◌∷◌, ◌==◌, leb, arith, Bool-cases, inl,
  inr, le→leb, ap, sub64-le, ==_iff,
}
use drip_os.RangeMap.{
  Range, RangeMap, max_number, add_behind, add_range, remove_at, mark_free, entry_at, entry_present,
  get_entry_size,
}
use drip_os.RangeMap.Order.{IsAbove, IsOrdered}

-- No entry that ends before the new one begins has its start.
other_start : (r : Range) (n : ℕ) → r.start < r.end → leb r.end n ≡ true → (r.start == n) ≡ false
other_start r n lt e = ground arith

remove_at-add_behind :
    (new : Range) (low : ℕ) (rest : List Range)
    → IsAbove low rest
    → remove_at new.start (add_behind new rest) ≡ rest
unfolding remove_at add_behind
remove_at-add_behind new low [] v = rw ((==_iff new.start new.start).1 refl) refl
remove_at-add_behind new low (current ∷ next) (from, lt, v) =
    elim (Bool-cases (leb current.end new.start)) [
      | inl e ↦
          rw (e, other_start current new.start lt e)
            (ap (λ l. current ∷ l) (remove_at-add_behind new (current.end) next v))
      | inr e ↦ rw (e, (==_iff new.start new.start).1 refl) refl
    ]

entry_at-add_behind :
    (new : Range) (low : ℕ) (rest : List Range)
    → IsAbove low rest
    → entry_at new.start (add_behind new rest) ≡ some new
unfolding entry_at add_behind
entry_at-add_behind new low [] v = rw ((==_iff new.start new.start).1 refl) refl
entry_at-add_behind new low (current ∷ next) (from, lt, v) =
    elim (Bool-cases (leb current.end new.start)) [
      | inl e ↦
          rw (e, other_start current new.start lt e) (entry_at-add_behind new (current.end) next v)
      | inr e ↦ rw (e, (==_iff new.start new.start).1 refl) refl
    ]

-- In an ordered map, a range that is added behind the base entry is found at its start with its
-- size, and giving it back leaves the map as it was.
pub mark_free-add_range :
    (m : RangeMap) (low high : ℕ)
    → IsOrdered m
    → m.base.end ≤ low
    → low ≤ high
    → high ≤ max_number
    → (mark_free (add_range m low high) low ≡ m)
      × (entry_present (add_range m low high) low ≡ true)
      × (get_entry_size (add_range m low high) low ≡ high - low)
unfolding mark_free add_range entry_present get_entry_size IsOrdered
mark_free-add_range m low high v le lt bound =
    let new : Range = record { start = low; end = high } in
    let place = le→leb m.base.end low le in
    let found = entry_at-add_behind new (m.base.end) m.rest v in
    (
      rw place (ap (λ l. record m { rest = l }) (remove_at-add_behind new (m.base.end) m.rest v)),
      rw (place, entry_present, found) refl,
      rw (place, get_entry_size, found) (sub64-le high low lt (omega (arith, bound))),
    )
