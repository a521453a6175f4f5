-- ===== src/RangeMap/Tests.antt =====
-- Runs of the range map of src/klibc/rangemap.c, and the theorems at a concrete map.
use drip_os.Prelude.{ℕ, ◌+◌, ◌-◌, ◌≤◌, ◌≡◌, refl, true, ◌||◌, [], ◌∷◌, arith}
use drip_os.RangeMap.{
  RangeMap, max_number, add_range, mark_free, entry_at, entry_present, get_entry_size, find_from,
  find_free_area,
}
use drip_os.RangeMap.Order.{IsOrdered, IsFree, within, covers}
use drip_os.RangeMap.Find.{find_free_area-first}
use drip_os.RangeMap.Free.{mark_free-add_range}

-- Taken: the base up to 16, 16 to 20, 24 to 30.
abbrev taken : RangeMap
taken = record {
  base = record { start = 0; end = 16 };
  rest = record { start = 16; end = 20 } ∷ record { start = 24; end = 30 } ∷ [];
}

taken-IsOrdered : IsOrdered taken
unfolding IsOrdered
taken-IsOrdered = (omega arith, omega arith, (omega arith, omega arith, omega arith))

taken-IsFree : IsFree 40 43 taken.rest
taken-IsFree x lo hi = ground arith

-- Four numbers fit between the entries, five behind them.
finds :
    ((find_free_area taken 4).0 ≡ 20)
    × ((find_free_area taken 5).0 ≡ 30)
    × (entry_present taken 24 ≡ true)
    × (get_entry_size taken 24 ≡ 6)
unfolding find_free_area find_from entry_present get_entry_size entry_at
finds = (refl, refl, refl, refl)

find_free_area-first_example :
    (found : ℕ) × (m' : RangeMap) × (find_free_area taken 3 ≡ (found, m'))
    × (16 ≤ found)
    × (found ≤ 40)
    × IsFree found (found + 3) taken.rest
    × ((x : ℕ)
        → covers x m'.rest
          ≡ (within x (record { start = found; end = found + 3 }) || covers x taken.rest))
    × IsOrdered m'
find_free_area-first_example =
    find_free_area-first taken 3 40 taken-IsOrdered (omega arith) (omega arith) (omega arith)
      taken-IsFree

-- An area of all the numbers but 20 would meet the entry at 24.
full : (area : ℕ) → 16 ≤ area → area ≤ 20 → ¬ (IsFree area (area + (max_number - 20)) taken.rest)
full area lo hi free = ground (arith, free 24 (omega (arith, hi)) (omega (arith, lo)))

mark_free-add_range_example :
    (mark_free (add_range taken 20 23) 20 ≡ taken)
    × (entry_present (add_range taken 20 23) 20 ≡ true)
    × (get_entry_size (add_range taken 20 23) 20 ≡ 3)
mark_free-add_range_example =
    mark_free-add_range taken 20 23 taken-IsOrdered (omega arith) (omega arith) (omega arith)
