-- ===== src/RangeMap.antt =====
-- src/klibc/rangemap.c: the ranges of numbers that are taken, in a chain behind a base entry that is
-- never removed. The chain is the base and the list of what follows it; the links back are left out,
-- and so are the allocations, which succeed.
pub mod Order
pub mod Find
pub mod Free
mod Tests
use drip_os.Prelude.{
  ℕ, ◌+◌, ◌-◌, ◌^◌, Bool, true, false, Option, none, some, List, [], ◌∷◌, if◌then◌else◌, ◌==◌, leb,
  add64, sub64,
}

-- `rangemap_t` without its links
pub record Range : Type 0 where
  pub start : ℕ
  pub end : ℕ

pub record RangeMap : Type 0 where
  pub base : Range
  pub rest : List Range

abbrev pub max_number : ℕ
max_number = 0xFFFFFFFFFFFFFFFF

-- `rangemap_add_range` behind an entry that ends at or before the start of the new range.
pub add_behind : Range → List Range → List Range
add_behind new [] = new ∷ []
add_behind new (current ∷ next) =
    let later = add_behind new next in
    if leb current.end new.start then current ∷ later else new ∷ current ∷ next

pub add_range : RangeMap → ℕ → ℕ → RangeMap
add_range m range_start range_end =
    let new : Range = record { start = range_start; end = range_end } in
    record m { rest = if leb m.base.end range_start then add_behind new m.rest else new ∷ m.rest }

-- The search of `rangemap_find_free_area` from the entry `current` on.
pub find_from : ℕ → Range → List Range → Option ℕ
find_from size current [] = if leb size (max_number - current.end) then some current.end else none
find_from size current (next ∷ later) =
    let further = find_from size next later in
    if leb size (sub64 next.start current.end) then some current.end else further

-- The start of the area, which is then taken, or `max_number`.
pub find_free_area : RangeMap → ℕ → ℕ × RangeMap
find_free_area m size = elim (find_from size m.base m.rest) [
  | none ↦ (max_number, m)
  | some area ↦ (area, add_range m area (add64 area size))
]

-- The base entry is passed over by the next four.
pub remove_at : ℕ → List Range → List Range
remove_at addr [] = []
remove_at addr (current ∷ next) =
    let later = remove_at addr next in if current.start == addr then next else current ∷ later

pub mark_free : RangeMap → ℕ → RangeMap
mark_free m addr = record m { rest = remove_at addr m.rest }

pub entry_at : ℕ → List Range → Option Range
entry_at addr [] = none
entry_at addr (current ∷ next) =
    let later = entry_at addr next in if current.start == addr then some current else later

pub entry_present : RangeMap → ℕ → Bool
entry_present m addr = elim (entry_at addr m.rest) [ none ↦ false | some _ ↦ true ]

pub get_entry_size : RangeMap → ℕ → ℕ
get_entry_size m addr = elim (entry_at addr m.rest) [
  | none ↦ 0
  | some entry ↦ sub64 entry.end entry.start
]
