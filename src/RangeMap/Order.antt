-- ===== src/RangeMap/Order.antt =====
-- The order of the entries of a range map (src/klibc/rangemap.c), and that adding keeps it.
use drip_os.Prelude.{
  ℕ, ◌≤◌, ◌<◌, ◌≡◌, refl, Bool, false, List, [], ◌∷◌, leb, arith, Bool-cases, inl, inr, leb→le,
  le→leb, ltb, ◌&&◌, ◌||◌,
}
use drip_os.RangeMap.{Range, RangeMap, max_number, add_behind, add_range}

-- The entries that follow an entry which ends at `low` come after it, are not empty, and do not
-- overlap.
abbrev pub IsAbove : ℕ → List Range → Type 0
IsAbove low [] = low ≤ max_number
IsAbove low (r ∷ rest) = (low ≤ r.start) × (r.start < r.end) × IsAbove (r.end) rest

unfoldable pub IsOrdered : RangeMap → Type 0
IsOrdered m = IsAbove (m.base.end) m.rest

-- Whether number `x` is taken.
abbrev pub within : ℕ → Range → Bool
within x r = leb r.start x && ltb x r.end

abbrev pub covers : ℕ → List Range → Bool
covers x [] = false
covers x (r ∷ rest) = within x r || covers x rest

abbrev pub IsFree : ℕ → ℕ → List Range → Type 0
IsFree low high ranges = (x : ℕ) → low ≤ x → x < high → covers x ranges ≡ false

pub IsAbove-bound : (low : ℕ) (rest : List Range) → IsAbove low rest → low ≤ max_number
IsAbove-bound low [] v = v
IsAbove-bound low (r ∷ rest) (le, lt, v) = omega (arith, le, lt, IsAbove-bound (r.end) rest v)

pub covers-below :
    (low x : ℕ) (rest : List Range) → IsAbove low rest → x < low → covers x rest ≡ false
covers-below low x [] v h = refl
covers-below low x (r ∷ rest) (le, lt, v) h =
    ground (arith, covers-below (r.end) x rest v (omega (arith, le, lt, h)))

-- Adding takes exactly the numbers of the new range.
pub add_behind-covers :
    (new : Range) (rest : List Range) (x : ℕ)
    → covers x (add_behind new rest) ≡ (within x new || covers x rest)
unfolding add_behind
add_behind-covers new [] x = refl
add_behind-covers new (current ∷ next) x = elim (Bool-cases (leb current.end new.start)) [
  | inl e ↦ rw e (ground (arith, add_behind-covers new next x))
  | inr e ↦ rw e refl
]

-- An entry that does not end before a free range begins comes after it.
pub IsFree-after :
    (current : Range) (next : List Range) (low high : ℕ)
    → current.start < current.end
    → low < high
    → IsFree low high (current ∷ next)
    → low < current.end
    → high ≤ current.start
IsFree-after current next low high full lt free h = elim (Bool-cases (leb high current.start)) [
  | inl e ↦ leb→le high current.start e
  | inr e ↦ elim (Bool-cases (leb current.start low)) [
    | inl before ↦ absurd (ground (arith, free low (omega arith) lt, h, before))
    | inr behind ↦ absurd (ground (arith, free current.start (ground arith) (ground arith), full))
  ]
]

pub IsFree-tail :
    (current : Range) (next : List Range) (low high : ℕ)
    → IsFree low high (current ∷ next)
    → IsFree low high next
IsFree-tail current next low high free x le lt = ground (arith, free x le lt)

pub add_behind-IsAbove :
    (new : Range) (low : ℕ) (rest : List Range)
    → IsAbove low rest
    → low ≤ new.start
    → new.start < new.end
    → new.end ≤ max_number
    → IsFree new.start new.end rest
    → IsAbove low (add_behind new rest)
unfolding add_behind
add_behind-IsAbove new low [] v le full bound free = (le, full, bound)
add_behind-IsAbove new low (current ∷ next) (from, lt, v) le full bound free =
    elim (Bool-cases (leb current.end new.start)) [
      | inl e ↦ rw e (
        from,
        lt,
        add_behind-IsAbove new (current.end) next v (leb→le _ _ e) full bound
            (IsFree-tail current next new.start new.end free),
      )
      | inr e ↦ rw e (
        le,
        full,
        (IsFree-after current next new.start new.end lt full free (ground arith), lt, v),
      )
    ]

-- Adding a range takes its numbers and no others, wherever it lands in the chain.
pub add_range-covers :
    (m : RangeMap) (low high x : ℕ)
    → covers x ((add_range m low high).rest)
      ≡ (within x (record { start = low; end = high }) || covers x m.rest)
unfolding add_range
add_range-covers m low high x = elim (Bool-cases (leb m.base.end low)) [
  | inl e ↦ rw e (add_behind-covers (record { start = low; end = high }) m.rest x)
  | inr e ↦ rw e refl
]

pub add_range-IsOrdered :
    (m : RangeMap) (low high : ℕ)
    → IsOrdered m
    → m.base.end ≤ low
    → low < high
    → high ≤ max_number
    → IsFree low high m.rest
    → IsOrdered (add_range m low high)
unfolding add_range IsOrdered
add_range-IsOrdered m low high v le lt bound free =
    rw (le→leb m.base.end low le) (
      add_behind-IsAbove (record { start = low; end = high }) (m.base.end) m.rest v le lt bound
        free)
