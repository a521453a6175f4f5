-- ===== src/Pmm/Count.antt =====
-- The number of free pages that the bitmap of src/mm/pmm.c shows, and how ranges change it.
use drip_os.Prelude.{ℕ, zero, suc, ◌+◌, ◌-◌, ◌<◌, ◌≤◌, ◌≡◌, true, if◌then◌else◌, arith, min}
use drip_os.Pmm.{Bitmap, is_free, set_range, clear_range}
use drip_os.Pmm.Bits.{IsBytes, is_free-set_range, is_free-clear_range}

-- Free pages below page `n`.
unfoldable pub count_free : Bitmap → ℕ → ℕ
count_free bm zero = 0
count_free bm (suc n) = count_free bm n + (if is_free bm n then 1 else 0)

-- Taking a range of free pages lowers the count by the part of the range below `n`.
pub count_free-set_range :
    (bm : Bitmap) (p k n : ℕ)
    → IsBytes bm
    → ((q : ℕ) → p ≤ q → q < p + k → is_free bm q ≡ true)
    → count_free (set_range bm p k) n + (min n (p + k) - p) ≡ count_free bm n
unfolding count_free
count_free-set_range bm p k zero v free = omega arith
count_free-set_range bm p k (suc n) v free =
    ground (arith, count_free-set_range bm p k n v free, is_free-set_range bm p k n v, free n)

-- Freeing a range raises the count by at most the part of the range below `n`.
pub count_free-clear_range :
    (bm : Bitmap) (p k n : ℕ)
    → IsBytes bm
    → count_free (clear_range bm p k) n ≤ count_free bm n + (min n (p + k) - p)
unfolding count_free
count_free-clear_range bm p k zero v = omega arith
count_free-clear_range bm p k (suc n) v =
    ground (arith, count_free-clear_range bm p k n v, is_free-clear_range bm p k n v)

-- Taking any range does not raise the count.
pub count_free-set_range_le :
    (bm : Bitmap) (p k n : ℕ) → IsBytes bm → count_free (set_range bm p k) n ≤ count_free bm n
unfolding count_free
count_free-set_range_le bm p k zero v = omega arith
count_free-set_range_le bm p k (suc n) v =
    ground (arith, count_free-set_range_le bm p k n v, is_free-set_range bm p k n v)
