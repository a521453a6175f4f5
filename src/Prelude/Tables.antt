-- ===== src/Prelude/Tables.antt =====
-- Facts over a small range of numbers, found by running a test at each of them.
use Prim.Native.Nat.{ℕ, zero, suc, ◌<◌}
use mathlib.Core.Path.{◌≡◌}
use mathlib.Core.Bool.{Bool, true, false, cond}
use native.Mathlib.Omega.{arith}

-- Whether the test passes at each number below the bound.
unfoldable pub every : ℕ → (ℕ → Bool) → Bool
every zero test = true
every (suc k) test = cond (test k) (every k test) false

pub every_at : (k : ℕ) (test : ℕ → Bool) → every k test ≡ true → (i : ℕ) → i < k → test i ≡ true
unfolding every
every_at zero test passed i below = elim below [ ]
every_at (suc k) test passed i below = ground (arith, every_at k test (ground arith) i)
