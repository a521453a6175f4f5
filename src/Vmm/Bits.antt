-- ===== src/Vmm/Bits.antt =====
-- Bits put below a multiple of a power of two (src/mm/vmm.c: `|` on addresses and flags).
use Prim.Native.Nat.{bit_or-bitwise, digits, max}
use native.Mathlib.Nat.{pow-succ'}
use drip_os.Prelude.{ℕ, zero, suc, ◌+◌, ◌*◌, ◌/◌, ◌^◌, ◌≤◌, ◌<◌, ◌≡◌, refl, ap, ◌∙◌, bit_or, arith}

digits-zero : (n a : ℕ) → a ≤ n → digits (λ b. b) max n a 0 ≡ a
digits-zero zero a le = omega (arith, le)
digits-zero (suc n) zero le = refl
digits-zero (suc n) (suc a) le =
    let half = digits-zero n (suc a / 2) (omega (arith, le)) in rw half (omega arith)

digits-below :
    (k n x a b : ℕ) → x ≡ a * 2 ^ k → b < 2 ^ k → x ≤ n → digits (λ b. b) max n x b ≡ x + b
digits-below zero n x a b e lt le =
    let none : b ≡ 0 = omega (arith, lt) in rw none (digits-zero n x le ∙ omega arith)
digits-below (suc k) zero x a b e lt le = omega (arith, le)
digits-below (suc k) (suc n) zero a b e lt le = omega arith
digits-below (suc k) (suc n) (suc x) a b e lt le =
    let double : a * 2 ^ suc k ≡ 2 * (a * 2 ^ k) = ap (λ p. a * p) (pow-succ' 2 k) ∙ grind arith in
    let half : suc x / 2 ≡ a * 2 ^ k = omega (arith, e, double) in
    let low : b / 2 < 2 ^ k = omega (arith, lt, pow-succ' 2 k) in
    let rest = digits-below k n (suc x / 2) a (b / 2) half low (omega (arith, le)) in
    rw rest (omega (arith, e, double))

pub bit_or-below : (k a b : ℕ) → b < 2 ^ k → bit_or (a * 2 ^ k) b ≡ a * 2 ^ k + b
bit_or-below k a b lt =
    bit_or-bitwise (a * 2 ^ k) b ∙ digits-below k (a * 2 ^ k) (a * 2 ^ k) a b refl lt (omega arith)
