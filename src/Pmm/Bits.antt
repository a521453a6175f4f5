-- ===== src/Pmm/Bits.antt =====
-- What one bit operation of src/mm/pmm.c does to every page of the bitmap.
use drip_os.Prelude.{
  ℕ, zero, suc, ◌+◌, ◌-◌, ◌*◌, ◌/◌, ◌%◌, ◌^◌, ◌<◌, ◌≡◌, refl, bit_and, bit_or, Bool, true, false,
  ◌&&◌, if◌then◌else◌, ◌==◌, subst, leb, ltb, ltb→lt, every, every_at, arith,
}
use drip_os.Pmm.{Bitmap, set_bit, clear_bit, get_bit, is_free, set_range, clear_range}

-- Every byte of the bitmap is a byte.
abbrev pub IsBytes : Bitmap → Type 0
IsBytes bm = (i : ℕ) → bm i < 256

bool_eq : Bool → Bool → Bool
bool_eq true b = b
bool_eq false true = false
bool_eq false false = true

bool_eq_sound : (a b : Bool) → bool_eq a b ≡ true → a ≡ b
unfolding bool_eq
bool_eq_sound true b h = ground arith
bool_eq_sound false b h = ground arith

test_bit : ℕ → ℕ → Bool
test_bit x c = bit_and x (2 ^ c) == 0

-- What `|= 1 << b` and `&= ~(1 << b)` do to bit `c` of a byte.
set_fact : ℕ → ℕ → ℕ → Bool
unfolding bool_eq test_bit
set_fact x b c =
    bool_eq (test_bit (bit_or x (2 ^ b)) c) (if b == c then false else test_bit x c)
    && ltb (bit_or x (2 ^ b)) 256

clear_fact : ℕ → ℕ → ℕ → Bool
unfolding bool_eq test_bit
clear_fact x b c =
    bool_eq (test_bit (bit_and x (255 - 2 ^ b)) c) (if b == c then true else test_bit x c)
    && ltb (bit_and x (255 - 2 ^ b)) 256

-- A byte and two bits under one number.
at_code : (ℕ → ℕ → ℕ → Bool) → ℕ → Bool
at_code f k = f (k / 64) (k / 8 % 8) (k % 8)

set_table : every 16384 (at_code set_fact) ≡ true
unfolding every at_code set_fact
set_table = refl

clear_table : every 16384 (at_code clear_fact) ≡ true
unfolding every at_code clear_fact
clear_table = refl

at_code_sound :
    (f : ℕ → ℕ → ℕ → Bool)
    → every 16384 (at_code f) ≡ true
    → (x b c : ℕ) → x < 256
    → b < 8
    → c < 8
    → f x b c ≡ true
unfolding at_code
at_code_sound f table x b c hx hb hc =
    let k = x * 64 + b * 8 + c in
    let e₁ : k / 64 ≡ x = omega arith in
    let e₂ : k / 8 % 8 ≡ b = omega arith in
    let e₃ : k % 8 ≡ c = omega arith in
    let found : at_code f k ≡ true = every_at 16384 (at_code f) table k (omega arith) in
    subst (λ n. f n b c ≡ true) e₁
      (subst (λ n. f (k / 64) n c ≡ true) e₂
        (subst (λ n. f (k / 64) (k / 8 % 8) n ≡ true) e₃ found))

both : (a b : Bool) → (a && b) ≡ true → (a ≡ true) × (b ≡ true)
both a b h = ground arith

set_byte :
    (x b c : ℕ)
    → x < 256
    → b < 8
    → c < 8
    → (test_bit (bit_or x (2 ^ b)) c ≡ (if b == c then false else test_bit x c))
      × (bit_or x (2 ^ b) < 256)
unfolding set_fact
set_byte x b c hx hb hc =
    let (same, small) = both _ _ (at_code_sound set_fact set_table x b c hx hb hc) in
    (bool_eq_sound _ _ same, ltb→lt _ _ small)

clear_byte :
    (x b c : ℕ)
    → x < 256
    → b < 8
    → c < 8
    → (test_bit (bit_and x (255 - 2 ^ b)) c ≡ (if b == c then true else test_bit x c))
      × (bit_and x (255 - 2 ^ b) < 256)
unfolding clear_fact
clear_byte x b c hx hb hc =
    let (same, small) = both _ _ (at_code_sound clear_fact clear_table x b c hx hb hc) in
    (bool_eq_sound _ _ same, ltb→lt _ _ small)

is_free_lem : (bm : Bitmap) (q : ℕ) → is_free bm q ≡ test_bit (bm (q / 8)) (q % 8)
unfolding get_bit test_bit
is_free_lem bm q = refl

-- Setting a bit takes that page and no other.
pub is_free-set_bit :
    (bm : Bitmap) (p q : ℕ)
    → IsBytes bm
    → is_free (set_bit bm p) q ≡ (if p == q then false else is_free bm q)
unfolding set_bit
is_free-set_bit bm p q v = ground (
  arith,
  is_free_lem (set_bit bm p) q,
  is_free_lem bm q,
  set_byte (bm (p / 8)) (p % 8) (q % 8) (v (p / 8)),
)

-- Clearing a bit frees that page and no other.
pub is_free-clear_bit :
    (bm : Bitmap) (p q : ℕ)
    → IsBytes bm
    → is_free (clear_bit bm p) q ≡ (if p == q then true else is_free bm q)
unfolding clear_bit
is_free-clear_bit bm p q v = ground (
  arith,
  is_free_lem (clear_bit bm p) q,
  is_free_lem bm q,
  clear_byte (bm (p / 8)) (p % 8) (q % 8) (v (p / 8)),
)

pub set_bit-IsBytes : (bm : Bitmap) (p : ℕ) → IsBytes bm → IsBytes (set_bit bm p)
unfolding set_bit
set_bit-IsBytes bm p v i = ground (arith, v i, set_byte (bm (p / 8)) (p % 8) 0 (v (p / 8)))

pub clear_bit-IsBytes : (bm : Bitmap) (p : ℕ) → IsBytes bm → IsBytes (clear_bit bm p)
unfolding clear_bit
clear_bit-IsBytes bm p v i = ground (arith, v i, clear_byte (bm (p / 8)) (p % 8) 0 (v (p / 8)))

-- `page <= q < page + n`
abbrev pub within : ℕ → ℕ → ℕ → Bool
within page n q = leb page q && ltb q (page + n)

pub set_range-IsBytes : (bm : Bitmap) (p n : ℕ) → IsBytes bm → IsBytes (set_range bm p n)
unfolding set_range
set_range-IsBytes bm p zero v = v
set_range-IsBytes bm p (suc n) v = set_bit-IsBytes _ (p + n) (set_range-IsBytes bm p n v)

pub clear_range-IsBytes : (bm : Bitmap) (p n : ℕ) → IsBytes bm → IsBytes (clear_range bm p n)
unfolding clear_range
clear_range-IsBytes bm p zero v = v
clear_range-IsBytes bm p (suc n) v = clear_bit-IsBytes _ (p + n) (clear_range-IsBytes bm p n v)

pub is_free-set_range :
    (bm : Bitmap) (p n q : ℕ)
    → IsBytes bm
    → is_free (set_range bm p n) q ≡ (if within p n q then false else is_free bm q)
unfolding set_range
is_free-set_range bm p zero q v = ground arith
is_free-set_range bm p (suc n) q v = ground (
  arith,
  is_free-set_bit (set_range bm p n) (p + n) q (set_range-IsBytes bm p n v),
  is_free-set_range bm p n q v,
)

pub is_free-clear_range :
    (bm : Bitmap) (p n q : ℕ)
    → IsBytes bm
    → is_free (clear_range bm p n) q ≡ (if within p n q then true else is_free bm q)
unfolding clear_range
is_free-clear_range bm p zero q v = ground arith
is_free-clear_range bm p (suc n) q v = ground (
  arith,
  is_free-clear_bit (clear_range bm p n) (p + n) q (clear_range-IsBytes bm p n v),
  is_free-clear_range bm p n q v,
)
