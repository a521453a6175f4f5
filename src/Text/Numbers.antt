-- ===== src/Text/Numbers.antt =====
-- Numbers in decimal (src/klibc/string.c, `utoa` and `atou`).
use native.Mathlib.Nat.{pow-suc}
use drip_os.Prelude.{
  ℕ, zero, suc, ◌+◌, ◌-◌, ◌*◌, ◌/◌, ◌%◌, ◌^◌, ◌≤◌, ◌<◌, ◌≡◌, refl, ap, ◌∙◌, some, List, [], ◌∷◌,
  ◌++◌, if◌then◌else◌, ◌==◌, ltb, arith, length, drop, Bool-cases, inl, inr, ==_iff,
}
use drip_os.Text.{Buffer, put, digits, utoa, read_from, atou}
use drip_os.Text.Buffers.{IsText, IsText-append, put_lem, append_assoc, length-terminated}
use drip_os.Text.Reverse.{turned, reverse-turned}

abbrev step : ℕ → ℕ → ℕ
step result c = (result * 10 % 2 ^ 64 + c + 2 ^ 64 - b'0') % 2 ^ 64

-- What `atou` makes of a text.
value : ℕ → List ℕ → ℕ
value result [] = result
value result (c ∷ text) = value (step result c) text

read_from-value :
    (result : ℕ) (text : List ℕ) (rest : Buffer)
    → IsText text
    → read_from result (text ++ 0 ∷ rest) ≡ some (value result text)
unfolding read_from value
read_from-value result [] rest v = refl
read_from-value result (c ∷ text) rest (pos, v) =
    ground (arith, read_from-value (step result c) text rest v)

value-append :
    (result : ℕ) (text : List ℕ) (c : ℕ)
    → value result (text ++ c ∷ []) ≡ step (value result text) c
unfolding value
value-append result [] c = refl
value-append result (d ∷ text) c = value-append (step result d) text c

value-digits : (fuel n : ℕ) → n < 10 ^ fuel → n < 2 ^ 64 → value 0 (turned (digits fuel n)) ≡ n
unfolding digits value
value-digits zero n h lt = omega (arith, h)
value-digits (suc fuel) n h lt = elim (Bool-cases (ltb 0 n)) [
  | inl pos ↦
      let tenth =
        value-digits fuel (n / 10) (omega (arith, h, pow-suc 10 fuel)) (omega (arith, lt)) in
      rw pos (
        value-append 0 (turned (digits fuel (n / 10))) (n % 10 + b'0')
        ∙ rw tenth (omega (arith, lt)))
  | inr done ↦ rw done (ground arith)
]

digits-IsText : (fuel n : ℕ) → IsText (digits fuel n)
unfolding digits
digits-IsText zero n = tt
digits-IsText (suc fuel) n = elim (Bool-cases (ltb 0 n)) [
  | inl pos ↦ rw pos (omega arith, digits-IsText fuel (n / 10))
  | inr done ↦ rw done tt
]

length-digits : (fuel n : ℕ) → length (digits fuel n) ≤ fuel
unfolding digits
length-digits zero n = omega arith
length-digits (suc fuel) n = ground (arith, length-digits fuel (n / 10))

turned-IsText : (xs : List ℕ) → IsText xs → IsText (turned xs)
turned-IsText [] v = tt
turned-IsText (x ∷ xs) (pos, v) = IsText-append (turned xs) (x ∷ []) (turned-IsText xs v) (pos, tt)

low_first : ℕ → List ℕ
low_first n = if n == 0 then b'0' ∷ [] else digits 20 n

low_first-fits : (n : ℕ) → IsText (low_first n) × (length (low_first n) ≤ 20)
unfolding low_first
low_first-fits n = elim (Bool-cases (n == 0)) [
  | inl e ↦ rw e ((omega arith, tt), omega arith)
  | inr e ↦ rw e (digits-IsText 20 n, length-digits 20 n)
]

low_first-value : (n : ℕ) → n < 2 ^ 64 → value 0 (turned (low_first n)) ≡ n
unfolding low_first value
low_first-value n lt = elim (Bool-cases (n == 0)) [
  | inl e ↦ rw e (omega (arith, (==_iff n 0).0 e))
  | inr e ↦ rw e (value-digits 20 n (omega (arith, lt)) lt)
]

-- `utoa` writes any 64-bit number as a text into a buffer of 21 bytes or more without leaving it,
-- and `atou` reads the number back.
pub atou-utoa :
    (n : ℕ) (str : Buffer)
    → n < 2 ^ 64
    → 20 < length str
    → (text : List ℕ) × (rest : Buffer) × (utoa n str ≡ some (text ++ 0 ∷ rest))
      × IsText text
      × (atou (text ++ 0 ∷ rest) ≡ some n)
unfolding utoa atou low_first
atou-utoa n str lt room =
    let (is, short) = low_first-fits n in
    let low = low_first n in
    let rest = drop (suc (length low)) str in
    let is' = turned-IsText low is in
    let placed : put (low ++ 0 ∷ []) str ≡ some (low ++ 0 ∷ rest) =
      rw
        (
          put_lem (low ++ 0 ∷ []) str (omega (arith, length-terminated low, short, room)),
          length-terminated low,
        )
        (ap some (append_assoc low (0 ∷ []) rest)) in
    (
      turned low,
      rest,
      rw placed (reverse-turned low rest is),
      is',
      read_from-value 0 (turned low) rest is' ∙ ap some (low_first-value n lt),
    )
