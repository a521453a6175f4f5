-- ===== src/Text/Reverse.antt =====
-- `reverse` (src/klibc/string.c) turns the text of a buffer round in place.
use drip_os.Prelude.{
  ℕ, zero, suc, ◌+◌, ◌-◌, ◌*◌, ◌≤◌, ◌<◌, ◌≡◌, refl, sym, ap, ◌∙◌, true, none, some, List, [], ◌∷◌,
  ◌++◌, if◌then◌else◌, ◌==◌, ltb, leb, ◌&&◌, arith, length, length-append, length-set, get_elem?,
  get_or, set, get_elem?-set, Bool-cases, inl, inr, lt→ltb, ltb→lt, some-injective,
}
use drip_os.Text.{Buffer, swap_from, reverse}
use drip_os.Text.Buffers.{IsText, strlen-text}

-- Lists that read alike at every index are equal.
list-ext : (xs ys : List ℕ) → ((i : ℕ) → get_elem? xs i ≡ get_elem? ys i) → xs ≡ ys
list-ext [] [] h = refl
list-ext [] (y ∷ ys) h = absurd (cc (h 0))
list-ext (x ∷ xs) [] h = absurd (cc (h 0))
list-ext (x ∷ xs) (y ∷ ys) h =
    ap (λ z. z ∷ xs) (some-injective (h 0)) ∙ ap (λ l. y ∷ l) (list-ext xs ys (λ i. h (suc i)))

get_or-get_elem? : (xs : List ℕ) (i : ℕ) → i < length xs → get_elem? xs i ≡ some (get_or xs i 0)
get_or-get_elem? [] i h = absurd (omega (arith, h))
get_or-get_elem? (x ∷ xs) zero h = refl
get_or-get_elem? (x ∷ xs) (suc i) h = get_or-get_elem? xs i (omega (arith, h))

-- Where the byte at index `i` comes from when the indices `s` to `e` are turned round.
abbrev mirror : ℕ → ℕ → ℕ → ℕ
mirror s e i = if leb s i && leb i e then s + e - i else i

-- Swapping the bytes at two indices.
abbrev swapped : Buffer → ℕ → ℕ → Buffer
swapped str s e = set (set str s (get_or str e 0)) e (get_or str s 0)

get_elem?-swapped :
    (str : Buffer) (s e j : ℕ)
    → s < length str
    → e < length str
    → get_elem? (swapped str s e) j ≡ get_elem? str (if e == j then s else if s == j then e else j)
get_elem?-swapped str s e j hs he =
    let lt : ltb e (length (set str s (get_or str e 0))) ≡ true =
      lt→ltb _ _ (omega (arith, length-set str s (get_or str e 0), he)) in
    let here = get_or-get_elem? str s hs in
    let there = get_or-get_elem? str e he in
    rw
      (
        get_elem?-set (set str s (get_or str e 0)) e j (get_or str s 0),
        lt,
        get_elem?-set str s j (get_or str e 0),
        lt→ltb s _ hs,
      )
      (elim (Bool-cases (e == j)) [
        | inl x ↦ rw x (sym here)
        | inr x ↦ elim (Bool-cases (s == j)) [
          | inl y ↦ rw (x, y) (sym there)
          | inr y ↦ rw (x, y) refl
        ]
      ])

mirror-step :
    (s e i : ℕ)
    → s < e
    → (let j = mirror (s + 1) (e - 1) i in if e == j then s else if s == j then e else j)
      ≡ mirror s e i
mirror-step s e i lt = ground arith

swap_from-mirror :
    (n : ℕ) (str : Buffer) (s e i : ℕ)
    → e < length str
    → e < s + 2 * n
    → get_elem? (swap_from n str s e) i ≡ get_elem? str (mirror s e i)
unfolding swap_from
swap_from-mirror zero str s e i h f = ground arith
swap_from-mirror (suc n) str s e i h f = elim (Bool-cases (ltb s e)) [
  | inl lt ↦ rw lt (
      let k = ltb→lt s e lt in
      let same =
        length-set (set str s (get_or str e 0)) e (get_or str s 0)
        ∙ length-set str s (get_or str e 0) in
      swap_from-mirror n (swapped str s e) (s + 1) (e - 1) i (omega (arith, same, h))
        (omega (arith, f, k))
      ∙ get_elem?-swapped str s e _ (omega (arith, h, k)) h
      ∙ ap (get_elem? str) (mirror-step s e i k))
  | inr ge ↦ rw ge (ground arith)
]

abbrev pub turned : List ℕ → List ℕ
turned [] = []
turned (x ∷ xs) = turned xs ++ x ∷ []

pub length-turned : (xs : List ℕ) → length (turned xs) ≡ length xs
length-turned [] = refl
length-turned (x ∷ xs) = omega (arith, length-append (turned xs) (x ∷ []), length-turned xs)

minus_zero : (i : ℕ) → i - 0 ≡ i
minus_zero i = omega arith

get_elem?-append :
    (xs ys : List ℕ) (i : ℕ)
    → get_elem? (xs ++ ys) i
      ≡ (if ltb i (length xs) then get_elem? xs i else get_elem? ys (i - length xs))
get_elem?-append [] ys i = rw (minus_zero i) (ground arith)
get_elem?-append (x ∷ xs) ys zero = ground arith
get_elem?-append (x ∷ xs) ys (suc i) = ground (arith, get_elem?-append xs ys i)

get_elem?-past : (xs : List ℕ) (i : ℕ) → length xs ≤ i → get_elem? xs i ≡ none
get_elem?-past [] i h = refl
get_elem?-past (x ∷ xs) zero h = absurd (omega (arith, h))
get_elem?-past (x ∷ xs) (suc i) h = get_elem?-past xs i (omega (arith, h))

get_elem?-turned :
    (xs : List ℕ) (i : ℕ)
    → i < length xs
    → get_elem? (turned xs) i ≡ get_elem? xs (length xs - 1 - i)
get_elem?-turned [] i h = absurd (omega (arith, h))
get_elem?-turned (x ∷ xs) i h =
    get_elem?-append (turned xs) (x ∷ []) i ∙ elim (Bool-cases (ltb i (length xs))) [
      | inl lt ↦
          let before : length (x ∷ xs) - 1 - i ≡ suc (length xs - 1 - i) = ground arith in
          rw (length-turned xs, lt, before) (get_elem?-turned xs i (ltb→lt i _ lt))
      | inr ge ↦
          let last : i ≡ length xs = ground arith in
          let zero_left : i - length xs ≡ 0 = omega (arith, last) in
          let zero_right : length (x ∷ xs) - 1 - i ≡ 0 = omega (arith, last) in
          rw (length-turned xs, ge, zero_left, zero_right) refl
    ]

reversed-at :
    (text : List ℕ) (rest : Buffer) (i : ℕ)
    → 0 < length text
    → get_elem? (swap_from (length text) (text ++ 0 ∷ rest) 0 (length text - 1)) i
      ≡ get_elem? (turned text ++ 0 ∷ rest) i
reversed-at text rest i pos =
    let room = length-append text (0 ∷ rest) in
    let moved =
      swap_from-mirror (length text) (text ++ 0 ∷ rest) 0 (length text - 1) i
        (omega (arith, room, pos)) (omega (arith, pos)) in
    moved ∙ elim (Bool-cases (ltb i (length text))) [
      | inl lt ↦
          let from : mirror 0 (length text - 1) i ≡ length text - 1 - i = ground arith in
          let inside : ltb (length text - 1 - i) (length text) ≡ true =
            lt→ltb _ _ (omega (arith, pos)) in
          rw
            (
              from,
              get_elem?-append text (0 ∷ rest) (length text - 1 - i),
              inside,
              get_elem?-append (turned text) (0 ∷ rest) i,
              length-turned text,
              lt,
            )
            (sym (get_elem?-turned text i (ltb→lt i _ lt)))
      | inr ge ↦
          let from : mirror 0 (length text - 1) i ≡ i = ground arith in
          rw
            (
              from,
              get_elem?-append text (0 ∷ rest) i,
              get_elem?-append (turned text) (0 ∷ rest) i,
              length-turned text,
              ge,
            )
            refl
    ]

-- `reverse` replaces a text that ends in its buffer by the same bytes in the opposite order, and
-- touches nothing from the terminator on.
pub reverse-turned :
    (text : List ℕ) (rest : Buffer)
    → IsText text
    → reverse (text ++ 0 ∷ rest) ≡ some (turned text ++ 0 ∷ rest)
unfolding reverse swap_from
reverse-turned [] rest v = rw (strlen-text [] rest tt) refl
reverse-turned (c ∷ text) rest v =
    let pos : 0 < length (c ∷ text) = omega arith in
    rw (strlen-text (c ∷ text) rest v, lt→ltb 0 (length (c ∷ text)) pos)
      (ap some (list-ext _ _ λ i. reversed-at (c ∷ text) rest i pos))
