-- ===== src/ProcessTable/Slots.antt =====
-- The search for an empty slot that src/proc/process_management.c makes three times.
use drip_os.Prelude.{
  ℕ, zero, suc, ◌+◌, ◌-◌, ◌<◌, ◌≤◌, ◌≡◌, refl, Bool, true, false, if◌then◌else◌, ◌==◌, arith,
  Option, none, some, Option-cases, inl, inr, List, [], ◌∷◌, ◌++◌, length, get_elem?, set,
  get_elem?-set, replicate, length-append, length-replicate, ◌⊎◌,
}
use drip_os.ProcessTable.{first_free, claim_slot, slot_at}

abbrev pub is_empty {ℓ} : {A : Type ℓ} → List (Option A) → ℕ → Bool
is_empty slots i = elim (slot_at slots i) [ none ↦ true | some _ ↦ false ]

module _ {ℓ} {A : Type ℓ} where
  -- A search that started at number `i` has found an empty slot, and none before it was empty.
  first_free-some :
      (slots : List (Option A)) (i k : ℕ)
      → first_free slots i ≡ some k
      → (i ≤ k) × (k - i < length slots) × (get_elem? slots (k - i) ≡ some none)
  unfolding first_free
  first_free-some [] i k e = absurd (cc)
  first_free-some (none ∷ slots) i k e =
      let same : k - i ≡ 0 = ground arith in (ground arith, ground arith, rw same refl)
  first_free-some (some a ∷ slots) i k e =
      let (lo, hi, at) = first_free-some slots (i + 1) k e in
      let next : k - i ≡ suc (k - (i + 1)) = omega arith in (omega arith, omega arith, rw next at)

  first_free-lowest :
      (slots : List (Option A)) (i k j : ℕ)
      → first_free slots i ≡ some k
      → j < k - i
      → is_empty slots j ≡ false
  unfolding first_free
  first_free-lowest [] i k j e h = absurd (cc)
  first_free-lowest (none ∷ slots) i k j e h = absurd (ground arith)
  first_free-lowest (some a ∷ slots) i k zero e h = refl
  first_free-lowest (some a ∷ slots) i k (suc j) e h =
      first_free-lowest slots (i + 1) k j e (omega arith)

  first_free-none :
      (slots : List (Option A)) (i j : ℕ)
      → first_free slots i ≡ none
      → j < length slots
      → is_empty slots j ≡ false
  unfolding first_free
  first_free-none [] i j e h = absurd (omega arith)
  first_free-none (none ∷ slots) i j e h = absurd (cc)
  first_free-none (some a ∷ slots) i zero e h = refl
  first_free-none (some a ∷ slots) i (suc j) e h = first_free-none slots (i + 1) j e (omega arith)

  slot_at-grown :
      (slots : List (Option A)) (n j : ℕ) → slot_at (slots ++ replicate n none) j ≡ slot_at slots j
  slot_at-grown [] zero j = refl
  slot_at-grown [] (suc n) zero = refl
  slot_at-grown [] (suc n) (suc j) = slot_at-grown [] n j
  slot_at-grown (x ∷ slots) n zero = refl
  slot_at-grown (x ∷ slots) n (suc j) = slot_at-grown slots n j

  slot_at-length : (slots : List (Option A)) → slot_at slots (length slots) ≡ none
  slot_at-length [] = refl
  slot_at-length (x ∷ slots) = slot_at-length slots

  pub slot_at-set :
      (slots : List (Option A)) (i j : ℕ) (x : Option A)
      → i < length slots
      → slot_at (set slots i x) j ≡ (if i == j then x else slot_at slots j)
  slot_at-set slots i j x h = ground (arith, get_elem?-set slots i j x)

  pub slot-bound :
      (slots : List (Option A)) (i : ℕ) {a : A} → slot_at slots i ≡ some a → i < length slots
  slot-bound [] i e = absurd (cc)
  slot-bound (x ∷ slots) zero e = omega arith
  slot-bound (x ∷ slots) (suc i) e = omega (arith, slot-bound slots i e)

  is_empty-none :
      (slots : List (Option A)) (i : ℕ) → get_elem? slots i ≡ some none → slot_at slots i ≡ none
  is_empty-none slots i e = rw (slot_at, e) refl

-- What a search for an empty slot promises: the lowest empty slot, inside the table that is handed
-- back, which holds what it held before.
pub record Claimed {ℓ} {A : Type ℓ} (slots : List (Option A)) (i : ℕ) (grown : List (Option A))
    : Type ℓ where
  pub inside : i < length grown
  pub empty : slot_at slots i ≡ none
  pub lowest : (j : ℕ) → j < i → is_empty slots j ≡ false
  pub kept : (j : ℕ) → slot_at grown j ≡ slot_at slots j
  pub longer : (grown ≡ slots) ⊎ (grown ≡ slots ++ replicate 10 none)

pub claim_slot-Claimed {ℓ} :
    {A : Type ℓ} (slots : List (Option A))
    → Claimed slots ((claim_slot slots).0) ((claim_slot slots).1)
unfolding claim_slot
claim_slot-Claimed {A = A} slots = elim (Option-cases (first_free slots 0)) [
  | inl e ↦
      rw (claim_slot, e)
        (record {
          inside = omega (
            arith,
            length-append slots (replicate 10 none),
            length-replicate {A = Option A} 10 none,
          );
          empty = slot_at-length slots;
          lowest = λ j h. first_free-none slots 0 j e h;
          kept = slot_at-grown slots 10;
          longer = inr refl;
        })
  | inr (i, e) ↦
      let (lo, hi, at) = first_free-some slots 0 i e in
      let start : i - 0 ≡ i = omega arith in
      rw (claim_slot, e)
        (record {
          inside = rw start at hi;
          empty = is_empty-none slots i (rw start at at);
          lowest = λ j h. first_free-lowest slots 0 i j e (omega (arith, h));
          kept = λ j. refl;
          longer = inl refl;
        })
]

pub first_free-at {ℓ} :
    {A : Type ℓ} (slots : List (Option A)) (i : ℕ)
    → first_free slots 0 ≡ some i
    → (i < length slots) × (slot_at slots i ≡ none)
first_free-at slots i e =
    let (lo, hi, at) = first_free-some slots 0 i e in
    let start : i - 0 ≡ i = omega arith in (rw start at hi, is_empty-none slots i (rw start at at))
