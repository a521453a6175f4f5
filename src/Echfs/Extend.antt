-- ===== src/Echfs/Extend.antt =====
-- `allocate_blocks_for_file` (src/fs/filesystems/echfs.c) makes a chain longer.
use drip_os.Prelude.{
  ℕ, zero, suc, ◌+◌, ◌^◌, ◌<◌, ◌≡◌, ◌≢◌, refl, sym, ◌∙◌, false, List, [], ◌∷◌, ◌++◌, if◌then◌else◌,
  ◌==◌, arith, Bool-cases, inl, inr, ==_iff, subst,
}
use drip_os.Echfs.{Geometry, Store, end_of_chain, set_entry_for_block}
use drip_os.Echfs.Cache.{entry_of, IsSized, entry_of-set_entry}
use drip_os.Echfs.Chains.{IsChain, last}

-- Every block of the chain has a place in the table: eight times its number does not wrap.
abbrev pub ArePlaced : ℕ → List ℕ → Type 0
ArePlaced b [] = b < 2 ^ 61
ArePlaced b (c ∷ rest) = (b < 2 ^ 61) × ArePlaced c rest

pub ArePlaced-first : (b : ℕ) (rest : List ℕ) → ArePlaced b rest → b < 2 ^ 61
ArePlaced-first b [] lt = lt
ArePlaced-first b (c ∷ rest) (lt, v) = lt

pub ArePlaced-last : (b : ℕ) (rest : List ℕ) → ArePlaced b rest → last b rest < 2 ^ 61
ArePlaced-last b [] lt = lt
ArePlaced-last b (c ∷ rest) (lt, v) = ArePlaced-last c rest v

pub ArePlaced-append :
    (b : ℕ) (rest : List ℕ) (f : ℕ) → ArePlaced b rest → f < 2 ^ 61 → ArePlaced b (rest ++ f ∷ [])
ArePlaced-append b [] f lt lt' = (lt, lt')
ArePlaced-append b (c ∷ rest) f (lt, v) lt' = (lt, ArePlaced-append c rest f v lt')

-- The table after block `f` has been put behind block `l`.
abbrev pub Linked : Geometry → Store → Store → ℕ → ℕ → Type 0
Linked g s s' l f =
    (x : ℕ)
    → x < 2 ^ 61
    → entry_of g s' x ≡ (if f == x then end_of_chain else if l == x then f else entry_of g s x)

pub set_entry-Linked :
    (g : Geometry) (s : Store) (l f : ℕ)
    → IsSized g
    → l < 2 ^ 61
    → f < 2 ^ 61
    → Linked g s (set_entry_for_block g (set_entry_for_block g s l f) f end_of_chain) l f
set_entry-Linked g s l f sized lt lt' x small =
    entry_of-set_entry g (set_entry_for_block g s l f) f end_of_chain x sized lt' small
      (omega arith)
    ∙ rw (entry_of-set_entry g s l f x sized lt small (omega (arith, lt'))) refl

pub last-end :
    (g : Geometry) (s : Store) (b : ℕ) (rest : List ℕ)
    → IsChain g s b rest
    → entry_of g s (last b rest) ≡ end_of_chain
last-end g s b [] v = v
last-end g s b (c ∷ rest) (e, pos, ne, v) = last-end g s c rest v

module _ (g : Geometry) (s s' : Store) (l f : ℕ) (linked : Linked g s s' l f)
    (ended : entry_of g s l ≡ end_of_chain) (free : entry_of g s f ≡ 0) where
  -- A block with a successor is neither of the two.
  kept :
      (x c : ℕ) → x < 2 ^ 61 → entry_of g s x ≡ c → 0 < c → c ≢ end_of_chain → entry_of g s' x ≡ c
  kept x c lt e pos ne = linked x lt ∙ elim (Bool-cases (f == x)) [
    | inl a ↦
        absurd (ground (arith, subst (λ y. entry_of g s y ≡ 0) ((==_iff f x).0 a) free, e, pos))
    | inr a ↦ elim (Bool-cases (l == x)) [
      | inl b ↦
          absurd (ne (sym e ∙ subst (λ y. entry_of g s y ≡ end_of_chain) ((==_iff l x).0 b) ended))
      | inr b ↦ rw (a, b) e
    ]
  ]

  pub joined-IsChain :
      (b : ℕ) (rest : List ℕ)
      → last b rest ≡ l
      → 0 < f
      → f ≢ end_of_chain
      → f < 2 ^ 61
      → ArePlaced b rest
      → IsChain g s b rest
      → IsChain g s' b (rest ++ f ∷ [])
  joined-IsChain b [] at pos ne lt placed v =
      let apart : (f == b) ≡ false = elim (Bool-cases (f == b)) [
        | inl a ↦
            absurd (ground (arith, subst (λ y. entry_of g s y ≡ 0) ((==_iff f b).0 a) free, v))
        | inr a ↦ a
      ] in
      (
        linked b placed ∙ rw (apart, (==_iff l b).1 (sym at)) refl,
        pos,
        ne,
        linked f lt ∙ rw ((==_iff f f).1 refl) refl,
      )
  joined-IsChain b (c ∷ rest) at pos ne lt (lt', placed) (e, pos', ne', v) =
      (kept b c lt' e pos' ne', pos', ne', joined-IsChain c rest at pos ne lt placed v)

  pub other-IsChain :
      (b : ℕ) (rest : List ℕ)
      → last b rest ≢ l
      → ArePlaced b rest
      → IsChain g s b rest
      → IsChain g s' b rest
  other-IsChain b [] apart lt v = linked b lt ∙ elim (Bool-cases (f == b)) [
    | inl a ↦ absurd (ground (arith, subst (λ y. entry_of g s y ≡ 0) ((==_iff f b).0 a) free, v))
    | inr a ↦ elim (Bool-cases (l == b)) [
      | inl x ↦ absurd (apart (sym ((==_iff l b).0 x)))
      | inr x ↦ rw (a, x) v
    ]
  ]
  other-IsChain b (c ∷ rest) apart (lt, placed) (e, pos, ne, v) =
      (kept b c lt e pos ne, pos, ne, other-IsChain c rest apart placed v)

-- How many of the `n` blocks from `i` on are free.
abbrev pub free_count : Geometry → Store → ℕ → ℕ → ℕ
free_count g s zero i = 0
free_count g s (suc n) i = (if entry_of g s i == 0 then 1 else 0) + free_count g s n (i + 1)

-- Blocks of the device that are free.
abbrev pub AreFree : Geometry → Store → List ℕ → Type 0
AreFree g s [] = Unit {0}
AreFree g s (b ∷ rest) = (b < g.blocks) × (entry_of g s b ≡ 0) × AreFree g s rest
