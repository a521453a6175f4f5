-- ===== src/Echfs/Chains.antt =====
-- Chains of blocks in the allocation table (src/fs/filesystems/echfs.c): what the loops that follow
-- them see, and the search for a free block.
use drip_os.Prelude.{
  ℕ, zero, suc, ◌+◌, ◌≤◌, ◌<◌, ◌≡◌, ◌≢◌, refl, sym, ap, ◌∙◌, false, some, List, [], ◌∷◌, ◌==◌,
  arith, Bool-cases, inl, inr, ==_iff, length, false≢true, subst,
}
use drip_os.Echfs.{
  Geometry, Store, end_of_chain, get_entry_for_block, find_free_from, count_blocks, skip_blocks,
}
use drip_os.Echfs.Cache.{
  SameView, entry_of, get_entry-entry_of, get_entry-SameView, entry_of-SameView,
}

-- The blocks `rest` follow block `b` in the table, to the end of the chain.
abbrev pub IsChain : Geometry → Store → ℕ → List ℕ → Type 0
IsChain g s b [] = entry_of g s b ≡ end_of_chain
IsChain g s b (c ∷ rest) = (entry_of g s b ≡ c) × (0 < c) × (c ≢ end_of_chain) × IsChain g s c rest

abbrev pub last : ℕ → List ℕ → ℕ
last b [] = b
last b (c ∷ rest) = last c rest

pub IsChain-SameView :
    (g : Geometry) (s s' : Store) (b : ℕ) (rest : List ℕ)
    → SameView s s'
    → IsChain g s b rest
    → IsChain g s' b rest
IsChain-SameView g s s' b [] same v = entry_of-SameView g s s' b same ∙ v
IsChain-SameView g s s' b (c ∷ rest) same (e, pos, ne, v) =
    (entry_of-SameView g s s' b same ∙ e, pos, ne, IsChain-SameView g s s' c rest same v)

-- The walk to the end of a chain counts its blocks and stops at the last.
pub count_blocks-IsChain :
    (g : Geometry) (fuel n b : ℕ) (rest : List ℕ) (s : Store)
    → IsChain g s b rest
    → length rest < fuel
    → (s' : Store) × (count_blocks g fuel n b s ≡ some (n + length rest + 1, last b rest, s'))
      × SameView s s'
unfolding count_blocks
count_blocks-IsChain g zero n b rest s v h = absurd (omega (arith, h))
count_blocks-IsChain g (suc fuel) n b [] s v h =
    let at = get_entry-entry_of g s b ∙ v in
    (
      (get_entry_for_block g s b).1,
      rw at (ap (λ k. some (k, b, (get_entry_for_block g s b).1)) (omega arith)),
      get_entry-SameView g s b,
    )
count_blocks-IsChain g (suc fuel) n b (c ∷ rest) s (e, pos, ne, v) h =
    let at = get_entry-entry_of g s b ∙ e in
    let same = get_entry-SameView g s b in
    let s1 = (get_entry_for_block g s b).1 in
    let more : (c == end_of_chain) ≡ false = ground (arith, ne) in
    let (s', runs, same') =
      count_blocks-IsChain g fuel (n + 1) c rest s1 (IsChain-SameView g s s1 c rest same v)
        (omega (arith, h)) in
    (
      s',
      rw (at, more) (runs ∙ ap (λ k. some (k, last c rest, s')) (omega arith)),
      λ m. same' m ∙ same m,
    )

-- The search finds the first free block from block `i` on.
pub find_free_from-first :
    (g : Geometry) (n i k : ℕ) (s : Store)
    → i ≤ k
    → k < i + n
    → entry_of g s k ≡ 0
    → (f : ℕ) × (s' : Store) × (find_free_from g n i s ≡ (f, s'))
      × SameView s s'
      × (entry_of g s f ≡ 0)
      × (i ≤ f)
      × (f ≤ k)
unfolding find_free_from
find_free_from-first g zero i k s lo hi free = absurd (omega (arith, lo, hi))
find_free_from-first g (suc n) i k s lo hi free =
    let s1 = (get_entry_for_block g s i).1 in
    let same = get_entry-SameView g s i in
    elim (Bool-cases (entry_of g s i == 0)) [
      | inl e ↦
          (i, s1, rw (get_entry-entry_of g s i, e) refl, same, (==_iff _ 0).0 e, omega arith, lo)
      | inr e ↦
          let later : i + 1 ≤ k = elim (Bool-cases (i == k)) [
            | inl x ↦ absurd (
                false≢true (
                  sym e
                  ∙ (==_iff _ 0).1 (subst (λ j. entry_of g s j ≡ 0) (sym ((==_iff i k).0 x)) free)))
            | inr x ↦ ground arith
          ] in
          let (f, s', runs, same', zero_at, low, high) =
            find_free_from-first g n (i + 1) k s1 later (omega (arith, hi))
              (entry_of-SameView g s s1 k same ∙ free) in
          (
            f,
            s',
            rw (get_entry-entry_of g s i, e) runs,
            λ m. same' m ∙ same m,
            sym (entry_of-SameView g s s1 f same) ∙ zero_at,
            omega (arith, low),
            high,
          )
    ]

-- The chain's block at a distance from its first; the first again past the end.
abbrev pub nth : ℕ → List ℕ → ℕ → ℕ
nth b rest zero = b
nth b [] (suc n) = b
nth b (c ∷ rest) (suc n) = nth c rest n

abbrev pub after : List ℕ → ℕ → List ℕ
after rest zero = rest
after [] (suc n) = []
after (c ∷ rest) (suc n) = after rest n

-- Skipping blocks of a chain that is long enough.
pub skip_blocks-IsChain :
    (g : Geometry) (n b : ℕ) (rest : List ℕ) (s : Store)
    → IsChain g s b rest
    → n ≤ length rest
    → (s' : Store) × (skip_blocks g n b s ≡ (some (nth b rest n), s'))
      × SameView s s'
      × IsChain g s (nth b rest n) (after rest n)
unfolding skip_blocks
skip_blocks-IsChain g zero b rest s v h = (s, refl, λ m. refl, v)
skip_blocks-IsChain g (suc n) b [] s v h = absurd (omega (arith, h))
skip_blocks-IsChain g (suc n) b (c ∷ rest) s (e, pos, ne, v) h =
    let at = get_entry-entry_of g s b ∙ e in
    let same = get_entry-SameView g s b in
    let s1 = (get_entry_for_block g s b).1 in
    let more : (c == end_of_chain) ≡ false = ground (arith, ne) in
    let (s', runs, same', v') =
      skip_blocks-IsChain g n c rest s1 (IsChain-SameView g s s1 c rest same v)
        (omega (arith, h)) in
    (
      s',
      rw (at, more) runs,
      λ m. same' m ∙ same m,
      IsChain-SameView g s1 s (nth c rest n) (after rest n) (λ m. sym (same m)) v',
    )
