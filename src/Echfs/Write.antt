-- ===== src/Echfs/Write.antt =====
-- `write_chain` and `write_blocks_for_range` (src/fs/filesystems/echfs.c): the blocks written.
use drip_os.Prelude.{
  ℕ, zero, suc, ◌+◌, ◌*◌, ◌/◌, ◌%◌, ◌≤◌, ◌<◌, ◌≡◌, ◌≢◌, refl, sym, ap, ◌∙◌, false, List, [], ◌∷◌,
  ◌==◌, arith, length, Bool-cases, inl, inr, ==_iff,
}
use drip_os.Echfs.{
  Block, Geometry, Store, end_of_chain, alloc_table_block, write_block, get_entry_for_block,
  write_chain, word_at,
}
use drip_os.Echfs.Cache.{
  SameView, peek, write_block-peek, entry_of, get_entry-entry_of, get_entry-SameView,
  entry_of-SameView,
}
use drip_os.Echfs.Chains.{IsChain, nth}

-- A block outside the allocation table.
abbrev pub IsData : Geometry → ℕ → Type 0
IsData g b = (x : ℕ) → x < g.blocks → alloc_table_block g x ≢ b

abbrev pub SameTable : Geometry → Store → Store → Type 0
SameTable g s s' = (x : ℕ) → x < g.blocks → entry_of g s' x ≡ entry_of g s x

-- The blocks of a file: blocks of the device outside the table, and no block twice.
pub record IsFile (g : Geometry) (b : ℕ) (rest : List ℕ) : Type 0 where
  pub bounded : (i : ℕ) → i ≤ length rest → nth b rest i < g.blocks
  pub not_table : (i : ℕ) → i ≤ length rest → IsData g (nth b rest i)
  pub distinct : (i j : ℕ) → i ≤ length rest → j ≤ length rest → nth b rest i ≡ nth b rest j → i ≡ j

IsFile-rest : (g : Geometry) (b c : ℕ) (rest : List ℕ) → IsFile g b (c ∷ rest) → IsFile g c rest
IsFile-rest g b c rest v = record {
  bounded = λ i le. v.bounded (suc i) (omega (arith, le));
  not_table = λ i le. v.not_table (suc i) (omega (arith, le));
  distinct = λ i j le le' e.
      omega (arith, v.distinct (suc i) (suc j) (omega (arith, le)) (omega (arith, le')) e);
}

pub IsChain-SameTable :
    (g : Geometry) (s s' : Store) (b : ℕ) (rest : List ℕ)
    → SameTable g s s'
    → IsFile g b rest
    → IsChain g s b rest
    → IsChain g s' b rest
IsChain-SameTable g s s' b [] same file v = same b (file.bounded 0 (omega arith)) ∙ v
IsChain-SameTable g s s' b (c ∷ rest) same file (e, pos, ne, v) = (
  same b (file.bounded 0 (omega arith)) ∙ e,
  pos,
  ne,
  IsChain-SameTable g s s' c rest same (IsFile-rest g b c rest file) v,
)

write_block-SameTable :
    (g : Geometry) (s : Store) (b : ℕ) (from : Block)
    → IsData g b
    → SameTable g s (write_block s b from)
write_block-SameTable g s b from not_table x lt =
    let apart : (b == alloc_table_block g x) ≡ false =
      elim (Bool-cases (b == alloc_table_block g x)) [
        | inl e ↦ absurd (not_table x lt (sym ((==_iff _ _).0 e)))
        | inr e ↦ e
      ] in
    ap (λ t. word_at t (x % (g.block_size / 8)))
      (write_block-peek s b (alloc_table_block g x) from ∙ rw apart refl)

-- After writing blocks 0 to `n` of a chain: these hold the bytes, all others are as they were.
pub record Written (g : Geometry) (s s' : Store) (b : ℕ) (rest : List ℕ) (n : ℕ) (from : ℕ → ℕ)
    : Type 0 where
  pub table : SameTable g s s'
  pub inside : (i : ℕ) → i ≤ n → (j : ℕ) → peek s' (nth b rest i) j ≡ from (i * g.block_size + j)
  pub outside : (m : ℕ) → ((i : ℕ) → i ≤ n → nth b rest i ≢ m) → peek s' m ≡ peek s m

differ : (b m : ℕ) → b ≢ m → (b == m) ≡ false
differ b m apart = ground (arith, apart)

Written-here :
    (g : Geometry) (s : Store) (b : ℕ) (rest : List ℕ) (from : Block) (i : ℕ)
    → i ≤ 0
    → (j : ℕ) → peek (write_block s b from) (nth b rest i) j ≡ from (i * g.block_size + j)
Written-here g s b rest from zero le j =
    let here : peek (write_block s b from) b ≡ from =
      write_block-peek s b b from ∙ rw ((==_iff b b).1 refl) refl in
    ap (λ f. f j) here ∙ ap from (omega arith)
Written-here g s b rest from (suc i) le j = absurd (omega (arith, le))

-- Writing one block.
Written-one :
    (g : Geometry) (s : Store) (b : ℕ) (rest : List ℕ) (from : Block)
    → IsData g b
    → Written g s (write_block s b from) b rest 0 from
Written-one g s b rest from not_table = record {
  table = write_block-SameTable g s b from not_table;
  inside = Written-here g s b rest from;
  outside = λ m apart. write_block-peek s b m from ∙ rw (differ b m (apart 0 (omega arith))) refl;
}

-- Writing the first block, then the others.
module _ (g : Geometry) (s s1 s2 s3 : Store) (b c n : ℕ) (rest : List ℕ) (from : ℕ → ℕ)
    (file : IsFile g b (c ∷ rest)) (le : n ≤ length rest) (one : Written g s s1 b (c ∷ rest) 0 from)
    (same : SameView s1 s2) (later : Written g s2 s3 c rest n (λ k. from (g.block_size + k))) where
  Written-inside :
      (i : ℕ) → i ≤ suc n → (j : ℕ) → peek s3 (nth b (c ∷ rest) i) j ≡ from (i * g.block_size + j)
  Written-inside zero lt j =
      let kept : peek s3 b ≡ peek s2 b = later.outside b (λ i lt' e.
        absurd (omega (arith, file.distinct (suc i) 0 (omega (arith, lt', le)) (omega arith) e))) in
      ap (λ f. f j) (kept ∙ same b) ∙ one.inside 0 (omega arith) j
  Written-inside (suc i) lt j =
      let place : g.block_size + (i * g.block_size + j) ≡ suc i * g.block_size + j = grind arith in
      later.inside i (omega (arith, lt)) j ∙ ap from place

  Written-more : Written g s s3 b (c ∷ rest) (suc n) from
  Written-more = record {
    table = λ x lt. later.table x lt ∙ entry_of-SameView g s1 s2 x same ∙ one.table x lt;
    inside = Written-inside;
    outside = λ m apart.
        later.outside m (λ i lt. apart (suc i) (omega (arith, lt)))
        ∙ same m
        ∙ one.outside m (λ i lt. apart i (omega (arith, lt)));
  }

pub write_chain-Written :
    (g : Geometry) (n b : ℕ) (rest : List ℕ) (s : Store) (from : ℕ → ℕ)
    → IsChain g s b rest
    → IsFile g b rest
    → n ≤ length rest
    → (s' : Store) × (write_chain g (suc n) b from s ≡ (0, s')) × Written g s s' b rest n from
unfolding write_chain
write_chain-Written g zero b rest s from v file h =
    (write_block s b from, refl, Written-one g s b rest from (file.not_table 0 (omega arith)))
write_chain-Written g (suc n) b [] s from v file h = absurd (omega (arith, h))
write_chain-Written g (suc n) b (c ∷ rest) s from (e, pos, ne, v) file h =
    let s1 = write_block s b from in
    let s2 = (get_entry_for_block g s1 b).1 in
    let one = Written-one g s b (c ∷ rest) from (file.not_table 0 (omega arith)) in
    let same = get_entry-SameView g s1 b in
    let at : (get_entry_for_block g s1 b).0 ≡ c =
      get_entry-entry_of g s1 b ∙ one.table b (file.bounded 0 (omega arith)) ∙ e in
    let more : (c == end_of_chain) ≡ false = ground (arith, ne) in
    let table : SameTable g s s2 = λ x lt. entry_of-SameView g s1 s2 x same ∙ one.table x lt in
    let (s3, runs, later) =
      write_chain-Written g n c rest s2 (λ k. from (g.block_size + k))
        (IsChain-SameTable g s s2 c rest table (IsFile-rest g b c rest file) v)
        (IsFile-rest g b c rest file) (omega (arith, h)) in
    (
      s3,
      rw (at, more) runs,
      Written-more g s s1 s2 s3 b c n rest from file (omega (arith, h)) one same later,
    )
