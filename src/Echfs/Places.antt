-- ===== src/Echfs/Places.antt =====
-- The runs of the writing functions of src/fs/filesystems/echfs.c, and places of a file in a
-- range of blocks.
use native.Mathlib.Nat.{
  mod-lt, mod-eq_of_lt, div-eq_of_lt, div-add-mod', mul-add-div_right, mul-add-mod_self_right,
}
use drip_os.Prelude.{
  ℕ, ◌+◌, ◌-◌, ◌*◌, ◌/◌, ◌%◌, ◌≤◌, ◌<◌, ◌≡◌, ◌≢◌, sym, ap, ◌∙◌, false, ◌&&◌, some, List,
  if◌then◌else◌, arith, length, subst, leb, ltb, Bool-cases, inl, inr,
}
use drip_os.Echfs.{
  Block, Geometry, Store, alloc_table_block, blocks_to_read, skip_blocks, read_blocks_for_range,
  byte_at, write_chain, write_blocks_for_range, write_for_range,
}
use drip_os.Echfs.Chains.{nth, after}
use drip_os.Echfs.Ranges.{div_mono, nth-after, length-after, reach}
use drip_os.Echfs.Write.{IsFile}

-- The buffer that is written: the new bytes in place of those read.
abbrev pub patched : Geometry → List Block → ℕ → ℕ → (ℕ → ℕ) → ℕ → ℕ
patched g buffer start count from k =
    if leb (start % g.block_size) k && ltb k (start % g.block_size + count)
    then from (k - start % g.block_size)
    else byte_at g buffer k

module _ (g : Geometry) (b start count c n : ℕ) (from : ℕ → ℕ) (s s1 s2 : Store)
    (skips : skip_blocks g (start / g.block_size) b s ≡ (some c, s1))
    (span : blocks_to_read g start count ≡ n) (writes : write_chain g n c from s1 ≡ (0, s2)) where
  pub write_blocks-runs : write_blocks_for_range g b start count from s ≡ (0, s2)
  unfolding write_blocks_for_range
  write_blocks-runs =
      rw (write_blocks_for_range, skips, span) (ap (λ x. write_chain g n c from x.1) skips ∙ writes)

module _ (g : Geometry) (b start count : ℕ) (from : ℕ → ℕ) (s s1 s2 : Store) (buffer : List Block)
    (reads : read_blocks_for_range g b start count s ≡ (some buffer, s1))
    (writes : write_blocks_for_range g b start count (patched g buffer start count from) s1
      ≡ (0, s2)) where
  pub write_for_range-runs : write_for_range g b start count from s ≡ (0, s2)
  unfolding write_for_range
  write_for_range-runs =
      rw (write_for_range, reads)
        (ap (λ x. write_blocks_for_range g b start count (patched g buffer start count from) x.1)
            reads
          ∙ writes)

pub nth-IsFile :
    (g : Geometry) (b : ℕ) (rest : List ℕ) (d : ℕ)
    → d ≤ length rest
    → IsFile g b rest
    → IsFile g (nth b rest d) (after rest d)
nth-IsFile g b rest d le v = record {
  bounded = λ i lt.
      subst (λ x. x < g.blocks) (sym (nth-after b rest d i le))
        (v.bounded (d + i) (omega (arith, lt, le, length-after rest d)));
  not_table = λ i lt.
      subst (λ x. (y : ℕ) → y < g.blocks → alloc_table_block g y ≢ x)
        (sym (nth-after b rest d i le))
        (v.not_table (d + i) (omega (arith, lt, le, length-after rest d)));
  distinct = λ i j lt lt' e.
      let at = sym (nth-after b rest d i le) ∙ e ∙ nth-after b rest d j le in
      omega (
        arith,
        v.distinct (d + i) (d + j) (omega (arith, lt, le, length-after rest d))
            (omega (arith, lt', le, length-after rest d)) at,
      );
}

-- A place of the file inside the blocks of a range: how far it is from their start.
pub record Inside (g : Geometry) (start count p : ℕ) : Type 0 where
  pub index : ℕ
  pub index_le : index ≤ reach g start count
  pub block : p / g.block_size ≡ start / g.block_size + index
  pub there : p ≡ start / g.block_size * g.block_size + (index * g.block_size + p % g.block_size)
  pub quotient : (index * g.block_size + p % g.block_size) / g.block_size ≡ index
  pub remainder : (index * g.block_size + p % g.block_size) % g.block_size ≡ p % g.block_size

pub Inside-range :
    (g : Geometry) (start count p : ℕ)
    → 0 < g.block_size
    → start / g.block_size ≤ p / g.block_size
    → p / g.block_size ≤ (start + count - 1) / g.block_size
    → Inside g start count p
Inside-range g start count p pos lo hi =
    let bs = g.block_size in
    let d = start / bs in
    let i = p / bs - d in
    let small = mod-lt p pos in
    let sum : d + i ≡ p / bs = omega (arith, lo) in
    let spread : (d + i) * bs ≡ d * bs + i * bs = grind arith in
    let times : (d + i) * bs ≡ p / bs * bs = ap (λ n. n * bs) sum in
    record {
      index = i;
      index_le = omega (arith, lo, hi);
      block = sym sum;
      there = omega (arith, div-add-mod' p bs, spread, times);
      quotient = mul-add-div_right pos i (p % bs) ∙ omega (arith, div-eq_of_lt small);
      remainder = mul-add-mod_self_right i bs (p % bs) ∙ mod-eq_of_lt small;
    }

-- The test for the range, before and after the offset of its first block.
pub range-shift :
    (start p o r j count : ℕ)
    → start ≡ o + r
    → p ≡ o + j
    → (leb r j && ltb j (r + count)) ≡ (leb start p && ltb p (start + count))
range-shift start p o r j count e e' = ground (arith, e, e')

-- A place outside the blocks of a range is outside the range.
pub range-outside :
    (g : Geometry) (start count p : ℕ)
    → 0 < g.block_size
    → (leb (start / g.block_size) (p / g.block_size)
        && leb (p / g.block_size) ((start + count - 1) / g.block_size))
      ≡ false
    → (leb start p && ltb p (start + count)) ≡ false
range-outside g start count p pos e = elim (Bool-cases (leb start p && ltb p (start + count))) [
  | inl x ↦
      let lo : start ≤ p = ground (arith, x) in
      let hi : p ≤ start + count - 1 = ground (arith, x) in
      ground (
        arith,
        e,
        div_mono start p g.block_size pos lo,
        div_mono p (start + count - 1) g.block_size pos hi,
      )
  | inr x ↦ x
]
