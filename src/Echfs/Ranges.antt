-- ===== src/Echfs/Ranges.antt =====
-- `read_for_range` (src/fs/filesystems/echfs.c): a read gives the bytes of the file at its place.
use native.Mathlib.Nat.{
  mul-div_left, le-div_iff_mul-le, div-mul-le_self, mul-add-div_right, mul-add-mod_self_right,
  div-add-mod', add-mul-div_right,
}
use drip_os.Prelude.{
  ℕ, zero, suc, ◌+◌, ◌-◌, ◌*◌, ◌/◌, ◌%◌, ◌^◌, ◌≤◌, ◌<◌, ◌≡◌, refl, ap, ◌∙◌, false, some, List, [],
  ◌∷◌, ◌==◌, arith, length, sub64, add64, sub64-le, get_elem?,
}
use drip_os.Echfs.{
  Block, Geometry, Store, end_of_chain, read_block, get_entry_for_block, round_up, blocks_to_read,
  skip_blocks, read_chain, read_blocks_for_range, byte_at, read_for_range,
}
use drip_os.Echfs.Cache.{
  SameView, peek, read_block-peek, read_block-SameView, get_entry-entry_of, get_entry-SameView,
  entry_of-SameView,
}
use drip_os.Echfs.Chains.{IsChain, IsChain-SameView, nth, after, skip_blocks-IsChain}

-- The byte of a file at a place.
abbrev pub content : Geometry → Store → ℕ → List ℕ → ℕ → ℕ
content g s b rest p = peek s (nth b rest (p / g.block_size)) (p % g.block_size)

pub div_mono : (a b n : ℕ) → 0 < n → a ≤ b → a / n ≤ b / n
div_mono a b n pos le = (le-div_iff_mul-le pos).1 (omega (arith, div-mul-le_self a n, le))

pub blocks_to_read-span :
    (g : Geometry) (start count : ℕ)
    → 0 < g.block_size
    → 0 < count
    → start + count + g.block_size ≤ 2 ^ 64
    → blocks_to_read g start count ≡ suc ((start + count - 1) / g.block_size - start / g.block_size)
blocks_to_read-span g start count pos some_bytes fits =
    let bs = g.block_size in
    let d = start / bs in
    let e = (start + count - 1) / bs in
    let le : d ≤ e = div_mono start (start + count - 1) bs pos (omega (arith, some_bytes)) in
    let sum : sub64 (add64 (add64 start count) bs) 1 ≡ (start + count - 1) + 1 * bs =
      omega (arith, fits, some_bytes, pos) in
    let up : round_up (add64 start count) bs ≡ (e + 1) * bs =
      ap (λ n. n / bs * bs) sum ∙ ap (λ n. n * bs) (add-mul-div_right (start + count - 1) 1 pos) in
    let parts : e + 1 ≡ d + suc (e - d) = omega (arith, le) in
    let split : (e + 1) * bs ≡ d * bs + suc (e - d) * bs = ap (λ n. n * bs) parts ∙ grind arith in
    let low = div-mul-le_self (start + count - 1) bs in
    let next : (e + 1) * bs ≡ e * bs + bs = grind arith in
    ap (λ n. sub64 n (d * bs) / bs) up
    ∙ ap (λ n. n / bs)
        (sub64-le ((e + 1) * bs) (d * bs) (omega (arith, split))
            (omega (arith, low, next, fits, some_bytes))
          ∙ omega (arith, split))
    ∙ mul-div_left (suc (e - d)) pos

-- The buffer has the first `n + 1` blocks of the chain.
abbrev pub Reads : Store → ℕ → List ℕ → ℕ → List Block → Type 0
Reads s b rest n buffer = (i : ℕ) → i ≤ n → get_elem? buffer i ≡ some (peek s (nth b rest i))

Reads-one :
    (s : Store) (b : ℕ) (rest : List ℕ) (block : Block)
    → block ≡ peek s b
    → Reads s b rest 0 (block ∷ [])
Reads-one s b rest block e zero le = ap some e
Reads-one s b rest block e (suc i) le = absurd (omega (arith, le))

Reads-more :
    (s s' : Store) (b c n : ℕ) (rest : List ℕ) (block : Block) (later : List Block)
    → block ≡ peek s b
    → SameView s s'
    → Reads s' c rest n later
    → Reads s b (c ∷ rest) (suc n) (block ∷ later)
Reads-more s s' b c n rest block later e same reads zero le = ap some e
Reads-more s s' b c n rest block later e same reads (suc i) le =
    reads i (omega (arith, le)) ∙ ap some (same (nth c rest i))

pub read_chain-IsChain :
    (g : Geometry) (n b : ℕ) (rest : List ℕ) (s : Store)
    → IsChain g s b rest
    → n ≤ length rest
    → (buffer : List Block) × (s' : Store) × (read_chain g (suc n) b s ≡ (some buffer, s'))
      × SameView s s'
      × Reads s b rest n buffer
unfolding read_chain
read_chain-IsChain g zero b rest s v h = (
  (read_block s b).0 ∷ [],
  (read_block s b).1,
  refl,
  read_block-SameView s b,
  Reads-one s b rest (read_block s b).0 (read_block-peek s b),
)
read_chain-IsChain g (suc n) b [] s v h = absurd (omega (arith, h))
read_chain-IsChain g (suc n) b (c ∷ rest) s (e, pos, ne, v) h =
    let s1 = (read_block s b).1 in
    let s2 = (get_entry_for_block g s1 b).1 in
    let same1 = read_block-SameView s b in
    let same : SameView s s2 = λ m. get_entry-SameView g s1 b m ∙ same1 m in
    let at : (get_entry_for_block g s1 b).0 ≡ c =
      get_entry-entry_of g s1 b ∙ entry_of-SameView g s s1 b same1 ∙ e in
    let more : (c == end_of_chain) ≡ false = ground (arith, ne) in
    let (later, s3, runs, same', reads) =
      read_chain-IsChain g n c rest s2 (IsChain-SameView g s s2 c rest same v) (omega (arith, h)) in
    (
      (read_block s b).0 ∷ later,
      s3,
      rw (at, more, runs) refl,
      λ m. same' m ∙ same m,
      Reads-more s s2 b c n rest (read_block s b).0 later (read_block-peek s b) same reads,
    )

pub nth-after :
    (b : ℕ) (rest : List ℕ) (n i : ℕ)
    → n ≤ length rest
    → nth (nth b rest n) (after rest n) i ≡ nth b rest (n + i)
nth-after b rest zero i le = ap (nth b rest) (omega arith)
nth-after b [] (suc n) i le = absurd (omega (arith, le))
nth-after b (c ∷ rest) (suc n) i le =
    nth-after c rest n i (omega (arith, le))
    ∙ ap (nth b (c ∷ rest)) {x = suc (n + i)} {y = suc n + i} (omega arith)

pub length-after : (rest : List ℕ) (n : ℕ) → length (after rest n) ≡ length rest - n
length-after rest zero = omega arith
length-after [] (suc n) = omega arith
length-after (c ∷ rest) (suc n) = length-after rest n ∙ omega arith

module _ (g : Geometry) (b start count c n : ℕ) (s s1 : Store)
    (skips : skip_blocks g (start / g.block_size) b s ≡ (some c, s1))
    (span : blocks_to_read g start count ≡ n) where
  read_blocks-runs : read_blocks_for_range g b start count s ≡ read_chain g n c s1
  unfolding read_blocks_for_range
  read_blocks-runs = rw (read_blocks_for_range, skips, span) (ap (λ x. read_chain g n c x.1) skips)

-- How far the blocks of a range reach from its first block.
abbrev pub reach : Geometry → ℕ → ℕ → ℕ
reach g start count = (start + count - 1) / g.block_size - start / g.block_size

-- A range that 64-bit numbers hold and that a file of these blocks has.
pub record InFile (g : Geometry) (rest : List ℕ) (start count : ℕ) : Type 0 where
  pub positive : 0 < g.block_size
  pub some_bytes : 0 < count
  pub fits : start + count + g.block_size ≤ 2 ^ 64
  pub in_chain : (start + count - 1) / g.block_size ≤ length rest

pub first-last :
    (g : Geometry) (rest : List ℕ) (start count : ℕ)
    → InFile g rest start count
    → start / g.block_size ≤ (start + count - 1) / g.block_size
first-last g rest start count h =
    div_mono start (start + count - 1) g.block_size h.positive (omega (arith, h.some_bytes))

pub read_blocks-Reads :
    (g : Geometry) (s : Store) (b : ℕ) (rest : List ℕ) (start count : ℕ)
    → InFile g rest start count
    → IsChain g s b rest
    → (buffer : List Block) × (s' : Store) × (read_blocks_for_range g b start count s
        ≡ (some buffer, s'))
      × SameView s s'
      × ((i : ℕ)
          → i ≤ reach g start count
          → get_elem? buffer i ≡ some (peek s (nth b rest (start / g.block_size + i))))
read_blocks-Reads g s b rest start count h v =
    let d = start / g.block_size in
    let inside : d ≤ length rest = omega (arith, first-last g rest start count h, h.in_chain) in
    let (s1, skips, same1, v1) = skip_blocks-IsChain g d b rest s v inside in
    let b1 = nth b rest d in
    let (buffer, s2, reads, same2, blocks) =
      read_chain-IsChain g (reach g start count) b1 (after rest d) s1
        (IsChain-SameView g s s1 b1 (after rest d) same1 v1)
        (omega (arith, h.in_chain, length-after rest d)) in
    (
      buffer,
      s2,
      read_blocks-runs g b start count b1 (suc (reach g start count)) s s1 skips
            (blocks_to_read-span g start count h.positive h.some_bytes h.fits)
          ∙ reads,
      λ m. same2 m ∙ same1 m,
      λ i le.
          blocks i le
          ∙ ap some (same1 (nth b1 (after rest d) i) ∙ ap (peek s) (nth-after b rest d i inside)),
    )

pub byte_at-block :
    (g : Geometry) (buffer : List Block) (j : ℕ) (block : Block)
    → get_elem? buffer (j / g.block_size) ≡ some block
    → byte_at g buffer j ≡ block (j % g.block_size)
unfolding byte_at
byte_at-block g buffer j block e = rw (byte_at, e) refl

-- A place in a range: its block and its place there.
pub record Place (g : Geometry) (start count k : ℕ) : Type 0 where
  pub block :
      (start + k) / g.block_size ≡ start / g.block_size + (start % g.block_size + k) / g.block_size
  pub offset : (start + k) % g.block_size ≡ (start % g.block_size + k) % g.block_size
  pub reached : (start % g.block_size + k) / g.block_size ≤ reach g start count

pub place :
    (g : Geometry) (rest : List ℕ) (start count k : ℕ)
    → InFile g rest start count
    → (start + k) / g.block_size ≤ (start + count - 1) / g.block_size
    → Place g start count k
place g rest start count k h below =
    let bs = g.block_size in
    let d = start / bs in
    let r = start % bs in
    let whole : start + k ≡ d * bs + (r + k) = omega (arith, div-add-mod' start bs) in
    let block = ap (λ n. n / bs) whole ∙ mul-add-div_right h.positive d (r + k) in
    record {
      block = block;
      offset = ap (λ n. n % bs) whole ∙ mul-add-mod_self_right d bs (r + k);
      reached = omega (arith, below, block);
    }

-- Reading `read_count` bytes at `read_start`, where the file's chain of blocks reaches as far and
-- the numbers stay below 2^64: it succeeds, the output's byte `k` is byte `read_start + k` of the
-- file for every `k` below `read_count`, and the blocks read the same afterwards.
pub read_for_range-content :
    (g : Geometry) (s : Store) (b : ℕ) (rest : List ℕ) (read_start read_count : ℕ)
    → InFile g rest read_start read_count
    → IsChain g s b rest
    → (output : ℕ → ℕ) × (s' : Store) × (read_for_range g b read_start read_count s
        ≡ (some output, s'))
      × SameView s s'
      × ((k : ℕ) → k < read_count → output k ≡ content g s b rest (read_start + k))
unfolding read_for_range
read_for_range-content g s b rest start count h v =
    let r = start % g.block_size in
    let (buffer, s', runs, same, blocks) = read_blocks-Reads g s b rest start count h v in
    (
      λ k. byte_at g buffer (r + k),
      s',
      rw (read_for_range, runs) refl,
      same,
      λ k lt.
          let at = place g rest start count k h (
            div_mono (start + k) (start + count - 1) g.block_size h.positive (omega (arith, lt))) in
          byte_at-block g buffer (r + k)
            (peek s (nth b rest (start / g.block_size + (r + k) / g.block_size)))
            (blocks ((r + k) / g.block_size) at.reached)
          ∙ rw (at.block, at.offset) refl,
    )
