-- ===== src/Echfs.antt =====
-- src/fs/filesystems/echfs.c: files as chains of blocks in the allocation table. A block is a
-- function from the offset of a byte in it to the byte. Transfers to and from the device succeed,
-- one block at a time; the main directory is held apart from the blocks, as entries by number.
-- Searches that the source does not bound take fuel.
pub mod Words
pub mod Cache
pub mod Chains
pub mod Extend
pub mod FreeBlocks
pub mod Alloc
pub mod Ranges
pub mod Write
pub mod Places
pub mod Contents
pub mod Directory
mod Tests
use drip_os.Prelude.{
  ℕ, zero, suc, ◌+◌, ◌-◌, ◌*◌, ◌/◌, ◌%◌, ◌^◌, Bool, true, false, ◌&&◌, ◌||◌, not, Option, none,
  some, List, [], ◌∷◌, if◌then◌else◌, ◌==◌, ltb, leb, add64, sub64, ◌>>=◌, length, get_elem?,
}
use drip_os.Text.{Buffer, strcmp}

-- The byte at each offset.
abbrev pub Block : Type 0
Block = ℕ → ℕ

-- What the first block says of the file system, and where `echfs_check_and_init` puts its parts.
pub record Geometry : Type 0 where
  pub block_size : ℕ
  pub blocks : ℕ
  pub main_dir_blocks : ℕ

-- The device, and the blocks that are held in memory.
pub record Store : Type 0 where
  pub device : ℕ → Block
  pub cached_blocks : ℕ → Option Block

abbrev pub update {ℓ} : {A : Type ℓ} → (ℕ → A) → ℕ → A → ℕ → A
update f i a j = if i == j then a else f j

-- `echfs_read_block`
pub read_block : Store → ℕ → Block × Store
read_block s block = elim (s.cached_blocks block) [
  | some cached ↦ (cached, s)
  | none ↦ (
    s.device block,
    record s { cached_blocks = update s.cached_blocks block (some (s.device block)) },
  )
]

-- `echfs_write_block`
pub write_block : Store → ℕ → Block → Store
write_block s block contents = record s {
  device = update s.device block contents;
  cached_blocks = elim (s.cached_blocks block) [
    | none ↦ s.cached_blocks
    | some cached ↦ update s.cached_blocks block (some contents)
  ];
}

-- The little-endian number of `n` bytes from an offset on, and its bytes.
pub word_from : Block → ℕ → ℕ → ℕ
word_from b at zero = 0
word_from b at (suc n) = b at + 256 * word_from b (at + 1) n

pub byte_of : ℕ → ℕ → ℕ
byte_of v zero = v % 256
byte_of v (suc k) = byte_of (v / 256) k

-- A block as an array of `uint64_t`.
pub word_at : Block → ℕ → ℕ
word_at b i = word_from b (8 * i) 8

pub set_word : Block → ℕ → ℕ → Block
set_word b i v j = if j / 8 == i then byte_of v (j % 8) else b j

abbrev pub end_of_chain : ℕ
end_of_chain = 0xFFFFFFFFFFFFFFFF

abbrev pub alloc_table_block : Geometry → ℕ → ℕ
alloc_table_block g block = block * 8 % 2 ^ 64 / g.block_size + 16

-- `echfs_get_entry_for_block`
pub get_entry_for_block : Geometry → Store → ℕ → ℕ × Store
get_entry_for_block g s block =
    let (alloc_table, s') = read_block s (alloc_table_block g block) in
    (word_at alloc_table (block % (g.block_size / 8)), s')

-- `echfs_set_entry_for_block`
pub set_entry_for_block : Geometry → Store → ℕ → ℕ → Store
set_entry_for_block g s block v =
    let (alloc_table, s') = read_block s (alloc_table_block g block) in
    write_block s' (alloc_table_block g block) (set_word alloc_table (block % (g.block_size / 8)) v)

-- The loop of `find_free_block` with `n` rounds left. A full device gives block 0.
pub find_free_from : Geometry → ℕ → ℕ → Store → ℕ × Store
find_free_from g zero i s = (0, s)
find_free_from g (suc n) i s =
    let (entry, s') = get_entry_for_block g s i in
    let rest = find_free_from g n (i + 1) s' in if entry == 0 then (i, s') else rest

pub find_free_block : Geometry → Store → ℕ × Store
find_free_block g s = find_free_from g g.blocks 0 s

-- The first loop of `allocate_blocks_for_file`: the number of blocks from `cur_block` to the end of
-- the chain, and the last.
pub count_blocks : Geometry → ℕ → ℕ → ℕ → Store → Option (ℕ × ℕ × Store)
count_blocks g zero blocks_total cur_block s = none
count_blocks g (suc fuel) blocks_total cur_block s =
    let (next, s') = get_entry_for_block g s cur_block in
    let rest = count_blocks g fuel (blocks_total + 1) next s' in
    if next == end_of_chain then some (blocks_total + 1, cur_block, s') else rest

-- The second loop, with `n` rounds left.
pub extend_chain : Geometry → ℕ → ℕ → Store → Store
extend_chain g zero cur_block s = s
extend_chain g (suc n) cur_block s =
    let (free_block, s1) = find_free_block g s in
    let s2 = set_entry_for_block g s1 cur_block free_block in
    let s3 = set_entry_for_block g s2 free_block end_of_chain in extend_chain g n free_block s3

-- `allocate_blocks_for_file`. The difference is that of two `uint64_t`.
pub allocate_blocks_for_file : Geometry → ℕ → ℕ → ℕ → Store → Option Store
allocate_blocks_for_file g fuel starting_block total_blocks s = do
  (blocks_total, last, s') ← count_blocks g fuel 0 starting_block s
  some (extend_chain g (sub64 total_blocks blocks_total) last s')

abbrev pub round_down : ℕ → ℕ → ℕ
round_down n size = n / size * size

abbrev pub round_up : ℕ → ℕ → ℕ
round_up n size = sub64 (add64 n size) 1 / size * size

abbrev pub blocks_to_read : Geometry → ℕ → ℕ → ℕ
blocks_to_read g start count =
    sub64 (round_up (add64 start count) g.block_size) (round_down start g.block_size) / g.block_size

-- Going `n` blocks along a chain; `none` where it ends before.
pub skip_blocks : Geometry → ℕ → ℕ → Store → Option ℕ × Store
skip_blocks g zero current_block s = (some current_block, s)
skip_blocks g (suc n) current_block s =
    let (next, s') = get_entry_for_block g s current_block in
    let rest = skip_blocks g n next s' in if next == end_of_chain then (none, s') else rest

-- The loop that reads `n` blocks of a chain one after the other.
pub read_chain : Geometry → ℕ → ℕ → Store → Option (List Block) × Store
read_chain g zero current_block s = (some [], s)
read_chain g (suc zero) current_block s =
    let (block, s') = read_block s current_block in (some (block ∷ []), s')
read_chain g (suc (suc n)) current_block s =
    let (block, s1) = read_block s current_block in
    let (next, s2) = get_entry_for_block g s1 current_block in
    let (rest, s3) = read_chain g (suc n) next s2 in
    let more : Option (List Block) = (do later ← rest; some (block ∷ later)) in
    if next == end_of_chain then (none, s2) else (more, s3)

-- `read_blocks_for_range` of a file that starts at block `starting_block`: the buffer is the list
-- of the blocks that are copied into it one behind the other.
pub read_blocks_for_range : Geometry → ℕ → ℕ → ℕ → Store → Option (List Block) × Store
read_blocks_for_range g starting_block read_start read_count s =
    let (first, s') = skip_blocks g (read_start / g.block_size) starting_block s in
    elim first [
      | none ↦ (none, s')
      | some current_block ↦ read_chain g (blocks_to_read g read_start read_count) current_block s'
    ]

-- A byte of such a buffer.
pub byte_at : Geometry → List Block → ℕ → ℕ
byte_at g buffer k = elim (get_elem? buffer (k / g.block_size)) [
  | none ↦ 0
  | some block ↦ block (k % g.block_size)
]

-- `read_for_range`: the output's bytes from the first on.
pub read_for_range : Geometry → ℕ → ℕ → ℕ → Store → Option (ℕ → ℕ) × Store
read_for_range g starting_block read_start read_count s =
    let (read, s') = read_blocks_for_range g starting_block read_start read_count s in
    ((do buffer ← read; some (λ k. byte_at g buffer (read_start % g.block_size + k))), s')

-- The loop that writes `n` blocks of a chain from the bytes behind a pointer, the byte at each
-- distance from it: 0, or 1 where the chain ends before.
pub write_chain : Geometry → ℕ → ℕ → (ℕ → ℕ) → Store → ℕ × Store
write_chain g zero current_block from s = (0, s)
write_chain g (suc zero) current_block from s = (0, write_block s current_block from)
write_chain g (suc (suc n)) current_block from s =
    let s1 = write_block s current_block from in
    let (next, s2) = get_entry_for_block g s1 current_block in
    let rest = write_chain g (suc n) next (λ k. from (g.block_size + k)) s2 in
    if next == end_of_chain then (1, s2) else rest

pub write_blocks_for_range : Geometry → ℕ → ℕ → ℕ → (ℕ → ℕ) → Store → ℕ × Store
write_blocks_for_range g starting_block write_start write_count from s =
    let (first, s') = skip_blocks g (write_start / g.block_size) starting_block s in
    elim first [
      | none ↦ (1, s')
      | some current_block ↦
          write_chain g (blocks_to_read g write_start write_count) current_block from s'
    ]

pub write_for_range : Geometry → ℕ → ℕ → ℕ → (ℕ → ℕ) → Store → ℕ × Store
write_for_range g starting_block write_start write_count from s =
    let (read, s') = read_blocks_for_range g starting_block write_start write_count s in
    let offset = write_start % g.block_size in
    elim read [
      | none ↦ (1, s')
      | some buffer ↦
          write_blocks_for_range g starting_block write_start write_count
            (λ k.
              if leb offset k && ltb k (offset + write_count)
              then from (k - offset)
              else byte_at g buffer k)
            s'
    ]
