-- ===== src/Echfs/Cache.antt =====
-- Blocks through the cache, and the entries of the allocation table
-- (src/fs/filesystems/echfs.c).
use native.Mathlib.Nat.{mul-div-mul_right, mul-div_left, div-add-mod}
use drip_os.Prelude.{
  ℕ, ◌*◌, ◌/◌, ◌%◌, ◌^◌, ◌<◌, ◌≡◌, refl, sym, ap, ◌∙◌, true, false, none, some, if◌then◌else◌, ◌==◌,
  arith, Bool-cases, inl, inr, ==_iff, false≢true,
}
use drip_os.Echfs.{
  Block, Geometry, Store, read_block, write_block, word_at, set_word, alloc_table_block,
  get_entry_for_block, set_entry_for_block,
}
use drip_os.Echfs.Words.{word_at-set_word}

-- What reading a block gives.
abbrev pub peek : Store → ℕ → Block
peek s block = elim (s.cached_blocks block) [ some cached ↦ cached | none ↦ s.device block ]

-- Reading any block gives the same in both stores.
abbrev pub SameView : Store → Store → Type 0
SameView s s' = (block : ℕ) → peek s' block ≡ peek s block

pub read_block-peek : (s : Store) (block : ℕ) → (read_block s block).0 ≡ peek s block
unfolding read_block
read_block-peek s block = ground arith

pub read_block-SameView : (s : Store) (block : ℕ) → SameView s (read_block s block).1
unfolding read_block
read_block-SameView s block m = ground arith

pub write_block-peek :
    (s : Store) (block m : ℕ) (contents : Block)
    → peek (write_block s block contents) m ≡ (if block == m then contents else peek s m)
unfolding write_block
write_block-peek s block m contents = ground arith

-- The cache holds what the device holds.
unfoldable pub IsCoherent : Store → Type 0
IsCoherent s = (block : ℕ) → peek s block ≡ s.device block

-- A block's number in the allocation table, read through the cache.
abbrev pub entry_of : Geometry → Store → ℕ → ℕ
entry_of g s block = word_at (peek s (alloc_table_block g block)) (block % (g.block_size / 8))

pub get_entry-entry_of :
    (g : Geometry) (s : Store) (block : ℕ) → (get_entry_for_block g s block).0 ≡ entry_of g s block
unfolding get_entry_for_block
get_entry-entry_of g s block =
    ap (λ b. word_at b (block % (g.block_size / 8))) (read_block-peek s (alloc_table_block g block))

pub get_entry-SameView :
    (g : Geometry) (s : Store) (block : ℕ) → SameView s (get_entry_for_block g s block).1
unfolding get_entry_for_block
get_entry-SameView g s block = read_block-SameView s (alloc_table_block g block)

pub entry_of-SameView :
    (g : Geometry) (s s' : Store) (block : ℕ)
    → SameView s s'
    → entry_of g s' block ≡ entry_of g s block
entry_of-SameView g s s' block same =
    ap (λ b. word_at b (block % (g.block_size / 8))) (same (alloc_table_block g block))

-- The block size is a positive multiple of eight.
pub record IsSized (g : Geometry) : Type 0 where
  pub words : ℕ
  pub some_words : 0 < words
  pub size : g.block_size ≡ words * 8

pub set_entry-peek :
    (g : Geometry) (s : Store) (block v m : ℕ)
    → peek (set_entry_for_block g s block v) m ≡ (
        if alloc_table_block g block == m
        then set_word (peek s m) (block % (g.block_size / 8)) v
        else peek s m)
unfolding set_entry_for_block
set_entry-peek g s block v m =
    let at = alloc_table_block g block in
    let i = block % (g.block_size / 8) in
    write_block-peek (read_block s at).1 at m (set_word (read_block s at).0 i v)
    ∙ rw (read_block-SameView s at m, read_block-peek s at)
        (elim (Bool-cases (at == m)) [
          | inl e ↦ rw e (ap (λ n. set_word (peek s n) i v) ((==_iff at m).0 e))
          | inr e ↦ rw e refl
        ])

-- A number's place in the table determines it, as far as its eight bytes do not wrap.
place-block :
    (g : Geometry) (b c : ℕ)
    → IsSized g
    → b < 2 ^ 61
    → c < 2 ^ 61
    → alloc_table_block g b ≡ alloc_table_block g c
    → b % (g.block_size / 8) ≡ c % (g.block_size / 8)
    → b ≡ c
place-block g b c sized lt lt' same same' =
    let w = sized.words in
    let at : (x : ℕ) → x < 2 ^ 61 → x * 8 % 2 ^ 64 / g.block_size ≡ x / w = λ x small.
      ap (λ m. m / g.block_size) (omega (arith, small))
      ∙ ap (λ n. x * 8 / n) sized.size
      ∙ mul-div-mul_right x w (omega arith) in
    let width : g.block_size / 8 ≡ w = ap (λ n. n / 8) sized.size ∙ mul-div_left w (omega arith) in
    let quotients : b / w ≡ c / w = omega (arith, same, at b lt, at c lt') in
    let remainders : b % w ≡ c % w = rw width at same' in
    sym (div-add-mod b w) ∙ rw (quotients, remainders) (div-add-mod c w)

differs : (f : ℕ → ℕ) (b c : ℕ) → (f b == f c) ≡ false → (b == c) ≡ false
differs f b c e = elim (Bool-cases (b == c)) [
  | inl same ↦ absurd (false≢true (sym e ∙ (==_iff (f b) (f c)).1 (ap f ((==_iff b c).0 same))))
  | inr other ↦ other
]

pub entry_of-set_entry :
    (g : Geometry) (s : Store) (block v c : ℕ)
    → IsSized g
    → block < 2 ^ 61
    → c < 2 ^ 61
    → v < 2 ^ 64
    → entry_of g (set_entry_for_block g s block v) c ≡ (if block == c then v else entry_of g s c)
entry_of-set_entry g s block v c sized lt lt' small =
    let i = block % (g.block_size / 8) in
    let j = c % (g.block_size / 8) in
    let table = alloc_table_block g c in
    ap (λ b. word_at b j) (set_entry-peek g s block v table)
    ∙ elim (Bool-cases (alloc_table_block g block == table)) [
      | inl e ↦ rw e (
          word_at-set_word (peek s table) i j v small ∙ elim (Bool-cases (i == j)) [
            | inl f ↦
                let same : (block == c) ≡ true =
                  (==_iff block c).1
                    (place-block g block c sized lt lt' ((==_iff _ _).0 e) ((==_iff _ _).0 f)) in
                rw (f, same) refl
            | inr f ↦ rw (f, differs (λ x. x % (g.block_size / 8)) block c f) refl
          ])
      | inr e ↦ rw (e, differs (alloc_table_block g) block c e) refl
    ]

-- Reading and writing through the cache keep it coherent, and the device has what was written.
pub read_block-IsCoherent :
    (s : Store) (block : ℕ) → IsCoherent s → IsCoherent (read_block s block).1
unfolding IsCoherent read_block
read_block-IsCoherent s block v m = read_block-SameView s block m ∙ v m ∙ ground arith

pub write_block-IsCoherent :
    (s : Store) (block : ℕ) (contents : Block)
    → IsCoherent s
    → IsCoherent (write_block s block contents)
unfolding IsCoherent write_block
write_block-IsCoherent s block contents v m = write_block-peek s block m contents ∙ rw (v m) refl
