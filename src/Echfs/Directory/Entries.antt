-- ===== src/Echfs/Directory/Entries.antt =====
-- src/fs/filesystems/echfs.c: reading a file whose entry is found, where `echfs_write` puts the
-- bytes of its buffer, and the choice of a place for a new entry.

use drip_os.Prelude.{
  ℕ, zero, suc, ◌+◌, ◌-◌, ◌*◌, ◌/◌, ◌%◌, ◌^◌, ◌≤◌, ◌<◌, ◌≡◌, refl, sym, ap, ◌∙◌, Bool, true, false,
  ◌||◌, none, List, ◌==◌, arith, inl, inr, Bool-cases, ==_iff, length, subst, ltb, add64,
  false≢true,
}
use drip_os.Echfs.{Geometry, Store, write_blocks_for_range}
use drip_os.Echfs.Cache.{peek}
use drip_os.Echfs.Chains.{IsChain, IsChain-SameView, nth, after, skip_blocks-IsChain}
use drip_os.Echfs.Ranges.{
  content, nth-after, length-after, blocks_to_read-span, reach, InFile, first-last,
}
use drip_os.Echfs.Write.{IsFile, write_chain-Written}
use drip_os.Echfs.Places.{write_blocks-runs, nth-IsFile, Inside-range}
use drip_os.Echfs.Directory.{
  DirEntry, Directory, deleted_entry, entry_size, free_entry_from, get_free_directory_entry, einval,
  read_entry,
}

-- `echfs_read` of bytes behind the end of the file is refused, and changes nothing.
pub read_entry-einval :
    (g : Geometry) (s : Store) (entry : DirEntry) (seek count : ℕ)
    → 0 < count
    → count + seek < 2 ^ 64
    → entry.file_size_bytes < count + seek
    → read_entry g entry seek count s ≡ ((einval, none, seek), s)
unfolding read_entry
read_entry-einval g s entry seek count some_bytes fits beyond =
    let first : (count == 0) ≡ false = ground (arith, some_bytes) in
    let sum : add64 count seek ≡ count + seek = omega (arith, fits) in
    let outside : ltb entry.file_size_bytes (count + seek) ≡ true = ground (arith, beyond) in
    rw (first, sum, outside) refl

-- `write_blocks_for_range`, which `echfs_write` gives its buffer as it is: in every block of the
-- range, from the first byte of the first block on, the file has the bytes of the buffer. The
-- buffer's first byte goes to the start of that block, wherever in it the range starts.
pub write_blocks_for_range-content :
    (g : Geometry) (s : Store) (b : ℕ) (rest : List ℕ) (write_start write_count : ℕ) (from : ℕ → ℕ)
    → InFile g rest write_start write_count
    → IsChain g s b rest
    → IsFile g b rest
    → (s' : Store) × (write_blocks_for_range g b write_start write_count from s ≡ (0, s'))
      × ((p : ℕ)
          → write_start / g.block_size ≤ p / g.block_size
          → p / g.block_size ≤ (write_start + write_count - 1) / g.block_size
          → content g s' b rest p ≡ from (p - write_start / g.block_size * g.block_size))
write_blocks_for_range-content g s b rest start count from h v file =
    let d = start / g.block_size in
    let inside : d ≤ length rest = omega (arith, first-last g rest start count h, h.in_chain) in
    let (s1, skips, same1, v1) = skip_blocks-IsChain g d b rest s v inside in
    let b1 = nth b rest d in
    let (s2, writes, written) =
      write_chain-Written g (reach g start count) b1 (after rest d) s1 from
        (IsChain-SameView g s s1 b1 (after rest d) same1 v1) (nth-IsFile g b rest d inside file)
        (omega (arith, h.in_chain, length-after rest d)) in
    (
      s2,
      write_blocks-runs g b start count b1 (suc (reach g start count)) from s s1 s2 skips
          (blocks_to_read-span g start count h.positive h.some_bytes h.fits) writes,
      λ p lo hi.
          let at = Inside-range g start count p h.positive lo hi in
          let here = ap (nth b rest) at.block ∙ sym (nth-after b rest d at.index inside) in
          let distance : at.index * g.block_size + p % g.block_size ≡ p - d * g.block_size =
            omega (arith, at.there) in
          ap (λ m. peek s2 m (p % g.block_size)) here
          ∙ written.inside at.index at.index_le (p % g.block_size)
          ∙ ap from distance,
    )

-- A place that a new entry may take.
abbrev pub is_vacant : DirEntry → Bool
is_vacant e = (e.parent_id == 0) || (e.parent_id == deleted_entry)

free_entry_from-first :
    (dir : Directory) (n i k : ℕ)
    → i ≤ k
    → k < i + n
    → is_vacant (dir k) ≡ true
    → (is_vacant (dir (free_entry_from dir n i)) ≡ true)
      × (free_entry_from dir n i ≤ k)
      × ((j : ℕ) → i ≤ j → j < free_entry_from dir n i → is_vacant (dir j) ≡ false)
unfolding free_entry_from
free_entry_from-first dir zero i k lo hi v = absurd (omega (arith, lo, hi))
free_entry_from-first dir (suc n) i k lo hi v = elim (Bool-cases (is_vacant (dir i))) [
  | inl e ↦ rw e (e, lo, λ j lo' hi'. absurd (omega (arith, lo', hi')))
  | inr e ↦
      let later : i + 1 ≤ k = elim (Bool-cases (i == k)) [
        | inl x ↦
            absurd (
              false≢true (sym e ∙ subst (λ j. is_vacant (dir j) ≡ true) (sym ((==_iff i k).0 x)) v))
        | inr x ↦ ground arith
      ] in
      let (vacant, le, before) =
        free_entry_from-first dir n (i + 1) k later (omega (arith, hi)) v in
      rw e (
        vacant,
        le,
        λ j lo' hi'. elim (Bool-cases (i == j)) [
          | inl x ↦ subst (λ m. is_vacant (dir m) ≡ false) ((==_iff i j).0 x) e
          | inr x ↦ before j (ground arith) hi'
        ],
      )
]

-- A new entry gets the first place whose parent is 0 or that is marked as deleted, where the main
-- directory has one.
pub get_free_directory_entry-first :
    (g : Geometry) (dir : Directory) (k : ℕ)
    → k < g.main_dir_blocks * g.block_size % 2 ^ 64 / entry_size
    → is_vacant (dir k) ≡ true
    → (is_vacant (dir (get_free_directory_entry g dir)) ≡ true)
      × (get_free_directory_entry g dir ≤ k)
      × ((j : ℕ) → j < get_free_directory_entry g dir → is_vacant (dir j) ≡ false)
unfolding get_free_directory_entry
get_free_directory_entry-first g dir k lt v =
    let (vacant, le, before) =
      free_entry_from-first dir (g.main_dir_blocks * g.block_size % 2 ^ 64 / entry_size) 0 k
        (omega arith) (omega (arith, lt)) v in
    (vacant, le, λ j below. before j (omega arith) below)
