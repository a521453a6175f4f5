-- ===== src/Echfs/Contents.antt =====
-- `write_for_range` (src/fs/filesystems/echfs.c): what a file holds afterwards.
use native.Mathlib.Nat.{div-add-mod'}
use drip_os.Prelude.{
  ℕ, suc, ◌+◌, ◌-◌, ◌*◌, ◌/◌, ◌%◌, ◌≤◌, ◌≡◌, ◌≢◌, refl, sym, ap, ◌∙◌, false, ◌&&◌, some, List,
  if◌then◌else◌, arith, length, leb, ltb, get_elem?, Bool-cases, inl, inr,
}
use drip_os.Echfs.{Block, Geometry, Store, byte_at, write_for_range}
use drip_os.Echfs.Cache.{SameView, peek, entry_of-SameView}
use drip_os.Echfs.Chains.{IsChain, IsChain-SameView, nth, after, skip_blocks-IsChain}
use drip_os.Echfs.Ranges.{
  content, nth-after, length-after, byte_at-block, blocks_to_read-span, reach, InFile, first-last,
  read_blocks-Reads,
}
use drip_os.Echfs.Write.{IsFile, SameTable, Written, write_chain-Written}
use drip_os.Echfs.Places.{
  patched, write_blocks-runs, write_for_range-runs, nth-IsFile, Inside, Inside-range, range-shift,
  range-outside,
}

-- What `write_for_range` leaves.
pub record Updated (g : Geometry) (s s' : Store) (b : ℕ) (rest : List ℕ) (start count : ℕ)
    (from : ℕ → ℕ) : Type 0 where
  pub table : SameTable g s s'
  pub bytes :
      (p : ℕ)
      → p / g.block_size ≤ length rest
      → content g s' b rest p
        ≡ (if leb start p && ltb p (start + count) then from (p - start) else content g s b rest p)
  pub others : (m : ℕ) → ((i : ℕ) → i ≤ length rest → nth b rest i ≢ m) → peek s' m ≡ peek s m

module _ (g : Geometry) (s s2 s3 : Store) (b : ℕ) (rest : List ℕ) (start count : ℕ) (from : ℕ → ℕ)
    (buffer : List Block) (h : InFile g rest start count) (file : IsFile g b rest)
    (same : SameView s s2)
    (blocks : (i : ℕ)
      → i ≤ reach g start count
      → get_elem? buffer i ≡ some (peek s (nth b rest (start / g.block_size + i))))
    (written : Written g s2 s3
      (nth b rest (start / g.block_size))
      (after rest (start / g.block_size))
      (reach g start count)
      (patched g buffer start count from)) where
  reached : start / g.block_size ≤ length rest
  reached = omega (arith, first-last g rest start count h, h.in_chain)

  -- A byte of a block that was written.
  patched-content :
      (p : ℕ)
      → Inside g start count p
      → content g s3 b rest p
        ≡ (if leb start p && ltb p (start + count) then from (p - start) else content g s b rest p)
  patched-content p at =
      let bs = g.block_size in
      let d = start / bs in
      let i = at.index in
      let j = i * bs + p % bs in
      let here : nth b rest (p / bs) ≡ nth (nth b rest d) (after rest d) i =
        ap (nth b rest) at.block ∙ sym (nth-after b rest d i reached) in
      let old : byte_at g buffer j ≡ content g s b rest p =
        byte_at-block g buffer j (peek s (nth b rest (d + i)))
          (rw at.quotient (blocks i at.index_le))
        ∙ rw (at.remainder, at.block) refl in
      let test =
        range-shift start p (d * bs) (start % bs) j count (sym (div-add-mod' start bs)) at.there in
      let distance : j - start % bs ≡ p - start = omega (arith, at.there, div-add-mod' start bs) in
      ap (λ m. peek s3 m (p % bs)) here
      ∙ written.inside i at.index_le (p % bs)
      ∙ rw (test, old, distance) refl

  kept-content :
      (p : ℕ)
      → p / g.block_size ≤ length rest
      → (leb (start / g.block_size) (p / g.block_size)
          && leb (p / g.block_size) ((start + count - 1) / g.block_size))
        ≡ false
      → content g s3 b rest p
        ≡ (if leb start p && ltb p (start + count) then from (p - start) else content g s b rest p)
  kept-content p le e =
      let d = start / g.block_size in
      let q = p / g.block_size in
      let untouched : peek s3 (nth b rest q) ≡ peek s2 (nth b rest q) =
        written.outside (nth b rest q) (λ i lt at.
          let inside : d + i ≤ length rest =
            omega (arith, lt, reached, h.in_chain, first-last g rest start count h) in
          let index = file.distinct (d + i) q inside le (sym (nth-after b rest d i reached) ∙ at) in
          ground (arith, e, index, lt, reached, first-last g rest start count h)) in
      ap (λ f. f (p % g.block_size)) (untouched ∙ same (nth b rest q))
      ∙ rw (range-outside g start count p h.positive e) refl

  updated-others : (m : ℕ) → ((i : ℕ) → i ≤ length rest → nth b rest i ≢ m) → peek s3 m ≡ peek s m
  updated-others m apart =
      written.outside m (λ i lt at.
        apart (start / g.block_size + i)
          (omega (arith, lt, reached, h.in_chain, first-last g rest start count h))
          (sym (nth-after b rest (start / g.block_size) i reached) ∙ at))
      ∙ same m

  updated : Updated g s s3 b rest start count from
  updated = record {
    table = λ x lt. written.table x lt ∙ entry_of-SameView g s s2 x same;
    bytes = λ p le.
        elim (Bool-cases (
          leb (start / g.block_size) (p / g.block_size)
          && leb (p / g.block_size) ((start + count - 1) / g.block_size))) [
            | inl e ↦
                patched-content p
                  (Inside-range g start count p h.positive (ground (arith, e)) (ground (arith, e)))
            | inr e ↦ kept-content p le e
          ];
    others = updated-others;
  }

-- `write_for_range` on a file whose blocks are distinct and outside the allocation table, where
-- the chain reaches as far and the numbers stay below 2^64: it reports success, the table is as
-- it was, each byte of the file is the new one inside the range and the old one outside, and
-- every other block reads as before.
pub write_for_range-Updated :
    (g : Geometry) (s : Store) (b : ℕ) (rest : List ℕ) (write_start write_count : ℕ) (from : ℕ → ℕ)
    → InFile g rest write_start write_count
    → IsChain g s b rest
    → IsFile g b rest
    → (s' : Store) × (write_for_range g b write_start write_count from s ≡ (0, s'))
      × Updated g s s' b rest write_start write_count from
write_for_range-Updated g s b rest start count from h v file =
    let d = start / g.block_size in
    let inside : d ≤ length rest = omega (arith, first-last g rest start count h, h.in_chain) in
    let (buffer, s1, reads, same1, blocks) = read_blocks-Reads g s b rest start count h v in
    let (s2, skips, same2, v2) =
      skip_blocks-IsChain g d b rest s1 (IsChain-SameView g s s1 b rest same1 v) inside in
    let b1 = nth b rest d in
    let (s3, writes, written) =
      write_chain-Written g (reach g start count) b1 (after rest d) s2
        (patched g buffer start count from) (IsChain-SameView g s1 s2 b1 (after rest d) same2 v2)
        (nth-IsFile g b rest d inside file) (omega (arith, h.in_chain, length-after rest d)) in
    (
      s3,
      write_for_range-runs g b start count from s s1 s3 buffer reads (
          write_blocks-runs g b start count b1 (suc (reach g start count))
            (patched g buffer start count from) s1 s2 s3 skips
            (blocks_to_read-span g start count h.positive h.some_bytes h.fits) writes),
      updated g s s2 s3 b rest start count from buffer h file (λ m. same2 m ∙ same1 m) blocks
          written,
    )
