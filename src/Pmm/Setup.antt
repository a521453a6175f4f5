-- ===== src/Pmm/Setup.antt =====
-- `pmm_memory_setup` of src/mm/pmm.c: which pages the memory map makes free.
use drip_os.Prelude.{
  add64, sub64, ℕ, zero, suc, ◌+◌, ◌*◌, ◌/◌, ◌%◌, ◌^◌, ◌<◌, ◌≤◌, ◌≡◌, refl, Bool, true, false, ◌&&◌,
  ◌||◌, not, arith, leb, ltb, ◌==◌, List, [], ◌∷◌, ◌∙◌, ap, bit_and, every, every_at, lt→ltb,
  Bool-cases, inl, inr,
}
use native.Mathlib.Nat.{le_trans}
use drip_os.Pmm.{
  Bitmap, is_free, get_bit, E820Entry, add_region, add_regions, fill_ones, round_up,
  bitmap_bytes_of, last_entry, memory_setup, page_size, kernel_bitmap_start_page,
  kernel_bitmap_pages,
}
use drip_os.Pmm.Bits.{
  IsBytes, within, is_free-set_range, is_free-clear_range, set_range-IsBytes, clear_range-IsBytes,
}
use drip_os.Pmm.Count.{count_free, count_free-set_range_le, count_free-clear_range}
use drip_os.Pmm.Alloc.{IsValid}

-- The entry describes usable memory from 1 MiB on that has the first byte of page `q`.
abbrev pub has_page : E820Entry → ℕ → Bool
has_page e q =
    (e.type == 1)
    && (leb 0x100000 e.addr && (leb e.addr (q * page_size) && ltb (q * page_size) (e.addr + e.len)))

abbrev pub some_has_page : List E820Entry → ℕ → Bool
some_has_page [] q = false
some_has_page (e ∷ es) q = has_page e q || some_has_page es q

-- No address of the memory map comes within a page of wrapping.
abbrev pub Fits : List E820Entry → Type 0
Fits [] = Unit {0}
Fits (e ∷ es) = (e.addr + e.len + 0xfff < 2 ^ 64) × Fits es

-- The bytes of the whole pages that the entries add to the free memory.
abbrev pub total_len : List E820Entry → ℕ
total_len [] = 0
total_len (e ∷ es) = (e.len + 0xfff) + total_len es

region_pages :
    (e : E820Entry) (q : ℕ)
    → e.addr + e.len + 0xfff < 2 ^ 64
    → within
        (round_up e.addr / page_size)
        (sub64 (round_up (add64 e.addr e.len)) (round_up e.addr) / page_size)
        q
      ≡ (leb e.addr (q * page_size) && ltb (q * page_size) (e.addr + e.len))
region_pages e q h = ground arith

-- One entry: the bytes stay bytes, exactly its pages become free, and the available memory grows by
-- at least the pages that became free and by no more than the rounded length.
record Added (bm : Bitmap) (available : ℕ) (e : E820Entry) (out : Bitmap × ℕ) : Type 0 where
  bytes : IsBytes out.0
  free : (q : ℕ) → is_free out.0 q ≡ (is_free bm q || has_page e q)
  counted :
      (n : ℕ)
      → page_size * count_free bm n ≤ available
      → available + (e.len + 0xfff) < 2 ^ 64
      → page_size * count_free out.0 n ≤ out.1
  bounded : out.1 ≤ available + (e.len + 0xfff)

add_region-Added :
    (bm : Bitmap) (available : ℕ) (e : E820Entry)
    → IsBytes bm
    → e.addr + e.len + 0xfff < 2 ^ 64
    → Added bm available e (add_region (bm, available) e)
unfolding add_region
add_region-Added bm available e v h =
    let start = round_up e.addr / page_size in
    let len = sub64 (round_up (add64 e.addr e.len)) (round_up e.addr) in
    elim (Bool-cases ((e.type == 1) && leb 0x100000 e.addr)) [
      | inl usable ↦ rw usable (record {
        bytes = clear_range-IsBytes bm start (len / page_size) v;
        free = λ q.
            ground (arith, is_free-clear_range bm start (len / page_size) q v, region_pages e q h);
        counted = λ n c room. omega (arith, count_free-clear_range bm start (len / page_size) n v);
        bounded = omega arith;
      })
      | inr useless ↦ rw useless (record {
        bytes = v;
        free = λ q. ground arith;
        counted = λ n c room. c;
        bounded = omega arith;
      })
    ]

record AddedAll (bm : Bitmap) (available : ℕ) (es : List E820Entry) (out : Bitmap × ℕ)
    : Type 0 where
  bytes : IsBytes out.0
  free : (q : ℕ) → is_free out.0 q ≡ (is_free bm q || some_has_page es q)
  counted :
      (n : ℕ)
      → page_size * count_free bm n ≤ available
      → available + total_len es < 2 ^ 64
      → page_size * count_free out.0 n ≤ out.1
  bounded : out.1 ≤ available + total_len es

or_assoc : (a b c : Bool) → ((a || b) || c) ≡ (a || (b || c))
or_assoc a b c = ground arith

add_regions-AddedAll :
    (bm : Bitmap) (available : ℕ) (es : List E820Entry)
    → IsBytes bm
    → Fits es
    → AddedAll bm available es (add_regions (bm, available) es)
unfolding add_regions
add_regions-AddedAll bm available [] v h = record {
  bytes = v;
  free = λ q. ground arith;
  counted = λ n c room. c;
  bounded = omega arith;
}
add_regions-AddedAll bm available (e ∷ es) v h =
    let next = add_region (bm, available) e in
    let one = add_region-Added bm available e v h.0 in
    let rest = add_regions-AddedAll next.0 next.1 es one.bytes h.1 in
    record {
      bytes = rest.bytes;
      free = λ q.
          rest.free q
          ∙ (ap (λ b. b || some_has_page es q) (one.free q) ∙ or_assoc (is_free bm q) _ _);
      counted =
          λ n c room. rest.counted n (one.counted n c (omega arith)) (omega (arith, one.bounded));
      bounded = omega (arith, rest.bounded, one.bounded);
    }

ones_table : every 8 (λ b. not (bit_and 0xff (2 ^ b) == 0)) ≡ true
unfolding every
ones_table = refl

fill_ones-used :
    (bm : Bitmap) (bytes q : ℕ) → q < bytes * 8 → is_free (fill_ones bm bytes) q ≡ false
unfolding fill_ones get_bit
fill_ones-used bm bytes q h =
    let bit : not (bit_and 0xff (2 ^ (q % 8)) == 0) ≡ true =
      every_at 8 (λ b. not (bit_and 0xff (2 ^ b) == 0)) ones_table (q % 8) (omega arith) in
    let inside : ltb (q / 8) bytes ≡ true = lt→ltb _ _ (omega arith) in rw inside (ground arith)

fill_ones-IsBytes : (bm : Bitmap) (bytes : ℕ) → IsBytes bm → IsBytes (fill_ones bm bytes)
unfolding fill_ones
fill_ones-IsBytes bm bytes v i = ground (arith, v i)

count_free-fill_ones :
    (bm : Bitmap) (bytes n : ℕ) → n ≤ bytes * 8 → count_free (fill_ones bm bytes) n ≡ 0
unfolding count_free
count_free-fill_ones bm bytes zero h = refl
count_free-fill_ones bm bytes (suc n) h =
    rw (fill_ones-used bm bytes n h) (omega (arith, count_free-fill_ones bm bytes n (omega arith)))

setup-AddedAll :
    (bm : Bitmap) (bytes : ℕ) (mmap : List E820Entry)
    → IsBytes bm
    → Fits mmap
    → AddedAll (fill_ones bm bytes) 0 mmap (add_regions (fill_ones bm bytes, 0) mmap)
setup-AddedAll bm bytes mmap v h =
    add_regions-AddedAll (fill_ones bm bytes) 0 mmap (fill_ones-IsBytes bm bytes v) h

-- The page is one of the kernel's: of those that hold the bytes from `kernel_start` up to `end`,
-- counted from the page that `kernel_start` is in, with the 64-bit differences that the source takes.
abbrev pub is_kernel : ℕ → ℕ → ℕ → Bool
is_kernel kernel_start end q =
    within (sub64 kernel_start 0xFFFFFFFF80000000 / 0x1000)
      (add64 (sub64 end kernel_start) 0xfff / 0x1000) q

-- After the setup with a memory map whose entries end at least a page below 2^64, a page that the
-- bitmap covers is free exactly if it is not one of those from the kernel's first on that hold as
-- many bytes as lie between the kernel's start and the bitmap's end, and some usable entry of the
-- memory map from 1 MiB on has the page's first byte. (Only the first byte: the page at the end of
-- an entry is free also if the entry ends inside it.)
pub memory_setup-is_free :
    (bm : Bitmap) (first : E820Entry) (others : List E820Entry) (kernel_start bitmap_at q : ℕ)
    → IsBytes bm
    → Fits (first ∷ others)
    → q < (memory_setup bm first others kernel_start bitmap_at).bitmap_max_page
    → is_free (memory_setup bm first others kernel_start bitmap_at).bitmap q ≡ (
        some_has_page (first ∷ others) q
        && not (
            is_kernel kernel_start
              (add64 bitmap_at (bitmap_bytes_of first (last_entry first others)))
              q))
unfolding memory_setup kernel_bitmap_start_page kernel_bitmap_pages
memory_setup-is_free bm first others kernel_start bitmap_at q v h lt =
    let bytes = bitmap_bytes_of first (last_entry first others) in
    let mmap = first ∷ others in
    let all = setup-AddedAll bm bytes mmap v h in
    let freed = (add_regions (fill_ones bm bytes, 0) mmap).0 in
    rw
      (
        is_free-set_range freed (kernel_bitmap_start_page kernel_start)
            (kernel_bitmap_pages kernel_start bitmap_at bytes) q all.bytes,
        all.free q,
      )
      (rw (fill_ones-used bm bytes q lt) (ground arith))

no_low_page : (es : List E820Entry) → some_has_page es 0 ≡ false
no_low_page [] = refl
no_low_page (e ∷ es) = ground (arith, no_low_page es)

mul_le_left : {a b : ℕ} → a ≤ b → page_size * a ≤ page_size * b
mul_le_left h = omega arith

-- The state after the setup is well formed, if the memory map's entries do not wrap, together are
-- smaller than the address space, and the bitmap covers page 0.
pub memory_setup-IsValid :
    (bm : Bitmap) (first : E820Entry) (others : List E820Entry) (kernel_start bitmap_at : ℕ)
    → IsBytes bm
    → Fits (first ∷ others)
    → total_len (first ∷ others) < 2 ^ 64
    → 0 < (memory_setup bm first others kernel_start bitmap_at).bitmap_max_page
    → IsValid (memory_setup bm first others kernel_start bitmap_at)
unfolding memory_setup
memory_setup-IsValid bm first others kernel_start bitmap_at v h room pos =
    let bytes = bitmap_bytes_of first (last_entry first others) in
    let kernel_page = kernel_bitmap_start_page kernel_start in
    let kernel_pages = kernel_bitmap_pages kernel_start bitmap_at bytes in
    let mmap = first ∷ others in
    let all = setup-AddedAll bm bytes mmap v h in
    let freed = (add_regions (fill_ones bm bytes, 0) mmap).0 in
    record {
      bytes = set_range-IsBytes freed kernel_page kernel_pages all.bytes;
      low =
          rw (is_free-set_range freed kernel_page kernel_pages 0 all.bytes, all.free 0)
            (rw (fill_ones-used bm bytes 0 pos) (ground (arith, no_low_page mmap)));
      counted =
          le_trans
            (mul_le_left
              (count_free-set_range_le freed kernel_page kernel_pages (bytes * 8) all.bytes))
            (all.counted (bytes * 8)
              (omega (arith, count_free-fill_ones bm bytes (bytes * 8) (omega arith)))
              (omega arith));
      bounded = omega (arith, all.bounded);
    }
