-- ===== src/Pmm/Tests.antt =====
-- Runs of src/mm/pmm.c on small bitmaps, and the theorems at concrete states.
use drip_os.Prelude.{
  ℕ, ◌+◌, ◌*◌, ◌/◌, ◌%◌, ◌<◌, ◌≤◌, ◌≡◌, refl, true, false, ◌&&◌, not, if◌then◌else◌, arith, ◌==◌,
  some, none, [], ◌∷◌, ◌⊎◌, every, every_at, ◌||◌, add64,
}
use drip_os.Pmm.{
  Pmm, Bitmap, is_free, get_bit, set_bit, clear_bit, set_range, clear_range, scan_step, scan,
  find_free_page, alloc, unalloc, take_pages, E820Entry, add_region, add_regions, fill_ones,
  bitmap_bytes_of, last_entry, memory_setup, pages_of, page_size, kernel_bitmap_start_page,
  kernel_bitmap_pages,
}
use drip_os.Pmm.Bits.{IsBytes, within}
use drip_os.Pmm.Count.{count_free}
use drip_os.Pmm.Alloc.{
  IsValid, alloc-takes, alloc-IsValid, alloc-disjoint, unalloc-alloc, alloc-succeeds,
}
use drip_os.Pmm.Setup.{some_has_page, is_kernel, memory_setup-is_free}

-- Sixteen pages, of which page 0 is in use.
abbrev bits : Bitmap
bits i = if i == 0 then 1 else 0

abbrev state : Pmm
state = record {
  bitmap = bits;
  bitmap_max_page = 16;
  total_memory = 15 * 0x1000;
  used_memory = 0;
  available_memory = 15 * 0x1000;
}

abbrev after : Pmm
after = take_pages state 1 2

abbrev after_two : Pmm
after_two = take_pages after 3 1

bits-IsBytes : IsBytes bits
bits-IsBytes i = ground arith

state-IsValid : IsValid state
unfolding count_free get_bit
state-IsValid = record {
  bytes = bits-IsBytes;
  low = refl;
  counted = omega arith;
  bounded = omega arith;
}

first_alloc : alloc state 0x1001 ≡ some (0x1000, after)
unfolding alloc find_free_page scan scan_step get_bit
first_alloc = refl

second_alloc : alloc after 5 ≡ some (0x3000, after_two)
unfolding alloc find_free_page scan scan_step get_bit take_pages set_range set_bit
second_alloc = refl

too_large : alloc state 0x10000 ≡ none
unfolding alloc find_free_page scan scan_step get_bit
too_large = refl

free_outside : unalloc state 0x10000 1 ≡ none
unfolding unalloc
free_outside = refl

alloc-takes_example :
    (0x1000 % 0x1000 ≡ 0)
    × (0x1001 ≤ pages_of 0x1001 * page_size)
    × (0x1000 / page_size + pages_of 0x1001 ≤ 16)
    × ((within (0x1000 / page_size) (pages_of 0x1001) 2 && not (is_free bits 2)) ≡ false)
    × (is_free after.bitmap 2
        ≡ (is_free bits 2 && not (within (0x1000 / page_size) (pages_of 0x1001) 2)))
alloc-takes_example = alloc-takes 0x1001 0x1000 2 state-IsValid (omega arith) first_alloc

alloc-IsValid_example :
    IsValid after
    × (after.available_memory + pages_of 0x1001 * page_size ≡ 15 * 0x1000)
    × (after.used_memory ≡ 0 + pages_of 0x1001 * page_size)
    × (after.bitmap_max_page ≡ 16)
alloc-IsValid_example = alloc-IsValid 0x1001 0x1000 state-IsValid (omega arith) first_alloc

alloc-disjoint_example : (0x1000 + 0x1001 ≤ 0x3000) ⊎ (0x3000 + 5 ≤ 0x1000)
alloc-disjoint_example =
    alloc-disjoint 0x1001 5 0x1000 0x3000 state-IsValid (omega arith) (omega arith) first_alloc
      second_alloc

unalloc-alloc_example :
    (t : Pmm) × (unalloc after 0x1000 0x1001 ≡ some t)
    × (is_free t.bitmap 1 ≡ is_free bits 1)
    × (t.available_memory ≡ 15 * 0x1000)
    × (t.used_memory ≡ 0)
unalloc-alloc_example = unalloc-alloc 0x1001 0x1000 1 state-IsValid (omega arith) first_alloc

abbrev freed : Pmm
freed = record after {
  bitmap = clear_range after.bitmap 2 1;
  available_memory = 14 * 0x1000;
  used_memory = 0x1000;
}

free_table : every 16 (λ q. (q == 0) || is_free bits q) ≡ true
unfolding every get_bit
free_table = refl

free_above : (q : ℕ) → 0 < q → q < 16 → is_free bits q ≡ true
free_above q lo hi = ground (arith, every_at 16 (λ q. (q == 0) || is_free bits q) free_table q hi)

alloc-succeeds_example :
    (addr : ℕ) × (t : Pmm) × (alloc state 0x4000 ≡ some (addr, t)) × (addr ≤ 9 * page_size)
alloc-succeeds_example =
    alloc-succeeds 0x4000 9 state-IsValid (omega arith) (omega arith)
      (λ q lo hi. free_above q (omega arith) (omega arith))

-- Pages 0 to 7 are free, page 8 is in use.
abbrev low_free : Pmm
low_free = record state { bitmap = λ i. if i == 1 then 1 else 0 }

low_table : every 8 (λ q. is_free low_free.bitmap q) ≡ true
unfolding every get_bit
low_table = refl

page_8_in_use : is_free low_free.bitmap 8 ≡ false
unfolding get_bit
page_8_in_use = refl

-- One reserved entry, then usable memory from 1 MiB with its end inside a page.
abbrev low_entry : E820Entry
low_entry = record { addr = 0; len = 0x100000; type = 2 }

abbrev high_entry : E820Entry
high_entry = record { addr = 0x100000; len = 0x7801; type = 1 }

abbrev booted : Pmm
booted = memory_setup (λ i. 0) low_entry (high_entry ∷ []) 0xFFFFFFFF80100000 0xFFFFFFFF80101000

booted_pages :
    (is_free booted.bitmap 0xff ≡ false)
    × (is_free booted.bitmap 0x101 ≡ false)
    × (is_free booted.bitmap 0x102 ≡ true)
    × (is_free booted.bitmap 0x107 ≡ true)
unfolding memory_setup add_regions add_region fill_ones bitmap_bytes_of last_entry get_bit set_range
    set_bit clear_range clear_bit kernel_bitmap_start_page kernel_bitmap_pages
booted_pages = (refl, refl, refl, refl)

memory_setup-is_free_example : is_free booted.bitmap 0x107 ≡ (
    some_has_page (low_entry ∷ high_entry ∷ []) 0x107
    && not (
        is_kernel 0xFFFFFFFF80100000
          (add64 0xFFFFFFFF80101000 (bitmap_bytes_of low_entry high_entry))
          0x107))
unfolding memory_setup bitmap_bytes_of last_entry
memory_setup-is_free_example =
    memory_setup-is_free (λ i. 0) low_entry (high_entry ∷ []) 0xFFFFFFFF80100000 0xFFFFFFFF80101000
      0x107 (λ i. omega arith) (omega arith) (omega arith)
