-- ===== src/Pmm.antt =====
-- src/mm/pmm.c: the physical page allocator over a bitmap, one bit for each page of 4 KiB; a set
-- bit is a page in use. The bitmap is raw memory behind a pointer, so it is a function from byte
-- offsets to bytes. Diagnostics printed on the serial line, the locks and the interrupt flag leave
-- no trace in the state. The source stops the processor with `hlt` where it finds no memory or is
-- asked to free a page it does not manage: this is the `none` of `alloc` and `unalloc`.
pub mod Bits
pub mod Search
pub mod Count
pub mod Alloc
pub mod Setup
mod Tests
use drip_os.Prelude.{
  ℕ, zero, suc, ◌+◌, ◌-◌, ◌*◌, ◌/◌, ◌%◌, ◌^◌, bit_and, bit_or, Bool, true, false, ◌&&◌, Option,
  none, some, List, [], ◌∷◌, if◌then◌else◌, ◌==◌, leb, ltb, add64, sub64,
}

abbrev pub Bitmap : Type 0
Bitmap = ℕ → ℕ

-- The globals of the file.
pub record Pmm : Type 0 where
  pub bitmap : Bitmap
  pub bitmap_max_page : ℕ
  pub total_memory : ℕ
  pub used_memory : ℕ
  pub available_memory : ℕ

abbrev pub page_size : ℕ
page_size = 0x1000

abbrev pub write_byte : Bitmap → ℕ → ℕ → Bitmap
write_byte bm byte v i = if byte == i then v else bm i

pub set_bit : Bitmap → ℕ → Bitmap
set_bit bm page =
    let byte = page / 8 in let bit = page % 8 in write_byte bm byte (bit_or (bm byte) (2 ^ bit))

-- `&= ~(1<<bit)` on a byte.
pub clear_bit : Bitmap → ℕ → Bitmap
clear_bit bm page =
    let byte = page / 8 in
    let bit = page % 8 in write_byte bm byte (bit_and (bm byte) (255 - 2 ^ bit))

unfoldable pub get_bit : Bitmap → ℕ → ℕ
get_bit bm page = bit_and (bm (page / 8)) (2 ^ (page % 8))

-- `!pmm_get_bit(page)`
abbrev pub is_free : Bitmap → ℕ → Bool
is_free bm page = get_bit bm page == 0

-- `for (i = 0; i < n; i++) pmm_set_bit(page + i);`, from the last page down: the order of the
-- rounds does not matter.
pub set_range : Bitmap → ℕ → ℕ → Bitmap
set_range bm page zero = bm
set_range bm page (suc n) = set_bit (set_range bm page n) (page + n)

pub clear_range : Bitmap → ℕ → ℕ → Bitmap
clear_range bm page zero = bm
clear_range bm page (suc n) = clear_bit (clear_range bm page n) (page + n)

-- One round of the loop of `find_free_page` at page `i`: the new `found_pages` and `first_page`.
pub scan_step : Bitmap → ℕ → ℕ → ℕ → ℕ × ℕ
scan_step bm i found first =
    if is_free bm i then (found + 1, (if first == 0 then i else first)) else (0, 0)

-- The loop from page `i` with `n` rounds left. `found_pages` is at most `i`, so it cannot wrap.
pub scan : Bitmap → ℕ → ℕ → ℕ → ℕ → ℕ → Option ℕ
scan bm pages zero i found first = none
scan bm pages (suc n) i found first =
    let next = scan_step bm i found first in
    let rest = scan bm pages n (i + 1) next.0 next.1 in
    if next.0 == pages then some next.1 else rest

pub find_free_page : Pmm → ℕ → Option ℕ
find_free_page s pages = scan s.bitmap pages s.bitmap_max_page 0 0 0

-- `(size + 0x1000 - 1) / 0x1000` on `uint64_t`
abbrev pub pages_of : ℕ → ℕ
pages_of size = (size + 0x1000 - 1) % 2 ^ 64 / page_size

-- `pmm_alloc` after the search has found `free_page`.
pub take_pages : Pmm → ℕ → ℕ → Pmm
take_pages s free_page pages = record s {
  bitmap = set_range s.bitmap free_page pages;
  available_memory = sub64 s.available_memory (pages * page_size);
  used_memory = add64 s.used_memory (pages * page_size);
}

-- The physical address of the first page, and the new state.
pub alloc : Pmm → ℕ → Option (ℕ × Pmm)
alloc s size = elim (find_free_page s (pages_of size)) [
  | none ↦ none
  | some free_page ↦ some (free_page * page_size, take_pages s free_page (pages_of size))
]

-- An address that is not on a page boundary is reported, and then rounded down.
pub unalloc : Pmm → ℕ → ℕ → Option Pmm
unalloc s addr size =
    let page = (addr - addr % page_size) / page_size in
    let pages = pages_of size in
    if ltb s.bitmap_max_page (page + pages)
    then none
    else some (record s {
      bitmap = clear_range s.bitmap page pages;
      available_memory = add64 s.available_memory (pages * page_size);
      used_memory = sub64 s.used_memory (pages * page_size);
    })

-- An entry of the e820 memory map, as far as the allocator reads it.
pub record E820Entry : Type 0 where
  pub addr : ℕ
  pub len : ℕ
  pub type : ℕ

-- `ROUND_UP(n, 0x1000)`
abbrev pub round_up : ℕ → ℕ
round_up n = add64 n 0xfff / page_size * page_size

-- One round of the loop over the memory map: the bitmap and `available_memory`.
pub add_region : Bitmap × ℕ → E820Entry → Bitmap × ℕ
add_region (bm, available) e =
    let start = round_up e.addr in
    let len = sub64 (round_up (add64 e.addr e.len)) start in
    if (e.type == 1) && leb 0x100000 e.addr
    then (clear_range bm (start / page_size) (len / page_size), add64 available len)
    else (bm, available)

pub add_regions : Bitmap × ℕ → List E820Entry → Bitmap × ℕ
add_regions acc [] = acc
add_regions acc (e ∷ es) = add_regions (add_region acc e) es

-- `memset(bitmap, 0xFF, bitmap_bytes)`
pub fill_ones : Bitmap → ℕ → Bitmap
fill_ones bm bytes i = if ltb i bytes then 0xff else bm i

-- One bit for each page from the start of the first entry to the end of the last.
pub bitmap_bytes_of : E820Entry → E820Entry → ℕ
bitmap_bytes_of start end =
    let mem_length = round_up (sub64 (add64 end.addr end.len) start.addr) in
    (mem_length / page_size + 8 - 1) / 8

-- `mmap[memory_map_entries - 1]`; a map without entries is not met.
pub last_entry : E820Entry → List E820Entry → E820Entry
last_entry e [] = e
last_entry e (f ∷ es) = last_entry f es

-- `KERNEL_VMA_OFFSET`
abbrev pub kernel_vma_offset : ℕ
kernel_vma_offset = 0xFFFFFFFF80000000

-- The physical page that the kernel image starts in.
pub kernel_bitmap_start_page : ℕ → ℕ
kernel_bitmap_start_page kernel_start = sub64 kernel_start kernel_vma_offset / page_size

-- The pages of the kernel image and the bitmap behind it, which has this address and size.
pub kernel_bitmap_pages : ℕ → ℕ → ℕ → ℕ
kernel_bitmap_pages kernel_start bitmap_at bitmap_bytes =
    let kernel_bitmap_len = sub64 (add64 bitmap_at bitmap_bytes) kernel_start in
    add64 kernel_bitmap_len 0xfff / page_size

-- `pmm_memory_setup` up to the switch of the page table: the memory at the bitmap's place before,
-- the memory map (its first entry and the others), the address `__kernel_start`, which the linker
-- fixes, and the bitmap's address, behind the kernel image and the boot loader's information.
pub memory_setup : Bitmap → E820Entry → List E820Entry → ℕ → ℕ → Pmm
memory_setup bm first others kernel_start bitmap_at =
    let bitmap_bytes = bitmap_bytes_of first (last_entry first others) in
    let mmap = first ∷ others in
    let freed = add_regions (fill_ones bm bitmap_bytes, 0) mmap in
    record {
      bitmap =
          set_range freed.0 (kernel_bitmap_start_page kernel_start)
            (kernel_bitmap_pages kernel_start bitmap_at bitmap_bytes);
      bitmap_max_page = bitmap_bytes * 8;
      total_memory = freed.1;
      used_memory = 0;
      available_memory = freed.1;
    }
